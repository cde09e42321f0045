-- ===== src/Service/StepUp/Recovery.antt =====
-- service.py: the recovery code that a step-up takes.
use mathlib.Core.List.{Mem, mem-cons_self, mem-cons_of_mem}
use coreline_auth_module.Common.{
  ◌≡◌, refl, subst, String, true, ◌&&◌, Option, none, some, List, [], ◌∷◌, is_none, arith, eq_iff,
  ◌==◌, Bool-cases, inl, inr,
}
use coreline_auth_module.Common.Dict
use coreline_auth_module.Common.Dict.{Dict}
use coreline_auth_module.Errors.{
  Result, ok, raise, authentication_failed, configuration, validation, authorization_denied,
  storage, value_error,
}
use coreline_auth_module.Host.{Host}
use coreline_auth_module.Models.{AuthRecoveryCode}
use coreline_auth_module.Security.{hash_secret}
use coreline_auth_module.Storage.{Storage, mark_recovery_code_used}
use coreline_auth_module.Storage.Factors.Once.{is_spent_code, mark_code-spends}
use coreline_auth_module.World.{World}
use coreline_auth_module.World.Actions.{stored}
use coreline_auth_module.World.Outcomes.{Outcome, Ensures, bind-Ensures, act-Ensures, fact-Ensures}
use coreline_auth_module.Service.Config.{Service}
use coreline_auth_module.Service.StepUp.{find_code, as_invalid, use_code}

-- An unused code of the list has the hash of the code.
pub record IsSavedOf (host : Host) (codes : List AuthRecoveryCode) (code : String)
    (saved : AuthRecoveryCode) : Type 0 where
  pub listed : Mem saved codes
  pub unused : saved.used_at ≡ none
  pub hashed : saved.code_hash ≡ hash_secret host code

none_of : {A : Type 0} (o : Option A) → is_none o ≡ true → o ≡ none
none_of none h = refl
none_of (some a) h = absurd (ground (arith, h))

module _ (host : Host) (svc : Service) where
  pub find_code-IsSavedOf :
      (codes : List AuthRecoveryCode) (code : String) (saved : AuthRecoveryCode)
      → find_code host svc (hash_secret host code) codes ≡ some saved
      → IsSavedOf host codes code saved
  unfolding find_code
  find_code-IsSavedOf [] code saved e = absurd (ground (arith, e))
  find_code-IsSavedOf (c ∷ cs) code saved e =
      elim (Bool-cases (is_none c.used_at && (c.code_hash == hash_secret host code))) [
        | inl here ↦
            let same : c ≡ saved = ground (arith, here, e) in
            subst (IsSavedOf host (c ∷ cs) code) same (record {
              listed = mem-cons_self;
              unused = none_of c.used_at (ground (arith, here));
              hashed = (eq_iff c.code_hash (hash_secret host code)).0 (ground (arith, here));
            })
        | inr away ↦
            let k = find_code-IsSavedOf cs code saved (ground (arith, away, e)) in
            record { listed = mem-cons_of_mem c k.listed; unused = k.unused; hashed = k.hashed }
      ]

  stored-Outcome :
      (r : Result Storage) (Q : Storage → Type 0) (w : World)
      → ((s : Storage) → r ≡ ok s → Q s)
      → Outcome
          (λ _ w'. Q w'.storage)
          (λ _. Unit {0})
          (stored (as_invalid host svc r) w).0
          (stored (as_invalid host svc r) w).1
  stored-Outcome (ok s) Q w k = k s refl
  stored-Outcome (raise (authentication_failed m)) Q w k = tt
  stored-Outcome (raise (configuration m)) Q w k = tt
  stored-Outcome (raise (validation m)) Q w k = tt
  stored-Outcome (raise (authorization_denied m)) Q w k = tt
  stored-Outcome (raise (storage m)) Q w k = tt
  stored-Outcome (raise (value_error m)) Q w k = tt

  -- The code that is used is stored as used.
  pub use_code-Ensures :
      (saved : AuthRecoveryCode) (C : Type 0)
      → Ensures
          (λ _. C)
          (use_code host svc saved)
          (λ _ w. C × (is_spent_code (Dict.get saved.id w.storage.recovery_codes) ≡ true))
          (λ _. Unit {0})
  unfolding use_code
  use_code-Ensures saved C = bind-Ensures (fact-Ensures C) (λ now. act-Ensures (λ w c.
      stored-Outcome (mark_recovery_code_used saved.id now w.storage)
        (λ s. C × (is_spent_code (Dict.get saved.id s.recovery_codes) ≡ true)) w
        (λ s e. (c, mark_code-spends saved.id now w.storage s e))))
