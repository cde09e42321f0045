-- ===== src/Service/Factors/Verification.antt =====
-- service.py: what `verify_totp` checks of the factor and the code that it accepts.
use mathlib.Core.List.{Mem, mem-cons_self, mem-cons_of_mem}
use coreline_auth_module.Common.{
  ℕ, String, ◌≡◌, refl, subst, true, false, ◌&&◌, Option, some, none, List, [], ◌∷◌, arith, inl,
  inr, Bool-cases, eq_iff,
}
use coreline_auth_module.Common.Dict
use coreline_auth_module.Errors.{ok}
use coreline_auth_module.Host.{Host}
use coreline_auth_module.Mfa.{totp_counter_for_code, load_totp_secret}
use coreline_auth_module.Models.{AuthMfaFactor, is_totp}
use coreline_auth_module.Security.{hash_secret}
use coreline_auth_module.Storage.{list_mfa_factors}
use coreline_auth_module.Storage.Factors.{is_replay}
use coreline_auth_module.Storage.Factors.Once.{mark-stores, mark-uses}
use coreline_auth_module.World.{World, ◌>>=◌, ◌>>◌}
use coreline_auth_module.World.Actions.{pure}
use coreline_auth_module.World.Outcomes.{
  Ensures, bind-Ensures, act-Ensures, pre-Ensures, returned, trivial-Ensures, option-Ensures,
}
use coreline_auth_module.Service.Config.{Service}
use coreline_auth_module.Service.Support.{metric}
use coreline_auth_module.Service.Factors.{
  hash_agrees, counter_with, factor_code_counter, use_counter, try_factor, try_factors, verify_totp,
}

-- The code has the counter, by a secret whose hash the factor keeps.
pub record IsCodeOf (host : Host) (factor : AuthMfaFactor) (code : String) (counter : ℕ)
    : Type 0 where
  pub secret : String
  pub time : ℕ
  pub known : factor.secret_hash ≡ some (hash_secret host secret)
  pub matching : totp_counter_for_code host secret code time ≡ some counter

-- An enabled TOTP factor of the list took the code for a counter that it had not used, and is
-- stored with that counter as the last one used.
pub record IsAccepted (host : Host) (factors : List AuthMfaFactor) (code : String)
    (updated : AuthMfaFactor) (w : World) : Type 0 where
  pub factor : AuthMfaFactor
  pub counter : ℕ
  pub listed : Mem factor factors
  pub totp : is_totp factor.factor_type ≡ true
  pub enabled : factor.enabled ≡ true
  pub code_of : IsCodeOf host factor code counter
  pub fresh : is_replay counter factor.last_used_counter ≡ false
  pub stored : Dict.get factor.id w.storage.mfa_factors ≡ some updated
  pub used : updated.last_used_counter ≡ some counter

module _ (host : Host) (svc : Service) where
  abbrev Counted : AuthMfaFactor → String → Option ℕ → Type 0
  Counted factor code found = (c : ℕ) → found ≡ some c → IsCodeOf host factor code c

  hash_agrees_lem :
      (h : Option String) (secret : String)
      → hash_agrees host svc h secret ≡ true
      → h ≡ some (hash_secret host secret)
  unfolding hash_agrees
  hash_agrees_lem none secret e = absurd (ground (arith, e))
  hash_agrees_lem (some h) secret e = ground (arith, e, eq_iff h (hash_secret host secret))

  counter_with-Ensures :
      (factor : AuthMfaFactor) (code : String) (secret : Option String)
      → Ensures
          (λ _. Unit {0})
          (counter_with host svc factor code secret)
          (λ found _. Counted factor code found)
          (λ _. Unit {0})
  unfolding counter_with ◌>>=◌
  counter_with-Ensures factor code none = act-Ensures (λ w _ c e. absurd (ground (arith, e)))
  counter_with-Ensures factor code (some secret) =
      elim (Bool-cases (hash_agrees host svc factor.secret_hash secret)) [
        | inl h ↦ rw h (
            act-Ensures (λ w _ c e. record {
              secret = secret;
              time = host.unix_time w.unix_reads;
              known = hash_agrees_lem factor.secret_hash secret h;
              matching = e;
            }))
        | inr h ↦ rw h (act-Ensures (λ w _ c e. absurd (ground (arith, e))))
      ]

  factor_code_counter-Ensures :
      (factor : AuthMfaFactor) (code : String)
      → Ensures
          (λ _. Unit {0})
          (factor_code_counter host svc factor code)
          (λ found _. Counted factor code found)
          (λ _. Unit {0})
  unfolding factor_code_counter
  factor_code_counter-Ensures factor code =
      act-Ensures
        (λ w _. (counter_with-Ensures factor code (load_totp_secret factor.id w.secrets)).run w tt)

  abbrev Uses : List AuthMfaFactor → String → Option AuthMfaFactor → World → Type 0
  Uses all code found w = (u : AuthMfaFactor) → found ≡ some u → IsAccepted host all code u w

  blocked-Ensures :
      (all : List AuthMfaFactor) (code name : String)
      → Ensures (λ _. Unit {0}) (metric host svc name >> pure none) (Uses all code) (λ _. Unit {0})
  blocked-Ensures all code name =
      bind-Ensures {R = λ _ _. Unit {0}} trivial-Ensures
        (λ _. act-Ensures (λ w _ u e. absurd (ground (arith, e))))

  use_counter-Ensures :
      (all : List AuthMfaFactor) (factor : AuthMfaFactor) (code : String) (found : Option ℕ)
      → Mem factor all
      → is_totp factor.factor_type ≡ true
      → factor.enabled ≡ true
      → Counted factor code found
      → Ensures (λ _. Unit {0}) (use_counter host svc factor found) (Uses all code) (λ _. Unit {0})
  unfolding use_counter
  use_counter-Ensures all factor code none m t on k =
      act-Ensures (λ w _ u e. absurd (ground (arith, e)))
  use_counter-Ensures all factor code (some c) m t on k =
      elim (Bool-cases (is_replay c factor.last_used_counter)) [
        | inl h ↦ rw h (blocked-Ensures all code "auth.mfa.totp_replay_blocked")
        | inr h ↦ rw h (
            bind-Ensures {R = λ _ _. Unit {0}} trivial-Ensures (λ now.
              bind-Ensures {R = Uses all code}
                (act-Ensures (λ w _ u e. record {
                  factor = factor;
                  counter = c;
                  listed = m;
                  totp = t;
                  enabled = on;
                  code_of = k c refl;
                  fresh = h;
                  stored = mark-stores factor.id c now w.storage u e;
                  used = mark-uses factor.id c now w.storage u e;
                }))
                (λ updated.
                  option-Ensures (Uses all code) updated
                    (pre-Ensures (λ w _. tt)
                      (blocked-Ensures all code "auth.mfa.totp_replay_blocked"))
                    (λ u. act-Ensures (λ w r. r)))))
      ]

  try_factor-Ensures :
      (all : List AuthMfaFactor) (factor : AuthMfaFactor) (code : String)
      → Mem factor all
      → Ensures (λ _. Unit {0}) (try_factor host svc code factor) (Uses all code) (λ _. Unit {0})
  unfolding try_factor
  try_factor-Ensures all factor code m =
      elim (Bool-cases (is_totp factor.factor_type && factor.enabled)) [
        | inl h ↦ rw h (
            bind-Ensures {R = λ found _. Counted factor code found}
              (factor_code_counter-Ensures factor code)
              (λ found. act-Ensures (λ w k.
                (use_counter-Ensures all factor code found m (ground (arith, h)) (ground (arith, h))
                    k).run
                  w tt)))
        | inr h ↦ rw h (act-Ensures (λ w _ u e. absurd (ground (arith, e))))
      ]

  try_factors-Ensures :
      (all factors : List AuthMfaFactor) (code : String)
      → ((f : AuthMfaFactor) → Mem f factors → Mem f all)
      → Ensures
          (λ _. Unit {0})
          (try_factors host svc code factors)
          (λ u w. IsAccepted host all code u w)
          (λ _. Unit {0})
  unfolding try_factors
  try_factors-Ensures all [] code sub = act-Ensures (λ w _. tt)
  try_factors-Ensures all (f ∷ fs) code sub =
      bind-Ensures {R = Uses all code} (try_factor-Ensures all f code (sub f mem-cons_self))
        (λ updated.
          option-Ensures (Uses all code) updated
            (pre-Ensures (λ w _. tt)
              (try_factors-Ensures all fs code (λ g m. sub g (mem-cons_of_mem f m))))
            (λ u. act-Ensures (λ w r. r u refl)))

  -- The same from any world whose factors of the user are known.
  pub verify_totp-Ensures :
      (user_id code : String) (all : List AuthMfaFactor)
      → Ensures
          (λ w. list_mfa_factors user_id w.storage ≡ all)
          (verify_totp host svc user_id code)
          (λ u w. IsAccepted host all code u w)
          (λ _. Unit {0})
  unfolding verify_totp ◌>>=◌
  verify_totp-Ensures user_id code all = act-Ensures (λ w p.
      (try_factors-Ensures all (list_mfa_factors user_id w.storage) code
          (λ f m. subst (Mem f) p m)).run
        w tt)

  -- A factor that `verify_totp` returns comes from an enabled TOTP factor that was stored for the
  -- user. The code is the one of a counter, by a secret whose hash the factor keeps; the counter is
  -- above the last one that the factor had used, and is stored as the last one used.
  pub verify_totp_sound :
      (user_id code : String) (w w' : World) (updated : AuthMfaFactor)
      → verify_totp host svc user_id code w ≡ (ok updated, w')
      → IsAccepted host (list_mfa_factors user_id w.storage) code updated w'
  verify_totp_sound user_id code w w' updated e =
      returned (verify_totp-Ensures user_id code (list_mfa_factors user_id w.storage)) w updated w'
        refl e
