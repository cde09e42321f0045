-- ===== src/Storage/Factors/Once.antt =====
-- memory.py: a TOTP counter and a recovery code are used once.
use coreline_auth_module.Common.{
  ℕ, ◌≤◌, String, ◌≡◌, refl, Bool, true, false, not, Option, none, some, List, [], ◌∷◌, arith,
  eq_iff, eq_refl, is_none, inl, inr, Bool-cases, Option-cases,
}
use coreline_auth_module.Common.Dict
use coreline_auth_module.Common.Dict.{get-set}
use coreline_auth_module.Errors.{Result, ok, raise, validation, or_same}
use coreline_auth_module.Models.{AuthMfaFactor, AuthRecoveryCode}
use coreline_auth_module.Storage.State.{Storage}
use coreline_auth_module.Storage.Factors.{
  mark_mfa_factor_counter_used, mark_found, is_replay, mark_recovery_code_used,
}

-- Every counter up to `c` is used up for the factor.
abbrev pub is_used_to : ℕ → Option AuthMfaFactor → Bool
is_used_to c none = true
is_used_to c (some factor) = is_replay c factor.last_used_counter

-- A mark that succeeds returns the factor with the new counter, and stores it.
pub mark-stores :
    (id : String) (c at : ℕ) (s : Storage) (factor : AuthMfaFactor)
    → (mark_mfa_factor_counter_used id c at s).0 ≡ some factor
    → Dict.get id (mark_mfa_factor_counter_used id c at s).1.mfa_factors ≡ some factor
unfolding mark_mfa_factor_counter_used
mark-stores id c at s factor e = elim (Option-cases (Dict.get id s.mfa_factors)) [
  | inl missing ↦ absurd (ground arith)
  | inr (f, found) ↦ ground (arith, eq_refl id, get-set id id factor s.mfa_factors)
]

pub mark-uses :
    (id : String) (c at : ℕ) (s : Storage) (factor : AuthMfaFactor)
    → (mark_mfa_factor_counter_used id c at s).0 ≡ some factor
    → factor.last_used_counter ≡ some c
unfolding mark_mfa_factor_counter_used
mark-uses id c at s factor e = elim (Option-cases (Dict.get id s.mfa_factors)) [
  | inl missing ↦ absurd (ground arith)
  | inr (f, found) ↦ ground arith
]

-- One mark, of any factor.
mark_found-is_used_to :
    (id k : String) (c c' at : ℕ) (s : Storage) (o : Option AuthMfaFactor)
    → Dict.get k s.mfa_factors ≡ o
    → is_used_to c (Dict.get id s.mfa_factors) ≡ true
    → is_used_to c (Dict.get id (mark_found k c' at o s).1.mfa_factors) ≡ true
unfolding mark_found
mark_found-is_used_to id k c c' at s none e u = u
mark_found-is_used_to id k c c' at s (some f) e u =
    elim (Bool-cases (is_replay c' f.last_used_counter)) [
      | inl stale ↦ rw stale u
      | inr fresh ↦
          rw
            (
              fresh,
              get-set k id (record f { last_used_at = some at; last_used_counter = some c' })
                  s.mfa_factors,
            )
            (ground (arith, eq_iff k id))
    ]

-- A call of `mark_mfa_factor_counter_used`.
pub record Mark : Type 0 where
  pub factor_id : String
  pub counter : ℕ
  pub used_at : ℕ

unfoldable pub mark_all : List Mark → Storage → Storage
mark_all [] s = s
mark_all (m ∷ marks) s =
    mark_all marks (mark_mfa_factor_counter_used m.factor_id m.counter m.used_at s).1

mark_all-is_used_to :
    (id : String) (c : ℕ) (marks : List Mark) (s : Storage)
    → is_used_to c (Dict.get id s.mfa_factors) ≡ true
    → is_used_to c (Dict.get id (mark_all marks s).mfa_factors) ≡ true
unfolding mark_all mark_mfa_factor_counter_used
mark_all-is_used_to id c [] s u = u
mark_all-is_used_to id c (m ∷ marks) s u =
    mark_all-is_used_to id c marks _
      (mark_found-is_used_to id m.factor_id c m.counter m.used_at s _ refl u)

refused_when_used :
    (id : String) (c c' at : ℕ) (s : Storage)
    → is_used_to c (Dict.get id s.mfa_factors) ≡ true
    → c' ≤ c
    → (mark_mfa_factor_counter_used id c' at s).0 ≡ none
unfolding mark_mfa_factor_counter_used
refused_when_used id c c' at s u l = elim (Option-cases (Dict.get id s.mfa_factors)) [
  | inl missing ↦ rw missing
  | inr (f, found) ↦ rw found (ground arith)
]

-- Once a counter was marked for a factor, that counter and every smaller one are refused for it,
-- whatever marks of any factors come between.
pub mark_once :
    (id : String) (c c' at at' : ℕ) (marks : List Mark) (s : Storage) (factor : AuthMfaFactor)
    → (mark_mfa_factor_counter_used id c at s).0 ≡ some factor
    → c' ≤ c
    → (mark_mfa_factor_counter_used id c' at'
        (mark_all marks (mark_mfa_factor_counter_used id c at s).1)).0
      ≡ none
mark_once id c c' at at' marks s factor e l =
    refused_when_used id c c' at' _
      (mark_all-is_used_to id c marks _
        (rw (mark-stores id c at s factor e, mark-uses id c at s factor e) (ground arith)))
      l

-- A recovery code is used up.
abbrev pub is_spent_code : Option AuthRecoveryCode → Bool
is_spent_code none = false
is_spent_code (some code) = not (is_none code.used_at)

pub mark_code-spends :
    (id : String) (at : ℕ) (s s' : Storage)
    → mark_recovery_code_used id at s ≡ ok s'
    → is_spent_code (Dict.get id s'.recovery_codes) ≡ true
unfolding mark_recovery_code_used
mark_code-spends id at s s' e = elim (Option-cases (Dict.get id s.recovery_codes)) [
  | inl missing ↦ absurd (ground arith)
  | inr (code, found) ↦
      ground (arith, eq_refl id, get-set id id (record code { used_at = some at }) s.recovery_codes)
]

mark_code_keeps :
    (id k : String) (at : ℕ) (s s' : Storage)
    → mark_recovery_code_used k at s ≡ ok s'
    → is_spent_code (Dict.get id s.recovery_codes) ≡ true
    → is_spent_code (Dict.get id s'.recovery_codes) ≡ true
unfolding mark_recovery_code_used
mark_code_keeps id k at s s' e u = elim (Option-cases (Dict.get k s.recovery_codes)) [
  | inl missing ↦ absurd (ground arith)
  | inr (code, found) ↦
      ground (arith, eq_iff k id, get-set k id (record code { used_at = some at }) s.recovery_codes)
]

-- The codes are marked one after the other; a mark that raises leaves the storage.
unfoldable pub mark_codes : List (String × ℕ) → Storage → Storage
mark_codes [] s = s
mark_codes ((id, at) ∷ marks) s = mark_codes marks (or_same (mark_recovery_code_used id at s) s)

mark_codes_keep :
    (id : String) (marks : List (String × ℕ)) (s : Storage)
    → is_spent_code (Dict.get id s.recovery_codes) ≡ true
    → is_spent_code (Dict.get id (mark_codes marks s).recovery_codes) ≡ true
unfolding mark_codes
mark_codes_keep id [] s u = u
mark_codes_keep id ((k, at) ∷ marks) s u =
    mark_codes_keep id marks _ (one (mark_recovery_code_used k at s) refl)
  where
    one :
        (r : Result Storage)
        → mark_recovery_code_used k at s ≡ r
        → is_spent_code (Dict.get id (or_same r s).recovery_codes) ≡ true
    one (ok s') e = mark_code_keeps id k at s s' e u
    one (raise x) e = u

-- A recovery code that was marked as used cannot be marked again, whatever marks come between.
pub mark_recovery_code_once :
    (id : String) (at at' : ℕ) (marks : List (String × ℕ)) (s s' : Storage)
    → mark_recovery_code_used id at s ≡ ok s'
    → mark_recovery_code_used id at' (mark_codes marks s')
      ≡ raise (validation "recovery code already used")
unfolding mark_recovery_code_used
mark_recovery_code_once id at at' marks s s' e =
    refused _ (mark_codes_keep id marks s' (mark_code-spends id at s s' e))
  where
    refused :
        (t : Storage)
        → is_spent_code (Dict.get id t.recovery_codes) ≡ true
        → mark_recovery_code_used id at' t ≡ raise (validation "recovery code already used")
    refused t u = elim (Option-cases (Dict.get id t.recovery_codes)) [
      | inl missing ↦ absurd (ground arith)
      | inr (code, found) ↦ rw (mark_recovery_code_used, found) (ground arith)
    ]
