-- ===== src/Storage/Factors.antt =====
-- memory.py: MFA factors and recovery codes.
pub mod Once
use coreline_auth_module.Common.{
  ℕ, String, Bool, false, Option, none, some, List, leb, select, is_none, ◌==◌, if◌then◌else◌,
}
use coreline_auth_module.Common.Dict
use coreline_auth_module.Errors.{Result, ok, raise, validation}
use coreline_auth_module.Models.{AuthMfaFactor, AuthRecoveryCode}
use coreline_auth_module.Storage.State.{Storage}

unfoldable pub create_mfa_factor : AuthMfaFactor → Storage → Storage
create_mfa_factor factor s = record s { mfa_factors = Dict.set factor.id factor s.mfa_factors }

unfoldable pub get_mfa_factor : String → Storage → Option AuthMfaFactor
get_mfa_factor factor_id s = Dict.get factor_id s.mfa_factors

unfoldable pub list_mfa_factors : String → Storage → List AuthMfaFactor
list_mfa_factors user_id s =
    select (λ (f : AuthMfaFactor). f.user_id == user_id) (Dict.values s.mfa_factors)

unfoldable pub update_mfa_factor : AuthMfaFactor → Storage → Result Storage
update_mfa_factor factor s =
    if Dict.contains factor.id s.mfa_factors
    then ok (record s { mfa_factors = Dict.set factor.id factor s.mfa_factors })
    else raise (validation "mfa factor not found")

-- `last is not None and counter <= last`
abbrev pub is_replay : ℕ → Option ℕ → Bool
is_replay counter none = false
is_replay counter (some last) = leb counter last

mark_found : String → ℕ → ℕ → Option AuthMfaFactor → Storage → Option AuthMfaFactor × Storage
mark_found id counter used_at none s = (none, s)
mark_found id counter used_at (some factor) s =
    if is_replay counter factor.last_used_counter
    then (none, s)
    else (let updated = record factor {
      last_used_at = some used_at;
      last_used_counter = some counter;
    } in
        (some updated, record s { mfa_factors = Dict.set id updated s.mfa_factors }))

unfoldable pub mark_mfa_factor_counter_used :
    String → ℕ → ℕ → Storage → Option AuthMfaFactor × Storage
unfolding mark_found
mark_mfa_factor_counter_used id counter used_at s =
    mark_found id counter used_at (Dict.get id s.mfa_factors) s

unfoldable pub create_recovery_code : AuthRecoveryCode → Storage → Storage
create_recovery_code code s = record s { recovery_codes = Dict.set code.id code s.recovery_codes }

unfoldable pub list_recovery_codes : String → Storage → List AuthRecoveryCode
list_recovery_codes user_id s =
    select (λ (c : AuthRecoveryCode). c.user_id == user_id) (Dict.values s.recovery_codes)

use_found : String → ℕ → Option AuthRecoveryCode → Storage → Result Storage
use_found id used_at none s = raise (validation "recovery code not found")
use_found id used_at (some code) s =
    if is_none code.used_at
    then ok (record s {
      recovery_codes = Dict.set id (record code { used_at = some used_at }) s.recovery_codes;
    })
    else raise (validation "recovery code already used")

unfoldable pub mark_recovery_code_used : String → ℕ → Storage → Result Storage
unfolding use_found
mark_recovery_code_used id used_at s = use_found id used_at (Dict.get id s.recovery_codes) s
