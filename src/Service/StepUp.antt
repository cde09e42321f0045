-- ===== src/Service/StepUp.antt =====
-- service.py: the step-up to AAL2, and recovery codes.
pub mod Frames
pub mod Recovery
pub mod Levels
pub mod Evidences
pub mod Assurance
mod Tests
use Prim.Native.String
use coreline_auth_module.Common.{
  ℕ, zero, suc, String, Bool, true, false, not, ◌&&◌, Option, none, some, List, [], ◌∷◌, is_none,
  ◌==◌, if◌then◌else◌,
}
use coreline_auth_module.Common.Text.{slice_to}
use coreline_auth_module.Errors.{
  Result, ok, raise, authentication_failed, authorization_denied, configuration, validation,
}
use coreline_auth_module.Host.{Host}
use coreline_auth_module.Mfa.{
  totp_counter_for_code, store_totp_secret, load_totp_secret, recovery_code_chars,
}
use coreline_auth_module.Models.{
  AuthMfaFactor, AuthRecoveryCode, AuthSession, AuthAssuranceLevel, MfaFactorType, Principal, field,
  end, text, number, is_aal2, is_totp,
}
use coreline_auth_module.Security.{hash_secret}
use coreline_auth_module.Storage.{
  Storage, create_mfa_factor, get_mfa_factor, list_mfa_factors, update_mfa_factor,
  mark_mfa_factor_counter_used, create_recovery_code, list_recovery_codes, mark_recovery_code_used,
  set_session_assurance_level,
}
use coreline_auth_module.Storage.Factors.{is_replay}
use coreline_auth_module.World.{Action, ◌>>=◌, ◌>>◌}
use coreline_auth_module.World.Actions.{
  pure, fail, query, change, write, try_write, fail_if, require, now_utc, unix_time, generate_token,
  draw_uuid, generate_totp_secret,
}
use coreline_auth_module.Service.Config.{Service}
use coreline_auth_module.Service.Support.{check_rate_limit, require_user, metric, audit}
use coreline_auth_module.Service.Accounts.{prefixed}
use coreline_auth_module.Service.Sessions.{verify_session}
use coreline_auth_module.Service.Factors.{verify_totp}

module _ (host : Host) (svc : Service) where
  -- The end of a step-up: the session reaches AAL2.
  pub raise_level : Principal → Action AuthSession
  unfolding set_session_assurance_level
  raise_level principal = do
    now ← now_utc host
    updated ← change (set_session_assurance_level principal.session.id AuthAssuranceLevel.aal2 now)
    require updated (authentication_failed "invalid session")

  -- `_mfa_step_up_rate_limit_key`
  step_up_key : Principal → String
  unfolding hash_secret
  step_up_key principal = String.◌++◌ "mfa_step_up:" (hash_secret host principal.user.id)

  unfoldable pub step_up_totp : String → String → Action Principal
  unfolding verify_session check_rate_limit step_up_key verify_totp raise_level audit
  step_up_totp session_token code = do
    principal ← verify_session host svc session_token none
    check_rate_limit host svc (step_up_key principal) svc.config.mfa_verify_limit_per_minute
    factor ← verify_totp host svc principal.user.id code
    session ← raise_level principal
    audit host svc "auth.mfa.step_up" (some principal.user.id) none
        (field "factor_id" (text factor.id) (field "method" (text "totp") end))
    pure (record { user = principal.user; session = session })

  -- `count` codes, from `generate_recovery_code` each.
  make_codes : String → ℕ → Action (List String)
  unfolding slice_to hash_secret create_recovery_code
  make_codes user_id zero = pure []
  make_codes user_id (suc count) = do
    token ← generate_token host
    let raw = slice_to recovery_code_chars token
    uuid ← draw_uuid host
    created_at ← now_utc host
    write (
        create_recovery_code (record {
          id = prefixed "rc_" uuid;
          user_id = user_id;
          code_hash = hash_secret host raw;
          created_at = created_at;
          used_at = none;
        }))
    codes ← make_codes user_id count
    pure (raw ∷ codes)

  unfoldable pub generate_recovery_codes : String → ℕ → Action (List String)
  unfolding require_user make_codes audit
  generate_recovery_codes user_id count = do
    user ← require_user host svc user_id
    codes ← make_codes user.id count
    audit host svc "auth.mfa.recovery_codes_create" none (some user.id)
        (field "count" (number count) end)
    pure codes

  -- The first unused code with the hash: the loop of `step_up_recovery_code` returns or raises
  -- there.
  unfoldable pub find_code : String → List AuthRecoveryCode → Option AuthRecoveryCode
  find_code code_hash [] = none
  find_code code_hash (saved ∷ codes) =
      let rest = find_code code_hash codes in
      if is_none saved.used_at && (saved.code_hash == code_hash) then some saved else rest

  -- `except AuthValidationError`, the only exception that `mark_recovery_code_used` raises.
  abbrev as_invalid : Result Storage → Result Storage
  as_invalid (ok s) = ok s
  as_invalid (raise (validation _)) = raise (authentication_failed "invalid recovery code")
  as_invalid (raise e) = raise e

  pub use_code : AuthRecoveryCode → Action (Unit {0})
  unfolding mark_recovery_code_used
  use_code saved = do
    now ← now_utc host
    try_write (λ s. as_invalid (mark_recovery_code_used saved.id now s))

  unfoldable pub step_up_recovery_code : String → String → Action Principal
  unfolding verify_session check_rate_limit step_up_key hash_secret list_recovery_codes find_code
      use_code raise_level audit
  step_up_recovery_code session_token code = do
    principal ← verify_session host svc session_token none
    check_rate_limit host svc (step_up_key principal) svc.config.mfa_verify_limit_per_minute
    codes ← query (list_recovery_codes principal.user.id)
    saved ←
        require (find_code (hash_secret host code) codes)
          (authentication_failed "invalid recovery code")
    use_code saved
    session ← raise_level principal
    audit host svc "auth.mfa.step_up" (some principal.user.id) none
        (field "method" (text "recovery_code") end)
    pure (record { user = principal.user; session = session })

  unfoldable pub require_aal2 : String → Action Principal
  unfolding verify_session
  require_aal2 session_token = do
    principal ← verify_session host svc session_token none
    fail_if (not (is_aal2 principal.session.assurance_level)) (authorization_denied "aal2 required")
    pure principal
