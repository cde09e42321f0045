-- ===== src/Service/Factors.antt =====
-- service.py: TOTP factors.
pub mod Verification
mod Tests
use coreline_auth_module.Common.{
  ℕ, zero, String, Bool, true, false, not, ◌&&◌, Option, none, some, List, [], ◌∷◌, is_none, ◌==◌,
  if◌then◌else◌,
}
use coreline_auth_module.Errors.{ok, authentication_failed, configuration}
use coreline_auth_module.Host.{Host}
use coreline_auth_module.Mfa.{totp_counter_for_code, store_totp_secret, load_totp_secret}
use coreline_auth_module.Models.{AuthMfaFactor, MfaFactorType, field, end, text, is_totp}
use coreline_auth_module.Security.{hash_secret}
use coreline_auth_module.Storage.{
  create_mfa_factor, get_mfa_factor, list_mfa_factors, update_mfa_factor,
  mark_mfa_factor_counter_used,
}
use coreline_auth_module.Storage.Factors.{is_replay}
use coreline_auth_module.World.{Action, ◌>>=◌, ◌>>◌}
use coreline_auth_module.World.Actions.{
  pure, fail, query, change, write, try_write, fail_if, now_utc, unix_time, draw_uuid,
  generate_totp_secret,
}
use coreline_auth_module.Service.Config.{Service}
use coreline_auth_module.Service.Support.{require_user, metric, audit}
use coreline_auth_module.Service.Accounts.{prefixed}

-- The factor is there, is the user's, and is a TOTP factor.
abbrev is_users_totp : String → AuthMfaFactor → Bool
is_users_totp user_id factor = (factor.user_id == user_id) && is_totp factor.factor_type

-- Handing a secret to the vault.
keep_secret : String → String → Action (Unit {0})
unfolding store_totp_secret
keep_secret factor_id secret w =
    (ok tt, record w { secrets = store_totp_secret factor_id secret w.secrets })

module _ (host : Host) (svc : Service) where
  -- The warning for an insecure vault is left out.
  unfoldable pub begin_totp_enrollment : String → String → Action (AuthMfaFactor × String)
  unfolding require_user hash_secret create_mfa_factor keep_secret audit
  begin_totp_enrollment user_id name = do
    user ← require_user host svc user_id
    fail_if (svc.mfa_vault_is_insecure && not svc.config.allow_insecure_mfa_vault)
        (configuration "TOTP enrollment requires an encrypted mfa_secret_vault")
    secret ← generate_totp_secret host
    uuid ← draw_uuid host
    created_at ← now_utc host
    let factor : AuthMfaFactor = record {
      id = prefixed "mfa_" uuid;
      user_id = user.id;
      factor_type = MfaFactorType.totp;
      name = name;
      secret_hash = some (hash_secret host secret);
      credential_id = none;
      public_key = none;
      sign_count = zero;
      enabled = false;
      created_at = created_at;
      last_used_at = none;
      last_used_counter = none;
    }
    write (create_mfa_factor factor)
    keep_secret factor.id secret
    audit host svc "auth.mfa.totp_enroll_begin" none (some user.id)
        (field "factor_id" (text factor.id) end)
    pure (factor, secret)

  -- `factor.secret_hash != hash_secret(secret)`, negated.
  hash_agrees : Option String → String → Bool
  unfolding hash_secret
  hash_agrees none secret = false
  hash_agrees (some h) secret = h == hash_secret host secret

  counter_with : AuthMfaFactor → String → Option String → Action (Option ℕ)
  unfolding hash_agrees totp_counter_for_code
  counter_with factor code none = pure none
  counter_with factor code (some secret) =
      if hash_agrees factor.secret_hash secret
      then (do t ← unix_time host; pure (totp_counter_for_code host secret code t))
      else pure none

  -- `_factor_code_counter`
  unfoldable pub factor_code_counter : AuthMfaFactor → String → Action (Option ℕ)
  unfolding load_totp_secret counter_with
  factor_code_counter factor code w =
      counter_with factor code (load_totp_secret factor.id w.secrets) w

  require_users_totp : String → Option AuthMfaFactor → Action AuthMfaFactor
  require_users_totp user_id none = fail (authentication_failed "mfa factor not found")
  require_users_totp user_id (some factor) =
      if is_users_totp user_id factor
      then pure factor
      else fail (authentication_failed "mfa factor not found")

  -- `_require_totp_factor`
  unfoldable pub require_totp_factor : String → String → Action AuthMfaFactor
  unfolding get_mfa_factor require_users_totp
  require_totp_factor user_id factor_id = do
    found ← query (get_mfa_factor factor_id)
    require_users_totp user_id found

  -- `verify_totp_enrollment` on a factor that is not enabled.
  enable_factor : String → AuthMfaFactor → String → Action AuthMfaFactor
  unfolding factor_code_counter update_mfa_factor audit
  enable_factor user_id factor code = do
    counter ← factor_code_counter factor code
    fail_if (is_none counter) (authentication_failed "invalid mfa code")
    now ← now_utc host
    let updated = record factor { enabled = true; last_used_at = some now }
    try_write (update_mfa_factor updated)
    audit host svc "auth.mfa.totp_enroll_verify" none (some user_id)
        (field "factor_id" (text factor.id) end)
    pure updated

  unfoldable pub verify_totp_enrollment : String → String → String → Action AuthMfaFactor
  unfolding require_totp_factor enable_factor
  verify_totp_enrollment user_id factor_id code = do
    factor ← require_totp_factor user_id factor_id
    if factor.enabled then pure factor else enable_factor user_id factor code

  -- The end of the loop's body for a matching counter: the factor, or `none` to go on.
  use_counter : AuthMfaFactor → Option ℕ → Action (Option AuthMfaFactor)
  unfolding mark_mfa_factor_counter_used metric
  use_counter factor none = pure none
  use_counter factor (some counter) =
      if is_replay counter factor.last_used_counter
      then (metric host svc "auth.mfa.totp_replay_blocked" >> pure none)
      else (do
        now ← now_utc host
        updated ← change (mark_mfa_factor_counter_used factor.id counter now)
        count_blocked updated)
    where
      count_blocked : Option AuthMfaFactor → Action (Option AuthMfaFactor)
      count_blocked none = metric host svc "auth.mfa.totp_replay_blocked" >> pure none
      count_blocked (some updated) = pure (some updated)

  -- The body of the loop of `verify_totp`.
  unfoldable pub try_factor : String → AuthMfaFactor → Action (Option AuthMfaFactor)
  unfolding factor_code_counter use_counter
  try_factor code factor =
      if is_totp factor.factor_type && factor.enabled
      then (factor_code_counter factor code >>= use_counter factor)
      else pure none

  unfoldable pub try_factors : String → List AuthMfaFactor → Action AuthMfaFactor
  unfolding try_factor
  try_factors code [] = fail (authentication_failed "invalid mfa code")
  try_factors code (factor ∷ factors) =
      try_factor code factor >>= or_next (try_factors code factors)
    where
      or_next : Action AuthMfaFactor → Option AuthMfaFactor → Action AuthMfaFactor
      or_next rest (some updated) = pure updated
      or_next rest none = rest

  unfoldable pub verify_totp : String → String → Action AuthMfaFactor
  unfolding list_mfa_factors try_factors
  verify_totp user_id code = do factors ← query (list_mfa_factors user_id); try_factors code factors
