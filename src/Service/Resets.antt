-- ===== src/Service/Resets.antt =====
-- service.py: password resets.
pub mod Revocation
mod Tests
use Prim.Native.String
use coreline_auth_module.Common.{
  String, Bool, false, not, ◌&&◌, ◌||◌, Option, none, some, [], ◌∷◌, is_none, get_or, ◌==◌,
  if◌then◌else◌,
}
use coreline_auth_module.Common.Dict.{Dict}
use coreline_auth_module.Common.Text.{lower}
use coreline_auth_module.Errors.{authentication_failed}
use coreline_auth_module.Host.{Host}
use coreline_auth_module.Models.{
  AuthUser, FlowType, MagicLinkChallenge, field, end, flag, is_active, is_single_owner,
}
use coreline_auth_module.Security.{hash_secret}
use coreline_auth_module.Storage.{create_login_flow, get_user_by_email}
use coreline_auth_module.World.{Action, ◌>>=◌, ◌>>◌}
use coreline_auth_module.World.Actions.{
  pure, query, try_write, require, when, now_utc, generate_token, draw_uuid,
}
use coreline_auth_module.Service.Config.{Service}
use coreline_auth_module.Service.Support.{
  check_rate_limit, assert_owner_email, normalize_email, send_email_best_effort, audit,
}
use coreline_auth_module.Service.Accounts.{set_password, revoke_all, revoked_count}
use coreline_auth_module.Service.Tokens.{
  owner_only, email_flow, email_hash_field, consume_email_flow, flow_user, require_active_user,
}

module _ (host : Host) (svc : Service) where
  -- `allowed_by_profile`
  allowed_by_profile : String → Bool
  unfolding lower
  allowed_by_profile email =
      not (is_single_owner svc.config.profile)
      || (email == lower (get_or svc.config.owner_email ""))

  -- The user to whom a reset is sent, if `should_send`.
  unfoldable pub reset_target : String → Option AuthUser → Option AuthUser
  unfolding allowed_by_profile
  reset_target email none = none
  reset_target email (some user) =
      if is_active user.status && allowed_by_profile email then some user else none

  abbrev pub reset_metadata : Option AuthUser → Dict String
  reset_metadata none = []
  reset_metadata (some user) = ("user_id", user.id) ∷ []

  -- The check of a dummy password on the negative path changes nothing but the time taken.
  unfoldable pub request_password_reset : String → Action MagicLinkChallenge
  unfolding normalize_email check_rate_limit hash_secret get_user_by_email reset_target email_flow
      create_login_flow send_email_best_effort audit
  request_password_reset email = do
    normalized_email ← normalize_email host svc email
    check_rate_limit host svc (String.◌++◌ "password_reset:" (hash_secret host normalized_email))
        svc.config.magic_link_limit_per_minute
    token ← generate_token host
    now ← now_utc host
    known ← query (get_user_by_email normalized_email)
    let target = reset_target normalized_email known
    let should_send = not (is_none target)
    uuid ← draw_uuid host
    let flow =
        email_flow host svc FlowType.password_reset normalized_email token "/"
          (reset_metadata target) now uuid
    when should_send (try_write (create_login_flow flow))
    when should_send (send_email_best_effort host svc "password_reset" normalized_email token)
    audit host svc "auth.password_reset.request" none none
        (email_hash_field host svc normalized_email (field "sent" (flag should_send) end))
    pure (record { token = token; flow = flow })

  -- What follows once the token has named an active user.
  unfoldable pub reset_password_of : AuthUser → String → Action AuthUser
  unfolding assert_owner_email set_password revoke_all audit
  reset_password_of user new_password = do
    owner_only host svc user.primary_email
    saved ← set_password host svc user.id new_password (some false) none
    when svc.config.revoke_sessions_on_password_change (do
      revoked ← revoke_all host svc user.id none
      audit host svc "auth.password_reset.sessions_revoked" none (some user.id)
          (revoked_count revoked))
    audit host svc "auth.password_reset.consume" none (some user.id) end
    pure user

  unfoldable pub consume_password_reset : String → String → Action AuthUser
  unfolding consume_email_flow flow_user require_active_user reset_password_of
  consume_password_reset token new_password = do
    now ← now_utc host
    found ← consume_email_flow host svc token FlowType.password_reset now
    flow ← require found (authentication_failed "invalid or expired password reset token")
    candidate ← query (flow_user host svc flow)
    user ← require_active_user host svc candidate "invalid password reset token"
    reset_password_of user new_password
