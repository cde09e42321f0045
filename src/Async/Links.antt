-- ===== src/Async/Links.antt =====
-- async_service.py: magic links, e-mail verification and password resets.
use Prim.Native.String
use coreline_auth_module.Common.{
  ℕ, String, true, false, not, Option, none, some, [], ◌∷◌, has_text, get_or, is_none, ◌==◌,
  if◌then◌else◌,
}
use coreline_auth_module.Errors.{authentication_failed, validation}
use coreline_auth_module.Host.{Host}
use coreline_auth_module.Models.{
  AuthUser, AuthIdentity, FlowType, MagicLinkChallenge, RequestContext, IssuedSession, Role, field,
  end, flag, is_active, is_single_owner,
}
use coreline_auth_module.Security.{hash_secret, validate_return_to}
use coreline_auth_module.Storage.{
  create_login_flow, get_user_by_email, update_user, get_identity, upsert_identity,
}
use coreline_auth_module.World.Actions.{
  lift, query, write, try_write, fail_if, require, now_utc, generate_token, draw_uuid,
}
use coreline_auth_module.Service.Config.{Service}
use coreline_auth_module.Service.Tokens.{
  email_flow, email_hash_field, consume_email_flow, flow_user, not_exactly_one,
}
use coreline_auth_module.Service.Resets.{reset_target, reset_metadata}
use coreline_auth_module.Async.{Task, call, give, throw, if_task, ◌>>=◌, ◌>>◌}
use coreline_auth_module.Async.Support.{
  require_user, normalize_email, owner_only, enforce_profile_login, check_rate_limit, record_login,
  send_email, audit,
}
use coreline_auth_module.Async.Sessions.{issue_session}
use coreline_auth_module.Async.Accounts.{create_user, set_password, end_sessions}

module _ (host : Host) (svc : Service) where
  unfoldable pub request_magic_link : String → Option String → Task MagicLinkChallenge
  unfolding normalize_email validate_return_to owner_only check_rate_limit hash_secret email_flow
      create_login_flow send_email audit
  request_magic_link email return_to = do
    normalized_email ← normalize_email host svc email
    target ← call (lift (validate_return_to host return_to))
    owner_only host svc normalized_email
    check_rate_limit host svc (String.◌++◌ "magic:" (hash_secret host normalized_email))
        svc.config.magic_link_limit_per_minute
    token ← call (generate_token host)
    now ← call (now_utc host)
    uuid ← call (draw_uuid host)
    let flow = email_flow host svc FlowType.magic_link normalized_email token target [] now uuid
    call (try_write (create_login_flow flow))
    send_email host svc "magic_link" normalized_email token
    audit host svc "auth.magic_link.request" none none
        (email_hash_field host svc normalized_email end)
    give (record { token = token; flow = flow })

  unfoldable pub user_or_new : String → Option AuthUser → Task AuthUser
  unfolding create_user
  user_or_new email (some user) = give user
  user_or_new email none =
      create_user host svc email
        (if is_single_owner svc.config.profile then Role.owner else Role.user) none true none

  unfoldable pub consume_magic_link : String → Option RequestContext → Task IssuedSession
  unfolding consume_email_flow get_user_by_email user_or_new enforce_profile_login issue_session
      record_login audit
  consume_magic_link token context = do
    now ← call (now_utc host)
    found ← call (consume_email_flow host svc token FlowType.magic_link now)
    flow ← call (require found (authentication_failed "invalid or expired magic link"))
    call (fail_if (not (has_text flow.email)) (authentication_failed "invalid magic link"))
    let email = get_or flow.email ""
    known ← call (query (get_user_by_email email))
    user ← user_or_new email known
    enforce_profile_login host svc user
    issued ← issue_session host svc user (some "email") context
    record_login host svc user
    audit host svc "auth.magic_link.consume" none (some user.id) end
    give issued

  -- The user of `request_email_verification`, by its id or by its e-mail.
  unfoldable pub user_by : Option String → Option String → Task (Option AuthUser)
  unfolding require_user normalize_email get_user_by_email
  user_by (some user_id) email = do user ← require_user host svc user_id; give (some user)
  user_by none email = do
    normalized ← normalize_email host svc (get_or email "")
    call (query (get_user_by_email normalized))

  unfoldable pub request_email_verification :
      Option String → Option String → Task MagicLinkChallenge
  unfolding user_by owner_only check_rate_limit hash_secret email_flow create_login_flow send_email
      audit
  request_email_verification user_id email = do
    call (
        fail_if (not_exactly_one host svc user_id email)
          (validation "provide exactly one of user_id or email"))
    found ← user_by user_id email
    user ← call (require found (authentication_failed "user not found"))
    call (fail_if (not (is_active user.status)) (authentication_failed "user inactive"))
    owner_only host svc user.primary_email
    check_rate_limit host svc (String.◌++◌ "email_verify:" (hash_secret host user.primary_email))
        svc.config.magic_link_limit_per_minute
    token ← call (generate_token host)
    now ← call (now_utc host)
    uuid ← call (draw_uuid host)
    let flow =
        email_flow host svc FlowType.email_verification user.primary_email token "/"
          (("user_id", user.id) ∷ []) now uuid
    call (try_write (create_login_flow flow))
    send_email host svc "email_verification" user.primary_email token
    audit host svc "auth.email_verification.request" none (some user.id)
        (email_hash_field host svc user.primary_email end)
    give (record { token = token; flow = flow })

  -- `if user is None or user.status != UserStatus.ACTIVE: raise …`
  unfoldable pub require_active_user : Option AuthUser → String → Task AuthUser
  require_active_user none message = throw (authentication_failed message)
  require_active_user (some user) message =
      if is_active user.status then give user else throw (authentication_failed message)

  -- The comparison of the e-mails, which normalises both if the flow has one.
  unfoldable pub same_email : AuthUser → Option String → Task (Unit {0})
  unfolding normalize_email
  same_email user email =
      if has_text email
      then (do
        mine ← normalize_email host svc user.primary_email
        theirs ← normalize_email host svc (get_or email "")
        call (
            fail_if (not (mine == theirs))
              (authentication_failed "invalid email verification token")))
      else give tt

  unfoldable pub verify_identity : ℕ → Option AuthIdentity → Task (Unit {0})
  unfolding upsert_identity
  verify_identity now none = give tt
  verify_identity now (some identity) =
      call (
        write
          (upsert_identity (record identity { email_verified = true; last_seen_at = some now })))

  unfoldable pub consume_email_verification : String → Task AuthUser
  unfolding consume_email_flow flow_user require_active_user same_email update_user get_identity
      verify_identity audit
  consume_email_verification token = do
    now ← call (now_utc host)
    found ← call (consume_email_flow host svc token FlowType.email_verification now)
    flow ←
        call (require found (authentication_failed "invalid or expired email verification token"))
    candidate ← call (query (flow_user host svc flow))
    user ← require_active_user candidate "invalid email verification token"
    same_email user flow.email
    let updated = record user { primary_email_verified = true; updated_at = now }
    call (try_write (update_user updated))
    identity ← call (query (get_identity "email" updated.primary_email))
    verify_identity now identity
    audit host svc "auth.email_verification.consume" none (some updated.id) end
    give updated

  unfoldable pub request_password_reset : String → Task MagicLinkChallenge
  unfolding normalize_email check_rate_limit hash_secret get_user_by_email reset_target email_flow
      create_login_flow send_email audit
  request_password_reset email = do
    normalized_email ← normalize_email host svc email
    check_rate_limit host svc (String.◌++◌ "password_reset:" (hash_secret host normalized_email))
        svc.config.magic_link_limit_per_minute
    token ← call (generate_token host)
    now ← call (now_utc host)
    known ← call (query (get_user_by_email normalized_email))
    let target = reset_target host svc normalized_email known
    let should_send = not (is_none target)
    uuid ← call (draw_uuid host)
    let flow =
        email_flow host svc FlowType.password_reset normalized_email token "/"
          (reset_metadata host svc target) now uuid
    if_task should_send (call (try_write (create_login_flow flow)))
    if_task should_send (send_email host svc "password_reset" normalized_email token)
    audit host svc "auth.password_reset.request" none none
        (email_hash_field host svc normalized_email (field "sent" (flag should_send) end))
    give (record { token = token; flow = flow })

  -- What follows once the token has named an active user.
  unfoldable pub reset_password_of : AuthUser → String → Task AuthUser
  unfolding owner_only set_password end_sessions audit
  reset_password_of user new_password = do
    owner_only host svc user.primary_email
    saved ← set_password host svc user.id new_password (some false) none
    if_task svc.config.revoke_sessions_on_password_change
        (end_sessions host svc "auth.password_reset.sessions_revoked" user.id none)
    audit host svc "auth.password_reset.consume" none (some user.id) end
    give user

  unfoldable pub consume_password_reset : String → String → Task AuthUser
  unfolding consume_email_flow flow_user require_active_user reset_password_of
  consume_password_reset token new_password = do
    now ← call (now_utc host)
    found ← call (consume_email_flow host svc token FlowType.password_reset now)
    flow ← call (require found (authentication_failed "invalid or expired password reset token"))
    candidate ← call (query (flow_user host svc flow))
    user ← require_active_user candidate "invalid password reset token"
    reset_password_of user new_password
