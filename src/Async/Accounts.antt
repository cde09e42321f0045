-- ===== src/Async/Accounts.antt =====
-- async_service.py: accounts, passwords and the login by password.
use Prim.Native.String
use coreline_auth_module.Common.{
  String, Bool, true, false, Option, none, some, get_or, has_text, if◌then◌else◌,
}
use coreline_auth_module.Errors.{authentication_failed}
use coreline_auth_module.Host.{Host}
use coreline_auth_module.Models.{
  AuthUser, AuthCredential, IssuedSession, RequestContext, Role, UserStatus, field, end, text,
  is_active, is_single_owner, role_value,
}
use coreline_auth_module.Security.{hash_secret, verify_password}
use coreline_auth_module.Storage.{
  create_user as store_user, upsert_identity, upsert_credential, get_password_credential,
  get_user_by_email,
}
use coreline_auth_module.World.Actions.{query, write, try_write, now_utc, draw_uuid}
use coreline_auth_module.Service.Config.{Service}
use coreline_auth_module.Service.Accounts.{prefixed, revoked_count, new_credential, revoke_all}
use coreline_auth_module.Service.Login.{reason_of, hash_of}
use coreline_auth_module.Async.{Task, call, give, throw, if_task, ◌>>=◌, ◌>>◌}
use coreline_auth_module.Async.Support.{
  require_user, normalize_email, assert_owner_email, owner_only, enforce_profile_login,
  check_rate_limit, record_login, audit,
}
use coreline_auth_module.Async.Sessions.{issue_session}

module _ (host : Host) (svc : Service) where
  -- `set_password` up to the sessions.
  unfoldable pub save_password : String → String → Task (AuthUser × AuthCredential)
  unfolding require_user get_password_credential new_credential upsert_credential audit
  save_password user_id password = do
    user ← require_user host svc user_id
    existing ← call (query (get_password_credential user.id))
    credential ← call (new_credential host svc user.id password existing)
    call (write (upsert_credential credential))
    audit host svc "auth.password.set" none (some user.id) end
    give (user, credential)

  -- The end of the sessions of a user, with its event.
  unfoldable pub end_sessions : String → String → Option String → Task (Unit {0})
  unfolding revoke_all audit
  end_sessions action user_id except = do
    revoked ← call (revoke_all host svc user_id except)
    audit host svc action none (some user_id) (revoked_count revoked)

  unfoldable pub set_password : String → String → Option Bool → Option String → Task AuthCredential
  unfolding save_password end_sessions
  set_password user_id password revoke_sessions except = do
    (user, saved) ← save_password user_id password
    if_task (get_or revoke_sessions svc.config.revoke_sessions_on_password_change)
        (end_sessions "auth.password.sessions_revoked" user.id except)
    give saved

  -- `if password: await self.set_password(user_id, password, revoke_sessions=False)`
  unfoldable pub set_given_password : String → Option String → Task (Unit {0})
  unfolding set_password
  set_given_password user_id password =
      if_task (has_text password)
        (set_password user_id (get_or password "") (some false) none >> give tt)

  unfoldable pub create_user : String → Role → Option String → Bool → Option String → Task AuthUser
  unfolding normalize_email owner_only store_user upsert_identity set_given_password audit
  create_user email role password email_verified display_name = do
    normalized_email ← normalize_email host svc email
    owner_only host svc normalized_email
    let single = is_single_owner svc.config.profile
    let role' = if single then Role.owner else role
    let verified = if single then true else email_verified
    user_uuid ← call (draw_uuid host)
    created_at ← call (now_utc host)
    updated_at ← call (now_utc host)
    let user : AuthUser = record {
      id = prefixed "usr_" user_uuid;
      primary_email = normalized_email;
      primary_email_verified = verified;
      role = role';
      display_name = display_name;
      avatar_url = none;
      status = UserStatus.active;
      created_at = created_at;
      updated_at = updated_at;
      last_login_at = none;
    }
    call (try_write (store_user user))
    identity_uuid ← call (draw_uuid host)
    linked_at ← call (now_utc host)
    call (
        write (
          upsert_identity (record {
            id = prefixed "idn_" identity_uuid;
            user_id = user.id;
            provider = "email";
            provider_subject = some normalized_email;
            email = some normalized_email;
            email_verified = verified;
            linked_at = linked_at;
            last_seen_at = none;
          })))
    set_given_password user.id password
    audit host svc "auth.user.create" none (some user.id)
        (field "role" (text (role_value role')) end)
    give user

  -- The branch of `bootstrap_owner` on an account that may exist.
  unfoldable pub bootstrap_found :
      String → Option String → Option String → Option AuthUser → Task AuthUser
  unfolding create_user set_given_password audit
  bootstrap_found email password display_name (some existing) = do
    set_given_password existing.id password
    give existing
  bootstrap_found email password display_name none = do
    user ← create_user email Role.owner password true display_name
    audit host svc "auth.owner.bootstrap" none (some user.id) end
    give user

  unfoldable pub bootstrap_owner : String → Option String → Option String → Task AuthUser
  unfolding normalize_email assert_owner_email get_user_by_email bootstrap_found
  bootstrap_owner email password display_name = do
    normalized_email ← normalize_email host svc email
    assert_owner_email host svc normalized_email
    existing ← call (query (get_user_by_email normalized_email))
    bootstrap_found normalized_email password display_name existing

  -- A failed login is recorded, and raises.
  unfoldable pub reject_login {ℓ} : {A : Type ℓ} → Option String → String → Task A
  unfolding audit
  reject_login target reason = do
    audit host svc "auth.login.failed" none target (reason_of reason)
    throw (authentication_failed "invalid email or password")

  unfoldable pub require_active : Option AuthUser → Task AuthUser
  unfolding reject_login
  require_active none = reject_login none "user_not_found_or_inactive"
  require_active (some user) =
      if is_active user.status then give user else reject_login none "user_not_found_or_inactive"

  unfoldable pub check_password : AuthUser → String → Option String → Task (Unit {0})
  unfolding reject_login verify_password
  check_password user password hash =
      if has_text hash
      then (if verify_password host (get_or hash "") password
          then give tt
          else reject_login (some user.id) "bad_password")
      else reject_login (some user.id) "missing_password_credential"

  unfoldable pub login_password : String → String → Option RequestContext → Task IssuedSession
  unfolding normalize_email check_rate_limit hash_secret get_user_by_email require_active
      enforce_profile_login get_password_credential check_password issue_session record_login audit
  login_password email password context = do
    normalized_email ← normalize_email host svc email
    check_rate_limit host svc (String.◌++◌ "login:" (hash_secret host normalized_email))
        svc.config.login_limit_per_minute
    found ← call (query (get_user_by_email normalized_email))
    user ← require_active found
    enforce_profile_login host svc user
    credential ← call (query (get_password_credential user.id))
    check_password user password (hash_of host svc credential)
    issued ← issue_session host svc user (some "email") context
    record_login host svc user
    audit host svc "auth.login.password" none (some user.id) end
    give issued
