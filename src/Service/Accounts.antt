-- ===== src/Service/Accounts.antt =====
-- service.py: accounts and passwords.
pub mod Frames
use Prim.Native.String
use coreline_auth_module.Common.{
  ℕ, String, Bool, true, false, Option, none, some, get_or, has_text, if◌then◌else◌,
}
use coreline_auth_module.Host.{Host}
use coreline_auth_module.Models.{
  AuthUser, AuthCredential, Role, CredentialType, UserStatus, Fields, field, end, text, number,
  is_single_owner, role_value,
}
use coreline_auth_module.Security.{hash_password}
use coreline_auth_module.Storage.{
  create_user as store_user, upsert_identity, upsert_credential, get_password_credential,
  get_user_by_email, revoke_sessions_for_user,
}
use coreline_auth_module.World.{Action, ◌>>=◌, ◌>>◌}
use coreline_auth_module.World.Actions.{
  pure, lift, query, change, write, try_write, when, now_utc, draw_uuid, draw_salt,
}
use coreline_auth_module.Service.Config.{Service}
use coreline_auth_module.Service.Support.{require_user, assert_owner_email, normalize_email, audit}

-- `f"usr_{uuid4().hex}"` and the like.
abbrev pub prefixed : String → String → String
prefixed prefix uuid = String.◌++◌ prefix uuid

-- `{"revoked_count": revoked}`
abbrev pub revoked_count : ℕ → Fields
revoked_count n = field "revoked_count" (number n) end

module _ (host : Host) (svc : Service) where
  -- `self.storage.revoke_sessions_for_user(…)`, which reads the clock.
  unfoldable pub revoke_all : String → Option String → Action ℕ
  unfolding revoke_sessions_for_user
  revoke_all user_id except = do
    revoked_at ← now_utc host
    change (revoke_sessions_for_user user_id except revoked_at)

  -- The credential that `set_password` stores: the old one with a new hash, or a new one.
  unfoldable pub new_credential : String → String → Option AuthCredential → Action AuthCredential
  unfolding hash_password
  new_credential user_id password (some existing) = do
    salt ← draw_salt host
    hash ← lift (hash_password host salt password)
    updated_at ← now_utc host
    pure (record existing { password_hash = some hash; updated_at = updated_at; revoked_at = none })
  new_credential user_id password none = do
    uuid ← draw_uuid host
    salt ← draw_salt host
    hash ← lift (hash_password host salt password)
    created_at ← now_utc host
    updated_at ← now_utc host
    pure (record {
      id = prefixed "cred_" uuid;
      user_id = user_id;
      credential_type = CredentialType.password;
      password_hash = some hash;
      created_at = created_at;
      updated_at = updated_at;
      revoked_at = none;
    })

  -- `set_password` up to the sessions.
  unfoldable pub save_password : String → String → Action (AuthUser × AuthCredential)
  unfolding require_user get_password_credential new_credential upsert_credential audit
  save_password user_id password = do
    user ← require_user host svc user_id
    existing ← query (get_password_credential user.id)
    credential ← new_credential user.id password existing
    write (upsert_credential credential)
    audit host svc "auth.password.set" none (some user.id) end
    pure (user, credential)

  -- `revoke_sessions` is `None`, or overrides the configuration.
  unfoldable pub set_password :
      String → String → Option Bool → Option String → Action AuthCredential
  unfolding save_password revoke_all audit
  set_password user_id password revoke_sessions except = do
    (user, saved) ← save_password user_id password
    when (get_or revoke_sessions svc.config.revoke_sessions_on_password_change) (do
      revoked ← revoke_all user.id except
      audit host svc "auth.password.sessions_revoked" none (some user.id) (revoked_count revoked))
    pure saved

  -- `if password: self.set_password(user_id, password, revoke_sessions=False)`
  unfoldable pub set_given_password : String → Option String → Action (Unit {0})
  unfolding set_password
  set_given_password user_id password =
      when (has_text password)
        (set_password user_id (get_or password "") (some false) none >> pure tt)

  unfoldable pub create_user :
      String → Role → Option String → Bool → Option String → Action AuthUser
  unfolding normalize_email assert_owner_email store_user upsert_identity set_given_password audit
  create_user email role password email_verified display_name = do
    normalized_email ← normalize_email host svc email
    let single = is_single_owner svc.config.profile
    when single (assert_owner_email host svc normalized_email)
    let role' = if single then Role.owner else role
    let verified = if single then true else email_verified
    user_uuid ← draw_uuid host
    created_at ← now_utc host
    updated_at ← now_utc host
    let user : AuthUser = record {
      id = prefixed "usr_" user_uuid;
      primary_email = normalized_email;
      primary_email_verified = verified;
      role = role';
      display_name = display_name;
      avatar_url = none;
      status = UserStatus.active;
      created_at = created_at;
      updated_at = updated_at;
      last_login_at = none;
    }
    try_write (store_user user)
    identity_uuid ← draw_uuid host
    linked_at ← now_utc host
    write (
        upsert_identity (record {
          id = prefixed "idn_" identity_uuid;
          user_id = user.id;
          provider = "email";
          provider_subject = some normalized_email;
          email = some normalized_email;
          email_verified = verified;
          linked_at = linked_at;
          last_seen_at = none;
        }))
    set_given_password user.id password
    audit host svc "auth.user.create" none (some user.id)
        (field "role" (text (role_value role')) end)
    pure user

  -- The branch of `bootstrap_owner` on an account that may exist.
  bootstrap_found : String → Option String → Option String → Option AuthUser → Action AuthUser
  unfolding create_user set_given_password audit
  bootstrap_found email password display_name (some existing) = do
    set_given_password existing.id password
    pure existing
  bootstrap_found email password display_name none = do
    user ← create_user email Role.owner password true display_name
    audit host svc "auth.owner.bootstrap" none (some user.id) end
    pure user

  unfoldable pub bootstrap_owner : String → Option String → Option String → Action AuthUser
  unfolding normalize_email assert_owner_email get_user_by_email bootstrap_found
  bootstrap_owner email password display_name = do
    normalized_email ← normalize_email host svc email
    assert_owner_email host svc normalized_email
    existing ← query (get_user_by_email normalized_email)
    bootstrap_found normalized_email password display_name existing
