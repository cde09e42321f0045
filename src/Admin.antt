-- ===== src/Admin.antt =====
-- src/coreline_auth/admin.py: `CorelineAdminService`.
pub mod Privileged
pub mod Operations
pub mod Calls
pub mod Locks
mod Tests
use coreline_auth_module.Common.{
  ℕ, String, Bool, true, false, not, ◌&&◌, ◌||◌, Option, none, some, List, any, is_text, has_text,
  get_or, ◌==◌, if◌then◌else◌,
}
use coreline_auth_module.Common.Text.{lower, strip}
use coreline_auth_module.Errors.{Result, ok, raise, authorization_denied, validation}
use coreline_auth_module.Host.{Host}
use coreline_auth_module.Models.{
  AuthUser, AuthSession, AuthCredential, Principal, Role, UserStatus, Fields, field, end, text,
  number, role_value,
}
use coreline_auth_module.Storage.{
  Storage, UserQuery, all_users, list_users as list_stored_users, update_user,
  list_sessions_for_user as list_stored_sessions,
}
use coreline_auth_module.World.{Action, ◌>>=◌, ◌>>◌}
use coreline_auth_module.World.Actions.{pure, lift, query, try_write, fail_if, when, now_utc}
use coreline_auth_module.Service.{
  Service, verify_session, require_user, set_password, revoke_all, revoke_session as end_session,
  audit,
}
use coreline_auth_module.Service.Accounts.{revoked_count}

-- A filter is left out, a member of the enumeration, or a text that names one.
pub data Filter (A : Type 0) : Type 0 where
  unset : Filter A
  member : A → Filter A
  named : String → Filter A

-- `Role(text)` and `UserStatus(text)`, whose exceptions the callers turn into a validation error.
role_of_value : String → Option Role
role_of_value s =
    if s == "owner"
    then some Role.owner
    else if s == "admin"
    then some Role.admin
    else if s == "viewer"
    then some Role.viewer
    else if s == "user"
    then some Role.user
    else none

status_of_value : String → Option UserStatus
status_of_value s =
    if s == "active"
    then some UserStatus.active
    else if s == "disabled"
    then some UserStatus.disabled
    else if s == "banned"
    then some UserStatus.banned
    else none

abbrev found_member : {A : Type 0} → String → Option A → Result (Option A)
found_member message none = raise (validation message)
found_member message (some a) = ok (some a)

unfoldable pub coerce_role : Filter Role → Result (Option Role)
unfolding role_of_value lower strip
coerce_role Filter.unset = ok none
coerce_role (Filter.member r) = ok (some r)
coerce_role (Filter.named s) =
    if is_text s
    then found_member "invalid role filter" (role_of_value (lower (strip s)))
    else ok none

unfoldable pub coerce_status : Filter UserStatus → Result (Option UserStatus)
unfolding status_of_value lower strip
coerce_status Filter.unset = ok none
coerce_status (Filter.member st) = ok (some st)
coerce_status (Filter.named s) =
    if is_text s
    then found_member "invalid status filter" (status_of_value (lower (strip s)))
    else ok none

-- `_is_privileged_role`
abbrev pub is_privileged_role : Role → Bool
is_privileged_role Role.owner = true
is_privileged_role Role.admin = true
is_privileged_role Role.viewer = false
is_privileged_role Role.user = false

-- `_reason_metadata`
unfoldable pub reason_metadata : Option String → Fields
unfolding strip
reason_metadata reason =
    let normalized = if has_text reason then strip (get_or reason "") else "" in
    if is_text normalized then field "reason" (text normalized) end else end

-- The users that `_require_another_active_privileged_user` goes through.
abbrev active_users : UserQuery
active_users = record all_users { status = some UserStatus.active }

-- Whether its loop finds one.
unfoldable pub has_another : String → Storage → Bool
unfolding list_stored_users
has_another target_user_id s =
    any (λ (u : AuthUser). not (u.id == target_user_id) && is_privileged_role u.role)
      (list_stored_users active_users s)

unfoldable pub require_another : String → Action (Unit {0})
unfolding has_another
require_another target_user_id = do
  found ← query (has_another target_user_id)
  fail_if (not found) (authorization_denied "at least one active owner/admin account is required")

module _ (host : Host) (svc : Service) where
  unfoldable pub list_users :
      String → Option String → Filter UserStatus → Filter Role → Action (List AuthUser)
  unfolding verify_session coerce_status coerce_role list_stored_users
  list_users token search status role = do
    actor ← verify_session host svc token (some "users:read")
    status_filter ← lift (coerce_status status)
    role_filter ← lift (coerce_role role)
    query (
        list_stored_users
          (record all_users { query = search; status = status_filter; role = role_filter }))

  unfoldable pub update_user_role : String → String → Role → Action AuthUser
  unfolding verify_session require_user require_another update_user revoke_all audit
  update_user_role token user_id role = do
    actor ← verify_session host svc token (some "users:write")
    user ← require_user host svc user_id
    when (is_privileged_role user.role && not (is_privileged_role role)) (require_another user.id)
    updated_at ← now_utc host
    let updated : AuthUser = record user { role = role; updated_at = updated_at }
    try_write (update_user updated)
    revoked ← revoke_all host svc user.id none
    audit host svc "auth.admin.role_update" (some actor.user.id) (some user.id)
        (field "role" (text (role_value role)) (field "revoked_count" (number revoked) end))
    pure updated

  -- The status of a user is set: the tail that four operations share.
  unfoldable pub write_status : AuthUser → UserStatus → Action AuthUser
  unfolding update_user
  write_status user status = do
    updated_at ← now_utc host
    let updated : AuthUser = record user { status = status; updated_at = updated_at }
    try_write (update_user updated)
    pure updated

  -- The guards of `ban_user` and `disable_user`.
  unfoldable pub guard_lock : Principal → AuthUser → String → Action (Unit {0})
  unfolding require_another
  guard_lock actor user message = do
    fail_if (user.id == actor.user.id) (authorization_denied message)
    when (is_privileged_role user.role) (require_another user.id)

  unfoldable pub ban_user : String → String → Option String → Action AuthUser
  unfolding verify_session require_user guard_lock write_status reason_metadata audit
  ban_user token user_id reason = do
    actor ← verify_session host svc token (some "users:ban")
    user ← require_user host svc user_id
    guard_lock actor user "admins cannot ban their own account"
    updated ← write_status user UserStatus.banned
    audit host svc "auth.admin.user_ban" (some actor.user.id) (some user.id)
        (reason_metadata reason)
    pure updated

  unfoldable pub unban_user : String → String → Option String → Action AuthUser
  unfolding verify_session require_user write_status reason_metadata audit
  unban_user token user_id reason = do
    actor ← verify_session host svc token (some "users:ban")
    user ← require_user host svc user_id
    updated ← write_status user UserStatus.active
    audit host svc "auth.admin.user_unban" (some actor.user.id) (some user.id)
        (reason_metadata reason)
    pure updated

  unfoldable pub disable_user : String → String → Option String → Action AuthUser
  unfolding verify_session require_user guard_lock write_status revoke_all reason_metadata audit
  disable_user token user_id reason = do
    actor ← verify_session host svc token (some "users:write")
    user ← require_user host svc user_id
    guard_lock actor user "admins cannot disable their own account"
    updated ← write_status user UserStatus.disabled
    revoked ← revoke_all host svc user.id none
    audit host svc "auth.admin.user_disable" (some actor.user.id) (some user.id)
        (reason_metadata reason)
    pure updated

  unfoldable pub enable_user : String → String → Option String → Action AuthUser
  unfolding verify_session require_user write_status reason_metadata audit
  enable_user token user_id reason = do
    actor ← verify_session host svc token (some "users:write")
    user ← require_user host svc user_id
    updated ← write_status user UserStatus.active
    audit host svc "auth.admin.user_enable" (some actor.user.id) (some user.id)
        (reason_metadata reason)
    pure updated

  unfoldable pub set_user_password : String → String → String → Action AuthCredential
  unfolding verify_session set_password revoke_all audit
  set_user_password token user_id password = do
    actor ← verify_session host svc token (some "users:write")
    credential ← set_password host svc user_id password (some false) none
    when svc.config.revoke_sessions_on_password_change (do
      revoked ← revoke_all host svc user_id none
      audit host svc "auth.admin.password_set.sessions_revoked" (some actor.user.id) (some user_id)
          (revoked_count revoked))
    audit host svc "auth.admin.password_set" (some actor.user.id) (some user_id) end
    pure credential

  unfoldable pub list_sessions_for_user : String → String → Action (List AuthSession)
  unfolding verify_session require_user list_stored_sessions
  list_sessions_for_user token user_id = do
    actor ← verify_session host svc token (some "users:read")
    user ← require_user host svc user_id
    query (list_stored_sessions user_id)

  unfoldable pub revoke_session : String → String → Action (Unit {0})
  unfolding verify_session end_session
  revoke_session token session_id = do
    actor ← verify_session host svc token (some "sessions:revoke")
    end_session host svc session_id (some actor.user.id)
