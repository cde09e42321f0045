-- ===== src/Http/AdminRoutes.antt =====
-- fastapi_adapter.py: the routes of `mount_admin_routes`. A route that changes state checks the
-- CSRF token before it reads the session's token.
pub mod Changes
use coreline_auth_module.Common.{ℕ, String, Option, none, some, List, [], ◌∷◌, map, true}
use coreline_auth_module.Admin.{
  Filter, list_users, update_user_role, ban_user, unban_user, set_user_password,
  list_sessions_for_user, revoke_session,
}
use coreline_auth_module.Errors.{Error, authentication_failed, authorization_denied, validation}
use coreline_auth_module.Host.{Host}
use coreline_auth_module.Models.{
  AuthUser, AuthSession, AuditEvent, Role, UserStatus, role_value, status_value,
}
use coreline_auth_module.Storage.{EventQuery}
use coreline_auth_module.World.{Action}
use coreline_auth_module.Service.Config.{Service}
use coreline_auth_module.Service.Sessions.{verify_session, list_audit_events}
use coreline_auth_module.Http.{
  Request, Mount, Http, BodyValue, null, truth, words, moment, details, Body, ◌>>=◌, ◌>>◌, respond,
  attempt, denials, nothing_caught, by_kind,
}
use coreline_auth_module.Http.Gate.{require_csrf, require_token}

-- A denied list of users is 403, and a filter that names nothing is 400.
abbrev pub denied_or_invalid : Error → Option ℕ
denied_or_invalid (authentication_failed m) = some 403
denied_or_invalid (authorization_denied m) = some 403
denied_or_invalid (validation m) = some 400
denied_or_invalid e = none

abbrev words_or_null : Option String → BodyValue
words_or_null none = null
words_or_null (some s) = words s

abbrev moment_or_null : Option ℕ → BodyValue
moment_or_null none = null
moment_or_null (some t) = moment t

-- The entries of the lists under `users`, `events` and `sessions`.
unfoldable pub user_entry : AuthUser → Body
user_entry user =
    ("id", words user.id)
    ∷ ("email", words user.primary_email)
    ∷ ("role", words (role_value user.role))
    ∷ ("status", words (status_value user.status))
    ∷ ("display_name", words_or_null user.display_name)
    ∷ []

unfoldable pub event_entry : AuditEvent → Body
event_entry event =
    ("action", words event.action)
    ∷ ("actor_user_id", words_or_null event.actor_user_id)
    ∷ ("target_user_id", words_or_null event.target_user_id)
    ∷ ("metadata", details event.metadata)
    ∷ ("created_at", moment event.created_at)
    ∷ []

unfoldable pub session_entry : AuthSession → Body
session_entry session =
    ("id", words session.id)
    ∷ ("user_id", words session.user_id)
    ∷ ("email", words_or_null session.email)
    ∷ ("role", words (role_value session.role))
    ∷ ("created_at", moment session.created_at)
    ∷ ("expires_at", moment session.expires_at)
    ∷ ("revoked_at", moment_or_null session.revoked_at)
    ∷ ("last_seen_at", moment_or_null session.last_seen_at)
    ∷ []

-- The dictionary under `user` in a reply.
abbrev pub changed_role : AuthUser → Body
changed_role user =
    ("id", words user.id)
    ∷ ("email", words user.primary_email)
    ∷ ("role", words (role_value user.role))
    ∷ ("status", words (status_value user.status))
    ∷ []

abbrev pub changed_status : AuthUser → Body
changed_status user = ("id", words user.id) ∷ ("status", words (status_value user.status)) ∷ []

module _ (host : Host) (svc : Service) (mount : Mount) where
  -- The list under `users`.
  unfoldable pub list_users_route :
      Option String → Filter UserStatus → Filter Role → Request → Http (List Body)
  unfolding require_token list_users user_entry
  list_users_route query user_status role request = do
    token ← require_token host svc mount request
    users ← attempt denied_or_invalid (list_users host svc token query user_status role)
    respond (map user_entry users)

  -- The list under `events`.
  unfoldable pub list_audit_route : EventQuery → Request → Http (List Body)
  unfolding require_token verify_session list_audit_events event_entry
  list_audit_route wanted request = do
    token ← require_token host svc mount request
    attempt by_kind (verify_session host svc token (some "audit:read"))
    events ← attempt nothing_caught (list_audit_events host svc wanted)
    respond (map event_entry events)

  -- The frame of the routes that change state: the CSRF token, the session's token, and the call.
  unfoldable pub changing {ℓ} : {A : Type ℓ} → Request → (String → Action A) → Http A
  unfolding require_csrf require_token
  changing request call = do
    require_csrf host svc mount request true
    token ← require_token host svc mount request
    attempt (denials 403) (call token)

  unfoldable pub update_role_route : String → Role → Request → Http Body
  unfolding changing update_user_role
  update_role_route user_id role request = do
    user ← changing request (λ token. update_user_role host svc token user_id role)
    respond (changed_role user)

  unfoldable pub ban_user_route : String → Option String → Request → Http Body
  unfolding changing ban_user
  ban_user_route user_id reason request = do
    user ← changing request (λ token. ban_user host svc token user_id reason)
    respond (changed_status user)

  unfoldable pub unban_user_route : String → Option String → Request → Http Body
  unfolding changing unban_user
  unban_user_route user_id reason request = do
    user ← changing request (λ token. unban_user host svc token user_id reason)
    respond (changed_status user)

  unfoldable pub set_password_route : String → String → Request → Http Body
  unfolding changing set_user_password
  set_password_route user_id password request = do
    changing request (λ token. set_user_password host svc token user_id password)
    respond (("ok", truth true) ∷ [])

  -- The list under `sessions`.
  unfoldable pub list_user_sessions_route : String → Request → Http (List Body)
  unfolding require_token list_sessions_for_user session_entry
  list_user_sessions_route user_id request = do
    token ← require_token host svc mount request
    sessions ← attempt (denials 403) (list_sessions_for_user host svc token user_id)
    respond (map session_entry sessions)

  unfoldable pub revoke_session_route : String → Request → Http Body
  unfolding changing revoke_session
  revoke_session_route session_id request = do
    changing request (λ token. revoke_session host svc token session_id)
    respond (("ok", truth true) ∷ [])
