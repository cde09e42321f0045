-- ===== src/Async/Sessions.antt =====
-- async_service.py: sessions. `session_for` builds the session as in the synchronous service.
use Prim.Native.String
use coreline_auth_module.Common.{
  ℕ, String, not, Option, none, some, List, is_none, get_or, if◌then◌else◌,
}
use coreline_auth_module.Errors.{authentication_failed, authorization_denied}
use coreline_auth_module.Host.{Host}
use coreline_auth_module.Models.{
  AuthUser, AuthSession, AuditEvent, RequestContext, IssuedSession, Principal, end, is_active,
}
use coreline_auth_module.Security.{hash_secret}
use coreline_auth_module.Storage.{
  create_session, get_session_by_token_hash, touch_session, cleanup_expired as cleanup_storage,
  list_audit_events as list_stored_events, EventQuery,
}
use coreline_auth_module.Storage.Sessions.{is_expired}
use coreline_auth_module.World.Actions.{
  query, change, try_write, fail_if, require, now_utc, generate_token, draw_uuid,
}
use coreline_auth_module.Service.Config.{Service}
use coreline_auth_module.Service.Sessions.{
  session_for, should_touch, idle_limit, lacks_permission, revoke_by_id,
}
use coreline_auth_module.Async.{Task, call, give, ◌>>=◌, ◌>>◌}
use coreline_auth_module.Async.Support.{require_user, audit}

-- The arguments of `list_audit_events`, as the storage takes them.
abbrev pub audit_query : Option String → Option String → Option String → ℕ → ℕ → EventQuery
audit_query action actor target limit offset = record {
  action = action;
  actor_user_id = actor;
  target_user_id = target;
  since = none;
  until = none;
  limit = limit;
  offset = offset;
}

module _ (host : Host) (svc : Service) where
  unfoldable pub issue_session :
      AuthUser → Option String → Option RequestContext → Task IssuedSession
  unfolding session_for create_session
  issue_session user provider context = do
    now ← call (now_utc host)
    token ← call (generate_token host)
    uuid ← call (draw_uuid host)
    let session = session_for host svc user provider context now token uuid
    call (try_write (create_session session))
    give (record { token = token; session = session })

  -- The touch at the end of `verify_session`.
  unfoldable pub refresh : ℕ → AuthSession → Task AuthSession
  unfolding should_touch touch_session idle_limit
  refresh now session =
      if should_touch svc.config.session_touch_interval_seconds now session
      then (do
        refreshed ← call (
            change
              (touch_session session.id now (idle_limit now svc.config.session_idle_ttl_seconds)))
        call (require refreshed (authentication_failed "invalid session")))
      else give session

  unfoldable pub verify_session : String → Option String → Task Principal
  unfolding hash_secret get_session_by_token_hash is_expired require_user lacks_permission refresh
  verify_session token required_permission = do
    found ← call (query (get_session_by_token_hash (hash_secret host token)))
    now ← call (now_utc host)
    session ← call (require found (authentication_failed "invalid session"))
    call (fail_if (not (is_none session.revoked_at)) (authentication_failed "invalid session"))
    call (fail_if (is_expired now session) (authentication_failed "session expired"))
    user ← require_user host svc session.user_id
    call (fail_if (not (is_active user.status)) (authentication_failed "user inactive"))
    call (
        fail_if (lacks_permission host svc required_permission session) (
          authorization_denied
            (String.◌++◌ "missing permission: " (get_or required_permission ""))))
    refreshed ← refresh now session
    give (record { user = user; session = refreshed })

  -- The branch of `logout` on the session that was found.
  unfoldable pub end_found : Option AuthSession → Task (Unit {0})
  unfolding revoke_by_id audit
  end_found none = give tt
  end_found (some session) = do
    call (revoke_by_id host svc session.id)
    audit host svc "auth.logout" (some session.user_id) none end

  unfoldable pub logout : String → Task (Unit {0})
  unfolding hash_secret get_session_by_token_hash end_found
  logout token = do
    found ← call (query (get_session_by_token_hash (hash_secret host token)))
    end_found found

  unfoldable pub cleanup_expired : Task (ℕ × ℕ)
  unfolding cleanup_storage
  cleanup_expired = do now ← call (now_utc host); call (change (cleanup_storage now))

  -- The times are not among the arguments.
  unfoldable pub list_audit_events :
      Option String → Option String → Option String → ℕ → ℕ → Task (List AuditEvent)
  unfolding list_stored_events
  list_audit_events action actor target limit offset =
      call (query (list_stored_events (audit_query action actor target limit offset)))
