-- ===== src/Service/Sessions.antt =====
-- service.py: issuing, verifying and ending sessions.
pub mod Frames
mod Refreshing
pub mod Verification
pub mod Ending
pub mod Acceptance
mod Tests
use Prim.Native.String
use coreline_auth_module.Common.{
  ℕ, ◌+◌, ◌-◌, String, Bool, true, false, not, ◌&&◌, ◌||◌, Option, none, some, List, eqb, leb,
  is_none, is_text, get_or, if◌then◌else◌,
}
use coreline_auth_module.Errors.{authentication_failed, authorization_denied}
use coreline_auth_module.Host.{Host}
use coreline_auth_module.Models.{
  AuthUser, AuthSession, AuthAssuranceLevel, AuditEvent, Role, RequestContext, IssuedSession,
  Principal, field, end, text, is_active, is_single_owner,
}
use coreline_auth_module.Permissions.{permissions_for, allows}
use coreline_auth_module.Security.{hash_secret, hash_optional_context}
use coreline_auth_module.Storage.{
  create_session, get_session_by_token_hash, touch_session, revoke_session as revoke_stored,
  cleanup_expired as cleanup_storage, list_audit_events as list_stored_events, EventQuery,
}
use coreline_auth_module.Storage.Sessions.{is_expired}
use coreline_auth_module.World.{Action, ◌>>=◌, ◌>>◌}
use coreline_auth_module.World.Actions.{
  pure, query, change, write, try_write, fail_if, require, now_utc, generate_token, draw_uuid,
}
use coreline_auth_module.Service.Config.{Service, policy}
use coreline_auth_module.Service.Support.{require_user, audit}
use coreline_auth_module.Service.Accounts.{prefixed}

-- `now + timedelta(seconds=ttl) if ttl else None`
unfoldable pub idle_limit : ℕ → Option ℕ → Option ℕ
idle_limit now none = none
idle_limit now (some ttl) = if eqb ttl 0 then none else some (now + ttl)

-- The field of the request's context, if there is one.
abbrev context_ip : Option RequestContext → Option String
context_ip none = none
context_ip (some c) = c.ip

abbrev context_agent : Option RequestContext → Option String
context_agent none = none
context_agent (some c) = c.user_agent

-- `session.last_seen_at is None or now - session.last_seen_at >= interval`
abbrev is_stale : ℕ → ℕ → Option ℕ → Bool
is_stale interval now none = true
is_stale interval now (some seen) = leb interval (now - seen)

-- `should_touch`
unfoldable pub should_touch : ℕ → ℕ → AuthSession → Bool
should_touch interval now session = eqb interval 0 || is_stale interval now session.last_seen_at

module _ (host : Host) (svc : Service) where
  -- The session that `issue_session` builds from what it draws and reads.
  unfoldable pub session_for :
      AuthUser → Option String → Option RequestContext → ℕ → String → String → AuthSession
  unfolding policy permissions_for hash_secret hash_optional_context idle_limit
  session_for user provider context now token uuid =
      let role' = if is_single_owner svc.config.profile then Role.owner else user.role in
      record {
        id = prefixed "sess_" uuid;
        session_token_hash = hash_secret host token;
        user_id = user.id;
        subject = some user.id;
        email = some user.primary_email;
        provider = provider;
        role = role';
        permissions = permissions_for (policy svc) role' (some user.primary_email);
        assurance_level = AuthAssuranceLevel.aal1;
        created_at = now;
        expires_at = now + svc.config.session_ttl_seconds;
        idle_expires_at = idle_limit now svc.config.session_idle_ttl_seconds;
        revoked_at = none;
        last_seen_at = some now;
        user_agent_hash = hash_optional_context host (context_agent context);
        ip_hash = hash_optional_context host (context_ip context);
      }

  unfoldable pub issue_session :
      AuthUser → Option String → Option RequestContext → Action IssuedSession
  unfolding session_for create_session
  issue_session user provider context = do
    now ← now_utc host
    token ← generate_token host
    uuid ← draw_uuid host
    let session = session_for user provider context now token uuid
    try_write (create_session session)
    pure (record { token = token; session = session })

  -- The touch at the end of `verify_session`.
  unfoldable pub refresh : ℕ → AuthSession → Action AuthSession
  unfolding should_touch touch_session idle_limit
  refresh now session =
      if should_touch svc.config.session_touch_interval_seconds now session
      then (do
        refreshed ←
            change
              (touch_session session.id now (idle_limit now svc.config.session_idle_ttl_seconds))
        require refreshed (authentication_failed "invalid session"))
      else pure session

  -- `required_permission and not self.policy.allows(session.permissions, required_permission)`
  unfoldable pub lacks_permission : Option String → AuthSession → Bool
  unfolding allows
  lacks_permission none session = false
  lacks_permission (some required) session =
      is_text required && not (allows session.permissions required)

  unfoldable pub verify_session : String → Option String → Action Principal
  unfolding hash_secret get_session_by_token_hash is_expired require_user lacks_permission refresh
  verify_session token required_permission = do
    found ← query (get_session_by_token_hash (hash_secret host token))
    now ← now_utc host
    session ← require found (authentication_failed "invalid session")
    fail_if (not (is_none session.revoked_at)) (authentication_failed "invalid session")
    fail_if (is_expired now session) (authentication_failed "session expired")
    user ← require_user host svc session.user_id
    fail_if (not (is_active user.status)) (authentication_failed "user inactive")
    fail_if (lacks_permission required_permission session)
        (authorization_denied (String.◌++◌ "missing permission: " (get_or required_permission "")))
    refreshed ← refresh now session
    pure (record { user = user; session = refreshed })

  -- `self.storage.revoke_session(id)`, which reads the clock where it writes.
  unfoldable pub revoke_by_id : String → Action (Unit {0})
  unfolding revoke_stored
  revoke_by_id session_id = do now ← now_utc host; write (revoke_stored session_id now)

  -- The branch of `logout` on the session that was found.
  unfoldable pub end_found : Option AuthSession → Action (Unit {0})
  unfolding revoke_by_id audit
  end_found none = pure tt
  end_found (some session) = do
    revoke_by_id session.id
    audit host svc "auth.logout" (some session.user_id) none end

  unfoldable pub logout : String → Action (Unit {0})
  unfolding hash_secret get_session_by_token_hash end_found
  logout token = do
    found ← query (get_session_by_token_hash (hash_secret host token))
    end_found found

  unfoldable pub revoke_session : String → Option String → Action (Unit {0})
  unfolding revoke_by_id audit
  revoke_session session_id actor = do
    revoke_by_id session_id
    audit host svc "auth.session.revoke" actor none (field "session_id" (text session_id) end)

  unfoldable pub cleanup_expired : Action (ℕ × ℕ)
  unfolding cleanup_storage
  cleanup_expired = do now ← now_utc host; change (cleanup_storage now)

  unfoldable pub list_audit_events : EventQuery → Action (List AuditEvent)
  unfolding list_stored_events
  list_audit_events q = query (list_stored_events q)
