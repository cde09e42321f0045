-- ===== src/Storage/Sessions/Operations.antt =====
-- memory.py: the calls that change sessions, as data, and what a call leaves in the storage. A call
-- that raises leaves the storage as it was.
use coreline_auth_module.Common.{ℕ, String, Bool, false, Option, List, [], ◌∷◌, ◌==◌}
use coreline_auth_module.Errors.{or_same}
use coreline_auth_module.Models.{AuthSession, AuthAssuranceLevel}
use coreline_auth_module.Storage.State.{Storage}
use coreline_auth_module.Storage.Sessions.{
  create_session, update_session, touch_session, set_session_assurance_level, revoke_session,
  revoke_sessions_for_user, cleanup_sessions,
}

pub data SessionCall : Type 0 where
  create update : AuthSession → SessionCall
  touch : (id : String) (last_seen_at : ℕ) (idle_expires_at : Option ℕ) → SessionCall
  assure : (id : String) (level : AuthAssuranceLevel) (last_seen_at : ℕ) → SessionCall
  revoke : (id : String) (now : ℕ) → SessionCall
  revoke_user : (user_id : String) (except : Option String) (now : ℕ) → SessionCall
  cleanup : (now : ℕ) → SessionCall

unfoldable pub perform : SessionCall → Storage → Storage
perform (SessionCall.create x) s = or_same (create_session x s) s
perform (SessionCall.update x) s = or_same (update_session x s) s
perform (SessionCall.touch id t idle) s = (touch_session id t idle s).1
perform (SessionCall.assure id level t) s = (set_session_assurance_level id level t s).1
perform (SessionCall.revoke id now) s = revoke_session id now s
perform (SessionCall.revoke_user uid except now) s = (revoke_sessions_for_user uid except now s).1
perform (SessionCall.cleanup now) s = (cleanup_sessions now s).1

unfoldable pub perform_all : List SessionCall → Storage → Storage
perform_all [] s = s
perform_all (c ∷ calls) s = perform_all calls (perform c s)

-- The call stores a new session under the id.
abbrev pub creates : String → SessionCall → Bool
creates id (SessionCall.create x) = x.id == id
creates id _ = false
