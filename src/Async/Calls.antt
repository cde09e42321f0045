-- ===== src/Async/Calls.antt =====
-- async_service.py: the calls of the asynchronous service as data, and many of them at a time.
use coreline_auth_module.Common.{arith, ℕ, String, Bool, Option, List, [], ◌∷◌, map}
use coreline_auth_module.Host.{Host}
use coreline_auth_module.Models.{
  AuthUser, AuthCredential, IssuedSession, MagicLinkChallenge, Principal, AuditEvent,
  RequestContext, Role,
}
use coreline_auth_module.Storage.Sessions.Revocation.{IsRevoked}
use coreline_auth_module.World.{World}
use coreline_auth_module.Service.Config.{Service}
use coreline_auth_module.Async.{Task, give, ◌>>=◌, interleave}
use coreline_auth_module.Async.Keeping.{Keeps, AllKeep, bind-Keeps, give-Keeps, interleave-Keeps}
use coreline_auth_module.Async.Revocation.{IsFresh, Revoked}
use coreline_auth_module.Async.Methods.{
  verify_session-Keeps, logout-Keeps, cleanup_expired-Keeps, list_audit_events-Keeps,
  set_password-Keeps, create_user-Keeps, bootstrap_owner-Keeps, login_password-Keeps,
}
use coreline_auth_module.Async.Methods.Links.{
  request_magic_link-Keeps, consume_magic_link-Keeps, request_email_verification-Keeps,
  consume_email_verification-Keeps, request_password_reset-Keeps, consume_password_reset-Keeps,
}
use coreline_auth_module.Async.Sessions.{verify_session, logout, cleanup_expired, list_audit_events}
use coreline_auth_module.Async.Accounts.{set_password, create_user, bootstrap_owner, login_password}
use coreline_auth_module.Async.Links.{
  request_magic_link, consume_magic_link, request_email_verification, consume_email_verification,
  request_password_reset, consume_password_reset,
}

pub data AsyncCall : Type 0 where
  owner : (email : String) (password display_name : Option String) → AsyncCall
  user :
      (email : String) (role : Role) (password : Option String) (email_verified : Bool)
      (display_name : Option String)
      → AsyncCall
  password :
      (user_id password : String) (revoke_sessions : Option Bool) (except : Option String)
      → AsyncCall
  login : (email password : String) (context : Option RequestContext) → AsyncCall
  link : (email : String) (return_to : Option String) → AsyncCall
  follow : (token : String) (context : Option RequestContext) → AsyncCall
  verification : (user_id email : Option String) → AsyncCall
  verify_email : (token : String) → AsyncCall
  reset : (email : String) → AsyncCall
  reset_with : (token new_password : String) → AsyncCall
  verify : (token : String) (required_permission : Option String) → AsyncCall
  leave : (token : String) → AsyncCall
  cleanup : AsyncCall
  events : (action actor target : Option String) (limit offset : ℕ) → AsyncCall

-- What a call returns.
pub data Answer : Type 0 where
  of_user : AuthUser → Answer
  of_credential : AuthCredential → Answer
  of_session : IssuedSession → Answer
  of_challenge : MagicLinkChallenge → Answer
  of_principal : Principal → Answer
  of_counts : ℕ × ℕ → Answer
  of_events : List AuditEvent → Answer
  of_nothing : Unit {0} → Answer

-- The task with its result among the answers.
abbrev pub answered {ℓ} : {A : Type ℓ} → (A → Answer) → Task A → Task Answer
answered wrap t = t >>= λ a. give (wrap a)

unfoldable pub task_of : Host → Service → AsyncCall → Task Answer
unfolding bootstrap_owner create_user set_password login_password request_magic_link
    consume_magic_link request_email_verification consume_email_verification request_password_reset
    consume_password_reset verify_session logout cleanup_expired list_audit_events
task_of host svc (owner e p d) = answered of_user (bootstrap_owner host svc e p d)
task_of host svc (user e r p v d) = answered of_user (create_user host svc e r p v d)
task_of host svc (password u p r x) = answered of_credential (set_password host svc u p r x)
task_of host svc (login e p c) = answered of_session (login_password host svc e p c)
task_of host svc (link e r) = answered of_challenge (request_magic_link host svc e r)
task_of host svc (follow t c) = answered of_session (consume_magic_link host svc t c)
task_of host svc (verification u e) =
    answered of_challenge (request_email_verification host svc u e)
task_of host svc (verify_email t) = answered of_user (consume_email_verification host svc t)
task_of host svc (reset e) = answered of_challenge (request_password_reset host svc e)
task_of host svc (reset_with t p) = answered of_user (consume_password_reset host svc t p)
task_of host svc (verify t r) = answered of_principal (verify_session host svc t r)
task_of host svc (leave t) = answered of_nothing (logout host svc t)
task_of host svc cleanup = answered of_counts (cleanup_expired host svc)
task_of host svc (events a c t l o) = answered of_events (list_audit_events host svc a c t l o)

module _ (id : String) (t n : ℕ) (host : Host) (svc : Service) (fresh : IsFresh host id n) where
  answered-Keeps {ℓ} :
      {A : Type ℓ} {u : Task A} (wrap : A → Answer)
      → Keeps (Revoked id t n) u
      → Keeps (Revoked id t n) (answered wrap u)
  answered-Keeps wrap k = bind-Keeps _ _ k (λ _. give-Keeps _)

  task_of-Keeps : (c : AsyncCall) → Keeps (Revoked id t n) (task_of host svc c)
  unfolding task_of
  task_of-Keeps (owner e p d) =
      answered-Keeps of_user (bootstrap_owner-Keeps id t n host svc fresh e p d)
  task_of-Keeps (user e r p v d) =
      answered-Keeps of_user (create_user-Keeps id t n host svc fresh e r p v d)
  task_of-Keeps (password u p r x) =
      answered-Keeps of_credential (set_password-Keeps id t n host svc fresh u p r x)
  task_of-Keeps (login e p c) =
      answered-Keeps of_session (login_password-Keeps id t n host svc fresh e p c)
  task_of-Keeps (link e r) =
      answered-Keeps of_challenge (request_magic_link-Keeps id t n host svc fresh e r)
  task_of-Keeps (follow k c) =
      answered-Keeps of_session (consume_magic_link-Keeps id t n host svc fresh k c)
  task_of-Keeps (verification u e) =
      answered-Keeps of_challenge (request_email_verification-Keeps id t n host svc fresh u e)
  task_of-Keeps (verify_email k) =
      answered-Keeps of_user (consume_email_verification-Keeps id t n host svc fresh k)
  task_of-Keeps (reset e) =
      answered-Keeps of_challenge (request_password_reset-Keeps id t n host svc fresh e)
  task_of-Keeps (reset_with k p) =
      answered-Keeps of_user (consume_password_reset-Keeps id t n host svc fresh k p)
  task_of-Keeps (verify k r) =
      answered-Keeps of_principal (verify_session-Keeps id t n host svc fresh k r)
  task_of-Keeps (leave k) = answered-Keeps of_nothing (logout-Keeps id t n host svc fresh k)
  task_of-Keeps cleanup = answered-Keeps of_counts (cleanup_expired-Keeps id t n host svc fresh)
  task_of-Keeps (events a c k l o) =
      answered-Keeps of_events (list_audit_events-Keeps id t n host svc fresh a c k l o)

  all_tasks : (calls : List AsyncCall) → AllKeep (Revoked id t n) (map (task_of host svc) calls)
  all_tasks [] = tt
  all_tasks (c ∷ calls) = (task_of-Keeps c, all_tasks calls)

-- A revoked session stays revoked, at the time of its revocation, whatever calls of the asynchronous
-- service run at the same time and in whatever order their steps are taken, as long as no id that is
-- drawn from then on is the session's.
pub interleave-IsRevoked :
    (host : Host) (svc : Service) (id : String) (t : ℕ) (calls : List AsyncCall) (schedule : List ℕ)
    (w : World)
    → IsFresh host id w.uuids_drawn
    → IsRevoked id t w.storage
    → IsRevoked id t (interleave schedule (map (task_of host svc) calls) w).1.storage
interleave-IsRevoked host svc id t calls schedule w fresh revoked =
    (interleave-Keeps (Revoked id t w.uuids_drawn) schedule (map (task_of host svc) calls) w
      (all_tasks id t w.uuids_drawn host svc fresh calls)
      (record { drawn = omega arith; session = revoked })).1.session
