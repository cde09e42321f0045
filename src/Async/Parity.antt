-- ===== src/Async/Parity.antt =====
-- async_service.py and service.py: each call of the asynchronous service, alone, returns what the
-- synchronous service returns.
use coreline_auth_module.Common.{arith, ◌≡◌, ◌↔◌, Bool, true, false}
use coreline_auth_module.Errors.{ok}
use coreline_auth_module.Host.{Host}
use coreline_auth_module.Models.{is_single_owner}
use coreline_auth_module.World.{World, Action, ◌>>=◌}
use coreline_auth_module.World.Actions.{pure}
use coreline_auth_module.Service.Config.{Service}
use coreline_auth_module.Service.{
  bootstrap_owner, create_user, set_password, login_password, request_magic_link,
  consume_magic_link, request_email_verification, consume_email_verification,
  request_password_reset, consume_password_reset, verify_session, logout, cleanup_expired,
  list_audit_events,
}
use coreline_auth_module.Async.{Task, run}
use coreline_auth_module.Async.Agreement.{Agrees, bind-Agrees, give-Agrees}
use coreline_auth_module.Async.Refinement.{
  create_user-Agrees, set_password-Agrees, login_password-Agrees, verify_session-Agrees,
  logout-Agrees,
}
use coreline_auth_module.Async.Refinement.Links.{
  request_magic_link-Agrees, consume_magic_link-Agrees, request_email_verification-Agrees,
  consume_email_verification-Agrees, request_password_reset-Agrees, consume_password_reset-Agrees,
  cleanup_expired-Agrees, list_audit_events-Agrees,
}
use coreline_auth_module.Async.Sessions.{audit_query}
use coreline_auth_module.Async.Calls.{
  AsyncCall, Answer, answered, task_of, owner, user, password, login, link, follow, verification,
  verify_email, reset, reset_with, verify, leave, cleanup, events, of_user, of_credential,
  of_session, of_challenge, of_principal, of_counts, of_events, of_nothing,
}

-- The same call of `CorelineAuthService`.
abbrev replied {ℓ} : {A : Type ℓ} → (A → Answer) → Action A → Action Answer
replied wrap m = m >>= λ a. pure (wrap a)

unfoldable pub sync_of : Host → Service → AsyncCall → Action Answer
unfolding bootstrap_owner create_user set_password login_password request_magic_link
    consume_magic_link request_email_verification consume_email_verification request_password_reset
    consume_password_reset verify_session logout cleanup_expired list_audit_events
sync_of host svc (owner e p d) = replied of_user (bootstrap_owner host svc e p d)
sync_of host svc (user e r p v d) = replied of_user (create_user host svc e r p v d)
sync_of host svc (password u p r x) = replied of_credential (set_password host svc u p r x)
sync_of host svc (login e p c) = replied of_session (login_password host svc e p c)
sync_of host svc (link e r) = replied of_challenge (request_magic_link host svc e r)
sync_of host svc (follow t c) = replied of_session (consume_magic_link host svc t c)
sync_of host svc (verification u e) = replied of_challenge (request_email_verification host svc u e)
sync_of host svc (verify_email t) = replied of_user (consume_email_verification host svc t)
sync_of host svc (reset e) = replied of_challenge (request_password_reset host svc e)
sync_of host svc (reset_with t p) = replied of_user (consume_password_reset host svc t p)
sync_of host svc (verify t r) = replied of_principal (verify_session host svc t r)
sync_of host svc (leave t) = replied of_nothing (logout host svc t)
sync_of host svc cleanup = replied of_counts (cleanup_expired host svc)
sync_of host svc (events a c t l o) =
    replied of_events (list_audit_events host svc (audit_query a c t l o))

abbrev pub is_bootstrap : AsyncCall → Bool
is_bootstrap (owner _ _ _) = true
is_bootstrap _ = false

module _ (host : Host) (svc : Service) (team : is_single_owner svc.config.profile ≡ false) where
  answered-Agrees {ℓ} :
      {A : Type ℓ} {t : Task A} {m : Action A} (wrap : A → Answer)
      → Agrees t m
      → Agrees (answered wrap t) (replied wrap m)
  answered-Agrees wrap h = bind-Agrees _ _ _ _ h (λ a. give-Agrees _)

  task_of-Agrees :
      (c : AsyncCall) → is_bootstrap c ≡ false → Agrees (task_of host svc c) (sync_of host svc c)
  unfolding task_of sync_of
  task_of-Agrees (owner e p d) h = absurd (ground (arith, h))
  task_of-Agrees (user e r p v d) h =
      answered-Agrees of_user (create_user-Agrees host svc team e r p v d)
  task_of-Agrees (password u p r x) h =
      answered-Agrees of_credential (set_password-Agrees host svc team u p r x)
  task_of-Agrees (login e p c) h =
      answered-Agrees of_session (login_password-Agrees host svc team e p c)
  task_of-Agrees (link e r) h =
      answered-Agrees of_challenge (request_magic_link-Agrees host svc team e r)
  task_of-Agrees (follow t c) h =
      answered-Agrees of_session (consume_magic_link-Agrees host svc team t c)
  task_of-Agrees (verification u e) h =
      answered-Agrees of_challenge (request_email_verification-Agrees host svc team u e)
  task_of-Agrees (verify_email t) h =
      answered-Agrees of_user (consume_email_verification-Agrees host svc team t)
  task_of-Agrees (reset e) h =
      answered-Agrees of_challenge (request_password_reset-Agrees host svc team e)
  task_of-Agrees (reset_with t p) h =
      answered-Agrees of_user (consume_password_reset-Agrees host svc team t p)
  task_of-Agrees (verify t r) h =
      answered-Agrees of_principal (verify_session-Agrees host svc team t r)
  task_of-Agrees (leave t) h = answered-Agrees of_nothing (logout-Agrees host svc team t)
  task_of-Agrees cleanup h = answered-Agrees of_counts (cleanup_expired-Agrees host svc team)
  task_of-Agrees (events a c t l o) h =
      answered-Agrees of_events (list_audit_events-Agrees host svc team a c t l o)

-- Outside the profile with a single owner, a call of the asynchronous service that runs without
-- interruption returns a value and leaves a world exactly if the same call of the synchronous
-- service does. This is not said of `bootstrap_owner`, nor of which error is raised.
pub task_of_refines_sync_of :
    (host : Host) (svc : Service) (c : AsyncCall) (w w' : World) (a : Answer)
    → is_single_owner svc.config.profile ≡ false
    → is_bootstrap c ≡ false
    → (run (task_of host svc c) w ≡ (ok a, w')) ↔ (sync_of host svc c w ≡ (ok a, w'))
task_of_refines_sync_of host svc c w w' a team h =
    let g = task_of-Agrees host svc team c h in (g.sound w a w', g.complete w a w')
