-- ===== src/Async/Refinement/Links.antt =====
-- async_service.py and service.py: the asynchronous methods for e-mailed links against the
-- synchronous ones, outside the profile with a single owner, whose checks differ.
use coreline_auth_module.Common.{◌≡◌, ap, ℕ, String, false, Option, some, none, arith}
use coreline_auth_module.Errors.{Error, authentication_failed}
use coreline_auth_module.Host.{Host}
use coreline_auth_module.Models.{AuthUser, AuthIdentity, LoginFlow, RequestContext, is_single_owner}
use coreline_auth_module.World.Actions.{pure, fail, require}
use coreline_auth_module.World.Outcomes.{bind-eq_returned}
use coreline_auth_module.Service.Config.{Service}
use coreline_auth_module.Service.Support
use coreline_auth_module.Service.Sessions
use coreline_auth_module.Service.Tokens
use coreline_auth_module.Service.Resets
use coreline_auth_module.Async.{run, call}
use coreline_auth_module.Async.Agreement.{Agrees, call-Agrees}
use coreline_auth_module.Async.Sessions.{audit_query, cleanup_expired, list_audit_events}
use coreline_auth_module.Async.Accounts.{end_sessions}
use coreline_auth_module.Async.Links.{
  request_magic_link, user_or_new, consume_magic_link, user_by, request_email_verification,
  require_active_user, same_email, verify_identity, consume_email_verification,
  request_password_reset, reset_password_of, consume_password_reset,
}
use coreline_auth_module.Async.Refinement.{
  helpers, create_user-Agrees, issue_session-Agrees, set_password-Agrees,
}

module _ (host : Host) (svc : Service) (team : is_single_owner svc.config.profile ≡ false) where
  require_link-Agrees :
      (found : Option LoginFlow) (e : Error)
      → Agrees (call (require found e)) (Tokens.require_link host svc found)
  unfolding call run Tokens.require_link
  require_link-Agrees (some flow) e = call-Agrees (pure flow)
  require_link-Agrees none e = record {
    sound = λ w a w' h. absurd (ground (arith, ap (λ x. x.0) h));
    complete = λ w a w' h.
        let (_, _, q) =
          bind-eq_returned (Support.metric host svc "auth.magic_link.consume_failed")
            (λ _. fail (authentication_failed "invalid or expired magic link")) w w' a h in
        absurd (ground (arith, ap (λ x. x.0) q));
  }

  pub cleanup_expired-Agrees : Agrees (cleanup_expired host svc) (Sessions.cleanup_expired host svc)
  unfolding cleanup_expired Sessions.cleanup_expired
  cleanup_expired-Agrees = search helpers depth 60 fits 6000

  pub list_audit_events-Agrees :
      (action actor target : Option String) (limit offset : ℕ)
      → Agrees
          (list_audit_events host svc action actor target limit offset)
          (Sessions.list_audit_events host svc (audit_query action actor target limit offset))
  unfolding list_audit_events Sessions.list_audit_events
  list_audit_events-Agrees action actor target limit offset = search helpers depth 60 fits 6000

  pub request_magic_link-Agrees :
      (email : String) (return_to : Option String)
      → Agrees
          (request_magic_link host svc email return_to)
          (Tokens.request_magic_link host svc email return_to)
  unfolding request_magic_link Tokens.request_magic_link
  request_magic_link-Agrees email return_to = search helpers depth 60 fits 6000

  user_or_new-Agrees :
      (email : String) (found : Option AuthUser)
      → Agrees (user_or_new host svc email found) (Tokens.user_or_new host svc email found)
  unfolding user_or_new Tokens.user_or_new
  user_or_new-Agrees email none = search (helpers, create_user-Agrees) depth 60 fits 6000
  user_or_new-Agrees email (some user) = search helpers depth 60 fits 6000

  pub consume_magic_link-Agrees :
      (token : String) (context : Option RequestContext)
      → Agrees
          (consume_magic_link host svc token context)
          (Tokens.consume_magic_link host svc token context)
  unfolding consume_magic_link Tokens.consume_magic_link
  consume_magic_link-Agrees token context =
      search (helpers, require_link-Agrees, user_or_new-Agrees, issue_session-Agrees) depth 60 fits
        6000

  user_by-Agrees :
      (user_id email : Option String)
      → Agrees (user_by host svc user_id email) (Tokens.user_by host svc user_id email)
  unfolding user_by Tokens.user_by
  user_by-Agrees none email = search helpers depth 60 fits 6000
  user_by-Agrees (some user_id) email = search helpers depth 60 fits 6000

  pub request_email_verification-Agrees :
      (user_id email : Option String)
      → Agrees
          (request_email_verification host svc user_id email)
          (Tokens.request_email_verification host svc user_id email)
  unfolding request_email_verification Tokens.request_email_verification
  request_email_verification-Agrees user_id email =
      search (helpers, user_by-Agrees) depth 60 fits 6000

  require_active_user-Agrees :
      (found : Option AuthUser) (message : String)
      → Agrees
          (require_active_user host svc found message)
          (Tokens.require_active_user host svc found message)
  unfolding require_active_user Tokens.require_active_user
  require_active_user-Agrees none message = search helpers depth 60 fits 6000
  require_active_user-Agrees (some user) message = search helpers depth 60 fits 6000

  same_email-Agrees :
      (user : AuthUser) (email : Option String)
      → Agrees (same_email host svc user email) (Tokens.same_email host svc user email)
  unfolding same_email Tokens.same_email
  same_email-Agrees user email = search helpers depth 60 fits 6000

  verify_identity-Agrees :
      (now : ℕ) (found : Option AuthIdentity)
      → Agrees (verify_identity host svc now found) (Tokens.verify_identity host svc now found)
  unfolding verify_identity Tokens.verify_identity
  verify_identity-Agrees now none = search helpers depth 60 fits 6000
  verify_identity-Agrees now (some identity) = search helpers depth 60 fits 6000

  pub consume_email_verification-Agrees :
      (token : String)
      → Agrees
          (consume_email_verification host svc token)
          (Tokens.consume_email_verification host svc token)
  unfolding consume_email_verification Tokens.consume_email_verification
  consume_email_verification-Agrees token =
      search (helpers, require_active_user-Agrees, same_email-Agrees, verify_identity-Agrees) depth
        60 fits 6000

  pub request_password_reset-Agrees :
      (email : String)
      → Agrees
          (request_password_reset host svc email)
          (Resets.request_password_reset host svc email)
  unfolding request_password_reset Resets.request_password_reset
  request_password_reset-Agrees email = search helpers depth 60 fits 6000

  reset_password_of-Agrees :
      (user : AuthUser) (password : String)
      → Agrees
          (reset_password_of host svc user password)
          (Resets.reset_password_of host svc user password)
  unfolding reset_password_of end_sessions Resets.reset_password_of
  reset_password_of-Agrees user password = search (helpers, set_password-Agrees) depth 60 fits 6000

  pub consume_password_reset-Agrees :
      (token password : String)
      → Agrees
          (consume_password_reset host svc token password)
          (Resets.consume_password_reset host svc token password)
  unfolding consume_password_reset Resets.consume_password_reset
  consume_password_reset-Agrees token password =
      search (helpers, require_active_user-Agrees, reset_password_of-Agrees) depth 60 fits 6000
