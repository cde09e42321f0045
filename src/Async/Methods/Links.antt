-- ===== src/Async/Methods/Links.antt =====
-- async_service.py: the methods for e-mailed links keep a revocation, at each of their steps.
use coreline_auth_module.Common.{ℕ, String, Option, some, none}
use coreline_auth_module.Host.{Host}
use coreline_auth_module.Models.{AuthUser, AuthIdentity, RequestContext}
use coreline_auth_module.Service.Config.{Service}
use coreline_auth_module.Async.Keeping.{Keeps}
use coreline_auth_module.Async.Revocation.{IsFresh, Revoked}
use coreline_auth_module.Async.Support.{send_email}
use coreline_auth_module.Async.Links.{
  request_magic_link, user_or_new, consume_magic_link, user_by, request_email_verification,
  require_active_user, same_email, verify_identity, consume_email_verification,
  request_password_reset, reset_password_of, consume_password_reset,
}
use coreline_auth_module.Async.Methods.{
  helpers, create_user-Keeps, end_sessions-Keeps, issue_session-Keeps, set_password-Keeps,
}

module _ (id : String) (t n : ℕ) (host : Host) (svc : Service) (fresh : IsFresh host id n) where
  pub request_magic_link-Keeps :
      (email : String) (return_to : Option String)
      → Keeps (Revoked id t n) (request_magic_link host svc email return_to)
  unfolding request_magic_link send_email
  request_magic_link-Keeps email return_to = search helpers depth 60 fits 6000

  user_or_new-Keeps :
      (email : String) (found : Option AuthUser)
      → Keeps (Revoked id t n) (user_or_new host svc email found)
  unfolding user_or_new
  user_or_new-Keeps email none = search (helpers, create_user-Keeps) depth 60 fits 6000
  user_or_new-Keeps email (some user) = search helpers depth 60 fits 6000

  pub consume_magic_link-Keeps :
      (token : String) (context : Option RequestContext)
      → Keeps (Revoked id t n) (consume_magic_link host svc token context)
  unfolding consume_magic_link
  consume_magic_link-Keeps token context =
      search (helpers, user_or_new-Keeps, issue_session-Keeps) depth 60 fits 6000

  user_by-Keeps :
      (user_id email : Option String) → Keeps (Revoked id t n) (user_by host svc user_id email)
  unfolding user_by
  user_by-Keeps none email = search helpers depth 60 fits 6000
  user_by-Keeps (some user_id) email = search helpers depth 60 fits 6000

  pub request_email_verification-Keeps :
      (user_id email : Option String)
      → Keeps (Revoked id t n) (request_email_verification host svc user_id email)
  unfolding request_email_verification send_email
  request_email_verification-Keeps user_id email =
      search (helpers, user_by-Keeps) depth 60 fits 6000

  require_active_user-Keeps :
      (found : Option AuthUser) (message : String)
      → Keeps (Revoked id t n) (require_active_user host svc found message)
  unfolding require_active_user
  require_active_user-Keeps none message = search helpers depth 60 fits 6000
  require_active_user-Keeps (some user) message = search helpers depth 60 fits 6000

  same_email-Keeps :
      (user : AuthUser) (email : Option String)
      → Keeps (Revoked id t n) (same_email host svc user email)
  unfolding same_email
  same_email-Keeps user email = search helpers depth 60 fits 6000

  verify_identity-Keeps :
      (now : ℕ) (found : Option AuthIdentity)
      → Keeps (Revoked id t n) (verify_identity host svc now found)
  unfolding verify_identity
  verify_identity-Keeps now none = search helpers depth 60 fits 6000
  verify_identity-Keeps now (some identity) = search helpers depth 60 fits 6000

  pub consume_email_verification-Keeps :
      (token : String) → Keeps (Revoked id t n) (consume_email_verification host svc token)
  unfolding consume_email_verification
  consume_email_verification-Keeps token =
      search (helpers, require_active_user-Keeps, same_email-Keeps, verify_identity-Keeps) depth 60
        fits 6000

  pub request_password_reset-Keeps :
      (email : String) → Keeps (Revoked id t n) (request_password_reset host svc email)
  unfolding request_password_reset send_email
  request_password_reset-Keeps email = search helpers depth 60 fits 6000

  reset_password_of-Keeps :
      (user : AuthUser) (password : String)
      → Keeps (Revoked id t n) (reset_password_of host svc user password)
  unfolding reset_password_of
  reset_password_of-Keeps user password =
      search (helpers, set_password-Keeps, end_sessions-Keeps) depth 60 fits 6000

  pub consume_password_reset-Keeps :
      (token password : String)
      → Keeps (Revoked id t n) (consume_password_reset host svc token password)
  unfolding consume_password_reset
  consume_password_reset-Keeps token password =
      search (helpers, require_active_user-Keeps, reset_password_of-Keeps) depth 60 fits 6000
