-- ===== src/Async/Refinement.antt =====
-- async_service.py and service.py: the methods of the asynchronous service against those of the
-- synchronous one, outside the profile with a single owner, whose checks differ.
pub mod Links
use coreline_auth_module.Common.{
  ◌≡◌, refl, ap, ℕ, String, Bool, true, false, not, Option, some, none, arith, Bool-cases, inl, inr,
}
use coreline_auth_module.Errors.{
  Error, ok, raise, authentication_failed, authorization_denied, validation,
}
use coreline_auth_module.Host.{Host}
use coreline_auth_module.Models.{
  AuthSession, AuthUser, AuthCredential, AuthIdentity, LoginFlow, RequestContext, Fields, Role,
  is_single_owner,
}
use coreline_auth_module.Storage.{EventQuery}
use coreline_auth_module.World
use coreline_auth_module.World.{World, Action}
use coreline_auth_module.World.Actions.{pure, fail, fail_if, when, query, require}
use coreline_auth_module.World.Outcomes.{bind-eq_returned}
use coreline_auth_module.Service.Config.{Service}
use coreline_auth_module.Service.Support
use coreline_auth_module.Service.Accounts
use coreline_auth_module.Service.Sessions
use coreline_auth_module.Service.Login
use coreline_auth_module.Service.Tokens
use coreline_auth_module.Service.Resets
use coreline_auth_module.Async.{Task, run, call, give, throw, if_task, ◌>>=◌, ◌>>◌}
use coreline_auth_module.Async.Agreement.{
  Agrees, bind-Agrees, call-Agrees, give-Agrees, throw-Agrees, require-Agrees, if-Agrees,
  when-Agrees,
}
use coreline_auth_module.Async.Support.{
  check_rate_limit, record_login, require_user, owner_only, enforce_profile_login, normalize_email,
  send_email, audit,
}
use coreline_auth_module.Async.Sessions.{
  issue_session, refresh, verify_session, end_found, logout, cleanup_expired, list_audit_events,
}
use coreline_auth_module.Async.Accounts.{
  save_password, end_sessions, set_password, set_given_password, create_user, reject_login,
  require_active, check_password, login_password,
}
use coreline_auth_module.Async.Links.{
  request_magic_link, user_or_new, consume_magic_link, user_by, request_email_verification,
  require_active_user, same_email, verify_identity, consume_email_verification,
  request_password_reset, reset_password_of, consume_password_reset,
}

pub ruleset same_steps =
    (bind-Agrees, give-Agrees, throw-Agrees, if-Agrees, when-Agrees, require-Agrees, call-Agrees)

module _ (host : Host) (svc : Service) (team : is_single_owner svc.config.profile ≡ false) where
  pub limit-Agrees :
      (denied : Bool)
      → Agrees (call (fail_if denied (authentication_failed "rate limited"))) (
          when denied (
            coreline_auth_module.World.◌>>=◌
              (Support.metric host svc "auth.rate_limited")
              (λ _. fail (authentication_failed "rate limited"))))
  unfolding call run
  limit-Agrees false = call-Agrees _
  limit-Agrees true = record {
    sound = λ w a w' h. absurd (ground (arith, ap (λ x. x.0) h));
    complete = λ w a w' h.
        let (_, _, e) =
          bind-eq_returned (Support.metric host svc "auth.rate_limited")
            (λ _. fail (authentication_failed "rate limited")) w w' a h in
        absurd (ground (arith, ap (λ x. x.0) e));
  }

  pub owner_only-Agrees :
      (email : String)
      → Agrees
          (owner_only host svc email)
          (when (is_single_owner svc.config.profile) (Support.assert_owner_email host svc email))
  unfolding owner_only
  owner_only-Agrees email = rw team (give-Agrees tt)

  pub check_rate_limit-Agrees :
      (key : String) (limit : ℕ)
      → Agrees (check_rate_limit host svc key limit) (Support.check_rate_limit host svc key limit)
  unfolding check_rate_limit Support.check_rate_limit
  check_rate_limit-Agrees key limit = search (same_steps, limit-Agrees) depth 60 fits 6000

  pub record_login-Agrees :
      (user : AuthUser) → Agrees (record_login host svc user) (Support.record_login host svc user)
  unfolding record_login Support.record_login
  record_login-Agrees user = search (same_steps) depth 60 fits 6000

  pub require_user-Agrees :
      (user_id : String)
      → Agrees (require_user host svc user_id) (Support.require_user host svc user_id)
  unfolding require_user Support.require_user
  require_user-Agrees user_id = search (same_steps) depth 60 fits 6000

  pub enforce-Agrees :
      (user : AuthUser)
      → Agrees (enforce_profile_login host svc user) (Support.enforce_profile_login host svc user)
  unfolding enforce_profile_login Support.enforce_profile_login
  enforce-Agrees user = search (same_steps, owner_only-Agrees) depth 60 fits 6000

  pub audit-Agrees :
      (action : String) (actor target : Option String) (metadata : Fields)
      → Agrees
          (audit host svc action actor target metadata)
          (Support.audit host svc action actor target metadata)
  unfolding audit
  audit-Agrees action actor target metadata = search (same_steps) depth 60 fits 6000

  pub normalize_email-Agrees :
      (email : String)
      → Agrees (normalize_email host svc email) (Support.normalize_email host svc email)
  unfolding normalize_email
  normalize_email-Agrees email = search (same_steps) depth 60 fits 6000

  pub send_email-Agrees :
      (kind address token : String)
      → Agrees
          (send_email host svc kind address token)
          (Support.send_email_best_effort host svc kind address token)
  unfolding send_email
  send_email-Agrees kind address token = search (same_steps) depth 60 fits 6000

pub ruleset helpers = (
  same_steps, check_rate_limit-Agrees, record_login-Agrees, require_user-Agrees, owner_only-Agrees,
  enforce-Agrees, audit-Agrees, normalize_email-Agrees, send_email-Agrees,
)

module _ (host : Host) (svc : Service) (team : is_single_owner svc.config.profile ≡ false) where
  pub refresh-Agrees :
      (now : ℕ) (session : AuthSession)
      → Agrees (refresh host svc now session) (Sessions.refresh host svc now session)
  unfolding refresh Sessions.refresh
  refresh-Agrees now session = search helpers depth 60 fits 6000

  pub verify_session-Agrees :
      (token : String) (required : Option String)
      → Agrees
          (verify_session host svc token required)
          (Sessions.verify_session host svc token required)
  unfolding verify_session Sessions.verify_session
  verify_session-Agrees token required = search (helpers, refresh-Agrees) depth 60 fits 6000

  pub issue_session-Agrees :
      (user : AuthUser) (provider : Option String) (context : Option RequestContext)
      → Agrees
          (issue_session host svc user provider context)
          (Sessions.issue_session host svc user provider context)
  unfolding issue_session Sessions.issue_session
  issue_session-Agrees user provider context = search helpers depth 60 fits 6000

  pub end_found-Agrees :
      (found : Option AuthSession)
      → Agrees (end_found host svc found) (Sessions.end_found host svc found)
  unfolding end_found Sessions.end_found
  end_found-Agrees none = search helpers depth 60 fits 6000
  end_found-Agrees (some session) = search helpers depth 60 fits 6000

  pub logout-Agrees :
      (token : String) → Agrees (logout host svc token) (Sessions.logout host svc token)
  unfolding logout Sessions.logout
  logout-Agrees token = search (helpers, end_found-Agrees) depth 60 fits 6000

  pub save_password-Agrees :
      (user_id password : String)
      → Agrees
          (save_password host svc user_id password)
          (Accounts.save_password host svc user_id password)
  unfolding save_password Accounts.save_password
  save_password-Agrees user_id password = search helpers depth 60 fits 6000

  pub set_password-Agrees :
      (user_id password : String) (revoke_sessions : Option Bool) (except : Option String)
      → Agrees
          (set_password host svc user_id password revoke_sessions except)
          (Accounts.set_password host svc user_id password revoke_sessions except)
  unfolding set_password end_sessions Accounts.set_password
  set_password-Agrees user_id password revoke_sessions except =
      search (helpers, save_password-Agrees) depth 60 fits 6000

  pub set_given_password-Agrees :
      (user_id : String) (password : Option String)
      → Agrees
          (set_given_password host svc user_id password)
          (Accounts.set_given_password host svc user_id password)
  unfolding set_given_password Accounts.set_given_password
  set_given_password-Agrees user_id password =
      search (helpers, set_password-Agrees) depth 60 fits 6000

  pub create_user-Agrees :
      (email : String) (role : Role) (password : Option String) (email_verified : Bool)
      (display_name : Option String)
      → Agrees
          (create_user host svc email role password email_verified display_name)
          (Accounts.create_user host svc email role password email_verified display_name)
  unfolding create_user Accounts.create_user
  create_user-Agrees email role password email_verified display_name =
      search (helpers, set_given_password-Agrees) depth 60 fits 6000

  pub reject_login-Agrees {ℓ} :
      {A : Type ℓ} (target : Option String) (reason : String)
      → Agrees {A = A}
          (reject_login host svc target reason)
          (Login.reject_login host svc target reason)
  unfolding reject_login Login.reject_login
  reject_login-Agrees target reason = search helpers depth 60 fits 6000

  pub require_active-Agrees :
      (found : Option AuthUser)
      → Agrees (require_active host svc found) (Login.require_active host svc found)
  unfolding require_active Login.require_active
  require_active-Agrees none = search (helpers, reject_login-Agrees) depth 60 fits 6000
  require_active-Agrees (some user) = search (helpers, reject_login-Agrees) depth 60 fits 6000

  pub check_password-Agrees :
      (user : AuthUser) (password : String) (hash : Option String)
      → Agrees
          (check_password host svc user password hash)
          (Login.check_password host svc user password hash)
  unfolding check_password Login.check_password
  check_password-Agrees user password hash =
      search (helpers, reject_login-Agrees) depth 60 fits 6000

  pub login_password-Agrees :
      (email password : String) (context : Option RequestContext)
      → Agrees
          (login_password host svc email password context)
          (Login.login_password host svc email password context)
  unfolding login_password Login.login_password
  login_password-Agrees email password context =
      search (helpers, require_active-Agrees, check_password-Agrees, issue_session-Agrees) depth 60
        fits 6000
