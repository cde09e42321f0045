-- ===== src/Async/Methods.antt =====
-- async_service.py: every method of the service keeps a revocation, at each of its steps.
pub mod Links
use coreline_auth_module.Common.{
  ℕ, ◌≡◌, refl, String, Bool, true, false, Option, some, none, if◌then◌else◌,
}
use coreline_auth_module.Host.{Host}
use coreline_auth_module.Models.{
  AuthSession, AuthUser, AuthCredential, AuthIdentity, RequestContext, Fields, Role,
}
use coreline_auth_module.Storage.{EventQuery}
use coreline_auth_module.Service.Support.{normalize_email as normalized}
use coreline_auth_module.Service.Config.{Service}
use coreline_auth_module.Service.Sessions.{session_for}
use coreline_auth_module.Async.{Task, call, give, throw, if_task, ◌>>=◌, ◌>>◌}
use coreline_auth_module.Async.Leaving.{
  now_utc-Leaves, generate_token-Leaves, leaving, update_user-Leaves, create_user-Leaves,
  upsert_identity-Leaves, upsert_credential-Leaves, create_login_flow-Leaves,
  consume_email_flow-Leaves, audit-Leaves, send_email-Leaves, new_credential-Leaves,
}
use coreline_auth_module.Async.Keeping.{
  Keeps, give-Keeps, throw-Keeps, call-Keeps, if-Keeps, if_task-Keeps, bind-Keeps,
}
use coreline_auth_module.Async.Revocation.{
  IsFresh, Revoked, Leaves-Keeps, touch-Keeps, revoke_by_id-Keeps, revoke_all-Keeps, cleanup-Keeps,
  create-Keeps, draw_uuid-then,
}
use coreline_auth_module.Async.Support.{
  check_rate_limit, record_login, require_user, assert_owner_email, owner_only,
  enforce_profile_login, normalize_email, send_email, audit,
}
use coreline_auth_module.Async.Sessions.{
  issue_session, refresh, verify_session, end_found, logout, cleanup_expired, list_audit_events,
}
use coreline_auth_module.Async.Accounts.{
  save_password, end_sessions, set_password, set_given_password, create_user, bootstrap_found,
  bootstrap_owner, reject_login, require_active, check_password, login_password,
}
use coreline_auth_module.Async.Links.{
  request_magic_link, user_or_new, consume_magic_link, user_by, request_email_verification,
  require_active_user, same_email, verify_identity, consume_email_verification,
  request_password_reset, reset_password_of, consume_password_reset,
}

pub ruleset steps = (
  bind-Keeps, give-Keeps, throw-Keeps, if-Keeps, if_task-Keeps, touch-Keeps, Leaves-Keeps, leaving,
  update_user-Leaves, create_user-Leaves, upsert_identity-Leaves, upsert_credential-Leaves,
  create_login_flow-Leaves, consume_email_flow-Leaves, audit-Leaves, send_email-Leaves,
  new_credential-Leaves, revoke_by_id-Keeps, revoke_all-Keeps, cleanup-Keeps,
)

module _ (id : String) (t n : ℕ) (host : Host) (svc : Service) (fresh : IsFresh host id n) where
  pub check_rate_limit-Keeps :
      (key : String) (limit : ℕ) → Keeps (Revoked id t n) (check_rate_limit host svc key limit)
  unfolding check_rate_limit
  check_rate_limit-Keeps key limit = search (steps) depth 60 fits 4000

  pub record_login-Keeps : (user : AuthUser) → Keeps (Revoked id t n) (record_login host svc user)
  unfolding record_login
  record_login-Keeps user = search (steps) depth 60 fits 4000

  pub require_user-Keeps :
      (user_id : String) → Keeps (Revoked id t n) (require_user host svc user_id)
  unfolding require_user
  require_user-Keeps user_id = search (steps) depth 60 fits 4000

  pub owner_only-Keeps : (email : String) → Keeps (Revoked id t n) (owner_only host svc email)
  unfolding owner_only assert_owner_email
  owner_only-Keeps email = search (steps) depth 60 fits 4000

  pub enforce-Keeps :
      (user : AuthUser) → Keeps (Revoked id t n) (enforce_profile_login host svc user)
  unfolding enforce_profile_login
  enforce-Keeps user = search (steps, owner_only-Keeps) depth 60 fits 4000

  pub audit-Keeps :
      (action : String) (actor target : Option String) (metadata : Fields)
      → Keeps (Revoked id t n) (audit host svc action actor target metadata)
  unfolding audit
  audit-Keeps action actor target metadata = search (steps) depth 60 fits 4000

  pub normalize_email-Keeps :
      (email : String) → Keeps (Revoked id t n) (normalize_email host svc email)
  unfolding normalize_email normalized
  normalize_email-Keeps email = search (steps) depth 60 fits 4000

pub ruleset helpers = (
  steps, check_rate_limit-Keeps, record_login-Keeps, require_user-Keeps, owner_only-Keeps,
  enforce-Keeps, audit-Keeps, normalize_email-Keeps,
)

module _ (id : String) (t n : ℕ) (host : Host) (svc : Service) (fresh : IsFresh host id n) where
  pub verify_session-Keeps :
      (token : String) (required : Option String)
      → Keeps (Revoked id t n) (verify_session host svc token required)
  unfolding verify_session refresh
  verify_session-Keeps token required = search (steps, require_user-Keeps) depth 60 fits 4000

  pub end_found-Keeps :
      (found : Option AuthSession) → Keeps (Revoked id t n) (end_found host svc found)
  unfolding end_found
  end_found-Keeps none = search (steps) depth 60 fits 4000
  end_found-Keeps (some session) = search (steps, audit-Keeps) depth 60 fits 4000

  pub logout-Keeps : (token : String) → Keeps (Revoked id t n) (logout host svc token)
  unfolding logout
  logout-Keeps token = search (steps, end_found-Keeps) depth 60 fits 4000

  pub issue_session-Keeps :
      (user : AuthUser) (provider : Option String) (context : Option RequestContext)
      → Keeps (Revoked id t n) (issue_session host svc user provider context)
  unfolding issue_session session_for
  issue_session-Keeps user provider context =
      bind-Keeps _ _ (Leaves-Keeps id t n _ (now_utc-Leaves host)) (λ now.
        bind-Keeps _ _ (Leaves-Keeps id t n _ (generate_token-Leaves host)) (λ token.
          draw_uuid-then id t n host _
            (λ m le. bind-Keeps _ _ (create-Keeps id t n _ (fresh m le)) (λ _. give-Keeps _))))

  pub cleanup_expired-Keeps : Keeps (Revoked id t n) (cleanup_expired host svc)
  unfolding cleanup_expired
  cleanup_expired-Keeps = search helpers depth 60 fits 6000

  pub list_audit_events-Keeps :
      (action actor target : Option String) (limit offset : ℕ)
      → Keeps (Revoked id t n) (list_audit_events host svc action actor target limit offset)
  unfolding list_audit_events
  list_audit_events-Keeps action actor target limit offset = search helpers depth 60 fits 6000

  pub save_password-Keeps :
      (user_id password : String) → Keeps (Revoked id t n) (save_password host svc user_id password)
  unfolding save_password
  save_password-Keeps user_id password = search helpers depth 60 fits 6000

  pub end_sessions-Keeps :
      (action user_id : String) (except : Option String)
      → Keeps (Revoked id t n) (end_sessions host svc action user_id except)
  unfolding end_sessions
  end_sessions-Keeps action user_id except = search helpers depth 60 fits 6000

  pub set_password-Keeps :
      (user_id password : String) (revoke_sessions : Option Bool) (except : Option String)
      → Keeps (Revoked id t n) (set_password host svc user_id password revoke_sessions except)
  unfolding set_password
  set_password-Keeps user_id password revoke_sessions except =
      search (helpers, save_password-Keeps, end_sessions-Keeps) depth 60 fits 6000

  pub set_given_password-Keeps :
      (user_id : String) (password : Option String)
      → Keeps (Revoked id t n) (set_given_password host svc user_id password)
  unfolding set_given_password
  set_given_password-Keeps user_id password =
      search (helpers, set_password-Keeps) depth 60 fits 6000

  pub create_user-Keeps :
      (email : String) (role : Role) (password : Option String) (email_verified : Bool)
      (display_name : Option String)
      → Keeps
          (Revoked id t n)
          (create_user host svc email role password email_verified display_name)
  unfolding create_user
  create_user-Keeps email role password email_verified display_name =
      search (helpers, set_given_password-Keeps) depth 60 fits 6000

  pub bootstrap_found-Keeps :
      (email : String) (password display_name : Option String) (found : Option AuthUser)
      → Keeps (Revoked id t n) (bootstrap_found host svc email password display_name found)
  unfolding bootstrap_found
  bootstrap_found-Keeps email password display_name none =
      search (helpers, create_user-Keeps) depth 60 fits 6000
  bootstrap_found-Keeps email password display_name (some user) =
      search (helpers, set_given_password-Keeps) depth 60 fits 6000

  pub bootstrap_owner-Keeps :
      (email : String) (password display_name : Option String)
      → Keeps (Revoked id t n) (bootstrap_owner host svc email password display_name)
  unfolding bootstrap_owner assert_owner_email
  bootstrap_owner-Keeps email password display_name =
      search (helpers, bootstrap_found-Keeps) depth 60 fits 6000

  pub reject_login-Keeps {ℓ} :
      {A : Type ℓ} (target : Option String) (reason : String)
      → Keeps {A = A} (Revoked id t n) (reject_login host svc target reason)
  unfolding reject_login
  reject_login-Keeps target reason = search helpers depth 60 fits 6000

  pub require_active-Keeps :
      (found : Option AuthUser) → Keeps (Revoked id t n) (require_active host svc found)
  unfolding require_active
  require_active-Keeps none = search (helpers, reject_login-Keeps) depth 60 fits 6000
  require_active-Keeps (some user) = search (helpers, reject_login-Keeps) depth 60 fits 6000

  pub check_password-Keeps :
      (user : AuthUser) (password : String) (hash : Option String)
      → Keeps (Revoked id t n) (check_password host svc user password hash)
  unfolding check_password
  check_password-Keeps user password hash = search (helpers, reject_login-Keeps) depth 60 fits 6000

  pub login_password-Keeps :
      (email password : String) (context : Option RequestContext)
      → Keeps (Revoked id t n) (login_password host svc email password context)
  unfolding login_password
  login_password-Keeps email password context =
      search (helpers, require_active-Keeps, check_password-Keeps, issue_session-Keeps) depth 60
        fits 6000
