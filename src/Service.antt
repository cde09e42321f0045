-- ===== src/Service.antt =====
-- src/coreline_auth/service.py: `CorelineAuthService`, over the in-memory storage. The service's
-- fields that no method changes are the section parameters `host` and `svc`.
pub mod Config
pub mod Support
pub mod Accounts
pub mod Sessions
pub mod Login
pub mod Tokens
pub mod Resets
pub mod SocialState
pub mod Factors
pub mod StepUp
pub use Config.{CorelineAuthConfig, Service}
unfoldable pub use Config.{validate, policy}
unfoldable pub use Support.{
  check_rate_limit, record_login, require_user, enforce_profile_login, assert_owner_email,
  normalize_email, send_email_best_effort, metric, audit,
}
unfoldable pub use Accounts.{bootstrap_owner, create_user, set_password, save_password, revoke_all}
unfoldable pub use Sessions.{
  issue_session, verify_session, logout, revoke_session, cleanup_expired, list_audit_events,
}
unfoldable pub use Login.{login_password, login_social}
unfoldable pub use Tokens.{
  request_magic_link, consume_magic_link, request_email_verification, consume_email_verification,
}
unfoldable pub use Resets.{request_password_reset, consume_password_reset}
unfoldable pub use SocialState.{begin_social_login, consume_social_login_state}
unfoldable pub use Factors.{begin_totp_enrollment, verify_totp_enrollment, verify_totp}
unfoldable pub use StepUp.{
  step_up_totp, generate_recovery_codes, step_up_recovery_code, require_aal2,
}
