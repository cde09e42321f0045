-- ===== src/Storage.antt =====
-- src/coreline_auth/storage/memory.py: `MemoryAuthStorage`. A method takes the storage and its
-- arguments and returns the new storage beside its result; one that raises does so before it
-- writes, so it returns a `Result`. The locks make each method one step. A method that returns its
-- argument returns the storage alone, and one that reads the clock takes the time as `now`.
mod State
mod Tests
pub mod Users
pub mod Flows
pub mod Sessions
pub mod Factors
pub mod Audit
pub use State.{Storage, empty, resolve}
unfoldable pub use Users.{
  email_key, create_user, get_user, get_user_by_email, update_user, list_users, upsert_identity,
  get_identity, upsert_credential, get_password_credential,
}
pub use Users.{UserQuery, all_users}
unfoldable pub use Flows.{
  create_login_flow, get_login_flow_by_state_hash, update_login_flow,
  consume_login_flow_by_state_hash, cleanup_flows,
}
unfoldable pub use Sessions.{
  create_session, get_session_by_token_hash, list_sessions_for_user, merge_session, update_session,
  touch_session, set_session_assurance_level, revoke_session, revoke_sessions_for_user,
  cleanup_sessions, cleanup_expired,
}
unfoldable pub use Factors.{
  create_mfa_factor, get_mfa_factor, list_mfa_factors, update_mfa_factor,
  mark_mfa_factor_counter_used, create_recovery_code, list_recovery_codes, mark_recovery_code_used,
}
unfoldable pub use Audit.{record_audit_event, list_audit_events}
pub use Audit.{EventQuery}
