-- ===== src/Async/Support.antt =====
-- async_service.py: the helpers of the asynchronous service. They raise other errors than those of
-- the synchronous one for a user that is missing and for an address that is not the owner's, and let
-- every address pass where no owner is configured.
use coreline_auth_module.Common.{
  ℕ, String, Bool, not, ◌&&◌, Option, none, some, ◌==◌, is_text, false,
}
use coreline_auth_module.Common.Text.{lower}
use coreline_auth_module.Errors.{authentication_failed, authorization_denied, validation}
use coreline_auth_module.Host.{Host}
use coreline_auth_module.Models.{AuthUser, Fields, is_single_owner}
use coreline_auth_module.Storage.{get_user, update_user}
use coreline_auth_module.World.Actions.{query, require, fail_if, now_utc, read_monotonic, try_write}
use coreline_auth_module.Service.Config.{Service}
use coreline_auth_module.Service.Support.{
  check_limiter, normalize_email as normalized, send_email_best_effort, audit as write_event,
}
use coreline_auth_module.Async.{Task, call, if_task, ◌>>=◌, ◌>>◌}

module _ (host : Host) (svc : Service) where
  -- `_check_rate_limit`
  unfoldable pub check_rate_limit : String → ℕ → Task (Unit {0})
  unfolding check_limiter
  check_rate_limit key limit = do
    now ← call (read_monotonic host)
    decision ← call (check_limiter key limit now)
    call (fail_if (not decision.allowed) (authentication_failed "rate limited"))

  -- `_record_login`
  unfoldable pub record_login : AuthUser → Task (Unit {0})
  unfolding update_user
  record_login user = do
    last_login_at ← call (now_utc host)
    updated_at ← call (now_utc host)
    call (
        try_write (
          update_user
            (record user { last_login_at = some last_login_at; updated_at = updated_at })))

  -- `_require_user`
  unfoldable pub require_user : String → Task AuthUser
  unfolding get_user
  require_user user_id = do
    user ← call (query (get_user user_id))
    call (require user (validation "user not found"))

  -- `self.config.owner_email and email != self.config.owner_email.lower()`
  unfoldable pub is_other_address : Option String → String → Bool
  unfolding lower
  is_other_address none email = false
  is_other_address (some owner) email = is_text owner && not (email == lower owner)

  -- `_assert_owner_email`
  unfoldable pub assert_owner_email : String → Task (Unit {0})
  unfolding is_other_address
  assert_owner_email email = call (
      fail_if (is_other_address svc.config.owner_email email)
        (authorization_denied "email is not allowed for single_owner profile"))

  unfoldable pub owner_only : String → Task (Unit {0})
  unfolding assert_owner_email
  owner_only email = if_task (is_single_owner svc.config.profile) (assert_owner_email email)

  -- `_enforce_profile_login`
  unfoldable pub enforce_profile_login : AuthUser → Task (Unit {0})
  unfolding owner_only
  enforce_profile_login user = do
    owner_only user.primary_email
    call (
        fail_if (svc.config.require_email_verified && not user.primary_email_verified)
          (authentication_failed "email is not verified"))

  -- `_normalize_email`
  unfoldable pub normalize_email : String → Task String
  unfolding normalized
  normalize_email email = call (normalized host svc email)

  -- `_send_email_best_effort`, guarded by the test for a sender.
  unfoldable pub send_email : String → String → String → Task (Unit {0})
  unfolding send_email_best_effort
  send_email kind address token = call (send_email_best_effort host svc kind address token)

  -- `_audit`
  unfoldable pub audit : String → Option String → Option String → Fields → Task (Unit {0})
  unfolding write_event
  audit action actor target metadata = call (write_event host svc action actor target metadata)
