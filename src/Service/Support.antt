-- ===== src/Service/Support.antt =====
-- src/coreline_auth/service_support.py: the helpers that the methods share. Logging is left out.
pub mod Frames
use coreline_auth_module.Common.{ℕ, String, Bool, true, not, ◌&&◌, Option, none, some, length, ◌==◌}
use coreline_auth_module.Common.Text.{lower}
use coreline_auth_module.Errors.{Result, ok, raise, authentication_failed, authorization_denied}
use coreline_auth_module.Host.{Host}
use coreline_auth_module.Models.{AuthUser, Fields, is_single_owner}
use coreline_auth_module.RateLimit.{RateLimitDecision, Limiter, check}
use coreline_auth_module.Security.{normalize_email_address}
use coreline_auth_module.Audit.{redact_audit_metadata}
use coreline_auth_module.Storage.{update_user, get_user, record_audit_event}
use coreline_auth_module.World.{Action, ◌>>=◌, ◌>>◌}
use coreline_auth_module.World.Actions.{
  fail, lift, query, write, try_write, fail_if, require, when, count_metric, send, now_utc,
  read_monotonic,
}
use coreline_auth_module.Service.Config.{Service}

unfoldable pub limited : Result (RateLimitDecision × Limiter) → Action RateLimitDecision
limited (ok (d, l)) w = (ok d, record w { limiter = l })
limited (raise e) w = (raise e, w)

-- `self.rate_limiter.check(key, limit=limit, window_seconds=60)` at a reading of the clock.
unfoldable pub check_limiter : String → ℕ → ℕ → Action RateLimitDecision
unfolding limited check
check_limiter key limit now w = limited (check key limit 60 now w.limiter) w

module _ (host : Host) (svc : Service) where
  unfoldable pub metric : String → Action (Unit {0})
  metric name = when svc.has_metric_sink (count_metric name)

  unfoldable pub check_rate_limit : String → ℕ → Action (Unit {0})
  unfolding check_limiter metric
  check_rate_limit key limit = do
    now ← read_monotonic host
    decision ← check_limiter key limit now
    when (not decision.allowed)
        (do metric "auth.rate_limited"; fail (authentication_failed "rate limited"))

  unfoldable pub record_login : AuthUser → Action (Unit {0})
  unfolding update_user
  record_login user = do
    last_login_at ← now_utc host
    updated_at ← now_utc host
    try_write
        (update_user (record user { last_login_at = some last_login_at; updated_at = updated_at }))

  unfoldable pub require_user : String → Action AuthUser
  unfolding get_user
  require_user user_id = do
    user ← query (get_user user_id)
    require user (authentication_failed "user not found")

  -- `owner_email is None or email.lower() != owner_email.lower()`
  unfoldable pub is_not_owner : Option String → String → Bool
  unfolding lower
  is_not_owner none email = true
  is_not_owner (some o) email = not (lower email == lower o)

  unfoldable pub assert_owner_email : String → Action (Unit {0})
  unfolding is_not_owner
  assert_owner_email email =
      fail_if (is_not_owner svc.config.owner_email email)
        (authorization_denied "single_owner profile only allows the configured owner")

  unfoldable pub enforce_profile_login : AuthUser → Action (Unit {0})
  unfolding assert_owner_email
  enforce_profile_login user = do
    when (is_single_owner svc.config.profile) (assert_owner_email user.primary_email)
    fail_if (svc.config.require_email_verified && not user.primary_email_verified)
        (authentication_failed "email is not verified")

  unfoldable pub normalize_email : String → Action String
  unfolding normalize_email_address
  normalize_email email = lift (normalize_email_address host email)

  -- A failing sender is caught and counted.
  unfoldable pub send_email_best_effort : String → String → String → Action (Unit {0})
  unfolding metric
  send_email_best_effort kind address token = when svc.has_email_sender (do
    send (record { kind = kind; address = address; token = token })
    attempts ← (λ w. (ok (length w.outbox), w))
    when (not (host.delivers attempts)) (metric "auth.email_send_failed"))

  -- The audit sink of the host does not touch the module's state, and its exceptions are caught.
  unfoldable pub audit : String → Option String → Option String → Fields → Action (Unit {0})
  unfolding redact_audit_metadata record_audit_event
  audit action actor target metadata = do
    created_at ← now_utc host
    write (
        record_audit_event (record {
          action = action;
          actor_user_id = actor;
          target_user_id = target;
          metadata = redact_audit_metadata metadata;
          created_at = created_at;
        }))
