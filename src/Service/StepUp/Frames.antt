-- ===== src/Service/StepUp/Frames.antt =====
-- service.py: the factors and the recovery codes under the parts of a step-up that leave them.
use coreline_auth_module.Common.{
  ℕ, ◌≡◌, refl, String, Option, some, none, is_none, Bool-cases, inl, inr, not,
}
use coreline_auth_module.Common.Dict.{Dict}
use coreline_auth_module.Errors.{Result, ok, raise}
use coreline_auth_module.Host.{Host}
use coreline_auth_module.Models.{AuthMfaFactor, AuthRecoveryCode, AuthSession, Principal, Fields}
use coreline_auth_module.RateLimit.{RateLimitDecision, Limiter}
use coreline_auth_module.Storage.{Storage, record_audit_event, set_session_assurance_level}
use coreline_auth_module.Storage.Sessions.{change_live}
use coreline_auth_module.World.Frames.{Frame, bind-Frame, still-Frame, require-Frame, when-Frame}
use coreline_auth_module.Service.Config.{Service}
use coreline_auth_module.Service.Support.{audit, metric, limited, check_limiter, check_rate_limit}
use coreline_auth_module.Service.Support.Frames.{audit-keeps}
use coreline_auth_module.Service.Sessions.{verify_session}
use coreline_auth_module.Service.Sessions.Frames.{verify_session-Frame}
use coreline_auth_module.Service.StepUp.{raise_level}

abbrev pub Tables : Type 0
Tables = Dict AuthMfaFactor × Dict AuthRecoveryCode

abbrev pub tables_of : Storage → Tables
tables_of s = (s.mfa_factors, s.recovery_codes)

change_live-tables :
    (f : AuthSession → AuthSession) (id : String) (found : Option AuthSession) (s : Storage)
    → tables_of (change_live f id found s).1 ≡ tables_of s
unfolding change_live
change_live-tables f id none s = refl
change_live-tables f id (some session) s = elim (Bool-cases (is_none session.revoked_at)) [
  | inl h ↦ rw h refl
  | inr h ↦ rw h refl
]

module _ (host : Host) (svc : Service) where
  pub verified-tables : (token : String) → Frame tables_of (verify_session host svc token none)
  verified-tables token = verify_session-Frame host svc tables_of change_live-tables token none

  limited-tables : (r : Result (RateLimitDecision × Limiter)) → Frame tables_of (limited r)
  unfolding limited
  limited-tables (ok (d, l)) = still-Frame (λ w. refl)
  limited-tables (raise e) = still-Frame (λ w. refl)

  pub check_rate_limit-tables :
      (key : String) (limit : ℕ) → Frame tables_of (check_rate_limit host svc key limit)
  unfolding check_rate_limit check_limiter metric
  check_rate_limit-tables key limit = bind-Frame (still-Frame (λ w. refl)) (λ now.
      bind-Frame (still-Frame (λ w. (limited-tables _).same w)) (λ d. when-Frame (not d.allowed) (
        bind-Frame (when-Frame svc.has_metric_sink (still-Frame (λ w. refl)))
          (λ _. still-Frame (λ w. refl)))))

  pub audit-tables :
      (action : String) (actor target : Option String) (metadata : Fields)
      → Frame tables_of (audit host svc action actor target metadata)
  unfolding record_audit_event
  audit-tables = audit-keeps host svc tables_of (λ event s. refl)

  pub raise_level-tables : (p : Principal) → Frame tables_of (raise_level host svc p)
  unfolding raise_level set_session_assurance_level
  raise_level-tables p = bind-Frame (still-Frame (λ w. refl)) (λ now.
      bind-Frame (still-Frame (λ w. change_live-tables _ _ _ w.storage))
        (λ updated. require-Frame updated _))
