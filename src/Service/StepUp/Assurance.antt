-- ===== src/Service/StepUp/Assurance.antt =====
-- service.py: the ways to a principal of the level AAL2.
use coreline_auth_module.Common.{
  ℕ, ◌≡◌, refl, sym, ap, subst, ◌∙◌, String, Bool, true, false, none, arith, select, ◌==◌,
}
use coreline_auth_module.Common.Dict
use coreline_auth_module.Errors.{ok, Error, ok-injective}
use coreline_auth_module.Host.{Host}
use coreline_auth_module.Models.{
  AuthUser, AuthMfaFactor, AuthRecoveryCode, AuthSession, Principal, aal2, field, text, end,
}
use coreline_auth_module.Security.{hash_secret}
use coreline_auth_module.Storage.{Storage, list_mfa_factors, list_recovery_codes}
use coreline_auth_module.Storage.Factors.Once.{is_spent_code}
use coreline_auth_module.World.{World, ◌>>=◌}
use coreline_auth_module.World.Actions.{fail_if, pure}
use coreline_auth_module.World.Outcomes.{
  Ensures, bind-Ensures, act-Ensures, pre-Ensures, both-Ensures, post-Ensures, require-Ensures,
  fact-Ensures, returned, bind-eq_returned,
}
use coreline_auth_module.World.Steps.{At}
use coreline_auth_module.Service.Config.{Service}
use coreline_auth_module.Service.Sessions.{verify_session}
use coreline_auth_module.Service.Sessions.Verification.{IsGranted, verify_session_sound}
use coreline_auth_module.Service.Factors.Verification.{IsAccepted, verify_totp-Ensures}
use coreline_auth_module.Service.StepUp.{
  step_up_totp, step_up_recovery_code, require_aal2, find_code,
}
use coreline_auth_module.Service.StepUp.Frames.{Tables, tables_of, check_rate_limit-tables}
use coreline_auth_module.Service.StepUp.Evidences.{
  Evidence, reach_aal2, IsSpent, IsShown, IsAccepted-moved,
}
use coreline_auth_module.Service.StepUp.Levels.{Passed, kept, entry-Ensures, ending-Ensures}
use coreline_auth_module.Service.StepUp.Recovery.{IsSavedOf, find_code-IsSavedOf, use_code-Ensures}

module _ (host : Host) (svc : Service) (token : String) (s : Storage) (n : ℕ) where
  step_up_totp-Ensures :
      (code : String)
      → Ensures
          (At s n)
          (step_up_totp host svc token code)
          (λ p w.
            (Passed host svc token s n p × (p.session.assurance_level ≡ aal2))
            × (factor : AuthMfaFactor) × IsAccepted host
                (list_mfa_factors p.user.id s)
                code
                factor
                w)
          (λ _. Unit {0})
  unfolding step_up_totp list_mfa_factors
  step_up_totp-Ensures code = bind-Ensures (entry-Ensures host svc token s n) (λ p.
      let C = Passed host svc token s n p in
      let factors = list_mfa_factors p.user.id s in
      bind-Ensures
        (kept host svc token s n (λ t. C × (t ≡ tables_of s))
          (check_rate_limit-tables host svc _ _))
        (λ _.
          bind-Ensures {R = λ factor w. C × IsAccepted host factors code factor w}
            (both-Ensures (pre-Ensures (λ w q. q.0) (fact-Ensures C)) (
              pre-Ensures
                (λ w q.
                  ap
                    (λ (t : Tables).
                      select (λ (f : AuthMfaFactor). f.user_id == p.user.id) (Dict.values t.0))
                    q.1)
                (verify_totp-Ensures host svc p.user.id code factors)))
            (λ factor.
              post-Ensures
                (pre-Ensures (λ w q. (q.0, (factor, w, q.1, refl)))
                  (ending-Ensures host svc token s n p
                    (λ t.
                      (u : AuthMfaFactor) × (v : World) × IsAccepted host factors code u v
                      × (tables_of v.storage ≡ t))
                    _ _ _ (field "factor_id" (text factor.id) (field "method" (text "totp") end))))
                (λ a w q.
                  let (u, v, accepted, same) = q.2 in
                  (
                    q.0,
                    u,
                    subst (λ (x : AuthUser). IsAccepted host (list_mfa_factors x.id s) code u w)
                        (sym q.1)
                        (IsAccepted-moved host factors code u v w (ap (λ (t : Tables). t.0) same)
                          accepted),
                  )))))

  step_up_recovery_code-Ensures :
      (code : String)
      → Ensures
          (At s n)
          (step_up_recovery_code host svc token code)
          (λ p w.
            (Passed host svc token s n p × (p.session.assurance_level ≡ aal2))
            × IsSpent host p.user.id code s w)
          (λ _. Unit {0})
  unfolding step_up_recovery_code list_recovery_codes
  step_up_recovery_code-Ensures code = bind-Ensures (entry-Ensures host svc token s n) (λ p.
      let C = Passed host svc token s n p in
      let codes = list_recovery_codes p.user.id s in
      bind-Ensures
        (kept host svc token s n (λ t. C × (t ≡ tables_of s))
          (check_rate_limit-tables host svc _ _))
        (λ _.
          bind-Ensures {R = λ found w. C × (found ≡ codes)}
            (act-Ensures (λ w q. (
              q.0,
              ap
                  (λ (t : Tables).
                    select (λ (c : AuthRecoveryCode). c.user_id == p.user.id) (Dict.values t.1))
                  q.1,
            )))
            (λ found.
              bind-Ensures {R = λ saved w. C × IsSavedOf host codes code saved}
                (require-Ensures (find_code host svc (hash_secret host code) found) _
                  (λ saved e w q. (
                    q.0,
                    find_code-IsSavedOf host svc codes code saved
                        (ap (find_code host svc (hash_secret host code)) (sym q.1) ∙ e),
                  ))
                  (λ e w q. tt))
                (λ saved.
                  let D = C × IsSavedOf host codes code saved in
                  bind-Ensures (use_code-Ensures host svc saved D) (λ _.
                    post-Ensures
                      (pre-Ensures (λ w q. (q.0.0, (q.0.1, q.1)))
                        (ending-Ensures host svc token s n p
                          (λ t.
                            IsSavedOf host codes code saved
                            × (is_spent_code (Dict.get saved.id t.1) ≡ true))
                          _ _ _ (field "method" (text "recovery_code") end)))
                      (λ a w q.
                        let (known, spent) = q.2 in
                        (
                          q.0,
                          subst (λ (x : AuthUser). IsSpent host x.id code s w) (sym q.1)
                              (record { saved = saved; known = known; spent = spent }),
                        )))))))

guard-eq_returned {ℓ} :
    {A : Type ℓ} (b : Bool) (e : Error) (a p : A) (w w' : World)
    → (fail_if b e >>= λ _. pure a) w ≡ (ok p, w')
    → (b ≡ false) × (pure a w ≡ (ok p, w'))
unfolding ◌>>=◌
guard-eq_returned true e a p w w' h = absurd (ground (arith, ap (λ x. x.0) h))
guard-eq_returned false e a p w w' h = (refl, h)

-- `require_aal2` returns the principal of `verify_session`.
require_aal2-eq_ok :
    (host : Host) (svc : Service) (token : String) (w w' : World) (p : Principal)
    → require_aal2 host svc token w ≡ (ok p, w')
    → (verify_session host svc token none w ≡ (ok p, w')) × (p.session.assurance_level ≡ aal2)
unfolding require_aal2
require_aal2-eq_ok host svc token w w' p h =
    let call = verify_session host svc token none in
    let (a, e, h1) = bind-eq_returned call _ w w' p h in
    let (high, last) = guard-eq_returned _ _ a p (call w).1 w' h1 in
    let level : a.session.assurance_level ≡ aal2 = ground (arith, high) in
    let same : a ≡ p = ok-injective a p (ap (λ x. x.0) last) in
    ((λ i. (e i, (call w).1)) ∙ last, ap (λ x. x.session.assurance_level) (sym same) ∙ level)

-- Each operation that is to return a principal of the level AAL2 returns none else, and only with a
-- token that `verify_session` accepts for the principal's user at that time. A step-up by a TOTP
-- code returns only for a code of an enabled factor of that user, for a counter above the last one
-- used, which is stored as used; a step-up by a recovery code only for an unused code of that user,
-- which is stored as used; and `require_aal2` returns what `verify_session` returns.
pub reach_aal2_sound :
    (host : Host) (svc : Service) (token : String) (evidence : Evidence) (w w' : World)
    (p : Principal)
    → reach_aal2 host svc token evidence w ≡ (ok p, w')
    → (found : AuthSession) × IsGranted host svc token none
        (host.clock w.clock_reads)
        w.storage
        found
        p.user
      × (p.session.assurance_level ≡ aal2)
      × IsShown host svc token p w w' evidence
unfolding reach_aal2 IsShown
reach_aal2_sound host svc token (Evidence.totp_code code) w w' p e =
    let (passed, factor, shown) =
      returned (step_up_totp-Ensures host svc token w.storage w.clock_reads code) w p w'
        (refl, refl) e in
    (passed.0.0, passed.0.1, passed.1, (factor, shown))
reach_aal2_sound host svc token (Evidence.recovery_code code) w w' p e =
    let (passed, shown) =
      returned (step_up_recovery_code-Ensures host svc token w.storage w.clock_reads code) w p w'
        (refl, refl) e in
    (passed.0.0, passed.0.1, passed.1, shown)
reach_aal2_sound host svc token Evidence.nothing_new w w' p e =
    let (verified, level) = require_aal2-eq_ok host svc token w w' p e in
    let (found, granted) = verify_session_sound host svc token none w w' p verified in
    (found, granted, level, verified)
