-- ===== src/Service/StepUp/Tests.antt =====
-- A run of `step_up_totp`, and the theorem on AAL2 at that input.
use coreline_auth_module.Common.{◌≡◌, refl, none, some, [], ◌∷◌}
use coreline_auth_module.Common.Dict
use coreline_auth_module.Common.Text.{strip}
use coreline_auth_module.Errors.{ok}
use coreline_auth_module.Mfa.{totp_code, totp_counter_for_code, load_totp_secret}
use coreline_auth_module.Models.{AuthUser, AuthSession, Principal, Role, AuthAssuranceLevel, aal2}
use coreline_auth_module.RateLimit.{check}
use coreline_auth_module.Security.{hash_secret}
use coreline_auth_module.Storage.{
  empty, get_user, get_session_by_token_hash, list_mfa_factors, mark_mfa_factor_counter_used,
  set_session_assurance_level, record_audit_event,
}
use coreline_auth_module.Storage.Sessions.{is_expired}
use coreline_auth_module.World.{World, ◌>>=◌}
use coreline_auth_module.Service.Support.{check_rate_limit, audit, require_user, metric}
use coreline_auth_module.Service.Sessions.{verify_session}
use coreline_auth_module.Service.Sessions.Verification.{IsGranted}
use coreline_auth_module.Service.Factors.{verify_totp, factor_code_counter, try_factor, try_factors}
use coreline_auth_module.Service.StepUp.{step_up_totp, raise_level}
use coreline_auth_module.Service.StepUp.Evidences.{Evidence, IsShown, reach_aal2}
use coreline_auth_module.Service.StepUp.Assurance.{reach_aal2_sound}
use coreline_auth_module.Fixtures.{
  test_host, test_service, user_of, session_of, factor_of, world_of,
}

methods : Unit {0}
unfolding reach_aal2 step_up_totp verify_totp raise_level factor_code_counter try_factor try_factors
    ◌>>=◌ Dict.get Dict.set strip totp_code totp_counter_for_code load_totp_secret check hash_secret
    get_user get_session_by_token_hash list_mfa_factors mark_mfa_factor_counter_used
    set_session_assurance_level record_audit_event is_expired check_rate_limit audit require_user
    metric verify_session
methods = tt

abbrev ann : AuthUser
ann = user_of "u1" "a@x.org" Role.user

abbrev enrolled : World
enrolled =
    record (world_of (record empty {
      users = ("u1", ann) ∷ [];
      sessions = ("s1", session_of "s1" "a" "u1") ∷ [];
      sessions_by_token_hash = ("#a", "s1") ∷ [];
      mfa_factors = ("m1", factor_of "m1" "u1") ∷ [];
    })) { secrets = ("m1", "S0") ∷ [] }

-- The digest of the test host is empty, so that its code is always the same.
abbrev evidence : Evidence
evidence = Evidence.totp_code "000000"

abbrev raised : Principal
raised = record {
  user = ann;
  session = record (session_of "s1" "a" "u1") {
    assurance_level = AuthAssuranceLevel.aal2;
    last_seen_at = some 1002;
  };
}

stepped_up :
    reach_aal2 test_host test_service "a" evidence enrolled
    ≡ (ok raised, (reach_aal2 test_host test_service "a" evidence enrolled).1)
unfolding methods
stepped_up = refl

reach_aal2_sound_example :
    (found : AuthSession) × IsGranted test_host test_service "a" none 1000 enrolled.storage found
      ann
    × (raised.session.assurance_level ≡ aal2)
    × IsShown test_host test_service "a" raised enrolled
        (reach_aal2 test_host test_service "a" evidence enrolled).1
        evidence
reach_aal2_sound_example =
    reach_aal2_sound test_host test_service "a" evidence enrolled
      (reach_aal2 test_host test_service "a" evidence enrolled).1 raised stepped_up
