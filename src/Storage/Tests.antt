-- ===== src/Storage/Tests.antt =====
-- Runs of the in-memory storage, and its theorems at concrete inputs.
use coreline_auth_module.Common.{
  ◌⊎◌, ◌≡◌, ◌≢◌, refl, String, true, false, some, none, List, [], ◌∷◌, arith, eq_iff, is_none, ◌<◌,
}
use coreline_auth_module.Common.Dict
use coreline_auth_module.Common.Dict.{IsUnique}
use coreline_auth_module.Errors.{raise, validation}
use coreline_auth_module.Models.{AuthSession, LoginFlow, FlowType, AuthAssuranceLevel}
use coreline_auth_module.Storage.{
  empty, Storage, revoke_sessions_for_user, cleanup_expired, consume_login_flow_by_state_hash,
  mark_mfa_factor_counter_used, mark_recovery_code_used, create_session, update_session,
  touch_session, set_session_assurance_level, revoke_session, cleanup_sessions,
}
use coreline_auth_module.Storage.Sessions.{is_expired}
use coreline_auth_module.Storage.Sessions.Operations as Calls
use coreline_auth_module.Storage.Sessions.Operations.{SessionCall}
use coreline_auth_module.Storage.Sessions.Revocation.{
  IsRevoked, perform_all-IsRevoked, revoke_sessions_for_user_lem,
}
use coreline_auth_module.Storage.Sessions.Index.{IsIndexed, perform-IsIndexed}
use coreline_auth_module.Storage.Sessions.Cleanup.{cleanup_expired_lem}
use coreline_auth_module.Storage.Flows.Once as Flows
use coreline_auth_module.Storage.Flows.Once.{FlowCall, IsKeyed, consume_once}
use coreline_auth_module.Storage.Factors.Once as Factors
use coreline_auth_module.Storage.Factors.Once.{mark_once, mark_recovery_code_once}
use coreline_auth_module.Fixtures.{session_of, flow_of, factor_of, code_of}

methods : Unit {0}
unfolding Dict.get Dict.set Dict.pop Dict.sweep create_session update_session touch_session
    set_session_assurance_level revoke_session revoke_sessions_for_user cleanup_sessions
    cleanup_expired is_expired consume_login_flow_by_state_hash mark_mfa_factor_counter_used
    mark_recovery_code_used Calls.perform Calls.perform_all Flows.perform Flows.perform_all
    Factors.mark_all Factors.mark_codes
methods = tt

abbrev revoked_one : AuthSession
revoked_one = record (session_of "s1" "a" "u1") { revoked_at = some 7 }

-- Two sessions of one user, of which the first is revoked.
abbrev two_sessions : Storage
two_sessions = record empty {
  sessions = ("s1", revoked_one) ∷ ("s2", session_of "s2" "b" "u1") ∷ [];
  sessions_by_token_hash = ("#a", "s1") ∷ ("#b", "s2") ∷ [];
}

two_sessions-IsUnique : IsUnique two_sessions.sessions
unfolding methods
two_sessions-IsUnique = (refl, (refl, tt))

two_sessions-IsRevoked : IsRevoked "s1" 7 two_sessions
unfolding methods
two_sessions-IsRevoked = record {
  unique = two_sessions-IsUnique;
  session = revoked_one;
  found = refl;
  revoked = refl;
}

abbrev later_calls : List SessionCall
later_calls =
    SessionCall.update (session_of "s1" "a" "u1")
    ∷ SessionCall.touch "s1" 9 none
    ∷ SessionCall.assure "s1" AuthAssuranceLevel.aal2 10
    ∷ SessionCall.cleanup 11
    ∷ []

perform_all-IsRevoked_example : IsRevoked "s1" 7 (Calls.perform_all later_calls two_sessions)
perform_all-IsRevoked_example =
    perform_all-IsRevoked "s1" 7 later_calls two_sessions refl two_sessions-IsRevoked

revoke_sessions_for_user_example :
    ((id : String) (x : AuthSession)
      → Dict.get id (revoke_sessions_for_user "u1" (some "s9") 20 two_sessions).1.sessions ≡ some x
      → x.user_id ≡ "u1"
      → some "s9" ≢ some id
      → is_none x.revoked_at ≡ false)
    × ((id : String) (x : AuthSession)
        → Dict.get id two_sessions.sessions ≡ some x
        → (x.user_id ≢ "u1") ⊎ (some "s9" ≡ some id)
        → Dict.get id (revoke_sessions_for_user "u1" (some "s9") 20 two_sessions).1.sessions
          ≡ some x)
revoke_sessions_for_user_example =
    revoke_sessions_for_user_lem "u1" (some "s9") 20 two_sessions two_sessions-IsUnique

empty-IsIndexed : IsIndexed empty
unfolding methods
empty-IsIndexed = record {
  unique = tt;
  keyed = λ id x h. absurd (ground (arith, h));
  sound = λ h id p. absurd (ground (arith, p));
}

perform-IsIndexed_example :
    IsIndexed (Calls.perform (SessionCall.create (session_of "s1" "a" "u1")) empty)
unfolding methods
perform-IsIndexed_example =
    perform-IsIndexed (SessionCall.create (session_of "s1" "a" "u1")) empty (refl, refl)
      empty-IsIndexed

cleanup_expired_example :
    ((id : String) (x : AuthSession)
      → Dict.get id (cleanup_expired 6000 two_sessions).1.sessions ≡ some x
      → is_none x.revoked_at ≡ true
      → is_expired 6000 x ≡ false)
    × ((id : String) (x : AuthSession)
        → Dict.get id two_sessions.sessions ≡ some x
        → is_expired 6000 x ≡ false
        → Dict.get id (cleanup_expired 6000 two_sessions).1.sessions ≡ some x)
    × ((id : String) (flow : LoginFlow)
        → Dict.get id (cleanup_expired 6000 two_sessions).1.login_flows ≡ some flow
        → (Dict.get id two_sessions.login_flows ≡ some flow) × (6000 < flow.expires_at))
    × ((id : String) (flow : LoginFlow)
        → Dict.get id two_sessions.login_flows ≡ some flow
        → 6000 < flow.expires_at
        → Dict.get id (cleanup_expired 6000 two_sessions).1.login_flows ≡ some flow)
cleanup_expired_example = cleanup_expired_lem 6000 two_sessions two_sessions-IsUnique tt

-- A flow that waits to be consumed.
abbrev one_flow : Storage
one_flow = record empty {
  login_flows = ("f1", flow_of "f1" "#a") ∷ [];
  login_flows_by_state_hash = ("#a", "f1") ∷ [];
}

one_flow-IsKeyed : IsKeyed one_flow
unfolding methods
one_flow-IsKeyed = record { at = λ id flow h. ground (arith, h, eq_iff "f1" id) }

abbrev flow_calls : List FlowCall
flow_calls = FlowCall.create (flow_of "f2" "#b") ∷ FlowCall.cleanup 100 ∷ []

consume_once_example :
    (consume_login_flow_by_state_hash "#a" FlowType.magic_link (some "email") 50 (
      Flows.perform_all flow_calls
        (consume_login_flow_by_state_hash "#a" FlowType.magic_link (some "email") 40 one_flow).1)).0
    ≡ none
unfolding methods
consume_once_example =
    consume_once "#a" FlowType.magic_link FlowType.magic_link (some "email") (some "email") 40 50
      flow_calls one_flow (record (flow_of "f1" "#a") { consumed_at = some 40 }) one_flow-IsKeyed
      refl ((refl, ground (arith, eq_iff "f1" "f2")), (tt, tt))

abbrev one_factor : Storage
one_factor = record empty { mfa_factors = ("m1", factor_of "m1" "u1") ∷ [] }

mark_once_example :
    (mark_mfa_factor_counter_used "m1" 30 61
      (Factors.mark_all [] (mark_mfa_factor_counter_used "m1" 33 60 one_factor).1)).0
    ≡ none
unfolding methods
mark_once_example =
    mark_once "m1" 33 30 60 61 [] one_factor
      (record (factor_of "m1" "u1") { last_used_at = some 60; last_used_counter = some 33 }) refl
      (omega arith)

abbrev one_code : Storage
one_code = record empty { recovery_codes = ("c1", code_of "c1" "u1") ∷ [] }

abbrev spent_code : Storage
spent_code = record empty {
  recovery_codes = ("c1", record (code_of "c1" "u1") { used_at = some 5 }) ∷ [];
}

mark_recovery_code_once_example :
    mark_recovery_code_used "c1" 6 (Factors.mark_codes (("c1", 8) ∷ []) spent_code)
    ≡ raise (validation "recovery code already used")
unfolding methods
mark_recovery_code_once_example =
    mark_recovery_code_once "c1" 5 6 (("c1", 8) ∷ []) one_code spent_code refl
