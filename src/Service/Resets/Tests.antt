-- ===== src/Service/Resets/Tests.antt =====
-- A run of `consume_password_reset`, and its theorem at that input.
use coreline_auth_module.Common.{◌≡◌, refl, [], ◌∷◌}
use coreline_auth_module.Common.Dict
use coreline_auth_module.Common.Text.{lower, strip}
use coreline_auth_module.Errors.{ok}
use coreline_auth_module.Models.{AuthUser, LoginFlow, FlowType, Role}
use coreline_auth_module.Storage.{Storage, empty}
use coreline_auth_module.World.{World, ◌>>=◌}
use coreline_auth_module.Service.Resets.{consume_password_reset}
use coreline_auth_module.Service.Resets.Revocation.{IsOut, consume_password_reset-IsOut}
use coreline_auth_module.Fixtures.{test_host, test_service, user_of, session_of, flow_of, world_of}

methods : Unit {0}
unfolding consume_password_reset ◌>>=◌ Dict.get Dict.set lower strip
methods = tt

abbrev ann : AuthUser
ann = user_of "u1" "a@x.org" Role.user

abbrev reset_flow : LoginFlow
reset_flow = record (flow_of "f1" "#r") {
  flow_type = FlowType.password_reset;
  metadata = ("user_id", "u1") ∷ [];
}

-- Ann has two sessions, and Bob has one.
abbrev requested : Storage
requested = record empty {
  users = ("u1", ann) ∷ [];
  users_by_email = ("a@x.org", "u1") ∷ [];
  login_flows = ("f1", reset_flow) ∷ [];
  login_flows_by_state_hash = ("#r", "f1") ∷ [];
  sessions =
      ("s1", session_of "s1" "a" "u1")
      ∷ ("s2", session_of "s2" "b" "u2")
      ∷ ("s3", session_of "s3" "c" "u1")
      ∷ [];
}

abbrev after_reset : World
after_reset =
    (consume_password_reset test_host test_service "r" "swordfish-123" (world_of requested)).1

was_reset :
    consume_password_reset test_host test_service "r" "swordfish-123" (world_of requested)
    ≡ (ok ann, after_reset)
unfolding methods
was_reset = refl

requested-IsUnique : Dict.IsUnique requested.sessions
unfolding Dict.get
requested-IsUnique = (refl, (refl, (refl, tt)))

consume_password_reset-IsOut_example : IsOut "u1" after_reset.storage.sessions
consume_password_reset-IsOut_example =
    consume_password_reset-IsOut test_host test_service "r" "swordfish-123" (world_of requested)
      after_reset ann refl requested-IsUnique was_reset
