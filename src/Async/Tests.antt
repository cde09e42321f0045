-- ===== src/Async/Tests.antt =====
-- Calls of the asynchronous service at the same time, and the theorems at this input.
use Prim.Native.Char.{code}
use Prim.Native.String
use Prim.Native.String.append
use coreline_auth_module.Common.{
  ℕ, ◌≡◌, ◌↔◌, refl, ap, String, some, none, List, [], ◌∷◌, map, arith, eq_iff, ◌==◌, Bool-cases,
  inl, inr,
}
use coreline_auth_module.Common.Dict
use coreline_auth_module.Errors.{ok}
use coreline_auth_module.Models.{Role}
use coreline_auth_module.Storage.{Storage, empty}
use coreline_auth_module.Storage.Sessions.Revocation.{IsRevoked}
use coreline_auth_module.World.{World}
use coreline_auth_module.Async.{interleave, run}
use coreline_auth_module.Async.Revocation.{IsFresh}
use coreline_auth_module.Async.Calls.{AsyncCall, of_nothing, task_of, interleave-IsRevoked}
use coreline_auth_module.Async.Parity.{sync_of, task_of_refines_sync_of}
use coreline_auth_module.Fixtures.{test_host, test_service, user_of, session_of, world_of}

-- Ann has a session that was revoked, and one that was not.
abbrev stored : Storage
stored = record empty {
  users = ("u1", user_of "u1" "a@x.org" Role.user) ∷ [];
  users_by_email = ("a@x.org", "u1") ∷ [];
  sessions =
      ("x1", record (session_of "x1" "a" "u1") { revoked_at = some 500 })
      ∷ ("x2", session_of "x2" "b" "u1")
      ∷ [];
  sessions_by_token_hash = ("#a", "x1") ∷ ("#b", "x2") ∷ [];
}

stored-IsRevoked : IsRevoked "x1" 500 stored
unfolding Dict.get
stored-IsRevoked = record {
  unique = (refl, (refl, tt));
  session = record (session_of "x1" "a" "u1") { revoked_at = some 500 };
  found = refl;
  revoked = refl;
}

first_code : String → ℕ
first_code String.[] = 0
first_code (String.◌∷◌ c s) = code c

-- No id that is drawn is "x1".
fresh : IsFresh test_host "x1" 0
unfolding first_code
fresh m le = elim (Bool-cases (String.◌++◌ "sess_" (test_host.uuid m) == "x1")) [
  | inl e ↦
      let p : String.◌++◌ "sess_" (test_host.uuid m) ≡ "x1" = (eq_iff _ "x1").0 e in
      absurd
        (ground (arith, ap first_code p, ap first_code (append.cons "s" "ess_" (test_host.uuid m))))
  | inr e ↦ e
]

abbrev calls : List AsyncCall
calls =
    AsyncCall.verify "a" none
    ∷ AsyncCall.leave "b"
    ∷ AsyncCall.login "a@x.org" "swordfish" none
    ∷ AsyncCall.cleanup
    ∷ []

abbrev schedule : List ℕ
schedule = 0 ∷ 1 ∷ 2 ∷ 3 ∷ 0 ∷ 1 ∷ 3 ∷ 2 ∷ 2 ∷ 0 ∷ 1 ∷ 0 ∷ []

interleave-IsRevoked_example :
    IsRevoked "x1" 500
      (interleave schedule (map (task_of test_host test_service) calls) (world_of stored)).1.storage
interleave-IsRevoked_example =
    interleave-IsRevoked test_host test_service "x1" 500 calls schedule (world_of stored) fresh
      stored-IsRevoked

abbrev after_leaving : World
after_leaving = (sync_of test_host test_service (AsyncCall.leave "b") (world_of stored)).1

task_of_refines_sync_of_example :
    (run (task_of test_host test_service (AsyncCall.leave "b")) (world_of stored)
      ≡ (ok (of_nothing tt), after_leaving))
    ↔ (sync_of test_host test_service (AsyncCall.leave "b") (world_of stored)
        ≡ (ok (of_nothing tt), after_leaving))
task_of_refines_sync_of_example =
    task_of_refines_sync_of test_host test_service (AsyncCall.leave "b") (world_of stored)
      after_leaving (of_nothing tt) refl refl
