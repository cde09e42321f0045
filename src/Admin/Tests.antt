-- ===== src/Admin/Tests.antt =====
-- The theorem on administrators' calls at a concrete input.
use coreline_auth_module.Common.{
  ◌≡◌, false, some, ◌==◌, refl, none, [], ◌∷◌, List, String, arith, eq_iff,
}
use coreline_auth_module.Common.Dict
use coreline_auth_module.Models.{Role, AuthUser, UserStatus, Principal}
use coreline_auth_module.Storage.{Storage, empty, email_key}
use coreline_auth_module.Admin.Privileged.{IsAdministered}
use coreline_auth_module.Admin.Calls.{AdminCall, perform_all, perform_all-IsAdministered}
use coreline_auth_module.Admin.Locks.{Lock, lock_user, lock_user-other}
use coreline_auth_module.Common.Text.{lower, strip}
use coreline_auth_module.Errors.{ok}
use coreline_auth_module.Permissions.{permission_matches}
use coreline_auth_module.Service.Sessions.{verify_session}
use coreline_auth_module.World.{World, ◌>>=◌}
use coreline_auth_module.Fixtures.{test_host, test_service, user_of, session_of, world_of}

-- An admin with a session, and a user.
abbrev office : Storage
office = record empty {
  users = ("u1", user_of "u1" "a@x.org" Role.admin) ∷ ("u2", user_of "u2" "b@x.org" Role.user) ∷ [];
  sessions = ("s1", record (session_of "s1" "a" "u1") { permissions = "*" ∷ [] }) ∷ [];
  sessions_by_token_hash = ("#a", "s1") ∷ [];
}

office-IsAdministered : IsAdministered office.users
unfolding Dict.get
office-IsAdministered = record {
  unique = (refl, (refl, tt));
  keyed = λ k u e. ground (arith, e, eq_iff "u1" k, eq_iff "u2" k);
  admin = ("u1", user_of "u1" "a@x.org" Role.admin, refl, refl);
}

-- The admin bans the user, and tries to step down and to ban itself.
abbrev calls : List (String × AdminCall)
calls =
    ("a", AdminCall.ban "u2" none)
    ∷ ("a", AdminCall.update_role "u1" Role.user)
    ∷ ("a", AdminCall.ban "u1" none)
    ∷ []

perform_all-IsAdministered_example :
    IsAdministered (perform_all test_host test_service calls (world_of office)).storage.users
perform_all-IsAdministered_example =
    perform_all-IsAdministered test_host test_service calls (world_of office) office-IsAdministered

abbrev banned : AuthUser
banned = record (user_of "u2" "b@x.org" Role.user) { status = UserStatus.banned; updated_at = 1001 }

abbrev after_ban : World
after_ban = (lock_user test_host test_service Lock.ban "a" "u2" none (world_of office)).1

was_banned :
    lock_user test_host test_service Lock.ban "a" "u2" none (world_of office)
    ≡ (ok banned, after_ban)
unfolding lock_user ◌>>=◌ Dict.get Dict.set permission_matches email_key lower strip
was_banned = refl

lock_user-other_example :
    (p : Principal) × ((verify_session test_host test_service "a"
        (some "users:ban")
        (world_of office)).0
      ≡ ok p)
    × (("u2" == p.user.id) ≡ false)
lock_user-other_example =
    lock_user-other test_host test_service Lock.ban "a" "u2" none (world_of office) after_ban banned
      was_banned
