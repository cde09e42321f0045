-- ===== src/Service/Sessions/Tests.antt =====
-- Runs of `verify_session`, and its theorems at concrete inputs.
use coreline_auth_module.Common.{◌≡◌, refl, none, some, [], ◌∷◌, String, arith, eq_iff}
use coreline_auth_module.Common.Dict
use coreline_auth_module.Errors.{Error, ok, raise}
use coreline_auth_module.Models.{Role, AuthSession, AuthUser, Principal}
use coreline_auth_module.Security.{hash_secret}
use coreline_auth_module.Storage.{
  Storage, empty, get_user, get_session_by_token_hash, touch_session,
}
use coreline_auth_module.Storage.Sessions.{is_expired}
use coreline_auth_module.Storage.Sessions.Index.{IsIndexed}
use coreline_auth_module.World.{◌>>=◌}
use coreline_auth_module.Service.Sessions.{verify_session, logout, lacks_permission}
use coreline_auth_module.Service.Sessions.Verification.{
  IsGranted, verify_session_sound, verify_session_complete,
}
use coreline_auth_module.Service.Sessions.Ending.{verify_session-logout}
use coreline_auth_module.Models.{IssuedSession}
use coreline_auth_module.World.{World}
use coreline_auth_module.Storage.{create_session}
use coreline_auth_module.Service.Sessions.{issue_session, session_for}
use coreline_auth_module.Service.Sessions.Acceptance.{verify_session-issue_session}
use coreline_auth_module.Fixtures.{test_host, test_service, user_of, session_of, world_of}

methods : Unit {0}
unfolding verify_session ◌>>=◌ Dict.get Dict.set hash_secret get_user get_session_by_token_hash
    is_expired lacks_permission touch_session
methods = tt

abbrev ann : AuthUser
ann = user_of "u1" "a@x.org" Role.user

abbrev ann_session : AuthSession
ann_session = session_of "s1" "a" "u1"

abbrev logged_in : Storage
logged_in = record empty {
  users = ("u1", ann) ∷ [];
  sessions = ("s1", ann_session) ∷ [];
  sessions_by_token_hash = ("#a", "s1") ∷ [];
}

-- The session is younger than a minute, so that it is not touched.
accepted : verify_session test_host test_service "a" none (world_of logged_in) ≡ (
  ok (record { user = ann; session = ann_session }),
  record (world_of logged_in) { clock_reads = 1 },
)
unfolding methods
accepted = refl

verify_session_sound_example :
    (found : AuthSession) × IsGranted test_host test_service "a" none 1000 logged_in found ann
verify_session_sound_example =
    verify_session_sound test_host test_service "a" none (world_of logged_in)
      (record (world_of logged_in) { clock_reads = 1 })
      (record { user = ann; session = ann_session }) accepted

only_session :
    (id : String) (x : AuthSession)
    → Dict.get id logged_in.sessions ≡ some x
    → (id ≡ "s1") × (x ≡ ann_session)
unfolding methods
only_session id x h = (ground (arith, h, eq_iff "s1" id), ground (arith, h))

logged_in-IsIndexed : IsIndexed logged_in
unfolding methods
logged_in-IsIndexed = record {
  unique = (refl, tt);
  keyed = λ id x h. let (p, q) = only_session id x h in rw (p, q) (refl, refl, refl);
  sound = λ h id p. (
    ann_session,
    ground (arith, p, eq_iff "#a" h, eq_iff "s1" id),
    ground (arith, p, eq_iff "#a" h),
  );
}

granted : IsGranted test_host test_service "a" none 1000 logged_in ann_session ann
unfolding methods
granted = record {
  stored = refl;
  live = refl;
  current = refl;
  known = refl;
  active = refl;
  permitted = refl;
}

verify_session_complete_example :
    (p : Principal) × ((verify_session test_host test_service "a" none (world_of logged_in)).0
      ≡ ok p)
    × (p.user ≡ ann)
    × (p.session.id ≡ "s1")
    × (p.session.user_id ≡ "u1")
    × (p.session.permissions ≡ ann_session.permissions)
    × (p.session.assurance_level ≡ ann_session.assurance_level)
verify_session_complete_example =
    verify_session_complete test_host test_service "a" none (world_of logged_in) ann_session ann
      logged_in-IsIndexed granted

verify_session-logout_example :
    ((logout test_host test_service "a" (world_of logged_in)).0 ≡ ok tt)
    × (error : Error) × ((verify_session test_host test_service "a" none
          (logout test_host test_service "a" (world_of logged_in)).1).0
        ≡ raise error)
verify_session-logout_example =
    verify_session-logout test_host test_service "a" none (world_of logged_in) logged_in-IsIndexed

abbrev after_issue : World
after_issue = (issue_session test_host test_service ann (some "email") none (world_of logged_in)).1

abbrev first_session : IssuedSession
first_session = record {
  token = "t0";
  session = session_for test_host test_service ann (some "email") none 1000 "t0" "0";
}

issued :
    issue_session test_host test_service ann (some "email") none (world_of logged_in)
    ≡ (ok first_session, after_issue)
unfolding methods issue_session create_session session_for
issued = refl

verify_session-issue_session_example :
    (p : Principal) × ((verify_session test_host test_service "t0" none after_issue).0 ≡ ok p)
    × (p.user ≡ ann)
    × (p.session.id ≡ first_session.session.id)
unfolding methods issue_session create_session session_for
verify_session-issue_session_example =
    verify_session-issue_session test_host test_service ann (some "email") none none
      (world_of logged_in) after_issue first_session logged_in-IsIndexed refl refl refl issued refl
      refl
