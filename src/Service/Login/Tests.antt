-- ===== src/Service/Login/Tests.antt =====
-- A run of `login_password`, and its theorem at that input.
use coreline_auth_module.Common.{◌≡◌, refl, none, some, [], ◌∷◌}
use coreline_auth_module.Common.Dict
use coreline_auth_module.Common.Text.{lower, strip}
use coreline_auth_module.Errors.{ok}
use coreline_auth_module.Models.{AuthUser, AuthCredential, CredentialType, IssuedSession, Role}
use coreline_auth_module.RateLimit.{check}
use coreline_auth_module.Security.{
  normalize_email_address, hash_secret, verify_password, hash_optional_context,
}
use coreline_auth_module.Permissions.{permissions_for}
use coreline_auth_module.Storage.{
  Storage, empty, email_key, get_user_by_email, get_password_credential, create_session,
  update_user, record_audit_event,
}
use coreline_auth_module.World.{World, ◌>>=◌}
use coreline_auth_module.Service.Support.{
  check_rate_limit, enforce_profile_login, normalize_email, record_login, audit, metric,
}
use coreline_auth_module.Service.Sessions.{issue_session, session_for}
use coreline_auth_module.Service.Login.{login_password}
use coreline_auth_module.Service.Login.Passwords.{IsKnown, login_password_sound}
use coreline_auth_module.Fixtures.{test_host, test_service, user_of, world_of}

methods : Unit {0}
unfolding login_password ◌>>=◌ Dict.get Dict.set email_key lower strip check normalize_email_address
    hash_secret verify_password hash_optional_context permissions_for get_user_by_email
    get_password_credential create_session update_user record_audit_event check_rate_limit
    enforce_profile_login normalize_email record_login audit metric issue_session session_for
methods = tt

abbrev ann : AuthUser
ann = user_of "u1" "a@x.org" Role.user

abbrev credential : AuthCredential
credential = record {
  id = "c1";
  user_id = "u1";
  credential_type = CredentialType.password;
  password_hash = some "$swordfish";
  created_at = 1;
  updated_at = 1;
  revoked_at = none;
}

abbrev registered : Storage
registered = record empty {
  users = ("u1", ann) ∷ [];
  users_by_email = ("a@x.org", "u1") ∷ [];
  credentials = ("c1", credential) ∷ [];
  password_credentials_by_user = ("u1", "c1") ∷ [];
}

abbrev after_login : World
after_login =
    (login_password test_host test_service " A@x.org" "swordfish" none (world_of registered)).1

abbrev first_session : IssuedSession
first_session = record {
  token = "t0";
  session = session_for test_host test_service ann (some "email") none 1000 "t0" "0";
}

logged_in :
    login_password test_host test_service " A@x.org" "swordfish" none (world_of registered)
    ≡ (ok first_session, after_login)
unfolding methods
logged_in = refl

login_password_sound_example :
    (user : AuthUser) × IsKnown test_host " A@x.org" "swordfish" registered user
    × (first_session.session.user_id ≡ user.id)
login_password_sound_example =
    login_password_sound test_host test_service " A@x.org" "swordfish" none (world_of registered)
      after_login first_session logged_in
