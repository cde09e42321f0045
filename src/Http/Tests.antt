-- ===== src/Http/Tests.antt =====
-- Requests to the routes, and the theorems on routes at these inputs.
use coreline_auth_module.Common.{
  ◌⊎◌, ◌≡◌, ◌≢◌, refl, true, false, some, none, [], ◌∷◌, String, arith, eq_iff,
}
use coreline_auth_module.Common.Dict
use coreline_auth_module.Common.Text.{lower, strip, is_prefix}
use coreline_auth_module.Models.{
  AuthUser, AuthSession, AuthCredential, CredentialType, IssuedSession, Role,
}
use coreline_auth_module.Permissions.{allows, permission_matches}
use coreline_auth_module.Security.{
  normalize_email_address, hash_secret, verify_password, hash_optional_context,
}
use coreline_auth_module.Storage.{Storage, empty, email_key}
use coreline_auth_module.Storage.Sessions.Index.{IsIndexed}
use coreline_auth_module.World.{World, ◌>>=◌}
use coreline_auth_module.Service.Sessions.{session_for}
use coreline_auth_module.Service.Login.Passwords.{IsKnown}
use coreline_auth_module.Http.{
  delete_cookie, words, moment, Request, Mount, done, http_exception, Response, Body, truth,
  ◌>>=◌ as ◌next◌, attempt, request_context,
}
use coreline_auth_module.Http.Gate.{require_csrf}
use coreline_auth_module.Http.Gate.Passage.{IsPassed}
use coreline_auth_module.Http.Routes.{
  plain, session_reply, login, email_verification_request, password_reset_request, logout_route, me,
}
use coreline_auth_module.Http.Routes.Logins.{IsSessionReply, login_sound}
use coreline_auth_module.Http.Routes.Requests.{IsFlowReply, email_verification_request_sound}
use coreline_auth_module.Service.Tokens.Opening.{IsAccount}
use coreline_auth_module.Http.Routes.Endings.{me-logout_route}
use coreline_auth_module.Http.AdminRoutes.Changes.{
  Change, change_route, IsPermitted, change_route_sound,
}
use coreline_auth_module.Fixtures.{test_host, test_service, user_of, session_of, world_of}

methods : Unit {0}
unfolding login email_verification_request password_reset_request logout_route me change_route
    require_csrf ◌next◌ ◌>>=◌ attempt request_context Dict.get Dict.set lower strip is_prefix
    normalize_email_address hash_secret verify_password hash_optional_context allows
    permission_matches email_key
methods = tt

abbrev ann : AuthUser
ann = user_of "u1" "a@x.org" Role.admin

abbrev credential : AuthCredential
credential = record {
  id = "c1";
  user_id = "u1";
  credential_type = CredentialType.password;
  password_hash = some "$swordfish";
  created_at = 1;
  updated_at = 1;
  revoked_at = none;
}

-- Two admins, of whom one has a session and a password.
abbrev office : Storage
office = record empty {
  users = ("u1", ann) ∷ ("u2", user_of "u2" "b@x.org" Role.admin) ∷ [];
  users_by_email = ("a@x.org", "u1") ∷ [];
  credentials = ("c1", credential) ∷ [];
  password_credentials_by_user = ("u1", "c1") ∷ [];
  sessions = ("s1", record (session_of "s1" "a" "u1") { permissions = "*" ∷ [] }) ∷ [];
  sessions_by_token_hash = ("#a", "s1") ∷ [];
}

abbrev mounted : Mount
mounted = record {
  cookie_name = "session";
  secure_cookies = true;
  expose_magic_link_token = false;
  csrf_protector =
      some
        (record { secret_key = "0123456789abcdef0123456789abcdef"; allow_weak_dev_secret = false });
  csrf_cookie_name = "csrf";
  csrf_header_name = "x-csrf-token";
  csrf_cookie_samesite = "strict";
}

-- A request with the session in a cookie, and a token for it in the header and a cookie.
abbrev token_text : String
token_text = "n1.0123456789abcdef0123456789abcdef#a:n1"

abbrev browser : Request
browser = record {
  cookies = ("session", "a") ∷ ("csrf", token_text) ∷ [];
  headers = ("x-csrf-token", token_text) ∷ [];
  credentials = none;
  client = some "10.0.0.1";
}

abbrev start : World
start = world_of office

abbrev passed_browser : World
passed_browser = (require_csrf test_host test_service mounted browser true start).1

passes : (require_csrf test_host test_service mounted browser true start).0 ≡ done tt
unfolding methods
passes = refl

-- Without the token in the header the request is refused.
refused :
    (require_csrf test_host test_service mounted (record browser { headers = [] }) true start).0
    ≡ http_exception 403 "missing or invalid csrf token"
unfolding methods
refused = refl

abbrev banned_body : Body
banned_body = ("id", words "u2") ∷ ("status", words "banned") ∷ []

abbrev change : Change
change = Change.ban "u2" (some "spam")

abbrev after_ban : World
after_ban = (change_route test_host test_service mounted change browser start).1

banned :
    change_route test_host test_service mounted change browser start ≡ (done banned_body, after_ban)
unfolding methods
banned = refl

change_route_sound_example :
    IsPassed test_host test_service mounted browser true start
    × IsPermitted test_host test_service mounted "users:ban" browser passed_browser
change_route_sound_example =
    change_route_sound test_host test_service mounted change browser start after_ban banned_body
      banned

-- A request without a session, for the routes that need none.
abbrev newcomer : Request
newcomer = record browser {
  cookies = ("csrf", "n1.0123456789abcdef0123456789abcdefanonymous:n1") ∷ [];
  headers = ("x-csrf-token", "n1.0123456789abcdef0123456789abcdefanonymous:n1") ∷ [];
}

passes_newcomer : (require_csrf test_host test_service mounted newcomer false start).0 ≡ done tt
unfolding methods
passes_newcomer = refl

abbrev after_login : World
after_login = (login test_host test_service mounted "A@x.org" "swordfish" newcomer start).1

abbrev first_session : IssuedSession
first_session = record {
  token = "t0";
  session =
      session_for test_host test_service ann (some "email") (some (request_context newcomer)) 1000
        "t0" "0";
}

logged_in :
    login test_host test_service mounted "A@x.org" "swordfish" newcomer start
    ≡ (done (session_reply test_host test_service mounted first_session), after_login)
unfolding methods
logged_in = refl

login_sound_example :
    IsPassed test_host test_service mounted newcomer false start
    × (user : AuthUser) × IsKnown test_host "A@x.org" "swordfish"
        (require_csrf test_host test_service mounted newcomer false start).1.storage
        user
    × IsSessionReply test_host mounted user after_login.storage
        (session_reply test_host test_service mounted first_session)
login_sound_example =
    login_sound test_host test_service mounted "A@x.org" "swordfish" newcomer start after_login
      (session_reply test_host test_service mounted first_session) logged_in

abbrev ann_asks : World
ann_asks = (email_verification_request test_host test_service mounted "A@x.org" newcomer start).1

abbrev for_account : Response Body
for_account = plain (("ok", truth true) ∷ ("expires_at", moment 1600) ∷ [])

-- The reply for an account, with the limit of the flow, and that for an address without one.
account_reply :
    email_verification_request test_host test_service mounted "A@x.org" newcomer start
    ≡ (done for_account, ann_asks)
unfolding methods
account_reply = refl

bare_reply :
    (email_verification_request test_host test_service mounted "nobody@x.org" newcomer start).0
    ≡ done (plain (("ok", truth true) ∷ []))
unfolding methods
bare_reply = refl

email_verification_request_sound_example :
    (for_account ≡ plain (("ok", truth true) ∷ []))
    ⊎ ((user : AuthUser) × IsAccount test_host "A@x.org"
          (require_csrf test_host test_service mounted newcomer false start).1.storage
          user
        × IsFlowReply test_host mounted user ann_asks.storage for_account)
email_verification_request_sound_example =
    email_verification_request_sound test_host test_service mounted "A@x.org" newcomer start
      ann_asks for_account account_reply

abbrev after_reset : World
after_reset = (password_reset_request test_host test_service mounted "a@x.org" newcomer start).1

reset_requested :
    password_reset_request test_host test_service mounted "a@x.org" newcomer start
    ≡ (done (plain (("ok", truth true) ∷ [])), after_reset)
unfolding methods
reset_requested = refl

abbrev admins_session : AuthSession
admins_session = record (session_of "s1" "a" "u1") { permissions = "*" ∷ [] }

only_session :
    (id : String) (x : AuthSession)
    → Dict.get id office.sessions ≡ some x
    → (id ≡ "s1") × (x ≡ admins_session)
unfolding methods
only_session id x h = (ground (arith, h, eq_iff "s1" id), ground (arith, h))

office-IsIndexed : IsIndexed office
unfolding methods
office-IsIndexed = record {
  unique = (refl, tt);
  keyed = λ id x h. let (p, q) = only_session id x h in rw (p, q) (refl, refl, refl);
  sound = λ h id p. (
    admins_session,
    ground (arith, p, eq_iff "#a" h, eq_iff "s1" id),
    ground (arith, p, eq_iff "#a" h),
  );
}

abbrev after_logout : World
after_logout = (logout_route test_host test_service mounted browser start).1

abbrev logged_out_reply : Response Body
logged_out_reply = record { body = ("ok", truth true) ∷ []; cookies = delete_cookie "session" ∷ [] }

logged_out :
    logout_route test_host test_service mounted browser start
    ≡ (done logged_out_reply, after_logout)
unfolding methods
logged_out = refl

me-logout_route_example :
    (me test_host test_service mounted browser after_logout).0 ≢ done (plain [])
me-logout_route_example =
    me-logout_route test_host test_service mounted browser start after_logout logged_out_reply
      (plain []) office-IsIndexed logged_out
