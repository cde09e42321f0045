-- ===== src/Http/Routes/Logins.antt =====
-- fastapi_adapter.py: the route of the login by password.
use coreline_auth_module.Common.{◌≡◌, refl, ap, subst, String, true, false, some, [], ◌∷◌}
use coreline_auth_module.Host.{Host}
use coreline_auth_module.Models.{AuthUser, IssuedSession}
use coreline_auth_module.Storage.{Storage}
use coreline_auth_module.World.{World}
use coreline_auth_module.Service.Config.{Service}
use coreline_auth_module.Service.Login.{login_password}
use coreline_auth_module.Service.Login.Handing.{IsOwn}
use coreline_auth_module.Service.Login.Passwords.{IsKnown, login_password-IsOwn}
use coreline_auth_module.Http.{
  Request, Mount, done, Response, Body, every_refusal, attempt, request_context, truth, words,
  moment, set_cookie,
}
use coreline_auth_module.Http.Replies.{bind-eq_done, attempt-eq_done, done-injective}
use coreline_auth_module.Http.Gate.{require_csrf}
use coreline_auth_module.Http.Gate.Passage.{IsPassed, require_csrf-IsPassed}
use coreline_auth_module.Http.Routes.{login, session_reply, session_cookie}

-- The reply hands out a session of the user: the body has the user's id, and the only cookie is the
-- token under whose hash the storage has that session, which scripts cannot read.
pub record IsSessionReply (host : Host) (mount : Mount) (user : AuthUser) (s : Storage)
    (response : Response Body) : Type 0 where
  pub issued : IssuedSession
  pub own : IsOwn host user issued s
  pub body :
      response.body
      ≡ ("ok", truth true)
        ∷ ("user_id", words user.id)
        ∷ ("expires_at", moment issued.session.expires_at)
        ∷ []
  pub cookies :
      response.cookies
      ≡ set_cookie mount.cookie_name issued.token true mount.secure_cookies "lax" ∷ []

session_reply-IsSessionReply :
    (host : Host) (svc : Service) (mount : Mount) (user : AuthUser) (issued : IssuedSession)
    (s : Storage)
    → IsOwn host user issued s
    → IsSessionReply host mount user s (session_reply host svc mount issued)
unfolding session_reply session_cookie
session_reply-IsSessionReply host svc mount user issued s own = record {
  issued = issued;
  own = own;
  body = rw own.owner refl;
  cookies = refl;
}

-- When the login route replies, the request has passed the check of CSRF tokens, the storage after
-- that check has an active user for the normalised address whose stored hash verifies the password,
-- and the reply hands out a session of this user: its body has the user's id and the limit of the
-- session, and its only cookie has the token under whose hash the storage has the session
-- afterwards, is `HttpOnly` and `SameSite=lax`, and is `Secure` where the mount says so.
pub login_sound :
    (host : Host) (svc : Service) (mount : Mount) (email password : String) (request : Request)
    (w w' : World) (response : Response Body)
    → login host svc mount email password request w ≡ (done response, w')
    → IsPassed host svc mount request false w
      × (user : AuthUser) × IsKnown host email password
          (require_csrf host svc mount request false w).1.storage
          user
      × IsSessionReply host mount user w'.storage response
unfolding login
login_sound host svc mount email password request w w' response h =
    let csrf = require_csrf host svc mount request false in
    let w1 = (csrf w).1 in
    let context = some (request_context request) in
    let entry = attempt (every_refusal 401) (login_password host svc email password context) in
    let (u, e, h1) = bind-eq_done csrf _ w w' response h in
    let (issued, e2, h2) = bind-eq_done entry _ w1 w' response h1 in
    let returned =
      attempt-eq_done (every_refusal 401) (login_password host svc email password context) w1
        (entry w1).1 issued (λ i. (e2 i, (entry w1).1)) in
    let (user, known, own) =
      login_password-IsOwn host svc email password context w1 (entry w1).1 issued returned in
    let same = done-injective (session_reply host svc mount issued) response (ap (λ x. x.0) h2) in
    (
      require_csrf-IsPassed host svc mount request false w w1 (λ i. (e i, w1)),
      user,
      known,
      subst (IsSessionReply host mount user w'.storage) same (
          session_reply-IsSessionReply host svc mount user issued w'.storage
            (subst (λ (x : World). IsOwn host user issued x.storage) (ap (λ x. x.1) h2) own)),
    )
