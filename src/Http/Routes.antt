-- ===== src/Http/Routes.antt =====
-- fastapi_adapter.py: the routes of `mount_auth_routes`. Each gets the fields of its payload once
-- FastAPI has validated them, and its body is the dictionary that the code returns.
pub mod Logins
pub mod Endings
pub mod Requests
use coreline_auth_module.Common.{
  String, Bool, true, false, ◌&&◌, not, Option, some, none, [], ◌∷◌, is_none, is_text, get_or,
  if◌then◌else◌,
}
use coreline_auth_module.Csrf.{
  CsrfProtector, CsrfToken, issue_for_context, issue_global, token_value,
}
use coreline_auth_module.Errors.{Result, ok, raise, authentication_failed}
use coreline_auth_module.Host.{Host}
use coreline_auth_module.Models.{IssuedSession, MagicLinkChallenge, role_value}
use coreline_auth_module.Storage.{Storage, get_login_flow_by_state_hash}
use coreline_auth_module.World.Actions.{generate_token, query}
use coreline_auth_module.Service.Config.{Service}
use coreline_auth_module.Service.Login.{login_password}
use coreline_auth_module.Service.Resets.{request_password_reset, consume_password_reset}
use coreline_auth_module.Service.Sessions.{logout}
use coreline_auth_module.Service.Tokens.{
  request_magic_link, consume_magic_link, request_email_verification, consume_email_verification,
}
use coreline_auth_module.Http.{
  Request, Mount, Reply, done, Http, Response, Cookie, set_cookie, delete_cookie, truth, words,
  moment, roll, Body, ◌>>=◌, ◌>>◌, respond, abort, attempt, reply_of, every_refusal, denials,
  failures, nothing_caught, request_context,
}
use coreline_auth_module.Http.Gate.{
  token_from_request, csrf_context_key, require_csrf, require_session,
}

-- A reply that sets no cookie.
abbrev pub plain : Body → Response Body
plain body = record { body = body; cookies = [] }

-- The keys that only a deployment for development adds.
abbrev pub debug_fields : Bool → Body → Body
debug_fields shown fields = if shown then fields else []

module _ (host : Host) (svc : Service) (mount : Mount) where
  -- `set_session_cookie`
  unfoldable pub session_cookie : String → Cookie
  session_cookie token = set_cookie mount.cookie_name token true mount.secure_cookies "lax"

  abbrev pub csrf_token_for : CsrfProtector → String → Option String → CsrfToken
  unfolding issue_for_context issue_global
  csrf_token_for p nonce (some key) = issue_for_context host p nonce key
  csrf_token_for p nonce none = issue_global host p nonce

  abbrev pub csrf_body : CsrfToken → Option String → Body
  unfolding token_value
  csrf_body token key =
      ("csrf_token", words (token_value token))
      ∷ ("header", words mount.csrf_header_name)
      ∷ ("cookie", words mount.csrf_cookie_name)
      ∷ ("binding", words (if is_none key then "anonymous" else "session"))
      ∷ []

  issue_csrf : Option CsrfProtector → Request → Http (Response Body)
  unfolding csrf_context_key token_value
  issue_csrf none request = abort 404 "csrf is not enabled"
  issue_csrf (some p) request = do
    key ← attempt nothing_caught (csrf_context_key host svc mount request)
    nonce ← attempt nothing_caught (generate_token host)
    let token = csrf_token_for p nonce key
    respond (record {
      body = csrf_body token key;
      cookies =
          set_cookie mount.csrf_cookie_name (token_value token) false mount.secure_cookies
            mount.csrf_cookie_samesite
          ∷ [];
    })

  unfoldable pub csrf : Request → Http (Response Body)
  unfolding issue_csrf
  csrf request = issue_csrf mount.csrf_protector request

  -- The reply with a new session, which `login` and `magic_link_consume` share.
  unfoldable pub session_reply : IssuedSession → Response Body
  unfolding session_cookie
  session_reply issued = record {
    body =
        ("ok", truth true)
        ∷ ("user_id", words issued.session.user_id)
        ∷ ("expires_at", moment issued.session.expires_at)
        ∷ [];
    cookies = session_cookie issued.token ∷ [];
  }

  unfoldable pub login : String → String → Request → Http (Response Body)
  unfolding require_csrf login_password request_context session_reply
  login email password request = do
    require_csrf host svc mount request false
    issued ←
        attempt (every_refusal 401)
          (login_password host svc email password (some (request_context request)))
    respond (session_reply issued)

  -- The reply to a request for a link: the limit of its flow, and the token for development.
  unfoldable pub challenge_reply : MagicLinkChallenge → Response Body
  challenge_reply challenge = plain (
      ("ok", truth true)
      ∷ ("expires_at", moment challenge.flow.expires_at)
      ∷ debug_fields mount.expose_magic_link_token (("debug_token", words challenge.token) ∷ []))

  unfoldable pub magic_link_request : String → String → Request → Http (Response Body)
  unfolding require_csrf request_magic_link challenge_reply
  magic_link_request email return_to request = do
    require_csrf host svc mount request false
    challenge ← attempt (every_refusal 400) (request_magic_link host svc email (some return_to))
    respond (challenge_reply challenge)

  unfoldable pub magic_link_consume : String → Request → Http (Response Body)
  unfolding require_csrf consume_magic_link request_context session_reply
  magic_link_consume token request = do
    require_csrf host svc mount request false
    issued ←
        attempt (denials 401) (consume_magic_link host svc token (some (request_context request)))
    respond (session_reply issued)

  -- The `except` clauses of `email_verification_request`: an account that is missing or inactive
  -- is no error.
  unfoldable pub verification_reply : Result MagicLinkChallenge → Reply (Response Body)
  unfolding challenge_reply
  verification_reply (raise (authentication_failed m)) = done (plain (("ok", truth true) ∷ []))
  verification_reply (raise e) = reply_of (every_refusal 400) (raise e)
  verification_reply (ok challenge) = done (challenge_reply challenge)

  request_verification : String → Http (Response Body)
  unfolding request_email_verification verification_reply
  request_verification email w =
      let (r, w') = request_email_verification host svc none (some email) w in
      (verification_reply r, w')

  unfoldable pub email_verification_request : String → Request → Http (Response Body)
  unfolding require_csrf request_verification
  email_verification_request email request = do
    require_csrf host svc mount request false
    request_verification email

  unfoldable pub email_verification_consume : String → Request → Http (Response Body)
  unfolding require_csrf consume_email_verification
  email_verification_consume token request = do
    require_csrf host svc mount request false
    user ← attempt (failures 401) (consume_email_verification host svc token)
    respond (
        plain (
          ("ok", truth true)
          ∷ ("user_id", words user.id)
          ∷ ("email_verified", truth user.primary_email_verified)
          ∷ []))

  -- Whether the flow of a reset that was asked for is in the storage.
  abbrev pub is_stored : MagicLinkChallenge → Storage → Bool
  unfolding get_login_flow_by_state_hash
  is_stored challenge s =
      not (is_none (get_login_flow_by_state_hash (get_or challenge.flow.state_hash "") s))

  unfoldable pub password_reset_request : String → Request → Http (Response Body)
  unfolding require_csrf request_password_reset
  password_reset_request email request = do
    require_csrf host svc mount request false
    challenge ← attempt nothing_caught (request_password_reset host svc email)
    stored ← attempt nothing_caught (query (is_stored challenge))
    respond (
        plain (
          ("ok", truth true)
          ∷ debug_fields (mount.expose_magic_link_token && stored) (
              ("debug_token", words challenge.token)
              ∷ ("expires_at", moment challenge.flow.expires_at)
              ∷ [])))

  unfoldable pub password_reset_consume : String → String → Request → Http (Response Body)
  unfolding require_csrf consume_password_reset
  password_reset_consume token password request = do
    require_csrf host svc mount request false
    attempt (failures 401) (consume_password_reset host svc token password)
    respond (plain (("ok", truth true) ∷ []))

  end_session_of : Option String → Http (Unit {0})
  unfolding logout
  end_session_of none = respond tt
  end_session_of (some token) =
      if is_text token then attempt nothing_caught (logout host svc token) else respond tt

  -- The route of `logout`.
  unfoldable pub logout_route : Request → Http (Response Body)
  unfolding require_csrf token_from_request end_session_of
  logout_route request = do
    require_csrf host svc mount request true
    end_session_of (token_from_request mount request)
    respond
        (record { body = ("ok", truth true) ∷ []; cookies = delete_cookie mount.cookie_name ∷ [] })

  -- `me` checks a session as the dependency of `require_session` does.
  unfoldable pub me : Request → Http (Response Body)
  unfolding require_session
  me request = do
    principal ← require_session host svc mount request
    respond (
        plain (
          ("id", words principal.user.id)
          ∷ ("email", words principal.user.primary_email)
          ∷ ("role", words (role_value principal.session.role))
          ∷ ("permissions", roll principal.session.permissions)
          ∷ []))
