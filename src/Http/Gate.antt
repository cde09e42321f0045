-- ===== src/Http/Gate.antt =====
-- fastapi_adapter.py: the token of a request, the check of CSRF tokens and the dependencies.
pub mod Passage
pub mod Upkeep
use coreline_auth_module.Common.{
  String, Bool, false, ◌&&◌, Option, some, none, is_text, has_text, get_or, ◌==◌, if◌then◌else◌,
}
use coreline_auth_module.Common.Dict
use coreline_auth_module.Common.Text.{lower, is_prefix}
use coreline_auth_module.Csrf.{CsrfProtector, verify_for_context, verify_global}
use coreline_auth_module.Errors.{Result, ok, raise, authentication_failed}
use coreline_auth_module.Host.{Host}
use coreline_auth_module.Models.{Principal}
use coreline_auth_module.Security.{hash_secret}
use coreline_auth_module.World.{Action, ◌>>=◌ as ◌then◌}
use coreline_auth_module.World.Actions.{lift}
use coreline_auth_module.Service.Config.{Service}
use coreline_auth_module.Service.Sessions.{verify_session}
use coreline_auth_module.Http.{
  Request, Mount, Http, header, ◌>>=◌, respond, abort, attempt, invalid_as, failures, by_kind,
}

bearer_or : Option String → Option (String × String) → Option String
unfolding lower
bearer_or cookie none = cookie
bearer_or cookie (some (scheme, token)) = if lower scheme == "bearer" then some token else cookie

-- `token_from_request`
unfoldable pub token_from_request : Mount → Request → Option String
unfolding bearer_or
token_from_request mount request =
    bearer_or (Dict.get mount.cookie_name request.cookies) request.credentials

-- `authorization.lower().startswith("bearer ")`
unfoldable pub is_bearer : Request → Bool
unfolding lower is_prefix
is_bearer request = is_prefix "bearer " (lower (get_or (header "authorization" request) ""))

-- The comparison in constant time raises for texts outside ASCII, which is left out.
-- `not header_token or not cookie_token or not hmac.compare_digest(header_token, cookie_token)`,
-- negated.
abbrev pub doubly_submitted : Option String → Option String → Bool
doubly_submitted (some h) (some c) = is_text h && is_text c && h == c
doubly_submitted _ _ = false

module _ (host : Host) (svc : Service) (mount : Mount) where
  -- An authentication that fails is no context, and not an error.
  key_or_none : String → Result Principal → Result (Option String)
  unfolding hash_secret
  key_or_none token (ok p) = ok (some (hash_secret host token))
  key_or_none token (raise (authentication_failed m)) = ok none
  key_or_none token (raise e) = raise e

  context_of : Option String → Action (Option String)
  unfolding key_or_none verify_session
  context_of none w = (ok none, w)
  context_of (some token) w =
      if is_text token
      then (let (r, w') = verify_session host svc token none w in (key_or_none token r, w'))
      else (ok none, w)

  -- `csrf_context_key`
  unfoldable pub csrf_context_key : Request → Action (Option String)
  unfolding context_of
  csrf_context_key request = context_of (Dict.get mount.cookie_name request.cookies)

  -- The check of the token for the session's key, or as an anonymous one.
  unfoldable pub verify_in : CsrfProtector → String → Option String → Result (Unit {0})
  unfolding verify_global verify_for_context
  verify_in p token (some key) = verify_for_context host p token key
  verify_in p token none = verify_global host p token

  -- The block whose `AuthValidationError` is a 403.
  verify_csrf : CsrfProtector → String → Request → Action (Unit {0})
  unfolding csrf_context_key verify_in
  verify_csrf p token request = csrf_context_key request then (λ key. lift (verify_in p token key))

  csrf_with : Option CsrfProtector → Request → Bool → Http (Unit {0})
  unfolding verify_csrf
  csrf_with none request cookie_auth_required =
      if cookie_auth_required && has_text (Dict.get mount.cookie_name request.cookies)
      then abort 403 "csrf protection is required for cookie-authenticated requests"
      else respond tt
  csrf_with (some p) request cookie_auth_required =
      if doubly_submitted (header mount.csrf_header_name request)
        (Dict.get mount.csrf_cookie_name request.cookies)
      then attempt (invalid_as 403)
          (verify_csrf p (get_or (header mount.csrf_header_name request) "") request)
      else abort 403 "missing or invalid csrf token"

  -- `require_csrf`
  unfoldable pub require_csrf : Request → Bool → Http (Unit {0})
  unfolding is_bearer csrf_with
  require_csrf request cookie_auth_required =
      if is_bearer request
      then respond tt
      else csrf_with mount.csrf_protector request cookie_auth_required

  -- `if not token: raise HTTPException(401)`
  token_or_401 : Option String → Http String
  token_or_401 none = abort 401 "missing session"
  token_or_401 (some token) = if is_text token then respond token else abort 401 "missing session"

  -- `require_token`
  unfoldable pub require_token : Request → Http String
  unfolding token_from_request token_or_401
  require_token request = token_or_401 (token_from_request mount request)

  -- The dependency of `require_session`.
  unfoldable pub require_session : Request → Http Principal
  unfolding require_token verify_session
  require_session request = do
    token ← require_token request
    attempt (failures 401) (verify_session host svc token none)

  -- The dependency of `require_permission`.
  unfoldable pub require_permission : String → Request → Http Principal
  unfolding require_token verify_session
  require_permission permission request = do
    token ← require_token request
    attempt by_kind (verify_session host svc token (some permission))
