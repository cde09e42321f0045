-- ===== src/Http.antt =====
-- src/coreline_auth/fastapi_adapter.py: what a route gets and replies. A route returns, raises an
-- `HTTPException` with a status and a detail, or lets an exception of the service through.
pub mod Gate
mod Replies
mod Tests
pub mod Routes
pub mod AdminRoutes
use coreline_auth_module.Common.{ℕ, String, Bool, Option, some, none, List}
use coreline_auth_module.Common.Dict
use coreline_auth_module.Common.Dict.{Dict}
use coreline_auth_module.Common.Text.{lower}
use coreline_auth_module.Csrf.{CsrfProtector}
use coreline_auth_module.Errors.{
  Error, Result, ok, raise, configuration, validation, authentication_failed, authorization_denied,
  storage, value_error,
}
use coreline_auth_module.Models.{RequestContext, Fields}
use coreline_auth_module.World.{World, Action}

-- A request: its cookies, its headers by their names in lower case, the credentials that
-- `HTTPBearer` finds (the scheme and the token), and the address of the client.
pub record Request : Type 0 where
  pub cookies : Dict String
  pub headers : Dict String
  pub credentials : Option (String × String)
  pub client : Option String

-- `request.headers.get(name)`
abbrev pub header : String → Request → Option String
header name request = Dict.get (lower name) request.headers

-- `request_context`
unfoldable pub request_context : Request → RequestContext
unfolding lower
request_context request = record { ip = request.client; user_agent = header "user-agent" request }

-- The arguments of `mount_auth_routes` and `mount_admin_routes`.
pub record Mount : Type 0 where
  pub cookie_name : String
  pub secure_cookies : Bool
  pub expose_magic_link_token : Bool
  pub csrf_protector : Option CsrfProtector
  pub csrf_cookie_name : String
  pub csrf_header_name : String
  pub csrf_cookie_samesite : String

pub data Reply {ℓ} (A : Type ℓ) : Type ℓ where
  done : A → Reply A
  http_exception : ℕ → String → Reply A
  uncaught : Error → Reply A

abbrev pub Http {ℓ} : Type ℓ → Type ℓ
Http A = World → Reply A × World

abbrev pub proceed {ℓ κ} : {A : Type ℓ} {B : Type κ} → Reply A → (A → Http B) → Http B
proceed (done a) f w = f a w
proceed (http_exception status detail) f w = (http_exception status detail, w)
proceed (uncaught e) f w = (uncaught e, w)

infixl 5 ◌>>=◌ ◌>>◌
unfoldable pub ◌>>=◌ {ℓ κ} : {A : Type ℓ} {B : Type κ} → Http A → (A → Http B) → Http B
◌>>=◌ m f w = let (r, w') = m w in proceed r f w'

abbrev pub ◌>>◌ {ℓ κ} : {A : Type ℓ} {B : Type κ} → Http A → Http B → Http B
m >> k = m >>= λ _. k

abbrev pub respond {ℓ} : {A : Type ℓ} → A → Http A
respond a w = (done a, w)

abbrev pub abort {ℓ} : {A : Type ℓ} → ℕ → String → Http A
abort status detail w = (http_exception status detail, w)

-- `str(exc)`
abbrev pub message : Error → String
message (configuration m) = m
message (validation m) = m
message (authentication_failed m) = m
message (authorization_denied m) = m
message (storage m) = m
message (value_error m) = m

abbrev replied {ℓ} : {A : Type ℓ} → Error → Option ℕ → Reply A
replied e (some status) = http_exception status (message e)
replied e none = uncaught e

abbrev pub reply_of {ℓ} : {A : Type ℓ} → (Error → Option ℕ) → Result A → Reply A
reply_of handler (ok a) = done a
reply_of handler (raise e) = replied e (handler e)

-- A call of the service, with the status for each exception that the route catches.
unfoldable pub attempt {ℓ} : {A : Type ℓ} → (Error → Option ℕ) → Action A → Http A
attempt handler m w = let (r, w') = m w in (reply_of handler r, w')

-- The `except` clauses of the routes.
abbrev pub every_refusal : ℕ → Error → Option ℕ
every_refusal status (authentication_failed m) = some status
every_refusal status (authorization_denied m) = some status
every_refusal status (validation m) = some status
every_refusal status e = none

abbrev pub denials : ℕ → Error → Option ℕ
denials status (authentication_failed m) = some status
denials status (authorization_denied m) = some status
denials status e = none

abbrev pub failures : ℕ → Error → Option ℕ
failures status (authentication_failed m) = some status
failures status e = none

abbrev pub invalid_as : ℕ → Error → Option ℕ
invalid_as status (validation m) = some status
invalid_as status e = none

abbrev pub nothing_caught : Error → Option ℕ
nothing_caught e = none

-- A failed login or session is 401, and a denied permission 403.
abbrev pub by_kind : Error → Option ℕ
by_kind (authentication_failed m) = some 401
by_kind (authorization_denied m) = some 403
by_kind e = none

pub data Cookie : Type 0 where
  -- name, value, `httponly`, `secure` and `samesite`; the path is "/"
  set_cookie : String → String → Bool → Bool → String → Cookie
  delete_cookie : String → Cookie

-- What a route returns, with the cookies that it sets.
pub record Response {ℓ} (A : Type ℓ) : Type ℓ where
  pub body : A
  pub cookies : List Cookie

-- The values of a body: `moment` is a time, which `isoformat` or `to_iso` prints.
pub data BodyValue : Type 0 where
  null : BodyValue
  truth : Bool → BodyValue
  words : String → BodyValue
  moment : ℕ → BodyValue
  roll : List String → BodyValue
  details : Fields → BodyValue

-- A dictionary of the code, in the order that it is written in.
abbrev pub Body : Type 0
Body = Dict BodyValue
