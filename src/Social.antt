-- ===== src/Social.antt =====
-- src/coreline_auth/social/_utils.py: the checks of the connectors that need no exchange with a
-- provider. A JSON value is `none` where it is no text.
pub mod Urls
mod Tests
use Prim.Native.Char.{code}
use Prim.Native.String
use coreline_auth_module.Common.{
  ℕ, String, Bool, true, false, not, ◌&&◌, ◌||◌, Option, some, none, List, [], ◌∷◌, any, ltb, leb,
  eqb, is_text, has_text, is_none, get_or, ◌==◌, if◌then◌else◌,
}
use coreline_auth_module.Common.Text.{lower, strip, is_space}
use coreline_auth_module.Common.Dict
use coreline_auth_module.Common.Dict.{Dict}
use coreline_auth_module.Errors.{
  Result, ok, raise, raise_if, ◌>>=◌, ◌>>◌, configuration, authentication_failed, value_error,
}
use coreline_auth_module.Models.{Value, text, Fields, end, field}

-- `_optional_string`, of a value that is a text.
unfoldable pub optional_string : Option String → Option String
unfolding strip
optional_string none = none
optional_string (some value) =
    let stripped = strip value in if is_text stripped then some stripped else none

required_found : String → Option String → Result String
required_found key none = raise (configuration (String.◌++◌ "missing required string field: " key))
required_found key (some value) = ok value

-- `_required_string`, of the texts of a document.
unfoldable pub required_string : Dict String → String → Result String
unfolding required_found optional_string
required_string doc key = required_found key (optional_string (Dict.get key doc))

token_found : Option String → Result String
token_found none = raise (authentication_failed "provider did not return an access token")
token_found (some token) = ok token

-- `_extract_access_token`
unfoldable pub extract_access_token : Dict String → Result String
unfolding token_found optional_string
extract_access_token doc = token_found (optional_string (Dict.get "access_token" doc))

-- A claim is a Boolean, a text, or something else.
pub data Claim : Type 0 where
  flag : Bool → Claim
  words : String → Claim
  otherwise : Claim

claim_holds : Claim → Bool
unfolding lower strip
claim_holds (Claim.flag b) = b
claim_holds (Claim.words s) = let t = lower (strip s) in t == "true" || t == "1"
claim_holds Claim.otherwise = false

-- `_email_verified_from_claim`
unfoldable pub email_verified_from_claim : Claim → Option String → Bool
unfolding claim_holds
email_verified_from_claim claim none = false
email_verified_from_claim claim (some email) = claim_holds claim

-- `redact_token_response`
abbrev is_token_key : String → Bool
is_token_key key =
    any (λ k. k == key)
      ("access_token" ∷ "refresh_token" ∷ "id_token" ∷ "token" ∷ "client_secret" ∷ [])

unfoldable pub redact_token_response : Fields → Fields
unfolding lower
redact_token_response end = end
redact_token_response (field key v fs) =
    field key (if is_token_key (lower key) then text "[REDACTED]" else v) (redact_token_response fs)

-- What `urlsplit` finds in a URL.
pub record UrlParts : Type 0 where
  pub scheme : String
  pub netloc : String
  pub path : String
  pub query : String
  pub fragment : String
  pub username : Option String
  pub password : Option String
  pub hostname : Option String

abbrev pub is_local_host : Option String → Bool
is_local_host none = false
is_local_host (some h) = h == "localhost" || h == "127.0.0.1" || h == "::1"

-- `value.rstrip("/")`
strip_slashes : String → String
strip_slashes String.[] = String.[]
strip_slashes (String.◌∷◌ c s) =
    let rest = strip_slashes s in
    if eqb (code c) b'/' && rest == "" then String.[] else String.◌∷◌ c rest

abbrev pub is_bare : String → Bool
is_bare path = path == "" || path == "/"

module _ (urlsplit : String → UrlParts) where
  -- `_normalize_provider_url`
  unfoldable pub normalize_provider_url : String → String → Bool → Result String
  unfolding strip_slashes
  normalize_provider_url name value allow_path = do
    let parsed = urlsplit value
    raise_if
        (not (parsed.scheme == "http" || parsed.scheme == "https") || not (is_text parsed.netloc))
        (configuration (String.◌++◌ name " must be an absolute http(s) URL"))
    raise_if (has_text parsed.username || has_text parsed.password)
        (configuration (String.◌++◌ name " must not include credentials"))
    raise_if (is_text parsed.fragment)
        (configuration (String.◌++◌ name " must not include a URL fragment"))
    raise_if (parsed.scheme == "http" && not (is_local_host parsed.hostname))
        (configuration (String.◌++◌ name " must use https outside localhost"))
    raise_if (not allow_path && not (is_bare parsed.path))
        (configuration (String.◌++◌ name " must not include a path"))
    ok (if is_bare parsed.path && not (is_text parsed.query) then strip_slashes value else value)

-- The characters that a PKCE verifier may have.
abbrev is_unreserved : ℕ → Bool
is_unreserved c =
    leb b'A' c && leb c b'Z'
    || leb b'a' c && leb c b'z'
    || leb b'0' c && leb c b'9'
    || eqb c b'-'
    || eqb c b'.'
    || eqb c b'_'
    || eqb c b'~'

all_chars : (ℕ → Bool) → String → Bool
all_chars p String.[] = true
all_chars p (String.◌∷◌ c s) = p (code c) && all_chars p s

-- `_validate_code_verifier`
unfoldable pub validate_code_verifier : String → Result (Unit {0})
unfolding all_chars
validate_code_verifier v = do
  raise_if (not (all_chars (λ c. ltb c 128) v)) (value_error "PKCE code_verifier must be ASCII")
  raise_if (ltb (String.count v) 43 || ltb 128 (String.count v))
      (value_error "PKCE code_verifier must be between 43 and 128 characters")
  raise_if (not (all_chars is_unreserved v))
      (value_error "PKCE code_verifier contains characters outside RFC 7636 unreserved set")
  ok tt
