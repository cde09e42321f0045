-- ===== src/IdToken.antt =====
-- src/coreline_auth/social/verification.py: the claims of an ID token.
pub mod Times
pub mod Audiences
pub mod Claims
mod Tests
use Prim.Native.String
use coreline_auth_module.Common.{
  ℕ, suc, ◌+◌, String, Bool, true, false, not, ◌&&◌, ◌||◌, Option, some, none, List, [], ◌∷◌, any,
  length, ltb, is_none, get_or, has_text, ◌==◌, if◌then◌else◌,
}
use coreline_auth_module.Common.Int.{ℤ, pos, ◌+ℤ◌, ◌-ℤ◌, ltz}
use coreline_auth_module.Errors.{Result, ok, raise, raise_if, ◌>>=◌, ◌>>◌, authentication_failed}
use coreline_auth_module.Json.{
  Json, Jsons, nil, cons, Members, lookup, as_text, as_int, as_object, holds_text,
}
use coreline_auth_module.Jwt.{JwtLibraries, Jwt, decode_jwt, jwk_for_kid, verify_rs256_signature}
use coreline_auth_module.Social.{optional_string, email_verified_from_claim, Claim}

-- `str | tuple[str, ...]`
pub data Audience : Type 0 where
  one : String → Audience
  many : List String → Audience

pub record IdTokenClaims : Type 0 where
  pub issuer : String
  pub subject : String
  pub audience : Audience
  pub expires_at : ℤ
  pub issued_at : Option ℤ
  pub email : Option String
  pub email_verified : Bool
  pub name : Option String
  pub picture : Option String
  pub nonce : Option String
  pub authorized_party : Option String

-- The arguments of `verify_oidc_id_token`; a single issuer is a set of one.
pub record Expected : Type 0 where
  pub audience : String
  pub issuers : List String
  pub nonce : Option String
  pub azp : Option String
  pub leeway_seconds : ℕ
  pub max_age_seconds : Option ℕ

-- `_optional_string(payload.get(key))`
abbrev pub text_claim : String → Members → Option String
text_claim key payload = optional_string (as_text (lookup key payload))

abbrev pub claim_of : Option Json → Claim
claim_of (some (Json.flag b)) = Claim.flag b
claim_of (some (Json.text t)) = Claim.words t
claim_of other = Claim.otherwise

abbrev pub is_in : String → List String → Bool
is_in t ts = any (λ x. x == t) ts

-- `a != b` of an optional text and a text, negated.
abbrev pub is_text_of : String → Option String → Bool
is_text_of t none = false
is_text_of t (some s) = s == t

abbrev pub require_claim : Option String → String → Result String
require_claim none message = raise (authentication_failed message)
require_claim (some s) message = ok s

check_issuer : List String → Option String → Result String
check_issuer issuers none = raise (authentication_failed "ID token issuer mismatch")
check_issuer issuers (some issuer) = do
  raise_if (not (is_in issuer issuers)) (authentication_failed "ID token issuer mismatch")
  ok issuer

-- The members of a list, if all are texts.
texts_of : Jsons → Option (List String)
texts_of nil = some []
texts_of (cons (Json.text t) xs) =
    let rest = texts_of xs in elim rest [ none ↦ none | some ts ↦ some (t ∷ ts) ]
texts_of (cons x xs) = none

audience_list : Option (List String) → Result Audience
audience_list none = raise (authentication_failed "ID token missing audience")
audience_list (some ts) = ok (Audience.many ts)

unfoldable pub read_audience : Option Json → Result Audience
unfolding texts_of audience_list
read_audience (some (Json.text t)) = ok (Audience.one t)
read_audience (some (Json.array xs)) = audience_list (texts_of xs)
read_audience other = raise (authentication_failed "ID token missing audience")

abbrev pub audience_ok : String → Audience → Bool
audience_ok audience (Audience.one t) = t == audience
audience_ok audience (Audience.many ts) = is_in audience ts

-- `expected_azp or audience`
abbrev pub expected_party : Expected → String
expected_party x = if has_text x.azp then get_or x.azp "" else x.audience

azp_unless : String → Option String → Result (Unit {0})
azp_unless party azp =
    raise_if (not (is_text_of party azp)) (authentication_failed "ID token azp mismatch")

expected_azp_unless : Option String → Option String → Result (Unit {0})
unfolding azp_unless
expected_azp_unless none azp = ok tt
expected_azp_unless (some party) azp = azp_unless party azp

-- The authorised party: of several audiences it has to be named.
unfoldable pub check_azp : Expected → Audience → Option String → Result (Unit {0})
unfolding azp_unless expected_azp_unless
check_azp x (Audience.many ts) azp =
    if ltb 1 (length ts) then azp_unless (expected_party x) azp else expected_azp_unless x.azp azp
check_azp x (Audience.one t) azp = expected_azp_unless x.azp azp

required_int : Option ℤ → Result ℤ
required_int none = raise (authentication_failed "ID token missing exp")
required_int (some n) = ok n

integer_or : String → Option ℤ → Result (Option ℤ)
integer_or message none = raise (authentication_failed message)
integer_or message (some n) = ok (some n)

-- A claim that may be missing or null, and is an integer otherwise.
optional_int : String → Option Json → Result (Option ℤ)
unfolding integer_or
optional_int message none = ok none
optional_int message (some Json.null) = ok none
optional_int message (some j) = integer_or message (as_int (some j))

-- `value is not None and value - leeway_seconds > current`
abbrev pub is_ahead : Option ℤ → ℕ → ℕ → Bool
is_ahead none leeway current = false
is_ahead (some t) leeway current = ltz (pos current) (t -ℤ pos leeway)

unfoldable pub check_age : Option ℕ → Option ℤ → ℕ → ℕ → Result (Unit {0})
check_age none iat leeway current = ok tt
check_age (some max_age) none leeway current = raise (authentication_failed "ID token missing iat")
check_age (some max_age) (some iat) leeway current =
    raise_if (ltz (pos (max_age + leeway)) (pos current -ℤ iat))
      (authentication_failed "ID token max age exceeded")

check_nonce : Option String → Option String → Result (Unit {0})
check_nonce none none = ok tt
check_nonce none (some t) = raise (authentication_failed "ID token nonce was not expected")
check_nonce (some n) token_nonce =
    raise_if (not (is_text_of n token_nonce)) (authentication_failed "ID token nonce mismatch")

-- The checks of the times: the expiry and the time of issue.
unfoldable pub check_times : Expected → Members → ℕ → Result (ℤ × Option ℤ)
unfolding required_int optional_int lookup check_age
check_times x payload current = do
  exp ← required_int (as_int (lookup "exp" payload))
  raise_if (ltz (exp +ℤ pos x.leeway_seconds) (pos current))
      (authentication_failed "ID token expired")
  iat ← optional_int "ID token invalid iat" (lookup "iat" payload)
  raise_if (is_ahead iat x.leeway_seconds current)
      (authentication_failed "ID token issued in the future")
  nbf ← optional_int "ID token invalid nbf" (lookup "nbf" payload)
  raise_if (is_ahead nbf x.leeway_seconds current) (authentication_failed "ID token not yet valid")
  check_age x.max_age_seconds iat x.leeway_seconds current
  ok (exp, iat)

-- What follows the check of the signature.
unfoldable pub check_claims : Expected → Members → ℕ → Result IdTokenClaims
unfolding check_issuer read_audience check_azp check_times check_nonce optional_string lookup
    email_verified_from_claim
check_claims x payload current = do
  issuer ← check_issuer x.issuers (text_claim "iss" payload)
  subject ← require_claim (text_claim "sub" payload) "ID token missing subject"
  audience ← read_audience (lookup "aud" payload)
  raise_if (not (audience_ok x.audience audience))
      (authentication_failed "ID token audience mismatch")
  check_azp x audience (text_claim "azp" payload)
  (exp, iat) ← check_times x payload current
  check_nonce x.nonce (text_claim "nonce" payload)
  let email = text_claim "email" payload
  ok (record {
    issuer = issuer;
    subject = subject;
    audience = audience;
    expires_at = exp;
    issued_at = iat;
    email = email;
    email_verified = email_verified_from_claim (claim_of (lookup "email_verified" payload)) email;
    name = text_claim "name" payload;
    picture = text_claim "picture" payload;
    nonce = text_claim "nonce" payload;
    authorized_party = text_claim "azp" payload;
  })

module _ (lib : JwtLibraries) where
  unfoldable pub verify_oidc_id_token : String → Expected → Members → ℕ → Result IdTokenClaims
  unfolding decode_jwt jwk_for_kid verify_rs256_signature check_claims optional_string lookup
  verify_oidc_id_token id_token x jwks current = do
    jwt ← decode_jwt lib id_token
    raise_if (not (holds_text "alg" "RS256" jwt.header))
        (authentication_failed "ID token must use RS256")
    kid ← require_claim (text_claim "kid" jwt.header) "ID token missing kid"
    key ← jwk_for_kid lib jwks kid
    verify_rs256_signature lib key jwt
    check_claims x jwt.payload current
