-- ===== src/IdToken/Claims.antt =====
-- verification.py: what an accepted ID token says and who signed it.
use coreline_auth_module.Common.{
  not-false, ℕ, String, ◌≡◌, refl, ap, subst, ◌∙◌, Bool, true, false, not, Option, some, none, List,
  arith, length, ltb, eq_iff,
}
use coreline_auth_module.Errors.{
  ok, then-eq_ok, bind-eq_ok, raise_if-eq_ok, guard-eq_ok, ok-injective,
}
use coreline_auth_module.Json.{Members, lookup, holds_text}
use coreline_auth_module.Jwt.{JwtLibraries, Jwt, decode_jwt, jwk_for_kid, verify_rs256_signature}
use coreline_auth_module.IdToken.{
  Audience, one, many, IdTokenClaims, Expected, text_claim, is_in, is_text_of, require_claim,
  check_issuer, read_audience, audience_ok, expected_party, azp_unless, expected_azp_unless,
  check_azp, check_nonce, check_times, check_claims, verify_oidc_id_token,
}
use coreline_auth_module.IdToken.Times.{IsTimely, check_times_lem}
use coreline_auth_module.IdToken.Audiences.{
  json_of, read_audience_lem, IsVouched, email_verified-IsVouched,
}

is_text_of_lem : (t : String) (o : Option String) → is_text_of t o ≡ true → o ≡ some t
is_text_of_lem t none h = absurd (ground (arith, h))
is_text_of_lem t (some s) h = ap some ((eq_iff s t).0 h)

check_nonce_lem :
    (expected found : Option String) → check_nonce expected found ≡ ok tt → found ≡ expected
unfolding check_nonce
check_nonce_lem none none h = refl
check_nonce_lem none (some t) h = absurd (ground (arith, h))
check_nonce_lem (some n) found h =
    is_text_of_lem n found (not-false (raise_if-eq_ok (not (is_text_of n found)) _ h))

check_issuer_lem :
    (issuers : List String) (found : Option String) (issuer : String)
    → check_issuer issuers found ≡ ok issuer
    → (found ≡ some issuer) × (is_in issuer issuers ≡ true)
unfolding check_issuer
check_issuer_lem issuers none issuer h = absurd (ground (arith, h))
check_issuer_lem issuers (some s) issuer h =
    let (named, last) = guard-eq_ok (not (is_in s issuers)) _ _ h in
    let same = ok-injective s issuer last in
    (ap some same, subst (λ i. is_in i issuers ≡ true) same (not-false named))

require_claim_lem :
    (found : Option String) (message s : String)
    → require_claim found message ≡ ok s
    → found ≡ some s
require_claim_lem none message s h = absurd (ground (arith, h))
require_claim_lem (some t) message s h = ap some (ok-injective t s h)

abbrev pub is_many : Audience → Bool
is_many (one t) = false
is_many (many ts) = ltb 1 (length ts)

-- A token of several audiences names the party that is expected, or else the audience that is; one
-- of a single audience names the party if one is expected.
pub record IsPartyOf (x : Expected) (audience : Audience) (azp : Option String) : Type 0 where
  pub of_many : is_many audience ≡ true → azp ≡ some (expected_party x)
  pub of_one : (party : String) → is_many audience ≡ false → x.azp ≡ some party → azp ≡ some party

expected_azp_lem :
    (expected azp : Option String) (party : String)
    → expected_azp_unless expected azp ≡ ok tt
    → expected ≡ some party
    → azp ≡ some party
unfolding expected_azp_unless azp_unless
expected_azp_lem none azp party h e = absurd (ground (arith, e))
expected_azp_lem (some p) azp party h e =
    is_text_of_lem p azp (not-false (raise_if-eq_ok (not (is_text_of p azp)) _ h)) ∙ e

check_azp_lem :
    (x : Expected) (audience : Audience) (azp : Option String)
    → check_azp x audience azp ≡ ok tt
    → IsPartyOf x audience azp
unfolding check_azp azp_unless
check_azp_lem x (one t) azp h = record {
  of_many = λ e. absurd (ground (arith, e));
  of_one = λ party e. expected_azp_lem x.azp azp party h;
}
check_azp_lem x (many ts) azp h = record {
  of_many = λ e.
      is_text_of_lem (expected_party x) azp
        (not-false (raise_if-eq_ok (not (is_text_of (expected_party x) azp)) _ (rw e at h)));
  of_one = λ party e. expected_azp_lem x.azp azp party (rw e at h);
}

-- The claims of a payload that are accepted.
pub record IsAcceptable (x : Expected) (payload : Members) (current : ℕ) (c : IdTokenClaims)
    : Type 0 where
  pub issuer : text_claim "iss" payload ≡ some c.issuer
  pub issuer_known : is_in c.issuer x.issuers ≡ true
  pub subject : text_claim "sub" payload ≡ some c.subject
  pub of_aud : lookup "aud" payload ≡ some (json_of c.audience)
  pub audience : audience_ok x.audience c.audience ≡ true
  pub of_azp : c.authorized_party ≡ text_claim "azp" payload
  pub party : IsPartyOf x c.audience c.authorized_party
  pub timely : IsTimely x payload current c.expires_at c.issued_at
  pub of_nonce : c.nonce ≡ text_claim "nonce" payload
  pub nonce : c.nonce ≡ x.nonce
  pub of_email : c.email ≡ text_claim "email" payload
  pub vouched : c.email_verified ≡ true → IsVouched (lookup "email_verified" payload) c.email
  pub of_name : c.name ≡ text_claim "name" payload
  pub of_picture : c.picture ≡ text_claim "picture" payload

check_claims_lem :
    (x : Expected) (payload : Members) (current : ℕ) (c : IdTokenClaims)
    → check_claims x payload current ≡ ok c
    → IsAcceptable x payload current c
unfolding check_claims
check_claims_lem x payload current c h =
    let (issuer, d1, h1) = bind-eq_ok (check_issuer x.issuers (text_claim "iss" payload)) _ h in
    let (subject, d2, h2) =
      bind-eq_ok (require_claim (text_claim "sub" payload) "ID token missing subject") _ h1 in
    let (audience, d3, h3) = bind-eq_ok (read_audience (lookup "aud" payload)) _ h2 in
    let (of_audience, h4) = guard-eq_ok (not (audience_ok x.audience audience)) _ _ h3 in
    let (party, h5) = then-eq_ok (check_azp x audience (text_claim "azp" payload)) _ h4 in
    let (times, d4, h6) = bind-eq_ok (check_times x payload current) _ h5 in
    let (nonce, last) = then-eq_ok (check_nonce x.nonce (text_claim "nonce" payload)) _ h6 in
    let (found, known) = check_issuer_lem x.issuers _ issuer d1 in
    let timely = check_times_lem x payload current times.0 times.1 d4 in
    subst (IsAcceptable x payload current) (ok-injective _ c last) (record {
      issuer = found;
      issuer_known = known;
      subject = require_claim_lem (text_claim "sub" payload) "ID token missing subject" subject d2;
      of_aud = read_audience_lem (lookup "aud" payload) audience d3;
      audience = not-false of_audience;
      of_azp = refl;
      party = check_azp_lem x audience (text_claim "azp" payload) party;
      timely = timely;
      of_nonce = refl;
      nonce = check_nonce_lem x.nonce (text_claim "nonce" payload) nonce;
      of_email = refl;
      vouched =
          email_verified-IsVouched (lookup "email_verified" payload) (text_claim "email" payload);
      of_name = refl;
      of_picture = refl;
    })

-- The key of the key set that the header names signed the header and the payload.
pub record IsSignedBy (lib : JwtLibraries) (jwks : Members) (jwt : Jwt) : Type 0 where
  pub kid : String
  pub key : lib.RsaKey
  pub algorithm : holds_text "alg" "RS256" jwt.header ≡ true
  pub named : text_claim "kid" jwt.header ≡ some kid
  pub of_set : jwk_for_kid lib jwks kid ≡ ok key
  pub fits : lib.verify key jwt.signature jwt.signing_input ≡ true

-- An ID token that is accepted is a JWT that is signed with RS256 by the key of the set that its
-- header names. By its payload, the issuer is one of the expected; the claim `aud` is the expected
-- audience or a list that has it, and `azp` the expected party where the list is longer or a party
-- is expected; the token is not expired, `iat` and `nbf`, where given, are not ahead, and it is not
-- older than the maximal age, each by the leeway; and `nonce` is the expected one, or missing if
-- none is. The claims that are returned are those of the payload, and the e-mail counts as verified
-- only if the payload says so.
pub verify_oidc_id_token_sound :
    (lib : JwtLibraries) (id_token : String) (x : Expected) (jwks : Members) (current : ℕ)
    (c : IdTokenClaims)
    → verify_oidc_id_token lib id_token x jwks current ≡ ok c
    → (jwt : Jwt) × (decode_jwt lib id_token ≡ ok jwt)
      × IsSignedBy lib jwks jwt
      × IsAcceptable x jwt.payload current c
unfolding verify_oidc_id_token verify_rs256_signature
verify_oidc_id_token_sound lib id_token x jwks current c h =
    let (jwt, d, h1) = bind-eq_ok (decode_jwt lib id_token) _ h in
    let (algorithm, h2) = guard-eq_ok (not (holds_text "alg" "RS256" jwt.header)) _ _ h1 in
    let (kid, k, h3) =
      bind-eq_ok (require_claim (text_claim "kid" jwt.header) "ID token missing kid") _ h2 in
    let (key, of_set, h4) = bind-eq_ok (jwk_for_kid lib jwks kid) _ h3 in
    let (fits, last) = guard-eq_ok (not (lib.verify key jwt.signature jwt.signing_input)) _ _ h4 in
    (
      jwt,
      d,
      record {
        kid = kid;
        key = key;
        algorithm = not-false algorithm;
        named = require_claim_lem (text_claim "kid" jwt.header) "ID token missing kid" kid k;
        of_set = of_set;
        fits = not-false fits;
      },
      check_claims_lem x jwt.payload current c last,
    )
