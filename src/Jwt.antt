-- ===== src/Jwt.antt =====
-- src/coreline_auth/social/verification.py: compact JWTs, and the RSA key of a key set. A text of
-- bytes is the list of their values.
use Prim.Native.String
use coreline_auth_module.Common.{
  ℕ, zero, suc, ◌+◌, ◌*◌, ◌-◌, ◌%◌, String, Bool, not, Option, some, none, List, [], ◌∷◌,
  if◌then◌else◌,
}
use coreline_auth_module.Common.Text.{split}
use coreline_auth_module.Errors.{
  Result, ok, raise, raise_if, ◌>>=◌, ◌>>◌, authentication_failed, value_error,
}
use coreline_auth_module.Json.{
  Json, Jsons, nil, cons, Members, lookup, as_text, as_object, holds_text,
}
use coreline_auth_module.Social.{optional_string}

-- The libraries that the verification calls.
pub record JwtLibraries : Type 1 where
  pub RsaKey : Type 0
  -- `base64.urlsafe_b64decode`, or `none` for its exceptions
  pub urlsafe_b64decode : String → Option (List ℕ)
  -- `json.loads`, or `none` for its exceptions
  pub loads : List ℕ → Option Json
  -- `RSAPublicNumbers(e, n).public_key()`, or `none` for its `ValueError`
  pub public_key : ℕ → ℕ → Option RsaKey
  -- whether `verify(signature, signing_input, PKCS1v15(), SHA256())` returns
  pub verify : RsaKey → List ℕ → String → Bool

pub record Jwt : Type 0 where
  pub header : Members
  pub payload : Members
  pub signing_input : String
  pub signature : List ℕ

abbrev not_json {ℓ} : {A : Type ℓ} → Result A
not_json = raise (authentication_failed "ID token is not valid base64url JSON")

-- A value, or the exception that `_decode_jwt` turns every decoding error into.
abbrev pub decoded_or {ℓ} : {A : Type ℓ} → Option A → Result A
decoded_or none = not_json
decoded_or (some a) = ok a

-- `_json_object`
abbrev pub object_or : String → Option Members → Result Members
object_or context none =
    raise (authentication_failed (String.◌++◌ context " must be a JSON object"))
object_or context (some ms) = ok ms

-- An error of a library that is not caught.
abbrev pub uncaught {ℓ} : {A : Type ℓ} → Option A → Result A
uncaught none = raise (value_error "invalid key")
uncaught (some a) = ok a

abbrev padding_of : ℕ → String
padding_of zero = ""
padding_of (suc n) = String.◌∷◌ "=" (padding_of n)

-- `value + "=" * ((-len(value)) % 4)`
unfoldable pub padded : String → String
padded value = String.◌++◌ value (padding_of ((4 - String.count value % 4) % 4))

-- `int.from_bytes(bytes, "big")`
big_endian : ℕ → List ℕ → ℕ
big_endian acc [] = acc
big_endian acc (b ∷ bs) = big_endian (acc * 256 + b) bs

module _ (lib : JwtLibraries) where
  open lib use {RsaKey}

  decode_object : String → String → Result Members
  unfolding padded
  decode_object context part = do
    bytes ← decoded_or (lib.urlsafe_b64decode (padded part))
    value ← decoded_or (lib.loads bytes)
    object_or context (as_object value)

  decode_parts : List String → Result Jwt
  unfolding decode_object padded
  decode_parts (h ∷ p ∷ s ∷ []) = do
    header ← decode_object "ID token header" h
    payload ← decode_object "ID token payload" p
    signature ← decoded_or (lib.urlsafe_b64decode (padded s))
    ok (record {
      header = header;
      payload = payload;
      signing_input = String.◌++◌ h (String.◌∷◌ "." p);
      signature = signature;
    })
  decode_parts other = raise (authentication_failed "ID token must be a compact JWT")

  -- `_decode_jwt`
  unfoldable pub decode_jwt : String → Result Jwt
  unfolding decode_parts split
  decode_jwt token = decode_parts (split b'.' token)

  -- `_b64url_int`
  b64url_int : String → Result ℕ
  unfolding padded big_endian
  b64url_int value = do
    bytes ← uncaught (lib.urlsafe_b64decode (padded value))
    ok (big_endian 0 bytes)

  rsa_key : Option String → Option String → Result RsaKey
  unfolding b64url_int
  rsa_key (some n) (some e) = do
    exponent ← b64url_int e
    modulus ← b64url_int n
    uncaught (lib.public_key exponent modulus)
  rsa_key n e = raise (authentication_failed "RSA JWK missing modulus or exponent")

  -- The body of the loop for the key that has the id.
  key_of : Members → Result RsaKey
  unfolding rsa_key optional_string lookup
  key_of jwk = do
    raise_if (not (holds_text "kty" "RSA" jwk)) (authentication_failed "ID token key must be RSA")
    rsa_key (optional_string (as_text (lookup "n" jwk)))
        (optional_string (as_text (lookup "e" jwk)))

  unfoldable pub find_key : String → Jsons → Result RsaKey
  unfolding key_of lookup
  find_key kid nil = raise (authentication_failed "ID token kid not found in JWKS")
  find_key kid (cons raw keys) =
      let rest = find_key kid keys in
      elim (as_object raw) [
        | none ↦ rest
        | some jwk ↦ if holds_text "kid" kid jwk then key_of jwk else rest
      ]

  key_in : String → Option Json → Result RsaKey
  unfolding find_key
  key_in kid (some (Json.array keys)) = find_key kid keys
  key_in kid other = raise (authentication_failed "JWKS keys must be a list")

  -- `_jwk_for_kid`
  unfoldable pub jwk_for_kid : Members → String → Result RsaKey
  unfolding key_in lookup
  jwk_for_kid jwks kid = key_in kid (lookup "keys" jwks)

  -- `_verify_rs256_signature`
  unfoldable pub verify_rs256_signature : RsaKey → Jwt → Result (Unit {0})
  verify_rs256_signature key jwt =
      raise_if (not (lib.verify key jwt.signature jwt.signing_input))
        (authentication_failed "ID token signature verification failed")
