-- ===== src/WebAuthn.antt =====
-- src/coreline_auth/webauthn.py: the checks of a passkey's registration and assertion. A text of
-- bytes is the list of their values. The comparison in constant time is equality.
pub mod Checks
pub mod Assertions
mod Tests
use Prim.Native.Char.{code}
use Prim.Native.String
use coreline_auth_module.Common.{
  ℕ, zero, suc, ◌+◌, ◌*◌, ◌-◌, ◌/◌, ◌%◌, String, Bool, true, false, not, ◌&&◌, ◌||◌, Option, some,
  none, List, [], ◌∷◌, ◌++◌, length, take, drop, ltb, eqb, is_text, has_text, get_or, ◌==◌,
  if◌then◌else◌,
}
use coreline_auth_module.Common.Int.{ℤ, pos, negsuc, ltz, lez}
use coreline_auth_module.Common.Text.{lower, is_space, is_suffix, lacks, occurs_in}
use coreline_auth_module.Errors.{
  Result, ok, raise, raise_if, ◌>>=◌, ◌>>◌, authentication_failed, validation, value_error,
}
use coreline_auth_module.Host.{Host}
use coreline_auth_module.Json.{Json, Members, as_object, holds_text}
use coreline_auth_module.Origin.{validate_parts}
use coreline_auth_module.Security.{hash_secret, any_char, is_control}
use coreline_auth_module.Social.{UrlParts, is_bare}

-- What `load_pem_public_key` gives.
pub data KeyKind : Type 0 where
  elliptic_curve rsa unsupported : KeyKind

-- What `json.loads` does: it returns, it raises `JSONDecodeError`, or it raises another error for
-- bytes that are no text.
pub data Loaded : Type 0 where
  parsed_json : Json → Loaded
  malformed : Loaded
  undecodable : Loaded

-- The libraries that the checks call.
pub record Libraries : Type 1 where
  pub PublicKey : Type 0
  -- `none` for its `ValueError`
  pub urlparse : String → Option UrlParts
  pub load_pem_public_key : String → Option PublicKey
  pub kind : PublicKey → KeyKind
  -- whether `verify(signature, signed, …)` returns, and does not raise `InvalidSignature`
  pub verify : PublicKey → List ℕ → List ℕ → Bool
  -- `base64.urlsafe_b64decode`, or `none` for its exceptions
  pub urlsafe_b64decode : String → Option (List ℕ)
  pub loads : List ℕ → Loaded
  pub sha256 : List ℕ → List ℕ
  pub encode : String → List ℕ

pub record VerifiedPasskeyRegistration : Type 0 where
  pub credential_id : String
  pub public_key_pem : String
  pub sign_count : ℤ

pub record VerifiedPasskeyAssertion : Type 0 where
  pub credential_id : String
  pub sign_count : ℕ
  pub user_present : Bool
  pub user_verified : Bool

-- `value + "=" * ((4 - len(value) % 4) % 4)`
abbrev padding : ℕ → String
padding zero = ""
padding (suc n) = String.◌∷◌ "=" (padding n)

unfoldable pub pad : String → String
pad value = String.◌++◌ value (padding ((4 - String.count value % 4) % 4))

-- `int.from_bytes(bytes, "big")`
unfoldable pub from_bytes : ℕ → List ℕ → ℕ
from_bytes acc [] = acc
from_bytes acc (b ∷ bs) = from_bytes (acc * 256 + b) bs

-- `data[n]`, of a place that is there.
abbrev byte_at : ℕ → List ℕ → ℕ
byte_at n bytes = elim (drop n bytes) [ [] ↦ 0 | b ∷ _ ↦ b ]

abbrev pub flags_of : List ℕ → ℕ
flags_of data_bytes = byte_at 32 data_bytes

-- `bool(flags & 0x01)` and `bool(flags & 0x04)`
abbrev pub has_user_presence : List ℕ → Bool
has_user_presence data_bytes = eqb (flags_of data_bytes % 2) 1

abbrev pub has_user_verification : List ℕ → Bool
has_user_verification data_bytes = eqb (flags_of data_bytes / 4 % 2) 1

abbrev pub counter_of : List ℕ → ℕ
counter_of data_bytes = from_bytes 0 (take 4 (drop 33 data_bytes))

-- `previous_sign_count > 0 and sign_count <= previous_sign_count`
abbrev pub is_replayed : ℤ → ℕ → Bool
is_replayed previous count = ltz (pos 0) previous && lez (pos count) previous

unfoldable pub bytes_eq : List ℕ → List ℕ → Bool
bytes_eq [] [] = true
bytes_eq [] (b ∷ bs) = false
bytes_eq (x ∷ xs) [] = false
bytes_eq (x ∷ xs) (b ∷ bs) = eqb x b && bytes_eq xs bs

-- The arguments of `verify_passkey_registration_response`.
pub record Registration : Type 0 where
  pub challenge : String
  pub expected_challenge_hash : String
  pub origin : String
  pub rp_id : String
  pub credential_id : String
  pub public_key_pem : String
  pub sign_count : ℤ

-- The arguments of `verify_passkey_assertion_response`.
pub record Assertion : Type 0 where
  pub challenge : String
  pub expected_challenge_hash : String
  pub origin : String
  pub rp_id : String
  pub credential_id : String
  pub public_key_pem : String
  pub authenticator_data_b64url : String
  pub client_data_json_b64url : String
  pub signature_b64url : String
  pub previous_sign_count : ℤ
  pub require_user_verification : Bool

-- A call of a library that raises an error which is no exception of the program's.
abbrev parsed {ℓ} : {A : Type ℓ} → Option A → Result A
parsed none = raise (value_error "not decodable")
parsed (some a) = ok a

as_json_object : Option Members → Result Members
as_json_object none = raise (authentication_failed "invalid clientDataJSON")
as_json_object (some ms) = ok ms

-- `_json_object`
unfoldable pub json_object : Loaded → Result Members
unfolding as_json_object
json_object (parsed_json j) = as_json_object (as_object j)
json_object malformed = raise (authentication_failed "invalid clientDataJSON")
json_object undecodable = raise (value_error "not decodable")

-- The checks of `clientDataJSON`.
unfoldable pub check_client_data : Assertion → Members → Result (Unit {0})
check_client_data a client_data = do
  raise_if (not (holds_text "type" "webauthn.get" client_data))
      (authentication_failed "invalid WebAuthn client data type")
  raise_if (not (holds_text "origin" a.origin client_data))
      (authentication_failed "invalid WebAuthn origin")
  raise_if (not (holds_text "challenge" a.challenge client_data))
      (authentication_failed "invalid WebAuthn challenge")

checked_by : KeyKind → Bool → Result (Unit {0})
checked_by unsupported fits = raise (validation "unsupported passkey public key type")
checked_by elliptic_curve fits =
    raise_if (not fits) (authentication_failed "invalid WebAuthn signature")
checked_by rsa fits = raise_if (not fits) (authentication_failed "invalid WebAuthn signature")

module _ (host : Host) (lib : Libraries) where
  open lib use {PublicKey}

  -- `_verify_challenge`
  unfoldable pub verify_challenge : String → String → Result (Unit {0})
  unfolding hash_secret
  verify_challenge challenge expected =
      raise_if (not (hash_secret host challenge == expected))
        (authentication_failed "invalid WebAuthn challenge")

  unfoldable pub validate_origin_and_rp : String → String → Result (Unit {0})
  unfolding validate_parts
  validate_origin_and_rp origin rp_id = do u ← parsed (lib.urlparse origin); validate_parts rp_id u

  -- `_b64url_decode`
  unfoldable pub b64url_decode : String → Result (List ℕ)
  unfolding pad
  b64url_decode value = parsed (lib.urlsafe_b64decode (pad value))

  loaded_key : Option PublicKey → Result PublicKey
  loaded_key none = raise (validation "invalid passkey public key")
  loaded_key (some key) = ok key

  -- `_load_public_key`
  unfoldable pub load_public_key : String → Result PublicKey
  unfolding loaded_key
  load_public_key pem = loaded_key (lib.load_pem_public_key pem)

  -- `_verify_signature`
  unfoldable pub verify_signature : PublicKey → List ℕ → List ℕ → Result (Unit {0})
  unfolding checked_by
  verify_signature key signed signature =
      checked_by (lib.kind key) (lib.verify key signature signed)

  unfoldable pub verify_passkey_registration_response :
      Registration → Result VerifiedPasskeyRegistration
  unfolding verify_challenge validate_origin_and_rp load_public_key
  verify_passkey_registration_response r = do
    verify_challenge r.challenge r.expected_challenge_hash
    validate_origin_and_rp r.origin r.rp_id
    raise_if (not (is_text r.credential_id)) (validation "credential_id is required")
    key ← load_public_key r.public_key_pem
    raise_if (ltz r.sign_count (pos 0)) (validation "sign_count must be non-negative")
    ok (record {
      credential_id = r.credential_id;
      public_key_pem = r.public_key_pem;
      sign_count = r.sign_count;
    })

  -- The checks of the authenticator data, up to the counter.
  unfoldable pub check_authenticator_data : Assertion → List ℕ → Result (Unit {0})
  unfolding bytes_eq from_bytes
  check_authenticator_data a data_bytes = do
    raise_if (ltb (length data_bytes) 37) (authentication_failed "invalid authenticator data")
    raise_if (not (bytes_eq (take 32 data_bytes) (lib.sha256 (lib.encode a.rp_id))))
        (authentication_failed "invalid WebAuthn RP ID hash")
    raise_if (not (has_user_presence data_bytes)) (authentication_failed "user presence required")
    raise_if (a.require_user_verification && not (has_user_verification data_bytes))
        (authentication_failed "user verification required")
    raise_if (is_replayed a.previous_sign_count (counter_of data_bytes))
        (authentication_failed "WebAuthn sign counter replay detected")

  unfoldable pub verify_passkey_assertion_response : Assertion → Result VerifiedPasskeyAssertion
  unfolding verify_challenge validate_origin_and_rp b64url_decode json_object check_client_data
      check_authenticator_data load_public_key verify_signature
  verify_passkey_assertion_response a = do
    verify_challenge a.challenge a.expected_challenge_hash
    validate_origin_and_rp a.origin a.rp_id
    raise_if (not (is_text a.credential_id)) (validation "credential_id is required")
    authenticator_data ← b64url_decode a.authenticator_data_b64url
    client_data_json ← b64url_decode a.client_data_json_b64url
    signature ← b64url_decode a.signature_b64url
    client_data ← json_object (lib.loads client_data_json)
    check_client_data a client_data
    check_authenticator_data a authenticator_data
    key ← load_public_key a.public_key_pem
    verify_signature key (authenticator_data ++ lib.sha256 client_data_json) signature
    ok (record {
      credential_id = a.credential_id;
      sign_count = counter_of authenticator_data;
      user_present = has_user_presence authenticator_data;
      user_verified = has_user_verification authenticator_data;
    })
