-- ===== src/WebAuthn/Checks.antt =====
-- webauthn.py: what each check of an assertion establishes.
use coreline_auth_module.Common.{
  not-false, ℕ, suc, ◌<◌, ◌≤◌, String, ◌≡◌, ◌≢◌, refl, ap, Bool, true, not, ◌&&◌, Option, some,
  none, List, [], ◌∷◌, ◌++◌, arith, length, take, ltb,
}
use coreline_auth_module.Common.Int.{pos}
use coreline_auth_module.Errors.{Result, ok, raise, bind-eq_ok, raise_if-eq_ok, guard-eq_ok}
use coreline_auth_module.Host.{Host}
use coreline_auth_module.Json.{Json, Members, holds_text}
use coreline_auth_module.Social.{UrlParts}
use coreline_auth_module.WebAuthn.{
  Libraries, Assertion, KeyKind, Loaded, parsed_json, malformed, undecodable, elliptic_curve, rsa,
  unsupported, has_user_presence, has_user_verification, counter_of, is_replayed, bytes_eq, pad,
  parsed, loaded_key, checked_by, as_json_object, validate_parts, validate_origin_and_rp,
  b64url_decode, json_object, check_client_data, check_authenticator_data, load_public_key,
  verify_signature,
}
use coreline_auth_module.Origin.Sites.{IsOriginOf, validate_parts-IsOriginOf}

pub bytes_eq-eq : (xs ys : List ℕ) → bytes_eq xs ys ≡ true → xs ≡ ys
unfolding bytes_eq
bytes_eq-eq [] [] h = refl
bytes_eq-eq [] (y ∷ ys) h = absurd (ground (arith, h))
bytes_eq-eq (x ∷ xs) [] h = absurd (ground (arith, h))
bytes_eq-eq (x ∷ xs) (y ∷ ys) h = ground (arith, h, bytes_eq-eq xs ys)

pub some_injective {ℓ} : {A : Type ℓ} (a b : A) → some a ≡ some b → a ≡ b
some_injective {A = A} a b h = ap value_of h
  where
    value_of : Option A → A
    value_of (some x) = x
    value_of none = a

parsed-eq_ok {ℓ} : {A : Type ℓ} (o : Option A) (a : A) → parsed o ≡ ok a → o ≡ some a
parsed-eq_ok none a h = absurd (ground (arith, h))
parsed-eq_ok (some x) a h = ground (arith, h)

-- The client data is a JSON object that names the ceremony, the origin and the challenge.
pub record IsClientData (lib : Libraries) (a : Assertion) (bytes : List ℕ) : Type 0 where
  pub client_data : Members
  pub loaded : lib.loads bytes ≡ parsed_json (Json.object client_data)
  pub ceremony : holds_text "type" "webauthn.get" client_data ≡ true
  pub origin : holds_text "origin" a.origin client_data ≡ true
  pub challenge : holds_text "challenge" a.challenge client_data ≡ true

-- The authenticator data is for the RP, of a user who is present, and verified where this is
-- required, and its counter is above a positive one that was seen before.
pub record IsAuthenticatorData (lib : Libraries) (a : Assertion) (bytes : List ℕ) : Type 0 where
  pub long : 37 ≤ length bytes
  pub rp_hash : take 32 bytes ≡ lib.sha256 (lib.encode a.rp_id)
  pub present : has_user_presence bytes ≡ true
  pub user_verified : a.require_user_verification ≡ true → has_user_verification bytes ≡ true
  pub fresh : (n : ℕ) → a.previous_sign_count ≡ pos (suc n) → suc n < counter_of bytes

-- The signature fits the data and the hash of the client data, by a key of a supported kind.
pub record IsSigned (lib : Libraries) (pem : String) (bytes client signature : List ℕ)
    : Type 0 where
  pub key : lib.PublicKey
  pub known : lib.load_pem_public_key pem ≡ some key
  pub supported : lib.kind key ≢ unsupported
  pub fits : lib.verify key signature (bytes ++ lib.sha256 client) ≡ true

pub check_client_data_lem :
    (lib : Libraries) (a : Assertion) (bytes : List ℕ) (ms : Members)
    → lib.loads bytes ≡ parsed_json (Json.object ms)
    → check_client_data a ms ≡ ok tt
    → IsClientData lib a bytes
unfolding check_client_data
check_client_data_lem lib a bytes ms l h =
    let (ceremony, rest) = guard-eq_ok (not (holds_text "type" "webauthn.get" ms)) _ _ h in
    let (origin, last) = guard-eq_ok (not (holds_text "origin" a.origin ms)) _ _ rest in
    let challenge = raise_if-eq_ok (not (holds_text "challenge" a.challenge ms)) _ last in
    record {
      client_data = ms;
      loaded = l;
      ceremony = not-false ceremony;
      origin = not-false origin;
      challenge = not-false challenge;
    }

pub json_object_lem :
    (l : Loaded) (ms : Members) → json_object l ≡ ok ms → l ≡ parsed_json (Json.object ms)
unfolding json_object as_json_object
json_object_lem (parsed_json (Json.object xs)) ms h = ground (arith, h)
json_object_lem (parsed_json Json.null) ms h = absurd (ground (arith, h))
json_object_lem (parsed_json (Json.flag b)) ms h = absurd (ground (arith, h))
json_object_lem (parsed_json (Json.number n)) ms h = absurd (ground (arith, h))
json_object_lem (parsed_json Json.fraction) ms h = absurd (ground (arith, h))
json_object_lem (parsed_json (Json.text t)) ms h = absurd (ground (arith, h))
json_object_lem (parsed_json (Json.array xs)) ms h = absurd (ground (arith, h))
json_object_lem malformed ms h = absurd (ground (arith, h))
json_object_lem undecodable ms h = absurd (ground (arith, h))

checked_by_lem :
    (k : KeyKind) (fits : Bool) → checked_by k fits ≡ ok tt → (k ≢ unsupported) × (fits ≡ true)
unfolding checked_by
checked_by_lem unsupported fits h = absurd (ground (arith, h))
checked_by_lem elliptic_curve fits h = (λ e. ground (arith, e), not-false (raise_if-eq_ok _ _ h))
checked_by_lem rsa fits h = (λ e. ground (arith, e), not-false (raise_if-eq_ok _ _ h))

module _ (host : Host) (lib : Libraries) where
  pub check_authenticator_data_lem :
      (a : Assertion) (bytes : List ℕ)
      → check_authenticator_data host lib a bytes ≡ ok tt
      → IsAuthenticatorData lib a bytes
  unfolding check_authenticator_data
  check_authenticator_data_lem a bytes h =
      let (long, h1) = guard-eq_ok (ltb (length bytes) 37) _ _ h in
      let (same, h2) =
        guard-eq_ok (not (bytes_eq (take 32 bytes) (lib.sha256 (lib.encode a.rp_id)))) _ _ h1 in
      let (present, h3) = guard-eq_ok (not (has_user_presence bytes)) _ _ h2 in
      let (checked, h4) =
        guard-eq_ok (a.require_user_verification && not (has_user_verification bytes)) _ _ h3 in
      let fresh = raise_if-eq_ok (is_replayed a.previous_sign_count (counter_of bytes)) _ h4 in
      record {
        long = ground (arith, long);
        rp_hash = bytes_eq-eq _ _ (not-false same);
        present = not-false present;
        user_verified = λ on. ground (arith, on, checked);
        fresh = λ n e. ground (arith, e, fresh);
      }

  pub load_public_key_lem :
      (pem : String) (key : lib.PublicKey)
      → load_public_key host lib pem ≡ ok key
      → lib.load_pem_public_key pem ≡ some key
  unfolding load_public_key
  load_public_key_lem pem key h = of_loaded (lib.load_pem_public_key pem) h
    where
      of_loaded : (o : Option lib.PublicKey) → loaded_key host lib o ≡ ok key → o ≡ some key
      of_loaded none h = absurd (ground (arith, h))
      of_loaded (some k) h = ap some_of h
        where
          some_of : Result lib.PublicKey → Option lib.PublicKey
          some_of (ok k) = some k
          some_of (raise e) = none

  pub decoded :
      (t : String) (bytes : List ℕ)
      → b64url_decode host lib t ≡ ok bytes
      → lib.urlsafe_b64decode (pad t) ≡ some bytes
  unfolding b64url_decode
  decoded t bytes h = parsed-eq_ok (lib.urlsafe_b64decode (pad t)) bytes h

  pub origin_of :
      (origin rp_id : String)
      → validate_origin_and_rp host lib origin rp_id ≡ ok tt
      → (u : UrlParts) × (lib.urlparse origin ≡ some u) × IsOriginOf rp_id u
  unfolding validate_origin_and_rp
  origin_of origin rp_id h =
      let (u, e, v) = bind-eq_ok (parsed (lib.urlparse origin)) (validate_parts rp_id) h in
      (u, parsed-eq_ok (lib.urlparse origin) u e, validate_parts-IsOriginOf rp_id u v)

  pub key-IsSigned :
      (pem : String) (key : lib.PublicKey) (bytes client signature : List ℕ)
      → load_public_key host lib pem ≡ ok key
      → verify_signature host lib key (bytes ++ lib.sha256 client) signature ≡ ok tt
      → IsSigned lib pem bytes client signature
  unfolding verify_signature
  key-IsSigned pem key bytes client signature l h =
      let (supported, fits) =
        checked_by_lem (lib.kind key) (lib.verify key signature (bytes ++ lib.sha256 client)) h in
      record {
        key = key;
        known = load_public_key_lem pem key l;
        supported = supported;
        fits = fits;
      }
