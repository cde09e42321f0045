-- ===== src/WebAuthn/Assertions.antt =====
-- webauthn.py: what the verification of an assertion checks.
use coreline_auth_module.Common.{
  not-false, ℕ, suc, ◌-◌, ◌<◌, String, ◌≡◌, ◌≢◌, refl, sym, ap, subst, ◌∙◌, true, not, some, List,
  ◌++◌, arith, is_text, eq_iff, ◌==◌,
}
use coreline_auth_module.Common.Int.{pos}
use coreline_auth_module.Errors.{
  ok, then-eq_ok, bind-eq_ok, raise_if-eq_ok, guard-eq_ok, ok-injective,
}
use coreline_auth_module.Host.{Host}
use coreline_auth_module.Json.{Members}
use coreline_auth_module.Security.{hash_secret}
use coreline_auth_module.Social.{UrlParts}
use coreline_auth_module.WebAuthn.{
  Libraries, Assertion, VerifiedPasskeyAssertion, has_user_presence, has_user_verification,
  counter_of, pad, validate_origin_and_rp, verify_challenge, b64url_decode, json_object,
  check_client_data, check_authenticator_data, load_public_key, verify_signature,
  verify_passkey_assertion_response,
}
use coreline_auth_module.WebAuthn.Checks.{
  IsClientData, IsAuthenticatorData, IsSigned, some_injective, check_client_data_lem,
  json_object_lem, check_authenticator_data_lem, decoded, origin_of, key-IsSigned,
}
use coreline_auth_module.Origin.Sites.{IsOriginOf}

module _ (host : Host) (lib : Libraries) where
  -- What an accepted assertion went through.
  pub record IsAsserted (a : Assertion) (v : VerifiedPasskeyAssertion) : Type 0 where
    pub challenge : hash_secret host a.challenge ≡ a.expected_challenge_hash
    pub parts : UrlParts
    pub origin : lib.urlparse a.origin ≡ some parts
    pub origin_of_rp : IsOriginOf a.rp_id parts
    pub credential : is_text a.credential_id ≡ true
    pub bytes : List ℕ
    pub client : List ℕ
    pub signature : List ℕ
    pub bytes_decoded : lib.urlsafe_b64decode (pad a.authenticator_data_b64url) ≡ some bytes
    pub client_decoded : lib.urlsafe_b64decode (pad a.client_data_json_b64url) ≡ some client
    pub signature_decoded : lib.urlsafe_b64decode (pad a.signature_b64url) ≡ some signature
    pub client_data : IsClientData lib a client
    pub authenticator_data : IsAuthenticatorData lib a bytes
    pub signed : IsSigned lib a.public_key_pem bytes client signature
    pub counted : v.sign_count ≡ counter_of bytes
    pub same_credential : v.credential_id ≡ a.credential_id
    pub present : v.user_present ≡ true
    pub verified : v.user_verified ≡ has_user_verification bytes

  challenge_lem : (c h : String) → verify_challenge host lib c h ≡ ok tt → hash_secret host c ≡ h
  unfolding verify_challenge
  challenge_lem c h e =
      (eq_iff (hash_secret host c) h).0
        (not-false (raise_if-eq_ok (not (hash_secret host c == h)) _ e))

  abbrev outcome : Assertion → List ℕ → VerifiedPasskeyAssertion
  outcome a bytes = record {
    credential_id = a.credential_id;
    sign_count = counter_of bytes;
    user_present = has_user_presence bytes;
    user_verified = has_user_verification bytes;
  }

  assemble :
      (a : Assertion) (bytes client signature : List ℕ) (ms : Members) (key : lib.PublicKey)
      → verify_challenge host lib a.challenge a.expected_challenge_hash ≡ ok tt
      → validate_origin_and_rp host lib a.origin a.rp_id ≡ ok tt
      → is_text a.credential_id ≡ true
      → b64url_decode host lib a.authenticator_data_b64url ≡ ok bytes
      → b64url_decode host lib a.client_data_json_b64url ≡ ok client
      → b64url_decode host lib a.signature_b64url ≡ ok signature
      → json_object (lib.loads client) ≡ ok ms
      → check_client_data a ms ≡ ok tt
      → check_authenticator_data host lib a bytes ≡ ok tt
      → load_public_key host lib a.public_key_pem ≡ ok key
      → verify_signature host lib key (bytes ++ lib.sha256 client) signature ≡ ok tt
      → IsAsserted a (outcome a bytes)
  assemble a bytes client signature ms key challenge place named d1 d2 d3 d4 cd ad k sg =
      let (parts, o, inside) = origin_of host lib a.origin a.rp_id place in
      let data_ok = check_authenticator_data_lem host lib a bytes ad in
      record {
        challenge = challenge_lem a.challenge a.expected_challenge_hash challenge;
        parts = parts;
        origin = o;
        origin_of_rp = inside;
        credential = named;
        bytes = bytes;
        client = client;
        signature = signature;
        bytes_decoded = decoded host lib _ bytes d1;
        client_decoded = decoded host lib _ client d2;
        signature_decoded = decoded host lib _ signature d3;
        client_data = check_client_data_lem lib a client ms (json_object_lem _ ms d4) cd;
        authenticator_data = data_ok;
        signed = key-IsSigned host lib a.public_key_pem key bytes client signature k sg;
        counted = refl;
        same_credential = refl;
        present = data_ok.present;
        verified = refl;
      }

  -- An assertion that is accepted answers the challenge whose hash was stored; its RP id is a host
  -- name without a scheme, path or port, and its origin, which has no credentials, path, query or
  -- fragment, is at that host or below it over HTTPS, or is the local host; it names a credential,
  -- and carries client data of the ceremony, the origin and the challenge, authenticator data of
  -- the RP and of a user who is present (verified, where that is required) with a counter above the
  -- one that was stored if that is positive, and a signature over both by the public key of a
  -- supported kind. What is returned is that credential, the counter and the flags of that data.
  pub verify_assertion_sound :
      (a : Assertion) (v : VerifiedPasskeyAssertion)
      → verify_passkey_assertion_response host lib a ≡ ok v
      → IsAsserted a v
  unfolding verify_passkey_assertion_response
  verify_assertion_sound a v h =
      let (challenge, h1) =
        then-eq_ok (verify_challenge host lib a.challenge a.expected_challenge_hash) _ h in
      let (place, h2) = then-eq_ok (validate_origin_and_rp host lib a.origin a.rp_id) _ h1 in
      let (named, h3) = guard-eq_ok (not (is_text a.credential_id)) _ _ h2 in
      let (bytes, d1, h4) = bind-eq_ok (b64url_decode host lib a.authenticator_data_b64url) _ h3 in
      let (client, d2, h5) = bind-eq_ok (b64url_decode host lib a.client_data_json_b64url) _ h4 in
      let (signature, d3, h6) = bind-eq_ok (b64url_decode host lib a.signature_b64url) _ h5 in
      let (ms, d4, h7) = bind-eq_ok (json_object (lib.loads client)) _ h6 in
      let (cd, h8) = then-eq_ok (check_client_data a ms) _ h7 in
      let (ad, h9) = then-eq_ok (check_authenticator_data host lib a bytes) _ h8 in
      let (key, k, h10) = bind-eq_ok (load_public_key host lib a.public_key_pem) _ h9 in
      let (sg, last) =
        then-eq_ok (verify_signature host lib key (bytes ++ lib.sha256 client) signature) _ h10 in
      subst (IsAsserted a) (ok-injective (outcome a bytes) v last) (
        assemble a bytes client signature ms key challenge place (not-false named) d1 d2 d3 d4 cd ad
          k sg)

  -- Authenticator data that was accepted with a positive counter is refused, whatever else an
  -- assertion holds, once the counter is stored: any text that decodes to the same bytes is refused.
  pub verify_assertion-replay :
      (a b : Assertion) (v w : VerifiedPasskeyAssertion)
      → verify_passkey_assertion_response host lib a ≡ ok v
      → 0 < v.sign_count
      → b.previous_sign_count ≡ pos v.sign_count
      → lib.urlsafe_b64decode (pad b.authenticator_data_b64url)
        ≡ lib.urlsafe_b64decode (pad a.authenticator_data_b64url)
      → verify_passkey_assertion_response host lib b ≢ ok w
  verify_assertion-replay a b v w h positive stored same e =
      let x = verify_assertion_sound a v h in
      let y = verify_assertion_sound b w e in
      let again = same ∙ x.bytes_decoded in
      let bytes = some_injective y.bytes x.bytes (sym y.bytes_decoded ∙ again) in
      let count = x.counted ∙ ap counter_of (sym bytes) in
      let n = v.sign_count - 1 in
      let e' : v.sign_count ≡ suc n = omega (arith, positive) in
      let fresh = y.authenticator_data.fresh n (stored ∙ ap pos e') in
      omega (arith, fresh, e', count)
