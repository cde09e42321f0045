-- ===== src/WebAuthn/Tests.antt =====
-- An assertion that is accepted, and the theorems at that input.
use coreline_auth_module.Common.{
  ℕ, zero, suc, ◌≡◌, ◌≢◌, refl, true, none, some, List, [], ◌∷◌, ◌++◌, ◌==◌, ◌||◌, arith,
  if◌then◌else◌,
}
use coreline_auth_module.Common.Int.{pos}
use coreline_auth_module.Common.Text.{lower, is_suffix, lacks, occurs_in}
use coreline_auth_module.Errors.{ok}
use coreline_auth_module.Json.{Json, member, end, lookup}
use coreline_auth_module.Security.{hash_secret, any_char}
use coreline_auth_module.Social.{UrlParts}
use coreline_auth_module.Origin.{strip_dots, check_origin, check_rp, match_rp, validate_parts}
use coreline_auth_module.WebAuthn.{
  Libraries, Assertion, VerifiedPasskeyAssertion, elliptic_curve, parsed_json, bytes_eq, from_bytes,
  pad, verify_passkey_assertion_response,
}
use coreline_auth_module.WebAuthn.Assertions.{
  IsAsserted, verify_assertion_sound, verify_assertion-replay,
}
use coreline_auth_module.Fixtures.{test_host}

methods : Unit {0}
unfolding verify_passkey_assertion_response lookup lower is_suffix lacks occurs_in hash_secret
    any_char strip_dots check_origin check_rp match_rp validate_parts bytes_eq from_bytes pad
methods = tt

abbrev zeros : ℕ → List ℕ
zeros zero = []
zeros (suc n) = 0 ∷ zeros n

-- The user is present and verified, and the counter is 7.
abbrev test_bytes : List ℕ
test_bytes = zeros 32 ++ 5 ∷ 0 ∷ 0 ∷ 0 ∷ 7 ∷ []

abbrev origin_parts : UrlParts
origin_parts = record {
  scheme = "https";
  netloc = "id.x.org";
  path = "";
  query = "";
  fragment = "";
  username = none;
  password = none;
  hostname = some "id.X.org";
}

abbrev test_libraries : Libraries
test_libraries = record {
  PublicKey = Unit {0};
  urlparse = λ s. some origin_parts;
  load_pem_public_key = λ s. some tt;
  kind = λ k. elliptic_curve;
  verify = λ k signature signed. true;
  urlsafe_b64decode = λ s. some (if s == "data" || s == "ta==" then test_bytes else []);
  loads = λ bytes. parsed_json (
      Json.object (
        member "type" (Json.text "webauthn.get") (
          member "origin" (Json.text "https://id.x.org")
            (member "challenge" (Json.text "c") end))));
  sha256 = λ bytes. zeros 32;
  encode = λ s. [];
}

abbrev first : Assertion
first = record {
  challenge = "c";
  expected_challenge_hash = "#c";
  origin = "https://id.x.org";
  rp_id = "x.org";
  credential_id = "k1";
  public_key_pem = "pem";
  authenticator_data_b64url = "data";
  client_data_json_b64url = "json";
  signature_b64url = "sign";
  previous_sign_count = pos 6;
  require_user_verification = true;
}

abbrev first_outcome : VerifiedPasskeyAssertion
first_outcome = record {
  credential_id = "k1";
  sign_count = 7;
  user_present = true;
  user_verified = true;
}

first_accepted : verify_passkey_assertion_response test_host test_libraries first ≡ ok first_outcome
unfolding methods
first_accepted = refl

verify_assertion_sound_example : IsAsserted test_host test_libraries first first_outcome
verify_assertion_sound_example =
    verify_assertion_sound test_host test_libraries first first_outcome first_accepted

-- The same data in another text, once the counter is stored.
abbrev second : Assertion
second = record first { authenticator_data_b64url = "ta"; previous_sign_count = pos 7 }

same_bytes :
    test_libraries.urlsafe_b64decode (pad second.authenticator_data_b64url)
    ≡ test_libraries.urlsafe_b64decode (pad first.authenticator_data_b64url)
unfolding pad
same_bytes = refl

verify_assertion-replay_example :
    verify_passkey_assertion_response test_host test_libraries second ≢ ok first_outcome
verify_assertion-replay_example =
    verify_assertion-replay test_host test_libraries first second first_outcome first_outcome
      first_accepted (omega arith) refl same_bytes
