-- ===== src/IdToken/Tests.antt =====
-- A token that is accepted, and the theorem at that input.
use coreline_auth_module.Common.{◌≡◌, refl, false, none, some, [], ◌∷◌, ◌==◌, if◌then◌else◌}
use coreline_auth_module.Common.Int.{pos}
use coreline_auth_module.Common.Text.{lower, strip, split}
use coreline_auth_module.Errors.{ok}
use coreline_auth_module.Json.{Json, Members, nil, cons, member, end, lookup}
use coreline_auth_module.Social.{optional_string, email_verified_from_claim}
use coreline_auth_module.Jwt.{
  JwtLibraries, Jwt, decode_jwt, jwk_for_kid, find_key, verify_rs256_signature, padded,
}
use coreline_auth_module.IdToken.{
  Audience, IdTokenClaims, Expected, verify_oidc_id_token, check_claims, check_times, check_azp,
  check_age, read_audience,
}
use coreline_auth_module.IdToken.Claims.{IsSignedBy, IsAcceptable, verify_oidc_id_token_sound}

methods : Unit {0}
unfolding verify_oidc_id_token decode_jwt jwk_for_kid find_key verify_rs256_signature padded
    check_claims check_times check_azp check_age read_audience optional_string
    email_verified_from_claim lookup lower strip split
methods = tt

abbrev header : Members
header = member "alg" (Json.text "RS256") (member "kid" (Json.text "k1") end)

abbrev payload : Members
payload = member "iss" (Json.text "https://id.x.org") (
    member "sub" (Json.text "u1") (
      member "aud" (Json.array (cons (Json.text "app") (cons (Json.text "api") nil))) (
        member "azp" (Json.text "app") (
          member "exp" (Json.number (pos 1950))
            (member "iat" (Json.number (pos 1900)) (member "nonce" (Json.text "n") end))))))

abbrev key_set : Members
key_set =
    member "keys"
      (Json.array (
        cons Json.null (
          cons
            (Json.object (
              member "kid" (Json.text "k1") (
                member "kty" (Json.text "RSA")
                  (member "n" (Json.text "AQ") (member "e" (Json.text "AQ") end)))))
            nil)))
      end

abbrev test_libraries : JwtLibraries
test_libraries = record {
  RsaKey = Unit {0};
  urlsafe_b64decode =
      λ s. some (if s == "h===" then [] else if s == "p===" then 1 ∷ [] else 2 ∷ 2 ∷ []);
  loads = λ bytes. some (Json.object (elim bytes [ [] ↦ header | b ∷ bs ↦ payload ]));
  public_key = λ e n. some tt;
  verify = λ key signature input. input == "h.p";
}

abbrev expected : Expected
expected = record {
  audience = "app";
  issuers = "https://id.x.org" ∷ [];
  nonce = some "n";
  azp = none;
  leeway_seconds = 60;
  max_age_seconds = some 100;
}

-- The token expired 50 seconds ago, within the leeway.
abbrev claims : IdTokenClaims
claims = record {
  issuer = "https://id.x.org";
  subject = "u1";
  audience = Audience.many ("app" ∷ "api" ∷ []);
  expires_at = pos 1950;
  issued_at = some (pos 1900);
  email = none;
  email_verified = false;
  name = none;
  picture = none;
  nonce = some "n";
  authorized_party = some "app";
}

accepted : verify_oidc_id_token test_libraries "h.p.s" expected key_set 2000 ≡ ok claims
unfolding methods
accepted = refl

verify_oidc_id_token_sound_example :
    (jwt : Jwt) × (decode_jwt test_libraries "h.p.s" ≡ ok jwt)
    × IsSignedBy test_libraries key_set jwt
    × IsAcceptable expected jwt.payload 2000 claims
verify_oidc_id_token_sound_example =
    verify_oidc_id_token_sound test_libraries "h.p.s" expected key_set 2000 claims accepted
