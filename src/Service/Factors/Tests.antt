-- ===== src/Service/Factors/Tests.antt =====
-- A run of `verify_totp`, and its theorem at that input.
use coreline_auth_module.Common.{◌≡◌, refl, some, [], ◌∷◌}
use coreline_auth_module.Common.Dict
use coreline_auth_module.Common.Text.{strip}
use coreline_auth_module.Errors.{ok}
use coreline_auth_module.Mfa.{totp_code, totp_counter_for_code, load_totp_secret}
use coreline_auth_module.Models.{AuthMfaFactor}
use coreline_auth_module.Security.{hash_secret}
use coreline_auth_module.Storage.{empty, list_mfa_factors, mark_mfa_factor_counter_used}
use coreline_auth_module.World.{World, ◌>>=◌}
use coreline_auth_module.Service.Support.{metric}
use coreline_auth_module.Service.Factors.{verify_totp, factor_code_counter, try_factor, try_factors}
use coreline_auth_module.Service.Factors.Verification.{IsAccepted, verify_totp_sound}
use coreline_auth_module.Fixtures.{test_host, test_service, factor_of, world_of}

methods : Unit {0}
unfolding verify_totp factor_code_counter try_factor try_factors ◌>>=◌ Dict.get Dict.set strip
    totp_code totp_counter_for_code load_totp_secret hash_secret list_mfa_factors
    mark_mfa_factor_counter_used metric
methods = tt

-- Ann and Bob have a factor each, and only Ann's secret is in the vault.
abbrev enrolled : World
enrolled =
    record (world_of (record empty {
      mfa_factors = ("m2", factor_of "m2" "u2") ∷ ("m1", factor_of "m1" "u1") ∷ [];
    })) { secrets = ("m1", "S0") ∷ [] }

-- The digest of the test host is empty, so that its code is always the same.
abbrev marked : AuthMfaFactor
marked = record (factor_of "m1" "u1") { last_used_at = some 1000; last_used_counter = some 32 }

abbrev after_code : World
after_code = (verify_totp test_host test_service "u1" "000000" enrolled).1

code_accepted : verify_totp test_host test_service "u1" "000000" enrolled ≡ (ok marked, after_code)
unfolding methods
code_accepted = refl

verify_totp_sound_example :
    IsAccepted test_host (list_mfa_factors "u1" enrolled.storage) "000000" marked after_code
verify_totp_sound_example =
    verify_totp_sound test_host test_service "u1" "000000" enrolled after_code marked code_accepted
