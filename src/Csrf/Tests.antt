-- ===== src/Csrf/Tests.antt =====
-- The theorem on tokens at a concrete input.
use coreline_auth_module.Common.{◌≡◌, ◌↔◌, refl, false}
use coreline_auth_module.Common.Text.{lacks}
use coreline_auth_module.Errors.{ok}
use coreline_auth_module.Csrf.{
  CsrfProtector, token_value, sign, issue_for_context, verify_for_context,
}
use coreline_auth_module.Csrf.Binding.{verify-issue}
use coreline_auth_module.Fixtures.{test_host}

abbrev protector : CsrfProtector
protector = record {
  secret_key = "0123456789abcdef0123456789abcdef";
  allow_weak_dev_secret = false;
}

verify-issue_example :
    (verify_for_context test_host protector
        (token_value (issue_for_context test_host protector "n1" "a"))
        "b"
      ≡ ok tt)
    ↔ (sign test_host protector "n1" "a" ≡ sign test_host protector "n1" "b")
unfolding sign lacks
verify-issue_example = verify-issue test_host protector "n1" "a" "b" refl refl refl
