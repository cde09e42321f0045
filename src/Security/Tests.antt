-- ===== src/Security/Tests.antt =====
-- The theorem on redirects at a concrete input.
use coreline_auth_module.Common.{refl, some}
use coreline_auth_module.Common.Text.{is_prefix}
use coreline_auth_module.Security.{validate_return_to}
use coreline_auth_module.Security.Redirects.{IsSameSite, validate_return_to-IsSameSite}
use coreline_auth_module.Fixtures.{test_host}

validate_return_to-IsSameSite_example : IsSameSite "/home"
unfolding validate_return_to is_prefix
validate_return_to-IsSameSite_example =
    validate_return_to-IsSameSite test_host (some "/home") "/home" refl
