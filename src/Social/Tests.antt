-- ===== src/Social/Tests.antt =====
-- The theorem on provider URLs at a concrete input.
use coreline_auth_module.Common.{◌≡◌, ◌||◌, refl, true, false, none, some}
use coreline_auth_module.Social.{UrlParts, is_bare, normalize_provider_url}
use coreline_auth_module.Social.Urls.{IsSafeUrl, normalize_provider_url-IsSafeUrl}

abbrev parts : UrlParts
parts = record {
  scheme = "https";
  netloc = "x.org";
  path = "/";
  query = "";
  fragment = "";
  username = none;
  password = none;
  hostname = some "x.org";
}

normalize_provider_url-IsSafeUrl_example : IsSafeUrl parts × ((false || is_bare parts.path) ≡ true)
unfolding normalize_provider_url
normalize_provider_url-IsSafeUrl_example =
    normalize_provider_url-IsSafeUrl (λ url. parts) "issuer" "https://x.org/" "https://x.org" false
      refl
