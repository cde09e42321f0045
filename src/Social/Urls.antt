-- ===== src/Social/Urls.antt =====
-- social/_utils.py: the provider URLs that are accepted.
use coreline_auth_module.Common.{
  String, ◌≡◌, ◌⊎◌, Bool, true, false, arith, is_text, has_text, eq_iff, inl, inr, ◌==◌, ◌||◌,
  Bool-cases,
}
use coreline_auth_module.Errors.{ok}
use coreline_auth_module.Social.{UrlParts, is_local_host, is_bare, normalize_provider_url}

-- An absolute URL over TLS, or over plain HTTP to the local host, without credentials and fragment.
pub record IsSafeUrl (u : UrlParts) : Type 0 where
  pub absolute : is_text u.netloc ≡ true
  pub encrypted : (u.scheme ≡ "https") ⊎ ((u.scheme ≡ "http") × (is_local_host u.hostname ≡ true))
  pub anonymous : (has_text u.username || has_text u.password) ≡ false
  pub whole : is_text u.fragment ≡ false

-- Every provider URL that is accepted is absolute, goes over TLS or to the local host, and has no
-- credentials and no fragment, whatever the parts that `urlsplit` finds; one that must not have a
-- path has none but `/`.
pub normalize_provider_url-IsSafeUrl :
    (urlsplit : String → UrlParts) (name url result : String) (allow_path : Bool)
    → normalize_provider_url urlsplit name url allow_path ≡ ok result
    → IsSafeUrl (urlsplit url) × ((allow_path || is_bare (urlsplit url).path) ≡ true)
unfolding normalize_provider_url
normalize_provider_url-IsSafeUrl urlsplit name url result allow_path h =
    let u = urlsplit url in
    (
      record {
        absolute = ground (arith, h);
        encrypted = elim (Bool-cases (u.scheme == "http")) [
          | inl plain ↦ inr ((eq_iff u.scheme "http").0 plain, ground (arith, h, plain))
          | inr tls ↦ inl ((eq_iff u.scheme "https").0 (ground (arith, h, tls)))
        ];
        anonymous = ground (arith, h);
        whole = ground (arith, h);
      },
      ground (arith, h),
    )
