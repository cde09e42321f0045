-- ===== src/Origin/Sites.antt =====
-- webauthn.py: the origins that may use an RP id.
use Prim.Native.String
use mathlib.Core.Path.{fun_ext}
use coreline_auth_module.Common.{
  Bool, refl, ap, not, ◌∙◌, String, ◌≡◌, ◌⊎◌, sym, true, false, ◌||◌, arith, is_text, has_text,
  eq_iff, inl, inr, ◌==◌, Bool-cases,
}
use coreline_auth_module.Common.Text.{lower, is_suffix-append, is_space, lacks, occurs_in}
use coreline_auth_module.Errors.{ok, then-eq_ok, guard-eq_ok, raise_if-eq_ok}
use coreline_auth_module.Security.{any_char, is_control}
use coreline_auth_module.Social.{UrlParts, is_bare}
use coreline_auth_module.Origin.{
  host_of, is_local_origin, strip_dots, is_local_http, is_within, validate_parts, match_rp,
  check_origin, check_rp, is_malformed_rp, has_port,
}

-- The RP id is a host name: no scheme, path or backslash, no blank and no control character, and a
-- port only where it is a name of the local host with colons.
pub record IsHostName (rp_id : String) : Type 0 where
  pub named : is_text (strip_dots (lower rp_id)) ≡ true
  pub no_scheme : occurs_in "://" rp_id ≡ false
  pub no_slash : lacks b'/' rp_id ≡ true
  pub no_backslash : lacks b'\\' rp_id ≡ true
  pub printable : any_char (λ c. is_space c || is_control c) rp_id ≡ false
  pub no_port :
      (lacks b':' (strip_dots (lower rp_id)) ≡ true)
      ⊎ (is_local_origin (strip_dots (lower rp_id)) ≡ true)

-- An origin that may use the RP id, with no credentials and no path, query or fragment: over HTTPS, at the RP's host or at a host below it; or over
-- HTTP at the local host, which is then the RP.
pub record IsOriginOf (rp_id : String) (u : UrlParts) : Type 0 where
  pub rp : IsHostName rp_id
  pub schemed : is_text (lower u.scheme) ≡ true
  pub named : is_text (host_of u) ≡ true
  pub anonymous : (has_text u.username || has_text u.password) ≡ false
  pub bare : is_bare u.path ≡ true
  pub no_query : is_text u.query ≡ false
  pub no_fragment : is_text u.fragment ≡ false
  pub place :
      ((lower u.scheme ≡ "https")
        × ((host_of u ≡ strip_dots (lower rp_id))
            ⊎ ((p : String) × (host_of u
                  ≡ String.◌++◌ p (String.◌∷◌ "." (strip_dots (lower rp_id)))))))
      ⊎ ((lower u.scheme ≡ "http")
          × (is_local_origin (host_of u) ≡ true)
          × (host_of u ≡ strip_dots (lower rp_id)))

within :
    (rp h : String)
    → is_within rp h ≡ true
    → (h ≡ rp) ⊎ ((p : String) × (h ≡ String.◌++◌ p (String.◌∷◌ "." rp)))
within rp h e = elim (Bool-cases (h == rp)) [
  | inl same ↦ inl ((eq_iff h rp).0 same)
  | inr other ↦ inr (is_suffix-append (String.◌∷◌ "." rp) h (ground (arith, e, other)))
]

match_rp_local :
    (rp : String) (u : UrlParts)
    → is_local_http u ≡ true
    → match_rp rp u ≡ ok tt
    → (rp == host_of u) ≡ true
unfolding match_rp
match_rp_local rp u here h = elim (Bool-cases (rp == host_of u)) [
  | inl same ↦ same
  | inr other ↦ absurd (ground (arith, here, other, h))
]

match_rp_within :
    (rp : String) (u : UrlParts)
    → is_local_http u ≡ false
    → match_rp rp u ≡ ok tt
    → is_within rp (host_of u) ≡ true
unfolding match_rp
match_rp_within rp u away h = elim (Bool-cases (is_within rp (host_of u))) [
  | inl inside ↦ inside
  | inr outside ↦ absurd (ground (arith, away, outside, h))
]

validate_parts-parts :
    (rp_id : String) (u : UrlParts)
    → validate_parts rp_id u ≡ ok tt
    → (check_origin u ≡ ok tt)
      × (check_rp rp_id ≡ ok tt)
      × (match_rp (strip_dots (lower rp_id)) u ≡ ok tt)
unfolding validate_parts
validate_parts-parts rp_id u h =
    let (origin, rest) = then-eq_ok (check_origin u) _ h in
    let (rp, match) = then-eq_ok (check_rp rp_id) _ rest in (origin, rp, match)

not-not : (b : Bool) → not (not b) ≡ b
not-not true = refl
not-not false = refl

-- What the guards on the RP id leave.
check_rp-IsHostName : (rp_id : String) → check_rp rp_id ≡ ok tt → IsHostName rp_id
unfolding check_rp
check_rp-IsHostName rp_id h =
    let (formed, last) = guard-eq_ok (is_malformed_rp rp_id) _ _ h in
    let portless = raise_if-eq_ok (has_port (strip_dots (lower rp_id))) _ last in
    record {
      named = ground (arith, formed);
      no_scheme = ground (arith, formed);
      no_slash = ground (arith, formed);
      no_backslash = ground (arith, formed);
      printable =
          ap (λ p. any_char p rp_id) (fun_ext (λ c. sym (not-not (is_space c || is_control c))))
          ∙ ground (arith, formed);
      no_port = ground (arith, portless);
    }

check_origin_lem :
    (u : UrlParts)
    → check_origin u ≡ ok tt
    → (is_text (lower u.scheme) ≡ true)
      × (is_text (host_of u) ≡ true)
      × ((has_text u.username || has_text u.password) ≡ false)
      × (is_bare u.path ≡ true)
      × (is_text u.query ≡ false)
      × (is_text u.fragment ≡ false)
      × ((lower u.scheme == "https" || is_local_http u) ≡ true)
unfolding check_origin
check_origin_lem u h = (
  ground (arith, h),
  ground (arith, h),
  ground (arith, h),
  ground (arith, h),
  ground (arith, h),
  ground (arith, h),
  ground (arith, h),
)

pub validate_parts-IsOriginOf :
    (rp_id : String) (u : UrlParts) → validate_parts rp_id u ≡ ok tt → IsOriginOf rp_id u
validate_parts-IsOriginOf rp_id u h =
    let (origin, of_rp, match) = validate_parts-parts rp_id u h in
    let (schemed, named, anonymous, bare, no_query, no_fragment, safe) =
      check_origin_lem u origin in
    let rp = strip_dots (lower rp_id) in
    record {
      rp = check_rp-IsHostName rp_id of_rp;
      schemed = schemed;
      named = named;
      anonymous = anonymous;
      bare = bare;
      no_query = no_query;
      no_fragment = no_fragment;
      place = elim (Bool-cases (is_local_http u)) [
        | inl here ↦ inr (
          (eq_iff (lower u.scheme) "http").0 (ground (arith, here)),
          ground (arith, here),
          sym ((eq_iff rp (host_of u)).0 (match_rp_local rp u here match)),
        )
        | inr away ↦ inl (
          (eq_iff (lower u.scheme) "https").0 (ground (arith, away, safe)),
          within rp (host_of u) (match_rp_within rp u away match),
        )
      ];
    }
