-- ===== src/Origin.antt =====
-- webauthn.py: the origin and the RP id of a passkey ceremony.
pub mod Sites
use Prim.Native.Char.{code}
use Prim.Native.String
use coreline_auth_module.Common.{
  ℕ, String, Bool, not, ◌&&◌, ◌||◌, eqb, is_text, has_text, get_or, ◌==◌, if◌then◌else◌,
}
use coreline_auth_module.Common.Text.{lower, is_space, is_suffix, lacks, occurs_in}
use coreline_auth_module.Errors.{Result, raise_if, ◌>>◌, validation}
use coreline_auth_module.Security.{any_char, is_control}
use coreline_auth_module.Social.{UrlParts, is_bare}

-- `_LOCAL_ORIGIN_HOSTS`
abbrev pub is_local_origin : String → Bool
is_local_origin h = h == "localhost" || h == "127.0.0.1" || h == "::1"

-- `s.rstrip(".")`
unfoldable pub strip_dots : String → String
strip_dots String.[] = String.[]
strip_dots (String.◌∷◌ c s) =
    let rest = strip_dots s in
    if eqb (code c) b'.' && rest == "" then String.[] else String.◌∷◌ c rest

abbrev pub host_of : UrlParts → String
host_of u = strip_dots (lower (get_or u.hostname ""))

abbrev pub is_local_http : UrlParts → Bool
is_local_http u = lower u.scheme == "http" && is_local_origin (host_of u)

abbrev is_host_char : ℕ → Bool
is_host_char c = not (is_space c || is_control c)

-- The guards on the RP id, and whether it has a port.
abbrev is_malformed_rp : String → Bool
is_malformed_rp rp_id =
    not (is_text (strip_dots (lower rp_id)))
    || occurs_in "://" rp_id
    || not (lacks b'/' rp_id)
    || not (lacks b'\\' rp_id)
    || any_char (λ c. not (is_host_char c)) rp_id

abbrev has_port : String → Bool
has_port rp_host = not (lacks b':' rp_host) && not (is_local_origin rp_host)

-- `origin_host != rp_host and not origin_host.endswith(f".{rp_host}")`, negated.
abbrev pub is_within : String → String → Bool
is_within rp_host origin_host =
    origin_host == rp_host || is_suffix (String.◌∷◌ "." rp_host) origin_host

-- The comparison of the RP's host with that of the origin.
unfoldable pub match_rp : String → UrlParts → Result (Unit {0})
unfolding lower strip_dots is_suffix
match_rp rp_host u =
    if is_local_http u
    then raise_if (not (rp_host == host_of u))
        (validation "WebAuthn RP ID does not match localhost origin")
    else raise_if (not (is_within rp_host (host_of u)))
        (validation "WebAuthn RP ID does not match origin")

-- The guards on the origin.
unfoldable pub check_origin : UrlParts → Result (Unit {0})
unfolding lower strip_dots
check_origin u = do
  raise_if
      (not (is_text (lower u.scheme))
        || not (is_text (host_of u))
        || has_text u.username
        || has_text u.password)
      (validation "invalid WebAuthn origin")
  raise_if (not (is_bare u.path) || is_text u.query || is_text u.fragment)
      (validation "WebAuthn origin must not include a path, query, or fragment")
  raise_if (not (lower u.scheme == "https") && not (is_local_http u))
      (validation "WebAuthn origin must be HTTPS outside localhost")

-- The guards on the RP id.
unfoldable pub check_rp : String → Result (Unit {0})
unfolding lower strip_dots lacks occurs_in any_char
check_rp rp_id = do
  raise_if (is_malformed_rp rp_id) (validation "rp_id must be a host name")
  raise_if (has_port (strip_dots (lower rp_id))) (validation "rp_id must not include a port")

-- `_validate_origin_and_rp`, of the parts of the origin.
unfoldable pub validate_parts : String → UrlParts → Result (Unit {0})
unfolding lower strip_dots
validate_parts rp_id u = do check_origin u; check_rp rp_id; match_rp (strip_dots (lower rp_id)) u
