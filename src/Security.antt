-- ===== src/Security.antt =====
-- src/coreline_auth/security.py: e-mail addresses, passwords and the targets of redirects.
pub mod Redirects
mod Tests
use Prim.Native.Char.{code}
use Prim.Native.String
use coreline_auth_module.Common.{
  ℕ, ◌+◌, String, Bool, true, false, not, ◌&&◌, ◌||◌, Option, none, some, List, [], ◌∷◌, any, ltb,
  leb, eqb, is_text, has_text, ◌==◌, if◌then◌else◌,
}
use coreline_auth_module.Common.Text.{lower, strip, is_prefix}
use coreline_auth_module.Errors.{Result, ok, raise, raise_if, ◌>>=◌, ◌>>◌, validation}
use coreline_auth_module.Host.{Host}

abbrev pub max_return_to_bytes : ℕ
max_return_to_bytes = 2048

-- `ord(char) < 0x20 or ord(char) == 0x7F`
abbrev pub is_control : ℕ → Bool
is_control c = ltb c 0x20 || eqb c 0x7f

-- The characters of `_UNSAFE_RETURN_TO_CHARS`.
abbrev pub is_unsafe : ℕ → Bool
is_unsafe c =
    eqb c b'<'
    || eqb c b'>'
    || eqb c 0x22
    || eqb c 0x27
    || eqb c b'`'
    || eqb c 0x5c
    || eqb c 13
    || eqb c 10
    || eqb c 9

-- `any(p(char) for char in text)`
unfoldable pub any_char : (ℕ → Bool) → String → Bool
any_char p String.[] = false
any_char p (String.◌∷◌ c s) = p (code c) || any_char p s

module _ (host : Host) where
  unfoldable pub hash_secret : String → String
  hash_secret secret = host.sha256_hex secret

  -- `hash_secret(value) if value else None`
  unfoldable pub hash_optional_context : Option String → Option String
  unfolding hash_secret
  hash_optional_context none = none
  hash_optional_context (some value) = if is_text value then some (hash_secret value) else none

  -- The part of `normalize_email_address` after the validator.
  checked_length : Option String → Result String
  checked_length none = raise (validation "invalid email")
  checked_length (some normalized) =
      let lowered = lower normalized in
      if ltb 320 (String.count lowered) then raise (validation "invalid email") else ok lowered

  unfoldable pub normalize_email_address : String → Result String
  unfolding checked_length any_char
  normalize_email_address email =
      if any_char is_control email
      then raise (validation "invalid email")
      else checked_length (host.validate_email (strip email))

  -- `hash_password`, with the salt that the hasher draws.
  unfoldable pub hash_password : ℕ → String → Result String
  hash_password salt password =
      if ltb (String.count password) 8
      then raise (validation "password must be at least 8 characters")
      else ok (host.argon2_hash salt password)

  unfoldable pub verify_password : String → String → Bool
  verify_password password_hash password = host.argon2_verify password_hash password

  -- `SafeReturnToPolicy.validate` on a text that is not empty.
  checked_target : String → Result String
  unfolding any_char is_prefix
  checked_target return_to = do
    raise_if (ltb max_return_to_bytes (String.len return_to)) (validation "return_to is too long")
    raise_if (any_char (λ c. is_unsafe c || is_control c) return_to)
        (validation "return_to contains unsafe characters")
    raise_if (is_text (host.url_scheme return_to) || is_text (host.url_netloc return_to))
        (validation "return_to must be a same-site relative path")
    raise_if (not (is_prefix "/" return_to) || is_prefix "//" return_to)
        (validation "return_to must start with a single '/'")
    ok return_to

  unfoldable pub validate_return_to : Option String → Result String
  unfolding checked_target
  validate_return_to none = ok "/"
  validate_return_to (some return_to) =
      if is_text return_to then checked_target return_to else ok "/"
