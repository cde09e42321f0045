-- ===== src/Csrf.antt =====
-- src/coreline_auth/csrf.py: double-submit tokens bound to a context. The comparison in constant
-- time is equality.
pub mod Binding
mod Tests
use Prim.Native.Char.{code}
use Prim.Native.String
use coreline_auth_module.Common.{
  ℕ, suc, String, Bool, true, not, ◌&&◌, ◌||◌, Option, some, none, List, [], ◌∷◌, any, ltb, is_text,
  ◌==◌, if◌then◌else◌,
}
use coreline_auth_module.Common.Text.{lower, lacks, occurs_in, partition}
use coreline_auth_module.Errors.{Result, ok, raise, raise_if, ◌>>◌, configuration, validation}
use coreline_auth_module.Host.{Host}

pub record CsrfToken : Type 0 where
  pub nonce : String
  pub signature : String

-- `CsrfToken.value`
unfoldable pub token_value : CsrfToken → String
token_value t = String.◌++◌ t.nonce (String.◌∷◌ "." t.signature)

pub record CsrfProtector : Type 0 where
  pub secret_key : String
  pub allow_weak_dev_secret : Bool

abbrev min_secret_unique_chars : ℕ
min_secret_unique_chars = 8

abbrev weak_secret_markers : List String
weak_secret_markers = "demo" ∷ "test" ∷ "changeme" ∷ "password" ∷ []

-- `len(set(s))`
unique_chars : String → ℕ
unfolding lacks
unique_chars String.[] = 0
unique_chars (String.◌∷◌ c s) =
    let rest = unique_chars s in if lacks (code c) s then suc rest else rest

-- `_looks_weak_secret`
unfoldable pub looks_weak_secret : String → Bool
unfolding unique_chars lower occurs_in
looks_weak_secret secret_key =
    ltb (unique_chars secret_key) min_secret_unique_chars
    || any (λ marker. occurs_in marker (lower secret_key)) weak_secret_markers

-- `__post_init__`
unfoldable pub check_secret : CsrfProtector → Result (Unit {0})
unfolding looks_weak_secret
check_secret p = do
  raise_if (ltb (String.count p.secret_key) 32)
      (configuration "csrf secret_key must be at least 32 characters")
  raise_if (not p.allow_weak_dev_secret && looks_weak_secret p.secret_key)
      (configuration "csrf secret_key must be high-entropy")
  ok tt

module _ (host : Host) (p : CsrfProtector) where
  -- `_sign`
  unfoldable pub sign : String → String → String
  sign nonce context_key =
      host.hmac_sha256 p.secret_key (String.◌++◌ context_key (String.◌++◌ ":" nonce))

  -- `issue_for_context`, with the nonce that `generate_token` draws.
  unfoldable pub issue_for_context : String → String → CsrfToken
  unfolding sign
  issue_for_context nonce context_key = record { nonce = nonce; signature = sign nonce context_key }

  verify_parts : String → String × Option String → Result (Unit {0})
  unfolding sign
  verify_parts context_key (nonce, none) = raise (validation "invalid csrf token")
  verify_parts context_key (nonce, some signature) =
      if not (is_text nonce) || not (is_text signature)
      then raise (validation "invalid csrf token")
      else if signature == sign nonce context_key
      then ok tt
      else raise (validation "invalid csrf token")

  unfoldable pub verify_for_context : String → String → Result (Unit {0})
  unfolding verify_parts partition
  verify_for_context token context_key = verify_parts context_key (partition b'.' token)

  unfoldable pub issue : String → String → CsrfToken
  unfolding issue_for_context
  issue nonce session_token_hash = issue_for_context nonce session_token_hash

  unfoldable pub verify : String → String → Result (Unit {0})
  unfolding verify_for_context
  verify token session_token_hash = verify_for_context token session_token_hash

  unfoldable pub issue_global : String → CsrfToken
  unfolding issue_for_context
  issue_global nonce = issue_for_context nonce "anonymous"

  unfoldable pub verify_global : String → Result (Unit {0})
  unfolding verify_for_context
  verify_global token = verify_for_context token "anonymous"
