-- ===== src/Security/Redirects.antt =====
-- security.py: an accepted redirect stays on the site.
use mathlib.Core.Path.{subst}
use coreline_auth_module.Common.{
  is_text, Bool-cases, inl, inr, String, ◌≡◌, refl, true, false, ◌||◌, ◌≤◌, Option, none, some,
  arith,
}
use Prim.Native.String
use coreline_auth_module.Common.Text.{is_prefix}
use coreline_auth_module.Errors.{ok}
use coreline_auth_module.Host.{Host}
use coreline_auth_module.Security.{
  any_char, is_unsafe, is_control, validate_return_to, max_return_to_bytes, checked_target,
}

-- A target that begins with exactly one slash, has no unsafe and no control character, and fits.
pub record IsSameSite (target : String) : Type 0 where
  pub slash : is_prefix "/" target ≡ true
  pub single : is_prefix "//" target ≡ false
  pub clean : any_char (λ c. is_unsafe c || is_control c) target ≡ false
  pub fits : String.len target ≤ max_return_to_bytes

slash-IsSameSite : IsSameSite "/"
unfolding is_prefix any_char
slash-IsSameSite = record { slash = refl; single = refl; clean = refl; fits = omega arith }

checked_target-IsSameSite :
    (host : Host) (x target : String)
    → checked_target host x ≡ ok target
    → (target ≡ x) × IsSameSite target
unfolding checked_target
checked_target-IsSameSite host x target e = ground arith

-- Whatever `urlparse` finds, an accepted redirect begins with exactly one slash, has no unsafe and
-- no control character, and is at most 2048 bytes long.
pub validate_return_to-IsSameSite :
    (host : Host) (requested : Option String) (target : String)
    → validate_return_to host requested ≡ ok target
    → IsSameSite target
unfolding validate_return_to
validate_return_to-IsSameSite host none target e = subst IsSameSite (ground arith) slash-IsSameSite
validate_return_to-IsSameSite host (some x) target e = elim (Bool-cases (is_text x)) [
  | inl h ↦ (checked_target-IsSameSite host x target (rw h at e)).1
  | inr h ↦ subst IsSameSite (ground arith) slash-IsSameSite
]
