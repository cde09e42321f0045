-- ===== src/Csrf/Binding.antt =====
-- csrf.py: issued tokens verify, and a token verifies in the context that its signature is for.
use coreline_auth_module.Common.{String, ◌≡◌, ◌↔◌, refl, true, some, arith, is_text, eq_iff}
use coreline_auth_module.Common.Text.{lacks, partition-append}
use coreline_auth_module.Errors.{ok}
use coreline_auth_module.Host.{Host}
use coreline_auth_module.Csrf.{
  CsrfProtector, token_value, sign, issue_for_context, verify_parts, verify_for_context,
}

module _ (host : Host) (p : CsrfProtector) where
  parts-agree :
      (context nonce signature : String)
      → is_text nonce ≡ true
      → is_text signature ≡ true
      → (verify_parts host p context (nonce, some signature) ≡ ok tt)
        ↔ (signature ≡ sign host p nonce context)
  unfolding verify_parts
  parts-agree context nonce signature n t = (
    λ h. ground (arith, h, eq_iff signature (sign host p nonce context)),
    λ e. ground (arith, e, n, t, eq_iff signature (sign host p nonce context)),
  )

-- A token that was issued for one context verifies for a context exactly if the signatures of its
-- nonce for the two contexts are the same; so it verifies for its own. The nonce is a text without
-- a dot, as the generated tokens are, and the signature is not empty, as an HMAC is.
pub verify-issue :
    (host : Host) (p : CsrfProtector) (nonce context other : String)
    → is_text nonce ≡ true
    → lacks b'.' nonce ≡ true
    → is_text (sign host p nonce context) ≡ true
    → (verify_for_context host p (token_value (issue_for_context host p nonce context)) other
        ≡ ok tt)
      ↔ (sign host p nonce context ≡ sign host p nonce other)
unfolding verify_for_context token_value issue_for_context
verify-issue host p nonce context other n l t =
    rw (partition-append b'.' nonce "." (sign host p nonce context) l refl)
      (parts-agree host p other nonce (sign host p nonce context) n t)
