-- ===== src/Audit/Tests.antt =====
-- The theorem on redaction at concrete inputs.
use coreline_auth_module.Common.{◌≡◌, refl}
use coreline_auth_module.Common.Text.{lower, occurs_in}
use coreline_auth_module.Models.{Fields, field, end, text, mapping, number}
use coreline_auth_module.Audit.{redact_audit_metadata, is_sensitive}
use coreline_auth_module.Audit.Secrets.{SameValue, SameFields, redact_audit_metadata-SameFields}

-- Metadata with a secret in an inner mapping.
abbrev with_secret : Fields → Fields
with_secret inner = field "name" (text "x") (field "request" (mapping inner) end)

with_secret-SameFields :
    SameFields
      (with_secret (field "api_token" (text "abc") end))
      (with_secret (field "api_token" (number 7) end))
unfolding is_sensitive lower occurs_in
with_secret-SameFields =
    SameFields.more "name" (text "x") (text "x") _ _ (SameValue.same "name" (text "x")) (
      SameFields.more "request" _ _ end end
        (SameValue.mappings "request" _ _ (
          SameFields.more "api_token" _ _ end end
            (SameValue.secret "api_token" (text "abc") (number 7) refl) SameFields.done))
        SameFields.done)

redact_audit_metadata-SameFields_example :
    redact_audit_metadata (with_secret (field "api_token" (text "abc") end))
    ≡ redact_audit_metadata (with_secret (field "api_token" (number 7) end))
redact_audit_metadata-SameFields_example =
    redact_audit_metadata-SameFields (with_secret (field "api_token" (text "abc") end))
      (with_secret (field "api_token" (number 7) end)) with_secret-SameFields
