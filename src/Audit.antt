-- ===== src/Audit.antt =====
-- src/coreline_auth/storage/audit.py: redaction of audit metadata. A dict of metadata is a list of
-- fields; `str(key)` is the key.
pub mod Secrets
mod Tests
use Prim.Native.String
use coreline_auth_module.Common.{
  ℕ, ◌+◌, String, Bool, true, false, ◌||◌, List, [], ◌∷◌, any, ltb, leb, ◌==◌, if◌then◌else◌,
}
use coreline_auth_module.Common.Text.{lower, occurs_in, slice_to}
use coreline_auth_module.Models.{
  Value, text, number, flag, other, items, mapping, Values, nil, cons, Fields, end, field,
}

abbrev pub sensitive_audit_key_parts : List String
sensitive_audit_key_parts = "token" ∷ "password" ∷ "secret" ∷ "credential" ∷ "authorization" ∷ []

abbrev pub max_audit_metadata_keys : ℕ
max_audit_metadata_keys = 50

abbrev pub max_audit_metadata_string_length : ℕ
max_audit_metadata_string_length = 1000

abbrev pub max_audit_metadata_list_items : ℕ
max_audit_metadata_list_items = 50

abbrev pub max_audit_metadata_depth : ℕ
max_audit_metadata_depth = 4

-- `any(part in key.lower() for part in SENSITIVE_AUDIT_KEY_PARTS)`
unfoldable pub is_sensitive : String → Bool
unfolding lower occurs_in
is_sensitive key = any (λ part. occurs_in part (lower key)) sensitive_audit_key_parts

-- `redacted[key] = value`
unfoldable pub set_field : String → Value → Fields → Fields
set_field k v end = field k v end
set_field k v (field j w fs) = if j == k then field k v fs else field j w (set_field k v fs)

-- A text that is too long is cut.
unfoldable pub cut_text : String → String
unfolding slice_to
cut_text s =
    if ltb max_audit_metadata_string_length (String.count s)
    then String.◌++◌ (slice_to max_audit_metadata_string_length s) "...[TRUNCATED]"
    else s

-- `{"_truncated": "max_depth"}`
abbrev pub too_deep : Fields
too_deep = field "_truncated" (text "max_depth") end

unfoldable mutual
  -- `_redact_value`. The branch for a dict is `_redact_mapping` below.
  pub redact_value : String → ℕ → Value → Value
  redact_value key depth (text s) =
      if is_sensitive key then text "[REDACTED]" else text (cut_text s)
  redact_value key depth (number n) = if is_sensitive key then text "[REDACTED]" else number n
  redact_value key depth (flag b) = if is_sensitive key then text "[REDACTED]" else flag b
  redact_value key depth other = if is_sensitive key then text "[REDACTED]" else other
  redact_value key depth (items vs) =
      let redacted = redact_items key depth 0 vs in
      if is_sensitive key then text "[REDACTED]" else items redacted
  redact_value key depth (mapping fs) =
      let redacted = redact_fields (depth + 1) 0 fs end in
      if is_sensitive key
      then text "[REDACTED]"
      else if leb max_audit_metadata_depth (depth + 1)
      then mapping too_deep
      else mapping redacted

  -- The first items of a list, and the mark that there were more.
  pub redact_items : String → ℕ → ℕ → Values → Values
  redact_items key depth i nil = nil
  redact_items key depth i (cons v vs) =
      let rest = cons (redact_value key (depth + 1) v) (redact_items key depth (i + 1) vs) in
      if leb max_audit_metadata_list_items i then cons (text "[TRUNCATED]") nil else rest

  -- The loop of `_redact_mapping` from the field number `i` on.
  pub redact_fields : ℕ → ℕ → Fields → Fields → Fields
  redact_fields depth i end acc = acc
  redact_fields depth i (field k v fs) acc =
      let rest =
        redact_fields depth (i + 1) fs (set_field (slice_to 128 k) (redact_value k depth v) acc) in
      if leb max_audit_metadata_keys i then set_field "_truncated" (text "max_keys") acc else rest

unfoldable pub redact_mapping : ℕ → Fields → Fields
unfolding redact_fields
redact_mapping depth fs =
    if leb max_audit_metadata_depth depth then too_deep else redact_fields depth 0 fs end

unfoldable pub redact_audit_metadata : Fields → Fields
unfolding redact_mapping
redact_audit_metadata fs = redact_mapping 0 fs
