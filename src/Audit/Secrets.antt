-- ===== src/Audit/Secrets.antt =====
-- storage/audit.py: the redacted metadata tells nothing about the values under sensitive keys.
use coreline_auth_module.Common.{ℕ, ◌+◌, ◌≡◌, refl, ap, String, true, leb, if◌then◌else◌}
use coreline_auth_module.Models.{
  Value, text, number, flag, other, items, mapping, Values, nil, cons, Fields, end, field,
}
use coreline_auth_module.Audit.{
  is_sensitive, redact_value, redact_items, redact_fields, redact_mapping, redact_audit_metadata,
  set_field, max_audit_metadata_keys,
}
use coreline_auth_module.Common.Text.{slice_to}

-- Two values under a key, two lists of values and two mappings differ under sensitive keys only.
mutual
  pub data SameValue : String → Value → Value → Type 0 where
    secret : (k : String) (v v' : Value) → is_sensitive k ≡ true → SameValue k v v'
    same : (k : String) (v : Value) → SameValue k v v
    lists :
        (k : String) (vs vs' : Values) → SameValues k vs vs' → SameValue k (items vs) (items vs')
    mappings :
        (k : String) (fs fs' : Fields) → SameFields fs fs' → SameValue k (mapping fs) (mapping fs')

  pub data SameValues : String → Values → Values → Type 0 where
    empty : (k : String) → SameValues k nil nil
    both :
        (k : String) (v v' : Value) (vs vs' : Values)
        → SameValue k v v'
        → SameValues k vs vs'
        → SameValues k (cons v vs) (cons v' vs')

  pub data SameFields : Fields → Fields → Type 0 where
    done : SameFields end end
    more :
        (k : String) (v v' : Value) (fs fs' : Fields)
        → SameValue k v v'
        → SameFields fs fs'
        → SameFields (field k v fs) (field k v' fs')

hidden :
    (k : String) (d : ℕ) (v : Value)
    → is_sensitive k ≡ true
    → redact_value k d v ≡ text "[REDACTED]"
unfolding redact_value
hidden k d (text s) h = rw h refl
hidden k d (number n) h = rw h refl
hidden k d (flag b) h = rw h refl
hidden k d other h = rw h refl
hidden k d (items vs) h = rw h refl
hidden k d (mapping fs) h = rw h refl

mutual
  unfolding redact_value redact_items redact_fields

  value-same :
      (k : String) (v v' : Value) (d : ℕ)
      → SameValue k v v'
      → redact_value k d v ≡ redact_value k d v'
  value-same k v v' d (SameValue.secret _ _ _ h) = rw (hidden k d v h, hidden k d v' h) refl
  value-same k v v' d (SameValue.same _ _) = refl
  value-same k v v' d (SameValue.lists _ vs vs' r) = rw (items-same k vs vs' d 0 r) refl
  value-same k v v' d (SameValue.mappings _ fs fs' r) = rw (fields-same fs fs' (d + 1) 0 end r) refl

  items-same :
      (k : String) (vs vs' : Values) (d i : ℕ)
      → SameValues k vs vs'
      → redact_items k d i vs ≡ redact_items k d i vs'
  items-same k vs vs' d i (SameValues.empty _) = refl
  items-same k vs vs' d i (SameValues.both _ v v' ws ws' a r) =
      rw (value-same k v v' (d + 1) a, items-same k ws ws' d (i + 1) r) refl

  fields-same :
      (fs fs' : Fields) (d i : ℕ) (acc : Fields)
      → SameFields fs fs'
      → redact_fields d i fs acc ≡ redact_fields d i fs' acc
  fields-same fs fs' d i acc SameFields.done = refl
  fields-same fs fs' d i acc (SameFields.more k v v' gs gs' a r) = rw (value-same k v v' d a) (
      ap
        (λ x.
          if leb max_audit_metadata_keys i then set_field "_truncated" (text "max_keys") acc else x)
        (fields-same gs gs' d (i + 1) (set_field (slice_to 128 k) (redact_value k d v') acc) r))

-- Metadata that differ only in values under sensitive keys, at any depth, are stored as the same
-- redacted metadata.
pub redact_audit_metadata-SameFields :
    (fs fs' : Fields) → SameFields fs fs' → redact_audit_metadata fs ≡ redact_audit_metadata fs'
unfolding redact_audit_metadata redact_mapping
redact_audit_metadata-SameFields fs fs' r = fields-same fs fs' 0 0 end r
