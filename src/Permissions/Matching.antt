-- ===== src/Permissions/Matching.antt =====
-- permissions.py: what a permission covers, against a description by cases.
use coreline_auth_module.Common.{
  String, ◌≡◌, refl, ◌↔◌, ◌⊎◌, inl, inr, true, Option, none, some, arith, eq_iff, Bool-cases, ◌==◌,
  ◌||◌,
}
use coreline_auth_module.Errors.{Result, ok, raise}
use coreline_auth_module.Permissions.{
  all_permissions, any_scope, own_scope, PermissionStatement, parse, scope_covers, statement_covers,
  covers_parsed, permission_matches,
}

-- A granted scope covers a required one.
pub data ScopeCovers (g r : Option String) : Type 0 where
  unscoped : g ≡ none → ScopeCovers g r
  wildcard : g ≡ some all_permissions → ScopeCovers g r
  same : g ≡ r → ScopeCovers g r
  any_unscoped : g ≡ some any_scope → r ≡ none → ScopeCovers g r
  any_own : g ≡ some any_scope → r ≡ some own_scope → ScopeCovers g r

-- A granted permission covers a required one.
pub data Covers (granted required : String) : Type 0 where
  everything : granted ≡ all_permissions → Covers granted required
  same : granted ≡ required → Covers granted required
  parsed :
      (g r : PermissionStatement)
      → parse granted ≡ ok g
      → parse required ≡ ok r
      → (g.resource ≡ all_permissions) ⊎ (g.resource ≡ r.resource)
      → (g.action ≡ all_permissions) ⊎ (g.action ≡ r.action)
      → ScopeCovers g.scope r.scope
      → Covers granted required

scope_covers_sound : (g r : Option String) → scope_covers g r ≡ true → ScopeCovers g r
unfolding scope_covers
scope_covers_sound none r h = ScopeCovers.unscoped refl
scope_covers_sound (some s) none h = elim (Bool-cases (s == all_permissions)) [
  | inl w ↦ ScopeCovers.wildcard (ground (arith, eq_iff s all_permissions))
  | inr nw ↦ ScopeCovers.any_unscoped (ground (arith, eq_iff s any_scope)) refl
]
scope_covers_sound (some s) (some t) h = elim (Bool-cases (s == all_permissions)) [
  | inl w ↦ ScopeCovers.wildcard (ground (arith, eq_iff s all_permissions))
  | inr nw ↦ elim (Bool-cases (s == t)) [
    | inl e ↦ ScopeCovers.same (ground (arith, eq_iff s t))
    | inr ns ↦
        ScopeCovers.any_own (ground (arith, eq_iff s any_scope, eq_iff t own_scope))
          (ground (arith, eq_iff s any_scope, eq_iff t own_scope))
  ]
]

scope_covers_complete : (g r : Option String) → ScopeCovers g r → scope_covers g r ≡ true
unfolding scope_covers
scope_covers_complete g r (ScopeCovers.unscoped e) = ground arith
scope_covers_complete g r (ScopeCovers.wildcard e) =
    ground (arith, eq_iff all_permissions all_permissions)
scope_covers_complete none r (ScopeCovers.same e) = refl
scope_covers_complete (some s) r (ScopeCovers.same e) = ground (arith, eq_iff s s)
scope_covers_complete g r (ScopeCovers.any_unscoped e f) = ground arith
scope_covers_complete g r (ScopeCovers.any_own e f) = ground arith

part_covers_sound :
    (g r : String) → (g == all_permissions || g == r) ≡ true → (g ≡ all_permissions) ⊎ (g ≡ r)
part_covers_sound g r h = ground (arith, eq_iff g all_permissions, eq_iff g r)

part_covers_complete :
    (g r : String) → (g ≡ all_permissions) ⊎ (g ≡ r) → (g == all_permissions || g == r) ≡ true
part_covers_complete g r h = ground (arith, eq_iff g all_permissions, eq_iff g r)

covers_parsed_sound :
    (granted required : String) (p q : Result PermissionStatement)
    → parse granted ≡ p
    → parse required ≡ q
    → covers_parsed p q ≡ true
    → Covers granted required
unfolding covers_parsed statement_covers
covers_parsed_sound granted required (ok g) (ok r) e f h =
    Covers.parsed g r e f (part_covers_sound g.resource r.resource (ground arith))
      (part_covers_sound g.action r.action (ground arith))
      (scope_covers_sound g.scope r.scope (ground arith))
covers_parsed_sound granted required (ok g) (raise x) e f h = cc
covers_parsed_sound granted required (raise x) q e f h = cc

permission_matches_sound :
    (granted required : String)
    → permission_matches granted required ≡ true
    → Covers granted required
unfolding permission_matches
permission_matches_sound granted required h = elim (Bool-cases (granted == all_permissions)) [
  | inl a ↦ Covers.everything ((eq_iff granted all_permissions).0 a)
  | inr na ↦ elim (Bool-cases (granted == required)) [
    | inl s ↦ Covers.same ((eq_iff granted required).0 s)
    | inr ns ↦
        covers_parsed_sound granted required (parse granted) (parse required) refl refl
          (rw (na, ns) at h)
  ]
]

permission_matches_complete :
    (granted required : String)
    → Covers granted required
    → permission_matches granted required ≡ true
unfolding permission_matches covers_parsed statement_covers
permission_matches_complete granted required (Covers.everything e) =
    ground (arith, eq_iff granted all_permissions)
permission_matches_complete granted required (Covers.same e) =
    ground (arith, eq_iff granted required)
permission_matches_complete granted required (Covers.parsed g r e f p q s) = ground (
  arith,
  part_covers_complete g.resource r.resource p,
  part_covers_complete g.action r.action q,
  scope_covers_complete g.scope r.scope s,
)

-- A granted permission matches a required one exactly when it is `*`, the same text, or both are
-- statements whose resource and action the granted one covers by `*` or by equality and whose
-- scope it covers: unscoped and `*` cover every scope, a scope covers itself, and `any` covers
-- both the missing scope and `own`.
pub permission_matches_iff_Covers :
    (granted required : String)
    → (permission_matches granted required ≡ true) ↔ Covers granted required
permission_matches_iff_Covers granted required =
    (permission_matches_sound granted required, permission_matches_complete granted required)
