-- ===== src/Permissions/Roles.antt =====
-- permissions.py: what the roles are allowed.
use coreline_auth_module.Common.{
  String, ◌≡◌, refl, sym, ap, ◌∙◌, ◌≢◌, ◌⊎◌, inl, inr, Bool, true, false, Option, none, List, [],
  ◌∷◌, arith, eq_iff, ◌==◌, Bool-cases,
}
use coreline_auth_module.Common.Text.{strip, split}
use coreline_auth_module.Errors.{ok}
use coreline_auth_module.Models.{Role, AuthProfile}
use coreline_auth_module.Permissions.{
  all_permissions, read_only_permissions, user_permissions, PermissionStatement, parse,
  permission_matches, PolicyEngine, permissions_by_profile, permissions_for, allows,
}
use coreline_auth_module.Permissions.Matching.{Covers, permission_matches_iff_Covers}

-- A required permission is a statement with the action `read`.
abbrev pub IsRead : String → Type 0
IsRead required = (r : PermissionStatement) × (parse required ≡ ok r) × (r.action ≡ "read")

-- A granted permission is a statement with the action `read`, and is not `*`.
abbrev GrantsRead : String → Type 0
GrantsRead granted =
    (g : PermissionStatement) × (parse granted ≡ ok g)
    × (g.action ≡ "read")
    × (granted ≢ all_permissions)

abbrev All {ℓ} : (String → Type ℓ) → List String → Type ℓ
All P [] = Unit
All P (x ∷ xs) = P x × All P xs

read_not_all : ◌≢◌ {A = String} "read" all_permissions
read_not_all = ground (arith, eq_iff "read" all_permissions)

Covers-IsRead :
    (granted required : String) → GrantsRead granted → Covers granted required → IsRead required
Covers-IsRead granted required (g, p, a, n) (Covers.everything e) = absurd (n e)
Covers-IsRead granted required (g, p, a, n) (Covers.same e) = (g, ap parse (sym e) ∙ p, a)
Covers-IsRead granted required (g, p, a, n) (Covers.parsed g' r p' q b (inl c) s) =
    absurd (read_not_all (cc))
Covers-IsRead granted required (g, p, a, n) (Covers.parsed g' r p' q b (inr c) s) = (r, q, cc)

allows-IsRead :
    (permissions : List String) (required : String)
    → All GrantsRead permissions
    → allows permissions required ≡ true
    → IsRead required
unfolding allows
allows-IsRead [] required all h = cc
allows-IsRead (x ∷ xs) required all h = elim (Bool-cases (permission_matches x required)) [
  | inl m ↦ Covers-IsRead x required all.0 ((permission_matches_iff_Covers x required).0 m)
  | inr m ↦ allows-IsRead xs required all.1 (ground arith)
]

abbrev read_statement : String → PermissionStatement
read_statement r = record { resource = r; action = "read"; scope = none }

not_all : (s : String) → (s == all_permissions) ≡ false → s ≢ all_permissions
not_all s h e = ground (arith, eq_iff s all_permissions)

read_only-GrantsRead : All GrantsRead read_only_permissions
unfolding parse strip split
read_only-GrantsRead = (
  (read_statement "profile", refl, refl, not_all _ refl),
  (
    (read_statement "health", refl, refl, not_all _ refl),
    (
      (read_statement "dashboard", refl, refl, not_all _ refl),
      (
        (read_statement "services", refl, refl, not_all _ refl),
        (
          (read_statement "toolbox", refl, refl, not_all _ refl),
          (
            (read_statement "clients", refl, refl, not_all _ refl),
            (
              (read_statement "settings", refl, refl, not_all _ refl),
              ((read_statement "logs", refl, refl, not_all _ refl), tt),
            ),
          ),
        ),
      ),
    ),
  ),
)

user-GrantsRead : All GrantsRead user_permissions
unfolding parse strip split
user-GrantsRead = (
  (read_statement "profile", refl, refl, not_all _ refl),
  ((read_statement "dashboard", refl, refl, not_all _ refl), tt),
)

by_profile-GrantsRead :
    (profile : AuthProfile) (other : Bool) (role : Role)
    → (role ≡ Role.viewer) ⊎ (role ≡ Role.user)
    → All GrantsRead (permissions_by_profile profile other role)
unfolding permissions_by_profile
by_profile-GrantsRead AuthProfile.single_owner true role h = tt
by_profile-GrantsRead AuthProfile.single_owner false Role.viewer h = tt
by_profile-GrantsRead AuthProfile.single_owner false Role.user h = tt
by_profile-GrantsRead AuthProfile.admin_viewer other Role.viewer h = read_only-GrantsRead
by_profile-GrantsRead AuthProfile.admin_viewer other Role.user h = user-GrantsRead
by_profile-GrantsRead AuthProfile.rbac other Role.viewer h = read_only-GrantsRead
by_profile-GrantsRead AuthProfile.rbac other Role.user h = user-GrantsRead
by_profile-GrantsRead _ _ Role.owner h = absurd (ground arith)
by_profile-GrantsRead _ _ Role.admin h = absurd (ground arith)

-- Under every profile, what a viewer or a user is allowed is a statement with the action `read`.
pub permissions_for-IsRead :
    (policy : PolicyEngine) (role : Role) (email : Option String) (required : String)
    → (role ≡ Role.viewer) ⊎ (role ≡ Role.user)
    → allows (permissions_for policy role email) required ≡ true
    → IsRead required
unfolding permissions_for
permissions_for-IsRead policy role email required h =
    allows-IsRead _ required (by_profile-GrantsRead policy.profile _ role h)
