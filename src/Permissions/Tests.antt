-- ===== src/Permissions/Tests.antt =====
-- Runs of the permission engine, and its theorems at concrete inputs.
use coreline_auth_module.Common.{◌≡◌, ◌↔◌, refl, inl, inr, true, false, none, some}
use coreline_auth_module.Common.Text.{strip, split, lacks}
use coreline_auth_module.Errors.{ok}
use coreline_auth_module.Models.{Role, AuthProfile}
use coreline_auth_module.Permissions.{
  PermissionStatement, parse, value, permission_matches, PolicyEngine, permissions_for, allows,
}
use coreline_auth_module.Permissions.Matching.{Covers, permission_matches_iff_Covers}
use coreline_auth_module.Permissions.Parsing.{parse-value}
use coreline_auth_module.Permissions.Roles.{IsRead, permissions_for-IsRead}

engine : Unit {0}
unfolding parse value permission_matches permissions_for allows strip split lacks
engine = tt

abbrev update_any : PermissionStatement
update_any = record { resource = "post"; action = "update"; scope = some "any" }

parse-value_example : parse (value update_any) ≡ ok update_any
unfolding engine
parse-value_example = parse-value update_any refl refl refl (inr ("any", refl, refl, refl))

-- An own-scoped wildcard grant does not cover the unscoped statement.
own_is_narrow : permission_matches "record:*:own" "record:update" ≡ false
unfolding engine
own_is_narrow = refl

any_covers_own : permission_matches "record:*:any" "record:update:own" ≡ true
unfolding engine
any_covers_own = refl

abbrev team : PolicyEngine
team = record { profile = AuthProfile.rbac; owner_email = none }

permissions_for-IsRead_example : IsRead "logs:read"
unfolding engine
permissions_for-IsRead_example =
    permissions_for-IsRead team Role.viewer none "logs:read" (inl refl) refl

permission_matches_iff_Covers_example :
    (permission_matches "record:*:any" "record:update:own" ≡ true)
    ↔ Covers "record:*:any" "record:update:own"
permission_matches_iff_Covers_example =
    permission_matches_iff_Covers "record:*:any" "record:update:own"
