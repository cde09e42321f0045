-- ===== src/Permissions.antt =====
-- src/coreline_auth/permissions.py: permission statements and the policy engine.
pub mod Matching
pub mod Parsing
pub mod Roles
mod Tests
use Prim.Native.String
use coreline_auth_module.Common.{
  String, Bool, true, false, ◌&&◌, ◌||◌, Option, none, some, List, [], ◌∷◌, any, ◌==◌, is_none,
  is_text, has_text, get_or, if◌then◌else◌,
}
use coreline_auth_module.Common.Text.{lower, split, strip}
use coreline_auth_module.Errors.{Error, Result, ok, raise, value_error}
use coreline_auth_module.Models.{Role, AuthProfile}

abbrev pub all_permissions : String
all_permissions = "*"

abbrev pub any_scope : String
any_scope = "any"

abbrev pub own_scope : String
own_scope = "own"

abbrev pub read_only_permissions : List String
read_only_permissions =
    "profile:read" ∷ "health:read" ∷ "dashboard:read" ∷ "services:read" ∷ "toolbox:read"
    ∷ "clients:read" ∷ "settings:read" ∷ "logs:read" ∷ []

abbrev pub user_permissions : List String
user_permissions = "profile:read" ∷ "dashboard:read" ∷ []

-- `RBAC_ROLE_PERMISSIONS`, a dict with every role for a key.
abbrev pub rbac_role_permissions : Role → List String
rbac_role_permissions Role.owner = all_permissions ∷ []
rbac_role_permissions Role.admin = all_permissions ∷ []
rbac_role_permissions Role.viewer = read_only_permissions
rbac_role_permissions Role.user = user_permissions

pub record PermissionStatement : Type 0 where
  pub resource : String
  pub action : String
  pub scope : Option String

-- The statement of the parts between the colons.
from_parts : List String → Result PermissionStatement
from_parts (r ∷ a ∷ []) = ok (record { resource = r; action = a; scope = none })
from_parts (r ∷ a ∷ s ∷ []) = ok (record { resource = r; action = a; scope = some s })
from_parts _ = raise (value_error "invalid permission statement")

-- `PermissionStatement.parse`; the text that the error quotes is left out.
unfoldable pub parse : String → Result PermissionStatement
unfolding from_parts
parse text =
    let value = strip text in
    if value == all_permissions
    then ok (record { resource = all_permissions; action = all_permissions; scope = none })
    else from_parts (split b':' value)

-- `PermissionStatement.value`
unfoldable pub value : PermissionStatement → String
value p =
    if p.resource == all_permissions && p.action == all_permissions && is_none p.scope
    then all_permissions
    else if has_text p.scope
    then String.◌++◌ p.resource
        (String.◌++◌ ":" (String.◌++◌ p.action (String.◌++◌ ":" (get_or p.scope ""))))
    else String.◌++◌ p.resource (String.◌++◌ ":" p.action)

-- `a == b` on optional texts.
abbrev pub eq_scope : Option String → Option String → Bool
eq_scope none none = true
eq_scope none (some _) = false
eq_scope (some _) none = false
eq_scope (some a) (some b) = a == b

-- `scope in {None, OWN_SCOPE}`
abbrev pub is_unscoped_or_own : Option String → Bool
is_unscoped_or_own none = true
is_unscoped_or_own (some s) = s == own_scope

-- The three tests on the scopes at the end of `_permission_matches`.
scope_covers : Option String → Option String → Bool
scope_covers none required = true
scope_covers (some s) required =
    s == all_permissions
    || eq_scope (some s) required
    || s == any_scope && is_unscoped_or_own required

-- The statements are compared part by part.
unfoldable pub statement_covers : PermissionStatement → PermissionStatement → Bool
unfolding scope_covers
statement_covers g r =
    (g.resource == all_permissions || g.resource == r.resource)
    && (g.action == all_permissions || g.action == r.action)
    && scope_covers g.scope r.scope

-- What is left of `_permission_matches` after the `try`.
covers_parsed : Result PermissionStatement → Result PermissionStatement → Bool
unfolding statement_covers
covers_parsed (ok g) (ok r) = statement_covers g r
covers_parsed _ _ = false

unfoldable pub permission_matches : String → String → Bool
unfolding covers_parsed parse
permission_matches granted required =
    if granted == all_permissions || granted == required
    then true
    else covers_parsed (parse granted) (parse required)

pub record PolicyEngine : Type 0 where
  pub profile : AuthProfile
  pub owner_email : Option String

-- `owner_email and email and email.lower() != owner_email.lower()`
is_other_owner : Option String → Option String → Bool
is_other_owner (some o) (some e) =
    if is_text o && is_text e then (if lower e == lower o then false else true) else false
is_other_owner _ _ = false

-- The branch on the profile of `PolicyEngine.permissions_for`.
permissions_by_profile : AuthProfile → Bool → Role → List String
permissions_by_profile AuthProfile.single_owner true role = []
permissions_by_profile AuthProfile.single_owner false Role.owner = all_permissions ∷ []
permissions_by_profile AuthProfile.single_owner false _ = []
permissions_by_profile AuthProfile.admin_viewer other Role.owner = all_permissions ∷ []
permissions_by_profile AuthProfile.admin_viewer other Role.admin = all_permissions ∷ []
permissions_by_profile AuthProfile.admin_viewer other Role.viewer = read_only_permissions
permissions_by_profile AuthProfile.admin_viewer other Role.user = user_permissions
permissions_by_profile AuthProfile.rbac other role = rbac_role_permissions role

unfoldable pub permissions_for : PolicyEngine → Role → Option String → List String
unfolding permissions_by_profile is_other_owner lower
permissions_for policy role email =
    permissions_by_profile policy.profile (is_other_owner policy.owner_email email) role

-- `PolicyEngine.allows`
unfoldable pub allows : List String → String → Bool
allows permissions required = any (λ granted. permission_matches granted required) permissions
