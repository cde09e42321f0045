-- ===== src/Authorization.antt =====
-- src/coreline_auth/authorization.py: permission checks that know who owns the resource.
-- `resource_status` and `metadata` of a context are read nowhere, and are left out.
pub mod Candidates
pub mod Decisions
mod Tests
use Prim.Native.String
use coreline_auth_module.Common.{
  String, Bool, true, false, not, ◌||◌, Option, none, some, List, [], ◌∷◌, select, ◌==◌, has_text,
  is_text, get_or, if◌then◌else◌,
}
use coreline_auth_module.Common.Text.{lower}
use coreline_auth_module.Errors.{Result, ok, raise, ◌>>=◌, authorization_denied, value_error}
use coreline_auth_module.Models.{Role, UserStatus, Principal, is_active}
use coreline_auth_module.Permissions.{
  PermissionStatement, PolicyEngine, parse, value, permissions_for, allows, any_scope, own_scope,
}

pub record PermissionDecision : Type 0 where
  pub allowed : Bool
  pub required : String
  pub reason : String
  pub matched_permission : Option String
  pub scope : Option String

-- `UserStatus | str | None`
pub data ActorStatus : Type 0 where
  unset : ActorStatus
  status : UserStatus → ActorStatus
  named : String → ActorStatus

pub record AuthorizationContext : Type 0 where
  pub actor_user_id : Option String
  pub actor_role : Option Role
  pub actor_status : ActorStatus
  pub resource_owner_id : Option String

-- `AuthorizationContext()`
abbrev pub default_context : AuthorizationContext
default_context = record {
  actor_user_id = none;
  actor_role = none;
  actor_status = ActorStatus.status UserStatus.active;
  resource_owner_id = none;
}

unfoldable pub from_principal : Principal → Option String → AuthorizationContext
from_principal principal owner_id = record {
  actor_user_id = some principal.user.id;
  actor_role = some principal.session.role;
  actor_status = ActorStatus.status principal.user.status;
  resource_owner_id = owner_id;
}

is_active_status : ActorStatus → Bool
unfolding lower
is_active_status ActorStatus.unset = true
is_active_status (ActorStatus.status st) = is_active st
is_active_status (ActorStatus.named s) = lower s == "active"

unfoldable pub actor_active : AuthorizationContext → Bool
unfolding is_active_status
actor_active ctx = is_active_status ctx.actor_status

-- Two ids that are both there, and the same.
same_id : Option String → Option String → Bool
same_id (some a) (some o) = a == o
same_id _ _ = false

unfoldable pub owns_resource : AuthorizationContext → Bool
unfolding same_id
owns_resource ctx = same_id ctx.actor_user_id ctx.resource_owner_id

-- What a caller asks for: `required`, or `resource` and `action`; `scope` in both cases.
pub record Request : Type 0 where
  pub required : Option String
  pub resource : Option String
  pub action : Option String
  pub scope : Option String

required_text : String → Option String → Result PermissionStatement
unfolding parse
required_text text none = parse text
required_text text (some scope) =
    raise (value_error "scope cannot be combined with a required permission string")

required_or_parts : Option String → Request → Result PermissionStatement
unfolding required_text
required_or_parts (some text) q = required_text text q.scope
required_or_parts none q =
    if not (has_text q.resource) || not (has_text q.action)
    then raise (value_error "required permission or resource/action must be provided")
    else ok
        (record { resource = get_or q.resource ""; action = get_or q.action ""; scope = q.scope })

-- `_required_statement`
unfoldable pub required_statement : Request → Result PermissionStatement
unfolding required_or_parts
required_statement q = required_or_parts q.required q

-- `dict.fromkeys`: the first of equal texts is kept.
unfoldable pub dedupe : List String → List String
dedupe [] = []
dedupe (x ∷ xs) = let rest = dedupe xs in x ∷ select (λ y. not (x == y)) rest

-- The value of a statement in another scope.
abbrev pub in_scope : PermissionStatement → Option String → String
in_scope p scope = value (record p { scope = scope })

-- The candidates of the last branch.
wide_candidates : PermissionStatement → Bool → List String
unfolding value
wide_candidates p true =
    in_scope p none ∷ in_scope p (some own_scope) ∷ in_scope p (some any_scope) ∷ []
wide_candidates p false = in_scope p none ∷ in_scope p (some any_scope) ∷ []

candidates_in : PermissionStatement → Bool → Option String → List String
unfolding value wide_candidates
candidates_in p owns none = wide_candidates p owns
candidates_in p owns (some scope) =
    if scope == any_scope
    then in_scope p (some any_scope) ∷ in_scope p none ∷ []
    else if scope == own_scope
    then (if owns
        then in_scope p (some own_scope) ∷ in_scope p (some any_scope) ∷ in_scope p none ∷ []
        else in_scope p (some any_scope) ∷ in_scope p none ∷ [])
    else wide_candidates p owns

-- `_candidate_requirements`
unfoldable pub candidate_requirements : PermissionStatement → AuthorizationContext → List String
unfolding candidates_in owns_resource dedupe
candidate_requirements p ctx = dedupe (candidates_in p (owns_resource ctx) p.scope)

-- `_matched_permission`
unfoldable pub matched_permission : List String → String → Option String
unfolding allows
matched_permission [] required = none
matched_permission (granted ∷ permissions) required =
    let rest = matched_permission permissions required in
    if allows (granted ∷ []) required then some granted else rest

role_permissions : PolicyEngine → Option Role → List String
unfolding permissions_for
role_permissions policy none = []
role_permissions policy (some role) = permissions_for policy role none

-- The permissions that count: the ones given, or the role's if there are none.
unfoldable pub effective_permissions :
    PolicyEngine → Option (List String) → AuthorizationContext → List String
unfolding role_permissions
effective_permissions policy none ctx = role_permissions policy ctx.actor_role
effective_permissions policy (some []) ctx = role_permissions policy ctx.actor_role
effective_permissions policy (some (p ∷ ps)) ctx = p ∷ ps

abbrev pub denied : PermissionStatement → String → PermissionDecision
denied p reason = record {
  allowed = false;
  required = value p;
  reason = reason;
  matched_permission = none;
  scope = none;
}

-- The decision for a candidate that a permission matches: `PermissionStatement.parse` may raise.
granted_by : PermissionStatement → String → String → Result PermissionDecision
unfolding parse value
granted_by p candidate matched = do
  parsed ← parse candidate
  ok (record {
    allowed = true;
    required = value p;
    reason = "allowed";
    matched_permission = some matched;
    scope = parsed.scope;
  })

-- The body of the loop over the candidates: the first match returns.
match_or :
    PermissionStatement
    → String
    → Result PermissionDecision
    → Option String
    → Result PermissionDecision
unfolding granted_by
match_or p candidate rest none = rest
match_or p candidate rest (some matched) = granted_by p candidate matched

unfoldable pub decide_among :
    PermissionStatement → List String → List String → Result PermissionDecision
unfolding matched_permission match_or value
decide_among p effective [] = ok (denied p (String.◌++◌ "missing permission: " (value p)))
decide_among p effective (candidate ∷ candidates) =
    match_or p candidate (decide_among p effective candidates)
      (matched_permission effective candidate)

-- `can` on the statement that is required.
unfoldable pub can_statement :
    PermissionStatement → List String → AuthorizationContext → Result PermissionDecision
unfolding actor_active decide_among candidate_requirements value
can_statement p effective ctx =
    if actor_active ctx
    then decide_among p effective (candidate_requirements p ctx)
    else ok (denied p "actor is not active")

unfoldable pub can :
    PolicyEngine
    → Option (List String)
    → Request
    → Option AuthorizationContext
    → Result PermissionDecision
unfolding required_statement effective_permissions can_statement
can policy permissions q context = do
  p ← required_statement q
  let ctx = get_or context default_context
  can_statement p (effective_permissions policy permissions ctx) ctx

abbrev raise_denied : PermissionDecision → Result PermissionDecision
raise_denied d = if d.allowed then ok d else raise (authorization_denied d.reason)

unfoldable pub require :
    PolicyEngine
    → Option (List String)
    → Request
    → Option AuthorizationContext
    → Result PermissionDecision
unfolding can
require policy permissions q context = can policy permissions q context >>= raise_denied

unfoldable pub can_action :
    PolicyEngine
    → Option (List String)
    → String
    → String
    → Option String
    → Option AuthorizationContext
    → Result PermissionDecision
unfolding can
can_action policy permissions resource action scope context =
    can policy permissions
      (record { required = none; resource = some resource; action = some action; scope = scope })
      context
