-- ===== src/Authorization/Tests.antt =====
-- Runs of the authorizer, and its theorem at a concrete input.
use coreline_auth_module.Common.{◌≡◌, refl, some, none, [], ◌∷◌, true}
use coreline_auth_module.Common.Text.{strip, split}
use coreline_auth_module.Errors.{ok}
use coreline_auth_module.Permissions.{PermissionStatement, parse, value, allows, permission_matches}
use coreline_auth_module.Authorization.{AuthorizationContext, default_context, can_statement}
use coreline_auth_module.Authorization.Decisions.{DecisionLaw, can_statement-DecisionLaw}

abbrev update : PermissionStatement
update = record { resource = "post"; action = "update"; scope = none }

abbrev author : AuthorizationContext
author = record default_context { actor_user_id = some "u1"; resource_owner_id = some "u1" }

-- An author may update an own post by a grant for own posts.
own_post :
    can_statement update ("post:update:own" ∷ []) author
    ≡ ok (record {
      allowed = true;
      required = "post:update";
      reason = "allowed";
      matched_permission = some "post:update:own";
      scope = some "own";
    })
unfolding can_statement parse value allows permission_matches strip split
own_post = refl

can_statement-DecisionLaw_example :
    DecisionLaw update
      ("post:update:own" ∷ [])
      author
      (can_statement update ("post:update:own" ∷ []) author)
can_statement-DecisionLaw_example = can_statement-DecisionLaw update ("post:update:own" ∷ []) author
