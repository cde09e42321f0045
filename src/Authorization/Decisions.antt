-- ===== src/Authorization/Decisions.antt =====
-- authorization.py: what a decision says, without the order and the repetitions of the candidates.
use coreline_auth_module.Common.{
  ◌≡◌, ◌⊎◌, refl, sym, ◌∙◌, subst, String, true, false, ◌&&◌, Option, some, none, List, [], ◌∷◌,
  any, arith, eq_iff, ◌==◌, Bool-cases, inl, inr,
}
use coreline_auth_module.Errors.{Result, ok, raise, ◌>>=◌}
use coreline_auth_module.Permissions.{PermissionStatement, parse, value, permission_matches, allows}
use coreline_auth_module.Authorization.Candidates.{is_met, any-candidates}
use coreline_auth_module.Authorization.{
  PermissionDecision, AuthorizationContext, actor_active, candidate_requirements,
  matched_permission, granted_by, decide_among, match_or, can_statement, denied,
}

-- The permission `m` is one of the list and covers the statement.
pub Covers : List String → String → String → Type 0
unfolding allows
Covers effective c m = (any (λ g. g == m) effective ≡ true) × (allows (m ∷ []) c ≡ true)

-- The permission that is found, exactly if there is one.
found-matched :
    (effective : List String) (c : String)
    → (allows effective c ≡ false) × (matched_permission effective c ≡ none)
      ⊎ (m : String) × (allows effective c ≡ true)
        × (matched_permission effective c ≡ some m)
        × Covers effective c m
unfolding matched_permission allows Covers
found-matched [] c = inl (refl, refl)
found-matched (g ∷ gs) c = elim (Bool-cases (permission_matches g c)) [
  | inl h ↦
      inr (g, ground (arith, h), ground (arith, h), (ground (arith, eq_iff g g), ground (arith, h)))
  | inr h ↦ elim (found-matched gs c) [
    | inl (none_of, missing) ↦ inl (ground (arith, h, none_of), ground (arith, h, missing))
    | inr (m, some_one, at, (listed, covers)) ↦
        inr
          (m, ground (arith, h, some_one), ground (arith, h, at), (ground (arith, listed), covers))
  ]
]

-- A decision among candidates: what it is if it is one, and that an exception has a candidate that
-- a permission covers for its reason.
AmongLaw : PermissionStatement → List String → List String → Result PermissionDecision → Type 0
unfolding value allows
AmongLaw p effective cs (ok d) =
    (d.required ≡ value p)
    × (d.allowed ≡ any (allows effective) cs)
    × (d.allowed ≡ true
        → (m : String) × (c : String) × (d.matched_permission ≡ some m)
          × Covers effective c m
          × (any (λ x. x == c) cs ≡ true))
AmongLaw p effective cs (raise e) = any (allows effective) cs ≡ true

granted_by-AmongLaw :
    (p : PermissionStatement) (effective cs : List String) (c m : String)
    → any (allows effective) cs ≡ true
    → Covers effective c m
    → any (λ x. x == c) cs ≡ true
    → AmongLaw p effective cs (granted_by p c m)
unfolding granted_by AmongLaw
granted_by-AmongLaw p effective cs c m h covers listed = of_parsed (parse c)
  where
    of_parsed :
        (r : Result PermissionStatement)
        → AmongLaw p effective cs (
            r >>= λ parsed. ok (record {
              allowed = true;
              required = value p;
              reason = "allowed";
              matched_permission = some m;
              scope = parsed.scope;
            }))
    of_parsed (ok r) = (refl, sym h, λ _. (m, c, refl, covers, listed))
    of_parsed (raise e) = h

-- A candidate that nothing covers changes nothing.
skip-AmongLaw :
    (p : PermissionStatement) (effective : List String) (c : String) (cs : List String)
    (r : Result PermissionDecision)
    → allows effective c ≡ false
    → AmongLaw p effective cs r
    → AmongLaw p effective (c ∷ cs) r
unfolding AmongLaw
skip-AmongLaw p effective c cs (ok d) h (required, allowed, matched) = (
  required,
  ground (arith, h, allowed),
  λ e. let (m, x, at, covers, listed) = matched e in (m, x, at, covers, ground (arith, listed)),
)
skip-AmongLaw p effective c cs (raise e) h a = ground (arith, h, a)

nothing-AmongLaw :
    (p : PermissionStatement) (effective : List String) (reason : String)
    → AmongLaw p effective [] (ok (denied p reason))
unfolding AmongLaw
nothing-AmongLaw p effective reason = (refl, refl, λ e. absurd (ground (arith, e)))

match_or-AmongLaw :
    (p : PermissionStatement) (effective : List String) (c : String) (cs : List String)
    (rest : Result PermissionDecision) (found : Option String)
    → matched_permission effective c ≡ found
    → AmongLaw p effective cs rest
    → AmongLaw p effective (c ∷ cs) (match_or p c rest found)
unfolding match_or
match_or-AmongLaw p effective c cs rest none e law = elim (found-matched effective c) [
  | inl (none_of, missing) ↦ skip-AmongLaw p effective c cs rest none_of law
  | inr (m, all, at, covers) ↦ absurd (ground (arith, e, at))
]
match_or-AmongLaw p effective c cs rest (some x) e law = elim (found-matched effective c) [
  | inl (none_of, missing) ↦ absurd (ground (arith, e, missing))
  | inr (m, all, at, covers) ↦
      granted_by-AmongLaw p effective (c ∷ cs) c x (ground (arith, all))
        (subst (Covers effective c) (ground (arith, e, at)) covers) (ground (arith, eq_iff c c))
]

decide_among-AmongLaw :
    (p : PermissionStatement) (effective cs : List String)
    → AmongLaw p effective cs (decide_among p effective cs)
unfolding decide_among
decide_among-AmongLaw p effective [] = nothing-AmongLaw p effective _
decide_among-AmongLaw p effective (c ∷ cs) =
    match_or-AmongLaw p effective c cs (decide_among p effective cs)
      (matched_permission effective c) refl (decide_among-AmongLaw p effective cs)

-- What a decision says of the statement that was required.
pub DecisionLaw :
    PermissionStatement → List String → AuthorizationContext → Result PermissionDecision → Type 0
unfolding value allows actor_active
DecisionLaw p effective ctx (ok d) =
    (d.required ≡ value p)
    × (d.allowed ≡ (actor_active ctx && is_met (allows effective) p ctx))
    × (d.allowed ≡ true
        → (m : String) × (c : String) × (d.matched_permission ≡ some m)
          × Covers effective c m
          × (is_met (λ x. x == c) p ctx ≡ true))
DecisionLaw p effective ctx (raise e) = is_met (allows effective) p ctx ≡ true

inactive :
    (p : PermissionStatement) (effective : List String) (ctx : AuthorizationContext)
    → actor_active ctx ≡ false
    → DecisionLaw p effective ctx (ok (denied p "actor is not active"))
unfolding DecisionLaw
inactive p effective ctx h = (refl, ground (arith, h), λ e. absurd (ground (arith, e)))

of_among :
    (p : PermissionStatement) (effective : List String) (ctx : AuthorizationContext)
    (r : Result PermissionDecision)
    → actor_active ctx ≡ true
    → AmongLaw p effective (candidate_requirements p ctx) r
    → DecisionLaw p effective ctx r
unfolding AmongLaw DecisionLaw
of_among p effective ctx (ok d) active (required, allowed, matched) = (
  required,
  ground (arith, active, allowed, any-candidates (allows effective) p ctx),
  λ e.
      let (m, c, at, covers, listed) = matched e in
      (m, c, at, covers, sym (any-candidates (λ x. x == c) p ctx) ∙ listed),
)
of_among p effective ctx (raise e) active a = sym (any-candidates (allows effective) p ctx) ∙ a

-- A decision names the statement that was required, and allows exactly if the actor is active and
-- the permissions cover the statement without a scope, or for any resource, or, where the actor
-- owns the resource and the statement is not about any resource, for an own resource; an allowing
-- decision names one of the permissions, which covers one of those three forms. The call raises
-- only where the permissions cover one.
pub can_statement-DecisionLaw :
    (p : PermissionStatement) (effective : List String) (ctx : AuthorizationContext)
    → DecisionLaw p effective ctx (can_statement p effective ctx)
unfolding can_statement
can_statement-DecisionLaw p effective ctx = elim (Bool-cases (actor_active ctx)) [
  | inl h ↦ rw h (
      of_among p effective ctx _ h
        (decide_among-AmongLaw p effective (candidate_requirements p ctx)))
  | inr h ↦ rw h (inactive p effective ctx h)
]
