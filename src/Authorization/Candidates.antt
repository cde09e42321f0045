-- ===== src/Authorization/Candidates.antt =====
-- authorization.py: the candidates that `can` tries, without their order and repetitions.
use coreline_auth_module.Common.{
  ◌≡◌, refl, ap, ◌∙◌, String, Bool, true, false, not, ◌&&◌, ◌||◌, Option, some, none, List, [], ◌∷◌,
  any, any-select, arith, eq_iff, ◌==◌, Bool-cases, inl, inr, if◌then◌else◌,
}
use coreline_auth_module.Permissions.{PermissionStatement, value, any_scope, own_scope, eq_scope}
use coreline_auth_module.Authorization.{
  AuthorizationContext, owns_resource, dedupe, in_scope, candidates_in, candidate_requirements,
  wide_candidates,
}

-- The test holds of the statement without a scope, or for any resource, or for an own resource
-- where the actor owns it and the statement is not about any resource.
pub is_met : (String → Bool) → PermissionStatement → AuthorizationContext → Bool
unfolding value owns_resource
is_met f p ctx =
    f (in_scope p none)
    || f (in_scope p (some any_scope))
    || (owns_resource ctx
        && not (eq_scope p.scope (some any_scope))
        && f (in_scope p (some own_scope)))

module _ (f : String → Bool) where
  -- Copies of an element that is there already count for nothing.
  any-but :
      (x : String) (ys : List String)
      → (f x || any (λ y. not (x == y) && f y) ys) ≡ (f x || any f ys)
  any-but x [] = refl
  any-but x (y ∷ ys) = ground (arith, eq_iff x y, any-but x ys)

  any-dedupe : (xs : List String) → any f (dedupe xs) ≡ any f xs
  unfolding dedupe
  any-dedupe [] = refl
  any-dedupe (x ∷ xs) =
      ap (λ b. f x || b) (any-select f (λ y. not (x == y)) (dedupe xs))
      ∙ any-but x (dedupe xs)
      ∙ ap (λ b. f x || b) (any-dedupe xs)

any-wide :
    (f : String → Bool) (p : PermissionStatement) (owns : Bool)
    → any f (wide_candidates p owns) ≡ (
        f (in_scope p none)
        || f (in_scope p (some any_scope))
        || (owns && f (in_scope p (some own_scope))))
unfolding wide_candidates value
any-wide f p true =
    three (f (in_scope p none)) (f (in_scope p (some own_scope))) (f (in_scope p (some any_scope)))
  where
    three : (a o b : Bool) → (a || (o || (b || false))) ≡ (a || b || (true && o))
    three a o b = ground arith
any-wide f p false = two (f (in_scope p none)) (f (in_scope p (some any_scope)))
  where
    two : (a b : Bool) → (a || (b || false)) ≡ (a || b || false)
    two a b = ground arith

owned : (a b o w : Bool) → (a || b || (w && o)) ≡ (a || b || (w && true && o))
owned a b o w = ground arith

swapped : (a b o w : Bool) → (b || (a || false)) ≡ (a || b || (w && false && o))
swapped a b o w = ground arith

any-own :
    (f : String → Bool) (p : PermissionStatement) (owns : Bool)
    → any f (
        if owns
        then in_scope p (some own_scope) ∷ in_scope p (some any_scope) ∷ in_scope p none ∷ []
        else in_scope p (some any_scope) ∷ in_scope p none ∷ [])
      ≡ (f (in_scope p none)
          || f (in_scope p (some any_scope))
          || (owns && true && f (in_scope p (some own_scope))))
unfolding value
any-own f p true =
    three (f (in_scope p none)) (f (in_scope p (some any_scope))) (f (in_scope p (some own_scope)))
  where
    three : (a b o : Bool) → (o || (b || (a || false))) ≡ (a || b || (true && true && o))
    three a b o = ground arith
any-own f p false =
    swapped (f (in_scope p none)) (f (in_scope p (some any_scope)))
      (f (in_scope p (some own_scope))) false

any-candidates_in :
    (f : String → Bool) (p : PermissionStatement) (owns : Bool) (scope : Option String)
    → any f (candidates_in p owns scope) ≡ (
        f (in_scope p none)
        || f (in_scope p (some any_scope))
        || (owns && not (eq_scope scope (some any_scope)) && f (in_scope p (some own_scope))))
unfolding candidates_in value
any-candidates_in f p owns none =
    any-wide f p owns
    ∙ owned (f (in_scope p none)) (f (in_scope p (some any_scope)))
        (f (in_scope p (some own_scope))) owns
any-candidates_in f p owns (some s) = elim (Bool-cases (s == any_scope)) [
  | inl h ↦ rw h (
      swapped (f (in_scope p none)) (f (in_scope p (some any_scope)))
        (f (in_scope p (some own_scope))) owns)
  | inr h ↦ elim (Bool-cases (s == own_scope)) [
    | inl h' ↦ rw (h, h') (any-own f p owns)
    | inr h' ↦
        rw (h, h')
          (any-wide f p owns
            ∙ owned (f (in_scope p none)) (f (in_scope p (some any_scope)))
                (f (in_scope p (some own_scope))) owns)
  ]
]

pub any-candidates :
    (f : String → Bool) (p : PermissionStatement) (ctx : AuthorizationContext)
    → any f (candidate_requirements p ctx) ≡ is_met f p ctx
unfolding candidate_requirements is_met
any-candidates f p ctx = any-dedupe f _ ∙ any-candidates_in f p (owns_resource ctx) p.scope
