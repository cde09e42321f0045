-- ===== src/Permissions/Parsing.antt =====
-- permissions.py: a statement is read back from its text.
use Prim.Native.Char.{Char}
use Prim.Native.String
use Prim.Native.String.append
use mathlib.Core.Path.{subst}
use coreline_auth_module.Common.{
  String, ◌≡◌, refl, sym, ap, ◌∙◌, ◌⊎◌, inl, inr, true, false, Option, none, some, [], ◌∷◌, arith,
  eq_iff, ◌==◌, ◌&&◌, Bool-cases, is_text,
}
use coreline_auth_module.Common.Text.{lacks, split, strip, split-append, split-lacks}
use coreline_auth_module.Errors.{ok}
use coreline_auth_module.Permissions.{
  all_permissions, PermissionStatement, from_parts, parse, value,
}

abbrev colon : Char
colon = ":"

all_lacks : lacks b':' all_permissions ≡ true
unfolding lacks
all_lacks = refl

-- `f"{s}:{t}"`
abbrev joined : String → String → String
joined s t = String.◌++◌ s (String.◌++◌ ":" t)

joined-cons : (s t : String) → joined s t ≡ String.◌++◌ s (String.◌∷◌ colon t)
joined-cons s t = ap (String.◌++◌ s) (append.cons colon "" t ∙ ap (String.◌∷◌ colon) (append.nil t))

lacks-colon : (s t : String) → lacks b':' (String.◌++◌ s (String.◌∷◌ colon t)) ≡ false
unfolding lacks
lacks-colon String.[] t = rw (append.nil (String.◌∷◌ colon t))
lacks-colon (String.◌∷◌ c s) t =
    rw (append.cons c s (String.◌∷◌ colon t)) (ground (arith, lacks-colon s t))

-- A text with a colon inside is not `*`.
joined-ne_all : (s t : String) → (joined s t == all_permissions) ≡ false
joined-ne_all s t = elim (Bool-cases (joined s t == all_permissions)) [
  | inl h ↦ absurd (clash ((eq_iff (joined s t) all_permissions).0 h))
  | inr h ↦ h
]
  where
    clash : joined s t ≡ all_permissions → ⊥
    clash e = cc (ap (lacks b':') e, ap (lacks b':') (joined-cons s t), lacks-colon s t, all_lacks)

parse-joined :
    (s t : String)
    → strip (joined s t) ≡ joined s t
    → lacks b':' s ≡ true
    → parse (joined s t) ≡ from_parts (s ∷ split b':' t)
unfolding parse
parse-joined s t e h =
    rw (e, joined-ne_all s t) (rw (joined-cons s t) (rw (split-append b':' s colon t h refl)))

abbrev statement : String → String → Option String → PermissionStatement
statement r a sc = record { resource = r; action = a; scope = sc }

all_round_trip : parse all_permissions ≡ ok (statement all_permissions all_permissions none)
unfolding parse strip
all_round_trip = refl

value-unscoped :
    (r a : String)
    → (value (statement r a none) ≡ all_permissions) × (r ≡ all_permissions) × (a ≡ all_permissions)
      ⊎ (value (statement r a none) ≡ joined r a)
unfolding value
value-unscoped r a = elim (Bool-cases (r == all_permissions && a == all_permissions)) [
  | inl h ↦ inl (
    ground arith,
    ground (arith, eq_iff r all_permissions),
    ground (arith, eq_iff a all_permissions),
  )
  | inr h ↦ inr (ground arith)
]

value-scoped :
    (r a s : String) → is_text s ≡ true → value (statement r a (some s)) ≡ joined r (joined a s)
unfolding value
value-scoped r a s h = ground arith

parse-value_unscoped :
    (r a : String)
    → strip (value (statement r a none)) ≡ value (statement r a none)
    → lacks b':' r ≡ true
    → lacks b':' a ≡ true
    → parse (value (statement r a none)) ≡ ok (statement r a none)
parse-value_unscoped r a e hr ha = elim (value-unscoped r a) [
  | inl (v, p, q) ↦ rw (v, p, q) all_round_trip
  | inr v ↦
      rw v
        (parse-joined r a (rw v at e) hr ∙ (rw (split-lacks b':' a ha) (unfold from_parts in refl)))
]

split_rest :
    (a s : String)
    → lacks b':' a ≡ true
    → lacks b':' s ≡ true
    → split b':' (joined a s) ≡ a ∷ s ∷ []
split_rest a s ha hs =
    rw (joined-cons a s) (rw (split-append b':' a colon s ha refl, split-lacks b':' s hs))

parse-value_scoped :
    (r a s : String)
    → strip (value (statement r a (some s))) ≡ value (statement r a (some s))
    → lacks b':' r ≡ true
    → lacks b':' a ≡ true
    → is_text s ≡ true
    → lacks b':' s ≡ true
    → parse (value (statement r a (some s))) ≡ ok (statement r a (some s))
parse-value_scoped r a s e hr ha hs ls =
    let v = value-scoped r a s hs in
    rw v (
      parse-joined r (joined a s) (rw v at e) hr
      ∙ (rw (split_rest a s ha ls) (unfold from_parts in refl)))

statement_eta :
    (p : PermissionStatement) (sc : Option String)
    → p.scope ≡ sc
    → p ≡ statement p.resource p.action sc
statement_eta p sc q = λ i. record { resource = p.resource; action = p.action; scope = q i }

abbrev IsStripped : PermissionStatement → Type 0
IsStripped p = strip (value p) ≡ value p

abbrev IsReadBack : PermissionStatement → Type 0
IsReadBack p = parse (value p) ≡ ok p

-- A statement is read back from its text, if its text has no white space at the ends, its parts
-- have no colon, and its scope is missing or not empty.
pub parse-value :
    (p : PermissionStatement)
    → strip (value p) ≡ value p
    → lacks b':' p.resource ≡ true
    → lacks b':' p.action ≡ true
    → (p.scope ≡ none)
      ⊎ ((s : String) × (p.scope ≡ some s) × (is_text s ≡ true) × (lacks b':' s ≡ true))
    → parse (value p) ≡ ok p
parse-value p e hr ha (inl q) =
    let eta = statement_eta p none q in
    subst IsReadBack (sym eta)
      (parse-value_unscoped p.resource p.action (subst IsStripped eta e) hr ha)
parse-value p e hr ha (inr (s, q, hs, ls)) =
    let eta = statement_eta p (some s) q in
    subst IsReadBack (sym eta)
      (parse-value_scoped p.resource p.action s (subst IsStripped eta e) hr ha hs ls)
