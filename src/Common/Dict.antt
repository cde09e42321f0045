-- ===== src/Common/Dict.antt =====
-- Python's `dict` with text keys, in insertion order, and the loops that change it while they go
-- through a copy of its items.
pub mod Sweep
use Prim.Native.Nat.{ℕ, suc, ◌+◌}
use Prim.Native.String.{String}
use mathlib.Core.Path.{◌≡◌, refl}
use mathlib.Core.Bool.{Bool, not}
use mathlib.Core.Option.{Option, none, some}
use mathlib.Core.List.{List, [], ◌∷◌}
use native.Mathlib.Omega.{arith}
use text.Mathlib.Text.{◌==◌}
use text.Mathlib.TextEquality.{eq_iff}
use coreline_auth_module.Common.Tests.{if◌then◌else◌, is_none, get_or}

abbrev pub Dict {ℓ} : Type ℓ → Type ℓ
Dict V = List (String × V)

module _ {ℓ} {V : Type ℓ} where
  -- `d.get(k)`
  unfoldable pub get : String → Dict V → Option V
  get k [] = none
  get k ((j, v) ∷ d) = if j == k then some v else get k d

  -- `k in d`
  abbrev pub contains : String → Dict V → Bool
  contains k d = not (is_none (get k d))

  -- `d[k] = v`: in place, or at the end.
  unfoldable pub set : String → V → Dict V → Dict V
  set k v [] = (k, v) ∷ []
  set k v ((j, w) ∷ d) = if j == k then (k, v) ∷ d else (j, w) ∷ set k v d

  -- `d.pop(k, None)`
  unfoldable pub pop : String → Dict V → Dict V
  pop k [] = []
  pop k ((j, w) ∷ d) = let rest = pop k d in if j == k then rest else (j, w) ∷ rest

  -- `list(d.values())`
  abbrev pub values : Dict V → List V
  values [] = []
  values ((k, v) ∷ d) = v ∷ values d

  -- `for k, v in list(d.items()): …`, where the body leaves the entry (`none`) or replaces its
  -- value and counts it.
  unfoldable pub sweep : (String → V → Option V) → Dict V → Dict V × ℕ → Dict V × ℕ
  sweep f [] acc = acc
  sweep f ((k, v) ∷ items) (d, n) =
      sweep f items (elim (f k v) [ none ↦ (d, n) | some w ↦ (set k w d, n + 1) ])

  -- The keys are distinct, as those of every dict are.
  abbrev pub IsUnique : Dict V → Type ℓ
  IsUnique [] = Unit
  IsUnique ((k, v) ∷ d) = (get k d ≡ none) × IsUnique d

  pub get-set :
      (k j : String) (v : V) (d : Dict V) → get j (set k v d) ≡ (if k == j then some v else get j d)
  unfolding get set
  get-set k j v [] = refl
  get-set k j v ((i, w) ∷ d) = ground (arith, eq_iff k j, eq_iff i k, eq_iff i j, get-set k j v d)

  pub get-pop : (k j : String) (d : Dict V) → get j (pop k d) ≡ (if k == j then none else get j d)
  unfolding get pop
  get-pop k j [] = ground arith
  get-pop k j ((i, w) ∷ d) = ground (arith, eq_iff k j, eq_iff i k, eq_iff i j, get-pop k j d)

  pub set-IsUnique : (k : String) (v : V) (d : Dict V) → IsUnique d → IsUnique (set k v d)
  unfolding get set
  set-IsUnique k v [] u = (refl, tt)
  set-IsUnique k v ((i, w) ∷ d) u =
      ground (arith, eq_iff i k, eq_iff k i, get-set k i v d, set-IsUnique k v d u.1)

  pub pop-IsUnique : (k : String) (d : Dict V) → IsUnique d → IsUnique (pop k d)
  unfolding pop
  pop-IsUnique k [] u = tt
  pop-IsUnique k ((i, w) ∷ d) u = ground (arith, eq_iff k i, get-pop k i d, pop-IsUnique k d u.1)

  -- What the body of a sweep leaves in place of a value.
  abbrev pub swept : (String → V → Option V) → String → V → V
  swept f k v = get_or (f k v) v

  -- The entries that the body replaces.
  abbrev pub count_swept : (String → V → Option V) → Dict V → ℕ
  count_swept f [] = 0
  count_swept f ((k, v) ∷ d) =
      let rest = count_swept f d in if is_none (f k v) then rest else suc rest
