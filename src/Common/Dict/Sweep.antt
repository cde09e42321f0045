-- ===== src/Common/Dict/Sweep.antt =====
-- What the loops through a copy of a dict's items leave in the dict, and what they count.
use Prim.Native.Nat.{ℕ, ◌+◌}
use Prim.Native.String.{String}
use mathlib.Core.Path.{◌≡◌, refl}
use mathlib.Core.Option
use mathlib.Core.Option.{Option, none, some}
use mathlib.Core.List.{[], ◌∷◌}
use native.Mathlib.Omega.{arith}
use text.Mathlib.TextEquality.{eq_iff}
use coreline_auth_module.Common.Dict.{
  Dict, get, set, sweep, swept, count_swept, IsUnique, get-set, set-IsUnique,
}

module _ {ℓ} {V : Type ℓ} (f : String → V → Option V) where
  -- The value of a key after the loop, from its value among the items and in the dict.
  abbrev settled : String → Option V → Option V → Option V
  settled k none in_dict = in_dict
  settled k (some v) in_dict = elim (f k v) [ none ↦ in_dict | some w ↦ some w ]

  get-sweep_from :
      (j : String) (items : Dict V) (acc : Dict V × ℕ)
      → IsUnique items
      → get j (sweep f items acc).0 ≡ settled j (get j items) (get j acc.0)
  unfolding sweep get
  get-sweep_from j [] acc u = refl
  get-sweep_from j ((k, v) ∷ items) (d, n) u = ground (
    arith,
    eq_iff k j,
    get-set k j (swept f k v) d,
    get-sweep_from j items (d, n) u.1,
    get-sweep_from j items (set k (swept f k v) d, n + 1) u.1,
  )

  -- A sweep over a dict's own items replaces each value that the body replaces.
  pub get-sweep :
      (j : String) (d : Dict V) (n : ℕ)
      → IsUnique d
      → get j (sweep f d (d, n)).0 ≡ Option.map (swept f j) (get j d)
  get-sweep j d n u = ground (arith, get-sweep_from j d (d, n) u)

  pub sweep-count :
      (items : Dict V) (acc : Dict V × ℕ) → (sweep f items acc).1 ≡ acc.1 + count_swept f items
  unfolding sweep
  sweep-count [] acc = omega arith
  sweep-count ((k, v) ∷ items) (d, n) =
      ground (arith, sweep-count items (d, n), sweep-count items (set k (swept f k v) d, n + 1))

  pub sweep-IsUnique :
      (items : Dict V) (acc : Dict V × ℕ) → IsUnique acc.0 → IsUnique (sweep f items acc).0
  unfolding sweep
  sweep-IsUnique [] acc u = u
  sweep-IsUnique ((k, v) ∷ items) (d, n) u =
      elim (f k v)
        as (λ o.
          IsUnique (sweep f items (elim o [ none ↦ (d, n) | some w ↦ (set k w d, n + 1) ])).0) [
            | none ↦ sweep-IsUnique items (d, n) u
            | some w ↦ sweep-IsUnique items (set k w d, n + 1) (set-IsUnique k w d u)
          ]
