-- ===== src/RateLimit/Window.antt =====
-- rate_limit.py: within a window a key is admitted at most as often as its limit, whatever checks
-- of other keys come between, as long as the table does not fill up.
use coreline_auth_module.Common.{
  ℕ, suc, ◌+◌, ◌-◌, ◌*◌, ◌≤◌, ◌<◌, max, String, ◌≡◌, Bool, false, not, ◌&&◌, ◌⊎◌, none, some, List,
  [], ◌∷◌, arith, leb, length, inl, inr, Bool-cases, eq_refl, eq_iff, ◌==◌, if◌then◌else◌, lt→leb,
}
use coreline_auth_module.Common.Dict
use coreline_auth_module.Common.Dict.{IsUnique, get-set, set-IsUnique}
use coreline_auth_module.Errors.{ok, raise}
use coreline_auth_module.RateLimit.{
  RateLimitDecision, Bucket, Limiter, second, expired_keys, pop_all, cleanup_expired, make_room,
  current_bucket, decide, after_room, check,
}
use coreline_auth_module.RateLimit.Buckets.{
  length-set, length-pop_all-le, pop_all-IsUnique, get-cleanup_expired, missing-cleanup_expired,
}

pub record Attempt : Type 0 where
  pub key : String
  pub limit : ℕ
  pub window_seconds : ℕ
  pub now : ℕ

-- The number of the checks of a key that are allowed, of checks made one after the other. One that
-- raises ends the run.
unfoldable pub admitted : String → List Attempt → Limiter → ℕ
admitted key [] l = 0
admitted key (a ∷ rest) l = elim (check a.key a.limit a.window_seconds a.now l) [
  | raise e ↦ 0
  | ok (d, l') ↦ (if d.allowed && a.key == key then 1 else 0) + admitted key rest l'
]

-- The key's bucket is open until `reset_at` and has counted so far.
pub record IsOpen (key : String) (count reset_at : ℕ) (l : Limiter) : Type 0 where
  pub unique : IsUnique l.buckets
  pub found : Dict.get key l.buckets ≡ some (record { count = count; reset_at = reset_at })

-- The checks of the key have the limit, all are made before `reset_at`, and there is room for a
-- bucket for each.
abbrev pub AreWithin : String → ℕ → ℕ → List Attempt → ℕ → Type 0
AreWithin key limit reset_at [] room = Unit
AreWithin key limit reset_at (a ∷ rest) room =
    (a.now < reset_at)
    × (a.key ≡ key → a.limit ≡ limit)
    × (0 < room)
    × AreWithin key limit reset_at rest (room - 1)

and_false : (b : Bool) → (not b && false) ≡ false
and_false b = ground arith

module _ (key : String) (a : Attempt) (l : Limiter) (room : length l.buckets < l.max_buckets) where
  abbrev cleaned : Limiter
  cleaned = (cleanup_expired a.now l).1

  abbrev own_bucket : Bucket
  own_bucket = current_bucket a.now (a.window_seconds * second) (Dict.get a.key cleaned.buckets)

  abbrev outcome : RateLimitDecision × Limiter
  outcome = decide a.key a.limit a.now own_bucket cleaned

  check-outcome : check a.key a.limit a.window_seconds a.now l ≡ ok outcome
  unfolding check after_room make_room cleanup_expired
  check-outcome =
      rw
        (lt→leb l.max_buckets (length (pop_all (expired_keys a.now l.buckets) l.buckets))
          (omega (arith, length-pop_all-le (expired_keys a.now l.buckets) l.buckets)))
        (rw (and_false (Dict.contains a.key (pop_all (expired_keys a.now l.buckets) l.buckets))))

  outcome-length :
      (length outcome.1.buckets ≤ length l.buckets + 1) × (outcome.1.max_buckets ≡ l.max_buckets)
  unfolding decide cleanup_expired
  outcome-length = ground (
    arith,
    length-pop_all-le (expired_keys a.now l.buckets) l.buckets,
    length-set a.key (record { count = own_bucket.count + 1; reset_at = own_bucket.reset_at })
        cleaned.buckets,
  )

  outcome-IsUnique : IsUnique l.buckets → IsUnique outcome.1.buckets
  unfolding decide cleanup_expired
  outcome-IsUnique u = elim (Bool-cases (leb a.limit own_bucket.count)) [
    | inl full ↦ rw full (pop_all-IsUnique (expired_keys a.now l.buckets) l.buckets u)
    | inr free ↦ rw free (
        set-IsUnique a.key _ cleaned.buckets
          (pop_all-IsUnique (expired_keys a.now l.buckets) l.buckets u))
  ]

  -- What the check adds to the count of the key.
  abbrev added : ℕ
  added = if outcome.0.allowed && a.key == key then 1 else 0

  module _ (count reset_at : ℕ) (o : IsOpen key count reset_at l) (early : a.now < reset_at) where
    still_there :
        Dict.get key cleaned.buckets ≡ some (record { count = count; reset_at = reset_at })
    still_there = ground (
      arith,
      get-cleanup_expired a.now key l (record { count = count; reset_at = reset_at }) o.unique
          o.found,
    )

    outcome-IsOpen : IsOpen key (count + added) reset_at outcome.1
    unfolding decide current_bucket
    outcome-IsOpen = record {
      unique = outcome-IsUnique o.unique;
      found = ground (
        arith,
        still_there,
        eq_iff a.key key,
        get-set a.key key (record { count = own_bucket.count + 1; reset_at = own_bucket.reset_at })
            cleaned.buckets,
      );
    }

    added-le : a.key ≡ key → added ≤ a.limit - count
    unfolding decide current_bucket
    added-le e = ground (arith, still_there)

    added_other : (a.key == key) ≡ false → added ≡ 0
    added_other h = ground arith

admitted_step :
    (key : String) (a : Attempt) (rest : List Attempt) (l : Limiter)
    (room : length l.buckets < l.max_buckets)
    → admitted key (a ∷ rest) l ≡ added key a l room + admitted key rest (outcome key a l room).1
unfolding admitted
admitted_step key a rest l room = rw (admitted, check-outcome key a l room)

-- While the window of a key is open, its count and the checks that are still admitted stay within
-- the limit.
admitted_open :
    (key : String) (limit reset_at : ℕ) (attempts : List Attempt) (room count : ℕ) (l : Limiter)
    → length l.buckets + room ≤ l.max_buckets
    → AreWithin key limit reset_at attempts room
    → IsOpen key count reset_at l
    → admitted key attempts l + count ≤ max limit count
unfolding admitted
admitted_open key limit reset_at [] room count l fits w o = omega arith
admitted_open key limit reset_at (a ∷ rest) room count l fits w o =
    let free : length l.buckets < l.max_buckets = omega arith in
    let n = added key a l free in
    let size = outcome-length key a l free in
    let next =
      admitted_open key limit reset_at rest (room - 1) (count + n) (outcome key a l free).1
        (omega (arith, size, w.2)) w.3 (outcome-IsOpen key a l free count reset_at o w.0) in
    elim (Bool-cases (a.key == key)) [
      | inl same ↦
          let e = (eq_iff a.key key).0 same in
          omega (
            arith,
            admitted_step key a rest l free,
            next,
            w.1 e,
            added-le key a l free count reset_at o w.0 e,
          )
      | inr other ↦ omega (
        arith,
        admitted_step key a rest l free,
        next,
        added_other key a l free count reset_at o w.0 other,
      )
    ]

-- The bucket of the key is missing, or its time is up at `now`.
abbrev pub IsShut : String → ℕ → Limiter → Type 0
IsShut key now l =
    (Dict.get key l.buckets ≡ none)
    ⊎ ((b : Bucket) × (Dict.get key l.buckets ≡ some b) × (b.reset_at ≤ now))

missing_when_shut :
    (key : String) (now : ℕ) (l : Limiter)
    → IsUnique l.buckets
    → IsShut key now l
    → Dict.get key (cleanup_expired now l).1.buckets ≡ none
missing_when_shut key now l u (inl e) = missing-cleanup_expired now key l e
missing_when_shut key now l u (inr (b, e, h)) = ground (arith, get-cleanup_expired now key l b u e)

-- The first check of a window opens it with a count of 1.
first-IsOpen :
    (key : String) (a : Attempt) (l : Limiter) (room : length l.buckets < l.max_buckets)
    → IsUnique l.buckets
    → a.key ≡ key
    → 0 < a.limit
    → IsShut key a.now l
    → IsOpen key 1 (a.now + a.window_seconds * second) (outcome key a l room).1
      × (added key a l room ≡ 1)
unfolding decide current_bucket
first-IsOpen key a l room u e p shut =
    let gone = missing_when_shut key a.now l u shut in
    (
      record {
        unique = outcome-IsUnique key a l room u;
        found = ground (
          arith,
          gone,
          eq_refl key,
          get-set a.key key (record { count = 1; reset_at = a.now + a.window_seconds * second })
              (cleanup_expired a.now l).1.buckets,
        );
      },
      ground (arith, gone, eq_refl key),
    )

-- From the check that opens a key's window on, at most `limit` of the key's checks are allowed
-- until the window ends, whatever checks of other keys come between, if the limit is positive and
-- the same for all of them and the table has room for a bucket for each check.
pub admitted-le-limit :
    (key : String) (a : Attempt) (rest : List Attempt) (room : ℕ) (l : Limiter)
    → IsUnique l.buckets
    → a.key ≡ key
    → 0 < a.limit
    → IsShut key a.now l
    → length l.buckets + suc room ≤ l.max_buckets
    → AreWithin key a.limit (a.now + a.window_seconds * second) rest room
    → admitted key (a ∷ rest) l ≤ a.limit
admitted-le-limit key a rest room l u e p shut fits w =
    let free : length l.buckets < l.max_buckets = omega arith in
    let (open_, one) = first-IsOpen key a l free u e p shut in
    omega (
      arith,
      admitted_step key a rest l free,
      one,
      admitted_open key a.limit (a.now + a.window_seconds * second) rest room 1
          (outcome key a l free).1 (omega (arith, outcome-length key a l free)) w open_,
    )
