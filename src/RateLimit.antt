-- ===== src/RateLimit.antt =====
-- src/coreline_auth/rate_limit.py: `FixedWindowRateLimiter`. A reading of `monotonic()` is a number
-- of nanoseconds, which the clock counts in; a method takes it as `now`.
mod Buckets
pub mod Capacity
pub mod Window
mod Tests
use coreline_auth_module.Common.{
  ℕ, ◌+◌, ◌-◌, ◌*◌, ◌/◌, max, String, Bool, true, false, not, ◌&&◌, Option, none, some, List, [],
  ◌∷◌, leb, length, if◌then◌else◌,
}
use coreline_auth_module.Common.Dict
use coreline_auth_module.Common.Dict.{Dict}
use coreline_auth_module.Errors.{Result, ok, raise, value_error}

pub record RateLimitDecision : Type 0 where
  pub allowed : Bool
  pub retry_after_seconds : Option ℕ

pub record Bucket : Type 0 where
  pub count : ℕ
  pub reset_at : ℕ

pub record Limiter : Type 0 where
  pub buckets : Dict Bucket
  pub max_buckets : ℕ

-- One second of `monotonic()`.
abbrev pub second : ℕ
second = 1000000000

-- `[key for key, (_, reset_at) in self._buckets.items() if current >= reset_at]`
unfoldable pub expired_keys : ℕ → Dict Bucket → List String
expired_keys current [] = []
expired_keys current ((k, b) ∷ d) =
    let rest = expired_keys current d in if leb b.reset_at current then k ∷ rest else rest

unfoldable pub pop_all : List String → Dict Bucket → Dict Bucket
pop_all [] d = d
pop_all (k ∷ ks) d = pop_all ks (Dict.pop k d)

unfoldable pub cleanup_expired : ℕ → Limiter → ℕ × Limiter
unfolding expired_keys pop_all
cleanup_expired now l =
    let expired = expired_keys now l.buckets in
    (length expired, record l { buckets = pop_all expired l.buckets })

-- The first key with the least `reset_at`, from the best so far.
min_key : String → ℕ → Dict Bucket → String
min_key best at [] = best
min_key best at ((k, b) ∷ d) = elim (leb at b.reset_at) [
  | true ↦ min_key best at d
  | false ↦ min_key k b.reset_at d
]

-- `min(self._buckets, key=…)`, which raises on an empty dict.
unfoldable pub oldest_key : Dict Bucket → Result String
unfolding min_key
oldest_key [] = raise (value_error "min() arg is an empty sequence")
oldest_key ((k, b) ∷ d) = ok (min_key k b.reset_at d)

unfoldable pub evict : Result String → Limiter → Result Limiter
evict (raise e) l = raise e
evict (ok k) l = ok (record l { buckets = Dict.pop k l.buckets })

-- The eviction that makes room for a new key.
unfoldable pub make_room : String → Limiter → Result Limiter
unfolding oldest_key evict
make_room key l =
    if not (Dict.contains key l.buckets) && leb l.max_buckets (length l.buckets)
    then evict (oldest_key l.buckets) l
    else ok l

-- The bucket that a check counts in: `get(key, (0, now + window))`, started anew at its end.
unfoldable pub current_bucket : ℕ → ℕ → Option Bucket → Bucket
current_bucket now window none = record { count = 0; reset_at = now + window }
current_bucket now window (some b) =
    if leb b.reset_at now then record { count = 0; reset_at = now + window } else b

-- The decision on a bucket, and the write of the raised count.
unfoldable pub decide : String → ℕ → ℕ → Bucket → Limiter → RateLimitDecision × Limiter
decide key limit now b l =
    if leb limit b.count
    then (
      record { allowed = false; retry_after_seconds = some (max 1 ((b.reset_at - now) / second)) },
      l,
    )
    else (
      record { allowed = true; retry_after_seconds = none },
      record l {
        buckets = Dict.set key (record { count = b.count + 1; reset_at = b.reset_at }) l.buckets;
      },
    )

unfoldable pub after_room :
    String → ℕ → ℕ → ℕ → Result Limiter → Result (RateLimitDecision × Limiter)
unfolding decide current_bucket
after_room key limit window now (raise e) = raise e
after_room key limit window now (ok l) =
    ok (decide key limit now (current_bucket now window (Dict.get key l.buckets)) l)

-- `FixedWindowRateLimiter.check`
unfoldable pub check : String → ℕ → ℕ → ℕ → Limiter → Result (RateLimitDecision × Limiter)
unfolding after_room make_room cleanup_expired
check key limit window_seconds now l =
    after_room key limit (window_seconds * second) now (make_room key (cleanup_expired now l).1)
