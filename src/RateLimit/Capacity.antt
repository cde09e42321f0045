-- ===== src/RateLimit/Capacity.antt =====
-- rate_limit.py: the number of buckets is bounded, and a check returns.
use coreline_auth_module.Common.{
  ℕ, ◌+◌, ◌*◌, ◌≤◌, ◌<◌, String, ◌≡◌, refl, not, ◌&&◌, arith, leb, length, inl, inr, Bool-cases,
  if◌then◌else◌, ◌∙◌,
}
use coreline_auth_module.Common.Dict
use coreline_auth_module.Common.Dict.{get-pop}
use coreline_auth_module.Errors.{ok}
use coreline_auth_module.RateLimit.{
  RateLimitDecision, Bucket, Limiter, second, expired_keys, cleanup_expired, make_room,
  current_bucket, decide, after_room, check,
}
use coreline_auth_module.RateLimit.Buckets.{length-set, evict-oldest, length-pop_all-le}

-- Room for the key: it is there, or fewer buckets than the maximum are.
abbrev HasRoom : String → Limiter → Type 0
HasRoom key l = length l.buckets + (if Dict.contains key l.buckets then 0 else 1) ≤ l.max_buckets

make_room-HasRoom :
    (key : String) (l : Limiter)
    → 0 < l.max_buckets
    → length l.buckets ≤ l.max_buckets
    → (l' : Limiter) × (make_room key l ≡ ok l') × HasRoom key l' × (l'.max_buckets ≡ l.max_buckets)
unfolding make_room
make_room-HasRoom key l p h =
    elim (Bool-cases (not (Dict.contains key l.buckets) && leb l.max_buckets (length l.buckets))) [
      | inl full ↦
          let (k, e, fewer) = evict-oldest l (ground arith) in
          (record l { buckets = Dict.pop k l.buckets }, rw full e, ground arith, refl)
      | inr room ↦ (l, rw room, ground arith, refl)
    ]

decide-length :
    (key : String) (limit now : ℕ) (b : Bucket) (l : Limiter)
    → HasRoom key l
    → (length (decide key limit now b l).1.buckets ≤ l.max_buckets)
      × ((decide key limit now b l).1.max_buckets ≡ l.max_buckets)
unfolding decide
decide-length key limit now b l h =
    ground (arith, length-set key (record { count = b.count + 1; reset_at = b.reset_at }) l.buckets)

-- A check returns, and keeps the number of buckets within `max_buckets`, if that is not 0.
pub check_bounded :
    (key : String) (limit window now : ℕ) (l : Limiter)
    → 0 < l.max_buckets
    → length l.buckets ≤ l.max_buckets
    → (d : RateLimitDecision) × (l' : Limiter) × (check key limit window now l ≡ ok (d, l'))
      × (length l'.buckets ≤ l'.max_buckets)
      × (l'.max_buckets ≡ l.max_buckets)
unfolding check after_room cleanup_expired
check_bounded key limit window now l p h =
    let (l', e, room, same) =
      make_room-HasRoom key (cleanup_expired now l).1 p
        (omega (arith, length-pop_all-le (expired_keys now l.buckets) l.buckets)) in
    let b = current_bucket now (window * second) (Dict.get key l'.buckets) in
    let (short, still) = decide-length key limit now b l' room in
    ((decide key limit now b l').0, (decide key limit now b l').1, rw e, omega arith, still ∙ same)
