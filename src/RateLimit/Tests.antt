-- ===== src/RateLimit/Tests.antt =====
-- The theorems on the limiter at concrete inputs.
use coreline_auth_module.Common.{◌≡◌, refl, inl, ◌≤◌, [], ◌∷◌, length, arith}
use coreline_auth_module.Common.Dict
use coreline_auth_module.Errors.{ok}
use coreline_auth_module.RateLimit.{RateLimitDecision, Limiter, check}
use coreline_auth_module.RateLimit.Capacity.{check_bounded}
use coreline_auth_module.RateLimit.Window.{Attempt, admitted, admitted-le-limit}

methods : Unit {0}
unfolding check admitted Dict.get Dict.set
methods = tt

-- A full table of one bucket.
abbrev full : Limiter
full = record {
  buckets = ("k", record { count = 3; reset_at = 90000000000 }) ∷ [];
  max_buckets = 1;
}

check_bounded_example :
    (d : RateLimitDecision) × (l' : Limiter) × (check "j" 5 60 7 full ≡ ok (d, l'))
    × (length l'.buckets ≤ l'.max_buckets)
    × (l'.max_buckets ≡ full.max_buckets)
check_bounded_example = check_bounded "j" 5 60 7 full (omega arith) (omega arith)

abbrev attempt : Attempt
attempt = record { key = "k"; limit = 1; window_seconds = 60; now = 5 }

abbrev room_for_three : Limiter
room_for_three = record { buckets = []; max_buckets = 3 }

-- The second of two attempts is not admitted.
admitted_once : admitted "k" (attempt ∷ record attempt { now = 6 } ∷ []) room_for_three ≡ 1
unfolding methods
admitted_once = refl

admitted-le-limit_example :
    admitted "k" (attempt ∷ record attempt { now = 6 } ∷ []) room_for_three ≤ 1
unfolding methods
admitted-le-limit_example =
    admitted-le-limit "k" attempt (record attempt { now = 6 } ∷ []) 1 room_for_three tt refl
      (omega arith) (inl refl) (omega arith) (omega arith, λ e. refl, omega arith, tt)
