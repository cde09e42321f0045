-- ===== src/RateLimit/Buckets.antt =====
-- rate_limit.py: the table of buckets under its clean-up and its evictions.
use coreline_auth_module.Common.{
  ℕ, suc, ◌≤◌, ◌<◌, String, ◌≡◌, refl, true, false, none, some, List, [], ◌∷◌, arith, ◌==◌, eq_iff,
  eq_refl, ◌⊎◌, any, leb, length, inl, if◌then◌else◌,
}
use coreline_auth_module.Common.Dict
use coreline_auth_module.Common.Dict.{Dict, IsUnique, get-pop, pop-IsUnique}
use coreline_auth_module.Errors.{ok}
use coreline_auth_module.RateLimit.{
  Bucket, Limiter, expired_keys, pop_all, min_key, oldest_key, evict, cleanup_expired,
}

pub length-set :
    (k : String) (b : Bucket) (d : Dict Bucket)
    → length (Dict.set k b d) ≡ (if Dict.contains k d then length d else suc (length d))
unfolding Dict.set Dict.get
length-set k b [] = refl
length-set k b ((j, c) ∷ d) = ground (arith, length-set k b d)

pub length-pop-le : (k : String) (d : Dict Bucket) → length (Dict.pop k d) ≤ length d
unfolding Dict.pop
length-pop-le k [] = omega arith
length-pop-le k ((j, c) ∷ d) = ground (arith, length-pop-le k d)

length-pop-lt :
    (k : String) (d : Dict Bucket) → Dict.contains k d ≡ true → length (Dict.pop k d) < length d
unfolding Dict.pop Dict.get
length-pop-lt k [] h = cc
length-pop-lt k ((j, c) ∷ d) h = ground (arith, length-pop-le k d, length-pop-lt k d)

min_key-in :
    (best : String) (at : ℕ) (d : Dict Bucket)
    → (min_key best at d ≡ best) ⊎ (Dict.contains (min_key best at d) d ≡ true)
unfolding min_key Dict.get
min_key-in best at [] = inl refl
min_key-in best at ((k, b) ∷ d) = ground (
  arith,
  min_key-in best at d,
  min_key-in k b.reset_at d,
  eq_refl k,
  eq_iff k (min_key best at d),
  eq_iff k (min_key k b.reset_at d),
)

contains-min_key :
    (k : String) (b : Bucket) (d : Dict Bucket)
    → Dict.contains (min_key k b.reset_at d) ((k, b) ∷ d) ≡ true
unfolding Dict.get
contains-min_key k b d =
    ground (arith, min_key-in k b.reset_at d, eq_refl k, eq_iff k (min_key k b.reset_at d))

oldest_key-in :
    (d : Dict Bucket)
    → 0 < length d
    → (k : String) × (oldest_key d ≡ ok k) × (length (Dict.pop k d) < length d)
unfolding oldest_key
oldest_key-in [] h = absurd (omega arith)
oldest_key-in ((k, b) ∷ d) h =
    (min_key k b.reset_at d, refl, length-pop-lt _ ((k, b) ∷ d) (contains-min_key k b d))

-- An eviction makes room.
pub evict-oldest :
    (l : Limiter)
    → 0 < length l.buckets
    → (k : String) × (evict (oldest_key l.buckets) l
        ≡ ok (record l { buckets = Dict.pop k l.buckets }))
      × (length (Dict.pop k l.buckets) < length l.buckets)
unfolding evict
evict-oldest l h = let (k, e, fewer) = oldest_key-in l.buckets h in (k, rw e, fewer)

pub length-pop_all-le : (ks : List String) (d : Dict Bucket) → length (pop_all ks d) ≤ length d
unfolding pop_all
length-pop_all-le [] d = omega arith
length-pop_all-le (k ∷ ks) d = omega (arith, length-pop-le k d, length-pop_all-le ks (Dict.pop k d))

pub pop_all-IsUnique : (ks : List String) (d : Dict Bucket) → IsUnique d → IsUnique (pop_all ks d)
unfolding pop_all
pop_all-IsUnique [] d u = u
pop_all-IsUnique (k ∷ ks) d u = pop_all-IsUnique ks (Dict.pop k d) (pop-IsUnique k d u)

get-pop_all :
    (k : String) (ks : List String) (d : Dict Bucket)
    → Dict.get k (pop_all ks d) ≡ (if any (λ j. j == k) ks then none else Dict.get k d)
unfolding pop_all
get-pop_all k [] d = refl
get-pop_all k (j ∷ ks) d = ground (arith, get-pop j k d, get-pop_all k ks (Dict.pop j d))

-- A key that is not there is not listed.
missing_not_listed :
    (now : ℕ) (k : String) (d : Dict Bucket)
    → Dict.get k d ≡ none
    → any (λ j. j == k) (expired_keys now d) ≡ false
unfolding expired_keys Dict.get
missing_not_listed now k [] h = refl
missing_not_listed now k ((j, b) ∷ d) h = ground (arith, missing_not_listed now k d)

-- A key is listed exactly if its bucket's time is up.
listed_iff_expired :
    (now : ℕ) (k : String) (d : Dict Bucket) (b : Bucket)
    → IsUnique d
    → Dict.get k d ≡ some b
    → any (λ j. j == k) (expired_keys now d) ≡ leb b.reset_at now
unfolding expired_keys Dict.get
listed_iff_expired now k [] b u h = cc
listed_iff_expired now k ((j, c) ∷ d) b u h =
    ground (arith, eq_iff j k, missing_not_listed now k d, listed_iff_expired now k d b u.1)

-- What the clean-up leaves under a key.
pub get-cleanup_expired :
    (now : ℕ) (k : String) (l : Limiter) (b : Bucket)
    → IsUnique l.buckets
    → Dict.get k l.buckets ≡ some b
    → Dict.get k (cleanup_expired now l).1.buckets ≡ (if leb b.reset_at now then none else some b)
unfolding cleanup_expired
get-cleanup_expired now k l b u h = ground (
  arith,
  get-pop_all k (expired_keys now l.buckets) l.buckets,
  listed_iff_expired now k l.buckets b u h,
)

pub missing-cleanup_expired :
    (now : ℕ) (k : String) (l : Limiter)
    → Dict.get k l.buckets ≡ none
    → Dict.get k (cleanup_expired now l).1.buckets ≡ none
unfolding cleanup_expired
missing-cleanup_expired now k l h =
    ground (arith, get-pop_all k (expired_keys now l.buckets) l.buckets)
