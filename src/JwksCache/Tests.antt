-- ===== src/JwksCache/Tests.antt =====
-- Calls for a key that the provider does not have, and the bound at that input.
use coreline_auth_module.Common.{ℕ, String, ◌≡◌, ◌≤◌, ◌+◌, refl, List, [], ◌∷◌, arith, length}
use coreline_auth_module.Common.Dict
use coreline_auth_module.Errors.{Result, ok}
use coreline_auth_module.Json.{Members, end, lookup}
use coreline_auth_module.JwksCache.{
  Cache, jwks_contains_kid, miss_until, set_miss, drop_miss, note_miss, get_jwks, calls,
}
use coreline_auth_module.JwksCache.Fetches.{calls_bounded}

abbrev no_keys : ℕ → String → Result Members
no_keys n uri = ok end

abbrev start : Cache
start = record { ttl_seconds = 3600; cooldown = 60; cache = []; misses = []; fetched = [] }

abbrev times : List ℕ
times = 1000 ∷ 1010 ∷ 1020 ∷ 1059 ∷ []

-- The first call fetches, the second one fetches again for the key, and the others do not.
fetched_twice :
    (calls no_keys "https://x.org/keys" "k" times start).fetched
    ≡ "https://x.org/keys" ∷ "https://x.org/keys" ∷ []
unfolding calls get_jwks jwks_contains_kid miss_until set_miss drop_miss note_miss Dict.get Dict.set
    lookup
fetched_twice = refl

calls_bounded_example : length (calls no_keys "https://x.org/keys" "k" times start).fetched ≤ 0 + 2
calls_bounded_example =
    calls_bounded no_keys (λ n uri. (end, refl)) "https://x.org/keys" "k" 1000 1060 times start
      (omega arith) (omega arith) (omega arith)
