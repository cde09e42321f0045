-- ===== src/JwksCache/Fetches.antt =====
-- discovery.py: how often a key set is fetched.
use coreline_auth_module.Common.{
  ℕ, ◌+◌, ◌≤◌, ◌<◌, String, ◌≡◌, refl, sym, subst, List, [], ◌∷◌, arith, length, inl, inr,
}
use coreline_auth_module.Errors.{Result, ok}
use coreline_auth_module.Json.{Members}
use coreline_auth_module.JwksCache.{Cache, calls}
use coreline_auth_module.JwksCache.Cooldown.{
  IsFresh, IsQuiet, IsWindow, quiet_call, fresh_call, first_call,
}

-- Every time of the list lies in the window.
abbrev pub InWindow : ℕ → ℕ → List ℕ → Type 0
InWindow start until [] = Unit {0}
InWindow start until (t ∷ ts) = ((start ≤ t) × (t < until)) × InWindow start until ts

abbrev fetches : Cache → ℕ
fetches c = length c.fetched

module _ (fetch : ℕ → String → Result Members)
    (returns : (n : ℕ) (uri : String) → (jwks : Members) × (fetch n uri ≡ ok jwks))
    (uri kid : String) (start until : ℕ) where
  quiet_calls :
      (ts : List ℕ) (c : Cache)
      → InWindow start until ts
      → IsQuiet uri kid until c
      → fetches (calls fetch uri kid ts c) ≡ fetches c
  unfolding calls
  quiet_calls [] c i q = refl
  quiet_calls (t ∷ ts) c i q =
      subst (λ d. fetches (calls fetch uri kid ts d) ≡ fetches c)
        (sym (quiet_call fetch returns uri kid until t c i.0.1 q)) (quiet_calls ts c i.1 q)

  fresh_calls :
      (ts : List ℕ) (c : Cache)
      → InWindow start until ts
      → IsWindow start until c
      → IsFresh uri until c
      → fetches (calls fetch uri kid ts c) ≤ fetches c + 1
  unfolding calls
  fresh_calls [] c i w f = omega arith
  fresh_calls (t ∷ ts) c i w f =
      elim (fresh_call fetch returns uri kid until start t c i.0.0 i.0.1 w f) [
        | inl same ↦
            subst (λ d. fetches (calls fetch uri kid ts d) ≤ fetches c + 1) (sym same)
              (fresh_calls ts c i.1 w f)
        | inr ((q, w'), more) ↦ omega (arith, more, quiet_calls ts _ i.1 q)
      ]

  any_calls :
      (ts : List ℕ) (c : Cache)
      → InWindow start until ts
      → IsWindow start until c
      → fetches (calls fetch uri kid ts c) ≤ fetches c + 2
  unfolding calls
  any_calls [] c i w = omega arith
  any_calls (t ∷ ts) c i w = elim (first_call fetch returns uri kid until start t c i.0.0 w) [
    | inl same ↦
        subst (λ d. fetches (calls fetch uri kid ts d) ≤ fetches c + 2) (sym same)
          (any_calls ts c i.1 w)
    | inr ((f, w'), more) ↦ omega (arith, more, fresh_calls ts _ i.1 w' f)
  ]

  -- In a span of time within one lifetime of a document and one cooldown, any number of calls for
  -- the same URI and key fetch at most twice, from any state of the cache, where fetches return.
  pub calls_bounded :
      (ts : List ℕ) (c : Cache)
      → InWindow start until ts
      → until ≤ start + c.ttl_seconds
      → until ≤ start + c.cooldown
      → length (calls fetch uri kid ts c).fetched ≤ length c.fetched + 2
  calls_bounded ts c i lifetime cooldown =
      any_calls ts c i (record { lifetime = lifetime; cooldown = cooldown })
