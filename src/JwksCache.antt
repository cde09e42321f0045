-- ===== src/JwksCache.antt =====
-- src/coreline_auth/social/discovery.py: `JWKSCache`. Times are natural numbers of one unit. A fetch
-- is a call from outside: the host gives the outcome of fetch number n of a URI.
pub mod Cooldown
pub mod Fetches
mod Tests
use coreline_auth_module.Common.{
  ℕ, ◌+◌, String, Bool, true, false, not, ◌&&◌, ◌||◌, Option, some, none, List, [], ◌∷◌, ltb, leb,
  length, ◌==◌, if◌then◌else◌,
}
use coreline_auth_module.Common.Dict
use coreline_auth_module.Common.Dict.{Dict}
use coreline_auth_module.Errors.{Result, ok, raise}
use coreline_auth_module.Json.{Json, Jsons, nil, cons, Members, lookup, as_object, holds_text}

-- A cached document, and the time at which it expires.
pub record Entry : Type 0 where
  pub expires : ℕ
  pub jwks : Members

-- The state, with the URIs that were fetched, the last one first.
pub record Cache : Type 0 where
  pub ttl_seconds : ℕ
  pub cooldown : ℕ
  pub cache : Dict Entry
  pub misses : List (String × String × ℕ)
  pub fetched : List String

-- `isinstance(raw_key, Mapping) and raw_key.get("kid") == kid`
abbrev pub has_kid : String → Json → Bool
has_kid kid raw = elim (as_object raw) [ none ↦ false | some ms ↦ holds_text "kid" kid ms ]

unfoldable pub any_kid : String → Jsons → Bool
unfolding lookup
any_kid kid nil = false
any_kid kid (cons raw keys) = has_kid kid raw || any_kid kid keys

contains_in : String → Option Json → Bool
unfolding any_kid
contains_in kid (some (Json.array keys)) = any_kid kid keys
contains_in kid other = false

-- `_jwks_contains_kid`
unfoldable pub jwks_contains_kid : Members → String → Bool
unfolding contains_in lookup
jwks_contains_kid jwks kid = contains_in kid (lookup "keys" jwks)

abbrev same_key : String → String → String → String → Bool
same_key uri kid u k = u == uri && k == kid

-- `self._kid_miss_refetch_after.get((uri, kid), 0.0)`
unfoldable pub miss_until : String → String → List (String × String × ℕ) → ℕ
miss_until uri kid [] = 0
miss_until uri kid ((u, k, t) ∷ ms) = if same_key uri kid u k then t else miss_until uri kid ms

-- `self._kid_miss_refetch_after.pop((uri, kid), None)`
unfoldable pub drop_miss : String → String → List (String × String × ℕ) → List (String × String × ℕ)
drop_miss uri kid [] = []
drop_miss uri kid ((u, k, t) ∷ ms) =
    let rest = drop_miss uri kid ms in if same_key uri kid u k then rest else (u, k, t) ∷ rest

-- `self._kid_miss_refetch_after[(uri, kid)] = t`
unfoldable pub set_miss :
    String → String → ℕ → List (String × String × ℕ) → List (String × String × ℕ)
set_miss uri kid t [] = (uri, kid, t) ∷ []
set_miss uri kid t ((u, k, s) ∷ ms) =
    if same_key uri kid u k then (u, k, t) ∷ ms else (u, k, s) ∷ set_miss uri kid t ms

-- `self._cache[uri] = (current + self.ttl_seconds, jwks)`
abbrev pub keep : String → ℕ → Members → Cache → Cache
keep uri current jwks c = record c {
  cache = Dict.set uri (record { expires = current + c.ttl_seconds; jwks = jwks }) c.cache;
}

-- What is noted about a key that was missed, after the document was fetched again.
unfoldable pub note_miss : String → String → ℕ → Members → Cache → Cache
unfolding jwks_contains_kid drop_miss set_miss
note_miss uri kid current jwks c =
    if jwks_contains_kid jwks kid
    then record c { misses = drop_miss uri kid c.misses }
    else record c { misses = set_miss uri kid (current + c.cooldown) c.misses }

-- A fetch that was made, and what is done with a document that it returns.
fetched_as : (Members → Cache → Cache) → Result Members → Cache → Result Members × Cache
fetched_as f (raise e) c = (raise e, c)
fetched_as f (ok jwks) c = (ok jwks, f jwks c)

module _ (fetch : ℕ → String → Result Members) where
  -- `self.fetcher(jwks_uri)`, and the rest of the branch.
  fetch_and : String → (Members → Cache → Cache) → Cache → Result Members × Cache
  unfolding fetched_as
  fetch_and uri f c =
      fetched_as f (fetch (length c.fetched) uri) (record c { fetched = uri ∷ c.fetched })

  -- The branch of an entry that is not expired.
  serve_cached : String → Option String → ℕ → Members → Cache → Result Members × Cache
  unfolding jwks_contains_kid miss_until note_miss fetch_and
  serve_cached uri none current jwks c = (ok jwks, c)
  serve_cached uri (some kid) current jwks c =
      if jwks_contains_kid jwks kid || ltb current (miss_until uri kid c.misses)
      then (ok jwks, c)
      else fetch_and uri (λ fresh c'. note_miss uri kid current fresh (keep uri current fresh c')) c

  get_cached : String → Option String → ℕ → Option Entry → Cache → Result Members × Cache
  unfolding fetch_and serve_cached
  get_cached uri kid current none c = fetch_and uri (keep uri current) c
  get_cached uri kid current (some entry) c =
      if leb entry.expires current
      then fetch_and uri (keep uri current) c
      else serve_cached uri kid current entry.jwks c

  unfoldable pub get_jwks : String → Option String → ℕ → Cache → Result Members × Cache
  unfolding get_cached
  get_jwks uri kid current c = get_cached uri kid current (Dict.get uri c.cache) c

  -- Calls for one key, at the times of a list.
  unfoldable pub calls : String → String → List ℕ → Cache → Cache
  unfolding get_jwks
  calls uri kid [] c = c
  calls uri kid (t ∷ ts) c = calls uri kid ts (get_jwks uri (some kid) t c).1
