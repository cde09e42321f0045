-- ===== src/JwksCache/Cooldown.antt =====
-- discovery.py: what one call does to the cache of key sets.
use coreline_auth_module.Common.{
  ℕ, suc, ◌+◌, ◌≤◌, ◌<◌, String, ◌≡◌, ◌⊎◌, refl, ap, ◌∙◌, true, false, ◌||◌, some, List, [], ◌∷◌,
  arith, length, leb, ltb, eq_refl, inl, inr, Bool-cases, Option-cases,
}
use coreline_auth_module.Common.Dict
use coreline_auth_module.Common.Dict.{get-set}
use coreline_auth_module.Errors.{Result, ok}
use coreline_auth_module.Json.{Members}
use coreline_auth_module.JwksCache.{
  Cache, Entry, jwks_contains_kid, miss_until, set_miss, keep, note_miss, fetched_as, fetch_and,
  serve_cached, get_cached, get_jwks,
}

miss_until-set_miss :
    (uri kid : String) (t : ℕ) (ms : List (String × String × ℕ))
    → miss_until uri kid (set_miss uri kid t ms) ≡ t
unfolding miss_until set_miss
miss_until-set_miss uri kid t [] = ground (arith, eq_refl uri, eq_refl kid)
miss_until-set_miss uri kid t ((u, k, s) ∷ ms) =
    ground (arith, eq_refl uri, eq_refl kid, miss_until-set_miss uri kid t ms)

-- The document is kept until a time.
pub record IsFresh (uri : String) (until : ℕ) (c : Cache) : Type 0 where
  pub entry : Entry
  pub stored : Dict.get uri c.cache ≡ some entry
  pub lasting : until ≤ entry.expires

-- No call for the key at a time before `until` has a reason to fetch.
pub record IsQuiet (uri kid : String) (until : ℕ) (c : Cache) : Type 0 where
  pub entry : Entry
  pub stored : Dict.get uri c.cache ≡ some entry
  pub lasting : until ≤ entry.expires
  pub settled :
      (t : ℕ)
      → t < until
      → (jwks_contains_kid entry.jwks kid || ltb t (miss_until uri kid c.misses)) ≡ true

-- The times from `start` up to `until` lie within one lifetime and one cooldown.
pub record IsWindow (start until : ℕ) (c : Cache) : Type 0 where
  pub lifetime : until ≤ start + c.ttl_seconds
  pub cooldown : until ≤ start + c.cooldown

-- One more fetch, after which the cache satisfies `P`.
abbrev pub Fetches : (Cache → Type 0) → Cache → Cache → Type 0
Fetches P c c' = P c' × (length c'.fetched ≡ suc (length c.fetched))

module _ (uri kid : String) (until t : ℕ) where
  kept :
      (jwks : Members) (c : Cache)
      → Dict.get uri (keep uri t jwks c).cache
        ≡ some (record { expires = t + c.ttl_seconds; jwks = jwks })
  kept jwks c =
      get-set uri uri (record { expires = t + c.ttl_seconds; jwks = jwks }) c.cache
      ∙ rw (eq_refl uri) refl

  -- Noting a miss leaves the settings and the list of fetches.
  note-same :
      (jwks : Members) (c : Cache)
      → ((note_miss uri kid t jwks c).ttl_seconds ≡ c.ttl_seconds)
        × ((note_miss uri kid t jwks c).cooldown ≡ c.cooldown)
        × ((note_miss uri kid t jwks c).fetched ≡ c.fetched)
  unfolding note_miss
  note-same jwks c = elim (Bool-cases (jwks_contains_kid jwks kid)) [
    | inl there ↦ rw there (refl, refl, refl)
    | inr missed ↦ rw missed (refl, refl, refl)
  ]

  keep-IsFresh :
      (start : ℕ) (jwks : Members) (c : Cache)
      → start ≤ t
      → IsWindow start until c
      → IsFresh uri until (keep uri t jwks c)
  keep-IsFresh start jwks c late w = record {
    entry = record { expires = t + c.ttl_seconds; jwks = jwks };
    stored = kept jwks c;
    lasting = omega (arith, w.lifetime);
  }

  note-IsQuiet :
      (start : ℕ) (jwks : Members) (c : Cache)
      → start ≤ t
      → IsWindow start until c
      → IsQuiet uri kid until (note_miss uri kid t jwks (keep uri t jwks c))
  unfolding note_miss
  note-IsQuiet start jwks c late w = elim (Bool-cases (jwks_contains_kid jwks kid)) [
    | inl there ↦ rw there (record {
      entry = record { expires = t + c.ttl_seconds; jwks = jwks };
      stored = kept jwks c;
      lasting = omega (arith, w.lifetime);
      settled = λ t' early. rw there refl;
    })
    | inr missed ↦ rw missed (record {
      entry = record { expires = t + c.ttl_seconds; jwks = jwks };
      stored = kept jwks c;
      lasting = omega (arith, w.lifetime);
      settled = λ t' early.
          rw (missed, miss_until-set_miss uri kid (t + c.cooldown) c.misses)
            (ground (arith, w.cooldown, early, late));
    })
  ]

module _ (fetch : ℕ → String → Result Members)
    (returns : (n : ℕ) (uri : String) → (jwks : Members) × (fetch n uri ≡ ok jwks))
    (uri kid : String) (until : ℕ) where
  pub quiet_call :
      (t : ℕ) (c : Cache)
      → t < until
      → IsQuiet uri kid until c
      → (get_jwks fetch uri (some kid) t c).1 ≡ c
  unfolding get_jwks get_cached serve_cached
  quiet_call t c early q =
      let late : leb q.entry.expires t ≡ false = ground (arith, early, q.lasting) in
      rw (q.stored, late, q.settled t early) refl

  -- A fetch returns a document, which is then used.
  fetch_and_lem :
      (f : Members → Cache → Cache) (c : Cache)
      → (jwks : Members) × ((fetch_and fetch uri f c).1
          ≡ f jwks (record c { fetched = uri ∷ c.fetched }))
  unfolding fetch_and fetched_as
  fetch_and_lem f c = let (jwks, e) = returns (length c.fetched) uri in (jwks, rw e refl)

  -- The document is fetched for a key that is missed, and the key is settled.
  missed_call :
      (start t : ℕ) (c : Cache)
      → start ≤ t
      → IsWindow start until c
      → Fetches
          (λ c'. IsQuiet uri kid until c' × IsWindow start until c')
          c
          (fetch_and fetch uri (λ fresh c'. note_miss uri kid t fresh (keep uri t fresh c')) c).1
  missed_call start t c late w =
      let f : Members → Cache → Cache =
        λ fresh c'. note_miss uri kid t fresh (keep uri t fresh c') in
      let (jwks, e) = fetch_and_lem f c in
      let c₁ : Cache = record c { fetched = uri ∷ c.fetched } in
      let w₁ : IsWindow start until c₁ = record { lifetime = w.lifetime; cooldown = w.cooldown } in
      let (ttl, cooldown, fetched) = note-same uri kid until t jwks (keep uri t jwks c₁) in
      rw e (
        (
          note-IsQuiet uri kid until t start jwks c₁ late w₁,
          record { lifetime = rw ttl w.lifetime; cooldown = rw cooldown w.cooldown },
        ),
        ap length fetched,
      )

  -- A call that an entry serves changes nothing, or fetches and settles the key.
  serve_call :
      (start t : ℕ) (jwks : Members) (c : Cache)
      → start ≤ t
      → IsWindow start until c
      → ((serve_cached fetch uri (some kid) t jwks c).1 ≡ c)
        ⊎ Fetches
            (λ c'. IsQuiet uri kid until c' × IsWindow start until c')
            c
            (serve_cached fetch uri (some kid) t jwks c).1
  unfolding serve_cached
  serve_call start t jwks c late w =
      elim (Bool-cases (jwks_contains_kid jwks kid || ltb t (miss_until uri kid c.misses))) [
        | inl known ↦ rw known (inl refl)
        | inr missed ↦ rw missed (inr (missed_call start t c late w))
      ]

  pub fresh_call :
      (start t : ℕ) (c : Cache)
      → start ≤ t
      → t < until
      → IsWindow start until c
      → IsFresh uri until c
      → ((get_jwks fetch uri (some kid) t c).1 ≡ c)
        ⊎ Fetches
            (λ c'. IsQuiet uri kid until c' × IsWindow start until c')
            c
            (get_jwks fetch uri (some kid) t c).1
  unfolding get_jwks get_cached
  fresh_call start t c late early w f =
      let valid : leb f.entry.expires t ≡ false = ground (arith, early, f.lasting) in
      rw (f.stored, valid) (serve_call start t f.entry.jwks c late w)

  -- A call that finds no valid entry fetches one.
  renewed_call :
      (start t : ℕ) (c : Cache)
      → start ≤ t
      → IsWindow start until c
      → Fetches
          (λ c'. IsFresh uri until c' × IsWindow start until c')
          c
          (fetch_and fetch uri (keep uri t) c).1
  renewed_call start t c late w =
      let (jwks, e) = fetch_and_lem (keep uri t) c in
      let c₁ : Cache = record c { fetched = uri ∷ c.fetched } in
      let w₁ : IsWindow start until c₁ = record { lifetime = w.lifetime; cooldown = w.cooldown } in
      rw e (
        (
          keep-IsFresh uri kid until t start jwks c₁ late w₁,
          record { lifetime = w.lifetime; cooldown = w.cooldown },
        ),
        refl,
      )

  -- After a call from any state the document is fresh, or nothing has changed.
  pub first_call :
      (start t : ℕ) (c : Cache)
      → start ≤ t
      → IsWindow start until c
      → ((get_jwks fetch uri (some kid) t c).1 ≡ c)
        ⊎ Fetches
            (λ c'. IsFresh uri until c' × IsWindow start until c')
            c
            (get_jwks fetch uri (some kid) t c).1
  unfolding get_jwks get_cached
  first_call start t c late w = elim (Option-cases (Dict.get uri c.cache)) [
    | inl missing ↦ rw missing (inr (renewed_call start t c late w))
    | inr (entry, found) ↦ elim (Bool-cases (leb entry.expires t)) [
      | inl expired ↦ rw (found, expired) (inr (renewed_call start t c late w))
      | inr valid ↦ rw (found, valid) (settled (serve_call start t entry.jwks c late w))
    ]
  ]
    where
      settled :
          {c' : Cache}
          → (c' ≡ c) ⊎ Fetches (λ c'. IsQuiet uri kid until c' × IsWindow start until c') c c'
          → (c' ≡ c) ⊎ Fetches (λ c'. IsFresh uri until c' × IsWindow start until c') c c'
      settled (inl same) = inl same
      settled (inr ((q, w'), more)) =
          inr ((record { entry = q.entry; stored = q.stored; lasting = q.lasting }, w'), more)
