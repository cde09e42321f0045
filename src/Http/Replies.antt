-- ===== src/Http/Replies.antt =====
-- fastapi_adapter.py: what a route that replied went through.
use coreline_auth_module.Common.{
  if◌then◌else◌, String, true, false, Bool, ℕ, ◌≡◌, refl, ap, Option, some, none, arith,
}
use coreline_auth_module.Errors.{Error, Result, ok, raise}
use coreline_auth_module.World.{World, Action}
use coreline_auth_module.Http.{
  abort, Reply, done, http_exception, uncaught, Http, proceed, ◌>>=◌, attempt, reply_of, replied,
}

module _ {ℓ κ} {A : Type ℓ} {B : Type κ} where
  proceed-eq_done :
      (r : Reply A) (f : A → Http B) (w1 w' : World) (b : B)
      → proceed r f w1 ≡ (done b, w')
      → (a : A) × (r ≡ done a) × (f a w1 ≡ (done b, w'))
  proceed-eq_done (done a) f w1 w' b h = (a, refl, h)
  proceed-eq_done (http_exception status m) f w1 w' b h = absurd (ground (arith, ap (λ x. x.0) h))
  proceed-eq_done (uncaught e) f w1 w' b h = absurd (ground (arith, ap (λ x. x.0) h))

  -- A sequence that replies has gone on after its first part.
  pub bind-eq_done :
      (m : Http A) (f : A → Http B) (w w' : World) (b : B)
      → (m >>= f) w ≡ (done b, w')
      → (a : A) × ((m w).0 ≡ done a) × (f a (m w).1 ≡ (done b, w'))
  unfolding ◌>>=◌
  bind-eq_done m f w w' b h = proceed-eq_done (m w).0 f (m w).1 w' b h

module _ {ℓ} {A : Type ℓ} where
  not_replied : (e : Error) (o : Option ℕ) (a : A) → replied e o ≡ done a → ⊥
  not_replied e none a h = ground (arith, h)
  not_replied e (some n) a h = ground (arith, h)

  reply_of-eq_done :
      (handler : Error → Option ℕ) (r : Result A) (a : A) → reply_of handler r ≡ done a → r ≡ ok a
  reply_of-eq_done handler (ok x) a h = ground (arith, h)
  reply_of-eq_done handler (raise e) a h = absurd (not_replied e (handler e) a h)

  -- A call that replies has returned.
  pub attempt-eq_done :
      (handler : Error → Option ℕ) (m : Action A) (w w' : World) (a : A)
      → attempt handler m w ≡ (done a, w')
      → m w ≡ (ok a, w')
  unfolding attempt
  attempt-eq_done handler m w w' a h =
      let e = reply_of-eq_done handler (m w).0 a (ap (λ x. x.0) h) in λ i. (e i, (h i).1)

  -- A route that goes on has met the test.
  pub test-eq_done :
      (b : Bool) (k : Http A) (status : ℕ) (detail : String) (w w' : World) (a : A)
      → (if b then k else abort status detail) w ≡ (done a, w')
      → (b ≡ true) × (k w ≡ (done a, w'))
  test-eq_done true k status detail w w' a h = (refl, h)
  test-eq_done false k status detail w w' a h = absurd (ground (arith, ap (λ x. x.0) h))

  pub refusal-eq_done :
      (b : Bool) (k : Http A) (status : ℕ) (detail : String) (w w' : World) (a : A)
      → (if b then abort status detail else k) w ≡ (done a, w')
      → (b ≡ false) × (k w ≡ (done a, w'))
  refusal-eq_done false k status detail w w' a h = (refl, h)
  refusal-eq_done true k status detail w w' a h = absurd (ground (arith, ap (λ x. x.0) h))

  pub done-injective : (a b : A) → done a ≡ done b → a ≡ b
  done-injective a b h = ap value_of h
    where
      value_of : Reply A → A
      value_of (done x) = x
      value_of _ = a
