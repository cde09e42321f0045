-- ===== src/World/Outcomes.antt =====
-- What an action promises: `Ensures P m Q E` says that from a world of `P` the action returns into
-- `Q`, or raises into `E`.
use coreline_auth_module.World.Actions.{require, fail_if, when, stored}
use coreline_auth_module.Common.{subst, ap, arith, ◌≡◌, refl, Bool, true, false, Option, some, none}
use coreline_auth_module.Errors.{Error, Result, ok, raise}
use coreline_auth_module.Storage.{Storage}
use coreline_auth_module.World.{World, Action, and_then, ◌>>=◌}

-- A result and a world, in the case of a return and of an exception.
abbrev pub Outcome {ℓ} :
    {A : Type ℓ} → (A → World → Type 0) → (World → Type 0) → Result A → World → Type 0
Outcome Q E (ok a) w = Q a w
Outcome Q E (raise e) w = E w

pub record Ensures {ℓ} {A : Type ℓ} (P : World → Type 0) (m : Action A) (Q : A → World → Type 0)
    (E : World → Type 0) : Type 0 where
  pub run : (w : World) → P w → Outcome Q E (m w).0 (m w).1

module _ {ℓ κ} {A : Type ℓ} {B : Type κ} {R : A → World → Type 0} {Q : B → World → Type 0}
    {E : World → Type 0} where
  and_then-Outcome :
      (f : A → Action B) (r : Result A) (w : World)
      → Outcome R E r w
      → ((a : A) → Ensures (R a) (f a) Q E)
      → Outcome Q E (and_then r f w).0 (and_then r f w).1
  and_then-Outcome f (ok a) w h k = (k a).run w h
  and_then-Outcome f (raise e) w h k = h

  -- The rule of sequences.
  pub bind-Ensures :
      {P : World → Type 0} {m : Action A} {f : A → Action B}
      → Ensures P m R E
      → ((a : A) → Ensures (R a) (f a) Q E)
      → Ensures P (m >>= f) Q E
  unfolding ◌>>=◌
  bind-Ensures {P} {m} {f} h k = record {
    run = λ w p. and_then-Outcome f (m w).0 (m w).1 (h.run w p) k;
  }

module _ {ℓ} {A : Type ℓ} {P E : World → Type 0} {Q : A → World → Type 0} where
  -- The rule of a value that has to be there.
  pub require-Ensures :
      (a : Option A) (e : Error)
      → ((u : A) → a ≡ some u → (w : World) → P w → Q u w)
      → (a ≡ none → (w : World) → P w → E w)
      → Ensures P (require a e) Q E
  require-Ensures none e h k = record { run = k refl }
  require-Ensures (some u) e h k = record { run = h u refl }

  pub act-Ensures :
      {m : Action A} → ((w : World) → P w → Outcome Q E (m w).0 (m w).1) → Ensures P m Q E
  act-Ensures h = record { run = h }

  pub pre-Ensures :
      {m : Action A} {P' : World → Type 0}
      → ((w : World) → P' w → P w)
      → Ensures P m Q E
      → Ensures P' m Q E
  pre-Ensures k h = record { run = λ w p. h.run w (k w p) }

module _ {P E Q : World → Type 0} where
  -- The rule of a guard.
  pub fail_if-Ensures :
      (b : Bool) (e : Error)
      → (b ≡ false → (w : World) → P w → Q w)
      → (b ≡ true → (w : World) → P w → E w)
      → Ensures P (fail_if b e) (λ _ w. Q w) E
  fail_if-Ensures true e h k = record { run = k refl }
  fail_if-Ensures false e h k = record { run = h refl }

  pub when-Ensures :
      {m : Action (Unit {0})} (b : Bool)
      → (b ≡ true → Ensures P m (λ _ w. Q w) E)
      → (b ≡ false → (w : World) → P w → Q w)
      → Ensures P (when b m) (λ _ w. Q w) E
  when-Ensures true h k = h refl
  when-Ensures false h k = record { run = k refl }

-- The rule of a value that may be there.
pub option-Ensures {ℓ κ} :
    {A : Type ℓ} {B : Type κ} {Q : B → World → Type 0} {E : World → Type 0} {n : Action B}
    {s : A → Action B}
    → (P : Option A → World → Type 0) (o : Option A) → Ensures (P none) n Q E
    → ((a : A) → Ensures (P (some a)) (s a) Q E)
    → Ensures (P o) (elim o as (λ _. Action B) [ none ↦ n | some a ↦ s a ]) Q E
option-Ensures P none h k = h
option-Ensures P (some a) h k = k a

ignoring_errors {ℓ} :
    {A : Type ℓ} (E : World → Type 0) (Q : A → World → Type 0) (r : Result A) (w : World)
    → Outcome Q E r w
    → Outcome Q (λ _. Unit {0}) r w
ignoring_errors E Q (ok a) w q = q
ignoring_errors E Q (raise e) w q = tt

-- The promise for a return alone.
pub return-Ensures {ℓ} :
    {A : Type ℓ} {P E : World → Type 0} {m : Action A} {Q : A → World → Type 0}
    → Ensures P m Q E
    → Ensures P m Q (λ _. Unit {0})
return-Ensures {E = E} {m = m} {Q = Q} h = record {
  run = λ w p. ignoring_errors E Q (m w).0 (m w).1 (h.run w p);
}

trivial {ℓ} :
    {A : Type ℓ} (r : Result A) (w : World) → Outcome (λ _ _. Unit {0}) (λ _. Unit {0}) r w
trivial (ok a) w = tt
trivial (raise e) w = tt

pub trivial-Ensures {ℓ} :
    {A : Type ℓ} {P : World → Type 0} {m : Action A} → Ensures P m (λ _ _. Unit {0}) (λ _. Unit {0})
trivial-Ensures {m = m} = record { run = λ w p. trivial (m w).0 (m w).1 }

-- A fact about values is kept by every action.
fact_kept {ℓ} :
    {A : Type ℓ} (C : Type 0) (r : Result A) (w : World)
    → C
    → Outcome (λ _ _. C) (λ _. Unit {0}) r w
fact_kept C (ok a) w c = c
fact_kept C (raise e) w c = tt

pub fact-Ensures {ℓ} :
    {A : Type ℓ} {m : Action A} (C : Type 0) → Ensures (λ _. C) m (λ _ _. C) (λ _. Unit {0})
fact-Ensures {m = m} C = record { run = λ w c. fact_kept C (m w).0 (m w).1 c }

both_outcomes {ℓ} :
    {A : Type ℓ} (Q R : A → World → Type 0) (r : Result A) (w : World)
    → Outcome Q (λ _. Unit {0}) r w
    → Outcome R (λ _. Unit {0}) r w
    → Outcome (λ a w'. Q a w' × R a w') (λ _. Unit {0}) r w
both_outcomes Q R (ok a) w q t = (q, t)
both_outcomes Q R (raise e) w q t = tt

-- Two promises for a return at once.
pub both-Ensures {ℓ} :
    {A : Type ℓ} {P : World → Type 0} {m : Action A} {Q R : A → World → Type 0}
    → Ensures P m Q (λ _. Unit {0})
    → Ensures P m R (λ _. Unit {0})
    → Ensures P m (λ a w. Q a w × R a w) (λ _. Unit {0})
both-Ensures {m = m} {Q = Q} {R = R} h k = record {
  run = λ w p. both_outcomes Q R (m w).0 (m w).1 (h.run w p) (k.run w p);
}

-- A method of the storage that may raise.
pub stored-Outcome :
    (r : Result Storage) (Q : Storage → Type 0) (w : World)
    → ((s : Storage) → r ≡ ok s → Q s)
    → Outcome (λ _ w'. Q w'.storage) (λ _. Unit {0}) (stored r w).0 (stored r w).1
stored-Outcome (ok s) Q w k = k s refl
stored-Outcome (raise e) Q w k = tt

weaker_outcome {ℓ} :
    {A : Type ℓ} (Q R : A → World → Type 0) (r : Result A) (w : World)
    → Outcome Q (λ _. Unit {0}) r w
    → ((a : A) → Q a w → R a w)
    → Outcome R (λ _. Unit {0}) r w
weaker_outcome Q R (ok a) w q k = k a q
weaker_outcome Q R (raise e) w q k = tt

-- What follows from a promise for a return.
pub post-Ensures {ℓ} :
    {A : Type ℓ} {P : World → Type 0} {m : Action A} {Q R : A → World → Type 0}
    → Ensures P m Q (λ _. Unit {0})
    → ((a : A) (w : World) → Q a w → R a w)
    → Ensures P m R (λ _. Unit {0})
post-Ensures {m = m} {Q = Q} {R = R} h k = record {
  run = λ w p. weaker_outcome Q R (m w).0 (m w).1 (h.run w p) (λ a q. k a (m w).1 q);
}

-- The promise for the value that an action returned.
pub returned {ℓ} :
    {A : Type ℓ} {P E : World → Type 0} {m : Action A} {Q : A → World → Type 0}
    → Ensures P m Q E
    → (w : World) (a : A) (w' : World) → P w
    → m w ≡ (ok a, w')
    → Q a w'
returned {E = E} {Q = Q} h w a w' p e = subst (λ y. Outcome Q E y.0 y.1) e (h.run w p)

-- An action that cannot raise returns.
pub returns {ℓ} :
    {A : Type ℓ} {P : World → Type 0} {m : Action A} {Q : A → World → Type 0}
    → Ensures P m Q (λ _. ⊥)
    → (w : World) → P w
    → (a : A) × ((m w).0 ≡ ok a) × Q a (m w).1
returns {A = A} {m = m} {Q = Q} h w p = of_result (m w).0 (m w).1 (h.run w p)
  where
    of_result :
        (r : Result A) (w' : World) → Outcome Q (λ _. ⊥) r w' → (a : A) × (r ≡ ok a) × Q a w'
    of_result (ok a) w' q = (a, refl, q)
    of_result (raise e) w' q = absurd q

module _ {ℓ κ} {A : Type ℓ} {B : Type κ} where
  and_then-eq_ok :
      (r : Result A) (f : A → Action B) (w1 w' : World) (b : B)
      → and_then r f w1 ≡ (ok b, w')
      → (a : A) × (r ≡ ok a) × (f a w1 ≡ (ok b, w'))
  and_then-eq_ok (ok a) f w1 w' b h = (a, refl, h)
  and_then-eq_ok (raise e) f w1 w' b h = absurd (ground (arith, ap (λ x. x.0) h))

  -- An action that returns has gone on after its first part.
  pub bind-eq_returned :
      (m : Action A) (f : A → Action B) (w w' : World) (b : B)
      → (m >>= f) w ≡ (ok b, w')
      → (a : A) × ((m w).0 ≡ ok a) × (f a (m w).1 ≡ (ok b, w'))
  unfolding ◌>>=◌
  bind-eq_returned m f w w' b h = and_then-eq_ok (m w).0 f (m w).1 w' b h
