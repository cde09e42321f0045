-- ===== src/Async/Agreement.antt =====
-- async_service.py and service.py: a task that runs alone, and an action, that return the same.
use coreline_auth_module.Common.{
  ◌≡◌, refl, sym, ap, ◌∙◌, Bool, true, false, arith, if◌then◌else◌, Option, some, none,
}
use coreline_auth_module.Errors.{Error, Result, ok, raise}
use coreline_auth_module.World
use coreline_auth_module.World.{World, Action, and_then}
use coreline_auth_module.World.Actions.{pure, fail, when, require}
use coreline_auth_module.World.Outcomes.{bind-eq_returned}
use coreline_auth_module.Async.{Task, ended, step, call, give, throw, if_task, run, go_on, ◌>>=◌}

-- The task returns exactly where the action does, with the same value and in the same world.
pub record Agrees {ℓ} {A : Type ℓ} (t : Task A) (m : Action A) : Type ℓ where
  pub sound : (w : World) (a : A) (w' : World) → run t w ≡ (ok a, w') → m w ≡ (ok a, w')
  pub complete : (w : World) (a : A) (w' : World) → m w ≡ (ok a, w') → run t w ≡ (ok a, w')

module _ {ℓ κ} {A : Type ℓ} {B : Type κ} where
  run-go_on :
      (r : Result A) (f : A → Task B) (w : World)
      → run (go_on r f) w ≡ and_then r (λ a. run (f a)) w
  unfolding run
  run-go_on (ok a) f w = refl
  run-go_on (raise e) f w = refl

  run-bind :
      (t : Task A) (f : A → Task B) (w : World)
      → run (t >>= f) w ≡ and_then (run t w).0 (λ a. run (f a)) (run t w).1
  unfolding run ◌>>=◌
  run-bind (ended r) f w = run-go_on r f w
  run-bind (step act k) f w = run-bind (k w) f (act w)

  then_returns :
      (m : Action A) (g : A → Action B) (w w1 w' : World) (a : A) (b : B)
      → m w ≡ (ok a, w1)
      → g a w1 ≡ (ok b, w')
      → coreline_auth_module.World.◌>>=◌ m g w ≡ (ok b, w')
  unfolding coreline_auth_module.World.◌>>=◌
  then_returns m g w w1 w' a b e h = ap (λ x. and_then x.0 g x.1) e ∙ h

  pub bind-Agrees :
      (t : Task A) (m : Action A) (f : A → Task B) (g : A → Action B)
      → Agrees t m
      → ((a : A) → Agrees (f a) (g a))
      → Agrees (t >>= f) (coreline_auth_module.World.◌>>=◌ m g)
  unfolding coreline_auth_module.World.◌>>=◌
  bind-Agrees t m f g h k = record {
    sound = λ w b w' e.
        let (a, p, q) =
          bind-eq_returned (run t) (λ x. run (f x)) w w' b (sym (run-bind t f w) ∙ e) in
        then_returns m g w (run t w).1 w' a b (h.sound w a (run t w).1 (λ i. (p i, (run t w).1)))
          ((k a).sound (run t w).1 b w' q);
    complete = λ w b w' e.
        let (a, p, q) = bind-eq_returned m g w w' b e in
        let first = h.complete w a (m w).1 (λ i. (p i, (m w).1)) in
        run-bind t f w
        ∙ ap (λ x. and_then x.0 (λ y. run (f y)) x.1) first
        ∙ (k a).complete (m w).1 b w' q;
  }

module _ {ℓ} {A : Type ℓ} where
  pub call-Agrees : (m : Action A) → Agrees (call m) m
  unfolding call run
  call-Agrees m = record { sound = λ w a w' e. e; complete = λ w a w' e. e }

  pub give-Agrees : (a : A) → Agrees (give a) (pure a)
  unfolding run
  give-Agrees a = record { sound = λ w a w' e. e; complete = λ w a w' e. e }

  -- Two errors need not be the same.
  pub throw-Agrees : (e e' : Error) → Agrees {A = A} (throw e) (fail e')
  unfolding run
  throw-Agrees e e' = record {
    sound = λ w a w' h. absurd (ground (arith, ap (λ x. x.0) h));
    complete = λ w a w' h. absurd (ground (arith, ap (λ x. x.0) h));
  }

  pub require-Agrees : (o : Option A) (e e' : Error) → Agrees (call (require o e)) (require o e')
  unfolding call run
  require-Agrees (some x) e e' = call-Agrees (require (some x) e)
  require-Agrees none e e' = record {
    sound = λ w a w' h. absurd (ground (arith, ap (λ x. x.0) h));
    complete = λ w a w' h. absurd (ground (arith, ap (λ x. x.0) h));
  }

  pub if-Agrees :
      (b : Bool) (t u : Task A) (m n : Action A)
      → Agrees t m
      → Agrees u n
      → Agrees (if b then t else u) (if b then m else n)
  if-Agrees true t u m n h k = h
  if-Agrees false t u m n h k = k

pub when-Agrees :
    (b : Bool) (t : Task (Unit {0})) (m : Action (Unit {0}))
    → Agrees t m
    → Agrees (if_task b t) (when b m)
when-Agrees true t m h = h
when-Agrees false t m h = give-Agrees tt
