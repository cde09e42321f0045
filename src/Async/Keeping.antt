-- ===== src/Async/Keeping.antt =====
-- Invariants of tasks: what every step of a task keeps, it keeps between the steps of others.
use coreline_auth_module.Common.{ℕ, zero, suc, Bool, true, false, List, [], ◌∷◌, if◌then◌else◌}
use coreline_auth_module.Errors.{Error, Result, ok, raise}
use coreline_auth_module.World.{World, Action}
use coreline_auth_module.Async.{
  Task, ended, step, call, give, throw, if_task, go_on, ◌>>=◌, advance, interleave, tick,
}

-- From a world with `P`, every step of the task leads to a world with `P`.
pub data Keeps {ℓ} {A : Type ℓ} (P : World → Type 0) : Task A → Type ℓ where
  at_end : (r : Result A) → Keeps P (ended r)
  at_step :
      (act : World → World) (k : World → Task A)
      → ((w : World) → P w → P (act w))
      → ((w : World) → P w → Keeps P (k w))
      → Keeps P (step act k)

module _ {ℓ} {A : Type ℓ} {P : World → Type 0} where
  pub give-Keeps : (a : A) → Keeps P (give a)
  give-Keeps a = Keeps.at_end (ok a)

  pub throw-Keeps : (e : Error) → Keeps {A = A} P (throw e)
  throw-Keeps e = Keeps.at_end (raise e)

  pub call-Keeps : (m : Action A) → ((w : World) → P w → P (m w).1) → Keeps P (call m)
  unfolding call
  call-Keeps m h = Keeps.at_step _ _ h (λ w p. Keeps.at_end _)

  pub if-Keeps : (b : Bool) (t u : Task A) → Keeps P t → Keeps P u → Keeps P (if b then t else u)
  if-Keeps true t u kt ku = kt
  if-Keeps false t u kt ku = ku

  tick-Keeps : (t : Task A) (w : World) → Keeps P t → P w → Keeps P (tick t w).0 × P (tick t w).1
  tick-Keeps (ended r) w k p = (k, p)
  tick-Keeps (step act k) w (Keeps.at_step _ _ h next) p = (next w p, h w p)

module _ {P : World → Type 0} where
  pub if_task-Keeps : (b : Bool) (t : Task (Unit {0})) → Keeps P t → Keeps P (if_task b t)
  if_task-Keeps true t k = k
  if_task-Keeps false t k = Keeps.at_end _

module _ {ℓ κ} {A : Type ℓ} {B : Type κ} {P : World → Type 0} where
  go_on-Keeps : (r : Result A) (f : A → Task B) → ((a : A) → Keeps P (f a)) → Keeps P (go_on r f)
  go_on-Keeps (ok a) f h = h a
  go_on-Keeps (raise e) f h = Keeps.at_end _

  pub bind-Keeps :
      (t : Task A) (f : A → Task B) → Keeps P t → ((a : A) → Keeps P (f a)) → Keeps P (t >>= f)
  unfolding ◌>>=◌
  bind-Keeps (ended r) f k h = go_on-Keeps r f h
  bind-Keeps (step act k) f (Keeps.at_step _ _ same next) h =
      Keeps.at_step _ _ same (λ w p. bind-Keeps (k w) f (next w p) h)

-- All tasks of a list keep it.
abbrev pub AllKeep {ℓ} : {A : Type ℓ} → (World → Type 0) → List (Task A) → Type ℓ
AllKeep P [] = Unit
AllKeep P (t ∷ ts) = Keeps P t × AllKeep P ts

module _ {ℓ} {A : Type ℓ} (P : World → Type 0) where
  advance-Keeps :
      (n : ℕ) (ts : List (Task A)) (w : World)
      → AllKeep P ts
      → P w
      → AllKeep P (advance n ts w).0 × P (advance n ts w).1
  unfolding advance
  advance-Keeps n [] w k p = (tt, p)
  advance-Keeps zero (t ∷ ts) w (k, ks) p = let (k', p') = tick-Keeps t w k p in ((k', ks), p')
  advance-Keeps (suc n) (t ∷ ts) w (k, ks) p =
      let (ks', p') = advance-Keeps n ts w ks p in ((k, ks'), p')

  -- Whatever the schedule is.
  pub interleave-Keeps :
      (schedule : List ℕ) (ts : List (Task A)) (w : World)
      → AllKeep P ts
      → P w
      → AllKeep P (interleave schedule ts w).0 × P (interleave schedule ts w).1
  unfolding interleave
  interleave-Keeps [] ts w k p = (k, p)
  interleave-Keeps (n ∷ schedule) ts w k p =
      let (k', p') = advance-Keeps n ts w k p in
      interleave-Keeps schedule (advance n ts w).0 (advance n ts w).1 k' p'
