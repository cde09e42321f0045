-- ===== src/World/Frames.antt =====
-- The part of the storage that an action leaves as it is, whether it returns or raises.
use coreline_auth_module.Common.{◌≡◌, refl, ◌∙◌, Bool, true, false, Option, some, none}
use coreline_auth_module.Errors.{Error, Result, ok, raise}
use coreline_auth_module.Storage.{Storage}
use coreline_auth_module.World.{World, Action, and_then, ◌>>=◌}
use coreline_auth_module.World.Actions.{fail_if, require, when}
use coreline_auth_module.World.Outcomes.{Outcome, Ensures}

framed_result {ℓ} :
    {A : Type ℓ} (P : World → Type 0) (r : Result A) (w : World)
    → P w
    → Outcome (λ a w'. P w') P r w
framed_result P (ok a) w p = p
framed_result P (raise e) w p = p

pub record Frame {ℓ} {C : Type 0} {A : Type ℓ} (view : Storage → C) (m : Action A) : Type 0 where
  pub same : (w : World) → view (m w).1.storage ≡ view w.storage

module _ {C : Type 0} {view : Storage → C} where
  and_then-same {ℓ κ} :
      {A : Type ℓ} {B : Type κ} (f : A → Action B) (r : Result A) (w : World)
      → ((a : A) → Frame view (f a))
      → view (and_then r f w).1.storage ≡ view w.storage
  and_then-same f (ok a) w k = (k a).same w
  and_then-same f (raise e) w k = refl

  pub bind-Frame {ℓ κ} :
      {A : Type ℓ} {B : Type κ} {m : Action A} {f : A → Action B}
      → Frame view m
      → ((a : A) → Frame view (f a))
      → Frame view (m >>= f)
  unfolding ◌>>=◌
  bind-Frame {m = m} {f = f} h k = record {
    same = λ w. and_then-same f (m w).0 (m w).1 k ∙ h.same w;
  }

  -- An action that only reads, or writes outside the view.
  pub still-Frame {ℓ} :
      {A : Type ℓ} {m : Action A}
      → ((w : World) → view (m w).1.storage ≡ view w.storage)
      → Frame view m
  still-Frame h = record { same = h }

  pub fail_if-Frame : (b : Bool) (e : Error) → Frame view (fail_if b e)
  fail_if-Frame true e = record { same = λ w. refl }
  fail_if-Frame false e = record { same = λ w. refl }

  pub require-Frame {ℓ} : {A : Type ℓ} (a : Option A) (e : Error) → Frame view (require a e)
  require-Frame none e = record { same = λ w. refl }
  require-Frame (some a) e = record { same = λ w. refl }

  pub when-Frame : {m : Action (Unit {0})} (b : Bool) → Frame view m → Frame view (when b m)
  when-Frame true h = h
  when-Frame false h = record { same = λ w. refl }

  -- What holds of the view before the action holds after it.
  pub frame-Ensures {ℓ} :
      {A : Type ℓ} {m : Action A} (P : C → Type 0)
      → Frame view m
      → Ensures (λ w. P (view w.storage)) m (λ a w. P (view w.storage)) (λ w. P (view w.storage))
  frame-Ensures {m = m} P h = record {
    run = λ w p. framed_result (λ w'. P (view w'.storage)) (m w).0 (m w).1 (rw (h.same w) p);
  }
