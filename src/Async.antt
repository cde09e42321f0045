-- ===== src/Async.antt =====
-- src/coreline_auth/async_service.py: coroutines as tasks that take one step after another, alone
-- or between the steps of others. Each call of the storage, of a clock or of a generator is a step,
-- which is more than the `await`s of the code allow.
pub mod Keeping
pub mod Leaving
pub mod Revocation
pub mod Methods
pub mod Calls
pub mod Agreement
pub mod Refinement
pub mod Parity
mod Tests
pub mod Support
pub mod Sessions
pub mod Accounts
pub mod Links
use coreline_auth_module.Common.{ℕ, zero, suc, Bool, true, false, List, [], ◌∷◌, Option, none, some}
use coreline_auth_module.Errors.{Error, Result, ok, raise}
use coreline_auth_module.World.{World, Action}

-- A task has ended, or changes the world and goes on from there.
pub data Task {ℓ} (A : Type ℓ) : Type ℓ where
  ended : Result A → Task A
  step : (World → World) → (World → Task A) → Task A

module _ {ℓ} {A : Type ℓ} where
  -- A call that no other task interrupts.
  unfoldable pub call : Action A → Task A
  call m = step (λ w. (m w).1) (λ w. ended (m w).0)

  abbrev pub give : A → Task A
  give a = ended (ok a)

  abbrev pub throw : Error → Task A
  throw e = ended (raise e)

  -- A task that runs without interruption.
  unfoldable pub run : Task A → Action A
  run (ended r) w = (r, w)
  run (step act k) w = run (k w) (act w)

abbrev pub go_on {ℓ κ} : {A : Type ℓ} {B : Type κ} → Result A → (A → Task B) → Task B
go_on (ok a) f = f a
go_on (raise e) f = ended (raise e)

infixl 5 ◌>>=◌ ◌>>◌
unfoldable pub ◌>>=◌ {ℓ κ} : {A : Type ℓ} {B : Type κ} → Task A → (A → Task B) → Task B
ended r >>= f = go_on r f
step act k >>= f = step act (λ w. k w >>= f)

abbrev pub ◌>>◌ {ℓ κ} : {A : Type ℓ} {B : Type κ} → Task A → Task B → Task B
m >> k = m >>= λ _. k

-- `if b:` around a call.
abbrev pub if_task : Bool → Task (Unit {0}) → Task (Unit {0})
if_task true t = t
if_task false t = ended (ok tt)

-- One step of a task; a task that has ended stays as it is.
abbrev pub tick {ℓ} : {A : Type ℓ} → Task A → World → Task A × World
tick (ended r) w = (ended r, w)
tick (step act k) w = (k w, act w)

module _ {ℓ} {A : Type ℓ} where
  abbrev put_back : List (Task A) → Task A × World → List (Task A) × World
  put_back ts (t, w) = (t ∷ ts, w)

  abbrev behind : Task A → List (Task A) × World → List (Task A) × World
  behind t (ts, w) = (t ∷ ts, w)

  -- The step of the task at a place.
  unfoldable pub advance : ℕ → List (Task A) → World → List (Task A) × World
  advance n [] w = ([], w)
  advance zero (t ∷ ts) w = put_back ts (tick t w)
  advance (suc n) (t ∷ ts) w = behind t (advance n ts w)

  -- The steps that a schedule picks, one after the other.
  unfoldable pub interleave : List ℕ → List (Task A) → World → List (Task A) × World
  interleave [] ts w = (ts, w)
  interleave (n ∷ schedule) ts w = let (ts', w') = advance n ts w in interleave schedule ts' w'
