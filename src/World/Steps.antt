-- ===== src/World/Steps.antt =====
-- The rules of sequences whose first action is elementary: what it tests becomes a hypothesis of
-- the rest. `At s n` is a world with the storage `s` that has read the clock `n` times.
use coreline_auth_module.Common.{ℕ, ◌+◌, ◌≡◌, refl, sym, ap, Bool, true, false, Option, some, none}
use coreline_auth_module.Errors.{Result, ok, raise, Error}
use coreline_auth_module.Host.{Host}
use coreline_auth_module.Storage.{Storage}
use coreline_auth_module.World.{World, Action, ◌>>=◌}
use coreline_auth_module.World.Actions.{lift, require, fail_if, query, now_utc}
use coreline_auth_module.World.Outcomes.{Ensures}

abbrev pub At : Storage → ℕ → World → Type 0
At s n w = (w.storage ≡ s) × (w.clock_reads ≡ n)

module _ {ℓ} {B : Type ℓ} {P E : World → Type 0} {Q : B → World → Type 0} where
  pub require-then {κ} :
      {A : Type κ} {f : A → Action B} (a : Option A) (e : Error)
      → ((u : A) → a ≡ some u → Ensures P (f u) Q E)
      → (a ≡ none → (w : World) → P w → E w)
      → Ensures P (require a e >>= f) Q E
  unfolding ◌>>=◌
  require-then none e h k = record { run = k refl }
  require-then (some u) e h k = record { run = (h u refl).run }

  pub lift-then {κ} :
      {A : Type κ} {f : A → Action B} (r : Result A)
      → ((a : A) → r ≡ ok a → Ensures P (f a) Q E)
      → ((e : Error) → r ≡ raise e → (w : World) → P w → E w)
      → Ensures P (lift r >>= f) Q E
  unfolding ◌>>=◌
  lift-then (ok a) h k = record { run = (h a refl).run }
  lift-then (raise e) h k = record { run = k e refl }

  pub fail_if-then :
      {f : Unit {0} → Action B} (b : Bool) (e : Error)
      → (b ≡ false → (u : Unit {0}) → Ensures P (f u) Q E)
      → (b ≡ true → (w : World) → P w → E w)
      → Ensures P (fail_if b e >>= f) Q E
  unfolding ◌>>=◌
  fail_if-then true e h k = record { run = k refl }
  fail_if-then false e h k = record { run = (h refl tt).run }

module _ {ℓ} {B : Type ℓ} {E : World → Type 0} {Q : B → World → Type 0} {s : Storage} {n : ℕ} where
  pub query-then {κ} :
      {A : Type κ} {f : A → Action B} (g : Storage → A)
      → ((a : A) → g s ≡ a → Ensures (At s n) (f a) Q E)
      → Ensures (At s n) (query g >>= f) Q E
  unfolding ◌>>=◌
  query-then g h = record { run = λ w p. (h (g w.storage) (ap g (sym p.0))).run w p }

  pub now_utc-then :
      {f : ℕ → Action B} (host : Host)
      → ((t : ℕ) → host.clock n ≡ t → Ensures (At s (n + 1)) (f t) Q E)
      → Ensures (At s n) (now_utc host >>= f) Q E
  unfolding ◌>>=◌
  now_utc-then host h = record {
    run = λ w p.
        (h (host.clock w.clock_reads) (ap host.clock (sym p.1))).run
          (record w { clock_reads = w.clock_reads + 1 }) (p.0, ap (λ m. m + 1) p.1);
  }
