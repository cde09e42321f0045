-- ===== src/World.antt =====
-- What a method of the services can read and change, and the methods as actions on it: an action
-- returns or raises, and leaves the world it has made so far in both cases, as Python does. The
-- clocks and generators of the host are read one after the other.
pub mod Actions
pub mod Outcomes
pub mod Frames
pub mod Steps
use coreline_auth_module.Common.{ℕ, ◌+◌, String, Option, Bool, List}
use coreline_auth_module.Common.Dict.{Dict}
use coreline_auth_module.Errors.{Result, ok, raise}
use coreline_auth_module.RateLimit.{Limiter}
use coreline_auth_module.Storage.{Storage}

-- An e-mail that was handed to the sender: the kind, the address and the token.
pub record Email : Type 0 where
  pub kind : String
  pub address : String
  pub token : String

pub record World : Type 0 where
  pub storage : Storage
  pub limiter : Limiter
  -- the secrets of the MFA vault
  pub secrets : Dict String
  -- the e-mails that were sent
  pub outbox : List Email
  -- the names of the metrics that were counted
  pub metrics : List String
  -- the readings of the clocks and the draws of the generators so far
  pub clock_reads : ℕ
  pub unix_reads : ℕ
  pub monotonic_reads : ℕ
  pub tokens_drawn : ℕ
  pub uuids_drawn : ℕ
  pub salts_drawn : ℕ
  pub totp_secrets_drawn : ℕ

abbrev pub Action {ℓ} : Type ℓ → Type ℓ
Action A = World → Result A × World

-- Goes on after a result.
abbrev pub and_then {ℓ κ} : {A : Type ℓ} {B : Type κ} → Result A → (A → Action B) → Action B
and_then (ok a) f w = f a w
and_then (raise e) f w = (raise e, w)

infixl 5 ◌>>=◌ ◌>>◌
unfoldable pub ◌>>=◌ {ℓ κ} : {A : Type ℓ} {B : Type κ} → Action A → (A → Action B) → Action B
◌>>=◌ m f w = let (r, w') = m w in and_then r f w'

abbrev pub ◌>>◌ {ℓ κ} : {A : Type ℓ} {B : Type κ} → Action A → Action B → Action B
m >> k = m >>= λ _. k
