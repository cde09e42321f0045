-- ===== src/World/Actions.antt =====
-- The elementary actions: raising, the storage, the clocks, the generators and the sinks.
use coreline_auth_module.Common.{
  ℕ, ◌+◌, String, Option, some, none, Bool, true, false, [], ◌∷◌, ◌++◌,
}
use coreline_auth_module.Errors.{Error, Result, ok, raise}
use coreline_auth_module.Host.{Host}
use coreline_auth_module.Storage.{Storage}
use coreline_auth_module.World.{Email, Action}

module _ {ℓ} {A : Type ℓ} where
  abbrev pub pure : A → Action A
  pure a w = (ok a, w)

  abbrev pub fail : Error → Action A
  fail e w = (raise e, w)

  abbrev pub lift : Result A → Action A
  lift r w = (r, w)

  -- Reads the storage.
  abbrev pub query : (Storage → A) → Action A
  query f w = (ok (f w.storage), w)

  -- A method of the storage that returns a value.
  abbrev pub change : (Storage → A × Storage) → Action A
  change f w = let (a, s') = f w.storage in (ok a, record w { storage = s' })

-- A method of the storage that returns nothing, or its argument.
abbrev pub write : (Storage → Storage) → Action (Unit {0})
write f w = (ok tt, record w { storage = f w.storage })

abbrev pub stored : Result Storage → Action (Unit {0})
stored (ok s') w = (ok tt, record w { storage = s' })
stored (raise e) w = (raise e, w)

-- A method of the storage that may raise.
abbrev pub try_write : (Storage → Result Storage) → Action (Unit {0})
try_write f w = stored (f w.storage) w

abbrev pub fail_if : Bool → Error → Action (Unit {0})
fail_if true e w = (raise e, w)
fail_if false e w = (ok tt, w)

-- A value that has to be there.
abbrev pub require {ℓ} : {A : Type ℓ} → Option A → Error → Action A
require none e w = (raise e, w)
require (some a) e w = (ok a, w)

abbrev pub when : Bool → Action (Unit {0}) → Action (Unit {0})
when true m w = m w
when false m w = (ok tt, w)

abbrev pub count_metric : String → Action (Unit {0})
count_metric name w = (ok tt, record w { metrics = w.metrics ++ name ∷ [] })

abbrev pub send : Email → Action (Unit {0})
send email w = (ok tt, record w { outbox = w.outbox ++ email ∷ [] })

module _ (host : Host) where
  -- `now_utc()`
  abbrev pub now_utc : Action ℕ
  now_utc w = (ok (host.clock w.clock_reads), record w { clock_reads = w.clock_reads + 1 })

  abbrev pub unix_time : Action ℕ
  unix_time w = (ok (host.unix_time w.unix_reads), record w { unix_reads = w.unix_reads + 1 })

  -- `monotonic()`
  abbrev pub read_monotonic : Action ℕ
  read_monotonic w =
      (ok (host.monotonic w.monotonic_reads), record w { monotonic_reads = w.monotonic_reads + 1 })

  -- `generate_token()`
  abbrev pub generate_token : Action String
  generate_token w =
      (ok (host.token w.tokens_drawn), record w { tokens_drawn = w.tokens_drawn + 1 })

  -- `uuid4().hex`
  abbrev pub draw_uuid : Action String
  draw_uuid w = (ok (host.uuid w.uuids_drawn), record w { uuids_drawn = w.uuids_drawn + 1 })

  abbrev pub draw_salt : Action ℕ
  draw_salt w = (ok w.salts_drawn, record w { salts_drawn = w.salts_drawn + 1 })

  abbrev pub generate_totp_secret : Action String
  generate_totp_secret w = (
    ok (host.totp_secret w.totp_secrets_drawn),
    record w { totp_secrets_drawn = w.totp_secrets_drawn + 1 },
  )
