-- ===== src/Async/Revocation.antt =====
-- async_service.py: a session that is revoked stays revoked, whatever calls run at the same time.
use coreline_auth_module.Common.{ℕ, ◌≤◌, ◌≡◌, refl, String, false, Option, arith, ◌==◌}
use coreline_auth_module.Errors.{or_same, ok, raise, Result}
use coreline_auth_module.Host.{Host}
use coreline_auth_module.Models.{AuthSession}
use coreline_auth_module.Storage.{Storage, create_session, touch_session, cleanup_expired}
use coreline_auth_module.Storage.Flows.Frames.{cleanup_flows-sessions}
use coreline_auth_module.Storage.Sessions.{cleanup_sessions}
use coreline_auth_module.Storage.Sessions.Operations.{SessionCall, perform, creates}
use coreline_auth_module.Storage.Sessions.Revocation.{IsRevoked, perform-IsRevoked}
use coreline_auth_module.World
use coreline_auth_module.World.{World, Action}
use coreline_auth_module.World.Actions.{change, try_write, stored, draw_uuid}
use coreline_auth_module.Service.Config.{Service}
use coreline_auth_module.Service.Accounts.{prefixed, revoke_all}
use coreline_auth_module.Service.Sessions.{revoke_by_id}
use coreline_auth_module.Async.{Task, call, ◌>>=◌}
use coreline_auth_module.Async.Leaving.{Leaves}
use coreline_auth_module.Async.Keeping.{Keeps, call-Keeps}

-- From the draw `n` on, no id that a session can get is `id`.
abbrev pub IsFresh : Host → String → ℕ → Type 0
IsFresh host id n = (m : ℕ) → n ≤ m → (prefixed "sess_" (host.uuid m) == id) ≡ false

module _ (id : String) (t n : ℕ) where
  -- The session was revoked at the time `t`, and at least `n` ids were drawn.
  pub record Revoked (w : World) : Type 0 where
    pub drawn : n ≤ w.uuids_drawn
    pub session : IsRevoked id t w.storage

  same_sessions : (s s' : Storage) → s'.sessions ≡ s.sessions → IsRevoked id t s → IsRevoked id t s'
  same_sessions s s' e r = record {
    unique = rw e r.unique;
    session = r.session;
    found = rw e r.found;
    revoked = r.revoked;
  }

  pub Leaves-Keeps {ℓ} : {A : Type ℓ} (m : Action A) → Leaves m → Keeps Revoked (call m)
  Leaves-Keeps m l = call-Keeps m (λ w p. record {
    drawn = ground (arith, l.draws w, p.drawn);
    session = same_sessions w.storage _ (l.sessions w) p.session;
  })

  -- A call on the sessions other than the storing of a new one with the id.
  performed :
      (c : SessionCall) (w : World)
      → creates id c ≡ false
      → Revoked w
      → IsRevoked id t (perform c w.storage)
  performed c w n p = perform-IsRevoked id t c w.storage n p.session

  pub touch-Keeps :
      (k : String) (now : ℕ) (idle : Option ℕ)
      → Keeps Revoked (call (change (touch_session k now idle)))
  unfolding perform
  touch-Keeps k now idle = call-Keeps _ (λ w p. record {
    drawn = p.drawn;
    session = performed (SessionCall.touch k now idle) w refl p;
  })

  module _ (host : Host) (svc : Service) where
    pub revoke_by_id-Keeps : (k : String) → Keeps Revoked (call (revoke_by_id host svc k))
    unfolding revoke_by_id perform coreline_auth_module.World.◌>>=◌
    revoke_by_id-Keeps k = call-Keeps _ (λ w p. record {
      drawn = p.drawn;
      session = performed (SessionCall.revoke k (host.clock w.clock_reads)) w refl p;
    })

    pub revoke_all-Keeps :
        (user_id : String) (except : Option String)
        → Keeps Revoked (call (revoke_all host svc user_id except))
    unfolding revoke_all perform coreline_auth_module.World.◌>>=◌
    revoke_all-Keeps user_id except = call-Keeps _ (λ w p. record {
      drawn = p.drawn;
      session =
          performed (SessionCall.revoke_user user_id except (host.clock w.clock_reads)) w refl p;
    })

  pub cleanup-Keeps : (now : ℕ) → Keeps Revoked (call (change (cleanup_expired now)))
  unfolding perform cleanup_expired
  cleanup-Keeps now = call-Keeps _ (λ w p. record {
    drawn = p.drawn;
    session =
        let s = (cleanup_sessions now w.storage).1 in
        same_sessions s _ (cleanup_flows-sessions now s.login_flows (s, 0))
          (performed (SessionCall.cleanup now) w refl p);
  })

  written :
      (r : Result Storage) (w : World)
      → n ≤ w.uuids_drawn
      → IsRevoked id t (or_same r w.storage)
      → Revoked (stored r w).1
  written (ok s) w d p = record { drawn = d; session = p }
  written (raise e) w d p = record { drawn = d; session = p }

  pub create-Keeps :
      (x : AuthSession) → (x.id == id) ≡ false → Keeps Revoked (call (try_write (create_session x)))
  unfolding perform
  create-Keeps x new = call-Keeps _ (λ w p.
      written (create_session x w.storage) w p.drawn (performed (SessionCall.create x) w new p))

  -- The number of a draw is not before `n`.
  pub draw_uuid-then {ℓ} :
      {A : Type ℓ} (host : Host) (f : String → Task A)
      → ((m : ℕ) → n ≤ m → Keeps Revoked (f (host.uuid m)))
      → Keeps Revoked (call (draw_uuid host) >>= f)
  unfolding call ◌>>=◌
  draw_uuid-then host f h =
      Keeps.at_step _ _ (λ w p. record { drawn = omega (arith, p.drawn); session = p.session })
        (λ w p. h w.uuids_drawn p.drawn)
