-- ===== src/Service/Sessions/Ending.antt =====
-- service.py: after `logout`, `verify_session` refuses the token.
use coreline_auth_module.Common.{
  String, ◌≡◌, refl, false, Option, some, none, arith, is_none, sym, ap, ◌∙◌,
}
use coreline_auth_module.Errors.{Error, Result, ok, raise}
use coreline_auth_module.Host.{Host}
use coreline_auth_module.Models.{AuthSession, Principal}
use coreline_auth_module.Security.{hash_secret}
use coreline_auth_module.Storage.{get_session_by_token_hash, record_audit_event}
use coreline_auth_module.Storage.Sessions.Index.{IsIndexed}
use coreline_auth_module.Storage.Sessions.Closing.{revoke_session-closes}
use coreline_auth_module.World.{World, ◌>>=◌}
use coreline_auth_module.Service.Config.{Service}
use coreline_auth_module.Service.Support.{audit}
use coreline_auth_module.Service.Sessions.{verify_session, revoke_by_id, end_found, logout}
use coreline_auth_module.Service.Sessions.Verification.{IsGranted, verify_session_sound}

raises : (r : Result Principal) → ((p : Principal) → r ≡ ok p → ⊥) → (e : Error) × (r ≡ raise e)
raises (ok p) h = absurd (h p refl)
raises (raise e) h = (e, refl)

module _ (host : Host) (svc : Service) where
  -- The end of a session that was found writes the revocation and an event.
  end_found-closes :
      (h : String) (found : AuthSession) (w : World) (y : AuthSession)
      → IsIndexed w.storage
      → get_session_by_token_hash h w.storage ≡ some found
      → get_session_by_token_hash h (end_found host svc (some found) w).1.storage ≡ some y
      → is_none y.revoked_at ≡ false
  unfolding end_found revoke_by_id audit record_audit_event ◌>>=◌ get_session_by_token_hash
  end_found-closes h found w y v e e' =
      revoke_session-closes h (host.clock w.clock_reads) w.storage found y v e e'

  end_found-returns :
      (found : Option AuthSession) (w : World) → (end_found host svc found w).0 ≡ ok tt
  unfolding end_found revoke_by_id audit record_audit_event ◌>>=◌
  end_found-returns none w = refl
  end_found-returns (some x) w = refl

  granted_after :
      (token : String) (required : Option String) (w : World) (p : Principal)
      → (verify_session host svc token required w).0 ≡ ok p
      → (y : AuthSession) × IsGranted host svc token required
          (host.clock w.clock_reads)
          w.storage
          y
          p.user
  granted_after token required w p a =
      verify_session_sound host svc token required w (verify_session host svc token required w).1 p
        (ap (λ r. (r, (verify_session host svc token required w).1)) a)

  end_found-refuses :
      (token : String) (required : Option String) (w : World) (p : Principal)
      (found : Option AuthSession)
      → IsIndexed w.storage
      → get_session_by_token_hash (hash_secret host token) w.storage ≡ found
      → (verify_session host svc token required (end_found host svc found w).1).0 ≡ ok p
      → ⊥
  unfolding end_found
  end_found-refuses token required w p none v e a =
      let (y, g) = granted_after token required w p a in absurd (missing (sym e ∙ g.stored))
    where
      missing : {y : AuthSession} → none ≡ some y → ⊥
      missing q = ground (arith, q)
  end_found-refuses token required w p (some x) v e a =
      let (y, g) = granted_after token required (end_found host svc (some x) w).1 p a in
      let closed = end_found-closes (hash_secret host token) x w y v e g.stored in
      absurd (both y g.live closed)
    where
      both : (y : AuthSession) → y.revoked_at ≡ none → is_none y.revoked_at ≡ false → ⊥
      both y live closed = ground (arith, live, closed)

  -- From a storage whose table of sessions and index agree, `logout` returns, and `verify_session`
  -- then raises for the token, whatever permission is asked for.
  pub verify_session-logout :
      (token : String) (required : Option String) (w : World)
      → IsIndexed w.storage
      → ((logout host svc token w).0 ≡ ok tt)
        × (error : Error) × ((verify_session host svc token required (logout host svc token w).1).0
            ≡ raise error)
  unfolding logout ◌>>=◌
  verify_session-logout token required w v =
      let found = get_session_by_token_hash (hash_secret host token) w.storage in
      let refusal =
        raises (verify_session host svc token required (end_found host svc found w).1).0
          (λ p a. end_found-refuses token required w p found v refl a) in
      (end_found-returns found w, refusal.0, refusal.1)
