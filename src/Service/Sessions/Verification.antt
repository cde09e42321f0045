-- ===== src/Service/Sessions/Verification.antt =====
-- service.py: exactly when `verify_session` returns.
use coreline_auth_module.Common.{
  ℕ, ◌≡◌, refl, ap, ◌∙◌, String, true, false, not, Option, some, none, arith, is_none, Option-cases,
  inl, inr,
}
use coreline_auth_module.Errors.{ok}
use coreline_auth_module.Host.{Host}
use coreline_auth_module.Models.{AuthUser, AuthSession, Principal, is_active}
use coreline_auth_module.Security.{hash_secret}
use coreline_auth_module.Storage.{Storage, get_user, get_session_by_token_hash}
use coreline_auth_module.Storage.Sessions.{is_expired}
use coreline_auth_module.Storage.Sessions.Index.{IsIndexed}
use coreline_auth_module.World.{World, Action, ◌>>=◌}
use coreline_auth_module.World.Actions.{pure}
use coreline_auth_module.World.Outcomes.{
  trivial-Ensures, returned, returns, Ensures, bind-Ensures, act-Ensures, require-Ensures,
}
use coreline_auth_module.World.Steps.{At, require-then, fail_if-then, query-then, now_utc-then}
use coreline_auth_module.Service.Config.{Service}
use coreline_auth_module.Service.Support.{require_user}
use coreline_auth_module.Service.Sessions.Refreshing.{get-stored, refresh-Ensures}
use coreline_auth_module.Service.Sessions.{verify_session, lacks_permission, refresh}

-- The session `found` of the token, and its user, let a request pass at the time `now`.
pub record IsGranted (host : Host) (svc : Service) (token : String) (required : Option String)
    (now : ℕ) (s : Storage) (found : AuthSession) (user : AuthUser) : Type 0 where
  pub stored : get_session_by_token_hash (hash_secret host token) s ≡ some found
  pub live : found.revoked_at ≡ none
  pub current : is_expired now found ≡ false
  pub known : get_user found.user_id s ≡ some user
  pub active : is_active user.status ≡ true
  pub permitted : lacks_permission host svc required found ≡ false

module _ (host : Host) (svc : Service) where
  require_user-then {ℓ} :
      {B : Type ℓ} {Q : B → World → Type 0} {E : World → Type 0} {s : Storage} {n : ℕ}
      {f : AuthUser → Action B} (id : String)
      → ((u : AuthUser) → get_user id s ≡ some u → Ensures (At s n) (f u) Q E)
      → (get_user id s ≡ none → (w : World) → At s n w → E w)
      → Ensures (At s n) (require_user host svc id >>= f) Q E
  unfolding require_user
  require_user-then {s = s} {n = n} id h k =
      bind-Ensures {R = λ u w. At s n w × (get_user id s ≡ some u)}
        (query-then (get_user id)
          (λ a at. require-Ensures a _ (λ u e w p. (p, at ∙ e)) (λ e w p. k (at ∙ e) w p)))
        (λ u. record { run = λ w p. (h u p.1).run w p.0 })

  live_none : (x : AuthSession) → not (is_none x.revoked_at) ≡ false → x.revoked_at ≡ none
  live_none x h = elim (Option-cases x.revoked_at) [
    | inl e ↦ e
    | inr (t, e) ↦ absurd (ground (arith, h, e))
  ]

  finish :
      {P : World → Type 0} {token : String} {required : Option String} {t : ℕ} {s : Storage}
      (session : AuthSession) (user : AuthUser) (now : ℕ)
      → IsGranted host svc token required t s session user
      → Ensures {A = Principal} P
          (refresh host svc now session >>= λ x. pure (record { user = user; session = x }))
          (λ p w. (found : AuthSession) × IsGranted host svc token required t s found p.user)
          (λ w. Unit {0})
  finish session user now g = bind-Ensures trivial-Ensures (λ x. act-Ensures (λ w p. (session, g)))

  pub sound-Ensures :
      (token : String) (required : Option String) (s : Storage) (n : ℕ)
      → Ensures
          (At s n)
          (verify_session host svc token required)
          (λ p w.
            (found : AuthSession) × IsGranted host svc token required (host.clock n) s found p.user)
          (λ w. Unit {0})
  unfolding verify_session
  sound-Ensures token required s n =
      query-then (get_session_by_token_hash (hash_secret host token)) (λ found at.
        now_utc-then host (λ now clock.
          require-then found _
            (λ session e.
              fail_if-then _ _
                (λ live u1.
                  fail_if-then _ _
                    (λ current u2.
                      require_user-then session.user_id
                        (λ user known.
                          fail_if-then _ _
                            (λ active u3.
                              fail_if-then _ _
                                (λ permitted u4. finish session user now (record {
                                  stored = at ∙ e;
                                  live = live_none session live;
                                  current = ap (λ t. is_expired t session) clock ∙ current;
                                  known = known;
                                  active = ground (arith, active);
                                  permitted = permitted;
                                }))
                                (λ h w p. tt))
                            (λ h w p. tt))
                        (λ h w p. tt))
                    (λ h w p. tt))
                (λ h w p. tt))
            (λ h w p. tt)))

  complete-Ensures :
      (token : String) (required : Option String) (s : Storage) (n : ℕ) (found : AuthSession)
      (user : AuthUser)
      → IsIndexed s
      → IsGranted host svc token required (host.clock n) s found user
      → Ensures
          (At s n)
          (verify_session host svc token required)
          (λ p w.
            (p.user ≡ user)
            × (p.session.id ≡ found.id)
            × (p.session.user_id ≡ found.user_id)
            × (p.session.permissions ≡ found.permissions)
            × (p.session.assurance_level ≡ found.assurance_level))
          (λ w. ⊥)
  unfolding verify_session
  complete-Ensures token required s n found user v g =
      query-then (get_session_by_token_hash (hash_secret host token)) (λ o at.
        now_utc-then host (λ now clock.
          require-then o _
            (λ x e.
              let same : x ≡ found = ground (arith, g.stored, at, e) in
              let gx : IsGranted host svc token required (host.clock n) s x user = rw same g in
              fail_if-then _ _
                (λ live u1.
                  fail_if-then _ _
                    (λ current u2.
                      require_user-then x.user_id
                        (λ u known.
                          let user_same : u ≡ user = ground (arith, gx.known, known) in
                          fail_if-then _ _
                            (λ active u3.
                              fail_if-then _ _
                                (λ permitted u4.
                                  bind-Ensures
                                    (refresh-Ensures host svc now s _ x
                                      (get-stored _ x s v gx.stored) gx.live)
                                    (λ y. act-Ensures (λ w p. (
                                      user_same,
                                      p.0 ∙ ap (λ z. z.id) same,
                                      p.1 ∙ ap (λ z. z.user_id) same,
                                      p.2 ∙ ap (λ z. z.permissions) same,
                                      p.3 ∙ ap (λ z. z.assurance_level) same,
                                    ))))
                                (λ h w p. ground (arith, h, gx.permitted)))
                            (λ h w p. ground (arith, h, gx.active, user_same)))
                        (λ h w p. ground (arith, h, gx.known)))
                    (λ h w p. ground (arith, ap (λ t. is_expired t x) clock ∙ h, gx.current)))
                (λ h w p. ground (arith, h, gx.live)))
            (λ h w p. ground (arith, h, at, g.stored))))

-- When `verify_session` returns a principal, the hash of the token leads to a session that is not
-- revoked and not past either of its two limits at the time that the clock showed, its user is in
-- the table, is active and is the principal's, and the session has the permission, if one is
-- required.
pub verify_session_sound :
    (host : Host) (svc : Service) (token : String) (required : Option String) (w w' : World)
    (p : Principal)
    → verify_session host svc token required w ≡ (ok p, w')
    → (found : AuthSession) × IsGranted host svc token required
        (host.clock w.clock_reads)
        w.storage
        found
        p.user
verify_session_sound host svc token required w w' p e =
    returned (sound-Ensures host svc token required w.storage w.clock_reads) w p w' (refl, refl) e

-- Where the table of sessions and its index agree, a token whose session passes every check is
-- accepted: `verify_session` returns the session's user and a session with the same id, owner,
-- permissions and assurance level.
pub verify_session_complete :
    (host : Host) (svc : Service) (token : String) (required : Option String) (w : World)
    (found : AuthSession) (user : AuthUser)
    → IsIndexed w.storage
    → IsGranted host svc token required (host.clock w.clock_reads) w.storage found user
    → (p : Principal) × ((verify_session host svc token required w).0 ≡ ok p)
      × (p.user ≡ user)
      × (p.session.id ≡ found.id)
      × (p.session.user_id ≡ found.user_id)
      × (p.session.permissions ≡ found.permissions)
      × (p.session.assurance_level ≡ found.assurance_level)
verify_session_complete host svc token required w found user v g =
    let (p, e, q) =
      returns (complete-Ensures host svc token required w.storage w.clock_reads found user v g) w
        (refl, refl) in
    (p, e, q.0, q.1, q.2, q.3, q.4)
