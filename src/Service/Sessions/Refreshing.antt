-- ===== src/Service/Sessions/Refreshing.antt =====
-- service.py: the touch at the end of `verify_session` on a live session.
use coreline_auth_module.Common.{
  ℕ, ◌≡◌, refl, ap, ◌∙◌, String, Option, some, none, arith, Bool-cases, Option-cases, inl, inr,
}
use coreline_auth_module.Common.Dict
use coreline_auth_module.Host.{Host}
use coreline_auth_module.Models.{AuthSession}
use coreline_auth_module.Storage.{Storage, get_session_by_token_hash, touch_session}
use coreline_auth_module.Storage.Sessions.{change_live}
use coreline_auth_module.Storage.Sessions.Index.{IsIndexed}
use coreline_auth_module.World.Outcomes.{Ensures, bind-Ensures, act-Ensures, require-Ensures}
use coreline_auth_module.World.Steps.{At}
use coreline_auth_module.Service.Config.{Service}
use coreline_auth_module.Service.Sessions.{refresh, should_touch, idle_limit}

-- The index leads to a session under its own id.
pub get-stored :
    (h : String) (found : AuthSession) (s : Storage)
    → IsIndexed s
    → get_session_by_token_hash h s ≡ some found
    → Dict.get found.id s.sessions ≡ some found
unfolding get_session_by_token_hash
get-stored h found s v e = elim (Option-cases (Dict.get h s.sessions_by_token_hash)) [
  | inl missing ↦ absurd (ground (arith, missing, e))
  | inr (id, at) ↦
      let (x, stored, _) = v.sound h id at in ground (arith, at, stored, v.keyed id x stored, e)
]

module _ (host : Host) (svc : Service) where
  touched :
      (now : ℕ) (idle : Option ℕ) (session : AuthSession) (s s' : Storage)
      → s' ≡ s
      → Dict.get session.id s.sessions ≡ some session
      → session.revoked_at ≡ none
      → (touch_session session.id now idle s').0
        ≡ some (record session { last_seen_at = some now; idle_expires_at = idle })
  unfolding touch_session change_live
  touched now idle session s s' e at live =
      ap (λ x. (touch_session session.id now idle x).0) e ∙ rw (at, live) refl

  -- A live session under its own id is refreshed.
  pub refresh-Ensures :
      (now : ℕ) (s : Storage) (n : ℕ) (session : AuthSession)
      → Dict.get session.id s.sessions ≡ some session
      → session.revoked_at ≡ none
      → Ensures
          (At s n)
          (refresh host svc now session)
          (λ x w.
            (x.id ≡ session.id)
            × (x.user_id ≡ session.user_id)
            × (x.permissions ≡ session.permissions)
            × (x.assurance_level ≡ session.assurance_level))
          (λ w. ⊥)
  unfolding refresh
  refresh-Ensures now s n session at live =
      let idle = idle_limit now svc.config.session_idle_ttl_seconds in
      let x : AuthSession = record session { last_seen_at = some now; idle_expires_at = idle } in
      elim (Bool-cases (should_touch svc.config.session_touch_interval_seconds now session)) [
        | inl h ↦ rw h (
            bind-Ensures {R = λ o w. o ≡ some x}
              (act-Ensures (λ w p. touched now idle session s w.storage p.0 at live))
              (λ o.
                require-Ensures o _
                  (λ u e w p.
                    let same : u ≡ x = ground (arith, e, p) in
                    (
                      ap (λ y. y.id) same,
                      ap (λ y. y.user_id) same,
                      ap (λ y. y.permissions) same,
                      ap (λ y. y.assurance_level) same,
                    ))
                  (λ e w p. ground (arith, e, p))))
        | inr h ↦ rw h (act-Ensures (λ w p. (refl, refl, refl, refl)))
      ]
