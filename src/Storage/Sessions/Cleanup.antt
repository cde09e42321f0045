-- ===== src/Storage/Sessions/Cleanup.antt =====
-- memory.py: what `cleanup_expired` leaves.
use mathlib.Core.Option
use coreline_auth_module.Common.{
  ℕ, ◌<◌, String, ◌≡◌, sym, ap, ◌∙◌, inl, inr, true, false, none, some, arith, ltb, is_none,
  Option-cases,
}
use coreline_auth_module.Common.Dict
use coreline_auth_module.Common.Dict.{IsUnique, swept}
use coreline_auth_module.Common.Dict.Sweep.{get-sweep}
use coreline_auth_module.Models.{AuthSession, LoginFlow}
use coreline_auth_module.Storage.State.{Storage}
use coreline_auth_module.Storage.Flows.Cleanup.{get-cleanup_flows, sessions-cleanup_flows}
use coreline_auth_module.Storage.Sessions.{
  cleanup_sessions, cleanup_expired, revoke_expired, is_expired,
}

module _ (now : ℕ) (s : Storage) (us : IsUnique s.sessions) (uf : IsUnique s.login_flows) where
  abbrev after : Storage
  after = (cleanup_expired now s).1

  get-after_session :
      (id : String)
      → Dict.get id after.sessions
        ≡ Option.map (swept (revoke_expired now) id) (Dict.get id s.sessions)
  unfolding cleanup_expired
  get-after_session id =
      ap (Dict.get id) (sessions-cleanup_flows now s.login_flows (cleanup_sessions now s).1 0)
      ∙ get-sweep (revoke_expired now) id s.sessions 0 us

  get-after_flow :
      (id : String) (flow : LoginFlow)
      → Dict.get id s.login_flows ≡ some flow
      → Dict.get id after.login_flows
        ≡ (elim (ltb now flow.expires_at) [ true ↦ some flow | false ↦ none ])
  unfolding cleanup_expired
  get-after_flow id flow e =
      ground (arith, get-cleanup_flows now id (cleanup_sessions now s).1 0 uf)

  missing-after_flow :
      (id : String) → Dict.get id s.login_flows ≡ none → Dict.get id after.login_flows ≡ none
  unfolding cleanup_expired
  missing-after_flow id e = ground (arith, get-cleanup_flows now id (cleanup_sessions now s).1 0 uf)

  live_after :
      (id : String) (x y : AuthSession)
      → some x ≡ some (swept (revoke_expired now) id y)
      → is_none x.revoked_at ≡ true
      → is_expired now x ≡ false
  unfolding revoke_expired
  live_after id x y p live = ground arith

  kept_session :
      (id : String) (x : AuthSession)
      → is_expired now x ≡ false
      → some (swept (revoke_expired now) id x) ≡ some x
  unfolding revoke_expired
  kept_session id x h = ground arith

  -- After a cleanup every session that is not revoked is unexpired, the unexpired sessions are as
  -- they were, and the login flows that are left are exactly those that expire after `now`.
  pub cleanup_expired_lem :
      ((id : String) (x : AuthSession)
        → Dict.get id after.sessions ≡ some x
        → is_none x.revoked_at ≡ true
        → is_expired now x ≡ false)
      × ((id : String) (x : AuthSession)
          → Dict.get id s.sessions ≡ some x
          → is_expired now x ≡ false
          → Dict.get id after.sessions ≡ some x)
      × ((id : String) (flow : LoginFlow)
          → Dict.get id after.login_flows ≡ some flow
          → (Dict.get id s.login_flows ≡ some flow) × (now < flow.expires_at))
      × ((id : String) (flow : LoginFlow)
          → Dict.get id s.login_flows ≡ some flow
          → now < flow.expires_at
          → Dict.get id after.login_flows ≡ some flow)
  cleanup_expired_lem = (
    λ id x h live. elim (Option-cases (Dict.get id s.sessions)) [
      | inl missing ↦
          absurd
            (cc (get-after_session id, ap (Option.map (swept (revoke_expired now) id)) missing))
      | inr (y, found) ↦
          live_after id x y
            (sym h ∙ get-after_session id ∙ ap (Option.map (swept (revoke_expired now) id)) found)
            live
    ],
    λ id x h e.
        get-after_session id
        ∙ ap (Option.map (swept (revoke_expired now) id)) h
        ∙ kept_session id x e,
    λ id flow h. elim (Option-cases (Dict.get id s.login_flows)) [
      | inl missing ↦ absurd (cc (missing-after_flow id missing))
      | inr (g, found) ↦ ground (arith, get-after_flow id g found)
    ],
    λ id flow h l. ground (arith, get-after_flow id flow h),
  )
