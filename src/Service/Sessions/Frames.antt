-- ===== src/Service/Sessions/Frames.antt =====
-- service.py: the parts of the storage that the session methods leave as they are.
use coreline_auth_module.Common.{
  ℕ, refl, String, Option, some, none, Bool-cases, Option-cases, inl, inr, ◌≡◌, is_none,
}
use coreline_auth_module.Common.Dict
use coreline_auth_module.Host.{Host}
use coreline_auth_module.Models.{AuthSession, end, field, text}
use coreline_auth_module.Storage.{
  Storage, touch_session, revoke_sessions_for_user, revoke_session as revoke_stored,
}
use coreline_auth_module.Storage.Sessions.{change_live}
use coreline_auth_module.World.Frames.{Frame, bind-Frame, still-Frame, fail_if-Frame, require-Frame}
use coreline_auth_module.Service.Config.{Service}
use coreline_auth_module.Service.Support.Frames.{users_of, require_user-Frame, audit-Frame}
use coreline_auth_module.Service.Accounts.{revoke_all}
use coreline_auth_module.Service.Sessions.{
  verify_session, refresh, should_touch, revoke_session, revoke_by_id,
}

pub change_live-users :
    (f : AuthSession → AuthSession) (id : String) (found : Option AuthSession) (s : Storage)
    → (change_live f id found s).1.users ≡ s.users
unfolding change_live
change_live-users f id none s = refl
change_live-users f id (some session) s = elim (Bool-cases (is_none session.revoked_at)) [
  | inl h ↦ rw h refl
  | inr h ↦ rw h refl
]

revoke_stored-users :
    (id : String) (now : ℕ) (s : Storage) → (revoke_stored id now s).users ≡ s.users
unfolding revoke_stored
revoke_stored-users id now s = elim (Option-cases (Dict.get id s.sessions)) [
  | inl h ↦ rw h refl
  | inr (x, h) ↦ elim (Bool-cases (is_none x.revoked_at)) [
    | inl live ↦ rw (h, live) refl
    | inr dead ↦ rw (h, dead) refl
  ]
]

module _ (host : Host) (svc : Service) where
  -- Each part that a change of a live session leaves as it is.
  abbrev IsKeptLive : {C : Type 0} → (Storage → C) → Type 0
  IsKeptLive view =
      (f : AuthSession → AuthSession) (id : String) (found : Option AuthSession) (s : Storage)
      → view (change_live f id found s).1 ≡ view s

  refresh-Frame :
      {C : Type 0} (view : Storage → C)
      → IsKeptLive view
      → (now : ℕ) (session : AuthSession) → Frame view (refresh host svc now session)
  unfolding refresh touch_session
  refresh-Frame view keeps now session =
      elim (Bool-cases (should_touch svc.config.session_touch_interval_seconds now session)) [
        | inl h ↦ rw h (
            bind-Frame (still-Frame (λ w. keeps _ _ _ w.storage))
              (λ refreshed. require-Frame refreshed _))
        | inr h ↦ rw h (still-Frame (λ w. refl))
      ]

  pub verify_session-Frame :
      {C : Type 0} (view : Storage → C)
      → IsKeptLive view
      → (token : String) (required : Option String)
      → Frame view (verify_session host svc token required)
  unfolding verify_session
  verify_session-Frame view keeps token required = bind-Frame (still-Frame (λ w. refl)) (λ found.
      bind-Frame (still-Frame (λ w. refl)) (λ now. bind-Frame (require-Frame found _) (λ session.
        bind-Frame (fail_if-Frame _ _) (λ _. bind-Frame (fail_if-Frame _ _) (λ _.
          bind-Frame (require_user-Frame host svc session.user_id) (λ user.
            bind-Frame (fail_if-Frame _ _) (λ _. bind-Frame (fail_if-Frame _ _) (λ _.
              bind-Frame (refresh-Frame view keeps now session)
                (λ _. still-Frame (λ w. refl))))))))))

  pub revoke_all-Frame :
      (user_id : String) (except : Option String)
      → Frame users_of (revoke_all host svc user_id except)
  unfolding revoke_all revoke_sessions_for_user
  revoke_all-Frame user_id except =
      bind-Frame (still-Frame (λ w. refl)) (λ now. still-Frame (λ w. refl))

  pub revoke_session-Frame :
      (session_id : String) (actor : Option String)
      → Frame users_of (revoke_session host svc session_id actor)
  unfolding revoke_session revoke_by_id
  revoke_session-Frame session_id actor =
      bind-Frame
        (bind-Frame (still-Frame (λ w. refl))
          (λ now. still-Frame (λ w. revoke_stored-users session_id now w.storage)))
        (λ _. audit-Frame host svc _ _ _ (field "session_id" (text session_id) end))
