-- ===== src/Service/Resets/Revocation.antt =====
-- service.py: a password reset ends the user's sessions.
use coreline_auth_module.Common.{
  ℕ, ◌≡◌, refl, String, true, false, ◌&&◌, Option, some, none, arith, is_none, has_text, Bool-cases,
  Option-cases, inl, inr,
}
use coreline_auth_module.Common.Dict
use coreline_auth_module.Common.Dict.{Dict, IsUnique}
use coreline_auth_module.Errors.{ok}
use coreline_auth_module.Host.{Host}
use coreline_auth_module.Models.{
  AuthUser, AuthSession, AuthCredential, FlowType, Fields, end, is_active, is_single_owner,
}
use coreline_auth_module.Security.{hash_secret}
use coreline_auth_module.Storage.{
  Storage, upsert_credential, record_audit_event, consume_login_flow_by_state_hash,
  get_login_flow_by_state_hash,
}
use coreline_auth_module.Storage.Flows.{is_consumable}
use coreline_auth_module.Storage.Sessions.Revocation.{revoke_sessions_for_user_lem}
use coreline_auth_module.World.{World, Action}
use coreline_auth_module.World.{◌>>=◌}
use coreline_auth_module.World.Outcomes.{
  Ensures, bind-Ensures, act-Ensures, when-Ensures, returned, return-Ensures,
}
use coreline_auth_module.World.Frames.{
  Frame, bind-Frame, still-Frame, fail_if-Frame, when-Frame, require-Frame, frame-Ensures,
}
use coreline_auth_module.Service.Config.{Service}
use coreline_auth_module.Service.Support.{audit, assert_owner_email}
use coreline_auth_module.Service.Support.Frames.{require_user-Frame, audit-keeps}
use coreline_auth_module.Service.Accounts.{save_password, set_password, revoke_all, revoked_count}
use coreline_auth_module.Service.Accounts.Frames.{new_credential-Frame}
use coreline_auth_module.Service.Tokens.{consume_email_flow, require_active_user, owner_only}
use coreline_auth_module.Service.Resets.{reset_password_of, consume_password_reset}

abbrev sessions_of : Storage → Dict AuthSession
sessions_of s = s.sessions

-- Every session of the user is revoked.
pub IsOut : String → Dict AuthSession → Type 0
IsOut user_id sessions =
    (id : String) (x : AuthSession)
    → Dict.get id sessions ≡ some x
    → x.user_id ≡ user_id
    → is_none x.revoked_at ≡ false

upsert_credential-sessions :
    (c : AuthCredential) (s : Storage) → (upsert_credential c s).sessions ≡ s.sessions
unfolding upsert_credential
upsert_credential-sessions c s =
    elim (Bool-cases (has_text c.password_hash && is_none c.revoked_at)) [
      | inl h ↦ rw h refl
      | inr h ↦ rw h refl
    ]

consume-sessions :
    (h : String) (t : FlowType) (p : Option String) (now : ℕ) (s : Storage)
    → (consume_login_flow_by_state_hash h t p now s).1.sessions ≡ s.sessions
unfolding consume_login_flow_by_state_hash get_login_flow_by_state_hash
consume-sessions h t p now s = elim (Option-cases (get_login_flow_by_state_hash h s)) [
  | inl missing ↦ rw missing refl
  | inr (flow, found) ↦ elim (Bool-cases (is_consumable t p now flow)) [
    | inl fit ↦ rw (found, fit) refl
    | inr unfit ↦ rw (found, unfit) refl
  ]
]

module _ (host : Host) (svc : Service) where
  audit-sessions :
      (action : String) (actor target : Option String) (metadata : Fields)
      → Frame sessions_of (audit host svc action actor target metadata)
  unfolding record_audit_event
  audit-sessions = audit-keeps host svc sessions_of (λ event s. refl)

  set_password-sessions :
      (user_id password : String)
      → Frame sessions_of (set_password host svc user_id password (some false) none)
  unfolding set_password save_password
  set_password-sessions user_id password =
      bind-Frame
        (bind-Frame (require_user-Frame host svc user_id) (λ user.
          bind-Frame (still-Frame (λ w. refl)) (λ existing.
            bind-Frame (new_credential-Frame host svc user.id password existing) (λ credential.
              bind-Frame (still-Frame (λ w. upsert_credential-sessions credential w.storage))
                (λ _. bind-Frame (audit-sessions _ _ _ end) (λ _. still-Frame (λ w. refl)))))))
        (λ pair. bind-Frame (still-Frame (λ w. refl)) (λ _. still-Frame (λ w. refl)))

  require_active_user-Frame :
      (found : Option AuthUser) (message : String)
      → Frame sessions_of (require_active_user host svc found message)
  unfolding require_active_user
  require_active_user-Frame none message = still-Frame (λ w. refl)
  require_active_user-Frame (some u) message = elim (Bool-cases (is_active u.status)) [
    | inl h ↦ rw h (still-Frame (λ w. refl))
    | inr h ↦ rw h (still-Frame (λ w. refl))
  ]

  abbrev Distinct : World → Type 0
  Distinct w = IsUnique w.storage.sessions

  revoke_all-Ensures :
      (user_id : String)
      → Ensures Distinct
          (revoke_all host svc user_id none)
          (λ _ w. IsOut user_id w.storage.sessions)
          Distinct
  unfolding revoke_all IsOut
  revoke_all-Ensures user_id = bind-Ensures {R = λ _. Distinct} (act-Ensures (λ w u. u)) (λ now.
      act-Ensures (λ w u id x at own.
        (revoke_sessions_for_user_lem user_id none now w.storage u).0 id x at own
          (λ e. absurd (ground (arith, e)))))

  owner_only-Frame : (email : String) → Frame sessions_of (owner_only host svc email)
  unfolding assert_owner_email
  owner_only-Frame email = when-Frame (is_single_owner svc.config.profile) (fail_if-Frame _ _)

  abbrev Revoked : AuthUser → World → Type 0
  Revoked user w = IsOut user.id w.storage.sessions

  kept {ℓ} :
      {A : Type ℓ} {m : Action A} (P : Dict AuthSession → Type 0)
      → Frame sessions_of m
      → Ensures (λ w. P w.storage.sessions) m (λ _ w. P w.storage.sessions) (λ _. Unit {0})
  kept P h = return-Ensures (frame-Ensures P h)

  revoking-Ensures :
      (user : AuthUser)
      → Ensures Distinct
          (do
            revoked ← revoke_all host svc user.id none
            audit host svc "auth.password_reset.sessions_revoked" none
                (some user.id)
                (revoked_count revoked))
          (λ _. Revoked user)
          (λ _. Unit {0})
  revoking-Ensures user =
      bind-Ensures {R = λ _. Revoked user} (return-Ensures (revoke_all-Ensures user.id))
        (λ revoked. kept (IsOut user.id) (audit-sessions _ _ _ (revoked_count revoked)))

  reset_password_of-Ensures :
      (user : AuthUser) (new_password : String)
      → svc.config.revoke_sessions_on_password_change ≡ true
      → Ensures Distinct (reset_password_of host svc user new_password) Revoked (λ _. Unit {0})
  unfolding reset_password_of
  reset_password_of-Ensures user new_password on =
      bind-Ensures {R = λ _. Distinct} (kept IsUnique (owner_only-Frame user.primary_email)) (λ _.
        bind-Ensures {R = λ _. Distinct}
          (kept IsUnique (set_password-sessions user.id new_password))
          (λ saved.
            bind-Ensures {R = λ _. Revoked user}
              (when-Ensures _ (λ _. revoking-Ensures user)
                (λ off. absurd (ground (arith, on, off))))
              (λ _.
                bind-Ensures {R = λ _. Revoked user}
                  (kept (IsOut user.id) (audit-sessions _ _ _ end)) (λ _. act-Ensures (λ w r. r)))))

  consume_password_reset-Ensures :
      (token new_password : String)
      → svc.config.revoke_sessions_on_password_change ≡ true
      → Ensures Distinct
          (consume_password_reset host svc token new_password)
          Revoked
          (λ _. Unit {0})
  unfolding consume_password_reset consume_email_flow
  consume_password_reset-Ensures token new_password on =
      bind-Ensures {R = λ _. Distinct} (kept IsUnique (still-Frame (λ w. refl))) (λ now.
        bind-Ensures {R = λ _. Distinct}
          (kept IsUnique (
            still-Frame (λ w.
              consume-sessions (hash_secret host token) FlowType.password_reset (some "email") now
                w.storage)))
          (λ found.
            bind-Ensures {R = λ _. Distinct} (kept IsUnique (require-Frame found _)) (λ flow.
              bind-Ensures {R = λ _. Distinct} (kept IsUnique (still-Frame (λ w. refl)))
                (λ candidate.
                  bind-Ensures {R = λ _. Distinct}
                    (kept IsUnique (require_active_user-Frame candidate _))
                    (λ user. reset_password_of-Ensures user new_password on)))))

  -- If `revoke_sessions_on_password_change` is set and no id has two sessions, then after a
  -- password reset that returns a user every session of that user is revoked.
  pub consume_password_reset-IsOut :
      (token new_password : String) (w w' : World) (user : AuthUser)
      → svc.config.revoke_sessions_on_password_change ≡ true
      → IsUnique w.storage.sessions
      → consume_password_reset host svc token new_password w ≡ (ok user, w')
      → IsOut user.id w'.storage.sessions
  consume_password_reset-IsOut token new_password w w' user on unique e =
      returned (consume_password_reset-Ensures token new_password on) w user w' unique e
