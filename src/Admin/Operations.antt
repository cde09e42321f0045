-- ===== src/Admin/Operations.antt =====
-- admin.py: each operation that changes users keeps an active owner or admin in the table.
use coreline_auth_module.Common.{
  ◌≡◌, refl, ap, ◌∙◌, String, Bool, true, false, not, ◌&&◌, Option, some, none, arith, ◌==◌,
}
use coreline_auth_module.Common.Dict
use coreline_auth_module.Common.Dict.{Dict}
use coreline_auth_module.Errors.{Result, ok, raise}
use coreline_auth_module.Host.{Host}
use coreline_auth_module.Models.{
  AuthUser, UserStatus, is_active, Role, Principal, end, field, text, number, role_value,
}
use coreline_auth_module.Storage.{update_user}
use coreline_auth_module.World.{World, Action, ◌>>=◌}
use coreline_auth_module.World.Actions.{try_write, pure, when}
use coreline_auth_module.World.Outcomes.{
  Outcome, Ensures, bind-Ensures, act-Ensures, pre-Ensures, when-Ensures, fail_if-Ensures,
}
use coreline_auth_module.World.Frames.{Frame, frame-Ensures}
use coreline_auth_module.Service.{verify_session, Service}
use coreline_auth_module.Service.Sessions.Frames.{
  change_live-users, verify_session-Frame, revoke_all-Frame,
}
use coreline_auth_module.Service.Support.Frames.{users_of, audit-Frame, require_user-Ensures}
use coreline_auth_module.Admin.{
  has_another, require_another, write_status, guard_lock, is_privileged_role, reason_metadata,
  update_user_role, ban_user, unban_user, disable_user, enable_user,
}
use coreline_auth_module.Admin.Privileged.{
  is_live_admin, IsAdministered, MayReplace, replace-IsAdministered, keep-MayReplace,
  other-MayReplace,
}

abbrev pub Adm : World → Type 0
Adm w = IsAdministered w.storage.users

-- The user that was found under the id.
abbrev Found : String → AuthUser → World → Type 0
Found user_id user w = Adm w × (Dict.get user_id w.storage.users ≡ some user)

-- It may be replaced by a user that counts if `live`.
abbrev Ready : String → AuthUser → Bool → World → Type 0
Ready user_id user live w = Found user_id user w × MayReplace w.storage.users user_id live

require_another-Ensures :
    (user_id : String) (user : AuthUser) (live : Bool)
    → Ensures (Found user_id user) (require_another user.id) (λ _. Ready user_id user live) Adm
unfolding require_another
require_another-Ensures user_id user live =
    bind-Ensures {R = λ found w. Found user_id user w × (has_another user.id w.storage ≡ found)}
      (act-Ensures (λ w p. (p, refl)))
      (λ found.
        fail_if-Ensures (not found) _
          (λ h w p. (
            p.0,
            other-MayReplace w.storage p.0.0 user live user_id p.0.1 (ground (arith, p.1, h)),
          ))
          (λ e w p. p.0.0))

-- Another active owner or admin is asked for if `b`, and is not needed otherwise.
guarded-Ensures :
    (user_id : String) (user : AuthUser) (live b : Bool)
    → (b ≡ false → is_live_admin user ≡ true → live ≡ true)
    → Ensures
        (Found user_id user)
        (when b (require_another user.id))
        (λ _. Ready user_id user live)
        Adm
guarded-Ensures user_id user live b k =
    when-Ensures b (λ h. require_another-Ensures user_id user live)
      (λ h w p. (p, keep-MayReplace w.storage.users p.0 user user_id p.1 live (k h)))

update_user-Ensures :
    (user_id : String) (user new : AuthUser)
    → new.id ≡ user.id
    → Ensures (Ready user_id user (is_live_admin new)) (try_write (update_user new)) (λ _. Adm) Adm
unfolding update_user
update_user-Ensures user_id user new same = act-Ensures (λ w p.
    let at : Dict.get new.id w.storage.users ≡ some user =
      ap (λ k. Dict.get k w.storage.users) (same ∙ p.0.0.keyed user_id user p.0.1) ∙ p.0.1 in
    rw at (replace-IsAdministered w.storage.users p.0.0 user new user_id p.0.1 same p.1))

-- The outcome of a call whose return and exception promise the same.
pub always {ℓ} :
    {A : Type ℓ} (P : World → Type 0) (r : Result A) (w : World) → Outcome (λ _. P) P r w → P w
always P (ok a) w p = p
always P (raise e) w p = p

module _ (host : Host) (svc : Service) where
  pub verified {ℓ} :
      {A : Type ℓ} (token : String) (required : Option String) {f : Principal → Action A}
      → ((actor : Principal) → Ensures Adm (f actor) (λ _. Adm) Adm)
      → Ensures Adm (verify_session host svc token required >>= f) (λ _. Adm) Adm
  verified token required k =
      bind-Ensures
        (frame-Ensures IsAdministered
          (verify_session-Frame host svc users_of change_live-users token required))
        k

  pub framed {ℓ} : {A : Type ℓ} {m : Action A} → Frame users_of m → Ensures Adm m (λ _. Adm) Adm
  framed h = frame-Ensures IsAdministered h

  done {ℓ} : {A : Type ℓ} (a : A) → Ensures Adm (pure a) (λ _. Adm) Adm
  done a = act-Ensures (λ w p. p)

  write_status-Ensures :
      (user_id : String) (user : AuthUser) (status : UserStatus)
      → Ensures
          (Ready user_id user (is_active status && is_privileged_role user.role))
          (write_status host svc user status)
          (λ _. Adm)
          Adm
  unfolding write_status
  write_status-Ensures user_id user status =
      bind-Ensures {R = λ _. Ready user_id user (is_active status && is_privileged_role user.role)}
        (act-Ensures (λ w p. p))
        (λ now.
          bind-Ensures (update_user-Ensures user_id user _ refl) (λ _. act-Ensures (λ w p. p)))

  -- The guards of a ban and of a deactivation.
  guard_lock-Ensures :
      (user_id : String) (user : AuthUser) (actor : Principal) (message : String)
      → Ensures
          (Found user_id user)
          (guard_lock host svc actor user message)
          (λ _. Ready user_id user false)
          Adm
  unfolding guard_lock
  guard_lock-Ensures user_id user actor message =
      bind-Ensures (fail_if-Ensures (user.id == actor.user.id) _ (λ h w p. p) (λ e w p. p.0)) (λ _.
        guarded-Ensures user_id user false (is_privileged_role user.role)
          (λ h live. ground (arith, h, live)))

  pub ban-Ensures :
      (token user_id : String) (reason : Option String)
      → Ensures Adm (ban_user host svc token user_id reason) (λ _. Adm) Adm
  unfolding ban_user
  ban-Ensures token user_id reason = verified token (some "users:ban") (λ actor.
      bind-Ensures (require_user-Ensures host svc IsAdministered user_id) (λ user.
        bind-Ensures (guard_lock-Ensures user_id user actor _) (λ _.
          bind-Ensures (write_status-Ensures user_id user UserStatus.banned) (λ updated.
            bind-Ensures (framed (audit-Frame host svc _ _ _ (reason_metadata reason)))
              (λ _. done updated)))))

  pub disable-Ensures :
      (token user_id : String) (reason : Option String)
      → Ensures Adm (disable_user host svc token user_id reason) (λ _. Adm) Adm
  unfolding disable_user
  disable-Ensures token user_id reason = verified token (some "users:write") (λ actor.
      bind-Ensures (require_user-Ensures host svc IsAdministered user_id) (λ user.
        bind-Ensures (guard_lock-Ensures user_id user actor _) (λ _.
          bind-Ensures (write_status-Ensures user_id user UserStatus.disabled) (λ updated.
            bind-Ensures (framed (revoke_all-Frame host svc user.id none)) (λ _.
              bind-Ensures (framed (audit-Frame host svc _ _ _ (reason_metadata reason)))
                (λ _. done updated))))))

  -- A user that is made active goes on counting.
  activate-Ensures :
      (user_id : String) (user : AuthUser)
      → Ensures (Found user_id user) (write_status host svc user UserStatus.active) (λ _. Adm) Adm
  activate-Ensures user_id user =
      pre-Ensures
        (λ w p. (
          p,
          keep-MayReplace w.storage.users p.0 user user_id p.1 _ (λ live. ground (arith, live)),
        ))
        (write_status-Ensures user_id user UserStatus.active)

  pub unban-Ensures :
      (token user_id : String) (reason : Option String)
      → Ensures Adm (unban_user host svc token user_id reason) (λ _. Adm) Adm
  unfolding unban_user
  unban-Ensures token user_id reason = verified token (some "users:ban") (λ actor.
      bind-Ensures (require_user-Ensures host svc IsAdministered user_id) (λ user.
        bind-Ensures (activate-Ensures user_id user) (λ updated.
          bind-Ensures (framed (audit-Frame host svc _ _ _ (reason_metadata reason)))
            (λ _. done updated))))

  pub enable-Ensures :
      (token user_id : String) (reason : Option String)
      → Ensures Adm (enable_user host svc token user_id reason) (λ _. Adm) Adm
  unfolding enable_user
  enable-Ensures token user_id reason = verified token (some "users:write") (λ actor.
      bind-Ensures (require_user-Ensures host svc IsAdministered user_id) (λ user.
        bind-Ensures (activate-Ensures user_id user) (λ updated.
          bind-Ensures (framed (audit-Frame host svc _ _ _ (reason_metadata reason)))
            (λ _. done updated))))

  pub role-Ensures :
      (token user_id : String) (role : Role)
      → Ensures Adm (update_user_role host svc token user_id role) (λ _. Adm) Adm
  unfolding update_user_role
  role-Ensures token user_id role = verified token (some "users:write") (λ actor.
      bind-Ensures (require_user-Ensures host svc IsAdministered user_id) (λ user.
        bind-Ensures
          (guarded-Ensures user_id user (is_active user.status && is_privileged_role role) _
            (λ h live. ground (arith, h, live)))
          (λ _.
            bind-Ensures
              {R = λ _. Ready user_id user (is_active user.status && is_privileged_role role)}
              (act-Ensures (λ w p. p))
              (λ now. bind-Ensures (update_user-Ensures user_id user _ refl) (λ _.
                bind-Ensures (framed (revoke_all-Frame host svc user.id none)) (λ revoked.
                  bind-Ensures
                    (framed (
                      audit-Frame host svc _ _ _ (
                        field "role" (text (role_value role))
                          (field "revoked_count" (number revoked) end))))
                    (λ _. act-Ensures (λ w p. p))))))))
