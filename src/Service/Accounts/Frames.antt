-- ===== src/Service/Accounts/Frames.antt =====
-- service.py: the table of users under `set_password`, which leaves it as it is.
use coreline_auth_module.Common.{
  refl, String, Bool, ◌&&◌, Option, some, none, Bool-cases, inl, inr, ◌≡◌, is_none, has_text,
  get_or,
}
use coreline_auth_module.Host.{Host}
use coreline_auth_module.Models.{AuthCredential, end}
use coreline_auth_module.Storage.{Storage, upsert_credential}
use coreline_auth_module.World.Frames.{Frame, bind-Frame, still-Frame, when-Frame}
use coreline_auth_module.Service.Config.{Service}
use coreline_auth_module.Service.Support.Frames.{users_of, require_user-Frame, audit-Frame}
use coreline_auth_module.Service.Sessions.Frames.{revoke_all-Frame}
use coreline_auth_module.Service.Accounts.{
  save_password, set_password, new_credential, revoked_count,
}

upsert_credential-users :
    (c : AuthCredential) (s : Storage) → (upsert_credential c s).users ≡ s.users
unfolding upsert_credential
upsert_credential-users c s = elim (Bool-cases (has_text c.password_hash && is_none c.revoked_at)) [
  | inl h ↦ rw h refl
  | inr h ↦ rw h refl
]

module _ (host : Host) (svc : Service) where
  pub new_credential-Frame :
      {C : Type 0} {view : Storage → C} (user_id password : String)
      (existing : Option AuthCredential)
      → Frame view (new_credential host svc user_id password existing)
  unfolding new_credential
  new_credential-Frame user_id password none = bind-Frame (still-Frame (λ w. refl)) (λ uuid.
      bind-Frame (still-Frame (λ w. refl)) (λ salt. bind-Frame (still-Frame (λ w. refl)) (λ hash.
        bind-Frame (still-Frame (λ w. refl)) (λ created_at.
          bind-Frame (still-Frame (λ w. refl)) (λ updated_at. still-Frame (λ w. refl))))))
  new_credential-Frame user_id password (some existing) =
      bind-Frame (still-Frame (λ w. refl)) (λ salt.
        bind-Frame (still-Frame (λ w. refl))
          (λ hash. bind-Frame (still-Frame (λ w. refl)) (λ updated_at. still-Frame (λ w. refl))))

  save_password-Frame :
      (user_id password : String) → Frame users_of (save_password host svc user_id password)
  unfolding save_password
  save_password-Frame user_id password = bind-Frame (require_user-Frame host svc user_id) (λ user.
      bind-Frame (still-Frame (λ w. refl)) (λ existing.
        bind-Frame (new_credential-Frame user.id password existing) (λ credential.
          bind-Frame (still-Frame (λ w. upsert_credential-users credential w.storage))
            (λ _. bind-Frame (audit-Frame host svc _ _ _ end) (λ _. still-Frame (λ w. refl))))))

  pub set_password-Frame :
      (user_id password : String) (revoke_sessions : Option Bool) (except : Option String)
      → Frame users_of (set_password host svc user_id password revoke_sessions except)
  unfolding set_password
  set_password-Frame user_id password revoke_sessions except =
      bind-Frame (save_password-Frame user_id password) (λ pair.
        bind-Frame
          (when-Frame (get_or revoke_sessions svc.config.revoke_sessions_on_password_change) (
            bind-Frame (revoke_all-Frame host svc pair.0.id except)
              (λ revoked. audit-Frame host svc _ _ _ (revoked_count revoked))))
          (λ _. still-Frame (λ w. refl)))
