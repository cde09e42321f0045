-- ===== src/Admin/Calls.antt =====
-- admin.py: the calls of administrators as data, and what sequences of them keep.
use coreline_auth_module.Common.{refl, false, String, Option, some, none, List, [], ◌∷◌}
use coreline_auth_module.Host.{Host}
use coreline_auth_module.Models.{UserStatus, Role, end}
use coreline_auth_module.World.{World}
use coreline_auth_module.World.Outcomes.{Ensures}
use coreline_auth_module.World.Frames.{bind-Frame, still-Frame, when-Frame}
use coreline_auth_module.Service.{Service}
use coreline_auth_module.Service.Accounts.{revoked_count}
use coreline_auth_module.Service.Accounts.Frames.{set_password-Frame}
use coreline_auth_module.Service.Sessions.Frames.{revoke_all-Frame, revoke_session-Frame}
use coreline_auth_module.Service.Support.Frames.{audit-Frame, require_user-Frame}
use coreline_auth_module.Admin
use coreline_auth_module.Admin.{
  Filter, update_user_role, ban_user, unban_user, disable_user, enable_user, set_user_password,
}
use coreline_auth_module.Admin.Privileged.{IsAdministered}
use coreline_auth_module.Admin.Operations.{
  Adm, always, verified, framed, ban-Ensures, unban-Ensures, disable-Ensures, enable-Ensures,
  role-Ensures,
}

pub data AdminCall : Type 0 where
  list_users :
      (search : Option String) (status : Filter UserStatus) (role : Filter Role) → AdminCall
  update_role : (user_id : String) (role : Role) → AdminCall
  ban unban disable enable : (user_id : String) (reason : Option String) → AdminCall
  set_password : (user_id password : String) → AdminCall
  list_sessions revoke : (id : String) → AdminCall

-- The world that a call with the actor's token leaves, whether it returns or raises.
unfoldable pub perform : Host → Service → String → AdminCall → World → World
unfolding Admin.list_users update_user_role ban_user unban_user disable_user enable_user
    set_user_password Admin.list_sessions_for_user Admin.revoke_session
perform host svc token (AdminCall.list_users search status role) w =
    (Admin.list_users host svc token search status role w).1
perform host svc token (AdminCall.update_role user_id role) w =
    (update_user_role host svc token user_id role w).1
perform host svc token (AdminCall.ban user_id reason) w =
    (ban_user host svc token user_id reason w).1
perform host svc token (AdminCall.unban user_id reason) w =
    (unban_user host svc token user_id reason w).1
perform host svc token (AdminCall.disable user_id reason) w =
    (disable_user host svc token user_id reason w).1
perform host svc token (AdminCall.enable user_id reason) w =
    (enable_user host svc token user_id reason w).1
perform host svc token (AdminCall.set_password user_id password) w =
    (set_user_password host svc token user_id password w).1
perform host svc token (AdminCall.list_sessions user_id) w =
    (Admin.list_sessions_for_user host svc token user_id w).1
perform host svc token (AdminCall.revoke session_id) w =
    (Admin.revoke_session host svc token session_id w).1

-- Calls of several actors, one after the other.
unfoldable pub perform_all : Host → Service → List (String × AdminCall) → World → World
unfolding perform
perform_all host svc [] w = w
perform_all host svc ((token, c) ∷ calls) w =
    perform_all host svc calls (perform host svc token c w)

module _ (host : Host) (svc : Service) where
  list_users-Ensures :
      (token : String) (search : Option String) (status : Filter UserStatus) (role : Filter Role)
      → Ensures Adm (Admin.list_users host svc token search status role) (λ _. Adm) Adm
  unfolding Admin.list_users
  list_users-Ensures token search status role =
      verified host svc token (some "users:read") (λ actor. framed host svc (
        bind-Frame (still-Frame (λ w. refl)) (λ status_filter.
          bind-Frame (still-Frame (λ w. refl)) (λ role_filter. still-Frame (λ w. refl)))))

  password-Ensures :
      (token user_id password : String)
      → Ensures Adm (set_user_password host svc token user_id password) (λ _. Adm) Adm
  unfolding set_user_password
  password-Ensures token user_id password = verified host svc token (some "users:write") (λ actor.
      framed host svc (
        bind-Frame (set_password-Frame host svc user_id password (some false) none) (λ credential.
          bind-Frame
            (when-Frame svc.config.revoke_sessions_on_password_change (
              bind-Frame (revoke_all-Frame host svc user_id none)
                (λ revoked. audit-Frame host svc _ _ _ (revoked_count revoked))))
            (λ _. bind-Frame (audit-Frame host svc _ _ _ end) (λ _. still-Frame (λ w. refl))))))

  sessions-Ensures :
      (token user_id : String)
      → Ensures Adm (Admin.list_sessions_for_user host svc token user_id) (λ _. Adm) Adm
  unfolding Admin.list_sessions_for_user
  sessions-Ensures token user_id = verified host svc token (some "users:read") (λ actor.
      framed host svc
        (bind-Frame (require_user-Frame host svc user_id) (λ user. still-Frame (λ w. refl))))

  revoke-Ensures :
      (token session_id : String)
      → Ensures Adm (Admin.revoke_session host svc token session_id) (λ _. Adm) Adm
  unfolding Admin.revoke_session
  revoke-Ensures token session_id =
      verified host svc token (some "sessions:revoke")
        (λ actor. framed host svc (revoke_session-Frame host svc session_id (some actor.user.id)))

  perform-IsAdministered :
      (token : String) (c : AdminCall) (w : World)
      → IsAdministered w.storage.users
      → IsAdministered (perform host svc token c w).storage.users
  unfolding perform
  perform-IsAdministered token (AdminCall.list_users search status role) w v =
      always Adm _ _ ((list_users-Ensures token search status role).run w v)
  perform-IsAdministered token (AdminCall.update_role user_id role) w v =
      always Adm _ _ ((role-Ensures host svc token user_id role).run w v)
  perform-IsAdministered token (AdminCall.ban user_id reason) w v =
      always Adm _ _ ((ban-Ensures host svc token user_id reason).run w v)
  perform-IsAdministered token (AdminCall.unban user_id reason) w v =
      always Adm _ _ ((unban-Ensures host svc token user_id reason).run w v)
  perform-IsAdministered token (AdminCall.disable user_id reason) w v =
      always Adm _ _ ((disable-Ensures host svc token user_id reason).run w v)
  perform-IsAdministered token (AdminCall.enable user_id reason) w v =
      always Adm _ _ ((enable-Ensures host svc token user_id reason).run w v)
  perform-IsAdministered token (AdminCall.set_password user_id password) w v =
      always Adm _ _ ((password-Ensures token user_id password).run w v)
  perform-IsAdministered token (AdminCall.list_sessions user_id) w v =
      always Adm _ _ ((sessions-Ensures token user_id).run w v)
  perform-IsAdministered token (AdminCall.revoke session_id) w v =
      always Adm _ _ ((revoke-Ensures token session_id).run w v)

-- No sequence of administrators' calls, whoever makes them and whether they return or raise, takes
-- away the last active owner or admin, where each user stands in the table under its own id.
pub perform_all-IsAdministered :
    (host : Host) (svc : Service) (calls : List (String × AdminCall)) (w : World)
    → IsAdministered w.storage.users
    → IsAdministered (perform_all host svc calls w).storage.users
unfolding perform_all
perform_all-IsAdministered host svc [] w v = v
perform_all-IsAdministered host svc ((token, c) ∷ calls) w v =
    perform_all-IsAdministered host svc calls (perform host svc token c w)
      (perform-IsAdministered host svc token c w v)
