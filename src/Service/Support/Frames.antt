-- ===== src/Service/Support/Frames.antt =====
-- service_support.py: the table of users under the shared helpers that leave it as it is.
use coreline_auth_module.Common.{refl, String, Option, some, ◌≡◌, ◌∙◌}
use coreline_auth_module.Common.Dict
use coreline_auth_module.Common.Dict.{Dict}
use coreline_auth_module.Host.{Host}
use coreline_auth_module.Models.{AuthUser, AuditEvent, Fields}
use coreline_auth_module.Storage.{Storage, get_user, record_audit_event}
use coreline_auth_module.World.Outcomes.{Ensures, bind-Ensures, require-Ensures}
use coreline_auth_module.World.Frames.{Frame, bind-Frame, still-Frame, require-Frame}
use coreline_auth_module.Service.Config.{Service}
use coreline_auth_module.Service.Support.{require_user, audit}

abbrev pub users_of : Storage → Dict AuthUser
users_of s = s.users

module _ (host : Host) (svc : Service) where
  pub require_user-Frame :
      {C : Type 0} {view : Storage → C} (user_id : String)
      → Frame view (require_user host svc user_id)
  unfolding require_user
  require_user-Frame user_id = bind-Frame (still-Frame (λ w. refl)) (λ user. require-Frame user _)

  -- Each part that a new event leaves as it is.
  pub audit-keeps :
      {C : Type 0} (view : Storage → C)
      → ((event : AuditEvent) (s : Storage) → view (record_audit_event event s) ≡ view s)
      → (action : String) (actor target : Option String) (metadata : Fields)
      → Frame view (audit host svc action actor target metadata)
  unfolding audit
  audit-keeps view keeps action actor target metadata =
      bind-Frame (still-Frame (λ w. refl)) (λ now. still-Frame (λ w. keeps _ w.storage))

  pub audit-Frame :
      (action : String) (actor target : Option String) (metadata : Fields)
      → Frame users_of (audit host svc action actor target metadata)
  unfolding record_audit_event
  audit-Frame = audit-keeps users_of (λ event s. refl)

  -- The user that is found is the one in the table.
  pub require_user-Ensures :
      (P : Dict AuthUser → Type 0) (user_id : String)
      → Ensures
          (λ w. P w.storage.users)
          (require_user host svc user_id)
          (λ user w. P w.storage.users × (Dict.get user_id w.storage.users ≡ some user))
          (λ w. P w.storage.users)
  unfolding require_user get_user
  require_user-Ensures P user_id =
      bind-Ensures {R = λ user w. P w.storage.users × (Dict.get user_id w.storage.users ≡ user)}
        (record { run = λ w p. (p, refl) })
        (λ user. require-Ensures user _ (λ u e w p. (p.0, p.1 ∙ e)) (λ e w p. p.0))
