-- ===== src/Service/StepUp/Evidences.antt =====
-- service.py: what a caller presents for the level AAL2, and what it has to be.
use coreline_auth_module.Common.{◌≡◌, sym, ap, ◌∙◌, String, true, none, List}
use coreline_auth_module.Common.Dict
use coreline_auth_module.Errors.{ok}
use coreline_auth_module.Host.{Host}
use coreline_auth_module.Models.{AuthMfaFactor, AuthRecoveryCode, Principal}
use coreline_auth_module.Storage.{Storage, list_mfa_factors, list_recovery_codes}
use coreline_auth_module.Storage.Factors.Once.{is_spent_code}
use coreline_auth_module.World.{World, Action}
use coreline_auth_module.Service.Config.{Service}
use coreline_auth_module.Service.Sessions.{verify_session}
use coreline_auth_module.Service.Factors.Verification.{IsAccepted}
use coreline_auth_module.Service.StepUp.{step_up_totp, step_up_recovery_code, require_aal2}
use coreline_auth_module.Service.StepUp.Recovery.{IsSavedOf}

-- What a caller presents beside the session token.
pub data Evidence : Type 0 where
  totp_code recovery_code : String → Evidence
  nothing_new : Evidence

-- The operation for it.
unfoldable pub reach_aal2 : Host → Service → String → Evidence → Action Principal
unfolding step_up_totp step_up_recovery_code require_aal2
reach_aal2 host svc token (Evidence.totp_code code) = step_up_totp host svc token code
reach_aal2 host svc token (Evidence.recovery_code code) = step_up_recovery_code host svc token code
reach_aal2 host svc token Evidence.nothing_new = require_aal2 host svc token

-- The storage had an unused recovery code of the user with the hash of the code, and has it as used.
pub record IsSpent (host : Host) (user_id code : String) (s : Storage) (w : World) : Type 0 where
  pub saved : AuthRecoveryCode
  pub known : IsSavedOf host (list_recovery_codes user_id s) code saved
  pub spent : is_spent_code (Dict.get saved.id w.storage.recovery_codes) ≡ true

-- What the evidence has to be, from the world `w` on to the world `w'`: a code that an enabled TOTP
-- factor of the user takes for a counter above the last one used, which is stored as used; a
-- recovery code of the user that was not used, and is now; or else the session itself.
unfoldable pub IsShown : Host → Service → String → Principal → World → World → Evidence → Type 0
IsShown host svc token p w w' (Evidence.totp_code code) =
    (factor : AuthMfaFactor) × IsAccepted host (list_mfa_factors p.user.id w.storage) code factor w'
IsShown host svc token p w w' (Evidence.recovery_code code) =
    IsSpent host p.user.id code w.storage w'
IsShown host svc token p w w' Evidence.nothing_new =
    verify_session host svc token none w ≡ (ok p, w')

-- An accepted code depends on the table of factors alone.
pub IsAccepted-moved :
    (host : Host) (all : List AuthMfaFactor) (code : String) (u : AuthMfaFactor) (w w' : World)
    → w.storage.mfa_factors ≡ w'.storage.mfa_factors
    → IsAccepted host all code u w
    → IsAccepted host all code u w'
IsAccepted-moved host all code u w w' e a = record {
  factor = a.factor;
  counter = a.counter;
  listed = a.listed;
  totp = a.totp;
  enabled = a.enabled;
  code_of = a.code_of;
  fresh = a.fresh;
  stored = ap (Dict.get a.factor.id) (sym e) ∙ a.stored;
  used = a.used;
}
