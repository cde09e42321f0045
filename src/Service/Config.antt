-- ===== src/Service/Config.antt =====
-- service.py: the configuration and the constructor.
use coreline_auth_module.Common.{
  ℕ, String, Bool, true, false, not, ◌&&◌, Option, none, some, eqb, has_text,
}
use coreline_auth_module.Errors.{Result, ok, raise_if, ◌>>◌, configuration}
use coreline_auth_module.Models.{AuthProfile, is_single_owner}
use coreline_auth_module.Permissions.{PolicyEngine}

-- Times are in seconds. Intervals are numbers from 0 on, so that the check for a negative
-- `session_touch_interval_seconds` never fires.
pub record CorelineAuthConfig : Type 0 where
  pub issuer : String
  pub profile : AuthProfile
  pub owner_email : Option String
  pub require_email_verified : Bool
  pub session_ttl_seconds : ℕ
  pub session_idle_ttl_seconds : Option ℕ
  pub session_touch_interval_seconds : ℕ
  pub login_flow_ttl_seconds : ℕ
  pub login_limit_per_minute : ℕ
  pub magic_link_limit_per_minute : ℕ
  pub mfa_verify_limit_per_minute : ℕ
  pub allow_insecure_mfa_vault : Bool
  pub social_email_linking_requires_verified : Bool
  pub revoke_sessions_on_password_change : Bool

-- The defaults.
abbrev pub default_config : CorelineAuthConfig
default_config = record {
  issuer = "coreline-auth";
  profile = AuthProfile.single_owner;
  owner_email = none;
  require_email_verified = true;
  session_ttl_seconds = 604800;
  session_idle_ttl_seconds = some 43200;
  session_touch_interval_seconds = 60;
  login_flow_ttl_seconds = 600;
  login_limit_per_minute = 10;
  magic_link_limit_per_minute = 5;
  mfa_verify_limit_per_minute = 5;
  allow_insecure_mfa_vault = false;
  social_email_linking_requires_verified = true;
  revoke_sessions_on_password_change = true;
}

unfoldable pub validate : CorelineAuthConfig → Result (Unit {0})
validate c = do
  raise_if (is_single_owner c.profile && not (has_text c.owner_email))
      (configuration "single_owner profile requires owner_email")
  raise_if (eqb c.session_ttl_seconds 0) (configuration "session_ttl_seconds must be positive")
  raise_if (eqb c.login_flow_ttl_seconds 0)
      (configuration "login_flow_ttl_seconds must be positive")
  raise_if (eqb c.mfa_verify_limit_per_minute 0)
      (configuration "mfa_verify_limit_per_minute must be positive")
  ok tt

-- What the constructor fixes: the configuration, whether there are an e-mail sender and a metric
-- sink, and whether the vault is the in-memory one.
pub record Service : Type 0 where
  pub config : CorelineAuthConfig
  pub has_email_sender : Bool
  pub has_metric_sink : Bool
  pub mfa_vault_is_insecure : Bool

-- `self.policy`
unfoldable pub policy : Service → PolicyEngine
policy svc = record { profile = svc.config.profile; owner_email = svc.config.owner_email }
