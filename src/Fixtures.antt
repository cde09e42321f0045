-- ===== src/Fixtures.antt =====
-- Concrete values for the tests: a host, a configuration and records with short fields.
use Prim.Native.String
use coreline_auth_module.Common.{ℕ, zero, suc, ◌+◌, String, true, false, none, some, [], ◌==◌}
use coreline_auth_module.Host.{Host}
use coreline_auth_module.Models.{
  AuthUser, AuthSession, LoginFlow, AuthMfaFactor, AuthRecoveryCode, Role, UserStatus, FlowType,
  MfaFactorType, AuthAssuranceLevel, AuthProfile,
}
use coreline_auth_module.Storage.{Storage}
use coreline_auth_module.World.{World}
use coreline_auth_module.Service.Config.{Service, CorelineAuthConfig, default_config}

-- A text for each number.
abbrev numbered : ℕ → String
numbered zero = "0"
numbered (suc n) = String.◌++◌ "1" (numbered n)

-- A host with a readable hash.
abbrev pub test_host : Host
test_host = record {
  sha256_hex = λ s. String.◌++◌ "#" s;
  argon2_hash = λ salt p. String.◌++◌ "$" p;
  argon2_verify = λ h p. h == String.◌++◌ "$" p;
  validate_email = λ s. some s;
  url_scheme = λ s. "";
  url_netloc = λ s. "";
  token = λ n. String.◌++◌ "t" (numbered n);
  uuid = λ n. numbered n;
  totp_secret = λ n. String.◌++◌ "S" (numbered n);
  clock = λ n. 1000 + n;
  unix_time = λ n. 1000 + n;
  monotonic = λ n. 1000 + n;
  delivers = λ n. true;
  hmac_sha1 = λ s n. [];
  hmac_sha256 = λ k m. String.◌++◌ k m;
}

abbrev pub team_config : CorelineAuthConfig
team_config = record default_config { profile = AuthProfile.rbac }

abbrev pub test_service : Service
test_service = record {
  config = team_config;
  has_email_sender = true;
  has_metric_sink = true;
  mfa_vault_is_insecure = false;
}

abbrev pub user_of : String → String → Role → AuthUser
user_of id email role = record {
  id = id;
  primary_email = email;
  primary_email_verified = true;
  role = role;
  display_name = none;
  avatar_url = none;
  status = UserStatus.active;
  created_at = 1;
  updated_at = 1;
  last_login_at = none;
}

abbrev pub session_of : String → String → String → AuthSession
session_of id token user_id = record {
  id = id;
  session_token_hash = String.◌++◌ "#" token;
  user_id = user_id;
  subject = some user_id;
  email = none;
  provider = none;
  role = Role.admin;
  permissions = [];
  assurance_level = AuthAssuranceLevel.aal1;
  created_at = 1;
  expires_at = 5000;
  idle_expires_at = none;
  revoked_at = none;
  last_seen_at = some 999;
  user_agent_hash = none;
  ip_hash = none;
}

abbrev pub flow_of : String → String → LoginFlow
flow_of id state_hash = record {
  id = id;
  flow_type = FlowType.magic_link;
  provider = some "email";
  state_hash = some state_hash;
  nonce_hash = none;
  email = some "a@x.org";
  return_to = "/";
  created_at = 1;
  expires_at = 5000;
  consumed_at = none;
  metadata = [];
}

abbrev pub factor_of : String → String → AuthMfaFactor
factor_of id user_id = record {
  id = id;
  user_id = user_id;
  factor_type = MfaFactorType.totp;
  name = "Phone";
  secret_hash = some "#S0";
  credential_id = none;
  public_key = none;
  sign_count = 0;
  enabled = true;
  created_at = 1;
  last_used_at = none;
  last_used_counter = none;
}

abbrev pub code_of : String → String → AuthRecoveryCode
code_of id user_id = record {
  id = id;
  user_id = user_id;
  code_hash = "#code";
  created_at = 1;
  used_at = none;
}

-- A world with a storage, before anything was read or drawn.
abbrev pub world_of : Storage → World
world_of s = record {
  storage = s;
  limiter = record { buckets = []; max_buckets = 10000 };
  secrets = [];
  outbox = [];
  metrics = [];
  clock_reads = 0;
  unix_reads = 0;
  monotonic_reads = 0;
  tokens_drawn = 0;
  uuids_drawn = 0;
  salts_drawn = 0;
  totp_secrets_drawn = 0;
}
