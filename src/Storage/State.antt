-- ===== src/Storage/State.antt =====
-- memory.py: the fields of `MemoryAuthStorage`.
use coreline_auth_module.Common.{String, Option, none, some, List, [], is_text, if◌then◌else◌}
use coreline_auth_module.Common.Dict
use coreline_auth_module.Common.Dict.{Dict}
use coreline_auth_module.Models.{
  AuthUser, AuthIdentity, AuthCredential, LoginFlow, AuthSession, AuditEvent, AuthMfaFactor,
  AuthRecoveryCode,
}

pub record Storage : Type 0 where
  pub users : Dict AuthUser
  pub users_by_email : Dict String
  pub identities : Dict AuthIdentity
  pub credentials : Dict AuthCredential
  pub password_credentials_by_user : Dict String
  pub login_flows : Dict LoginFlow
  pub login_flows_by_state_hash : Dict String
  pub sessions : Dict AuthSession
  pub sessions_by_token_hash : Dict String
  pub audit_events : List AuditEvent
  pub mfa_factors : Dict AuthMfaFactor
  pub recovery_codes : Dict AuthRecoveryCode

abbrev pub empty : Storage
empty = record {
  users = [];
  users_by_email = [];
  identities = [];
  credentials = [];
  password_credentials_by_user = [];
  login_flows = [];
  login_flows_by_state_hash = [];
  sessions = [];
  sessions_by_token_hash = [];
  audit_events = [];
  mfa_factors = [];
  recovery_codes = [];
}

-- `self.table.get(id) if id else None`, for an `id` that an index gave.
abbrev pub resolve {ℓ} : {V : Type ℓ} → Option String → Dict V → Option V
resolve none table = none
resolve (some id) table = if is_text id then Dict.get id table else none
