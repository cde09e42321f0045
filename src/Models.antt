-- ===== src/Models.antt =====
-- src/coreline_auth/models.py: the data of the module. A time is a number of seconds since the
-- epoch, as `now_utc` cuts it; a text is a `String`; a field with `| None` is an `Option`.
use coreline_auth_module.Common.{ℕ, String, Bool, true, false, Option, List}
use coreline_auth_module.Common.Dict.{Dict}

pub data UserStatus : Type 0 where
  active disabled banned : UserStatus

pub data CredentialType : Type 0 where
  password : CredentialType

pub data FlowType : Type 0 where
  magic_link email_verification password_reset oauth : FlowType

pub data AuthAssuranceLevel : Type 0 where
  aal1 aal2 : AuthAssuranceLevel

pub data MfaFactorType : Type 0 where
  totp passkey : MfaFactorType

pub data AuthProfile : Type 0 where
  single_owner admin_viewer rbac : AuthProfile

pub data Role : Type 0 where
  owner admin viewer user : Role

-- The comparisons `==` of the enumerations.
abbrev pub eq_status : UserStatus → UserStatus → Bool
eq_status active active = true
eq_status disabled disabled = true
eq_status banned banned = true
eq_status _ _ = false

abbrev pub eq_flow : FlowType → FlowType → Bool
eq_flow magic_link magic_link = true
eq_flow email_verification email_verification = true
eq_flow password_reset password_reset = true
eq_flow oauth oauth = true
eq_flow _ _ = false

abbrev pub eq_role : Role → Role → Bool
eq_role owner owner = true
eq_role admin admin = true
eq_role viewer viewer = true
eq_role user user = true
eq_role _ _ = false

abbrev pub is_active : UserStatus → Bool
is_active active = true
is_active _ = false

abbrev pub is_aal2 : AuthAssuranceLevel → Bool
is_aal2 aal2 = true
is_aal2 aal1 = false

abbrev pub is_totp : MfaFactorType → Bool
is_totp totp = true
is_totp passkey = false

abbrev pub is_single_owner : AuthProfile → Bool
is_single_owner single_owner = true
is_single_owner _ = false

-- The values of the enumerations, as they stand in the audit log.
abbrev pub role_value : Role → String
role_value owner = "owner"
role_value admin = "admin"
role_value viewer = "viewer"
role_value user = "user"

abbrev pub status_value : UserStatus → String
status_value active = "active"
status_value disabled = "disabled"
status_value banned = "banned"

pub record AuthUser : Type 0 where
  pub id : String
  pub primary_email : String
  pub primary_email_verified : Bool
  pub role : Role
  pub display_name : Option String
  pub avatar_url : Option String
  pub status : UserStatus
  pub created_at : ℕ
  pub updated_at : ℕ
  pub last_login_at : Option ℕ

pub record AuthIdentity : Type 0 where
  pub id : String
  pub user_id : String
  pub provider : String
  pub provider_subject : Option String
  pub email : Option String
  pub email_verified : Bool
  pub linked_at : ℕ
  pub last_seen_at : Option ℕ

pub record AuthCredential : Type 0 where
  pub id : String
  pub user_id : String
  pub credential_type : CredentialType
  pub password_hash : Option String
  pub created_at : ℕ
  pub updated_at : ℕ
  pub revoked_at : Option ℕ

-- `metadata` holds texts only: the module stores nothing else in a flow.
pub record LoginFlow : Type 0 where
  pub id : String
  pub flow_type : FlowType
  pub provider : Option String
  pub state_hash : Option String
  pub nonce_hash : Option String
  pub email : Option String
  pub return_to : String
  pub created_at : ℕ
  pub expires_at : ℕ
  pub consumed_at : Option ℕ
  pub metadata : Dict String

pub record AuthSession : Type 0 where
  pub id : String
  pub session_token_hash : String
  pub user_id : String
  pub subject : Option String
  pub email : Option String
  pub provider : Option String
  pub role : Role
  pub permissions : List String
  pub assurance_level : AuthAssuranceLevel
  pub created_at : ℕ
  pub expires_at : ℕ
  pub idle_expires_at : Option ℕ
  pub revoked_at : Option ℕ
  pub last_seen_at : Option ℕ
  pub user_agent_hash : Option String
  pub ip_hash : Option String

pub record AuthMfaFactor : Type 0 where
  pub id : String
  pub user_id : String
  pub factor_type : MfaFactorType
  pub name : String
  pub secret_hash : Option String
  pub credential_id : Option String
  pub public_key : Option String
  pub sign_count : ℕ
  pub enabled : Bool
  pub created_at : ℕ
  pub last_used_at : Option ℕ
  pub last_used_counter : Option ℕ

pub record AuthRecoveryCode : Type 0 where
  pub id : String
  pub user_id : String
  pub code_hash : String
  pub created_at : ℕ
  pub used_at : Option ℕ

-- The values that audit metadata can hold; `other` is any value that redaction passes on as it is.
mutual
  pub data Value : Type 0 where
    text : String → Value
    number : ℕ → Value
    flag : Bool → Value
    other : Value
    items : Values → Value
    mapping : Fields → Value

  pub data Values : Type 0 where
    nil : Values
    cons : Value → Values → Values

  pub data Fields : Type 0 where
    end : Fields
    field : String → Value → Fields → Fields

pub record AuditEvent : Type 0 where
  pub action : String
  pub actor_user_id : Option String
  pub target_user_id : Option String
  pub metadata : Fields
  pub created_at : ℕ

pub record RequestContext : Type 0 where
  pub ip : Option String
  pub user_agent : Option String

pub record IssuedSession : Type 0 where
  pub token : String
  pub session : AuthSession

pub record MagicLinkChallenge : Type 0 where
  pub token : String
  pub flow : LoginFlow

pub record Principal : Type 0 where
  pub user : AuthUser
  pub session : AuthSession
