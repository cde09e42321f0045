-- ===== src/Service/Login.antt =====
-- service.py: logging in with a password or through a provider.
pub mod Handing
pub mod Passwords
mod Tests
use Prim.Native.String
use coreline_auth_module.Common.{
  String, Bool, not, ◌&&◌, Option, none, some, has_text, get_or, if◌then◌else◌,
}
use coreline_auth_module.Errors.{authentication_failed}
use coreline_auth_module.Host.{Host}
use coreline_auth_module.Models.{
  AuthUser, AuthCredential, AuthIdentity, RequestContext, IssuedSession, Role, Fields, field, end,
  text, is_active, is_single_owner,
}
use coreline_auth_module.Security.{hash_secret, verify_password}
use coreline_auth_module.Storage.{
  get_user_by_email, get_password_credential, get_identity, upsert_identity,
}
use coreline_auth_module.World.{Action, ◌>>=◌, ◌>>◌}
use coreline_auth_module.World.Actions.{pure, fail, query, write, when, now_utc, draw_uuid}
use coreline_auth_module.Service.Config.{Service}
use coreline_auth_module.Service.Support.{
  check_rate_limit, record_login, require_user, enforce_profile_login, normalize_email, audit,
}
use coreline_auth_module.Service.Accounts.{prefixed, create_user}
use coreline_auth_module.Service.Sessions.{issue_session}
use coreline_auth_module.Service.SocialState.{consume_social_login_state}

-- `SocialProfile` of social/models.py.
pub record SocialProfile : Type 0 where
  pub provider : String
  pub provider_subject : String
  pub email : Option String
  pub email_verified : Bool
  pub display_name : Option String
  pub avatar_url : Option String

-- `{"reason": reason}`
abbrev pub reason_of : String → Fields
reason_of reason = field "reason" (text reason) end

module _ (host : Host) (svc : Service) where
  -- A failed login is recorded, and raises. The check of a dummy password in its place changes
  -- nothing but the time taken.
  unfoldable pub reject_login {ℓ} : {A : Type ℓ} → Option String → String → Action A
  unfolding audit
  reject_login target reason = do
    audit host svc "auth.login.failed" none target (reason_of reason)
    fail (authentication_failed "invalid email or password")

  unfoldable pub require_active : Option AuthUser → Action AuthUser
  unfolding reject_login
  require_active none = reject_login none "user_not_found_or_inactive"
  require_active (some user) =
      if is_active user.status then pure user else reject_login none "user_not_found_or_inactive"

  -- The hash of a credential, if it has one.
  abbrev pub hash_of : Option AuthCredential → Option String
  hash_of none = none
  hash_of (some credential) = credential.password_hash

  unfoldable pub check_password : AuthUser → String → Option String → Action (Unit {0})
  unfolding reject_login verify_password
  check_password user password hash =
      if has_text hash
      then (if verify_password host (get_or hash "") password
          then pure tt
          else reject_login (some user.id) "bad_password")
      else reject_login (some user.id) "missing_password_credential"

  unfoldable pub login_password : String → String → Option RequestContext → Action IssuedSession
  unfolding normalize_email check_rate_limit hash_secret get_user_by_email require_active
      enforce_profile_login get_password_credential check_password issue_session record_login audit
  login_password email password context = do
    normalized_email ← normalize_email host svc email
    check_rate_limit host svc (String.◌++◌ "login:" (hash_secret host normalized_email))
        svc.config.login_limit_per_minute
    found ← query (get_user_by_email normalized_email)
    user ← require_active found
    enforce_profile_login host svc user
    credential ← query (get_password_credential user.id)
    check_password user password (hash_of credential)
    issued ← issue_session host svc user (some "email") context
    record_login host svc user
    audit host svc "auth.login.password" none (some user.id) end
    pure issued

  -- An account that exists is linked only by a verified e-mail, if the configuration says so.
  refuse_unverified : SocialProfile → Option AuthUser → Action (Unit {0})
  unfolding audit
  refuse_unverified profile none = pure tt
  refuse_unverified profile (some existing) =
      when (svc.config.social_email_linking_requires_verified && not profile.email_verified) (do
        audit host svc "auth.social.link_rejected" none (some existing.id)
            (field "provider" (text profile.provider) (reason_of "unverified_email"))
        fail (authentication_failed "provider email is not verified"))

  -- `if existing is None: existing = self.create_user(…)`
  account_for : SocialProfile → String → Option AuthUser → Action AuthUser
  unfolding create_user
  account_for profile email (some existing) = pure existing
  account_for profile email none =
      create_user host svc email
        (if is_single_owner svc.config.profile then Role.owner else Role.user) none
        profile.email_verified profile.display_name

  -- The branch of `login_social` for an identity that is not linked yet.
  link_identity : SocialProfile → Action AuthUser
  unfolding get_user_by_email refuse_unverified account_for upsert_identity
  link_identity profile =
      if has_text profile.email
      then (do
        let email = get_or profile.email ""
        found ← query (get_user_by_email email)
        refuse_unverified profile found
        existing ← account_for profile email found
        uuid ← draw_uuid host
        linked_at ← now_utc host
        write (
            upsert_identity (record {
              id = prefixed "idn_" uuid;
              user_id = existing.id;
              provider = profile.provider;
              provider_subject = some profile.provider_subject;
              email = profile.email;
              email_verified = profile.email_verified;
              linked_at = linked_at;
              last_seen_at = none;
            }))
        pure existing)
      else fail (authentication_failed "provider did not return an email")

  user_of_identity : SocialProfile → Option AuthIdentity → Action AuthUser
  unfolding require_user link_identity
  user_of_identity profile (some identity) = require_user host svc identity.user_id
  user_of_identity profile none = link_identity profile

  -- `if state is not None: self.consume_social_login_state(…)`
  consume_state : SocialProfile → Option String → Option String → Action (Unit {0})
  unfolding consume_social_login_state
  consume_state profile none given = pure tt
  consume_state profile (some state) given =
      consume_social_login_state host svc profile.provider state given >> pure tt

  unfoldable pub login_social :
      SocialProfile → Option String → Option String → Option RequestContext → Action IssuedSession
  unfolding consume_state get_identity user_of_identity enforce_profile_login issue_session
      record_login audit
  login_social profile state nonce context = do
    consume_state profile state nonce
    identity ← query (get_identity profile.provider profile.provider_subject)
    user ← user_of_identity profile identity
    enforce_profile_login host svc user
    issued ← issue_session host svc user (some profile.provider) context
    record_login host svc user
    audit host svc "auth.login.social" none (some user.id)
        (field "provider" (text profile.provider) end)
    pure issued
