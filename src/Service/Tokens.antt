-- ===== src/Service/Tokens.antt =====
-- service.py: magic links and e-mail verification.
pub mod Opening
use Prim.Native.String
use coreline_auth_module.Common.{
  ℕ, ◌+◌, String, Bool, true, false, not, Option, none, some, [], ◌∷◌, has_text, get_or, ◌==◌,
  if◌then◌else◌,
}
use coreline_auth_module.Common.Dict
use coreline_auth_module.Common.Dict.{Dict}
use coreline_auth_module.Errors.{authentication_failed, validation}
use coreline_auth_module.Host.{Host}
use coreline_auth_module.Models.{
  AuthUser, AuthIdentity, LoginFlow, FlowType, MagicLinkChallenge, RequestContext, IssuedSession,
  Role, Fields, field, end, text, is_active, is_single_owner,
}
use coreline_auth_module.Security.{hash_secret, validate_return_to}
use coreline_auth_module.Storage.{
  create_login_flow, consume_login_flow_by_state_hash, get_user, get_user_by_email, update_user,
  get_identity, upsert_identity,
}
use coreline_auth_module.Storage.{Storage}
use coreline_auth_module.World.{Action, ◌>>=◌, ◌>>◌}
use coreline_auth_module.World.Actions.{
  pure, fail, lift, query, change, write, try_write, fail_if, require, when, now_utc,
  generate_token, draw_uuid,
}
use coreline_auth_module.Service.Config.{Service}
use coreline_auth_module.Service.Support.{
  check_rate_limit, record_login, require_user, enforce_profile_login, assert_owner_email,
  normalize_email, send_email_best_effort, metric, audit,
}
use coreline_auth_module.Service.Accounts.{prefixed, create_user}
use coreline_auth_module.Service.Sessions.{issue_session}

module _ (host : Host) (svc : Service) where
  -- `self.config.profile == AuthProfile.SINGLE_OWNER` guards the owner check.
  abbrev pub owner_only : String → Action (Unit {0})
  owner_only email = when (is_single_owner svc.config.profile) (assert_owner_email host svc email)

  -- The flow of an e-mailed token.
  unfoldable pub email_flow :
      FlowType → String → String → String → Dict String → ℕ → String → LoginFlow
  unfolding hash_secret
  email_flow flow_type email token return_to metadata now uuid = record {
    id = prefixed "flow_" uuid;
    flow_type = flow_type;
    provider = some "email";
    state_hash = some (hash_secret host token);
    nonce_hash = none;
    email = some email;
    return_to = return_to;
    created_at = now;
    expires_at = now + svc.config.login_flow_ttl_seconds;
    consumed_at = none;
    metadata = metadata;
  }

  -- `{"email_hash": hash_secret(email)}`
  abbrev pub email_hash_field : String → Fields → Fields
  email_hash_field email rest = field "email_hash" (text (hash_secret host email)) rest

  unfoldable pub request_magic_link : String → Option String → Action MagicLinkChallenge
  unfolding normalize_email validate_return_to assert_owner_email check_rate_limit hash_secret
      email_flow create_login_flow send_email_best_effort audit
  request_magic_link email return_to = do
    normalized_email ← normalize_email host svc email
    target ← lift (validate_return_to host return_to)
    owner_only normalized_email
    check_rate_limit host svc (String.◌++◌ "magic:" (hash_secret host normalized_email))
        svc.config.magic_link_limit_per_minute
    token ← generate_token host
    now ← now_utc host
    uuid ← draw_uuid host
    let flow = email_flow FlowType.magic_link normalized_email token target [] now uuid
    try_write (create_login_flow flow)
    send_email_best_effort host svc "magic_link" normalized_email token
    audit host svc "auth.magic_link.request" none none (email_hash_field normalized_email end)
    pure (record { token = token; flow = flow })

  -- `storage.consume_login_flow_by_state_hash(hash_secret(token), …)` with the provider `email`.
  unfoldable pub consume_email_flow : String → FlowType → ℕ → Action (Option LoginFlow)
  unfolding hash_secret consume_login_flow_by_state_hash
  consume_email_flow token flow_type now =
      change
        (consume_login_flow_by_state_hash (hash_secret host token) flow_type (some "email") now)

  -- A failure is counted before it raises.
  unfoldable pub require_link : Option LoginFlow → Action LoginFlow
  unfolding metric
  require_link none = do
    metric host svc "auth.magic_link.consume_failed"
    fail (authentication_failed "invalid or expired magic link")
  require_link (some flow) = pure flow

  unfoldable pub user_or_new : String → Option AuthUser → Action AuthUser
  unfolding create_user
  user_or_new email (some user) = pure user
  user_or_new email none =
      create_user host svc email
        (if is_single_owner svc.config.profile then Role.owner else Role.user) none true none

  unfoldable pub consume_magic_link : String → Option RequestContext → Action IssuedSession
  unfolding consume_email_flow require_link get_user_by_email user_or_new enforce_profile_login
      issue_session record_login audit
  consume_magic_link token context = do
    now ← now_utc host
    found ← consume_email_flow token FlowType.magic_link now
    flow ← require_link found
    fail_if (not (has_text flow.email)) (authentication_failed "invalid magic link")
    let email = get_or flow.email ""
    known ← query (get_user_by_email email)
    user ← user_or_new email known
    enforce_profile_login host svc user
    issued ← issue_session host svc user (some "email") context
    record_login host svc user
    audit host svc "auth.magic_link.consume" none (some user.id) end
    pure issued

  -- The user of `request_email_verification`, by its id or by its e-mail.
  unfoldable pub user_by : Option String → Option String → Action (Option AuthUser)
  unfolding require_user normalize_email get_user_by_email
  user_by (some user_id) email = do user ← require_user host svc user_id; pure (some user)
  user_by none email = do
    normalized ← normalize_email host svc (get_or email "")
    query (get_user_by_email normalized)

  -- `(user_id is None) == (email is None)`
  abbrev pub not_exactly_one : Option String → Option String → Bool
  not_exactly_one none none = true
  not_exactly_one (some _) (some _) = true
  not_exactly_one _ _ = false

  unfoldable pub request_email_verification :
      Option String → Option String → Action MagicLinkChallenge
  unfolding user_by assert_owner_email check_rate_limit hash_secret email_flow create_login_flow
      send_email_best_effort audit
  request_email_verification user_id email = do
    fail_if (not_exactly_one user_id email) (validation "provide exactly one of user_id or email")
    found ← user_by user_id email
    user ← require found (authentication_failed "user not found")
    fail_if (not (is_active user.status)) (authentication_failed "user inactive")
    owner_only user.primary_email
    check_rate_limit host svc (String.◌++◌ "email_verify:" (hash_secret host user.primary_email))
        svc.config.magic_link_limit_per_minute
    token ← generate_token host
    now ← now_utc host
    uuid ← draw_uuid host
    let flow =
        email_flow FlowType.email_verification user.primary_email token "/"
          (("user_id", user.id) ∷ []) now uuid
    try_write (create_login_flow flow)
    send_email_best_effort host svc "email_verification" user.primary_email token
    audit host svc "auth.email_verification.request" none (some user.id)
        (email_hash_field user.primary_email end)
    pure (record { token = token; flow = flow })

  user_by_id : Option String → Storage → Option AuthUser
  unfolding get_user
  user_by_id none s = none
  user_by_id (some id) s = get_user id s

  -- `if user is None and flow.email: user = self.storage.get_user_by_email(flow.email)`
  or_by_email : Option String → Option AuthUser → Storage → Option AuthUser
  unfolding get_user_by_email
  or_by_email email (some user) s = some user
  or_by_email email none s = if has_text email then get_user_by_email (get_or email "") s else none

  -- The user that a flow names by its metadata, or by its e-mail.
  unfoldable pub flow_user : LoginFlow → Storage → Option AuthUser
  unfolding user_by_id or_by_email
  flow_user flow s = or_by_email flow.email (user_by_id (Dict.get "user_id" flow.metadata) s) s

  -- `if user is None or user.status != UserStatus.ACTIVE: raise …`
  unfoldable pub require_active_user : Option AuthUser → String → Action AuthUser
  require_active_user none message = fail (authentication_failed message)
  require_active_user (some user) message =
      if is_active user.status then pure user else fail (authentication_failed message)

  -- The comparison of the e-mails, which normalises both if the flow has one.
  unfoldable pub same_email : AuthUser → Option String → Action (Unit {0})
  unfolding normalize_email
  same_email user email =
      if has_text email
      then (do
        mine ← normalize_email host svc user.primary_email
        theirs ← normalize_email host svc (get_or email "")
        fail_if (not (mine == theirs)) (authentication_failed "invalid email verification token"))
      else pure tt

  unfoldable pub verify_identity : ℕ → Option AuthIdentity → Action (Unit {0})
  unfolding upsert_identity
  verify_identity now none = pure tt
  verify_identity now (some identity) =
      write (upsert_identity (record identity { email_verified = true; last_seen_at = some now }))

  unfoldable pub consume_email_verification : String → Action AuthUser
  unfolding consume_email_flow flow_user require_active_user same_email update_user get_identity
      verify_identity audit
  consume_email_verification token = do
    now ← now_utc host
    found ← consume_email_flow token FlowType.email_verification now
    flow ← require found (authentication_failed "invalid or expired email verification token")
    candidate ← query (flow_user flow)
    user ← require_active_user candidate "invalid email verification token"
    same_email user flow.email
    let updated = record user { primary_email_verified = true; updated_at = now }
    try_write (update_user updated)
    identity ← query (get_identity "email" updated.primary_email)
    verify_identity now identity
    audit host svc "auth.email_verification.consume" none (some updated.id) end
    pure updated
