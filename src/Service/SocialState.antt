-- ===== src/Service/SocialState.antt =====
-- service.py: the states of social logins.
use coreline_auth_module.Common.{
  ℕ, ◌+◌, String, Bool, true, false, not, ◌&&◌, Option, none, some, [], leb, is_none, has_text,
  get_or, ◌==◌, if◌then◌else◌,
}
use coreline_auth_module.Errors.{authentication_failed}
use coreline_auth_module.Host.{Host}
use coreline_auth_module.Models.{LoginFlow, FlowType, eq_flow}
use coreline_auth_module.Security.{hash_secret, validate_return_to}
use coreline_auth_module.Storage.{
  create_login_flow, consume_login_flow_by_state_hash, get_login_flow_by_state_hash,
}
use coreline_auth_module.World.{Action, ◌>>=◌, ◌>>◌}
use coreline_auth_module.World.Actions.{
  pure, lift, query, change, try_write, fail_if, require, now_utc, generate_token, draw_uuid,
}
use coreline_auth_module.Service.Config.{Service}
use coreline_auth_module.Service.Accounts.{prefixed}

module _ (host : Host) (svc : Service) where
  -- `hash_secret(nonce) if nonce else None`
  nonce_hash_of : Option String → Option String
  unfolding hash_secret
  nonce_hash_of nonce = if has_text nonce then some (hash_secret host (get_or nonce "")) else none

  unfoldable pub begin_social_login : String → String → Option String → Action String
  unfolding validate_return_to hash_secret nonce_hash_of create_login_flow
  begin_social_login provider return_to nonce = do
    target ← lift (validate_return_to host (some return_to))
    state ← generate_token host
    now ← now_utc host
    uuid ← draw_uuid host
    try_write (
        create_login_flow (record {
          id = prefixed "flow_" uuid;
          flow_type = FlowType.oauth;
          provider = some provider;
          state_hash = some (hash_secret host state);
          nonce_hash = nonce_hash_of nonce;
          email = none;
          return_to = target;
          created_at = now;
          expires_at = now + svc.config.login_flow_ttl_seconds;
          consumed_at = none;
          metadata = [];
        }))
    pure state

  -- `existing.provider != provider`, and the other conditions on the flow of a state.
  abbrev is_provider : Option String → String → Bool
  is_provider none provider = false
  is_provider (some p) provider = p == provider

  unfoldable pub is_usable_state : String → ℕ → Option LoginFlow → Bool
  is_usable_state provider now none = false
  is_usable_state provider now (some flow) =
      eq_flow flow.flow_type FlowType.oauth
      && (is_provider flow.provider provider
          && (is_none flow.consumed_at && not (leb flow.expires_at now)))

  -- `existing.nonce_hash is not None and (nonce is None or hash_secret(nonce) != …)`, negated.
  unfoldable pub nonce_matches : Option String → Option LoginFlow → Bool
  unfolding hash_secret
  nonce_matches given none = true
  nonce_matches given (some flow) = hash_matches given flow.nonce_hash
    where
      hash_matches : Option String → Option String → Bool
      hash_matches given none = true
      hash_matches none (some h) = false
      hash_matches (some n) (some h) = hash_secret host n == h

  unfoldable pub consume_social_login_state : String → String → Option String → Action LoginFlow
  unfolding hash_secret get_login_flow_by_state_hash is_usable_state nonce_matches
      consume_login_flow_by_state_hash
  consume_social_login_state provider state nonce = do
    let state_hash = hash_secret host state
    now ← now_utc host
    existing ← query (get_login_flow_by_state_hash state_hash)
    fail_if (not (is_usable_state provider now existing))
        (authentication_failed "invalid or expired social login state")
    fail_if (not (nonce_matches nonce existing))
        (authentication_failed "invalid social login nonce")
    flow ← change (consume_login_flow_by_state_hash state_hash FlowType.oauth (some provider) now)
    require flow (authentication_failed "invalid or expired social login state")
