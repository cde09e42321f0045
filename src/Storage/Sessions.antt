-- ===== src/Storage/Sessions.antt =====
-- memory.py: sessions, and `cleanup_expired`.
pub mod Operations
pub mod Revocation
pub mod Index
pub mod Closing
pub mod Cleanup
use coreline_auth_module.Common.{
  ℕ, String, Bool, false, not, ◌||◌, Option, none, some, List, leb, select, sort_by, is_none,
  or_else, ◌==◌, if◌then◌else◌,
}
use coreline_auth_module.Common.Dict
use coreline_auth_module.Errors.{Result, ok, raise, validation}
use coreline_auth_module.Models.{AuthSession, AuthAssuranceLevel, aal2, is_aal2}
use coreline_auth_module.Storage.State.{Storage, resolve}
use coreline_auth_module.Storage.Flows.{cleanup_flows}

unfoldable pub create_session : AuthSession → Storage → Result Storage
create_session session s =
    if Dict.contains session.session_token_hash s.sessions_by_token_hash
    then raise (validation "session token already exists")
    else ok (record s {
      sessions = Dict.set session.id session s.sessions;
      sessions_by_token_hash =
          Dict.set session.session_token_hash session.id s.sessions_by_token_hash;
    })

unfoldable pub get_session_by_token_hash : String → Storage → Option AuthSession
get_session_by_token_hash token_hash s =
    resolve (Dict.get token_hash s.sessions_by_token_hash) s.sessions

unfoldable pub list_sessions_for_user : String → Storage → List AuthSession
list_sessions_for_user user_id s =
    sort_by (λ (x : AuthSession). x.created_at)
      (select (λ (x : AuthSession). x.user_id == user_id) (Dict.values s.sessions))

-- Both writes of a session under an id that is there.
abbrev store_session : String → AuthSession → Storage → Storage
store_session id session s = record s {
  sessions = Dict.set id session s.sessions;
  sessions_by_token_hash = Dict.set session.session_token_hash id s.sessions_by_token_hash;
}

-- What `update_session` saves: revocation and an AAL2 level are kept.
unfoldable pub merge_session : AuthSession → AuthSession → AuthSession
merge_session existing session = record session {
  revoked_at = or_else existing.revoked_at session.revoked_at;
  assurance_level =
      if is_aal2 existing.assurance_level || is_aal2 session.assurance_level
      then aal2
      else session.assurance_level;
}

update_found : Option AuthSession → AuthSession → Storage → Result Storage
unfolding merge_session
update_found none session s = raise (validation "session not found")
update_found (some existing) session s =
    ok (store_session session.id (merge_session existing session) s)

unfoldable pub update_session : AuthSession → Storage → Result Storage
unfolding update_found
update_session session s = update_found (Dict.get session.id s.sessions) session s

-- The methods that change a session unless it is missing or revoked.
unfoldable pub change_live :
    (AuthSession → AuthSession)
    → String
    → Option AuthSession
    → Storage
    → Option AuthSession × Storage
change_live f id none s = (none, s)
change_live f id (some session) s =
    if is_none session.revoked_at
    then (some (f session), store_session id (f session) s)
    else (none, s)

unfoldable pub touch_session : String → ℕ → Option ℕ → Storage → Option AuthSession × Storage
unfolding change_live
touch_session id last_seen_at idle_expires_at s =
    change_live
      (λ x. record x { last_seen_at = some last_seen_at; idle_expires_at = idle_expires_at }) id
      (Dict.get id s.sessions) s

unfoldable pub set_session_assurance_level :
    String → AuthAssuranceLevel → ℕ → Storage → Option AuthSession × Storage
unfolding change_live
set_session_assurance_level id level last_seen_at s =
    change_live (λ x. record x { assurance_level = level; last_seen_at = some last_seen_at }) id
      (Dict.get id s.sessions) s

revoke_found : String → ℕ → Option AuthSession → Storage → Storage
revoke_found id now none s = s
revoke_found id now (some session) s =
    if is_none session.revoked_at
    then record s { sessions = Dict.set id (record session { revoked_at = some now }) s.sessions }
    else s

unfoldable pub revoke_session : String → ℕ → Storage → Storage
unfolding revoke_found
revoke_session id now s = revoke_found id now (Dict.get id s.sessions) s

-- `session_id == except_session_id`
abbrev is_excepted : Option String → String → Bool
is_excepted none id = false
is_excepted (some e) id = id == e

-- The body of the loop of `revoke_sessions_for_user`.
unfoldable pub revoke_of_user :
    String → Option String → ℕ → String → AuthSession → Option AuthSession
revoke_of_user user_id except now session_id x =
    if not (x.user_id == user_id) || not (is_none x.revoked_at) || is_excepted except session_id
    then none
    else some (record x { revoked_at = some now })

unfoldable pub revoke_sessions_for_user : String → Option String → ℕ → Storage → ℕ × Storage
unfolding revoke_of_user
revoke_sessions_for_user user_id except now s =
    let (sessions', revoked) =
      Dict.sweep (revoke_of_user user_id except now) s.sessions (s.sessions, 0) in
    (revoked, record s { sessions = sessions' })

-- `session.expires_at <= now or (idle is not None and idle <= now)`
unfoldable pub is_expired : ℕ → AuthSession → Bool
is_expired now x =
    leb x.expires_at now || elim x.idle_expires_at [ none ↦ false | some t ↦ leb t now ]

-- The body of the first loop of `cleanup_expired`.
unfoldable pub revoke_expired : ℕ → String → AuthSession → Option AuthSession
unfolding is_expired
revoke_expired now session_id x =
    if not (is_none x.revoked_at)
    then none
    else if is_expired now x
    then some (record x { revoked_at = some now })
    else none

unfoldable pub cleanup_sessions : ℕ → Storage → ℕ × Storage
unfolding revoke_expired
cleanup_sessions now s =
    let (sessions', n) = Dict.sweep (revoke_expired now) s.sessions (s.sessions, 0) in
    (n, record s { sessions = sessions' })

-- The two counts are those of `sessions` and `login_flows`.
unfoldable pub cleanup_expired : ℕ → Storage → (ℕ × ℕ) × Storage
unfolding cleanup_sessions cleanup_flows
cleanup_expired now s =
    let (expired_sessions, s') = cleanup_sessions now s in
    let (s'', expired_flows) = cleanup_flows now s'.login_flows (s', 0) in
    ((expired_sessions, expired_flows), s'')
