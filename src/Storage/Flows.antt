-- ===== src/Storage/Flows.antt =====
-- memory.py: login flows, and their part of `cleanup_expired`.
pub mod Once
pub mod Frames
pub mod Cleanup
use coreline_auth_module.Common.{
  ℕ, ◌+◌, String, Bool, true, false, not, ◌&&◌, Option, none, some, [], ◌∷◌, ltb, is_none, has_text,
  get_or, ◌==◌, if◌then◌else◌,
}
use coreline_auth_module.Common.Dict
use coreline_auth_module.Common.Dict.{Dict}
use coreline_auth_module.Errors.{Result, ok, raise, validation}
use coreline_auth_module.Models.{LoginFlow, FlowType, eq_flow}
use coreline_auth_module.Storage.State.{Storage, resolve}

-- `if flow.state_hash: self.login_flows_by_state_hash[flow.state_hash] = flow.id`
abbrev index_flow : LoginFlow → Dict String → Dict String
index_flow flow index =
    if has_text flow.state_hash then Dict.set (get_or flow.state_hash "") flow.id index else index

unfoldable pub create_login_flow : LoginFlow → Storage → Result Storage
create_login_flow flow s =
    if has_text flow.state_hash
      && Dict.contains (get_or flow.state_hash "") s.login_flows_by_state_hash
    then raise (validation "login flow state already exists")
    else ok (record s {
      login_flows = Dict.set flow.id flow s.login_flows;
      login_flows_by_state_hash = index_flow flow s.login_flows_by_state_hash;
    })

unfoldable pub get_login_flow_by_state_hash : String → Storage → Option LoginFlow
get_login_flow_by_state_hash state_hash s =
    resolve (Dict.get state_hash s.login_flows_by_state_hash) s.login_flows

unfoldable pub update_login_flow : LoginFlow → Storage → Result Storage
update_login_flow flow s =
    if Dict.contains flow.id s.login_flows
    then ok (record s {
      login_flows = Dict.set flow.id flow s.login_flows;
      login_flows_by_state_hash = index_flow flow s.login_flows_by_state_hash;
    })
    else raise (validation "login flow not found")

-- `provider is not None and flow.provider != provider`
abbrev pub other_provider : Option String → Option String → Bool
other_provider none actual = false
other_provider (some p) none = true
other_provider (some p) (some a) = not (a == p)

-- The guards of `consume_login_flow_by_state_hash` on a flow that was found.
unfoldable pub is_consumable : FlowType → Option String → ℕ → LoginFlow → Bool
is_consumable flow_type provider now flow =
    eq_flow flow.flow_type flow_type
    && not (other_provider provider flow.provider)
    && is_none flow.consumed_at
    && ltb now flow.expires_at

consume_found :
    FlowType → Option String → ℕ → Option LoginFlow → Storage → Option LoginFlow × Storage
unfolding is_consumable
consume_found flow_type provider now none s = (none, s)
consume_found flow_type provider now (some flow) s =
    if is_consumable flow_type provider now flow
    then (let consumed = record flow { consumed_at = some now } in
        (some consumed, record s { login_flows = Dict.set flow.id consumed s.login_flows }))
    else (none, s)

unfoldable pub consume_login_flow_by_state_hash :
    String → FlowType → Option String → ℕ → Storage → Option LoginFlow × Storage
unfolding consume_found
consume_login_flow_by_state_hash state_hash flow_type provider now s =
    consume_found flow_type provider now
      (resolve (Dict.get state_hash s.login_flows_by_state_hash) s.login_flows) s

-- `if flow.state_hash: self.login_flows_by_state_hash.pop(flow.state_hash, None)`
abbrev unindex_flow : LoginFlow → Dict String → Dict String
unindex_flow flow index =
    if has_text flow.state_hash then Dict.pop (get_or flow.state_hash "") index else index

-- The second loop of `cleanup_expired`, over a copy of the flows.
unfoldable pub cleanup_flows : ℕ → Dict LoginFlow → Storage × ℕ → Storage × ℕ
cleanup_flows now [] acc = acc
cleanup_flows now ((flow_id, flow) ∷ items) (s, n) = cleanup_flows now items (
    if ltb now flow.expires_at then (s, n) else (
      record s {
        login_flows = Dict.pop flow_id s.login_flows;
        login_flows_by_state_hash = unindex_flow flow s.login_flows_by_state_hash;
      },
      n + 1,
    ))
