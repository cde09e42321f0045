-- ===== src/Storage/Flows/Frames.antt =====
-- memory.py: the table of sessions under the methods on login flows, which leave it as it is.
use coreline_auth_module.Common.{
  ℕ, ◌≡◌, refl, ◌∙◌, String, true, false, Option, some, none, [], ◌∷◌, Bool, Bool-cases, inl, inr,
  ltb, if◌then◌else◌,
}
use coreline_auth_module.Common.Dict.{Dict}
use coreline_auth_module.Models.{LoginFlow, FlowType}
use coreline_auth_module.Storage.State.{Storage, resolve}
use coreline_auth_module.Common.Dict
use coreline_auth_module.Storage.Flows.{
  is_consumable, consume_found, consume_login_flow_by_state_hash, cleanup_flows,
}

consume_found-sessions :
    (flow_type : FlowType) (provider : Option String) (now : ℕ) (o : Option LoginFlow) (s : Storage)
    → (consume_found flow_type provider now o s).1.sessions ≡ s.sessions
unfolding consume_found
consume_found-sessions flow_type provider now none s = refl
consume_found-sessions flow_type provider now (some flow) s =
    elim (Bool-cases (is_consumable flow_type provider now flow)) [
      | inl e ↦ rw e refl
      | inr e ↦ rw e refl
    ]

pub consume-sessions :
    (state_hash : String) (flow_type : FlowType) (provider : Option String) (now : ℕ) (s : Storage)
    → (consume_login_flow_by_state_hash state_hash flow_type provider now s).1.sessions ≡ s.sessions
unfolding consume_login_flow_by_state_hash
consume-sessions state_hash flow_type provider now s =
    consume_found-sessions flow_type provider now
      (resolve (Dict.get state_hash s.login_flows_by_state_hash) s.login_flows) s

if-sessions :
    (b : Bool) (x y : Storage × ℕ)
    → y.0.sessions ≡ x.0.sessions
    → (if b then x else y).0.sessions ≡ x.0.sessions
if-sessions true x y e = refl
if-sessions false x y e = e

pub cleanup_flows-sessions :
    (now : ℕ) (items : Dict LoginFlow) (acc : Storage × ℕ)
    → (cleanup_flows now items acc).0.sessions ≡ acc.0.sessions
unfolding cleanup_flows
cleanup_flows-sessions now [] acc = refl
cleanup_flows-sessions now ((flow_id, flow) ∷ items) (s, n) =
    cleanup_flows-sessions now items _ ∙ if-sessions (ltb now flow.expires_at) (s, n) _ refl
