-- ===== src/Storage/Flows/Cleanup.antt =====
-- memory.py: the loop of `cleanup_expired` over the flows.
use coreline_auth_module.Common.{
  ℕ, ◌+◌, String, ◌≡◌, refl, true, false, Option, none, some, [], ◌∷◌, arith, ltb, eq_iff,
}
use coreline_auth_module.Common.Dict
use coreline_auth_module.Common.Dict.{Dict, IsUnique, get-pop}
use coreline_auth_module.Models.{LoginFlow}
use coreline_auth_module.Storage.State.{Storage}
use coreline_auth_module.Storage.Flows.{cleanup_flows, unindex_flow}

-- What is left of an entry, from its value among the items and in the table.
abbrev kept_flow : ℕ → Option LoginFlow → Option LoginFlow → Option LoginFlow
kept_flow now none stored = stored
kept_flow now (some flow) stored = elim (ltb now flow.expires_at) [ true ↦ stored | false ↦ none ]

module _ (now : ℕ) where
  abbrev drop_flow : String → LoginFlow → Storage → Storage
  drop_flow id flow s = record s {
    login_flows = Dict.pop id s.login_flows;
    login_flows_by_state_hash = unindex_flow flow s.login_flows_by_state_hash;
  }

  get-cleanup_from :
      (id : String) (items : Dict LoginFlow) (s : Storage) (n : ℕ)
      → IsUnique items
      → Dict.get id (cleanup_flows now items (s, n)).0.login_flows
        ≡ kept_flow now (Dict.get id items) (Dict.get id s.login_flows)
  unfolding cleanup_flows Dict.get
  get-cleanup_from id [] s n u = refl
  get-cleanup_from id ((k, flow) ∷ items) s n u = ground (
    arith,
    eq_iff k id,
    get-pop k id s.login_flows,
    get-cleanup_from id items s n u.1,
    get-cleanup_from id items (drop_flow k flow s) (n + 1) u.1,
  )

  -- The flows that are left are those whose time is not up.
  pub get-cleanup_flows :
      (id : String) (s : Storage) (n : ℕ)
      → IsUnique s.login_flows
      → Dict.get id (cleanup_flows now s.login_flows (s, n)).0.login_flows
        ≡ kept_flow now (Dict.get id s.login_flows) (Dict.get id s.login_flows)
  get-cleanup_flows id s n u = get-cleanup_from id s.login_flows s n u

  -- The loop leaves the sessions alone.
  pub sessions-cleanup_flows :
      (items : Dict LoginFlow) (s : Storage) (n : ℕ)
      → (cleanup_flows now items (s, n)).0.sessions ≡ s.sessions
  unfolding cleanup_flows
  sessions-cleanup_flows [] s n = refl
  sessions-cleanup_flows ((k, flow) ∷ items) s n = ground (
    arith,
    sessions-cleanup_flows items s n,
    sessions-cleanup_flows items (drop_flow k flow s) (n + 1),
  )
