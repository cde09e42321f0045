-- ===== src/Storage/Flows/Once.antt =====
-- memory.py: a login flow is consumed once.
use coreline_auth_module.Common.{
  ℕ, ◌+◌, String, ◌≡◌, refl, sym, ap, ◌∙◌, ◌≢◌, ◌⊎◌, inl, inr, false, ◌&&◌, Option, none, some,
  List, [], ◌∷◌, arith, ltb, eq_iff, ◌==◌, is_none, has_text, get_or, Bool-cases, Option-cases,
}
use coreline_auth_module.Common.Dict
use coreline_auth_module.Common.Dict.{Dict, get-set, get-pop}
use coreline_auth_module.Errors.{or_same}
use coreline_auth_module.Models.{LoginFlow, FlowType}
use coreline_auth_module.Storage.State.{Storage, resolve}
use coreline_auth_module.Storage.Flows.{
  create_login_flow, consume_login_flow_by_state_hash, consume_found, is_consumable, cleanup_flows,
  unindex_flow, index_flow,
}

-- The calls of the service that change login flows.
pub data FlowCall : Type 0 where
  create : LoginFlow → FlowCall
  consume :
      (state_hash : String) (flow_type : FlowType) (provider : Option String) (now : ℕ) → FlowCall
  cleanup : (now : ℕ) → FlowCall

unfoldable pub perform : FlowCall → Storage → Storage
perform (FlowCall.create flow) s = or_same (create_login_flow flow s) s
perform (FlowCall.consume h flow_type provider now) s =
    (consume_login_flow_by_state_hash h flow_type provider now s).1
perform (FlowCall.cleanup now) s = (cleanup_flows now s.login_flows (s, 0)).0

-- The state hash leads to no flow that is still to be consumed.
pub record IsSpent (h : String) (s : Storage) : Type 0 where
  pub at_flow :
      (flow : LoginFlow)
      → resolve (Dict.get h s.login_flows_by_state_hash) s.login_flows ≡ some flow
      → is_none flow.consumed_at ≡ false

-- A created flow has another state hash, and an id that the index does not hold for this one.
abbrev pub IsOther : String → FlowCall → Storage → Type 0
IsOther h (FlowCall.create flow) s =
    ((get_or flow.state_hash "" == h) ≡ false)
    × (Dict.get h s.login_flows_by_state_hash ≢ some flow.id)
IsOther h _ s = Unit

unfoldable pub perform_all : List FlowCall → Storage → Storage
perform_all [] s = s
perform_all (c ∷ calls) s = perform_all calls (perform c s)

abbrev pub AreOther : String → List FlowCall → Storage → Type 0
AreOther h [] s = Unit
AreOther h (c ∷ calls) s = IsOther h c s × AreOther h calls (perform c s)

-- Every flow of the table stands under its id.
pub record IsKeyed (s : Storage) : Type 0 where
  pub at : (id : String) (flow : LoginFlow) → Dict.get id s.login_flows ≡ some flow → flow.id ≡ id

module _ (k : String) (table : Dict LoginFlow) where
  -- A flow found after a write is the one that was written, or was found before.
  resolve-set :
      (o : Option String) (x g : LoginFlow)
      → resolve o (Dict.set k x table) ≡ some g
      → (g ≡ x) ⊎ (resolve o table ≡ some g)
  resolve-set none x g e = cc
  resolve-set (some id) x g e = elim (Bool-cases (k == id)) [
    | inl same ↦ inl (ground (arith, get-set k id x table))
    | inr other ↦ inr (ground (arith, get-set k id x table))
  ]

  resolve-set_ne :
      (o : Option String) (x : LoginFlow)
      → o ≢ some k
      → resolve o (Dict.set k x table) ≡ resolve o table
  resolve-set_ne none x n = refl
  resolve-set_ne (some id) x n = ground (arith, get-set k id x table, eq_iff k id)

  resolve-pop :
      (o : Option String) (g : LoginFlow)
      → resolve o (Dict.pop k table) ≡ some g
      → resolve o table ≡ some g
  resolve-pop none g e = cc
  resolve-pop (some id) g e = ground (arith, get-pop k id table)

module _ (h : String) where
  get-index_flow :
      (flow : LoginFlow) (index : Dict String)
      → (get_or flow.state_hash "" == h) ≡ false
      → Dict.get h (index_flow flow index) ≡ Dict.get h index
  get-index_flow flow index n = ground (arith, get-set (get_or flow.state_hash "") h flow.id index)

  create-IsSpent :
      (flow : LoginFlow) (s : Storage)
      → IsOther h (FlowCall.create flow) s
      → IsSpent h s
      → IsSpent h (perform (FlowCall.create flow) s)
  unfolding perform create_login_flow
  create-IsSpent flow s o v =
      elim (Bool-cases (
        has_text flow.state_hash
        && Dict.contains (get_or flow.state_hash "") s.login_flows_by_state_hash)) [
          | inl taken ↦ rw taken v
          | inr new ↦ rw new (record {
            at_flow = λ g e. v.at_flow g (
                sym (
                  resolve-set_ne flow.id s.login_flows (Dict.get h s.login_flows_by_state_hash) flow
                    o.1)
                ∙ ap (λ i. resolve i (Dict.set flow.id flow s.login_flows))
                    (sym (get-index_flow flow s.login_flows_by_state_hash o.0))
                ∙ e);
          })
        ]

  consume_found-IsSpent :
      (ft : FlowType) (p : Option String) (now : ℕ) (found : Option LoginFlow) (s : Storage)
      → IsSpent h s
      → IsSpent h (consume_found ft p now found s).1
  unfolding consume_found
  consume_found-IsSpent ft p now none s v = v
  consume_found-IsSpent ft p now (some flow) s v = elim (Bool-cases (is_consumable ft p now flow)) [
    | inl fit ↦ rw fit (record {
      at_flow = λ g e.
          elim (resolve-set flow.id s.login_flows (Dict.get h s.login_flows_by_state_hash)
            (record flow { consumed_at = some now }) g e) [ inl p ↦ rw p | inr q ↦ v.at_flow g q ];
    })
    | inr unfit ↦ rw unfit v
  ]

  drop-IsSpent :
      (k : String) (flow : LoginFlow) (s : Storage)
      → IsSpent h s
      → IsSpent h (record s {
        login_flows = Dict.pop k s.login_flows;
        login_flows_by_state_hash = unindex_flow flow s.login_flows_by_state_hash;
      })
  drop-IsSpent k flow s v = record {
    at_flow = λ g e. v.at_flow g (
        unindexed g (Dict.get h s.login_flows_by_state_hash) refl (
          resolve-pop k s.login_flows (Dict.get h (unindex_flow flow s.login_flows_by_state_hash)) g
            e));
  }
    where
      unindexed :
          (g : LoginFlow) (o : Option String)
          → Dict.get h s.login_flows_by_state_hash ≡ o
          → resolve (Dict.get h (unindex_flow flow s.login_flows_by_state_hash)) s.login_flows
            ≡ some g
          → resolve (Dict.get h s.login_flows_by_state_hash) s.login_flows ≡ some g
      unindexed g o p e =
          ground (arith, get-pop (get_or flow.state_hash "") h s.login_flows_by_state_hash)

  cleanup-IsSpent :
      (now : ℕ) (items : Dict LoginFlow) (s : Storage) (n : ℕ)
      → IsSpent h s
      → IsSpent h (cleanup_flows now items (s, n)).0
  unfolding cleanup_flows
  cleanup-IsSpent now [] s n v = v
  cleanup-IsSpent now ((k, flow) ∷ items) s n v = elim (Bool-cases (ltb now flow.expires_at)) [
    | inl keep ↦ rw (cleanup_flows, keep) (cleanup-IsSpent now items s n v)
    | inr past ↦
        rw (cleanup_flows, past) (cleanup-IsSpent now items _ (n + 1) (drop-IsSpent k flow s v))
  ]

  perform-IsSpent :
      (c : FlowCall) (s : Storage) → IsOther h c s → IsSpent h s → IsSpent h (perform c s)
  unfolding perform consume_login_flow_by_state_hash
  perform-IsSpent (FlowCall.create flow) s o v = create-IsSpent flow s o v
  perform-IsSpent (FlowCall.consume h' ft p now) s o v = consume_found-IsSpent ft p now _ s v
  perform-IsSpent (FlowCall.cleanup now) s o v = cleanup-IsSpent now s.login_flows s 0 v

  consume_found-spends :
      (ft : FlowType) (p : Option String) (now : ℕ) (found : Option LoginFlow) (s : Storage)
      (flow : LoginFlow)
      → IsKeyed s
      → resolve (Dict.get h s.login_flows_by_state_hash) s.login_flows ≡ found
      → (consume_found ft p now found s).0 ≡ some flow
      → IsSpent h (consume_found ft p now found s).1
  unfolding consume_found
  consume_found-spends ft p now none s flow k r e = cc
  consume_found-spends ft p now (some f) s flow k r e =
      elim (Bool-cases (is_consumable ft p now f)) [
        | inl fit ↦
            rw fit
              (record { at_flow = λ g q. rewritten g (Dict.get h s.login_flows_by_state_hash) r q })
        | inr unfit ↦ absurd (ground arith)
      ]
    where
      rewritten :
          (g : LoginFlow) (o : Option String)
          → resolve o s.login_flows ≡ some f
          → resolve o (Dict.set f.id (record f { consumed_at = some now }) s.login_flows) ≡ some g
          → is_none g.consumed_at ≡ false
      rewritten g none r q = cc
      rewritten g (some id) r q = ground (
        arith,
        get-set f.id id (record f { consumed_at = some now }) s.login_flows,
        k.at id f,
        eq_iff f.id id,
      )

  spent_is_refused :
      (ft : FlowType) (p : Option String) (now : ℕ) (s : Storage)
      → IsSpent h s
      → (consume_login_flow_by_state_hash h ft p now s).0 ≡ none
  unfolding consume_login_flow_by_state_hash consume_found is_consumable
  spent_is_refused ft p now s v =
      elim (Option-cases (resolve (Dict.get h s.login_flows_by_state_hash) s.login_flows)) [
        | inl e ↦ rw e
        | inr (flow, e) ↦ rw e (ground (arith, v.at_flow flow e))
      ]

  perform_all-IsSpent :
      (calls : List FlowCall) (s : Storage)
      → AreOther h calls s
      → IsSpent h s
      → IsSpent h (perform_all calls s)
  unfolding perform_all
  perform_all-IsSpent [] s o v = v
  perform_all-IsSpent (c ∷ calls) s o v =
      perform_all-IsSpent calls (perform c s) o.1 (perform-IsSpent c s o.0 v)

  -- A state hash that was consumed once is refused from then on, whatever the type, the provider
  -- and the time asked for, after any calls of the service on flows, if the flows of the table
  -- stand under their ids and the flows created since have another state hash and a new id.
  pub consume_once :
      (ft ft' : FlowType) (p p' : Option String) (now now' : ℕ) (calls : List FlowCall)
      (s : Storage) (flow : LoginFlow)
      → IsKeyed s
      → (consume_login_flow_by_state_hash h ft p now s).0 ≡ some flow
      → AreOther h calls (consume_login_flow_by_state_hash h ft p now s).1
      → (consume_login_flow_by_state_hash h ft' p' now'
          (perform_all calls (consume_login_flow_by_state_hash h ft p now s).1)).0
        ≡ none
  consume_once ft ft' p p' now now' calls s flow k e o = spent_is_refused ft' p' now' _ (
      perform_all-IsSpent calls _ o (
        unfold consume_login_flow_by_state_hash in consume_found-spends ft p now _ s flow k refl e))
