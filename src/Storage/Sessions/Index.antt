-- ===== src/Storage/Sessions/Index.antt =====
-- memory.py: the table of sessions and its index by token hash agree.
use mathlib.Core.Option
use coreline_auth_module.Common.{
  ℕ, String, ◌≡◌, refl, sym, ap, ◌∙◌, inl, inr, true, Option, none, some, arith, ◌==◌, eq_iff,
  is_none, is_text, Bool-cases, Option-cases, if◌then◌else◌,
}
use coreline_auth_module.Common.Dict
use coreline_auth_module.Common.Dict.{IsUnique, get-set, set-IsUnique, swept}
use coreline_auth_module.Common.Dict.Sweep.{get-sweep, sweep-IsUnique}
use coreline_auth_module.Models.{AuthSession}
use coreline_auth_module.Storage.State.{Storage}
use coreline_auth_module.Storage.Sessions.{
  create_session, update_session, touch_session, store_session, set_session_assurance_level,
  revoke_session, revoke_sessions_for_user, cleanup_sessions, revoke_of_user, revoke_expired,
  merge_session, change_live,
}
use coreline_auth_module.Storage.Sessions.Operations.{SessionCall, perform}

pub record IsIndexed (s : Storage) : Type 0 where
  pub unique : IsUnique s.sessions
  pub keyed :
      (id : String) (x : AuthSession)
      → Dict.get id s.sessions ≡ some x
      → (x.id ≡ id)
        × (is_text id ≡ true)
        × (Dict.get x.session_token_hash s.sessions_by_token_hash ≡ some id)
  pub sound :
      (h id : String)
      → Dict.get h s.sessions_by_token_hash ≡ some id
      → (x : AuthSession) × (Dict.get id s.sessions ≡ some x) × (x.session_token_hash ≡ h)

module _ (s s' : Storage) (v : IsIndexed s) (k : String) (x : AuthSession)
    (e : s'.sessions ≡ Dict.set k x s.sessions) where
  get_written :
      (id : String) → Dict.get id s'.sessions ≡ (if k == id then some x else Dict.get id s.sessions)
  get_written id = rw e (get-set k id x s.sessions)

  -- A new session, with its entry in the index.
  add-IsIndexed :
      s'.sessions_by_token_hash ≡ Dict.set x.session_token_hash k s.sessions_by_token_hash
      → x.id ≡ k
      → is_text k ≡ true
      → Dict.get k s.sessions ≡ none
      → Dict.get x.session_token_hash s.sessions_by_token_hash ≡ none
      → IsIndexed s'
  add-IsIndexed ei xk tk nk nh = record {
    unique = rw e (set-IsUnique k x s.sessions v.unique);
    keyed = λ id y h. elim (Bool-cases (k == id)) [
      | inl same ↦ ground (
        arith,
        eq_iff k id,
        get_written id,
        index x.session_token_hash,
        eq_iff x.session_token_hash x.session_token_hash,
      )
      | inr other ↦ ground (
        arith,
        get_written id,
        v.keyed id y,
        index y.session_token_hash,
        eq_iff x.session_token_hash y.session_token_hash,
      )
    ];
    sound = λ h id p. elim (Bool-cases (x.session_token_hash == h)) [
      | inl same ↦ (
        x,
        ground (arith, index h, get_written id, eq_iff k id),
        (eq_iff x.session_token_hash h).0 same,
      )
      | inr other ↦
          let (y, found, hash) = v.sound h id (ground (arith, index h)) in
          (y, ground (arith, get_written id, eq_iff k id), hash)
    ];
  }
    where
      index :
          (h : String)
          → Dict.get h s'.sessions_by_token_hash
            ≡ (if x.session_token_hash == h then some k else Dict.get h s.sessions_by_token_hash)
      index h = rw ei (get-set x.session_token_hash h k s.sessions_by_token_hash)

  -- A session in place of one with the same id and token, where the index answers as before.
  replace-IsIndexed :
      (old : AuthSession)
      → Dict.get k s.sessions ≡ some old
      → x.id ≡ old.id
      → x.session_token_hash ≡ old.session_token_hash
      → ((h : String) → Dict.get h s'.sessions_by_token_hash ≡ Dict.get h s.sessions_by_token_hash)
      → IsIndexed s'
  replace-IsIndexed old found xk xh same_index = record {
    unique = rw e (set-IsUnique k x s.sessions v.unique);
    keyed = λ id y h. elim (Bool-cases (k == id)) [
      | inl same ↦
          ground (
            arith,
            eq_iff k id,
            get_written id,
            v.keyed k old found,
            same_index x.session_token_hash,
          )
      | inr other ↦ ground (arith, get_written id, v.keyed id y, same_index y.session_token_hash)
    ];
    sound = λ h id p.
        let (y, at_id, hash) = v.sound h id (sym (same_index h) ∙ p) in
        elim (Bool-cases (k == id)) [
          | inl same ↦ (x, ground (arith, get_written id), ground (arith, eq_iff k id))
          | inr other ↦ (y, ground (arith, get_written id), hash)
        ];
  }

-- What a call must meet to keep the index: a new session has an id that is not in use and not
-- empty, and an update keeps the token of the session.
abbrev pub IsFit : SessionCall → Storage → Type 0
IsFit (SessionCall.create x) s = (Dict.get x.id s.sessions ≡ none) × (is_text x.id ≡ true)
IsFit (SessionCall.update x) s =
    (old : AuthSession)
    → Dict.get x.id s.sessions ≡ some old
    → x.session_token_hash ≡ old.session_token_hash
IsFit _ s = Unit

module _ (s : Storage) (v : IsIndexed s) where
  create-IsIndexed :
      (x : AuthSession)
      → Dict.get x.id s.sessions ≡ none
      → is_text x.id ≡ true
      → IsIndexed (perform (SessionCall.create x) s)
  unfolding perform create_session
  create-IsIndexed x n t =
      elim (Option-cases (Dict.get x.session_token_hash s.sessions_by_token_hash)) [
        | inl h ↦ rw h (add-IsIndexed s _ v x.id x refl refl refl t n h)
        | inr (k, h) ↦ rw h v
      ]

  -- Both writes of a session in place of one with the same id and token.
  store-IsIndexed :
      (k : String) (x old : AuthSession)
      → Dict.get k s.sessions ≡ some old
      → x.id ≡ old.id
      → x.session_token_hash ≡ old.session_token_hash
      → IsIndexed (store_session k x s)
  store-IsIndexed k x old found xk xh = replace-IsIndexed s _ v k x refl old found xk xh (λ h.
      ground (
        arith,
        get-set x.session_token_hash h k s.sessions_by_token_hash,
        eq_iff x.session_token_hash h,
        v.keyed k old found,
      ))

  update-IsIndexed :
      (x : AuthSession)
      → IsFit (SessionCall.update x) s
      → IsIndexed (perform (SessionCall.update x) s)
  unfolding perform update_session merge_session
  update-IsIndexed x fit = elim (Option-cases (Dict.get x.id s.sessions)) [
    | inl h ↦ rw h v
    | inr (old, h) ↦
        rw h (
          store-IsIndexed x.id (merge_session old x) old h (sym (v.keyed x.id old h).0) (fit old h))
  ]

  change_live-IsIndexed :
      (f : AuthSession → AuthSession) (k : String)
      → ((x : AuthSession) → ((f x).id ≡ x.id) × ((f x).session_token_hash ≡ x.session_token_hash))
      → IsIndexed (change_live f k (Dict.get k s.sessions) s).1
  unfolding change_live
  change_live-IsIndexed f k same = elim (Option-cases (Dict.get k s.sessions)) [
    | inl h ↦ rw h v
    | inr (old, h) ↦ elim (Bool-cases (is_none old.revoked_at)) [
      | inl live ↦ rw (h, live) (store-IsIndexed k (f old) old h (same old).0 (same old).1)
      | inr dead ↦ rw (h, dead) v
    ]
  ]

  revoke-IsIndexed : (k : String) (now : ℕ) → IsIndexed (revoke_session k now s)
  unfolding revoke_session
  revoke-IsIndexed k now = elim (Option-cases (Dict.get k s.sessions)) [
    | inl h ↦ rw h v
    | inr (old, h) ↦ elim (Bool-cases (is_none old.revoked_at)) [
      | inl live ↦
          rw (h, live)
            (replace-IsIndexed s _ v k (record old { revoked_at = some now }) refl old h refl refl
              (λ _. refl))
      | inr dead ↦ rw (h, dead) v
    ]
  ]

  sweep-IsIndexed :
      (f : String → AuthSession → Option AuthSession) (s' : Storage)
      → s'.sessions ≡ (Dict.sweep f s.sessions (s.sessions, 0)).0
      → s'.sessions_by_token_hash ≡ s.sessions_by_token_hash
      → ((k : String) (x : AuthSession)
          → ((swept f k x).id ≡ x.id) × ((swept f k x).session_token_hash ≡ x.session_token_hash))
      → IsIndexed s'
  sweep-IsIndexed f s' e ei same = record {
    unique = rw e (sweep-IsUnique f s.sessions (s.sessions, 0) v.unique);
    keyed = λ id x h. elim (Option-cases (Dict.get id s.sessions)) [
      | inl missing ↦ absurd (cc (at id, ap (Option.map (swept f id)) missing))
      | inr (y, found) ↦
          let p : some x ≡ some (swept f id y) =
            sym h ∙ at id ∙ ap (Option.map (swept f id)) found in
          ground (arith, v.keyed id y found, same id y, ei, p)
    ];
    sound = λ h id p.
        let (y, found, hash) = v.sound h id (sym (ap (Dict.get h) ei) ∙ p) in
        (swept f id y, at id ∙ ap (Option.map (swept f id)) found, (same id y).1 ∙ hash);
  }
    where
      at :
          (id : String) → Dict.get id s'.sessions ≡ Option.map (swept f id) (Dict.get id s.sessions)
      at id = rw e (get-sweep f id s.sessions 0 v.unique)

-- Every call on sessions that meets its condition, whether it returns or raises, keeps the table
-- of sessions and its index in agreement.
pub perform-IsIndexed :
    (c : SessionCall) (s : Storage) → IsFit c s → IsIndexed s → IsIndexed (perform c s)
unfolding perform touch_session set_session_assurance_level revoke_sessions_for_user
    cleanup_sessions revoke_of_user revoke_expired
perform-IsIndexed (SessionCall.create x) s f v = create-IsIndexed s v x f.0 f.1
perform-IsIndexed (SessionCall.update x) s f v = update-IsIndexed s v x f
perform-IsIndexed (SessionCall.touch k at idle) s f v =
    change_live-IsIndexed s v _ k (λ x. (refl, refl))
perform-IsIndexed (SessionCall.assure k level at) s f v =
    change_live-IsIndexed s v _ k (λ x. (refl, refl))
perform-IsIndexed (SessionCall.revoke k now) s f v = revoke-IsIndexed s v k now
perform-IsIndexed (SessionCall.revoke_user uid except now) s f v =
    sweep-IsIndexed s v (revoke_of_user uid except now) _ refl refl (λ k x. ground arith)
perform-IsIndexed (SessionCall.cleanup now) s f v =
    sweep-IsIndexed s v (revoke_expired now) _ refl refl (λ k x. ground arith)
