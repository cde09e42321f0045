-- ===== src/Storage/Sessions/Revocation.antt =====
-- memory.py: revocation is permanent, and reaches every session of a user.
use mathlib.Core.Option
use coreline_auth_module.Common.{
  ◌≢◌, ap, sym, ◌∙◌, ◌⊎◌, get_or, ℕ, String, ◌≡◌, refl, inl, inr, true, false, Option, none, some,
  List, [], ◌∷◌, arith, ◌==◌, eq_iff, any, is_none, Bool-cases, Option-cases,
}
use coreline_auth_module.Common.Dict
use coreline_auth_module.Common.Dict.{IsUnique, get-set, set-IsUnique, swept, count_swept}
use coreline_auth_module.Common.Dict.Sweep.{get-sweep, sweep-IsUnique}
use coreline_auth_module.Models.{AuthSession}
use coreline_auth_module.Storage.State.{Storage}
use coreline_auth_module.Storage.Sessions.{
  create_session, update_session, touch_session, set_session_assurance_level, revoke_session,
  revoke_sessions_for_user, cleanup_sessions, revoke_of_user, revoke_expired, merge_session,
  change_live,
}
use coreline_auth_module.Storage.Sessions.Operations.{SessionCall, perform, perform_all, creates}

-- The session under the id was revoked at the time `t`, and the keys of the table are distinct.
pub record IsRevoked (id : String) (t : ℕ) (s : Storage) : Type 0 where
  pub unique : IsUnique s.sessions
  pub session : AuthSession
  pub found : Dict.get id s.sessions ≡ some session
  pub revoked : session.revoked_at ≡ some t

module _ (id : String) (t : ℕ) where
  -- Another session written under its id, or this one written with the same revocation.
  write-IsRevoked :
      (k : String) (x : AuthSession) (s s' : Storage)
      → s'.sessions ≡ Dict.set k x s.sessions
      → ((k == id) ≡ true → x.revoked_at ≡ some t)
      → IsRevoked id t s
      → IsRevoked id t s'
  write-IsRevoked k x s s' e same r = elim (Bool-cases (k == id)) [
    | inl h ↦ record {
      unique = rw e (set-IsUnique k x s.sessions r.unique);
      session = x;
      found = rw (e, get-set k id x s.sessions, h);
      revoked = same h;
    }
    | inr h ↦ record {
      unique = rw e (set-IsUnique k x s.sessions r.unique);
      session = r.session;
      found = rw (e, get-set k id x s.sessions, h) r.found;
      revoked = r.revoked;
    }
  ]

  -- A sweep that leaves revoked sessions alone.
  sweep-IsRevoked :
      (f : String → AuthSession → Option AuthSession) (s s' : Storage)
      → s'.sessions ≡ (Dict.sweep f s.sessions (s.sessions, 0)).0
      → ((x : AuthSession) → x.revoked_at ≡ some t → f id x ≡ none)
      → IsRevoked id t s
      → IsRevoked id t s'
  sweep-IsRevoked f s s' e leaves r = record {
    unique = rw e (sweep-IsUnique f s.sessions (s.sessions, 0) r.unique);
    session = r.session;
    found = rw (e, get-sweep f id s.sessions 0 r.unique, r.found, leaves r.session r.revoked);
    revoked = r.revoked;
  }

  module _ (s : Storage) (r : IsRevoked id t s) where
    create-IsRevoked :
        (x : AuthSession) → (x.id == id) ≡ false → IsRevoked id t (perform (SessionCall.create x) s)
    unfolding perform create_session
    create-IsRevoked x new =
        elim (Bool-cases (Dict.contains x.session_token_hash s.sessions_by_token_hash)) [
          | inl h ↦ rw h r
          | inr h ↦ rw h (write-IsRevoked x.id x s _ refl (λ p. cc) r)
        ]

    update-IsRevoked : (x : AuthSession) → IsRevoked id t (perform (SessionCall.update x) s)
    unfolding perform update_session merge_session
    update-IsRevoked x = elim (Option-cases (Dict.get x.id s.sessions)) [
      | inl h ↦ rw h r
      | inr (old, h) ↦ rw h (
          write-IsRevoked x.id (merge_session old x) s _ refl
            (λ p. ground (arith, eq_iff x.id id, r.found, r.revoked)) r)
    ]

    change_live-IsRevoked :
        (f : AuthSession → AuthSession) (k : String)
        → IsRevoked id t (change_live f k (Dict.get k s.sessions) s).1
    unfolding change_live
    change_live-IsRevoked f k = elim (Option-cases (Dict.get k s.sessions)) [
      | inl h ↦ rw h r
      | inr (old, h) ↦ elim (Bool-cases (is_none old.revoked_at)) [
        | inl live ↦
            rw (h, live)
              (write-IsRevoked k (f old) s _ refl
                (λ p. ground (arith, eq_iff k id, r.found, r.revoked)) r)
        | inr dead ↦ rw (h, dead) r
      ]
    ]

    revoke-IsRevoked : (k : String) (now : ℕ) → IsRevoked id t (revoke_session k now s)
    unfolding revoke_session
    revoke-IsRevoked k now = elim (Option-cases (Dict.get k s.sessions)) [
      | inl h ↦ rw h r
      | inr (old, h) ↦ elim (Bool-cases (is_none old.revoked_at)) [
        | inl live ↦
            rw (h, live)
              (write-IsRevoked k (record old { revoked_at = some now }) s _ refl
                (λ p. ground (arith, eq_iff k id, r.found, r.revoked)) r)
        | inr dead ↦ rw (h, dead) r
      ]
    ]

  pub perform-IsRevoked :
      (c : SessionCall) (s : Storage)
      → creates id c ≡ false
      → IsRevoked id t s
      → IsRevoked id t (perform c s)
  unfolding perform touch_session set_session_assurance_level revoke_sessions_for_user
      cleanup_sessions
  perform-IsRevoked (SessionCall.create x) s n r = create-IsRevoked s r x n
  perform-IsRevoked (SessionCall.update x) s n r = update-IsRevoked s r x
  perform-IsRevoked (SessionCall.touch k at idle) s n r = change_live-IsRevoked s r _ k
  perform-IsRevoked (SessionCall.assure k level at) s n r = change_live-IsRevoked s r _ k
  perform-IsRevoked (SessionCall.revoke k now) s n r = revoke-IsRevoked s r k now
  perform-IsRevoked (SessionCall.revoke_user uid except now) s n r =
      sweep-IsRevoked (revoke_of_user uid except now) s _ refl
        (λ x e. unfold revoke_of_user in ground arith) r
  perform-IsRevoked (SessionCall.cleanup now) s n r =
      sweep-IsRevoked (revoke_expired now) s _ refl (λ x e. unfold revoke_expired in ground arith) r

-- A revoked session stays revoked, at the time of its revocation, whatever calls on sessions
-- follow, errors included, as long as no call stores a new session under its id.
pub perform_all-IsRevoked :
    (id : String) (t : ℕ) (calls : List SessionCall) (s : Storage)
    → any (creates id) calls ≡ false
    → IsRevoked id t s
    → IsRevoked id t (perform_all calls s)
unfolding perform_all
perform_all-IsRevoked id t [] s n r = r
perform_all-IsRevoked id t (c ∷ calls) s n r =
    perform_all-IsRevoked id t calls (perform c s) (ground arith)
      (perform-IsRevoked id t c s (ground arith) r)

-- The excepted session is no other.
module _ (user_id : String) (except : Option String) (now : ℕ) (id : String) where
  not_excepted :
      (x y : AuthSession)
      → some x ≡ some (swept (revoke_of_user user_id except now) id y)
      → x.user_id ≡ user_id
      → except ≢ some id
      → is_none x.revoked_at ≡ false
  unfolding revoke_of_user
  not_excepted x y p o e = ground (arith, eq_iff y.user_id user_id, eq_iff id (get_or except id), e)

  kept :
      (x : AuthSession)
      → (x.user_id ≢ user_id) ⊎ (except ≡ some id)
      → some (swept (revoke_of_user user_id except now) id x) ≡ some x
  unfolding revoke_of_user
  kept x o = ground (arith, eq_iff x.user_id user_id, eq_iff id (get_or except id))

-- What `revoke_sessions_for_user` does to the sessions of `user_id`.
module _ (user_id : String) (except : Option String) (now : ℕ) (s : Storage)
    (u : IsUnique s.sessions) where
  abbrev after : Storage
  after = (revoke_sessions_for_user user_id except now s).1

  get-after :
      (id : String)
      → Dict.get id after.sessions
        ≡ Option.map (swept (revoke_of_user user_id except now) id) (Dict.get id s.sessions)
  unfolding revoke_sessions_for_user
  get-after id = get-sweep (revoke_of_user user_id except now) id s.sessions 0 u

  -- Afterwards every session of the user but the excepted one is revoked, and the excepted
  -- session and those of other users are as they were.
  pub revoke_sessions_for_user_lem :
      ((id : String) (x : AuthSession)
        → Dict.get id after.sessions ≡ some x
        → x.user_id ≡ user_id
        → except ≢ some id
        → is_none x.revoked_at ≡ false)
      × ((id : String) (x : AuthSession)
          → Dict.get id s.sessions ≡ some x
          → (x.user_id ≢ user_id) ⊎ (except ≡ some id)
          → Dict.get id after.sessions ≡ some x)
  unfolding revoke_of_user
  revoke_sessions_for_user_lem = (
    λ id x h o e. elim (Option-cases (Dict.get id s.sessions)) [
      | inl missing ↦ absurd (
          cc (get-after id, ap (Option.map (swept (revoke_of_user user_id except now) id)) missing))
      | inr (y, found) ↦
          not_excepted user_id except now id x y
            (sym h
              ∙ get-after id
              ∙ ap (Option.map (swept (revoke_of_user user_id except now) id)) found)
            o e
    ],
    λ id x h o.
        get-after id
        ∙ ap (Option.map (swept (revoke_of_user user_id except now) id)) h
        ∙ kept user_id except now id x o,
  )
