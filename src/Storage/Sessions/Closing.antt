-- ===== src/Storage/Sessions/Closing.antt =====
-- memory.py: a token whose session is revoked names a revoked session.
use coreline_auth_module.Common.{
  ℕ, String, ◌≡◌, refl, true, false, some, none, arith, is_none, inl, inr, Bool-cases, Option-cases,
  eq_refl, sym, ap, ◌∙◌, is_text,
}
use coreline_auth_module.Common.Dict
use coreline_auth_module.Common.Dict.{get-set}
use coreline_auth_module.Models.{AuthSession}
use coreline_auth_module.Storage.State.{Storage}
use coreline_auth_module.Storage.Sessions.{get_session_by_token_hash, revoke_session, revoke_found}
use coreline_auth_module.Storage.Sessions.Index.{IsIndexed}

revoke_found-closes :
    (id : String) (now : ℕ) (s : Storage) (x y : AuthSession)
    → Dict.get id s.sessions ≡ some x
    → Dict.get id (revoke_found id now (some x) s).sessions ≡ some y
    → is_none y.revoked_at ≡ false
unfolding revoke_found
revoke_found-closes id now s x y at e = elim (Bool-cases (is_none x.revoked_at)) [
  | inl live ↦
      ground
        (arith, live, e, eq_refl id, get-set id id (record x { revoked_at = some now }) s.sessions)
  | inr out ↦ ground (arith, out, at, e)
]

revoke_found-index :
    (id : String) (now : ℕ) (s : Storage) (x : AuthSession)
    → (revoke_found id now (some x) s).sessions_by_token_hash ≡ s.sessions_by_token_hash
unfolding revoke_found
revoke_found-index id now s x = elim (Bool-cases (is_none x.revoked_at)) [
  | inl live ↦ rw live refl
  | inr out ↦ rw out refl
]

-- What an index that names an id resolves to.
named_session :
    (h k : String) (s : Storage)
    → Dict.get h s.sessions_by_token_hash ≡ some k
    → is_text k ≡ true
    → get_session_by_token_hash h s ≡ Dict.get k s.sessions
unfolding get_session_by_token_hash
named_session h k s named text = rw (named, text) refl

-- The session's id is the one that the token's hash names.
found_id :
    (h k : String) (s : Storage) (x : AuthSession)
    → IsIndexed s
    → Dict.get h s.sessions_by_token_hash ≡ some k
    → get_session_by_token_hash h s ≡ some x
    → (x.id ≡ k) × (is_text k ≡ true) × (Dict.get k s.sessions ≡ some x)
found_id h k s x v named e =
    let (x', at, _) = v.sound h k named in
    let text = (v.keyed k x' at).1 in
    let at_k = sym (named_session h k s named text) ∙ e in ((v.keyed k x at_k).0, text, at_k)

revoke_session-found :
    (id : String) (now : ℕ) (s : Storage) (x : AuthSession)
    → Dict.get id s.sessions ≡ some x
    → revoke_session id now s ≡ revoke_found id now (some x) s
unfolding revoke_session
revoke_session-found id now s x at = rw at refl

unnamed :
    (h : String) (s : Storage) (x : AuthSession)
    → Dict.get h s.sessions_by_token_hash ≡ none
    → get_session_by_token_hash h s ≡ some x
    → ⊥
unfolding get_session_by_token_hash
unnamed h s x missing e = ground (arith, missing, e)

revoke_named-closes :
    (h k : String) (now : ℕ) (s : Storage) (x y : AuthSession)
    → is_text k ≡ true
    → Dict.get h s.sessions_by_token_hash ≡ some k
    → Dict.get k s.sessions ≡ some x
    → get_session_by_token_hash h (revoke_session k now s) ≡ some y
    → is_none y.revoked_at ≡ false
revoke_named-closes h k now s x y text named at e =
    let same = revoke_session-found k now s x at in
    let after = revoke_found k now (some x) s in
    let index = ap (Dict.get h) (revoke_found-index k now s x) ∙ named in
    revoke_found-closes k now s x y at
      (sym (named_session h k after index text) ∙ ap (get_session_by_token_hash h) (sym same) ∙ e)

-- Revoking the session that a token names leaves the token naming a revoked session.
pub revoke_session-closes :
    (h : String) (now : ℕ) (s : Storage) (x y : AuthSession)
    → IsIndexed s
    → get_session_by_token_hash h s ≡ some x
    → get_session_by_token_hash h (revoke_session x.id now s) ≡ some y
    → is_none y.revoked_at ≡ false
revoke_session-closes h now s x y v e e' =
    elim (Option-cases (Dict.get h s.sessions_by_token_hash)) [
      | inl missing ↦ absurd (unnamed h s x missing e)
      | inr (k, named) ↦
          let (same, text, at) = found_id h k s x v named e in
          revoke_named-closes h k now s x y text named at (rw (sym same) e')
    ]
