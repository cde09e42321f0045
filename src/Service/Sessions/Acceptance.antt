-- ===== src/Service/Sessions/Acceptance.antt =====
-- service.py: the index of sessions under `verify_session` and `issue_session`, and the acceptance
-- of a token that was issued.
use coreline_auth_module.Common.{
  ℕ, ◌≡◌, refl, sym, ap, ◌∙◌, subst, String, true, false, Option, some, none, arith, is_text,
  Bool-cases, Option-cases, inl, inr, eq_iff,
}
use coreline_auth_module.Common.Dict
use coreline_auth_module.Common.Text.{append-text}
use coreline_auth_module.Common.Dict.{get-set}
use coreline_auth_module.Errors.{Error, ok-injective, Result, ok, raise}
use coreline_auth_module.Host.{Host}
use coreline_auth_module.Models.{
  AuthUser, AuthSession, IssuedSession, Principal, RequestContext, is_active,
}
use coreline_auth_module.Security.{hash_secret}
use coreline_auth_module.Storage.{
  Storage, get_user, get_session_by_token_hash, create_session, touch_session,
}
use coreline_auth_module.Storage.Sessions.{is_expired}
use coreline_auth_module.Storage.Sessions.Index.{IsIndexed, perform-IsIndexed}
use coreline_auth_module.Storage.Sessions.Operations.{SessionCall, perform}
use coreline_auth_module.World.{World, Action, ◌>>=◌}
use coreline_auth_module.World.Outcomes.{
  Outcome, Ensures, bind-Ensures, act-Ensures, require-Ensures, fail_if-Ensures,
}
use coreline_auth_module.Service.Config.{Service}
use coreline_auth_module.Service.Support.{require_user}
use coreline_auth_module.Service.Sessions.{
  verify_session, refresh, should_touch, issue_session, session_for, lacks_permission,
}
use coreline_auth_module.Service.Sessions.Verification.{IsGranted, verify_session_complete}

-- The table of sessions and its index agree.
abbrev pub Indexed : World → Type 0
Indexed w = IsIndexed w.storage

-- An action that keeps the agreement, whether it returns or raises.
abbrev pub KeepsIndexed {ℓ} : {A : Type ℓ} → Action A → Type 0
KeepsIndexed m = Ensures Indexed m (λ _. Indexed) Indexed

module _ (host : Host) (svc : Service) where
  touched :
      (id : String) (now : ℕ) (idle : Option ℕ) (w : World)
      → Indexed w
      → IsIndexed (touch_session id now idle w.storage).1
  unfolding perform
  touched id now idle w v = perform-IsIndexed (SessionCall.touch id now idle) w.storage tt v

  refresh-KeepsIndexed :
      (now : ℕ) (session : AuthSession) → KeepsIndexed (refresh host svc now session)
  unfolding refresh
  refresh-KeepsIndexed now session =
      elim (Bool-cases (should_touch svc.config.session_touch_interval_seconds now session)) [
        | inl h ↦ rw h (
            bind-Ensures {R = λ _. Indexed} (act-Ensures (λ w v. touched session.id now _ w v))
              (λ o. require-Ensures o _ (λ u e w v. v) (λ e w v. v)))
        | inr h ↦ rw h (act-Ensures (λ w v. v))
      ]

  pub verify_session-KeepsIndexed :
      (token : String) (required : Option String)
      → KeepsIndexed (verify_session host svc token required)
  unfolding verify_session require_user
  verify_session-KeepsIndexed token required =
      bind-Ensures {R = λ _. Indexed} (act-Ensures (λ w v. v)) (λ found.
        bind-Ensures {R = λ _. Indexed} (act-Ensures (λ w v. v)) (λ now.
          bind-Ensures {R = λ _. Indexed} (require-Ensures found _ (λ u e w v. v) (λ e w v. v))
            (λ session. bind-Ensures (fail_if-Ensures _ _ (λ e w v. v) (λ e w v. v)) (λ _.
              bind-Ensures (fail_if-Ensures _ _ (λ e w v. v) (λ e w v. v)) (λ _.
                bind-Ensures {R = λ _. Indexed}
                  (bind-Ensures {R = λ _. Indexed} (act-Ensures (λ w v. v))
                    (λ o. require-Ensures o _ (λ u e w v. v) (λ e w v. v)))
                  (λ user. bind-Ensures (fail_if-Ensures _ _ (λ e w v. v) (λ e w v. v)) (λ _.
                    bind-Ensures (fail_if-Ensures _ _ (λ e w v. v) (λ e w v. v)) (λ _.
                      bind-Ensures (refresh-KeepsIndexed now session)
                        (λ _. act-Ensures (λ w v. v))))))))))

any-Outcome {ℓ} :
    {A : Type ℓ} (r : Result A) (w : World) → Outcome (λ _. Indexed) Indexed r w → Indexed w
any-Outcome (ok a) w v = v
any-Outcome (raise e) w v = v

pub KeepsIndexed-after {ℓ} :
    {A : Type ℓ} {m : Action A} → KeepsIndexed m → (w : World) → Indexed w → Indexed (m w).1
KeepsIndexed-after {m = m} k w v = any-Outcome (m w).0 (m w).1 (k.run w v)

-- The session that `issue_session` writes in the world `w`.
abbrev pub next_session :
    Host → Service → AuthUser → Option String → Option RequestContext → World → AuthSession
unfolding session_for
next_session host svc user provider context w =
    session_for host svc user provider context (host.clock w.clock_reads)
      (host.token w.tokens_drawn) (host.uuid w.uuids_drawn)

module _ (host : Host) (svc : Service) (user : AuthUser) (provider : Option String)
    (context : Option RequestContext) (w w' : World) (issued : IssuedSession)
    (e : issue_session host svc user provider context w ≡ (ok issued, w')) where
  abbrev next : AuthSession
  unfolding next_session
  next = next_session host svc user provider context w

  abbrev with_next : Storage
  unfolding next
  with_next = record w.storage {
    sessions = Dict.set next.id next w.storage.sessions;
    sessions_by_token_hash =
        Dict.set next.session_token_hash next.id w.storage.sessions_by_token_hash;
  }

  -- What was written and returned.
  issued_lem :
      (issued.session ≡ next)
      × (issued.token ≡ host.token w.tokens_drawn)
      × (Dict.get next.session_token_hash w.storage.sessions_by_token_hash ≡ none)
      × (w'.storage ≡ with_next)
  unfolding issue_session create_session ◌>>=◌
  issued_lem =
      elim (Option-cases (Dict.get next.session_token_hash w.storage.sessions_by_token_hash)) [
        | inl h ↦
            let q = rw h at e in
            let r = ok-injective _ issued (ap (λ z. z.0) q) in
            (
              sym (ap (λ z. z.session) r),
              sym (ap (λ z. z.token) r),
              h,
              sym (ap (λ z. z.1.storage) q),
            )
        | inr (k, h) ↦ absurd (refused (rw h at e))
      ]
    where
      refused :
          {x : Error} {v : World}
          → ◌≡◌ {A = Result IssuedSession × World} (raise x, v) (ok issued, w')
          → ⊥
      refused q = ground (arith, ap (λ z. z.0) q)

  id-text : is_text next.id ≡ true
  unfolding next session_for
  id-text = append-text "sess_" (host.uuid w.uuids_drawn) refl

  next-stored : get_session_by_token_hash next.session_token_hash with_next ≡ some next
  unfolding get_session_by_token_hash with_next
  next-stored = ground (
    arith,
    id-text,
    get-set next.session_token_hash next.session_token_hash next.id
        w.storage.sessions_by_token_hash,
    get-set next.id next.id next w.storage.sessions,
    eq_iff next.session_token_hash next.session_token_hash,
    eq_iff next.id next.id,
  )

  with_next-IsIndexed :
      IsIndexed w.storage → Dict.get next.id w.storage.sessions ≡ none → IsIndexed w'.storage
  unfolding perform create_session session_for
  with_next-IsIndexed v fresh =
      let (_, _, unused, same) = issued_lem in
      subst IsIndexed (rw unused (sym same))
        (perform-IsIndexed (SessionCall.create next) w.storage (fresh, id-text) v)

-- A token that `issue_session` has returned is accepted: where the table of sessions and its index
-- agreed, the drawn id was not in use, and the user is in the table and active, `verify_session`
-- returns the user and the issued session's id, in the world that `issue_session` leaves, as long as
-- the clock shows a time before the session's limits, and for every permission that the session has.
pub verify_session-issue_session :
    (host : Host) (svc : Service) (user : AuthUser) (provider : Option String)
    (context : Option RequestContext) (required : Option String) (w w' : World)
    (issued : IssuedSession)
    → IsIndexed w.storage
    → Dict.get (next_session host svc user provider context w).id w.storage.sessions ≡ none
    → get_user user.id w.storage ≡ some user
    → is_active user.status ≡ true
    → issue_session host svc user provider context w ≡ (ok issued, w')
    → is_expired (host.clock w'.clock_reads) issued.session ≡ false
    → lacks_permission host svc required issued.session ≡ false
    → (p : Principal) × ((verify_session host svc issued.token required w').0 ≡ ok p)
      × (p.user ≡ user)
      × (p.session.id ≡ issued.session.id)
unfolding get_user session_for hash_secret next with_next
verify_session-issue_session host svc user provider context required w w' issued v fresh known
      active e current permitted =
    let (session, token, _, same) = issued_lem host svc user provider context w w' issued e in
    let granted : IsGranted host svc issued.token required (host.clock w'.clock_reads) w'.storage
        issued.session user =
      record {
        stored =
            ap (λ t. get_session_by_token_hash (hash_secret host t) w'.storage) token
            ∙ ap (get_session_by_token_hash _) same
            ∙ next-stored host svc user provider context w w' issued e
            ∙ ap some (sym session);
        live = ap (λ x. x.revoked_at) session;
        current = current;
        known =
            ap (λ x. get_user x.user_id w'.storage) session ∙ ap (get_user user.id) same ∙ known;
        active = active;
        permitted = permitted;
      } in
    let (p, ok_p, is_user, is_id, _, _, _) =
      verify_session_complete host svc issued.token required w' issued.session user
        (with_next-IsIndexed host svc user provider context w w' issued e v fresh) granted in
    (p, ok_p, is_user, is_id)
