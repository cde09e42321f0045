-- ===== src/Service/Login/Handing.antt =====
-- service.py: the session that a login hands out.
use coreline_auth_module.Common.{
  ◌≡◌, refl, sym, ap, ◌∙◌, String, true, Option, some, arith, eq_refl, Bool-cases, is_text, inl,
  inr,
}
use coreline_auth_module.Common.Dict
use coreline_auth_module.Common.Text.{append-text}
use coreline_auth_module.Common.Dict.{get-set}
use coreline_auth_module.Errors.{Result, ok, raise, ok-injective}
use coreline_auth_module.Host.{Host}
use coreline_auth_module.Models.{AuthUser, AuthSession, IssuedSession, RequestContext, Fields}
use coreline_auth_module.Security.{hash_secret}
use coreline_auth_module.Storage.{
  Storage, create_session, get_session_by_token_hash, update_user, record_audit_event,
}
use coreline_auth_module.World.{World, ◌>>=◌}
use coreline_auth_module.World.Actions.{stored, pure}
use coreline_auth_module.World.Frames.{Frame, bind-Frame, still-Frame, frame-Ensures}
use coreline_auth_module.World.Outcomes.{
  Ensures, stored-Outcome, bind-Ensures, act-Ensures, fact-Ensures, return-Ensures,
}
use coreline_auth_module.Service.Config.{Service}
use coreline_auth_module.Service.Support.{record_login, audit}
use coreline_auth_module.Service.Support.Frames.{audit-keeps}
use coreline_auth_module.Service.Sessions.{issue_session, session_for}

-- The session is the user's, and the storage has it under the hash of the token that is handed out.
pub record IsOwn (host : Host) (user : AuthUser) (issued : IssuedSession) (s : Storage)
    : Type 0 where
  pub owner : issued.session.user_id ≡ user.id
  pub hashed : issued.session.session_token_hash ≡ hash_secret host issued.token
  pub kept : get_session_by_token_hash (hash_secret host issued.token) s ≡ some issued.session

create_session-found :
    (x : AuthSession) (s s' : Storage)
    → is_text x.id ≡ true
    → create_session x s ≡ ok s'
    → get_session_by_token_hash x.session_token_hash s' ≡ some x
unfolding create_session get_session_by_token_hash
create_session-found x s s' named e =
    elim (Bool-cases (Dict.contains x.session_token_hash s.sessions_by_token_hash)) [
      | inl there ↦ absurd (ground (arith, there, e))
      | inr new ↦
          let same = ok-injective _ s' (rw new at e) in
          ap (get_session_by_token_hash x.session_token_hash) (sym same)
          ∙ rw
              (
                get-set x.session_token_hash x.session_token_hash x.id s.sessions_by_token_hash,
                eq_refl x.session_token_hash,
                named,
                get-set x.id x.id x s.sessions,
                eq_refl x.id,
              )
              refl
    ]

update_user-kept :
    (h : String) (user : AuthUser) (s s' : Storage)
    → update_user user s ≡ ok s'
    → get_session_by_token_hash h s' ≡ get_session_by_token_hash h s
unfolding update_user get_session_by_token_hash
update_user-kept h user s s' e = elim (Bool-cases (Dict.contains user.id s.users)) [
  | inl there ↦ ap (get_session_by_token_hash h) (sym (ok-injective _ s' (rw there at e)))
  | inr new ↦ absurd (ground (arith, new, e))
]

stored-same :
    {C : Type 0} (view : Storage → C) (r : Result Storage) (w : World)
    → ((s : Storage) → r ≡ ok s → view s ≡ view w.storage)
    → view (stored r w).1.storage ≡ view w.storage
stored-same view (ok s) w k = k s refl
stored-same view (raise e) w k = refl

module _ (host : Host) (svc : Service) (user : AuthUser) where
  record_login-Frame :
      (h : String) → Frame (get_session_by_token_hash h) (record_login host svc user)
  unfolding record_login
  record_login-Frame h = bind-Frame (still-Frame (λ w. refl)) (λ at.
      bind-Frame (still-Frame (λ w. refl)) (λ now.
        still-Frame
          (λ w. stored-same (get_session_by_token_hash h) _ w (update_user-kept h _ w.storage))))

  abbrev Handed : Type 0 → IssuedSession → Option AuthSession → Type 0
  Handed C i o =
      C
      × (i.session.user_id ≡ user.id)
      × (i.session.session_token_hash ≡ hash_secret host i.token)
      × (o ≡ some i.session)

  issue_session-Ensures :
      (provider : Option String) (context : Option RequestContext) (C : Type 0)
      → Ensures
          (λ _. C)
          (issue_session host svc user provider context)
          (λ i w. Handed C i (get_session_by_token_hash (hash_secret host i.token) w.storage))
          (λ _. Unit {0})
  unfolding issue_session session_for
  issue_session-Ensures provider context C = bind-Ensures (fact-Ensures C) (λ now.
      bind-Ensures (fact-Ensures C) (λ token. bind-Ensures (fact-Ensures C) (λ uuid.
        let x = session_for host svc user provider context now token uuid in
        bind-Ensures
          {R = λ _ w. C × (get_session_by_token_hash (hash_secret host token) w.storage ≡ some x)}
          (act-Ensures (λ w c.
            stored-Outcome (create_session x w.storage)
              (λ s. C × (get_session_by_token_hash (hash_secret host token) s ≡ some x)) w
              (λ s e. (c, create_session-found x w.storage s (append-text "sess_" uuid refl) e))))
          (λ _. act-Ensures (λ w q. (q.0, refl, refl, q.1))))))

  -- The end of a login: the session is issued, and is still there when the login returns.
  pub handing-Ensures :
      (provider : Option String) (context : Option RequestContext) (action : String)
      (actor target : Option String) (metadata : Fields) (C : Type 0)
      → Ensures
          (λ _. C)
          (issue_session host svc user provider context >>= λ i. record_login host svc user >>= λ _.
            audit host svc action actor target metadata >>= λ _. pure i)
          (λ i w. C × IsOwn host user i w.storage)
          (λ _. Unit {0})
  unfolding record_audit_event get_session_by_token_hash
  handing-Ensures provider context action actor target metadata C =
      bind-Ensures (issue_session-Ensures provider context C) (λ i.
        let h = hash_secret host i.token in
        bind-Ensures (return-Ensures (frame-Ensures (Handed C i) (record_login-Frame h))) (λ _.
          bind-Ensures
            (return-Ensures (
              frame-Ensures (Handed C i) (
                audit-keeps host svc (get_session_by_token_hash h) (λ event s. refl) action actor
                  target metadata)))
            (λ _. act-Ensures (λ w q. (q.0, record { owner = q.1; hashed = q.2; kept = q.3 })))))
