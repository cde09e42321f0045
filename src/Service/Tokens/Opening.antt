-- ===== src/Service/Tokens/Opening.antt =====
-- service.py: the flow that a request for the verification of an address opens.
use coreline_auth_module.Common.{
  ℕ, ◌≡◌, refl, sym, ap, ◌∙◌, String, true, ◌&&◌, Option, none, some, [], ◌∷◌, arith, eq_refl,
  get_or, has_text, Bool-cases, inl, inr,
}
use coreline_auth_module.Common.Dict
use coreline_auth_module.Common.Dict.{get-set}
use coreline_auth_module.Errors.{ok, ok-injective}
use coreline_auth_module.Host.{Host}
use coreline_auth_module.Models.{AuthUser, LoginFlow, FlowType, end, MagicLinkChallenge, is_active}
use coreline_auth_module.Security.{hash_secret, normalize_email_address}
use coreline_auth_module.Storage.{Storage, get_user_by_email, create_login_flow, record_audit_event}
use coreline_auth_module.World.Frames.{Frame, bind-Frame, still-Frame, when-Frame, frame-Ensures}
use coreline_auth_module.World.Outcomes.{
  Ensures, bind-Ensures, act-Ensures, require-Ensures, fail_if-Ensures, fact-Ensures,
  return-Ensures, stored-Outcome,
}
use coreline_auth_module.World.Steps.{At, lift-then}
use coreline_auth_module.Service.Config.{Service}
use coreline_auth_module.Service.Support.{normalize_email, send_email_best_effort, metric}
use coreline_auth_module.Service.Support.Frames.{audit-keeps}
use coreline_auth_module.Service.Tokens.{
  request_email_verification, user_by, email_flow, email_hash_field,
}

-- The storage has an active account for the normalised address.
pub record IsAccount (host : Host) (email : String) (s : Storage) (user : AuthUser) : Type 0 where
  pub address : String
  pub normal : normalize_email_address host email ≡ ok address
  pub found : get_user_by_email address s ≡ some user
  pub active : is_active user.status ≡ true

-- The storage has the flow of the challenge, for the user's address and the hash of the token.
pub record IsOpened (host : Host) (user : AuthUser) (c : MagicLinkChallenge) (s : Storage)
    : Type 0 where
  pub of_user : c.flow.email ≡ some user.primary_email
  pub hashed : c.flow.state_hash ≡ some (hash_secret host c.token)
  pub kept : Dict.get c.flow.id s.login_flows ≡ some c.flow

create_login_flow-kept :
    (flow : LoginFlow) (s s' : Storage)
    → create_login_flow flow s ≡ ok s'
    → Dict.get flow.id s'.login_flows ≡ some flow
unfolding create_login_flow
create_login_flow-kept flow s s' e =
    elim (Bool-cases (
      has_text flow.state_hash
      && Dict.contains (get_or flow.state_hash "") s.login_flows_by_state_hash)) [
        | inl there ↦ absurd (ground (arith, there, e))
        | inr new ↦
            ap (λ (x : Storage). Dict.get flow.id x.login_flows)
              (sym (ok-injective _ s' (rw new at e)))
            ∙ rw (get-set flow.id flow.id flow s.login_flows, eq_refl flow.id) refl
      ]

module _ (host : Host) (svc : Service) where
  abbrev flow_at : String → Storage → Option LoginFlow
  flow_at id s = Dict.get id s.login_flows

  send-Frame :
      (id kind address token : String)
      → Frame (flow_at id) (send_email_best_effort host svc kind address token)
  unfolding send_email_best_effort metric
  send-Frame id kind address token = when-Frame svc.has_email_sender (
      bind-Frame (still-Frame (λ w. refl)) (λ _.
        bind-Frame (still-Frame (λ w. refl))
          (λ n. when-Frame _ (when-Frame svc.has_metric_sink (still-Frame (λ w. refl))))))

  pub request-Ensures :
      (email : String) (s : Storage) (n : ℕ)
      → Ensures
          (At s n)
          (request_email_verification host svc none (some email))
          (λ c w. (user : AuthUser) × IsAccount host email s user × IsOpened host user c w.storage)
          (λ _. Unit {0})
  unfolding request_email_verification user_by normalize_email email_flow record_audit_event
  request-Ensures email s n = bind-Ensures {R = λ _. At s n} (act-Ensures (λ w p. p)) (λ u0.
      bind-Ensures
        {R = λ o _.
          (address : String) × (normalize_email_address host email ≡ ok address)
          × (get_user_by_email address s ≡ o)}
        (lift-then (normalize_email_address host email)
          (λ address normal.
            act-Ensures (λ w p. (address, normal, ap (get_user_by_email address) (sym p.0))))
          (λ e h w p. tt))
        (λ o.
          bind-Ensures
            {R = λ user _.
              (address : String) × (normalize_email_address host email ≡ ok address)
              × (get_user_by_email address s ≡ some user)}
            (require-Ensures o _ (λ user e w q. (q.0, q.1, q.2 ∙ e)) (λ e w q. tt))
            (λ user.
              bind-Ensures {R = λ _ _. IsAccount host email s user}
                (fail_if-Ensures _ _
                  (λ on w q. record {
                    address = q.0;
                    normal = q.1;
                    found = q.2;
                    active = ground (arith, on);
                  })
                  (λ on w q. tt))
                (λ u1. bind-Ensures (fact-Ensures (IsAccount host email s user)) (λ u2.
                  bind-Ensures (fact-Ensures (IsAccount host email s user)) (λ u3.
                    bind-Ensures (fact-Ensures (IsAccount host email s user)) (λ token.
                      bind-Ensures (fact-Ensures (IsAccount host email s user)) (λ now.
                        bind-Ensures (fact-Ensures (IsAccount host email s user)) (λ uuid.
                          let flow =
                            email_flow host svc FlowType.email_verification user.primary_email token
                              "/" (("user_id", user.id) ∷ []) now uuid in
                          let P : Option LoginFlow → Type 0 =
                            λ o. IsAccount host email s user × (o ≡ some flow) in
                          bind-Ensures {R = λ _ w. P (flow_at flow.id w.storage)}
                            (act-Ensures (λ w k.
                              stored-Outcome (create_login_flow flow w.storage)
                                (λ x. P (flow_at flow.id x)) w
                                (λ x e. (k, create_login_flow-kept flow w.storage x e))))
                            (λ u4.
                              bind-Ensures
                                (return-Ensures (frame-Ensures P (send-Frame flow.id _ _ _)))
                                (λ u5.
                                  bind-Ensures
                                    (return-Ensures (
                                      frame-Ensures P (
                                        audit-keeps host svc (flow_at flow.id) (λ event x. refl) _ _
                                          _ (email_hash_field host svc user.primary_email end))))
                                    (λ u6. act-Ensures (λ w q. (
                                      user,
                                      q.0,
                                      record { of_user = refl; hashed = refl; kept = q.1 },
                                    ))))))))))))))
