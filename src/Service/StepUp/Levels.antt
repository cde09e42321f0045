-- ===== src/Service/StepUp/Levels.antt =====
-- service.py: what both step-ups share, the check of the session and the raise of its level.
use coreline_auth_module.Common.{
  ℕ, ◌≡◌, refl, ap, String, Option, some, none, arith, is_none, Bool-cases, Option-cases, inl, inr,
}
use coreline_auth_module.Common.Dict
use coreline_auth_module.Host.{Host}
use coreline_auth_module.Models.{AuthSession, AuthAssuranceLevel, Principal, Fields, aal2}
use coreline_auth_module.Storage.{Storage, set_session_assurance_level}
use coreline_auth_module.Storage.Sessions.{change_live}
use coreline_auth_module.World.{World, Action, ◌>>=◌}
use coreline_auth_module.World.Actions.{pure}
use coreline_auth_module.World.Frames.{Frame, frame-Ensures}
use coreline_auth_module.World.Outcomes.{
  Ensures, bind-Ensures, act-Ensures, pre-Ensures, both-Ensures, require-Ensures, fact-Ensures,
  return-Ensures,
}
use coreline_auth_module.World.Steps.{At}
use coreline_auth_module.Service.Config.{Service}
use coreline_auth_module.Service.Support.{audit}
use coreline_auth_module.Service.Sessions.{verify_session}
use coreline_auth_module.Service.Sessions.Verification.{IsGranted, sound-Ensures}
use coreline_auth_module.Service.StepUp.{raise_level}
use coreline_auth_module.Service.StepUp.Frames.{
  Tables, tables_of, verified-tables, audit-tables, raise_level-tables,
}

module _ (host : Host) (svc : Service) (token : String) (s : Storage) (n : ℕ) where
  -- The token let the principal's user pass before the step-up.
  abbrev pub Passed : Principal → Type 0
  Passed p = (found : AuthSession) × IsGranted host svc token none (host.clock n) s found p.user

  assured :
      (id : String) (now : ℕ) (s' : Storage) (x : AuthSession)
      → (set_session_assurance_level id AuthAssuranceLevel.aal2 now s').0 ≡ some x
      → x.assurance_level ≡ aal2
  unfolding set_session_assurance_level change_live
  assured id now s' x e = elim (Option-cases (Dict.get id s'.sessions)) [
    | inl missing ↦ absurd (ground (arith, missing, e))
    | inr (y, found) ↦ elim (Bool-cases (is_none y.revoked_at)) [
      | inl live ↦ ground (arith, found, live, e)
      | inr dead ↦ absurd (ground (arith, found, dead, e))
    ]
  ]

  raise_level-Ensures :
      (p : Principal) (C : Type 0)
      → Ensures
          (λ _. C)
          (raise_level host svc p)
          (λ x _. C × (x.assurance_level ≡ aal2))
          (λ _. Unit {0})
  unfolding raise_level
  raise_level-Ensures p C = bind-Ensures (fact-Ensures C) (λ now.
      bind-Ensures {R = λ o _. C × ((x : AuthSession) → o ≡ some x → x.assurance_level ≡ aal2)}
        (act-Ensures (λ w c. (c, assured p.session.id now w.storage)))
        (λ o. require-Ensures o _ (λ x e w q. (q.0, q.1 x e)) (λ e w q. tt)))

  abbrev pub Raised : Principal → AuthSession → Type 0
  Raised p x = Passed p × (x.assurance_level ≡ aal2)

  abbrev pub OnTables : (Tables → Type 0) → World → Type 0
  OnTables P w = P (tables_of w.storage)

  pub kept {ℓ} :
      {A : Type ℓ} {m : Action A} (P : Tables → Type 0)
      → Frame tables_of m
      → Ensures (OnTables P) m (λ _. OnTables P) (λ _. Unit {0})
  kept P h = return-Ensures (frame-Ensures P h)

  -- The parts that both step-ups share.
  pub entry-Ensures :
      Ensures
        (At s n)
        (verify_session host svc token none)
        (λ p. OnTables (λ t. Passed p × (t ≡ tables_of s)))
        (λ _. Unit {0})
  entry-Ensures = both-Ensures (sound-Ensures host svc token none s n) (
      pre-Ensures (λ w p. ap tables_of p.0)
        (kept (λ t. t ≡ tables_of s) (verified-tables host svc token)))

  pub ending-Ensures :
      (p : Principal) (P : Tables → Type 0) (action : String) (actor target : Option String)
      (metadata : Fields)
      → Ensures
          (λ w. Passed p × OnTables P w)
          (raise_level host svc p >>= λ x. audit host svc action actor target metadata >>= λ _.
            pure (record { user = p.user; session = x }))
          (λ q w.
            (Passed q × (q.session.assurance_level ≡ aal2)) × (q.user ≡ p.user) × OnTables P w)
          (λ _. Unit {0})
  ending-Ensures p P action actor target metadata =
      bind-Ensures {R = λ x w. Raised p x × OnTables P w}
        (both-Ensures (pre-Ensures (λ w q. q.0) (raise_level-Ensures p (Passed p)))
          (pre-Ensures (λ w q. q.1) (kept P (raise_level-tables host svc p))))
        (λ x.
          bind-Ensures
            (kept (λ t. Raised p x × P t) (audit-tables host svc action actor target metadata))
            (λ _. act-Ensures (λ w q. (q.0, refl, q.1))))
