-- ===== src/Service/Login/Passwords.antt =====
-- service.py: what a login by password has checked when it returns.
use coreline_auth_module.Common.{
  ℕ, ◌≡◌, refl, sym, ap, ◌∙◌, String, true, not, Option, some, none, arith, is_text, Bool-cases,
  inl, inr,
}
use coreline_auth_module.Errors.{Result, ok, raise}
use coreline_auth_module.Host.{Host}
use coreline_auth_module.Models.{
  AuthUser, AuthCredential, IssuedSession, RequestContext, end, is_active, is_single_owner,
}
use coreline_auth_module.RateLimit.{RateLimitDecision, Limiter}
use coreline_auth_module.Security.{normalize_email_address, verify_password}
use coreline_auth_module.Storage.{Storage, get_user_by_email, get_password_credential}
use coreline_auth_module.World.{World, Action, ◌>>=◌}
use coreline_auth_module.World.Outcomes.{
  Outcome, Ensures, bind-Ensures, act-Ensures, pre-Ensures, post-Ensures, when-Ensures,
  fail_if-Ensures, trivial-Ensures, returned,
}
use coreline_auth_module.World.Steps.{At, lift-then, query-then}
use coreline_auth_module.Service.Config.{Service}
use coreline_auth_module.Service.Support.{
  check_rate_limit, check_limiter, limited, metric, enforce_profile_login, assert_owner_email,
  normalize_email,
}
use coreline_auth_module.Service.Login.Handing.{IsOwn, handing-Ensures}
use coreline_auth_module.Service.Login.{
  login_password, reject_login, require_active, check_password, hash_of,
}

-- The storage has an active user for the address, with a password hash that verifies.
pub record IsKnown (host : Host) (email password : String) (s : Storage) (user : AuthUser)
    : Type 0 where
  pub address : String
  pub normal : normalize_email_address host email ≡ ok address
  pub found : get_user_by_email address s ≡ some user
  pub active : is_active user.status ≡ true
  pub credential : AuthCredential
  pub stored : get_password_credential user.id s ≡ some credential
  pub hash : String
  pub hashed : credential.password_hash ≡ some hash
  pub verified : verify_password host hash password ≡ true

module _ (host : Host) (svc : Service) where
  metric-At :
      (name : String) (s : Storage) (n : ℕ)
      → Ensures (At s n) (metric host svc name) (λ _. At s n) (λ _. Unit {0})
  unfolding metric
  metric-At name s n = when-Ensures svc.has_metric_sink (λ h. act-Ensures (λ w p. p)) (λ h w p. p)

  limited-At :
      (r : Result (RateLimitDecision × Limiter)) (s : Storage) (n : ℕ) (w : World)
      → At s n w
      → Outcome (λ _. At s n) (λ _. Unit {0}) (limited r w).0 (limited r w).1
  unfolding limited
  limited-At (ok (d, l)) s n w p = p
  limited-At (raise e) s n w p = tt

  check_rate_limit-At :
      (key : String) (limit : ℕ) (s : Storage) (n : ℕ)
      → Ensures (At s n) (check_rate_limit host svc key limit) (λ _. At s n) (λ _. Unit {0})
  unfolding check_rate_limit check_limiter
  check_rate_limit-At key limit s n =
      bind-Ensures {R = λ _. At s n} (act-Ensures (λ w p. p)) (λ now.
        bind-Ensures {R = λ _. At s n} (act-Ensures (λ w p. limited-At _ s n w p)) (λ d.
          when-Ensures (not d.allowed)
            (λ h. bind-Ensures (metric-At "auth.rate_limited" s n) (λ _. act-Ensures (λ w p. tt)))
            (λ h w p. p)))

  enforce-At :
      (user : AuthUser) (s : Storage) (n : ℕ)
      → Ensures (At s n) (enforce_profile_login host svc user) (λ _. At s n) (λ _. Unit {0})
  unfolding enforce_profile_login assert_owner_email
  enforce-At user s n =
      bind-Ensures
        (when-Ensures (is_single_owner svc.config.profile)
          (λ h. fail_if-Ensures _ _ (λ b w p. p) (λ b w p. tt)) (λ h w p. p))
        (λ _. fail_if-Ensures _ _ (λ b w p. p) (λ b w p. tt))

  reject-Ensures {ℓ} :
      {A : Type ℓ} {P : World → Type 0} {Q : A → World → Type 0} (target : Option String)
      (reason : String)
      → Ensures P (reject_login host svc target reason) Q (λ _. Unit {0})
  unfolding reject_login
  reject-Ensures target reason = bind-Ensures trivial-Ensures (λ _. act-Ensures (λ w p. tt))

  -- The conditions of the checks that go by the storage.
  require_active-then {ℓ} :
      {B : Type ℓ} {P : World → Type 0} {Q : B → World → Type 0} {f : AuthUser → Action B}
      (found : Option AuthUser)
      → ((u : AuthUser)
          → found ≡ some u
          → is_active u.status ≡ true
          → Ensures P (f u) Q (λ _. Unit {0}))
      → Ensures P (require_active host svc found >>= f) Q (λ _. Unit {0})
  unfolding require_active
  require_active-then none k =
      bind-Ensures {R = λ _ _. ⊥} (reject-Ensures none _) (λ u. act-Ensures (λ w p. absurd p))
  require_active-then {P = P} (some u) k = elim (Bool-cases (is_active u.status)) [
    | inl h ↦ rw h (
        bind-Ensures {R = λ x w. (x ≡ u) × P w} (act-Ensures (λ w p. (refl, p))) (λ x. record {
          run = λ w p. (k x (ap some (sym p.0)) (ap (λ y. is_active y.status) p.0 ∙ h)).run w p.1;
        }))
    | inr h ↦
        rw h
          (bind-Ensures {R = λ _ _. ⊥} (reject-Ensures none _) (λ x. act-Ensures (λ w p. absurd p)))
  ]

  check_password-Ensures :
      (user : AuthUser) (password : String) (found : Option String) (P : World → Type 0)
      → Ensures P
          (check_password host svc user password found)
          (λ _ w.
            (hash : String) × (found ≡ some hash) × (verify_password host hash password ≡ true))
          (λ _. Unit {0})
  unfolding check_password
  check_password-Ensures user password none P = reject-Ensures _ _
  check_password-Ensures user password (some hash) P = elim (Bool-cases (is_text hash)) [
    | inl t ↦ elim (Bool-cases (verify_password host hash password)) [
      | inl v ↦ rw (t, v) (act-Ensures (λ w p. (hash, refl, v)))
      | inr v ↦ rw (t, v) (reject-Ensures _ _)
    ]
    | inr t ↦ rw t (reject-Ensures _ _)
  ]

  credential_of :
      (o : Option AuthCredential) (hash : String)
      → hash_of host svc o ≡ some hash
      → (c : AuthCredential) × (o ≡ some c) × (c.password_hash ≡ some hash)
  credential_of none hash e = absurd (ground (arith, e))
  credential_of (some c) hash e = (c, refl, e)

  login_password-Ensures :
      (email password : String) (context : Option RequestContext) (s : Storage) (n : ℕ)
      → Ensures
          (At s n)
          (login_password host svc email password context)
          (λ i w.
            (user : AuthUser) × IsKnown host email password s user × IsOwn host user i w.storage)
          (λ _. Unit {0})
  unfolding login_password normalize_email
  login_password-Ensures email password context s n =
      lift-then (normalize_email_address host email)
        (λ address normal. bind-Ensures (check_rate_limit-At _ _ s n) (λ _.
          query-then (get_user_by_email address) (λ o found. require_active-then o (λ user e active.
            bind-Ensures (enforce-At user s n) (λ _.
              query-then (get_password_credential user.id) (λ c stored.
                bind-Ensures (check_password-Ensures user password (hash_of host svc c) (At s n))
                  (λ _.
                    pre-Ensures
                      (λ w p.
                        let (credential, at, hashed) = credential_of c p.0 p.1 in
                        let k : IsKnown host email password s user = record {
                          address = address;
                          normal = normal;
                          found = found ∙ e;
                          active = active;
                          credential = credential;
                          stored = stored ∙ at;
                          hash = p.0;
                          hashed = hashed;
                          verified = p.2;
                        } in
                        k)
                      (post-Ensures
                        (handing-Ensures host svc user (some "email") context _ _ _ end
                          (IsKnown host email password s user))
                        (λ i w q. (user, q.0, q.1))))))))))
        (λ e h w p. tt)

-- What a login that returns has checked, and the session that it hands out.
pub login_password-IsOwn :
    (host : Host) (svc : Service) (email password : String) (context : Option RequestContext)
    (w w' : World) (issued : IssuedSession)
    → login_password host svc email password context w ≡ (ok issued, w')
    → (user : AuthUser) × IsKnown host email password w.storage user
      × IsOwn host user issued w'.storage
login_password-IsOwn host svc email password context w w' issued e =
    returned (login_password-Ensures host svc email password context w.storage w.clock_reads) w
      issued w' (refl, refl) e

-- When `login_password` returns a session, the e-mail is a valid one, the storage has an active
-- user for the normalised address, whose password credential has a hash that verifies the password,
-- and the session is that user's.
pub login_password_sound :
    (host : Host) (svc : Service) (email password : String) (context : Option RequestContext)
    (w w' : World) (issued : IssuedSession)
    → login_password host svc email password context w ≡ (ok issued, w')
    → (user : AuthUser) × IsKnown host email password w.storage user
      × (issued.session.user_id ≡ user.id)
login_password_sound host svc email password context w w' issued e =
    let (user, known, own) = login_password-IsOwn host svc email password context w w' issued e in
    (user, known, own.owner)
