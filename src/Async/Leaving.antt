-- ===== src/Async/Leaving.antt =====
-- service.py and async_service.py: the actions that leave the sessions as they are.
use coreline_auth_module.Common.{
  ◌∙◌, ℕ, ◌≤◌, ◌≡◌, refl, String, Bool, not, true, false, Option, some, none, arith,
}
use coreline_auth_module.Errors.{or_same, Error, Result, ok, raise}
use coreline_auth_module.Host.{Host}
use coreline_auth_module.Models.{
  AuthCredential, AuthIdentity, LoginFlow, AuthUser, FlowType, Fields,
}
use coreline_auth_module.RateLimit.{RateLimitDecision, Limiter, check}
use coreline_auth_module.Storage.{
  Storage, record_audit_event, create_user, update_user, upsert_identity, upsert_credential,
  create_login_flow,
}
use coreline_auth_module.Storage.Flows.Frames.{consume-sessions}
use coreline_auth_module.World.{World, Action, Email, and_then, ◌>>=◌}
use coreline_auth_module.World.Actions.{
  pure, fail, lift, query, require, change, fail_if, when, write, stored, try_write, send,
  count_metric, now_utc, read_monotonic, generate_token, draw_uuid, draw_salt,
}
use coreline_auth_module.Service.Support.{
  limited, check_limiter, audit, metric, send_email_best_effort,
}
use coreline_auth_module.Service.Tokens.{consume_email_flow}
use coreline_auth_module.Security.{hash_secret}
use coreline_auth_module.Service.Config.{Service}
use coreline_auth_module.Service.Accounts.{new_credential}

-- An action that leaves the sessions as they are, and draws no ids back.
pub record Leaves {ℓ} {A : Type ℓ} (m : Action A) : Type 0 where
  pub sessions : (w : World) → (m w).1.storage.sessions ≡ w.storage.sessions
  pub draws : (w : World) → w.uuids_drawn ≤ (m w).1.uuids_drawn

module _ {ℓ κ} {A : Type ℓ} {B : Type κ} where
  and_then-sessions :
      (r : Result A) (f : A → Action B) (w : World)
      → ((a : A) → Leaves (f a))
      → ((and_then r f w).1.storage.sessions ≡ w.storage.sessions)
        × (w.uuids_drawn ≤ (and_then r f w).1.uuids_drawn)
  and_then-sessions (ok a) f w h = ((h a).sessions w, (h a).draws w)
  and_then-sessions (raise e) f w h = (refl, omega arith)

  pub bind-Leaves :
      (m : Action A) (f : A → Action B) → Leaves m → ((a : A) → Leaves (f a)) → Leaves (m >>= f)
  unfolding ◌>>=◌
  bind-Leaves m f h k = record {
    sessions = λ w. (and_then-sessions (m w).0 f (m w).1 k).0 ∙ h.sessions w;
    draws = λ w. ground (arith, (and_then-sessions (m w).0 f (m w).1 k).1, h.draws w);
  }

module _ {ℓ} {A : Type ℓ} where
  pub pure-Leaves : (a : A) → Leaves (pure a)
  pure-Leaves a = record { sessions = λ w. refl; draws = λ w. omega arith }

  pub fail-Leaves : (e : Error) → Leaves {A = A} (fail e)
  fail-Leaves e = record { sessions = λ w. refl; draws = λ w. omega arith }

  pub lift-Leaves : (r : Result A) → Leaves (lift r)
  lift-Leaves r = record { sessions = λ w. refl; draws = λ w. omega arith }

  pub query-Leaves : (f : Storage → A) → Leaves (query f)
  query-Leaves f = record { sessions = λ w. refl; draws = λ w. omega arith }

  pub require-Leaves : (o : Option A) (e : Error) → Leaves (require o e)
  require-Leaves none e = record { sessions = λ w. refl; draws = λ w. omega arith }
  require-Leaves (some a) e = record { sessions = λ w. refl; draws = λ w. omega arith }

  pub change-Leaves :
      (f : Storage → A × Storage)
      → ((s : Storage) → (f s).1.sessions ≡ s.sessions)
      → Leaves (change f)
  change-Leaves f h = record { sessions = λ w. h w.storage; draws = λ w. omega arith }

pub fail_if-Leaves : (b : Bool) (e : Error) → Leaves (fail_if b e)
fail_if-Leaves true e = fail-Leaves e
fail_if-Leaves false e = pure-Leaves tt

pub when-Leaves : (b : Bool) (m : Action (Unit {0})) → Leaves m → Leaves (when b m)
when-Leaves true m h = h
when-Leaves false m h = pure-Leaves tt

pub write-Leaves :
    (f : Storage → Storage) → ((s : Storage) → (f s).sessions ≡ s.sessions) → Leaves (write f)
write-Leaves f h = record { sessions = λ w. h w.storage; draws = λ w. omega arith }

stored-sessions :
    (r : Result Storage) (w : World)
    → (or_same r w.storage).sessions ≡ w.storage.sessions
    → ((stored r w).1.storage.sessions ≡ w.storage.sessions)
      × (w.uuids_drawn ≤ (stored r w).1.uuids_drawn)
stored-sessions (ok s) w h = (h, omega arith)
stored-sessions (raise e) w h = (refl, omega arith)

pub try_write-Leaves :
    (f : Storage → Result Storage)
    → ((s : Storage) → (or_same (f s) s).sessions ≡ s.sessions)
    → Leaves (try_write f)
try_write-Leaves f h = record {
  sessions = λ w. (stored-sessions (f w.storage) w (h w.storage)).0;
  draws = λ w. (stored-sessions (f w.storage) w (h w.storage)).1;
}

limited-sessions :
    (r : Result (RateLimitDecision × Limiter)) (w : World)
    → ((limited r w).1.storage.sessions ≡ w.storage.sessions)
      × (w.uuids_drawn ≤ (limited r w).1.uuids_drawn)
unfolding limited
limited-sessions (ok d) w = (refl, omega arith)
limited-sessions (raise e) w = (refl, omega arith)

pub check_limiter-Leaves : (key : String) (limit now : ℕ) → Leaves (check_limiter key limit now)
unfolding check_limiter
check_limiter-Leaves key limit now = record {
  sessions = λ w. (limited-sessions (check key limit 60 now w.limiter) w).0;
  draws = λ w. (limited-sessions (check key limit 60 now w.limiter) w).1;
}

pub send-Leaves : (email : Email) → Leaves (send email)
send-Leaves email = record { sessions = λ w. refl; draws = λ w. omega arith }

pub count_metric-Leaves : (name : String) → Leaves (count_metric name)
count_metric-Leaves name = record { sessions = λ w. refl; draws = λ w. omega arith }

module _ (host : Host) where
  pub now_utc-Leaves : Leaves (now_utc host)
  now_utc-Leaves = record { sessions = λ w. refl; draws = λ w. omega arith }

  pub read_monotonic-Leaves : Leaves (read_monotonic host)
  read_monotonic-Leaves = record { sessions = λ w. refl; draws = λ w. omega arith }

  pub generate_token-Leaves : Leaves (generate_token host)
  generate_token-Leaves = record { sessions = λ w. refl; draws = λ w. omega arith }

  pub draw_uuid-Leaves : Leaves (draw_uuid host)
  draw_uuid-Leaves = record { sessions = λ w. refl; draws = λ w. omega arith }

  pub draw_salt-Leaves : Leaves (draw_salt host)
  draw_salt-Leaves = record { sessions = λ w. refl; draws = λ w. omega arith }

pub ruleset leaving = (
  bind-Leaves, pure-Leaves, fail-Leaves, lift-Leaves, query-Leaves, require-Leaves, fail_if-Leaves,
  when-Leaves, send-Leaves, count_metric-Leaves, now_utc-Leaves, read_monotonic-Leaves,
  generate_token-Leaves, draw_uuid-Leaves, draw_salt-Leaves, check_limiter-Leaves,
)

module _ (host : Host) (svc : Service) where
  pub audit-Leaves :
      (action : String) (actor target : Option String) (metadata : Fields)
      → Leaves (audit host svc action actor target metadata)
  unfolding audit record_audit_event
  audit-Leaves action actor target metadata =
      bind-Leaves _ _ (now_utc-Leaves host) (λ now. write-Leaves _ (λ s. refl))

  pub new_credential-Leaves :
      (user_id password : String) (existing : Option AuthCredential)
      → Leaves (new_credential host svc user_id password existing)
  unfolding new_credential
  new_credential-Leaves user_id password none = search leaving depth 12
  new_credential-Leaves user_id password (some existing) = search leaving depth 12

  pub send_email-Leaves :
      (kind address token : String) → Leaves (send_email_best_effort host svc kind address token)
  unfolding send_email_best_effort metric
  send_email-Leaves kind address token = when-Leaves svc.has_email_sender _ (
      bind-Leaves _ _ (send-Leaves _) (λ _. bind-Leaves _ _ (lengths _) (λ attempts.
        when-Leaves (not (host.delivers attempts)) _
          (when-Leaves svc.has_metric_sink _ (count_metric-Leaves _)))))
    where
      lengths : (f : World → ℕ) → Leaves (λ w. (ok (f w), w))
      lengths f = record { sessions = λ w. refl; draws = λ w. omega arith }

  pub consume_email_flow-Leaves :
      (token : String) (flow_type : FlowType) (now : ℕ)
      → Leaves (consume_email_flow host svc token flow_type now)
  unfolding consume_email_flow
  consume_email_flow-Leaves token flow_type now =
      change-Leaves _ (consume-sessions (hash_secret host token) flow_type (some "email") now)

-- The methods of the storage that write other tables.
pub create_user-Leaves : (user : AuthUser) → Leaves (try_write (create_user user))
unfolding create_user
create_user-Leaves user = try_write-Leaves _ (λ s. ground arith)

pub update_user-Leaves : (user : AuthUser) → Leaves (try_write (update_user user))
unfolding update_user
update_user-Leaves user = try_write-Leaves _ (λ s. ground arith)

pub upsert_identity-Leaves : (identity : AuthIdentity) → Leaves (write (upsert_identity identity))
unfolding upsert_identity
upsert_identity-Leaves identity = write-Leaves _ (λ s. ground arith)

pub upsert_credential-Leaves :
    (credential : AuthCredential) → Leaves (write (upsert_credential credential))
unfolding upsert_credential
upsert_credential-Leaves credential = write-Leaves _ (λ s. ground arith)

pub create_login_flow-Leaves : (flow : LoginFlow) → Leaves (try_write (create_login_flow flow))
unfolding create_login_flow
create_login_flow-Leaves flow = try_write-Leaves _ (λ s. ground arith)
