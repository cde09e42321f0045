-- ===== src/Http/AdminRoutes/Changes.antt =====
-- fastapi_adapter.py: the administrators' routes that change state, as data, and what each of them
-- has checked when it replies.
use coreline_auth_module.Common.{◌≡◌, refl, sym, ◌∙◌, subst, String, true, Option, some}
use coreline_auth_module.Admin.{
  update_user_role, ban_user, unban_user, set_user_password, revoke_session,
}
use coreline_auth_module.Host.{Host}
use coreline_auth_module.Models.{AuthUser, AuthSession, Principal, Role}
use coreline_auth_module.World.{World, Action, ◌>>=◌}
use coreline_auth_module.World.Outcomes.{bind-eq_returned}
use coreline_auth_module.Service.Config.{Service}
use coreline_auth_module.Service.Sessions.{verify_session}
use coreline_auth_module.Service.Sessions.Verification.{IsGranted, verify_session_sound}
use coreline_auth_module.Http.{◌>>=◌ as ◌next◌, Request, Mount, done, Http, Body, denials}
use coreline_auth_module.Http.Replies.{bind-eq_done, attempt-eq_done}
use coreline_auth_module.Http.Gate.{require_csrf, require_token, token_from_request}
use coreline_auth_module.Http.Gate.Passage.{IsPassed, require_csrf-IsPassed, require_token-eq_done}
use coreline_auth_module.Http.AdminRoutes.{
  changing, update_role_route, ban_user_route, unban_user_route, set_password_route,
  revoke_session_route,
}

pub data Change : Type 0 where
  role : (user_id : String) (new_role : Role) → Change
  ban unban : (user_id : String) (reason : Option String) → Change
  password : (user_id new_password : String) → Change
  revoke : (session_id : String) → Change

-- The permission that a route asks for.
abbrev pub permission_for : Change → String
permission_for (role _ _) = "users:write"
permission_for (ban _ _) = "users:ban"
permission_for (unban _ _) = "users:ban"
permission_for (password _ _) = "users:write"
permission_for (revoke _) = "sessions:revoke"

module _ (host : Host) (svc : Service) (mount : Mount) where
  -- The route of a change.
  unfoldable pub change_route : Change → Request → Http Body
  unfolding update_role_route ban_user_route unban_user_route set_password_route
      revoke_session_route
  change_route (role id r) = update_role_route host svc mount id r
  change_route (ban id reason) = ban_user_route host svc mount id reason
  change_route (unban id reason) = unban_user_route host svc mount id reason
  change_route (password id p) = set_password_route host svc mount id p
  change_route (revoke id) = revoke_session_route host svc mount id

  -- The request's token leads to a live session with the permission.
  pub IsPermitted : String → Request → World → Type 0
  IsPermitted permission request w =
      (token : String) × (token_from_request mount request ≡ some token)
      × (found : AuthSession) × (user : AuthUser) × IsGranted host svc token (some permission)
          (host.clock w.clock_reads) w.storage found user

  -- A call that begins with a check of the session.
  pub record Verifies {ℓ} {A : Type ℓ} (permission : String) (call : String → Action A)
      : Type ℓ where
    pub rest : String → Principal → Action A
    pub same :
        (token : String) (w : World)
        → call token w ≡ (verify_session host svc token (some permission) >>= rest token) w

  pub changing_sound {ℓ} :
      {A : Type ℓ} (permission : String) (call : String → Action A) (request : Request)
      (w w' : World) (a : A)
      → Verifies permission call
      → changing host svc mount request call w ≡ (done a, w')
      → IsPassed host svc mount request true w
        × IsPermitted permission request (require_csrf host svc mount request true w).1
  unfolding changing IsPermitted
  changing_sound permission call request w w' a v h =
      let w1 = (require_csrf host svc mount request true w).1 in
      let (u, e, h1) = bind-eq_done (require_csrf host svc mount request true) _ w w' a h in
      let (token, et, h2) = bind-eq_done (require_token host svc mount request) _ w1 w' a h1 in
      let w2 = (require_token host svc mount request w1).1 in
      let (is_token, _, same) =
        require_token-eq_done host svc mount request w1 w2 token (λ i. (et i, w2)) in
      let (p, g, h3) =
        bind-eq_returned (verify_session host svc token (some permission)) (v.rest token) w2 w' a
          (sym (v.same token w2) ∙ attempt-eq_done (denials 403) (call token) w2 w' a h2) in
      let (found, granted) =
        verify_session_sound host svc token (some permission) w2
          (verify_session host svc token (some permission) w2).1 p
          (λ i. (g i, (verify_session host svc token (some permission) w2).1)) in
      (
        require_csrf-IsPassed host svc mount request true w w1 (λ i. (e i, w1)),
        subst (IsPermitted permission request) (sym same) (token, is_token, found, p.user, granted),
      )

  -- A route that goes on after its change.
  then_sound {ℓ} :
      {A : Type ℓ} (permission : String) (call : String → Action A) (f : A → Http Body)
      (request : Request) (w w' : World) (body : Body)
      → Verifies permission call
      → (changing host svc mount request call next f) w ≡ (done body, w')
      → IsPassed host svc mount request true w
        × IsPermitted permission request (require_csrf host svc mount request true w).1
  then_sound permission call f request w w' body v h =
      let route = changing host svc mount request call in
      let (a, e, h1) = bind-eq_done route f w w' body h in
      changing_sound permission call request w (route w).1 a v (λ i. (e i, (route w).1))

-- When an administrators' route that changes state replies, the request has passed the check of CSRF
-- tokens for a request that is authenticated by a cookie, and its session's token leads, in the
-- world after that check, to a session that is not revoked and not expired, of an active user, with
-- the permission that the change needs: `users:write` for roles and passwords, `users:ban` for bans
-- and their end, and `sessions:revoke` for a session.
pub change_route_sound :
    (host : Host) (svc : Service) (mount : Mount) (c : Change) (request : Request) (w w' : World)
    (body : Body)
    → change_route host svc mount c request w ≡ (done body, w')
    → IsPassed host svc mount request true w
      × IsPermitted host svc mount
          (permission_for c)
          request
          (require_csrf host svc mount request true w).1
unfolding change_route update_role_route ban_user_route unban_user_route set_password_route
    revoke_session_route update_user_role ban_user unban_user set_user_password revoke_session
change_route_sound host svc mount (role id r) request w w' body h =
    then_sound host svc mount "users:write" (λ token. update_user_role host svc token id r) _
      request w w' body (record { rest = _; same = λ token v. refl }) h
change_route_sound host svc mount (ban id reason) request w w' body h =
    then_sound host svc mount "users:ban" (λ token. ban_user host svc token id reason) _ request w
      w' body (record { rest = _; same = λ token v. refl }) h
change_route_sound host svc mount (unban id reason) request w w' body h =
    then_sound host svc mount "users:ban" (λ token. unban_user host svc token id reason) _ request w
      w' body (record { rest = _; same = λ token v. refl }) h
change_route_sound host svc mount (password id p) request w w' body h =
    then_sound host svc mount "users:write" (λ token. set_user_password host svc token id p) _
      request w w' body (record { rest = _; same = λ token v. refl }) h
change_route_sound host svc mount (revoke id) request w w' body h =
    then_sound host svc mount "sessions:revoke" (λ token. revoke_session host svc token id) _
      request w w' body (record { rest = _; same = λ token v. refl }) h
