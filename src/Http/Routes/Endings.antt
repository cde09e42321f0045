-- ===== src/Http/Routes/Endings.antt =====
-- fastapi_adapter.py: the routes `logout` and `me`.
use coreline_auth_module.Common.{
  ◌≡◌, ◌≢◌, refl, ap, String, true, some, none, is_text, arith, sym, ◌∙◌,
}
use coreline_auth_module.Errors.{Error, Result, ok, raise}
use coreline_auth_module.Host.{Host}
use coreline_auth_module.Models.{Principal}
use coreline_auth_module.Storage.Sessions.Index.{IsIndexed}
use coreline_auth_module.World.{World}
use coreline_auth_module.Service.Config.{Service}
use coreline_auth_module.Service.Sessions.{verify_session, logout}
use coreline_auth_module.Service.Sessions.Ending.{verify_session-logout}
use coreline_auth_module.Http.{Request, Mount, done, Response, Body, attempt, failures}
use coreline_auth_module.Http.Replies.{bind-eq_done, attempt-eq_done}
use coreline_auth_module.Http.Gate.{
  token_from_request, require_csrf, require_token, require_session,
}
use coreline_auth_module.Http.Gate.Passage.{require_token-eq_done}
use coreline_auth_module.Http.Gate.Upkeep.{require_csrf-Indexed}
use coreline_auth_module.Http.Routes.{end_session_of, logout_route, me}

module _ (host : Host) (svc : Service) (mount : Mount) where
  -- A reply of `me` needs a session of the request's token.
  pub me-verified :
      (request : Request) (w w' : World) (response : Response Body)
      → me host svc mount request w ≡ (done response, w')
      → (token : String) × (p : Principal) × (token_from_request mount request ≡ some token)
        × (is_text token ≡ true)
        × ((verify_session host svc token none w).0 ≡ ok p)
  unfolding me require_session
  me-verified request w w' response h =
      let (p, e, h1) = bind-eq_done (require_session host svc mount request) _ w w' response h in
      let w1 = (require_session host svc mount request w).1 in
      let (token, e2, h2) =
        bind-eq_done (require_token host svc mount request) _ w w1 p (λ i. (e i, w1)) in
      let w2 = (require_token host svc mount request w).1 in
      let (is_token, text, same) =
        require_token-eq_done host svc mount request w w2 token (λ i. (e2 i, w2)) in
      let verified =
        attempt-eq_done (failures 401) (verify_session host svc token none) w2 w1 p h2 in
      (
        token,
        p,
        is_token,
        text,
        ap (λ v. (verify_session host svc token none v).0) same ∙ ap (λ x. x.0) verified,
      )

  logged_out :
      (request : Request) (token : String) (w : World)
      → token_from_request mount request ≡ some token
      → is_text token ≡ true
      → (end_session_of host svc mount (token_from_request mount request) w).1
        ≡ (logout host svc token w).1
  unfolding end_session_of attempt
  logged_out request token w e t = rw (e, t) refl

  no_principal : (r : Result Principal) (p : Principal) (e : Error) → r ≡ raise e → r ≡ ok p → ⊥
  no_principal r p e h g = ground (arith, h, g)

-- After the route `logout` has replied, the route `me` has no reply for the same request, neither
-- by its bearer token nor by its cookie, if the table of sessions and its index agreed at first.
pub me-logout_route :
    (host : Host) (svc : Service) (mount : Mount) (request : Request) (w w' : World)
    (response after : Response Body)
    → IsIndexed w.storage
    → logout_route host svc mount request w ≡ (done response, w')
    → (me host svc mount request w').0 ≢ done after
unfolding logout_route
me-logout_route host svc mount request w w' response after v h g =
    let w1 = (require_csrf host svc mount request true w).1 in
    let token = token_from_request mount request in
    let (_, _, h1) = bind-eq_done (require_csrf host svc mount request true) _ w w' response h in
    let (_, _, h2) = bind-eq_done (end_session_of host svc mount token) _ w1 w' response h1 in
    let (t, p, is_token, text, verified) =
      me-verified host svc mount request w' (me host svc mount request w').1 after
        (λ i. (g i, (me host svc mount request w').1)) in
    let (_, e, refused) =
      verify_session-logout host svc t none w1
        (require_csrf-Indexed host svc mount request true w v) in
    let world : (logout host svc t w1).1 ≡ w' =
      sym (logged_out host svc mount request t w1 is_token text) ∙ ap (λ x. x.1) h2 in
    no_principal host svc mount _ p e
      (ap (λ x. (verify_session host svc t none x).0) (sym world) ∙ refused) verified
