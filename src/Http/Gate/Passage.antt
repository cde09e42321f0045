-- ===== src/Http/Gate/Passage.antt =====
-- fastapi_adapter.py: what a request that `require_csrf` lets pass has shown.
use coreline_auth_module.Common.{
  is_text, ◌≡◌, refl, ap, String, Bool, true, false, ◌&&◌, Option, some, none, has_text, get_or,
  arith, Bool-cases, inl, inr, eq_iff, ◌∙◌, sym,
}
use coreline_auth_module.Common.Dict
use coreline_auth_module.Csrf.{CsrfProtector}
use coreline_auth_module.Errors.{ok}
use coreline_auth_module.Host.{Host}
use coreline_auth_module.World.{World}
use coreline_auth_module.World.Actions.{lift}
use coreline_auth_module.World.Outcomes.{bind-eq_returned}
use coreline_auth_module.Service.Config.{Service}
use coreline_auth_module.Http.{Reply, Request, Mount, done, header, respond, attempt, invalid_as}
use coreline_auth_module.Http.Replies.{attempt-eq_done, refusal-eq_done, test-eq_done}
use coreline_auth_module.Http.Gate.{
  token_from_request, require_token, token_or_401, is_bearer, doubly_submitted, csrf_context_key,
  verify_in, verify_csrf, csrf_with, require_csrf,
}

-- A request has no CSRF token to show, or it has shown one: the same text in the header and the
-- cookie, which verifies for the session of the request, or as an anonymous one.
pub data IsPassed (host : Host) (svc : Service) (mount : Mount) (request : Request) (strict : Bool)
    (w : World) : Type 0 where
  by_header : is_bearer request ≡ true → IsPassed host svc mount request strict w
  unprotected :
      mount.csrf_protector ≡ none
      → (strict && has_text (Dict.get mount.cookie_name request.cookies)) ≡ false
      → IsPassed host svc mount request strict w
  by_token :
      (p : CsrfProtector) (token : String) (key : Option String)
      → mount.csrf_protector ≡ some p
      → header mount.csrf_header_name request ≡ some token
      → Dict.get mount.csrf_cookie_name request.cookies ≡ some token
      → (csrf_context_key host svc mount request w).0 ≡ ok key
      → verify_in host svc mount p token key ≡ ok tt
      → IsPassed host svc mount request strict w

-- A text in both places.
both :
    (h c : Option String)
    → doubly_submitted h c ≡ true
    → (token : String) × (h ≡ some token) × (c ≡ some token)
both none c e = absurd (ground (arith, e))
both (some h) none e = absurd (ground (arith, e))
both (some h) (some c) e =
    let same : h ≡ c = ground (arith, e, eq_iff h c) in (h, refl, ap some (sym same))

module _ (host : Host) (svc : Service) (mount : Mount) where
  verified :
      (p : CsrfProtector) (token : String) (request : Request) (w w' : World)
      → verify_csrf host svc mount p token request w ≡ (ok tt, w')
      → (key : Option String) × ((csrf_context_key host svc mount request w).0 ≡ ok key)
        × (verify_in host svc mount p token key ≡ ok tt)
  unfolding verify_csrf
  verified p token request w w' h =
      let (key, e, h1) =
        bind-eq_returned (csrf_context_key host svc mount request)
          (λ k. lift (verify_in host svc mount p token k)) w w' tt h in
      (key, e, ap (λ x. x.0) h1)

  csrf_with-IsPassed :
      (o : Option CsrfProtector) (request : Request) (strict : Bool) (w w' : World)
      → mount.csrf_protector ≡ o
      → csrf_with host svc mount o request strict w ≡ (done tt, w')
      → IsPassed host svc mount request strict w
  unfolding csrf_with
  csrf_with-IsPassed none request strict w w' o h =
      IsPassed.unprotected o
        (refusal-eq_done (strict && has_text (Dict.get mount.cookie_name request.cookies))
          (respond tt) _ _ w w' tt h).0
  csrf_with-IsPassed (some p) request strict w w' o h =
      let hd = header mount.csrf_header_name request in
      let ck = Dict.get mount.csrf_cookie_name request.cookies in
      let call = verify_csrf host svc mount p (get_or hd "") request in
      let t = test-eq_done (doubly_submitted hd ck) (attempt (invalid_as 403) call) _ _ w w' tt h in
      let (token, is_hd, is_ck) = both hd ck t.0 in
      let (key, is_key, ok_key) =
        verified p (get_or hd "") request w w'
          (attempt-eq_done (invalid_as 403) call w w' tt t.1) in
      IsPassed.by_token p token key o is_hd is_ck is_key
        (ap (λ x. verify_in host svc mount p (get_or x "") key) (sym is_hd) ∙ ok_key)

  -- A request that `require_csrf` lets pass.
  pub require_csrf-IsPassed :
      (request : Request) (strict : Bool) (w w' : World)
      → require_csrf host svc mount request strict w ≡ (done tt, w')
      → IsPassed host svc mount request strict w
  unfolding require_csrf
  require_csrf-IsPassed request strict w w' h = elim (Bool-cases (is_bearer request)) [
    | inl e ↦ IsPassed.by_header e
    | inr e ↦ csrf_with-IsPassed mount.csrf_protector request strict w w' refl (rw e at h)
  ]

  token_or_401-eq_done :
      (o : Option String) (w w' : World) (token : String)
      → token_or_401 host svc mount o w ≡ (done token, w')
      → (o ≡ some token) × (is_text token ≡ true) × (w ≡ w')
  unfolding token_or_401
  token_or_401-eq_done none w w' token h = absurd (ground (arith, ap (λ x. x.0) h))
  token_or_401-eq_done (some t) w w' token h =
      let (text, e) = test-eq_done (is_text t) (respond t) _ _ w w' token h in
      let same : t ≡ token = ap (λ x. token_in t x.0) e in
      (ap some same, ap is_text (sym same) ∙ text, ap (λ x. x.1) e)
    where
      token_in : String → Reply String → String
      token_in d (done x) = x
      token_in d _ = d

  -- The token that `require_token` returns is the request's and not empty, and nothing has changed.
  pub require_token-eq_done :
      (request : Request) (w w' : World) (token : String)
      → require_token host svc mount request w ≡ (done token, w')
      → (token_from_request mount request ≡ some token) × (is_text token ≡ true) × (w ≡ w')
  unfolding require_token
  require_token-eq_done request w w' token h =
      token_or_401-eq_done (token_from_request mount request) w w' token h
