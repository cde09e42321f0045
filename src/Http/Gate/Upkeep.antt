-- ===== src/Http/Gate/Upkeep.antt =====
-- fastapi_adapter.py: the check of CSRF tokens keeps the index of sessions.
use coreline_auth_module.Common.{
  String, Bool, ◌&&◌, Option, some, none, get_or, is_text, has_text, Bool-cases, inl, inr,
}
use coreline_auth_module.Common.Dict
use coreline_auth_module.Csrf.{CsrfProtector}
use coreline_auth_module.Errors.{Result, ok, raise}
use coreline_auth_module.Host.{Host}
use coreline_auth_module.World.{World}
use coreline_auth_module.World.Outcomes.{Outcome, bind-Ensures, act-Ensures}
use coreline_auth_module.Service.Config.{Service}
use coreline_auth_module.Service.Sessions.Acceptance.{
  Indexed, KeepsIndexed, KeepsIndexed-after, verify_session-KeepsIndexed,
}
use coreline_auth_module.Http.{Request, Mount, header, attempt}
use coreline_auth_module.Http.Gate.{
  context_of, csrf_context_key, verify_csrf, csrf_with, doubly_submitted, is_bearer, require_csrf,
}

module _ (host : Host) (svc : Service) (mount : Mount) where
  same_for :
      {A : Type 0} (r : Result A) (w : World) → Indexed w → Outcome (λ _. Indexed) Indexed r w
  same_for (ok a) w v = v
  same_for (raise e) w v = v

  context_of-Indexed :
      (o : Option String) (w : World) → Indexed w → Indexed (context_of host svc mount o w).1
  unfolding context_of
  context_of-Indexed none w v = v
  context_of-Indexed (some token) w v = elim (Bool-cases (is_text token)) [
    | inl e ↦ rw e (KeepsIndexed-after (verify_session-KeepsIndexed host svc token none) w v)
    | inr e ↦ rw e v
  ]

  verify_csrf-KeepsIndexed :
      (p : CsrfProtector) (token : String) (request : Request)
      → KeepsIndexed (verify_csrf host svc mount p token request)
  unfolding verify_csrf csrf_context_key
  verify_csrf-KeepsIndexed p token request =
      bind-Ensures {R = λ _. Indexed}
        (act-Ensures (λ w v.
          same_for _ _ (context_of-Indexed (Dict.get mount.cookie_name request.cookies) w v)))
        (λ key. act-Ensures (λ w v. same_for _ w v))

  csrf_with-Indexed :
      (o : Option CsrfProtector) (request : Request) (strict : Bool) (w : World)
      → Indexed w
      → Indexed (csrf_with host svc mount o request strict w).1
  unfolding csrf_with attempt
  csrf_with-Indexed none request strict w v =
      elim (Bool-cases (strict && has_text (Dict.get mount.cookie_name request.cookies))) [
        | inl e ↦ rw e v
        | inr e ↦ rw e v
      ]
  csrf_with-Indexed (some p) request strict w v =
      elim (Bool-cases (
        doubly_submitted (header mount.csrf_header_name request)
          (Dict.get mount.csrf_cookie_name request.cookies))) [
            | inl e ↦ rw e (
                KeepsIndexed-after
                  (verify_csrf-KeepsIndexed p (get_or (header mount.csrf_header_name request) "")
                    request)
                  w v)
            | inr e ↦ rw e v
          ]

  pub require_csrf-Indexed :
      (request : Request) (strict : Bool) (w : World)
      → Indexed w
      → Indexed (require_csrf host svc mount request strict w).1
  unfolding require_csrf
  require_csrf-Indexed request strict w v = elim (Bool-cases (is_bearer request)) [
    | inl e ↦ rw e v
    | inr e ↦ rw e (csrf_with-Indexed mount.csrf_protector request strict w v)
  ]
