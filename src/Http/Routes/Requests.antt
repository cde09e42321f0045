-- ===== src/Http/Routes/Requests.antt =====
-- fastapi_adapter.py: what the replies to requests for links tell about accounts.
use coreline_auth_module.Common.{
  ◌≡◌, ◌⊎◌, inl, inr, refl, sym, ap, subst, String, true, false, none, some, [], ◌∷◌, arith,
}
use coreline_auth_module.Errors.{
  Result, ok, raise, authentication_failed, configuration, validation, authorization_denied,
  storage, value_error,
}
use coreline_auth_module.Host.{Host}
use coreline_auth_module.Models.{AuthUser, MagicLinkChallenge}
use coreline_auth_module.Storage.{Storage}
use coreline_auth_module.World.{World}
use coreline_auth_module.World.Outcomes.{returned}
use coreline_auth_module.Service.Config.{Service}
use coreline_auth_module.Service.Tokens.Opening.{IsAccount, IsOpened, request-Ensures}
use coreline_auth_module.Service.Tokens.{request_email_verification}
use coreline_auth_module.Http.{Request, Mount, Response, Body, done, truth, moment, words}
use coreline_auth_module.Http.Replies.{bind-eq_done, done-injective}
use coreline_auth_module.Http.Gate.{require_csrf}
use coreline_auth_module.Http.Routes.{
  plain, debug_fields, challenge_reply, verification_reply, request_verification,
  email_verification_request,
}

-- The reply gives the limit of a flow that the storage has for the account.
pub record IsFlowReply (host : Host) (mount : Mount) (user : AuthUser) (s : Storage)
    (response : Response Body) : Type 0 where
  pub challenge : MagicLinkChallenge
  pub opened : IsOpened host user challenge s
  pub reply :
      response
      ≡ plain (
          ("ok", truth true)
          ∷ ("expires_at", moment challenge.flow.expires_at)
          ∷ debug_fields mount.expose_magic_link_token
              (("debug_token", words challenge.token) ∷ []))

module _ (host : Host) (svc : Service) (mount : Mount) where
  verification_reply-eq_done :
      (r : Result MagicLinkChallenge) (response : Response Body)
      → verification_reply host svc mount r ≡ done response
      → (response ≡ plain (("ok", truth true) ∷ []))
        ⊎ ((c : MagicLinkChallenge) × (r ≡ ok c) × (response ≡ challenge_reply host svc mount c))
  unfolding verification_reply
  verification_reply-eq_done (ok c) response h = inr (c, refl, sym (done-injective _ response h))
  verification_reply-eq_done (raise (authentication_failed m)) response h =
      inl (sym (done-injective _ response h))
  verification_reply-eq_done (raise (configuration m)) response h = absurd (ground (arith, h))
  verification_reply-eq_done (raise (validation m)) response h = absurd (ground (arith, h))
  verification_reply-eq_done (raise (authorization_denied m)) response h =
      absurd (ground (arith, h))
  verification_reply-eq_done (raise (storage m)) response h = absurd (ground (arith, h))
  verification_reply-eq_done (raise (value_error m)) response h = absurd (ground (arith, h))

  -- When the route replies to a request for the verification of an address, the reply is the bare
  -- `ok`, or the storage after the check of CSRF tokens has an active account for the normalised
  -- address and the reply has the limit of a flow that the storage then has for that account's
  -- address, and the flow's token only where the deployment shows tokens.
  pub email_verification_request_sound :
      (email : String) (request : Request) (w w' : World) (response : Response Body)
      → email_verification_request host svc mount email request w ≡ (done response, w')
      → (response ≡ plain (("ok", truth true) ∷ []))
        ⊎ ((user : AuthUser) × IsAccount host email
              (require_csrf host svc mount request false w).1.storage
              user
            × IsFlowReply host mount user w'.storage response)
  unfolding email_verification_request request_verification challenge_reply
  email_verification_request_sound email request w w' response h =
      let csrf = require_csrf host svc mount request false in
      let w1 = (csrf w).1 in
      let call = request_email_verification host svc none (some email) in
      let (u, e, h1) = bind-eq_done csrf _ w w' response h in
      elim (verification_reply-eq_done (call w1).0 response (ap (λ x. x.0) h1)) [
        | inl bare ↦ inl bare
        | inr (c, ok_c, reply) ↦
            let (user, account, opened) =
              returned (request-Ensures host svc email w1.storage w1.clock_reads) w1 c (call w1).1
                (refl, refl) (λ i. (ok_c i, (call w1).1)) in
            let last = ap (λ x. x.1) h1 in
            inr (
              user,
              account,
              record {
                challenge = c;
                opened = subst (λ (x : World). IsOpened host user c x.storage) last opened;
                reply = reply;
              },
            )
      ]
