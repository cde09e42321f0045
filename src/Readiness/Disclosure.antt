-- ===== src/Readiness/Disclosure.antt =====
-- ops_readiness.py: the report tells which variables are set, and nothing of their values.
use mathlib.Core.Path.{fun_ext}
use coreline_auth_module.Common.{String, ◌≡◌, refl, ap, Option, List, [], ◌∷◌, select}
use coreline_auth_module.Common.Dict.{Dict}
use coreline_auth_module.Readiness.{
  ReadinessStatus, ReadinessCheck, is_present, check_names, check_required, collect_readiness,
  collect_with, source_of, lacks_name, status_of,
}

-- The check of names found present and names found missing.
check_of : ReadinessStatus → String → String → List String → List String → ReadinessCheck
check_of otherwise key label required present = record {
  key = key;
  label = label;
  status = status_of otherwise (select (lacks_name present) required);
  present = present;
  missing = select (lacks_name present) required;
}

cons_same {ℓ} : {A : Type ℓ} {x y : A} {xs ys : List A} → x ≡ y → xs ≡ ys → x ∷ xs ≡ y ∷ ys
cons_same p q = rw (p, q) refl

module _ (env env' : Dict String)
    (h : (name : String) → is_present env name ≡ is_present env' name) where
  check_names-same :
      (o : ReadinessStatus) (key label : String) (required : List String)
      → check_names env o key label required ≡ check_names env' o key label required
  unfolding check_of
  check_names-same o key label required =
      ap (λ is_set. check_of o key label required (select is_set required)) (fun_ext h)

  collect_with-same : collect_with env ≡ collect_with env'
  unfolding collect_with check_required
  collect_with-same =
      cons_same
        (check_names-same ReadinessStatus.missing "google_oauth" "Google OAuth"
          ("CORELINE_AUTH_GOOGLE_CLIENT_ID" ∷ "CORELINE_AUTH_GOOGLE_CLIENT_SECRET" ∷ []))
        (cons_same
          (check_names-same ReadinessStatus.missing "facebook_oauth" "Facebook OAuth"
            ("CORELINE_AUTH_FACEBOOK_CLIENT_ID" ∷ "CORELINE_AUTH_FACEBOOK_CLIENT_SECRET" ∷ []))
          (cons_same
            (check_names-same ReadinessStatus.missing "smtp" "SMTP email"
              ("CORELINE_AUTH_SMTP_HOST" ∷ "CORELINE_AUTH_SMTP_FROM" ∷ []))
            (cons_same
              (check_names-same ReadinessStatus.missing "redis_rate_limit" "Redis rate limit"
                ("CORELINE_AUTH_REDIS_URL" ∷ []))
              (cons_same
                (check_names-same ReadinessStatus.missing "postgres_async_storage"
                  "Postgres async storage" ("CORELINE_AUTH_POSTGRES_DSN" ∷ []))
                (cons_same
                  (check_names-same ReadinessStatus.optional "webauthn_passkey" "WebAuthn / Passkey"
                    ("CORELINE_AUTH_WEBAUTHN_RP_ID" ∷ "CORELINE_AUTH_WEBAUTHN_ORIGIN" ∷ []))
                  (refl))))))

-- Whether an environment is given or the variables of the process stand for it, two runs whose
-- sources set the same variables to a text that is not blank have the same report: the report does
-- not depend on the values of the variables, nor on those that are set to a blank text.
pub collect_readiness-same :
    (environ environ' : Dict String) (env env' : Option (Dict String))
    → ((name : String)
        → is_present (source_of environ env) name ≡ is_present (source_of environ' env') name)
    → collect_readiness environ env ≡ collect_readiness environ' env'
unfolding collect_readiness
collect_readiness-same environ environ' env env' h =
    collect_with-same (source_of environ env) (source_of environ' env') h
