-- ===== src/Readiness/Tests.antt =====
-- The theorems on the report at concrete inputs.
use coreline_auth_module.Common.{String, none, some, ◌≡◌, refl, [], ◌∷◌, ◌==◌, Bool-cases, inl, inr}
use coreline_auth_module.Common.Text.{strip, occurs_in}
use coreline_auth_module.Common.Dict
use coreline_auth_module.Common.Dict.{Dict}
use coreline_auth_module.Errors.{ok, raise, value_error}
use coreline_auth_module.Readiness.{
  ReadinessStatus, ReadinessCheck, collect_readiness, source_of, assert_secret_safe, is_present,
}
use coreline_auth_module.Readiness.Disclosure.{collect_readiness-same}

abbrev with_url : String → Dict String
with_url url = ("CORELINE_AUTH_REDIS_URL", url) ∷ []

same_names :
    (name : String)
    → is_present (source_of (with_url "redis://a") (some [])) name
      ≡ is_present (source_of [] (some (with_url "redis://b"))) name
unfolding source_of is_present strip Dict.get
same_names name = elim (Bool-cases ("CORELINE_AUTH_REDIS_URL" == name)) [
  | inl h ↦ rw h refl
  | inr h ↦ rw h refl
]

-- An empty environment stands for the variables of the process.
collect_readiness-same_example :
    collect_readiness (with_url "redis://a") (some [])
    ≡ collect_readiness [] (some (with_url "redis://b"))
collect_readiness-same_example =
    collect_readiness-same (with_url "redis://a") [] (some []) (some (with_url "redis://b"))
      same_names

-- The report passes the guard against values in the place of names, and a value does not.
engine : Unit {0}
unfolding collect_readiness assert_secret_safe is_present strip Dict.get occurs_in
engine = tt

safe_report : assert_secret_safe (collect_readiness (with_url "redis://a") none) ≡ ok tt
unfolding engine
safe_report = refl

abbrev leaking : ReadinessCheck
leaking = record {
  key = "smtp";
  label = "SMTP email";
  status = ReadinessStatus.ready;
  present = "CORELINE_AUTH_SMTP_HOST=mail" ∷ [];
  missing = [];
}

unsafe_report :
    assert_secret_safe (leaking ∷ [])
    ≡ raise (value_error "readiness output must contain variable names only")
unfolding engine
unsafe_report = refl
