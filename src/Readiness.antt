-- ===== src/Readiness.antt =====
-- src/coreline_auth/ops_readiness.py: the readiness report over an environment. The variables of the
-- process are a parameter; the JSON output and the command line are left out.
pub mod Disclosure
mod Tests
use Prim.Native.String
use coreline_auth_module.Common.{
  String, Bool, true, false, not, Option, some, none, List, [], ◌∷◌, ◌++◌, map, any, select,
  is_text, get_or, ◌==◌, if◌then◌else◌,
}
use coreline_auth_module.Common.Text.{strip, occurs_in}
use coreline_auth_module.Common.Dict
use coreline_auth_module.Common.Dict.{Dict}
use coreline_auth_module.Errors.{Result, ok, raise, ◌>>=◌, value_error}

pub data ReadinessStatus : Type 0 where
  ready missing optional : ReadinessStatus

abbrev pub status_text : ReadinessStatus → String
status_text ReadinessStatus.ready = "ready"
status_text ReadinessStatus.missing = "missing"
status_text ReadinessStatus.optional = "optional"

-- The notes are in Korean in the source; they are constants, and stand here by their keys.
pub record ReadinessCheck : Type 0 where
  pub key : String
  pub label : String
  pub status : ReadinessStatus
  pub present : List String
  pub missing : List String

-- `ReadinessCheck.ready`
unfoldable pub is_ready : ReadinessCheck → Bool
is_ready c = elim c.status [ ReadinessStatus.ready ↦ true | _ ↦ false ]

-- `_is_present`
unfoldable pub is_present : Dict String → String → Bool
unfolding strip
is_present env name = is_text (strip (get_or (Dict.get name env) ""))

-- `name not in present`
abbrev lacks_name : List String → String → Bool
lacks_name present name = not (any (λ x. x == name) present)

-- `READY if not missing else otherwise`
abbrev status_of : ReadinessStatus → List String → ReadinessStatus
status_of otherwise [] = ReadinessStatus.ready
status_of otherwise (name ∷ names) = otherwise

-- The check for names, with the status for the case that some are missing.
abbrev check_names : Dict String → ReadinessStatus → String → String → List String → ReadinessCheck
check_names env otherwise key label required =
    let present = select (is_present env) required in
    let missing_names = select (lacks_name present) required in
    record {
      key = key;
      label = label;
      status = status_of otherwise missing_names;
      present = present;
      missing = missing_names;
    }

-- `_check_required`
unfoldable pub check_required : Dict String → String → String → List String → ReadinessCheck
check_required env key label required = check_names env ReadinessStatus.missing key label required

-- The checks of `collect_readiness`, from its source.
unfoldable pub collect_with : Dict String → List ReadinessCheck
unfolding check_required
collect_with source =
    check_required source "google_oauth" "Google OAuth"
      ("CORELINE_AUTH_GOOGLE_CLIENT_ID" ∷ "CORELINE_AUTH_GOOGLE_CLIENT_SECRET" ∷ [])
    ∷ check_required source "facebook_oauth" "Facebook OAuth"
        ("CORELINE_AUTH_FACEBOOK_CLIENT_ID" ∷ "CORELINE_AUTH_FACEBOOK_CLIENT_SECRET" ∷ [])
    ∷ check_required source "smtp" "SMTP email"
        ("CORELINE_AUTH_SMTP_HOST" ∷ "CORELINE_AUTH_SMTP_FROM" ∷ [])
    ∷ check_required source "redis_rate_limit" "Redis rate limit" ("CORELINE_AUTH_REDIS_URL" ∷ [])
    ∷ check_required source "postgres_async_storage" "Postgres async storage"
        ("CORELINE_AUTH_POSTGRES_DSN" ∷ [])
    ∷ check_names source ReadinessStatus.optional "webauthn_passkey" "WebAuthn / Passkey"
        ("CORELINE_AUTH_WEBAUTHN_RP_ID" ∷ "CORELINE_AUTH_WEBAUTHN_ORIGIN" ∷ [])
    ∷ []

-- `env or os.environ`: no environment, or an empty one, stands for the variables of the process.
unfoldable pub source_of : Dict String → Option (Dict String) → Dict String
source_of environ none = environ
source_of environ (some []) = environ
source_of environ (some (entry ∷ entries)) = entry ∷ entries

unfoldable pub collect_readiness : Dict String → Option (Dict String) → List ReadinessCheck
unfolding collect_with source_of
collect_readiness environ env = collect_with (source_of environ env)

-- A field with an equals sign is not the name of a variable. The second loop of
-- `assert_secret_safe` does nothing.
unfoldable pub names_only : ReadinessCheck → Bool
unfolding occurs_in
names_only c = not (any (λ name. occurs_in "=" name) (c.present ++ c.missing))

unfoldable pub assert_secret_safe : List ReadinessCheck → Result (Unit {0})
unfolding names_only
assert_secret_safe [] = ok tt
assert_secret_safe (c ∷ checks) =
    let rest = assert_secret_safe checks in
    if names_only c
    then rest
    else raise (value_error "readiness output must contain variable names only")

-- `sep.join(parts)`
join : String → List String → String
join sep [] = ""
join sep (p ∷ []) = p
join sep (p ∷ q ∷ ps) = String.◌++◌ p (String.◌++◌ sep (join sep (q ∷ ps)))

-- `", ".join(names) if names else "-"`
abbrev joined_or_dash : List String → String
joined_or_dash [] = "-"
joined_or_dash (n ∷ ns) = join ", " (n ∷ ns)

line_of : ReadinessCheck → String
unfolding join
line_of c = String.◌++◌ "- " (
    String.◌++◌ c.label (
      String.◌++◌ ": " (
        String.◌++◌ (status_text c.status) (
          String.◌++◌ " (present: " (
            String.◌++◌ (joined_or_dash c.present)
              (String.◌++◌ "; missing: " (String.◌++◌ (joined_or_dash c.missing) ")")))))))

unfoldable pub checks_to_text : List ReadinessCheck → Result String
unfolding assert_secret_safe line_of join
checks_to_text checks = do
  safe ← assert_secret_safe checks
  ok (join "\n" ("Coreline Auth readiness" ∷ map line_of checks))
