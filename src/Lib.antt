-- ===== src/Lib.antt =====
-- A model of the authentication module coreline_auth, and what is proved of it.
--
-- The program: an embedded authentication service. `CorelineAuthService` (src/coreline_auth/
-- service.py) holds the flows: accounts, passwords, magic links, e-mail verification, password
-- resets, social logins, sessions, TOTP factors and recovery codes. It keeps its state in a
-- storage, of which this development models the in-memory one, asks a rate limiter before costly
-- or guessable steps, writes redacted audit events, and checks permissions with a policy engine.
-- `CorelineAdminService` is the administrators' view of it, the FastAPI adapter puts both behind
-- HTTP routes, `AsyncCorelineAuthService` has the core flows as coroutines; `ResourceAuthorizer`
-- decides on resources that have owners.
--
-- The files and the code they model:
--   Models, Errors       src/coreline_auth/models.py and errors.py: records, enumerations, exceptions
--   Permissions          src/coreline_auth/permissions.py; in Permissions/: matching against a
--                        description by cases, parsing and printing, what roles may do
--   Authorization        src/coreline_auth/authorization.py: `can`, `require`, `can_action`
--   Storage              src/coreline_auth/storage/memory.py: one function for each method, in
--                        Users, Flows, Sessions, Factors and Audit; calls as data in
--                        Sessions/Operations and Flows/Once
--   RateLimit            src/coreline_auth/rate_limit.py: `FixedWindowRateLimiter`
--   Security             src/coreline_auth/security.py: e-mail addresses, passwords, redirects
--   Audit                src/coreline_auth/storage/audit.py: redaction
--   Mfa                  src/coreline_auth/mfa.py: TOTP codes and the in-memory vault
--   Host                 what comes from outside the sources, as a record of functions: SHA-256,
--                        Argon2, HMAC, the e-mail validator, `urlparse`, clocks, random draws
--   World                the state of a service with its surroundings, and methods as actions on it;
--                        Outcomes, Frames and Steps are the rules to reason about actions
--   Service              src/coreline_auth/service.py and service_support.py: Config, Support,
--                        Accounts, Sessions, Login, Tokens, Resets, SocialState, Factors and StepUp
--   Async                src/coreline_auth/async_service.py: coroutines as tasks of steps, in Support,
--                        Sessions, Accounts and Links; Calls has many calls at a time, Parity the
--                        synchronous service as their specification
--   Admin                src/coreline_auth/admin.py: every operation; Calls has them as data
--   Csrf                 src/coreline_auth/csrf.py: tokens bound to a context
--   Readiness            src/coreline_auth/ops_readiness.py: the report on an environment that is given, or
--                        on the variables of the process
--   Social               src/coreline_auth/social/_utils.py: checks of claims, URLs and verifiers
--   Json                 JSON values, as the parsers of the sources return them
--   Origin, WebAuthn     src/coreline_auth/webauthn.py: origins and relying parties; passkey
--                        registrations and assertions
--   Jwt, IdToken         src/coreline_auth/social/verification.py: JWTs, keys and ID tokens
--   JwksCache            src/coreline_auth/social/discovery.py: the cache of key sets
--   Http                 src/coreline_auth/fastapi_adapter.py: a reply is returned, an `HTTPException` or
--                        an exception that the route lets through; Gate has the checks of tokens,
--                        Routes and AdminRoutes the routes
--   Common, Fixtures     shared tests on numbers, lists, texts and dictionaries; values for tests
--
-- How code becomes a definition: a method is a function that takes the state and returns the new
-- one beside its result; one that raises returns a `Result`, and a method of a service is an
-- `Action`, which keeps what was written before an exception. Locks and the module's single
-- process make each storage method one step. In the async service each call is a step of its own,
-- and the steps of concurrent calls come in any order. A clock or a random generator is a stream
-- that the host gives, read in the order of the code. Times are natural numbers of seconds, and
-- nanoseconds in the rate limiter; intervals of the configuration are natural numbers. `lower`,
-- `strip` and `isdigit` are those of ASCII, so another digit character in a TOTP code, for which
-- the source refuses it, is skipped here; `compare_digest` is equality, also on texts for which it
-- raises in Python; and a TOTP secret always decodes. `urlsplit` is an argument of Social. There is
-- no fuel: each loop goes over a list or counts down.
--
-- What libraries do is an argument: base64, JSON, keys and signatures for WebAuthn and ID tokens,
-- the fetch of a key set, and the validation of payloads, which a route gets after the framework
-- has made it. Times in replies stay numbers.
--
-- Not modelled: logging, the values of metrics and the host's audit sink, which do not change the
-- state; the texts of parse errors; the HTTP adapter of the async service, the SQL and Redis
-- storages and the social connectors, which are mostly calls of libraries and drivers; the
-- example applications.
pub mod Common
pub mod Errors
pub mod Models
pub mod Json
pub mod Http
pub mod JwksCache
pub mod Permissions
pub mod Storage
pub mod RateLimit
pub mod Host
pub mod Security
pub mod Audit
pub mod Mfa
pub mod World
pub mod Service
pub mod Async
pub mod Admin
pub mod Authorization
pub mod Csrf
pub mod Readiness
pub mod Social
pub mod Jwt
pub mod IdToken
pub mod Origin
pub mod WebAuthn
pub mod Fixtures
