-- ===== src/Storage/Users.antt =====
-- memory.py: users, identities and credentials.
use Prim.Native.String
use coreline_auth_module.Common.{
  ℕ, String, Bool, true, ◌&&◌, ◌||◌, Option, none, some, List, take, drop, select, sort_by, is_none,
  is_text, has_text, get_or, if◌then◌else◌,
}
use coreline_auth_module.Common.Text.{lower, strip, occurs_in}
use coreline_auth_module.Common.Dict
use coreline_auth_module.Errors.{Result, ok, raise, validation}
use coreline_auth_module.Models.{
  AuthUser, AuthIdentity, AuthCredential, UserStatus, Role, eq_status, eq_role,
}
use coreline_auth_module.Storage.State.{Storage, resolve}

unfoldable pub email_key : String → String
unfolding lower strip
email_key email = lower (strip email)

unfoldable pub create_user : AuthUser → Storage → Result Storage
create_user user s =
    let key = email_key user.primary_email in
    if Dict.contains key s.users_by_email
    then raise (validation "user email already exists")
    else ok (record s {
      users = Dict.set user.id user s.users;
      users_by_email = Dict.set key user.id s.users_by_email;
    })

unfoldable pub get_user : String → Storage → Option AuthUser
get_user user_id s = Dict.get user_id s.users

unfoldable pub get_user_by_email : String → Storage → Option AuthUser
get_user_by_email email s = resolve (Dict.get (email_key email) s.users_by_email) s.users

unfoldable pub update_user : AuthUser → Storage → Result Storage
update_user user s =
    if Dict.contains user.id s.users
    then ok (record s {
      users = Dict.set user.id user s.users;
      users_by_email = Dict.set (email_key user.primary_email) user.id s.users_by_email;
    })
    else raise (validation "user not found")

-- The arguments of `list_users`. Filters that come as texts are turned into members of the
-- enumerations by the callers that this development models.
pub record UserQuery : Type 0 where
  pub query : Option String
  pub status : Option UserStatus
  pub role : Option Role
  pub limit : Option ℕ
  pub offset : ℕ

abbrev pub all_users : UserQuery
all_users = record { query = none; status = none; role = none; limit = none; offset = 0 }

abbrev matches_status : Option UserStatus → AuthUser → Bool
matches_status none user = true
matches_status (some st) user = eq_status user.status st

abbrev matches_role : Option Role → AuthUser → Bool
matches_role none user = true
matches_role (some r) user = eq_role user.role r

-- The filter on the text that is searched for.
abbrev matches_search : String → AuthUser → Bool
matches_search search user =
    if is_text search
    then occurs_in search (lower user.id)
      || occurs_in search (lower user.primary_email)
      || occurs_in search (lower (get_or user.display_name ""))
    else true

abbrev take_limit {ℓ} : {A : Type ℓ} → Option ℕ → List A → List A
take_limit none xs = xs
take_limit (some n) xs = take n xs

unfoldable pub list_users : UserQuery → Storage → List AuthUser
list_users q s =
    let search = if has_text q.query then lower (strip (get_or q.query "")) else "" in
    let sorted = sort_by (λ (u : AuthUser). u.created_at) (Dict.values s.users) in
    let found = select (matches_search search) sorted in
    let with_status = select (matches_status q.status) found in
    let with_role = select (matches_role q.role) with_status in
    take_limit q.limit (drop q.offset with_role)

-- The key of an identity: `f"{provider}:{provider_subject}"`.
abbrev identity_key : String → String → String
identity_key provider subject = String.◌++◌ provider (String.◌++◌ ":" subject)

unfoldable pub upsert_identity : AuthIdentity → Storage → Storage
upsert_identity identity s =
    if has_text identity.provider_subject
    then record s {
      identities =
          Dict.set (identity_key identity.provider (get_or identity.provider_subject "")) identity
            s.identities;
    }
    else s

unfoldable pub get_identity : String → String → Storage → Option AuthIdentity
get_identity provider subject s = Dict.get (identity_key provider subject) s.identities

unfoldable pub upsert_credential : AuthCredential → Storage → Storage
upsert_credential credential s =
    let stored = record s { credentials = Dict.set credential.id credential s.credentials } in
    if has_text credential.password_hash && is_none credential.revoked_at
    then record stored {
      password_credentials_by_user =
          Dict.set credential.user_id credential.id s.password_credentials_by_user;
    }
    else stored

unfoldable pub get_password_credential : String → Storage → Option AuthCredential
get_password_credential user_id s =
    resolve (Dict.get user_id s.password_credentials_by_user) s.credentials
