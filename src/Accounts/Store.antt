-- ===== src/Accounts/Store.antt =====
-- The tables and their statements (api/localauth/store.go, token.go, and `credentialFromRequest` and
-- `Authorize` of authorizer.go). A row holds the columns that the code reads back. The constraints of
-- metadata/migrations that a statement can break are part of it: a username and a user id are
-- unique, so are a user's membership of a tenant and a token's hash, and the rows of a deleted user
-- go with it. A transaction is one step.
use cairnobs.Access.Roles.{Role, viewer, editor, admin, owner, service, unknown_role, Identity}
use cairnobs.Base.{
  ℕ, Bool, true, false, not, ◌&&◌, ◌||◌, List, [], ◌∷◌, ◌++◌, Option, none, some, if◌then◌else◌,
  any, ◌==◌, ltb, Text, text_eq, is_empty, codes, find_if, remove_if, update_if, count_if,
}
use cairnobs.Base.Results.{Result, ok, err}
use cairnobs.Access.Limiter.{Attempts}

pub data StoreError : Type 0 where
  not_found username_taken store_failed : StoreError

-- `username` is empty for a user of the single sign-on, and then there is no password either.
pub record UserRow : Type 0 where
  pub id : Text
  pub username : Option Text
  pub password_hash : Text
  pub display_timezone : Text

pub record Membership : Type 0 where
  pub tenant_id : Text
  pub user_id : Text
  pub role : Role

pub record SessionRow : Type 0 where
  pub user_id : Text
  pub tenant_id : Text
  pub role : Role
  pub token_hash : Text
  pub expires_at : ℕ

-- The tables, and the login attempts that the Handler keeps in memory.
pub record Site : Type 0 where
  pub users : List UserRow
  pub memberships : List Membership
  pub sessions : List SessionRow
  pub attempts : Attempts

pub record User : Type 0 where
  pub id : Text
  pub username : Text
  pub role : Role
  pub display_timezone : Text

abbrev pub default_tenant_id : Text
default_tenant_id = codes "default"

abbrev pub role_code : Role → ℕ
role_code viewer = 0
role_code editor = 1
role_code admin = 2
role_code owner = 3
role_code service = 4
role_code unknown_role = 5

abbrev pub same_role : Role → Role → Bool
same_role a b = role_code a == role_code b

-- `id = $1 AND username IS NOT NULL`
abbrev pub is_local : Text → UserRow → Bool
is_local id u = text_eq u.id id && named u.username
  where
    named : Option Text → Bool
    named none = false
    named (some _) = true

abbrev pub has_username : Text → UserRow → Bool
has_username name u = same u.username
  where
    same : Option Text → Bool
    same none = false
    same (some n) = text_eq n name

-- The membership of a user in the default tenant.
abbrev pub is_member : Text → Membership → Bool
is_member id m = text_eq m.user_id id && text_eq m.tenant_id default_tenant_id

abbrev pub has_role : Role → Membership → Bool
has_role role m = text_eq m.tenant_id default_tenant_id && same_role m.role role

abbrev pub is_session_of : Text → SessionRow → Bool
is_session_of id s = text_eq s.user_id id

abbrev pub map_role : Option Membership → Option Role
map_role none = none
map_role (some m) = some m.role

-- The role that a user has in the default tenant.
unfoldable pub role_of : Text → Site → Option Role
role_of id site = map_role (find_if (is_member id) site.memberships)

abbrev pub name_of : Option Text → Text
name_of none = []
name_of (some n) = n

abbrev pub joined : UserRow → Option Role → Result StoreError User
joined u none = err not_found
joined u (some role) = ok (record {
  id = u.id;
  username = name_of u.username;
  role = role;
  display_timezone = u.display_timezone;
})

abbrev pub join_role : Site → Option UserRow → Result StoreError User
join_role site none = err not_found
join_role site (some u) = joined u (role_of u.id site)

unfoldable pub get_user_by_id : Text → Site → Result StoreError User
unfolding role_of
get_user_by_id id site = join_role site (find_if (is_local id) site.users)

abbrev pub with_hash : Option UserRow → Result StoreError User → Result StoreError (User × Text)
with_hash none r = err not_found
with_hash (some u) (ok user) = ok (user, u.password_hash)
with_hash (some u) (err e) = err e

unfoldable pub get_user_for_login : Text → Site → Result StoreError (User × Text)
unfolding role_of
get_user_for_login name site =
    let row = find_if (has_username name) site.users in with_hash row (join_role site row)

abbrev pub hash_of : Option UserRow → Result StoreError Text
hash_of none = err not_found
hash_of (some u) = ok u.password_hash

unfoldable pub get_password_hash_by_id : Text → Site → Result StoreError Text
get_password_hash_by_id id site = hash_of (find_if (is_local id) site.users)

abbrev pub local_user : Site → UserRow → List User
local_user site u = one u.username (role_of u.id site)
  where
    one : Option Text → Option Role → List User
    one (some n) (some role) =
        record { id = u.id; username = n; role = role; display_timezone = u.display_timezone } ∷ []
    one _ _ = []

unfoldable pub list_from : Site → List UserRow → List User
list_from site [] = []
list_from site (u ∷ us) = local_user site u ++ list_from site us

-- In the order of the table; the code sorts by username.
unfoldable pub list_users : Site → Result StoreError (List User)
unfolding list_from
list_users site = ok (list_from site site.users)

unfoldable pub count_users_with_role : Role → Site → Result StoreError ℕ
count_users_with_role role site = ok (count_if (has_role role) site.memberships)

unfoldable pub create_user : Text → Text → Text → Role → Site → Result StoreError (User × Site)
create_user id name hash role site =
    if any (λ u. has_username name u || text_eq u.id id) site.users
    then err username_taken
    else if any (is_member id) site.memberships
    then err store_failed
    else ok (
      record { id = id; username = name; role = role; display_timezone = [] },
      record site {
        users =
            site.users
            ++ (record {
              id = id;
              username = some name;
              password_hash = hash;
              display_timezone = codes "UTC";
            }
                ∷ []);
        memberships =
            site.memberships
            ++ (record { tenant_id = default_tenant_id; user_id = id; role = role } ∷ []);
      },
    )

unfoldable pub delete_user : Text → Site → Result StoreError (Unit {0} × Site)
delete_user id site =
    if not (any (is_local id) site.users)
    then err not_found
    else ok (
      tt,
      record site {
        users = remove_if (is_local id) site.users;
        memberships = remove_if (λ m. text_eq m.user_id id) site.memberships;
        sessions = remove_if (is_session_of id) site.sessions;
      },
    )

unfoldable pub set_password_hash : Text → Text → Site → Result StoreError (Unit {0} × Site)
set_password_hash id hash site =
    if not (any (is_local id) site.users)
    then err not_found
    else ok (
      tt,
      record site {
        users = update_if (is_local id) (λ u. record u { password_hash = hash }) site.users;
        sessions = remove_if (is_session_of id) site.sessions;
      },
    )

unfoldable pub set_role : Text → Role → Site → Result StoreError (Unit {0} × Site)
set_role id role site =
    if not (any (is_member id) site.memberships && any (is_local id) site.users)
    then err not_found
    else ok (
      tt,
      record site {
        memberships = update_if (is_member id) (λ m. record m { role = role }) site.memberships;
        sessions = remove_if (is_session_of id) site.sessions;
      },
    )

unfoldable pub set_display_timezone : Text → Text → Site → Result StoreError (Unit {0} × Site)
set_display_timezone id tz site =
    if not (any (is_local id) site.users)
    then err not_found
    else ok (
      tt,
      record site {
        users = update_if (is_local id) (λ u. record u { display_timezone = tz }) site.users;
      },
    )

-- `token_hash` is the hash of the fresh token; an unknown user or a second row with the hash
-- violates a constraint.
unfoldable pub create_session :
    Text → Text → Text → Role → ℕ → Site → Result StoreError (Unit {0} × Site)
create_session token_hash user_id tenant_id role expires_at site =
    if not (any (λ u. text_eq u.id user_id) site.users)
      || any (λ s. text_eq s.token_hash token_hash) site.sessions
    then err store_failed
    else ok (
      tt,
      record site {
        sessions =
            site.sessions
            ++ (record {
              user_id = user_id;
              tenant_id = tenant_id;
              role = role;
              token_hash = token_hash;
              expires_at = expires_at;
            }
                ∷ []);
      },
    )

abbrev pub live : ℕ → Option SessionRow → Result StoreError SessionRow
live now none = err not_found
live now (some s) = if ltb s.expires_at now then err not_found else ok s

unfoldable pub get_session : Text → ℕ → Site → Result StoreError SessionRow
get_session token_hash now site =
    live now (find_if (λ s. text_eq s.token_hash token_hash) site.sessions)

unfoldable pub delete_session_by_hash : Text → Site → Result StoreError (Unit {0} × Site)
delete_session_by_hash token_hash site =
    ok (
      tt,
      record site { sessions = remove_if (λ s. text_eq s.token_hash token_hash) site.sessions },
    )

-- What a request presents: the Authorization header and the session cookie, empty where it has none.
pub record Credentials : Type 0 where
  pub authorization : Text
  pub cookie : Text

abbrev pub bearer : Text → Text
bearer (a ∷ b ∷ c ∷ d ∷ e ∷ f ∷ g ∷ rest) =
    if text_eq (a ∷ b ∷ c ∷ d ∷ e ∷ f ∷ g ∷ []) (codes "Bearer ") then rest else []
bearer _ = []

abbrev pub cookie_value : Text → Option Text
cookie_value c = if is_empty c then none else some c

unfoldable pub credential_from_request : Credentials → Option Text
credential_from_request c =
    if is_empty (bearer c.authorization)
    then cookie_value c.cookie
    else some (bearer c.authorization)

abbrev pub identity_of : Result StoreError SessionRow → Result Text Identity
identity_of (ok s) = ok (record { tenant_id = s.tenant_id; user_id = s.user_id; role = s.role })
identity_of (err e) = err []

unfoldable pub by_token : (Text → Text) → ℕ → Site → Option Text → Result Text Identity
unfolding get_session
by_token hash_token now site none = err []
by_token hash_token now site (some raw) = identity_of (get_session (hash_token raw) now site)

-- `Authorize`; the error's text does not matter.
unfoldable pub authorize : (Text → Text) → ℕ → Credentials → Site → Result Text Identity
unfolding credential_from_request by_token
authorize hash_token now c site = by_token hash_token now site (credential_from_request c)
