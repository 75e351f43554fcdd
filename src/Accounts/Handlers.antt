-- ===== src/Accounts/Handlers.antt =====
-- The HTTP handlers of local accounts (api/localauth/handler.go, password.go). A body is `none` where
-- decodeJSON fails. bcrypt, SHA-256, the random source, uuid and time.LoadLocation are parameters, and so is which of
-- the calls of the store fail.
use cairnobs.Access.Limiter
use cairnobs.Access.Roles.{Role, viewer, editor, admin, owner, unknown_role, Identity, satisfies}
use cairnobs.Accounts.Store
use cairnobs.Accounts.Store.{
  StoreError, not_found, username_taken, store_failed, Site, User, Credentials, same_role,
  default_tenant_id, get_user_by_id, get_user_for_login, get_password_hash_by_id,
  count_users_with_role, delete_session_by_hash, credential_from_request,
}
use cairnobs.Base.{
  ℕ, ◌+◌, Bool, true, false, not, ◌&&◌, ◌||◌, List, [], ◌∷◌, Option, none, some, if◌then◌else◌, leb,
  ltb, Text, text_eq, is_empty, codes,
}
use cairnobs.Base.Handler.{Handler, ◌>>=◌, ◌>>◌, answer, answered, return, answer_if, reads, writes}
use cairnobs.Base.Triple
use cairnobs.Base.Triple.{or_fail}
use cairnobs.Base.Results.{Result, ok, err}

-- The calls of the store, by their places in the handlers.
pub data Call : Type 0 where
  gets_session gets_for_login gets_user gets_updated gets_hash lists_users creates_user : Call
  deletes_user sets_hash sets_role sets_timezone counts_owners creates_session deletes_session :
      Call

-- What one request meets. Times are seconds.
pub record Env : Type 0 where
  pub is_up : Call → Bool
  pub now : ℕ
  pub session_ttl : ℕ
  pub fresh_id : Text
  pub fresh_token : Option Text
  pub hash_token : Text → Text
  pub hash_password : Text → Option Text
  pub compare_password : Text → Text → Bool
  pub is_location : Text → Bool

pub data Reply : Type 0 where
  failed : (status : ℕ) → Reply
  no_content : Reply
  user_reply : (status : ℕ) → User → Reply
  users_reply : List User → Reply
  session_reply : (token : Text) → User → Reply
  password_reply : Text → Reply

pub record CreateUserRequest : Type 0 where
  pub username : Text
  pub password : Text
  pub role : Text

-- The bytes of a code point in UTF-8.
abbrev utf8_length : ℕ → ℕ
utf8_length c = if ltb c 128 then 1 else if ltb c 2048 then 2 else if ltb c 65536 then 3 else 4

-- `len(s)` counts bytes.
unfoldable pub byte_length : Text → ℕ
byte_length [] = 0
byte_length (c ∷ cs) = utf8_length c + byte_length cs

-- An identity without a user, where the context has none.
abbrev no_identity : Identity
no_identity = record { tenant_id = []; user_id = []; role = unknown_role }

abbrev pub identity_or_zero : Option Identity → Identity
identity_or_zero none = no_identity
identity_or_zero (some i) = i

-- The role of an identity that is present and is no owner.
abbrev pub is_not_owner : Option Identity → Bool
is_not_owner none = false
is_not_owner (some i) = not (satisfies i.role owner)

abbrev pub is_self : Option Identity → Text → Bool
is_self none id = false
is_self (some i) id = text_eq id i.user_id

unfoldable pub role_of_text : Text → Role
unfolding text_eq
role_of_text t =
    if text_eq t (codes "viewer")
    then viewer
    else if text_eq t (codes "editor")
    then editor
    else if text_eq t (codes "admin")
    then admin
    else if text_eq t (codes "owner")
    then owner
    else unknown_role

abbrev pub valid_role : Role → Bool
valid_role viewer = true
valid_role editor = true
valid_role admin = true
valid_role owner = true
valid_role _ = false

abbrev pub is_privileged : Role → Bool
is_privileged role = same_role role admin || same_role role owner

-- `writeStoreErr`
abbrev pub store_err : StoreError → Reply
store_err not_found = failed 404
store_err _ = failed 500

abbrev pub server_err : StoreError → Reply
server_err _ = failed 500

abbrev pub login_err : StoreError → Reply
login_err not_found = failed 401
login_err _ = failed 500

abbrev pub create_err : StoreError → Reply
create_err username_taken = failed 409
create_err _ = failed 500

-- A call of the store.
abbrev pub attempt : {A : Type 0} → Bool → (Site → Result StoreError A) → Site → Result StoreError A
attempt up f = Triple.attempt store_failed up f

abbrev pub decode_json : {A : Type 0} → Option A → Handler Site Reply A
decode_json body = or_fail (failed 400) body

-- The state after a write whose failure is passed over.
abbrev pub written : Site → Result StoreError (Unit {0} × Site) → Site
written site (ok (_, t)) = t
written site (err e) = site

module _ (env : Env) where
  -- `h.loginLimits.allow(clientIP(r))`; the limiter is always on.
  unfoldable pub limit_logins : Text → Handler Site Reply (Unit {0})
  limit_logins ip site =
      let (allowed, attempts) = Limiter.allow 10 300 site.attempts ip env.now in
      answer_if (not allowed) (failed 429) (record site { attempts = attempts })

  unfoldable pub create_session : User → Text → Handler Site Reply (Unit {0})
  create_session user raw = writes server_err (
      attempt (env.is_up creates_session) (
        Store.create_session (env.hash_token raw) user.id default_tenant_id user.role
          (env.now + env.session_ttl)))

  unfoldable pub handle_login : Text → Option (Text × Text) → Handler Site Reply (Unit {0})
  unfolding limit_logins create_session
  handle_login ip body = do
    limit_logins ip
    req ← decode_json body
    answer_if (is_empty req.0 || is_empty req.1) (failed 400)
    found ← reads login_err (attempt (env.is_up gets_for_login) (get_user_for_login req.0))
    answer_if (not (env.compare_password found.1 req.1)) (failed 401)
    raw ← or_fail (failed 500) env.fresh_token
    create_session found.0 raw
    answer (session_reply raw found.0)

  -- The result of the deletion is only logged.
  unfoldable pub without_session : Option Text → Site → Site
  without_session none site = site
  without_session (some raw) site =
      written site
        (attempt (env.is_up deletes_session) (delete_session_by_hash (env.hash_token raw)) site)

  unfoldable pub handle_logout : Credentials → Handler Site Reply (Unit {0})
  unfolding without_session
  handle_logout c site = answered no_content (without_session (credential_from_request c) site)

  unfoldable pub handle_get_session : Option Identity → Handler Site Reply (Unit {0})
  handle_get_session identity = do
    user ←
        reads store_err
          (attempt (env.is_up gets_user) (get_user_by_id (identity_or_zero identity).user_id))
    answer (session_reply (codes "") user)

  unfoldable pub handle_list_users : Handler Site Reply (Unit {0})
  handle_list_users = do
    users ← reads server_err (attempt (env.is_up lists_users) Store.list_users)
    answer (users_reply users)

  unfoldable pub handle_create_user :
      Option Identity → Option CreateUserRequest → Handler Site Reply (Unit {0})
  unfolding role_of_text
  handle_create_user identity body = do
    req ← decode_json body
    answer_if (is_empty req.username) (failed 400)
    answer_if (ltb (byte_length req.password) 8) (failed 400)
    role ← return (if is_empty req.role then editor else role_of_text req.role)
    answer_if (not (valid_role role)) (failed 400)
    answer_if (is_not_owner identity && is_privileged role) (failed 403)
    hash ← or_fail (failed 500) (env.hash_password req.password)
    user ←
        writes create_err
          (attempt (env.is_up creates_user) (Store.create_user env.fresh_id req.username hash role))
    answer (user_reply 201 user)

  unfoldable pub would_remove_last_owner : Handler Site Reply Bool
  would_remove_last_owner = do
    n ← reads server_err (attempt (env.is_up counts_owners) (count_users_with_role owner))
    return (leb n 1)

  -- The check of the two handlers that can take the last owner away; without `b` it is skipped.
  unfoldable pub keep_an_owner : Bool → Handler Site Reply (Unit {0})
  unfolding would_remove_last_owner
  keep_an_owner true = would_remove_last_owner >>= λ blocked. answer_if blocked (failed 409)
  keep_an_owner false = return tt

  unfoldable pub handle_delete_user : Option Identity → Text → Handler Site Reply (Unit {0})
  unfolding keep_an_owner
  handle_delete_user identity id = do
    answer_if (is_self identity id) (failed 409)
    target ← reads store_err (attempt (env.is_up gets_user) (get_user_by_id id))
    answer_if (is_not_owner identity && is_privileged target.role) (failed 403)
    keep_an_owner (same_role target.role owner)
    _ ← writes store_err (attempt (env.is_up deletes_user) (Store.delete_user id))
    answer no_content

  unfoldable pub handle_set_role : Text → Option Text → Handler Site Reply (Unit {0})
  unfolding keep_an_owner role_of_text
  handle_set_role id body = do
    req ← decode_json body
    answer_if (not (valid_role (role_of_text req))) (failed 400)
    current ← reads store_err (attempt (env.is_up gets_user) (get_user_by_id id))
    keep_an_owner (same_role current.role owner && not (same_role (role_of_text req) owner))
    _ ← writes store_err (attempt (env.is_up sets_role) (Store.set_role id (role_of_text req)))
    user ← reads store_err (attempt (env.is_up gets_updated) (get_user_by_id id))
    answer (user_reply 200 user)

  -- The password of the request, or a fresh token where it has none, with what the reply shows.
  unfoldable pub new_password : Text → Handler Site Reply (Text × Text)
  new_password p =
      if is_empty p
      then (or_fail (failed 500) env.fresh_token >>= λ raw. return (raw, raw))
      else (answer_if (ltb (byte_length p) 8) (failed 400) >>= λ _. return (p, codes ""))

  -- An empty body reads as an empty password.
  unfoldable pub handle_reset_password :
      Option Identity → Text → Option Text → Handler Site Reply (Unit {0})
  unfolding new_password
  handle_reset_password identity id body = do
    answer_if (text_eq id (identity_or_zero identity).user_id) (failed 400)
    target ← reads store_err (attempt (env.is_up gets_user) (get_user_by_id id))
    answer_if
        (same_role target.role owner && not (satisfies (identity_or_zero identity).role owner))
        (failed 403)
    req ← decode_json body
    password ← new_password req
    hash ← or_fail (failed 500) (env.hash_password password.0)
    _ ← writes store_err (attempt (env.is_up sets_hash) (Store.set_password_hash id hash))
    answer (password_reply password.1)

  -- The current and the new password.
  unfoldable pub handle_change_own_password :
      Option Identity → Option (Text × Text) → Handler Site Reply (Unit {0})
  handle_change_own_password identity body = do
    req ← decode_json body
    answer_if (ltb (byte_length req.1) 8) (failed 400)
    hash ← reads store_err (
        attempt (env.is_up gets_hash) (get_password_hash_by_id (identity_or_zero identity).user_id))
    answer_if (not (env.compare_password hash req.0)) (failed 400)
    new_hash ← or_fail (failed 500) (env.hash_password req.1)
    _ ← writes store_err (
        attempt (env.is_up sets_hash)
          (Store.set_password_hash (identity_or_zero identity).user_id new_hash))
    answer no_content

  unfoldable pub handle_set_timezone : Option Identity → Option Text → Handler Site Reply (Unit {0})
  handle_set_timezone identity body = do
    tz ← decode_json body
    answer_if (is_empty tz) (failed 400)
    answer_if (ltb 64 (byte_length tz)) (failed 400)
    answer_if (text_eq tz (codes "Local")) (failed 400)
    answer_if (not (env.is_location tz)) (failed 400)
    _ ← writes store_err (
        attempt (env.is_up sets_timezone)
          (Store.set_display_timezone (identity_or_zero identity).user_id tz))
    answer no_content
