-- ===== src/Accounts/Server.antt =====
-- The routes of local accounts with the roles they ask for (`RegisterRoutes` of
-- api/localauth/handler.go), behind the Authorizer that reads the sessions.
use cairnobs.Access.Roles.{Role, viewer, admin, owner, Identity}
use cairnobs.Access.Route.{route}
use cairnobs.Accounts.Store.{Site, Credentials, authorize}
use cairnobs.Accounts.Handlers.{
  Env, gets_session, Reply, failed, no_content, CreateUserRequest, handle_login, handle_logout,
  handle_get_session, handle_list_users, handle_create_user, handle_delete_user, handle_set_role,
  handle_reset_password, handle_change_own_password, handle_set_timezone,
}
use cairnobs.Base.{Bool, true, false, List, [], ◌∷◌, Option, some, Text}
use cairnobs.Base.Handler.{Handler, answer_of}
use cairnobs.Base.Results.{Result, err}

pub data Request : Type 0 where
  login : (ip : Text) → Option (Text × Text) → Request
  logout session list_users : Request
  change_password : Option (Text × Text) → Request
  set_timezone : Option Text → Request
  create_user : Option CreateUserRequest → Request
  delete_user : (id : Text) → Request
  reset_password : (id : Text) → Option Text → Request
  set_role : (id : Text) → Option Text → Request

-- A failing look-up is an error too.
unfoldable pub authorized : Env → Credentials → Site → Result Text Identity
authorized env c site = by_store (env.is_up gets_session)
  where
    by_store : Bool → Result Text Identity
    by_store true = authorize env.hash_token env.now c site
    by_store false = err []

-- `authz.RequireRole(h.authorizer, minRole, next)`
abbrev pub by_session :
    Env
    → Credentials
    → Role
    → (Option Identity → Handler Site Reply (Unit {0}))
    → Handler Site Reply (Unit {0})
by_session env c min_role next = λ s. route failed (some (authorized env c s)) min_role next s

unfoldable pub dispatch : Env → Credentials → Request → Handler Site Reply (Unit {0})
dispatch env c (login ip body) = handle_login env ip body
dispatch env c logout = handle_logout env c
dispatch env c session = by_session env c viewer (handle_get_session env)
dispatch env c (change_password body) =
    by_session env c viewer (λ i. handle_change_own_password env i body)
dispatch env c (set_timezone body) = by_session env c viewer (λ i. handle_set_timezone env i body)
dispatch env c list_users = by_session env c admin (λ _. handle_list_users env)
dispatch env c (create_user body) = by_session env c admin (λ i. handle_create_user env i body)
dispatch env c (delete_user id) = by_session env c admin (λ i. handle_delete_user env i id)
dispatch env c (reset_password id body) =
    by_session env c admin (λ i. handle_reset_password env i id body)
dispatch env c (set_role id body) = by_session env c owner (λ _. handle_set_role env id body)

unfoldable pub serve : Env → Credentials → Request → Site → Reply × Site
serve env c r site = answer_of no_content (dispatch env c r site)

-- Requests one after the other, each with what it meets.
unfoldable pub serve_all : List (Env × (Credentials × Request)) → Site → Site
serve_all [] site = site
serve_all ((env, (c, r)) ∷ rs) site = serve_all rs (serve env c r site).1
