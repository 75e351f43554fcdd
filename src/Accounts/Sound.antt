-- ===== src/Accounts/Sound.antt =====
-- Every request keeps the invariant of the tables.
use cairnobs.Access.Roles.{Role, viewer, admin, owner, Identity}
use cairnobs.Access.Route.{route-Triple}
use cairnobs.Accounts.Handlers.{Env, Reply, failed, no_content}
use cairnobs.Accounts.Invariant.{IsCurrent, Inv}
use cairnobs.Accounts.Server.{
  Request, login, logout, session, list_users, change_password, set_timezone, create_user,
  delete_user, reset_password, set_role, authorized, by_session, dispatch, serve, serve_all,
}
use cairnobs.Accounts.Store.{
  Site, Credentials, role_of, credential_from_request, authorize, by_token, get_session, SessionRow,
  identity_of, live,
}
use cairnobs.Base.{
  ℕ, List, [], ◌∷◌, Option, none, some, ◌≡◌, refl, inl, inr, Bool-cases, ltb, Text, text_eq,
  find_if, All-find_if, find_if-holds, find_if-Split, Split, text_eq_iff, arith, ◌≤◌,
}
use cairnobs.Base.Handler.{Handler}
use cairnobs.Base.Results.{ok, OnOk, OnOk-ok}
use cairnobs.Base.Triple.{Triple, Nothing, answer_of-Triple}
use cairnobs.Accounts.Keeps.Sessions.{
  handle_login-Triple, handle_logout-Triple, handle_get_session-Triple, handle_list_users-Triple,
}
use cairnobs.Accounts.Keeps.Users.{
  handle_create_user-Triple, handle_delete_user-Triple, handle_set_role-Triple,
}
use cairnobs.Accounts.Keeps.Passwords.{
  handle_reset_password-Triple, handle_change_own_password-Triple, handle_set_timezone-Triple,
}

by_session-Triple :
    (env : Env) (c : Credentials) (min_role : Role)
    (next : Option Identity → Handler Site Reply (Unit {0}))
    → ((i : Option Identity) → Triple Inv Nothing (λ _. Nothing) (next i))
    → Triple Inv Nothing (λ _. Nothing) (by_session env c min_role next)
by_session-Triple env c min_role next h s =
    route-Triple failed (some (authorized env c s)) min_role next (λ i _. h i) s

dispatch-Triple :
    (env : Env) (c : Credentials) (r : Request)
    → Triple Inv Nothing (λ _. Nothing) (dispatch env c r)
unfolding dispatch
dispatch-Triple env c (login ip body) = handle_login-Triple env ip body
dispatch-Triple env c logout = handle_logout-Triple env c
dispatch-Triple env c session = by_session-Triple env c viewer _ (handle_get_session-Triple env)
dispatch-Triple env c (change_password body) =
    by_session-Triple env c viewer _ (λ i. handle_change_own_password-Triple env i body)
dispatch-Triple env c (set_timezone body) =
    by_session-Triple env c viewer _ (λ i. handle_set_timezone-Triple env i body)
dispatch-Triple env c list_users =
    by_session-Triple env c admin _ (λ _. handle_list_users-Triple env)
dispatch-Triple env c (create_user body) =
    by_session-Triple env c admin _ (λ i. handle_create_user-Triple env i body)
dispatch-Triple env c (delete_user id) =
    by_session-Triple env c admin _ (λ i. handle_delete_user-Triple env i id)
dispatch-Triple env c (reset_password id body) =
    by_session-Triple env c admin _ (λ i. handle_reset_password-Triple env i id body)
dispatch-Triple env c (set_role id body) =
    by_session-Triple env c owner _ (λ _. handle_set_role-Triple env id body)

pub serve-Inv :
    (env : Env) (c : Credentials) (r : Request) (site : Site)
    → Inv site
    → Inv (serve env c r site).1
unfolding serve
serve-Inv env c r site v =
    answer_of-Triple no_content (dispatch env c r) (dispatch-Triple env c r) site v

-- Where the default tenant has at least one owner, a user at most one role in it, and every session
-- the role that its user has now, all of this still holds after requests one after the other,
-- whatever they are, whoever sends them and whatever fails on the way.
pub serve_all-Inv :
    (rs : List (Env × (Credentials × Request))) (site : Site) → Inv site → Inv (serve_all rs site)
unfolding serve_all
serve_all-Inv [] site v = v
serve_all-Inv ((env, (c, r)) ∷ rs) site v =
    serve_all-Inv rs (serve env c r site).1 (serve-Inv env c r site v)

-- The credential of a request opens the session now, for the identity.
pub record Opens (hash_token : Text → Text) (now : ℕ) (c : Credentials) (site : Site) (i : Identity)
    (s : SessionRow) : Type 0 where
  pub presented : Text
  pub credential : credential_from_request c ≡ some presented
  pub stored : Split site.sessions s
  pub token : s.token_hash ≡ hash_token presented
  pub unexpired : now ≤ s.expires_at
  pub user : i.user_id ≡ s.user_id
  pub tenant : i.tenant_id ≡ s.tenant_id
  pub session_role : i.role ≡ s.role
  pub current : role_of i.user_id site ≡ some i.role

authorize-OnOk :
    (hash_token : Text → Text) (now : ℕ) (c : Credentials) (site : Site)
    → Inv site
    → OnOk
        (λ i. (s : SessionRow) × Opens hash_token now c site i s)
        (authorize hash_token now c site)
unfolding authorize get_session role_of by_token
authorize-OnOk hash_token now c site v = by_credential (credential_from_request c) refl
  where
    by_row :
        (raw : Text) (o : Option SessionRow)
        → credential_from_request c ≡ some raw
        → find_if (λ s. text_eq s.token_hash (hash_token raw)) site.sessions ≡ o
        → OnOk (λ i. (s : SessionRow) × Opens hash_token now c site i s) (identity_of (live now o))
    by_row raw none p e = tt
    by_row raw (some s) p e = elim (Bool-cases (ltb s.expires_at now)) [
      | inl b ↦ rw b tt
      | inr b ↦ rw b (
        s,
        record {
          presented = raw;
          credential = p;
          stored = find_if-Split _ site.sessions s e;
          token = (text_eq_iff _ _).0 (find_if-holds _ site.sessions s e);
          unexpired = ground (arith, b);
          user = refl;
          tenant = refl;
          session_role = refl;
          current =
              unfold role_of in
              All-find_if (IsCurrent site.memberships) _ site.sessions s v.current e;
        },
      )
    ]

    by_credential :
        (o : Option Text)
        → credential_from_request c ≡ o
        → OnOk
            (λ i. (s : SessionRow) × Opens hash_token now c site i s)
            (by_token hash_token now site o)
    by_credential none p = tt
    by_credential (some raw) p = by_row raw _ p refl

-- In a sound state, whom the Authorizer lets through presented a credential whose hash is the token
-- hash of a stored session that has not expired. User, tenant and role are those of the session, and
-- the role is the one that the user has now, not only when the session began.
pub authorize-current :
    (hash_token : Text → Text) (now : ℕ) (c : Credentials) (site : Site) (i : Identity)
    → Inv site
    → authorize hash_token now c site ≡ ok i
    → (s : SessionRow) × Opens hash_token now c site i s
authorize-current hash_token now c site i v e =
    OnOk-ok _ (authorize hash_token now c site) i (authorize-OnOk hash_token now c site v) e
