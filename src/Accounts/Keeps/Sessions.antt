-- ===== src/Accounts/Keeps/Sessions.antt =====
-- Logging in and out, and what a session may read, keeps the tables sound.
use cairnobs.Access.Limiter
use cairnobs.Access.Roles.{Identity}
use cairnobs.Accounts.Handlers
use cairnobs.Accounts.Handlers.{
  Call, Env, gets_user, gets_for_login, counts_owners, creates_session, creates_user, deletes_user,
  sets_role, sets_hash, sets_timezone, gets_updated, gets_hash, lists_users, deletes_session, Reply,
  failed, no_content, user_reply, users_reply, session_reply, password_reply, CreateUserRequest,
  attempt, store_err, server_err, decode_json, identity_or_zero, is_self, is_not_owner,
  is_privileged, role_of_text, valid_role, limit_logins, handle_login, handle_logout,
  handle_get_session, handle_list_users, handle_create_user, keep_an_owner, create_err, written,
  without_session, would_remove_last_owner, handle_delete_user, handle_set_role, new_password,
  handle_reset_password, handle_change_own_password, handle_set_timezone,
}
use cairnobs.Accounts.Invariant.{
  Inv, KeepsInv, same_tables-Inv, create_session-Inv, delete_session_by_hash-Inv,
}
use cairnobs.Accounts.Store.{
  StoreError, store_failed, Site, User, Credentials, role_of, get_user_for_login,
  credential_from_request,
}
use cairnobs.Base.{
  ◌+◌, Bool, true, false, not, ◌||◌, Option, none, some, ◌≡◌, refl, is_empty, codes, Text,
}
use cairnobs.Base.Handler.{answers}
use cairnobs.Base.Results.{Result, ok, err}
use cairnobs.Accounts.Found.{get_user_for_login-role}
use cairnobs.Base.Triple.{
  Triple, Nothing, bind-Triple, answer_if-Triple, or_fail-Triple, answer-Triple, reads-Triple,
  any_value, writes-Triple,
}

module _ (env : Env) where
  pub limit_logins-Triple : (ip : Text) → Triple Inv Nothing (λ _. Nothing) (limit_logins env ip)
  unfolding limit_logins
  limit_logins-Triple ip s v p =
      answer_if-Triple (not (Limiter.allow 10 300 s.attempts ip env.now).0) (failed 429) _
        (same_tables-Inv s _ v refl refl) tt

  abbrev HasRole : User → Site → Type 0
  HasRole user s = role_of user.id s ≡ some user.role

  pub create_session-Triple :
      (user : User) (raw : Text)
      → Triple Inv
          (λ t. Unit {0} × HasRole user t)
          (λ _. Nothing)
          (Handlers.create_session env user raw)
  unfolding Handlers.create_session
  create_session-Triple user raw =
      writes-Triple server_err store_failed (env.is_up creates_session) _ λ s v p.
        create_session-Inv (env.hash_token raw) user.id user.role (env.now + env.session_ttl) s p.1
          v

  pub handle_login-Triple :
      (ip : Text) (body : Option (Text × Text))
      → Triple Inv Nothing (λ _. Nothing) (handle_login env ip body)
  unfolding handle_login
  handle_login-Triple ip body = bind-Triple _ _ (limit_logins-Triple ip) λ _.
      bind-Triple _ _ (or_fail-Triple (failed 400) body) λ req.
        bind-Triple _ _ (answer_if-Triple (is_empty req.0 || is_empty req.1) (failed 400)) λ _.
          bind-Triple _ _
            (reads-Triple (λ f. HasRole f.0) _ store_failed (env.is_up gets_for_login)
              (get_user_for_login req.0) (get_user_for_login-role req.0))
            λ found.
              bind-Triple _ _
                (answer_if-Triple (not (env.compare_password found.1 req.1)) (failed 401))
                λ _. bind-Triple _ _ (or_fail-Triple (failed 500) env.fresh_token) λ raw.
                  bind-Triple _ _ (create_session-Triple found.0 raw)
                    λ _. answer-Triple _ (session_reply raw found.0)

  written-Inv :
      (s : Site) (up : Bool) (g : Site → Result StoreError (Unit {0} × Site))
      → Inv s
      → KeepsInv (g s)
      → Inv (written s (attempt up g s))
  written-Inv s false g v h = v
  written-Inv s true g v h = by_result (g s) h
    where
      by_result : (m : Result StoreError (Unit {0} × Site)) → KeepsInv m → Inv (written s m)
      by_result (ok (_, t)) q = q
      by_result (err e) q = v

  without_session-Inv : (o : Option Text) (s : Site) → Inv s → Inv (without_session env o s)
  unfolding without_session
  without_session-Inv none s v = v
  without_session-Inv (some raw) s v =
      written-Inv s (env.is_up deletes_session) _ v
        (delete_session_by_hash-Inv (env.hash_token raw) s v)

  pub handle_logout-Triple :
      (c : Credentials) → Triple Inv Nothing (λ _. Nothing) (handle_logout env c)
  unfolding handle_logout
  handle_logout-Triple c s v p = answers (without_session-Inv (credential_from_request c) s v)

  pub handle_get_session-Triple :
      (i : Option Identity) → Triple Inv Nothing (λ _. Nothing) (handle_get_session env i)
  unfolding handle_get_session
  handle_get_session-Triple i =
      bind-Triple _ _
        (reads-Triple (λ _. Nothing) store_err store_failed (env.is_up gets_user) _
          (λ s. any_value _))
        λ user. answer-Triple _ (session_reply (codes "") user)

  pub handle_list_users-Triple : Triple Inv Nothing (λ _. Nothing) (handle_list_users env)
  unfolding handle_list_users
  handle_list_users-Triple =
      bind-Triple _ _
        (reads-Triple (λ _. Nothing) server_err store_failed (env.is_up lists_users) _
          (λ s. any_value _))
        λ users. answer-Triple _ (users_reply users)
