-- ===== src/Accounts/Keeps/Users.antt =====
-- Creating, deleting and promoting users keeps the tables sound.
use cairnobs.Access.Roles.{Role, owner, Identity}
use cairnobs.Accounts.Handlers.{
  byte_length, Env, gets_user, counts_owners, creates_user, deletes_user, sets_role, gets_updated,
  failed, no_content, user_reply, CreateUserRequest, store_err, server_err, is_self, is_not_owner,
  is_privileged, role_of_text, valid_role, handle_create_user, keep_an_owner, create_err,
  would_remove_last_owner, handle_delete_user, handle_set_role,
}
use cairnobs.Accounts.Invariant.{Inv, owners}
use cairnobs.Accounts.Members.{create_user-Inv, delete_user-Inv}
use cairnobs.Accounts.Promotions.{set_role-Inv}
use cairnobs.Accounts.Store.{
  store_failed, Site, same_role, role_of, get_user_by_id, count_users_with_role,
}
use cairnobs.Base.{
  ◌≤◌, Bool, true, false, not, ◌&&◌, Option, some, ◌≡◌, refl, ap, ◌⊎◌, inl, inr, arith, leb, ltb,
  is_empty, Text,
}
use cairnobs.Base.Handler.{answer_if, answers, continues}
use cairnobs.Accounts.Found.{get_user_by_id-role}
use cairnobs.Base.Triple.{
  Triple, Nothing, bind-Triple, answer_if-Triple, or_fail-Triple, answer-Triple, return-Triple,
  reads-Triple, any_value, writes-Triple,
}

module _ (env : Env) where
  pub handle_create_user-Triple :
      (i : Option Identity) (body : Option CreateUserRequest)
      → Triple Inv Nothing (λ _. Nothing) (handle_create_user env i body)
  unfolding handle_create_user
  handle_create_user-Triple i body = bind-Triple _ _ (or_fail-Triple (failed 400) body) λ req.
      bind-Triple _ _ (answer_if-Triple (is_empty req.username) (failed 400)) λ _.
        bind-Triple _ _ (answer_if-Triple (ltb (byte_length req.password) 8) (failed 400)) λ _.
          bind-Triple _ _ (return-Triple _) λ role.
            bind-Triple _ _ (answer_if-Triple (not (valid_role role)) (failed 400)) λ _.
              bind-Triple _ _ (answer_if-Triple (is_not_owner i && is_privileged role) (failed 403))
                λ _.
                  bind-Triple _ _ (or_fail-Triple (failed 500) (env.hash_password req.password))
                    λ hash.
                      bind-Triple _ _
                        (writes-Triple create_err store_failed (env.is_up creates_user) _
                          (λ s v p. create_user-Inv env.fresh_id req.username hash role s v))
                        λ user. answer-Triple _ (user_reply 201 user)

  would_remove_last_owner-Triple :
      {P : Site → Type 0}
      → Triple Inv P (λ b t. P t × (b ≡ leb (owners t) 1)) (would_remove_last_owner env)
  unfolding would_remove_last_owner
  would_remove_last_owner-Triple =
      bind-Triple _ _
        (reads-Triple (λ n t. n ≡ owners t) server_err store_failed (env.is_up counts_owners)
          (count_users_with_role owner) (λ s. unfold count_users_with_role in refl))
        λ n s v p. continues (v, (p.0, ap (λ k. leb k 1) p.1))

  -- An owner is taken away only where there is another one.
  keep_an_owner-Triple :
      {P : Site → Type 0} (b : Bool)
      → Triple Inv P (λ _ t. P t × ((b ≡ false) ⊎ (2 ≤ owners t))) (keep_an_owner env b)
  unfolding keep_an_owner
  keep_an_owner-Triple false s v p = continues (v, (p, inl refl))
  keep_an_owner-Triple {P} true s v p =
      bind-Triple _ _ (would_remove_last_owner-Triple {P = P}) refuse s v p
    where
      refuse :
          (b : Bool)
          → Triple Inv
              (λ t. P t × (b ≡ leb (owners t) 1))
              (λ _ t. P t × ((true ≡ false) ⊎ (2 ≤ owners t)))
              (answer_if b (failed 409))
      refuse true s v p = answers v
      refuse false s v p = continues (v, (p.0, inr (ground (arith, p.1))))

  pub handle_delete_user-Triple :
      (i : Option Identity) (id : Text)
      → Triple Inv Nothing (λ _. Nothing) (handle_delete_user env i id)
  unfolding handle_delete_user
  handle_delete_user-Triple i id =
      bind-Triple _ _ (answer_if-Triple (is_self i id) (failed 409)) λ _.
        bind-Triple _ _
          (reads-Triple (λ u t. role_of id t ≡ some u.role) store_err store_failed
            (env.is_up gets_user) (get_user_by_id id) (get_user_by_id-role id))
          λ target.
            bind-Triple _ _
              (answer_if-Triple (is_not_owner i && is_privileged target.role) (failed 403))
              λ _. bind-Triple _ _ (keep_an_owner-Triple (same_role target.role owner)) λ _.
                bind-Triple _ _
                  (writes-Triple store_err store_failed (env.is_up deletes_user) _
                    (λ s v p. delete_user-Inv id s (target.role, p.0.1, p.1) v))
                  λ _. answer-Triple _ no_content

  pub handle_set_role-Triple :
      (id : Text) (body : Option Text)
      → Triple Inv Nothing (λ _. Nothing) (handle_set_role env id body)
  unfolding handle_set_role
  handle_set_role-Triple id body = bind-Triple _ _ (or_fail-Triple (failed 400) body) λ req.
      bind-Triple _ _ (answer_if-Triple (not (valid_role (role_of_text req))) (failed 400)) λ _.
        bind-Triple _ _
          (reads-Triple (λ u t. role_of id t ≡ some u.role) store_err store_failed
            (env.is_up gets_user) (get_user_by_id id) (get_user_by_id-role id))
          λ current.
            bind-Triple _ _
              (keep_an_owner-Triple
                (same_role current.role owner && not (same_role (role_of_text req) owner)))
              λ _.
                bind-Triple _ _
                  (writes-Triple store_err store_failed (env.is_up sets_role) _ (λ s v p.
                    set_role-Inv id (role_of_text req) s
                      (current.role, p.0.1, may_set current.role (role_of_text req) s p.1) v))
                  λ _.
                    bind-Triple _ _
                      (reads-Triple (λ _. Nothing) store_err store_failed (env.is_up gets_updated)
                        (get_user_by_id id) (λ s. any_value _))
                      λ user. answer-Triple _ (user_reply 200 user)
    where
      may_set :
          (old role : Role) (s : Site)
          → ((same_role old owner && not (same_role role owner)) ≡ false) ⊎ (2 ≤ owners s)
          → (same_role old owner ≡ false) ⊎ ((same_role role owner ≡ true) ⊎ (2 ≤ owners s))
      may_set old role s h = ground (arith, h)
