-- ===== src/Accounts/Keeps/Passwords.antt =====
-- Changing passwords and settings keeps the tables sound.
use cairnobs.Access.Roles.{satisfies, owner, Identity}
use cairnobs.Accounts.Handlers.{
  byte_length, Env, gets_user, sets_hash, sets_timezone, gets_hash, failed, no_content,
  password_reply, store_err, identity_or_zero, new_password, handle_reset_password,
  handle_change_own_password, handle_set_timezone,
}
use cairnobs.Accounts.Invariant.{Inv, set_password_hash-Inv, set_display_timezone-Inv}
use cairnobs.Accounts.Store.{store_failed, same_role, get_user_by_id}
use cairnobs.Base.{not, ◌&&◌, Option, inl, inr, Bool-cases, ltb, is_empty, codes, Text, text_eq}
use cairnobs.Base.Triple.{
  Triple, Nothing, bind-Triple, answer_if-Triple, or_fail-Triple, answer-Triple, return-Triple,
  reads-Triple, any_value, writes-Triple,
}

module _ (env : Env) where
  new_password-Triple : (p : Text) → Triple Inv Nothing (λ _. Nothing) (new_password env p)
  unfolding new_password
  new_password-Triple p = elim (Bool-cases (is_empty p)) [
    | inl e ↦ rw e (
        bind-Triple _ _ (or_fail-Triple (failed 500) env.fresh_token)
          λ raw. return-Triple (raw, raw))
    | inr e ↦ rw e (
        bind-Triple _ _ (answer_if-Triple (ltb (byte_length p) 8) (failed 400))
          λ _. return-Triple (p, codes ""))
  ]

  pub handle_reset_password-Triple :
      (i : Option Identity) (id : Text) (body : Option Text)
      → Triple Inv Nothing (λ _. Nothing) (handle_reset_password env i id body)
  unfolding handle_reset_password
  handle_reset_password-Triple i id body =
      bind-Triple _ _ (answer_if-Triple (text_eq id (identity_or_zero i).user_id) (failed 400)) λ _.
        bind-Triple _ _
          (reads-Triple (λ _. Nothing) store_err store_failed (env.is_up gets_user)
            (get_user_by_id id) (λ s. any_value _))
          λ target.
            bind-Triple _ _
              (answer_if-Triple
                (same_role target.role owner && not (satisfies (identity_or_zero i).role owner))
                (failed 403))
              λ _. bind-Triple _ _ (or_fail-Triple (failed 400) body) λ req.
                bind-Triple _ _ (λ s v p. new_password-Triple req s v tt)
                  λ password.
                    bind-Triple _ _ (or_fail-Triple (failed 500) (env.hash_password password.0))
                      λ hash.
                        bind-Triple _ _
                          (writes-Triple store_err store_failed (env.is_up sets_hash) _
                            (λ s v p. set_password_hash-Inv id hash s v))
                          λ _. answer-Triple _ (password_reply password.1)

  pub handle_change_own_password-Triple :
      (i : Option Identity) (body : Option (Text × Text))
      → Triple Inv Nothing (λ _. Nothing) (handle_change_own_password env i body)
  unfolding handle_change_own_password
  handle_change_own_password-Triple i body =
      bind-Triple _ _ (or_fail-Triple (failed 400) body) λ req.
        bind-Triple _ _ (answer_if-Triple (ltb (byte_length req.1) 8) (failed 400)) λ _.
          bind-Triple _ _
            (reads-Triple (λ _. Nothing) store_err store_failed (env.is_up gets_hash) _
              (λ s. any_value _))
            λ hash.
              bind-Triple _ _
                (answer_if-Triple (not (env.compare_password hash req.0)) (failed 400))
                λ _.
                  bind-Triple _ _ (or_fail-Triple (failed 500) (env.hash_password req.1))
                    λ new_hash.
                      bind-Triple _ _
                        (writes-Triple store_err store_failed (env.is_up sets_hash) _ (λ s v p.
                          set_password_hash-Inv (identity_or_zero i).user_id new_hash s v))
                        λ _. answer-Triple _ no_content

  pub handle_set_timezone-Triple :
      (i : Option Identity) (body : Option Text)
      → Triple Inv Nothing (λ _. Nothing) (handle_set_timezone env i body)
  unfolding handle_set_timezone
  handle_set_timezone-Triple i body = bind-Triple _ _ (or_fail-Triple (failed 400) body) λ tz.
      bind-Triple _ _ (answer_if-Triple (is_empty tz) (failed 400)) λ _.
        bind-Triple _ _ (answer_if-Triple (ltb 64 (byte_length tz)) (failed 400)) λ _.
          bind-Triple _ _ (answer_if-Triple (text_eq tz (codes "Local")) (failed 400)) λ _.
            bind-Triple _ _ (answer_if-Triple (not (env.is_location tz)) (failed 400)) λ _.
              bind-Triple _ _
                (writes-Triple store_err store_failed (env.is_up sets_timezone) _
                  (λ s v p. set_display_timezone-Inv (identity_or_zero i).user_id tz s v))
                λ _. answer-Triple _ no_content
