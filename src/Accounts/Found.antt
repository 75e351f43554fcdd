-- ===== src/Accounts/Found.antt =====
-- The users that the store finds have the role that their membership gives them.
use cairnobs.Access.Roles.{Role}
use cairnobs.Accounts.Store.{
  UserRow, Site, is_local, has_username, joined, join_role, with_hash, role_of, get_user_by_id,
  get_user_for_login,
}
use cairnobs.Base.{
  Option, none, some, ◌≡◌, refl, sym, ap, arith, Text, text_eq_iff, find_if, find_if-holds,
}
use cairnobs.Base.Results.{OnOk}

pub get_user_by_id-role :
    (id : Text) (site : Site) → OnOk (λ u. role_of id site ≡ some u.role) (get_user_by_id id site)
unfolding get_user_by_id
get_user_by_id-role id site = by_row (find_if (is_local id) site.users) refl
  where
    by_role :
        (u : UserRow) (o : Option Role)
        → role_of id site ≡ o
        → OnOk (λ w. role_of id site ≡ some w.role) (joined u o)
    by_role u none e = tt
    by_role u (some r) e = e

    by_row :
        (o : Option UserRow)
        → find_if (is_local id) site.users ≡ o
        → OnOk (λ w. role_of id site ≡ some w.role) (join_role site o)
    by_row none e = tt
    by_row (some u) e = by_role u (role_of u.id site) (
        ap (λ j. role_of j site)
          (sym
            ((text_eq_iff u.id id).0 (ground (arith, find_if-holds (is_local id) site.users u e)))))

pub get_user_for_login-role :
    (name : Text) (site : Site)
    → OnOk (λ f. role_of f.0.id site ≡ some f.0.role) (get_user_for_login name site)
unfolding get_user_for_login
get_user_for_login-role name site = by_row (find_if (has_username name) site.users)
  where
    by_role :
        (u : UserRow) (o : Option Role)
        → role_of u.id site ≡ o
        → OnOk (λ f. role_of f.0.id site ≡ some f.0.role) (with_hash (some u) (joined u o))
    by_role u none e = tt
    by_role u (some r) e = e

    by_row :
        (o : Option UserRow)
        → OnOk (λ f. role_of f.0.id site ≡ some f.0.role) (with_hash o (join_role site o))
    by_row none = tt
    by_row (some u) = by_role u (role_of u.id site) refl
