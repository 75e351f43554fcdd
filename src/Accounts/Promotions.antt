-- ===== src/Accounts/Promotions.antt =====
-- Roles change, and an owner stays.
use cairnobs.Access.Roles.{Role, owner}
use cairnobs.Accounts.Store.{
  Site, same_role, is_local, is_member, has_role, is_session_of, role_of, set_role,
}
use cairnobs.Base.{
  ◌+◌, ◌≤◌, true, false, ◌&&◌, some, ◌≡◌, refl, ◌⊎◌, if◌then◌else◌, inl, inr, arith, Bool-cases,
  any, Text, text_eq, All, All-map, All-remove_if, count_if, remove_if, update_if, count_if_mono,
  count_if-update_if, count_if-update_le, count_if-update_any, find_if-update_if,
}
use cairnobs.Accounts.Invariant.{Inv, IsCurrent, KeepsInv, owners}
use cairnobs.Accounts.Members.{other_member, owners_of}

-- The role of a user may be set to `role`: an owner's to another one, only where there is another
-- owner.
abbrev pub MaySet : Text → Role → Site → Type 0
MaySet id role site =
    (old : Role) × (role_of id site ≡ some old)
    × ((same_role old owner ≡ false) ⊎ ((same_role role owner ≡ true) ⊎ (2 ≤ owners site)))

set_current :
    (id : Text) (role : Role) (site : Site)
    → Inv site
    → All
        (IsCurrent (update_if (is_member id) (λ m. record m { role = role }) site.memberships))
        (remove_if (is_session_of id) site.sessions)
set_current id role site v =
    All-map _ _ (remove_if (is_session_of id) site.sessions)
      (λ s c.
        rw
          (find_if-update_if (is_member s.user_id) (is_member id) (λ m. record m { role = role })
            site.memberships (λ m. refl) (λ m n. ground (arith, other_member id s.user_id m c.1 n)))
          c.0)
      (All-remove_if _ (is_session_of id) site.sessions v.current)

-- An update of the role of a user takes away at most that user's ownership.
set_loses :
    (id : Text) (role old : Role) (site : Site)
    → Inv site
    → role_of id site ≡ some old
    → owners site
      ≤ count_if
          (has_role owner)
          (update_if (is_member id) (λ m. record m { role = role }) site.memberships)
        + (if same_role old owner then 1 else 0)
set_loses id role old site v e = omega (
  arith,
  owners_of id site old v e,
  count_if-update_le (has_role owner) (is_member id) (λ m. record m { role = role })
      site.memberships,
  count_if_mono (λ m. has_role owner m && is_member id m)
      (λ m. has_role owner m && text_eq m.user_id id) site.memberships (λ m h. ground (arith, h)),
)

set_owned :
    (id : Text) (role old : Role) (site : Site)
    → Inv site
    → any (is_member id) site.memberships ≡ true
    → role_of id site ≡ some old
    → (same_role old owner ≡ false) ⊎ ((same_role role owner ≡ true) ⊎ (2 ≤ owners site))
    → 1
      ≤ count_if
          (has_role owner)
          (update_if (is_member id) (λ m. record m { role = role }) site.memberships)
set_owned id role old site v a e (inr (inl g)) =
    count_if-update_any (has_role owner) (is_member id) (λ m. record m { role = role })
      site.memberships (λ m h. ground (arith, h, g)) a
set_owned id role old site v a e (inl g) =
    ground (arith, g, v.owned, set_loses id role old site v e)
set_owned id role old site v a e (inr (inr g)) = ground (arith, g, set_loses id role old site v e)

pub set_role-Inv :
    (id : Text) (role : Role) (site : Site)
    → MaySet id role site
    → Inv site
    → KeepsInv (set_role id role site)
unfolding set_role
set_role-Inv id role site (old, e, g) v =
    elim (Bool-cases (any (is_member id) site.memberships && any (is_local id) site.users)) [
      | inr n ↦ rw n tt
      | inl n ↦ rw n (record {
        one_each = λ j.
            rw
              (count_if-update_if (is_member j) (is_member id) (λ m. record m { role = role })
                site.memberships (λ m. refl))
              (v.one_each j);
        owned = set_owned id role old site v (ground (arith, n)) e g;
        current = set_current id role site v;
      })
    ]
