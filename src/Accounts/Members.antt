-- ===== src/Accounts/Members.antt =====
-- Users come and go, and an owner stays.
use cairnobs.Access.Roles.{Role, owner}
use cairnobs.Accounts.Store.{
  has_username, Membership, SessionRow, Site, same_role, default_tenant_id, is_local, is_member,
  has_role, is_session_of, map_role, role_of, create_user, delete_user,
}
use cairnobs.Base.{
  subst, ◌≤◌, Bool, true, false, not, ◌&&◌, ◌||◌, List, [], ◌∷◌, ◌++◌, Option, none, some, ◌≡◌,
  refl, ◌⊎◌, if◌then◌else◌, inl, inr, arith, Bool-cases, any, Text, text_eq, text_eq_iff, All,
  All-map, All-remove_if, find_if, count_if, remove_if, count_if-append, count_if-any,
  count_if-remove_if, count_if_mono, count_if-find_if, count_if-remove_le, find_if-append,
  find_if-remove_if,
}
use cairnobs.Accounts.Invariant.{Inv, IsCurrent, KeepsInv, owners, same_id}

pub other_member :
    (id j : Text) (m : Membership)
    → text_eq j id ≡ false
    → is_member j m ≡ true
    → text_eq m.user_id id ≡ false
other_member id j m n h = elim (Bool-cases (text_eq m.user_id id)) [
  | inr e ↦ e
  | inl e ↦
      absurd (grind (arith, text_eq_iff m.user_id id, text_eq_iff m.user_id j, text_eq_iff j id))
]

pub appended_current :
    (ms : List Membership) (m : Membership) (s : SessionRow)
    → IsCurrent ms s
    → IsCurrent (ms ++ m ∷ []) s
appended_current ms m s h = found (find_if (is_member s.user_id) ms) refl h
  where
    found :
        (o : Option Membership)
        → find_if (is_member s.user_id) ms ≡ o
        → map_role (find_if (is_member s.user_id) ms) ≡ some s.role
        → IsCurrent (ms ++ m ∷ []) s
    found none e c = absurd (ground arith)
    found (some x) e c = rw (find_if-append (is_member s.user_id) ms (m ∷ []) x e) (rw e at c)

pub one_more :
    (ms : List Membership) (id j : Text) (role : Role)
    → ((k : Text) → count_if (is_member k) ms ≤ 1)
    → any (is_member id) ms ≡ false
    → count_if
        (is_member j)
        (ms ++ record { tenant_id = default_tenant_id; user_id = id; role = role } ∷ [])
      ≤ 1
unfolding count_if
one_more ms id j role h n = elim (Bool-cases (text_eq id j)) [
  | inl e ↦
      subst
        (λ k.
          count_if (is_member k)
            (ms ++ record { tenant_id = default_tenant_id; user_id = id; role = role } ∷ [])
          ≤ 1)
        (same_id id j e)
        (ground (
          arith,
          count_if-append (is_member id) ms
              (record { tenant_id = default_tenant_id; user_id = id; role = role } ∷ []),
          count_if-any (is_member id) ms n,
        ))
  | inr e ↦ ground (
    arith,
    e,
    h j,
    count_if-append (is_member j) ms
        (record { tenant_id = default_tenant_id; user_id = id; role = role } ∷ []),
  )
]

pub create_user-Inv :
    (id name hash : Text) (role : Role) (site : Site)
    → Inv site
    → KeepsInv (create_user id name hash role site)
unfolding create_user
create_user-Inv id name hash role site v =
    elim (Bool-cases (any (λ u. has_username name u || text_eq u.id id) site.users)) [
      | inl e ↦ rw e tt
      | inr e ↦ rw e (elim (Bool-cases (any (is_member id) site.memberships)) [
        | inl f ↦ rw f tt
        | inr f ↦ rw f (record {
          one_each = λ j. one_more site.memberships id j role v.one_each f;
          owned =
              omega (arith, v.owned, count_if-append (has_role owner) site.memberships (_ ∷ []));
          current = All-map _ _ site.sessions (appended_current site.memberships _) v.current;
        })
      ])
    ]

-- The sessions that are left belong to others, whose memberships stay.
pub others_current :
    (f : Membership → Bool) (id : Text) (site : Site)
    → ((m : Membership) → text_eq m.user_id id ≡ false → f m ≡ false)
    → Inv site
    → All (IsCurrent (remove_if f site.memberships)) (remove_if (is_session_of id) site.sessions)
others_current f id site h v =
    All-map _ _ (remove_if (is_session_of id) site.sessions)
      (λ s c.
        rw
          (find_if-remove_if (is_member s.user_id) f site.memberships
            (λ m n. h m (other_member id s.user_id m c.1 n)))
          c.0)
      (All-remove_if _ (is_session_of id) site.sessions v.current)

pub owner_is_member :
    (id : Text) (m : Membership)
    → has_role owner m && text_eq m.user_id id ≡ true
    → is_member id m ≡ true
owner_is_member id m h = ground arith

-- Only one owner goes with a user, and none where the user is no owner.
pub owners_of :
    (id : Text) (site : Site) (role : Role)
    → Inv site
    → role_of id site ≡ some role
    → count_if (λ m. has_role owner m && text_eq m.user_id id) site.memberships
      ≤ (if same_role role owner then 1 else 0)
unfolding role_of
owners_of id site role v e = by_row (find_if (is_member id) site.memberships) refl
  where
    by_role :
        (m : Membership) (b : Bool)
        → find_if (is_member id) site.memberships ≡ some m
        → m.role ≡ role
        → same_role role owner ≡ b
        → count_if (λ m. has_role owner m && text_eq m.user_id id) site.memberships
          ≤ (if b then 1 else 0)
    by_role m true f same b = omega (
      arith,
      count_if_mono (λ m. has_role owner m && text_eq m.user_id id) (is_member id) site.memberships
          (owner_is_member id),
      v.one_each id,
    )
    by_role m false f same b = omega (
      arith,
      count_if-find_if (is_member id) (λ m. has_role owner m && text_eq m.user_id id)
          site.memberships m (owner_is_member id) (v.one_each id) f (ground (arith, same, b)),
    )

    by_row :
        (o : Option Membership)
        → find_if (is_member id) site.memberships ≡ o
        → count_if (λ m. has_role owner m && text_eq m.user_id id) site.memberships
          ≤ (if same_role role owner then 1 else 0)
    by_row none f = absurd (ground (arith, e, f))
    by_row (some m) f = by_role m (same_role role owner) f (ground (arith, e, f)) refl

-- The user may be taken out: an owner, only where there is another one.
abbrev pub MayGo : Text → Site → Type 0
MayGo id site =
    (role : Role) × (role_of id site ≡ some role)
    × ((same_role role owner ≡ false) ⊎ (2 ≤ owners site))

pub delete_user-Inv :
    (id : Text) (site : Site) → MayGo id site → Inv site → KeepsInv (delete_user id site)
unfolding delete_user
delete_user-Inv id site (role, e, g) v = elim (Bool-cases (not (any (is_local id) site.users))) [
  | inl n ↦ rw n tt
  | inr n ↦ rw n (record {
    one_each = λ j. omega (
      arith,
      v.one_each j,
      count_if-remove_le (is_member j) (λ m. text_eq m.user_id id) site.memberships,
    );
    owned = ground (
      arith,
      g,
      v.owned,
      owners_of id site role v e,
      count_if-remove_if (has_role owner) (λ m. text_eq m.user_id id) site.memberships,
    );
    current = others_current (λ m. text_eq m.user_id id) id site (λ m n. n) v;
  })
]
