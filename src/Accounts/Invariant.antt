-- ===== src/Accounts/Invariant.antt =====
-- What the tables keep, whatever the store is asked to do.
use cairnobs.Access.Roles.{Role, owner}
use cairnobs.Accounts.Store.{
  StoreError, Membership, SessionRow, Site, default_tenant_id, is_local, is_member, has_role,
  is_session_of, map_role, role_of, set_password_hash, set_display_timezone, create_session,
  delete_session_by_hash,
}
use cairnobs.Base.{
  ℕ, ◌≤◌, true, not, ◌||◌, List, [], ◌∷◌, some, ◌≡◌, refl, inl, inr, Bool-cases, any, Text, text_eq,
  text_eq_iff, All, All-append, All-map, All-remove_if, find_if, count_if, remove_if,
}
use cairnobs.Base.Results.{OnOk, Result}

abbrev pub owners : Site → ℕ
owners site = count_if (has_role owner) site.memberships

-- A session has the role that its user has now.
abbrev pub IsCurrent : List Membership → SessionRow → Type 0
IsCurrent ms s = map_role (find_if (is_member s.user_id) ms) ≡ some s.role

pub record Inv (site : Site) : Type 0 where
  pub one_each : (id : Text) → count_if (is_member id) site.memberships ≤ 1
  pub owned : 1 ≤ owners site
  pub current : All (IsCurrent site.memberships) site.sessions

-- Nothing but users and attempts differs.
pub same_tables-Inv :
    (a b : Site) → Inv a → b.memberships ≡ a.memberships → b.sessions ≡ a.sessions → Inv b
same_tables-Inv a b v m s = record {
  one_each = rw m v.one_each;
  owned = rw m v.owned;
  current = rw (m, s) v.current;
}

pub same_id : (a b : Text) → text_eq a b ≡ true → a ≡ b
same_id a b h = (text_eq_iff a b).0 h

-- A write that keeps the tables sound.
abbrev pub KeepsInv : {A : Type 0} → Result StoreError (A × Site) → Type 0
KeepsInv = OnOk (λ p. Inv p.1)

pub set_password_hash-Inv :
    (id hash : Text) (site : Site) → Inv site → KeepsInv (set_password_hash id hash site)
unfolding set_password_hash
set_password_hash-Inv id hash site v = elim (Bool-cases (not (any (is_local id) site.users))) [
  | inl n ↦ rw n tt
  | inr n ↦ rw n (record {
    one_each = v.one_each;
    owned = v.owned;
    current =
        All-map _ _ (remove_if (is_session_of id) site.sessions) (λ s c. c.0)
          (All-remove_if _ (is_session_of id) site.sessions v.current);
  })
]

pub set_display_timezone-Inv :
    (id tz : Text) (site : Site) → Inv site → KeepsInv (set_display_timezone id tz site)
unfolding set_display_timezone
set_display_timezone-Inv id tz site v = elim (Bool-cases (not (any (is_local id) site.users))) [
  | inl n ↦ rw n tt
  | inr n ↦ rw n (same_tables-Inv site _ v refl refl)
]

pub create_session-Inv :
    (token_hash id : Text) (role : Role) (expires_at : ℕ) (site : Site)
    → role_of id site ≡ some role
    → Inv site
    → KeepsInv (create_session token_hash id default_tenant_id role expires_at site)
unfolding create_session role_of
create_session-Inv token_hash id role expires_at site e v =
    elim (Bool-cases (
      not (any (λ u. text_eq u.id id) site.users)
      || any (λ s. text_eq s.token_hash token_hash) site.sessions)) [
        | inl n ↦ rw n tt
        | inr n ↦ rw n (record {
          one_each = v.one_each;
          owned = v.owned;
          current = All-append _ site.sessions (_ ∷ []) v.current (e, tt);
        })
      ]

pub delete_session_by_hash-Inv :
    (token_hash : Text) (site : Site) → Inv site → KeepsInv (delete_session_by_hash token_hash site)
unfolding delete_session_by_hash
delete_session_by_hash-Inv token_hash site v = record {
  one_each = v.one_each;
  owned = v.owned;
  current =
      All-map _ _ (remove_if (λ s. text_eq s.token_hash token_hash) site.sessions) (λ s c. c.0)
        (All-remove_if _ (λ s. text_eq s.token_hash token_hash) site.sessions v.current);
}
