-- ===== src/Access/Roles.antt =====
-- api/authz/authz.go and middleware.go, and `validGrantRole` of api/dashboards/permissions.go.
-- The handlers behind the middleware and the Authorizer are parameters.
use cairnobs.Base.{
  ℕ, Bool, true, false, not, ◌&&◌, ◌||◌, Option, none, some, Text, leb, if◌then◌else◌, ◌≡◌, ◌⊎◌,
  ◌↔◌, refl, arith,
}
use cairnobs.Base.Results.{Result, ok, err}

-- `unknown_role` stands for every other string: a missing key of `roleRank` reads as 0.
pub data Role : Type 0 where
  viewer editor admin owner service unknown_role : Role

unfoldable pub role_rank : Role → ℕ
role_rank viewer = 1
role_rank editor = 2
role_rank admin = 3
role_rank owner = 4
role_rank _ = 0

abbrev pub is_service : Role → Bool
is_service service = true
is_service _ = false

-- `r.Satisfies(required)`
unfoldable pub satisfies : Role → Role → Bool
unfolding role_rank
satisfies r required =
    if is_service required || is_service r
    then is_service required && is_service r
    else leb (role_rank required) (role_rank r)

unfoldable pub valid_grant_role : Role → Bool
valid_grant_role viewer = true
valid_grant_role editor = true
valid_grant_role _ = false

pub record Identity : Type 0 where
  pub tenant_id : Text
  pub user_id : Text
  pub role : Role

-- What a wrapped handler does with a request: 401, 403, or the handler with the identity in its
-- context, if there is one.
pub data Response : Type 0 where
  unauthorized forbidden : Response
  handled : Option Identity → Response

-- The answer of `Authorize`; `none` is a nil Authorizer.
abbrev pub Authorized : Type 0
Authorized = Option (Result Text Identity)

unfoldable pub require_role : Authorized → Role → Response
require_role none min_role = handled none
require_role (some (err e)) min_role = unauthorized
require_role (some (ok i)) min_role =
    if not (satisfies i.role min_role) then forbidden else handled (some i)

unfoldable pub require_role_or_service : Authorized → Role → Response
require_role_or_service none min_role = handled none
require_role_or_service (some (err e)) min_role = unauthorized
require_role_or_service (some (ok i)) min_role =
    if not (is_service i.role) && not (satisfies i.role min_role)
    then forbidden
    else handled (some i)

-- The order of the human roles, from one to the next below it. Any other string is below them all.
pub data Above : Role → Role → Type 0 where
  owner_admin : Above owner admin
  admin_editor : Above admin editor
  editor_viewer : Above editor viewer
  viewer_unknown : Above viewer unknown_role

-- The same role, or one that is further up.
pub data AtLeast : Role → Role → Type 0 where
  same : {r : Role} → AtLeast r r
  above : {a b c : Role} → Above a b → AtLeast b c → AtLeast a c

satisfies_at_least : (a b : Role) → satisfies a b ≡ true → AtLeast a b
unfolding satisfies
satisfies_at_least viewer viewer h = same
satisfies_at_least viewer editor h = absurd (ground (arith, h))
satisfies_at_least viewer admin h = absurd (ground (arith, h))
satisfies_at_least viewer owner h = absurd (ground (arith, h))
satisfies_at_least viewer service h = absurd (ground (arith, h))
satisfies_at_least viewer unknown_role h = above viewer_unknown same
satisfies_at_least editor viewer h = above editor_viewer same
satisfies_at_least editor editor h = same
satisfies_at_least editor admin h = absurd (ground (arith, h))
satisfies_at_least editor owner h = absurd (ground (arith, h))
satisfies_at_least editor service h = absurd (ground (arith, h))
satisfies_at_least editor unknown_role h = above editor_viewer (above viewer_unknown same)
satisfies_at_least admin viewer h = above admin_editor (above editor_viewer same)
satisfies_at_least admin editor h = above admin_editor same
satisfies_at_least admin admin h = same
satisfies_at_least admin owner h = absurd (ground (arith, h))
satisfies_at_least admin service h = absurd (ground (arith, h))
satisfies_at_least admin unknown_role h =
    above admin_editor (above editor_viewer (above viewer_unknown same))
satisfies_at_least owner viewer h =
    above owner_admin (above admin_editor (above editor_viewer same))
satisfies_at_least owner editor h = above owner_admin (above admin_editor same)
satisfies_at_least owner admin h = above owner_admin same
satisfies_at_least owner owner h = same
satisfies_at_least owner service h = absurd (ground (arith, h))
satisfies_at_least owner unknown_role h =
    above owner_admin (above admin_editor (above editor_viewer (above viewer_unknown same)))
satisfies_at_least service viewer h = absurd (ground (arith, h))
satisfies_at_least service editor h = absurd (ground (arith, h))
satisfies_at_least service admin h = absurd (ground (arith, h))
satisfies_at_least service owner h = absurd (ground (arith, h))
satisfies_at_least service service h = same
satisfies_at_least service unknown_role h = absurd (ground (arith, h))
satisfies_at_least unknown_role viewer h = absurd (ground (arith, h))
satisfies_at_least unknown_role editor h = absurd (ground (arith, h))
satisfies_at_least unknown_role admin h = absurd (ground (arith, h))
satisfies_at_least unknown_role owner h = absurd (ground (arith, h))
satisfies_at_least unknown_role service h = absurd (ground (arith, h))
satisfies_at_least unknown_role unknown_role h = same

satisfies-same : (a : Role) → satisfies a a ≡ true
unfolding satisfies
satisfies-same a = ground arith

satisfies-Above : (a b c : Role) → Above a b → satisfies b c ≡ true → satisfies a c ≡ true
unfolding satisfies
satisfies-Above _ _ c owner_admin h = ground (arith, h)
satisfies-Above _ _ c admin_editor h = ground (arith, h)
satisfies-Above _ _ c editor_viewer h = ground (arith, h)
satisfies-Above _ _ c viewer_unknown h = ground (arith, h)

at_least-satisfies : (a b : Role) → AtLeast a b → satisfies a b ≡ true
at_least-satisfies a b same = satisfies-same a
at_least-satisfies a c (above {b = b} u l) = satisfies-Above a b c u (at_least-satisfies b c l)

-- A role satisfies a minimum exactly when it is the minimum or stands above it in the order owner, admin,
-- editor, viewer, any other string; the service role is in no order with another, so it satisfies
-- only the minimum service, and nothing else does.
pub satisfies-AtLeast : (a b : Role) → (satisfies a b ≡ true) ↔ AtLeast a b
satisfies-AtLeast a b = (λ h. satisfies_at_least a b h, λ l. at_least-satisfies a b l)

-- With an Authorizer, the handler behind RequireRole runs only for an identity that was resolved
-- and whose role satisfies the minimum; a service never gets through where a human role is asked
-- for.
pub require_role-handled :
    (r : Result Text Identity) (min_role : Role) (seen : Option Identity)
    → require_role (some r) min_role ≡ handled seen
    → (i : Identity) × (r ≡ ok i)
      × (seen ≡ some i)
      × (satisfies i.role min_role ≡ true)
      × ((is_service i.role ≡ is_service min_role))
unfolding require_role satisfies
require_role-handled (err e) min_role seen h = absurd (ground arith)
require_role-handled (ok i) min_role seen h = (i, refl, ground arith, ground arith, ground arith)

-- With an Authorizer, the handler behind RequireRoleOrService runs for an identity exactly when the
-- identity was resolved and either is a service or would have passed RequireRole.
pub require_role_or_service-widens :
    (r : Result Text Identity) (min_role : Role) (i : Identity)
    → (require_role_or_service (some r) min_role ≡ handled (some i)) ↔ (
        (r ≡ ok i)
        × ((is_service i.role ≡ true) ⊎ (require_role (some r) min_role ≡ handled (some i))))
unfolding require_role require_role_or_service satisfies
require_role_or_service-widens (err e) min_role i =
    (λ h. absurd (ground arith), λ p. absurd (ground arith))
require_role_or_service-widens (ok j) min_role i =
    (λ h. (ground arith, grind arith), λ p. back p.0 p.1)
  where
    back :
        ◌≡◌ {A = Result Text Identity} (ok j) (ok i)
        → (is_service i.role ≡ true) ⊎ (require_role (some (ok j)) min_role ≡ handled (some i))
        → require_role_or_service (some (ok j)) min_role ≡ handled (some i)
    back e k = grind arith
