-- ===== src/Access/Route.antt =====
-- A route behind `authz.RequireRole` (api/authz/middleware.go) of a service whose answers are Y.
use cairnobs.Access.Roles.{
  Role, Identity, Response, Authorized, unauthorized, forbidden, handled, require_role, satisfies,
}
use cairnobs.Base.{ℕ, Bool, false, not, Option, none, some, ◌≡◌, refl, arith}
use cairnobs.Base.Handler.{Handler, answered, Post, answers}
use cairnobs.Base.Results.{ok}
use cairnobs.Base.Triple.{Triple, Nothing}

-- `authz.IdentityFromContext` gives an identity, and its role does not satisfy `required`.
abbrev pub lacks : Role → Option Identity → Bool
lacks required none = false
lacks required (some i) = not (satisfies i.role required)

module _ {S Y : Type 0} (failed : ℕ → Y) where
  -- 401, 403 or the handler.
  abbrev pub guarded :
      Response → (Option Identity → Handler S Y (Unit {0})) → Handler S Y (Unit {0})
  guarded unauthorized next = λ s. answered (failed 401) s
  guarded forbidden next = λ s. answered (failed 403) s
  guarded (handled i) next = next i

  -- `authz.RequireRole(h.authorizer, minRole, next)`
  abbrev pub route :
      Authorized → Role → (Option Identity → Handler S Y (Unit {0})) → Handler S Y (Unit {0})
  route auth min_role next = guarded (require_role auth min_role) next

  pub route-Triple :
      {I : S → Type 0} (auth : Authorized) (min_role : Role)
      (next : Option Identity → Handler S Y (Unit {0}))
      → ((i : Option Identity)
          → require_role auth min_role ≡ handled i
          → Triple I Nothing (λ _. Nothing) (next i))
      → Triple I Nothing (λ _. Nothing) (route auth min_role next)
  route-Triple {I} auth min_role next h s v p = by_response (require_role auth min_role) refl
    where
      by_response :
          (r : Response)
          → require_role auth min_role ≡ r
          → Post (λ _ t. I t) (λ _ t. I t × Nothing t) (guarded r next s)
      by_response unauthorized e = answers v
      by_response forbidden e = answers v
      by_response (handled i) e = h i e s v p

-- `RequireRole` passes on the identity that the Authorizer found.
pub seen_identity :
    (i : Identity) (min_role : Role) (seen : Option Identity)
    → require_role (some (ok i)) min_role ≡ handled seen
    → seen ≡ some i
unfolding require_role
seen_identity i min_role seen h = ground (arith, h)
