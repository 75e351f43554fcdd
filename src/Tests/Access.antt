-- ===== src/Tests/Access.antt =====
-- Roles, the login limiter and the cost guard on fixed inputs.
use cairnobs.Access.Cost.{assess, assess-rejects, CountsAllTime, level_ok, level_reject}
use cairnobs.Access.Limiter.{Attempt, after_calls, granted, allow, allow-granted}
use cairnobs.Access.Roles.{
  Identity, role_rank, editor, admin, viewer, service, is_service, satisfies, AtLeast,
  satisfies-AtLeast, handled, require_role, require_role-handled, require_role_or_service,
  require_role_or_service-widens,
}
use cairnobs.Base.{true, List, [], ◌∷◌, some, Text, codes, ◌≡◌, ◌⊎◌, ◌↔◌, refl, ltb, arith}
use cairnobs.Base.Results.{Result, ok}
use cairnobs.Query.Ir.{Plan, empty_plan}

abbrev ann : Identity
ann = record { tenant_id = codes "t1"; user_id = codes "ann"; role = admin }

abbrev agent : Identity
agent = record { tenant_id = codes "t1"; user_id = codes "agent"; role = service }

abbrev resolved : Identity → Result Text Identity
resolved i = ok i

satisfies-AtLeast_example : (satisfies admin viewer ≡ true) ↔ AtLeast admin viewer
satisfies-AtLeast_example = satisfies-AtLeast admin viewer

require_role-handled_example :
    (i : Identity) × (resolved ann ≡ ok i)
    × (some ann ≡ some i)
    × (satisfies i.role editor ≡ true)
    × (is_service i.role ≡ is_service editor)
unfolding require_role satisfies role_rank
require_role-handled_example = require_role-handled (resolved ann) editor (some ann) refl

require_role_or_service-widens_example :
    (require_role_or_service (some (resolved agent)) admin ≡ handled (some agent)) ↔ (
      (resolved agent ≡ ok agent)
      × ((is_service agent.role ≡ true)
          ⊎ (require_role (some (resolved agent)) admin ≡ handled (some agent))))
require_role_or_service-widens_example = require_role_or_service-widens (resolved agent) admin agent

-- Three calls, the newest first, one of another key.
abbrev calls : List Attempt
calls =
    record { key = codes "ann"; time = 95 }
    ∷ record { key = codes "bob"; time = 80 }
    ∷ record { key = codes "ann"; time = 10 }
    ∷ []

allow-granted_example :
    (allow 2 60 (after_calls 2 60 calls) (codes "ann") 100).0
    ≡ ltb (granted 2 60 (codes "ann") 100 calls) 2
allow-granted_example = allow-granted 2 60 calls (codes "ann") 100 (omega arith)

abbrev counting : Plan
counting = record empty_plan { aggregation = some (record { funcs = []; group_by = [] }) }

assess-rejects_example :
    (((assess counting).level ≡ level_reject) ↔ CountsAllTime counting)
    × (((assess counting).level ≡ level_ok) ↔ ((assess counting).reasons ≡ []))
assess-rejects_example = assess-rejects counting
