-- ===== src/Retention/Targets.antt =====
-- The targets of a request and which of them a caller may delete from (`parseTargets` and
-- `partitionTargets` of api/logretention/handler.go).
use cairnobs.Access.Roles.{Role, owner}
use cairnobs.Accounts.Store.{same_role}
use cairnobs.Base.{
  ℕ, Bool, ◌||◌, ◌&&◌, List, [], ◌∷◌, ◌++◌, Option, none, some, if◌then◌else◌, any, length, ltb,
  is_nil, is_empty, Text, text_eq,
}
use cairnobs.Base.Int.{ℤ, ltb_ℤ}
use cairnobs.Retention.Floors.{HostEntry, floor_of, boundary}

pub record HostService : Type 0 where
  pub host : Text
  pub service : Text

abbrev pub same_target : HostService → HostService → Bool
same_target a b = text_eq a.host b.host && text_eq a.service b.service

abbrev pub is_blank : HostService → Bool
is_blank t = is_empty t.host || is_empty t.service

-- `seen` holds what `out` holds.
unfoldable pub parse_from : List HostService → List HostService → Option (List HostService)
parse_from out [] = some out
parse_from out (t ∷ ts) =
    let skipped = parse_from out ts in
    let kept = parse_from (out ++ t ∷ []) ts in
    if is_blank t then none else if any (same_target t) out then skipped else kept

abbrev pub max_targets : ℕ
max_targets = 2000

abbrev pub bounded : Option (List HostService) → Option (List HostService)
bounded none = none
bounded (some out) = if is_nil out || ltb max_targets (length out) then none else some out

unfoldable pub parse_targets : List HostService → Option (List HostService)
unfolding parse_from
parse_targets targets = bounded (parse_from [] targets)

pub record BlockedTarget : Type 0 where
  pub host : Text
  pub service : Text
  pub protected_days : ℤ

pub record Partition : Type 0 where
  pub allowed : List HostService
  pub blocked : List BlockedTarget

-- One target behind what the loop has found in front of it.
abbrev pub put_target : ℤ → ℤ → HostService → Option ℤ → Partition → Partition
put_target cutoff now t none p = record p { allowed = t ∷ p.allowed }
put_target cutoff now t (some days) p =
    if ltb_ℤ (boundary now days) cutoff
    then record p {
      blocked = record { host = t.host; service = t.service; protected_days = days } ∷ p.blocked;
    }
    else record p { allowed = t ∷ p.allowed }

unfoldable pub partition_by : List HostEntry → ℤ → ℤ → List HostService → Partition
partition_by floors cutoff now [] = record { allowed = []; blocked = [] }
partition_by floors cutoff now (t ∷ ts) =
    put_target cutoff now t (floor_of floors t.host t.service) (partition_by floors cutoff now ts)

abbrev pub all_allowed : List HostService → Partition
all_allowed targets = record { allowed = targets; blocked = [] }

abbrev pub is_owner : Role → Bool
is_owner role = same_role role owner
