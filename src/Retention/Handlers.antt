-- ===== src/Retention/Handlers.antt =====
-- The deletion of logs by age: the statements on the table of logs (api/logretention/store.go) and the
-- handlers (api/logretention/handler.go). A body is `none` where it does not decode.
use cairnobs.Access.Roles.{Role, admin, owner, Identity, Authorized}
use cairnobs.Access.Route.{route}
use cairnobs.Agents.Store.{Agents}
use cairnobs.Base.{
  ℕ, Bool, true, false, ◌||◌, ◌&&◌, List, Option, none, some, any, Text, remove_if, count_if,
  is_nil,
}
use cairnobs.Base.Handler.{
  Handler, ◌>>=◌, ◌>>◌, answer, return, answer_if, reads, writes, answer_of,
}
use cairnobs.Base.Int.{ℤ, pos, ltb_ℤ, ◌+ℤ◌}
use cairnobs.Base.Results.{ok}
use cairnobs.Base.Triple.{attempt, or_fail}
use cairnobs.Retention.Floors.{floors_by_host, hours_back}
use cairnobs.Retention.Targets.{
  HostService, same_target, parse_targets, BlockedTarget, Partition, partition_by, all_allowed,
  is_owner,
}

pub record LogRow : Type 0 where
  pub host : Text
  pub service : Text
  pub timestamp : ℤ

pub record Warehouse : Type 0 where
  pub logs : List LogRow
  pub agents : Agents

abbrev pub target_of : LogRow → HostService
target_of row = record { host = row.host; service = row.service }

-- `timestamp < ? AND (host, service) IN (...)`
abbrev pub is_old : ℤ → List HostService → LogRow → Bool
is_old cutoff targets row = ltb_ℤ row.timestamp cutoff && any (same_target (target_of row)) targets

unfoldable pub count_older_than : ℤ → List HostService → Warehouse → ℕ
count_older_than cutoff targets w = count_if (is_old cutoff targets) w.logs

unfoldable pub delete_older_than : ℤ → List HostService → Warehouse → Warehouse
delete_older_than cutoff targets w = record w { logs = remove_if (is_old cutoff targets) w.logs }

pub data Call : Type 0 where
  reads_floors counts deletes : Call

-- What one request meets. The handler and `partitionTargets` read the clock one after the other.
pub record Env : Type 0 where
  pub is_up : Call → Bool
  pub now : ℤ
  pub floor_now : ℤ

pub record DeletionRequest : Type 0 where
  pub older_than_hours : ℤ
  pub targets : List HostService

-- What a preview and a deletion answer.
pub record Report : Type 0 where
  pub count : ℕ
  pub cutoff : ℤ
  pub targets : List HostService
  pub blocked : List BlockedTarget

pub data Reply : Type 0 where
  failed : (status : ℕ) → Reply
  report : Report → Reply

abbrev pub max_older_than_hours : ℕ
max_older_than_hours = 87600

abbrev pub hours_refused : ℤ → Bool
hours_refused hours = ltb_ℤ hours (pos 1) || ltb_ℤ (pos max_older_than_hours) hours

abbrev pub Act : Type 0 → Type 0
Act A = Handler Warehouse Reply A

unfoldable pub decode_deletion_request : Option DeletionRequest → Act DeletionRequest
decode_deletion_request body = do
  req ← or_fail (failed 400) body
  answer_if (hours_refused req.older_than_hours) (failed 400)
  targets ← or_fail (failed 400) (parse_targets req.targets)
  return (record req { targets = targets })

-- `roleForFloorCheck`
abbrev pub role_for_floor_check : Option Identity → Role
role_for_floor_check none = owner
role_for_floor_check (some i) = i.role

abbrev pub failed_call : Unit {0} → Reply
failed_call _ = failed 500

module _ (env : Env) where
  -- An owner's targets are allowed without a look at the floors.
  unfoldable pub partition_targets : Bool → List HostService → ℤ → Act Partition
  partition_targets true targets cutoff = return (all_allowed targets)
  partition_targets false targets cutoff = do
    floors ←
        reads failed_call (attempt tt (env.is_up reads_floors) (λ w. ok (floors_by_host w.agents)))
    return (partition_by floors cutoff env.floor_now targets)

  -- The rows of the allowed targets; without one nothing is counted.
  unfoldable pub count_allowed : Bool → ℤ → List HostService → Act ℕ
  count_allowed true cutoff targets = return 0
  count_allowed false cutoff targets =
      reads failed_call
        (attempt tt (env.is_up counts) (λ w. ok (count_older_than cutoff targets w)))

  unfoldable pub delete_allowed : Bool → ℤ → List HostService → Act (Unit {0})
  delete_allowed true cutoff targets = return tt
  delete_allowed false cutoff targets =
      writes failed_call
        (attempt tt (env.is_up deletes) (λ w. ok (tt, delete_older_than cutoff targets w)))

  abbrev pub cutoff_of : ℤ → ℤ
  cutoff_of hours = env.now +ℤ hours_back hours

  abbrev pub reply_of : ℤ → ℕ → Partition → Reply
  reply_of cutoff count p =
      report (record { count = count; cutoff = cutoff; targets = p.allowed; blocked = p.blocked })

  unfoldable pub handle_preview : Option Identity → Option DeletionRequest → Act (Unit {0})
  unfolding partition_targets count_allowed
  handle_preview identity body = do
    req ← decode_deletion_request body
    p ←
        partition_targets (is_owner (role_for_floor_check identity)) req.targets
          (cutoff_of req.older_than_hours)
    count ← count_allowed (is_nil p.allowed) (cutoff_of req.older_than_hours) p.allowed
    answer (reply_of (cutoff_of req.older_than_hours) count p)

  unfoldable pub handle_delete : Option Identity → Option DeletionRequest → Act (Unit {0})
  unfolding partition_targets count_allowed delete_allowed
  handle_delete identity body = do
    req ← decode_deletion_request body
    p ←
        partition_targets (is_owner (role_for_floor_check identity)) req.targets
          (cutoff_of req.older_than_hours)
    count ← count_allowed (is_nil p.allowed) (cutoff_of req.older_than_hours) p.allowed
    delete_allowed (is_nil p.allowed) (cutoff_of req.older_than_hours) p.allowed
    answer (reply_of (cutoff_of req.older_than_hours) count p)

pub data Request : Type 0 where
  preview delete : Option DeletionRequest → Request

-- `RegisterRoutes`, less the listing for the picker.
unfoldable pub dispatch : Env → Authorized → Request → Act (Unit {0})
dispatch env auth (preview body) = route failed auth admin (λ i. handle_preview env i body)
dispatch env auth (delete body) = route failed auth admin (λ i. handle_delete env i body)

-- Every path of the handlers answers.
unfoldable pub serve : Env → Authorized → Request → Warehouse → Reply × Warehouse
unfolding dispatch
serve env auth r w = answer_of (failed 500) (dispatch env auth r w)
