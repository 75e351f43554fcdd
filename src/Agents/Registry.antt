-- ===== src/Agents/Registry.antt =====
-- The ingest service's side of the table (`CheckIn` of ingest/internal/agentregistry/agentregistry.go): it
-- hands out the command that waits, takes it off the row, and gives the override back. Its
-- transaction is one step.
use cairnobs.Agents.Override.{ConfigOverride}
use cairnobs.Agents.Store.{
  Report, AgentRow, Agents, AgentError, store_failed, is_agent, or_default, text_or_empty,
}
use cairnobs.Base.{
  ℕ, Bool, true, false, List, [], ◌∷◌, ◌++◌, Option, none, some, if◌then◌else◌, any, Text, find_if,
  update_if,
}
use cairnobs.Base.Int.{ℤ, pos, negsuc}
use cairnobs.Base.Results.{Result, ok, err, ◌>>=◌}

pub record AgentCheckIn : Type 0 where
  pub host : Text
  pub reported : Report
  pub applied_override_version : Text

pub record AgentOverride : Type 0 where
  pub batch_max_size : Option ℕ
  pub batch_flush_interval_ms : Option ℕ
  pub heartbeat_enabled : Option Bool
  pub heartbeat_interval_ms : Option ℕ
  pub journald_unit : Option Text
  pub extra_file_paths : List Text
  pub version : Text

-- `result.Override` is `none` where HasOverride is false.
pub record CheckInResult : Type 0 where
  pub command : Text
  pub override : Option AgentOverride

-- A number of the stored JSON as a *uint64: json.Unmarshal refuses one below zero.
abbrev pub to_uint64 : Option ℤ → Result AgentError (Option ℕ)
to_uint64 none = ok none
to_uint64 (some (pos n)) = ok (some n)
to_uint64 (some (negsuc n)) = err store_failed

unfoldable pub unmarshal_override : Text → ConfigOverride → Result AgentError AgentOverride
unmarshal_override version o = do
  size ← to_uint64 o.batch_max_size
  flush ← to_uint64 o.batch_flush_interval_ms
  heartbeat ← to_uint64 o.heartbeat_interval_ms
  ok (record {
    batch_max_size = size;
    batch_flush_interval_ms = flush;
    heartbeat_enabled = o.heartbeat_enabled;
    heartbeat_interval_ms = heartbeat;
    journald_unit = o.journald_unit;
    extra_file_paths = o.extra_file_paths;
    version = version;
  })

abbrev pub pending_of : Option AgentRow → Option Text
pending_of none = none
pending_of (some row) = row.pending_command

-- The columns that RETURNING gives.
abbrev pub parsed_override :
    Option Text → Option ConfigOverride → Result AgentError (Option AgentOverride)
parsed_override (some version) (some o) = unmarshal_override version o >>= λ a. ok (some a)
parsed_override _ _ = ok none

abbrev pub override_of : Option AgentRow → Result AgentError (Option AgentOverride)
override_of none = ok none
override_of (some row) = parsed_override row.desired_override_version row.desired_override

abbrev pub new_row : Text → Text → AgentCheckIn → ℕ → AgentRow
new_row id tenant_id info now = record {
  id = id;
  tenant_id = tenant_id;
  host = info.host;
  reported = info.reported;
  first_seen_at = now;
  last_seen_at = now;
  desired_override = none;
  desired_override_version = none;
  applied_override_version = info.applied_override_version;
  updated_by = none;
  pending_command = none;
  command_issued_at = none;
  command_issued_by = none;
}

abbrev pub checked_in : AgentCheckIn → ℕ → AgentRow → AgentRow
checked_in info now row = record row {
  reported = info.reported;
  last_seen_at = now;
  applied_override_version = info.applied_override_version;
  pending_command = none;
}

-- INSERT ... ON CONFLICT (tenant_id, host) DO UPDATE
unfoldable pub upsert : Text → Text → AgentCheckIn → ℕ → Agents → Agents
upsert id tenant_id info now rows =
    if any (is_agent tenant_id info.host) rows
    then update_if (is_agent tenant_id info.host) (checked_in info now) rows
    else rows ++ new_row id tenant_id info now ∷ []

abbrev pub with_command_of : Option Text → Option AgentOverride → Result AgentError CheckInResult
with_command_of command o = ok (record { command = text_or_empty command; override = o })

-- In one transaction, which `committed` tells the end of: where it fails nothing changes. The override
-- is parsed after the commit.
unfoldable pub check_in_as :
    Bool → Text → ℕ → Text → AgentCheckIn → Agents → Result AgentError CheckInResult × Agents
unfolding upsert
check_in_as false id now tenant_id info rows = (err store_failed, rows)
check_in_as true id now tenant_id info rows =
    let row = find_if (is_agent tenant_id info.host) rows in
    let after = upsert id tenant_id info now rows in
    (
      override_of (find_if (is_agent tenant_id info.host) after)
          >>= with_command_of (pending_of row),
      after,
    )

unfoldable pub check_in :
    Bool → Text → ℕ → Text → AgentCheckIn → Agents → Result AgentError CheckInResult × Agents
unfolding check_in_as
check_in committed id now tenant_id = check_in_as committed id now (or_default tenant_id)
