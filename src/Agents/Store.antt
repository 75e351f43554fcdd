-- ===== src/Agents/Store.antt =====
-- The table of the agents and the statements of the web side on it (api/agents/store.go). A row holds what
-- the agent reported, the override as json.Unmarshal gives it back, and the command that waits. There
-- is one row for a tenant and a host.
use cairnobs.Agents.Override.{ConfigOverride}
use cairnobs.Base.{
  ℕ, Bool, false, not, ◌&&◌, List, [], Option, none, some, if◌then◌else◌, map, any, Text, text_eq,
  is_empty, codes, find_if, update_if, select_if,
}
use cairnobs.Base.Results.{Result, ok, err}

pub data AgentError : Type 0 where
  not_found store_failed : AgentError

-- What an agent reports of itself (`AgentCheckIn` of ingest/internal/grpcserver/server.go), less the
-- host and the override that it has applied.
pub record Report : Type 0 where
  pub service : Text
  pub agent_version : Text
  pub source_kind : Text
  pub source_detail : Text
  pub batch_max_size : ℕ
  pub batch_flush_interval_ms : ℕ
  pub heartbeat_enabled : Bool
  pub heartbeat_interval_ms : ℕ

pub record AgentRow : Type 0 where
  pub id : Text
  pub tenant_id : Text
  pub host : Text
  pub reported : Report
  pub first_seen_at : ℕ
  pub last_seen_at : ℕ
  pub desired_override : Option ConfigOverride
  pub desired_override_version : Option Text
  pub applied_override_version : Text
  pub updated_by : Option Text
  pub pending_command : Option Text
  pub command_issued_at : Option ℕ
  pub command_issued_by : Option Text

pub record Agent : Type 0 where
  pub id : Text
  pub tenant_id : Text
  pub host : Text
  pub reported : Report
  pub first_seen_at : ℕ
  pub last_seen_at : ℕ
  pub desired_override : Option ConfigOverride
  pub desired_override_version : Text
  pub applied_override_version : Text
  pub pending : Bool
  pub updated_by : Text
  pub pending_command : Text
  pub command_issued_at : Option ℕ
  pub command_issued_by : Text

-- `defaultTenantID`, which the handlers fall back on too.
abbrev pub or_default : Text → Text
or_default tenant_id = if is_empty tenant_id then codes "default" else tenant_id

abbrev pub text_or_empty : Option Text → Text
text_or_empty none = []
text_or_empty (some t) = t

-- What the row of a version shows; without a version the override is not read.
abbrev pub shown_override : Option Text → Option ConfigOverride → Option ConfigOverride
shown_override none o = none
shown_override (some v) o = o

abbrev pub is_pending : Option Text → Text → Bool
is_pending none applied = false
is_pending (some v) applied = not (text_eq v applied)

abbrev pub scan_agent : AgentRow → Agent
scan_agent row = record {
  id = row.id;
  tenant_id = row.tenant_id;
  host = row.host;
  reported = row.reported;
  first_seen_at = row.first_seen_at;
  last_seen_at = row.last_seen_at;
  desired_override = shown_override row.desired_override_version row.desired_override;
  desired_override_version = text_or_empty row.desired_override_version;
  applied_override_version = row.applied_override_version;
  pending = is_pending row.desired_override_version row.applied_override_version;
  updated_by = text_or_empty row.updated_by;
  pending_command = text_or_empty row.pending_command;
  command_issued_at = row.command_issued_at;
  command_issued_by = text_or_empty row.command_issued_by;
}

abbrev pub Agents : Type 0
Agents = List AgentRow

-- `tenant_id = $1 AND host = $2`
abbrev pub is_agent : Text → Text → AgentRow → Bool
is_agent tenant_id host row = text_eq row.tenant_id tenant_id && text_eq row.host host

abbrev pub scan_found : Option AgentRow → Result AgentError Agent
scan_found none = err not_found
scan_found (some row) = ok (scan_agent row)

-- In the order of the table; the code sorts by host.
unfoldable pub list : Text → Agents → Result AgentError (List Agent)
list tenant_id rows = ok (map scan_agent (select_if (λ row. text_eq row.tenant_id tenant_id) rows))

unfoldable pub get : Text → Text → Agents → Result AgentError Agent
get tenant_id host rows = scan_found (find_if (is_agent tenant_id host) rows)

-- An UPDATE of one agent, and ErrNotFound where it changes no row.
unfoldable pub update_agent :
    Text → Text → (AgentRow → AgentRow) → Agents → Result AgentError (Unit {0} × Agents)
update_agent tenant_id host change rows =
    if not (any (is_agent tenant_id host) rows)
    then err not_found
    else ok (tt, update_if (is_agent tenant_id host) change rows)

abbrev pub with_override : ConfigOverride → Text → Text → AgentRow → AgentRow
with_override o version updated_by row = record row {
  desired_override = some o;
  desired_override_version = some version;
  updated_by = some updated_by;
}

abbrev pub without_override : AgentRow → AgentRow
without_override row = record row {
  desired_override = none;
  desired_override_version = none;
  updated_by = none;
}

abbrev pub with_command : Text → ℕ → Text → AgentRow → AgentRow
with_command command now issued_by row = record row {
  pending_command = some command;
  command_issued_at = some now;
  command_issued_by = some issued_by;
}

-- The UPDATE of `SetOverride`, which reads the agent afterwards; `version` is newVersion().
unfoldable pub set_override :
    Text → Text → ConfigOverride → Text → Text → Agents → Result AgentError (Unit {0} × Agents)
unfolding update_agent
set_override tenant_id host o version updated_by =
    update_agent tenant_id host (with_override o version updated_by)

unfoldable pub clear_override : Text → Text → Agents → Result AgentError (Unit {0} × Agents)
unfolding update_agent
clear_override tenant_id host = update_agent tenant_id host without_override

-- The UPDATE of `IssueCommand`, which reads the agent afterwards.
unfoldable pub issue_command :
    Text → Text → Text → ℕ → Text → Agents → Result AgentError (Unit {0} × Agents)
unfolding update_agent
issue_command tenant_id host command now issued_by =
    update_agent tenant_id host (with_command command now issued_by)

abbrev pub command_restart : Text
command_restart = codes "restart"

abbrev pub valid_command : Text → Bool
valid_command c = text_eq c command_restart
