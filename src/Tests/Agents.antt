-- ===== src/Tests/Agents.antt =====
-- Requests about agents on a fixed fleet.
use cairnobs.Access.Roles.{Identity, editor, admin, owner, satisfies, role_rank, require_role}
use cairnobs.Agents.Commands.{IssueRefines, CheckInRefines, commands_refine}
use cairnobs.Agents.Registry.{AgentCheckIn, check_in}
use cairnobs.Agents.Valid.{IsValid, serve-IsValid, check_in-answers}
use cairnobs.Agents.Current.{current}
use cairnobs.Agents.Gates.{SameFloors, serve-NoNewPath, serve-SameFloors, serve-clear_drops_floors}
use cairnobs.Agents.Handlers.{
  Fleet, Env, no_content, failed, Request, set_config, clear_config, serve, dispatch, paths_of,
  current_override, agent_override, gate, gates, handle_set_config,
}
use cairnobs.Agents.Override
use cairnobs.Agents.Override.{
  ConfigOverride, ServiceDays, validate_override, validate_paths, validate_services,
}
use cairnobs.Agents.Path
use cairnobs.Agents.Path.{validate_extra_file_path}
use cairnobs.Agents.Store
use cairnobs.Agents.Store.{
  AgentRow, Agents, Report, is_agent, not_found, store_failed, or_default, scan_found,
}
use cairnobs.Base.{
  Text, Bool, ◌&&◌, if◌then◌else◌, true, false, [], ◌∷◌, none, some, ◌≡◌, refl, codes, any, text_eq,
  is_empty, find_if, update_if,
}
use cairnobs.Base.Int.{pos}
use cairnobs.Base.Results.{ok, is_ok}

abbrev reported : Report
reported = record {
  service = codes "nginx";
  agent_version = codes "1";
  source_kind = codes "journald";
  source_detail = [];
  batch_max_size = 100;
  batch_flush_interval_ms = 1000;
  heartbeat_enabled = true;
  heartbeat_interval_ms = 30000;
}

-- Keep the logs of the host for 30 days, those of smtp for 90.
abbrev pub kept : ConfigOverride
kept = record {
  batch_max_size = none;
  batch_flush_interval_ms = none;
  heartbeat_enabled = none;
  heartbeat_interval_ms = none;
  journald_unit = none;
  extra_file_paths = codes "/a" ∷ [];
  log_retention_days = some (pos 30);
  service_log_retention_days = record { service = codes "smtp"; days = pos 90 } ∷ [];
}

abbrev pub web : AgentRow
web = record {
  id = codes "1";
  tenant_id = codes "t";
  host = codes "w";
  reported = reported;
  first_seen_at = 1;
  last_seen_at = 2;
  desired_override = some kept;
  desired_override_version = some (codes "v");
  applied_override_version = [];
  updated_by = none;
  pending_command = none;
  command_issued_at = none;
  command_issued_by = none;
}

abbrev pub fleet : Fleet
fleet = record { agents = web ∷ []; command_log = [] }

abbrev env : Env
env = record { is_up = λ _. true; now = 10; version = codes "v2"; has_logger = true }

abbrev bob : Identity
bob = record { tenant_id = codes "t"; user_id = codes "bob"; role = editor }

-- A larger batch, and the days as they were.
abbrev larger_batch : ConfigOverride
larger_batch = record kept { batch_max_size = some (pos 500) }

abbrev shorter : ConfigOverride
shorter = record kept { log_retention_days = some (pos 1) }

abbrev put : ConfigOverride → Request
put o = set_config (codes "w") (some o)

bob_is_no_admin : satisfies editor admin ≡ false
unfolding satisfies role_rank
bob_is_no_admin = refl

bob_is_no_owner : satisfies editor owner ≡ false
unfolding satisfies role_rank
bob_is_no_owner = refl

bob_is_editor : satisfies editor editor ≡ true
unfolding satisfies role_rank
bob_is_editor = refl

found : any (is_agent (codes "t") (codes "w")) fleet.agents ≡ true
unfolding any text_eq
found = refl

still_there :
    any (text_eq (codes "/a")) (
      paths_of
        (current (codes "t") (codes "w") (serve env (some (ok bob)) (put larger_batch) fleet).1))
    ≡ true
unfolding serve dispatch require_role satisfies role_rank handle_set_config validate_override
    validate_paths validate_services validate_extra_file_path Path.is_denied Path.clean
    Path.has_prefix Path.contains Path.has_suffix Path.split_slash Path.clean_parts Path.join_parts
    gates gate current_override Store.get Store.set_override Store.update_agent any text_eq is_empty
    find_if update_if Override.changes_extra_file_paths Override.changes_log_retention_days
    Override.changes_service_log_retention_days Override.days_of
still_there = refl

serve-NoNewPath_example :
    any (text_eq (codes "/a")) (paths_of (current (codes "t") (codes "w") fleet)) ≡ true
serve-NoNewPath_example =
    serve-NoNewPath env bob (put larger_batch) fleet bob_is_no_admin (codes "t") (codes "w")
      (codes "/a") still_there

serve-SameFloors_example :
    SameFloors
      (current (codes "t") (codes "w") fleet)
      (current (codes "t") (codes "w") (serve env (some (ok bob)) (put larger_batch) fleet).1)
unfolding any
serve-SameFloors_example =
    serve-SameFloors env bob (put larger_batch) fleet bob_is_no_owner refl refl (refl, tt) refl
      (codes "t") (codes "w")

serve-clear_drops_floors_example :
    ((serve env (some (ok bob)) (clear_config (codes "w")) fleet).0 ≡ no_content)
    × (current
          (codes "t")
          (codes "w")
          (serve env (some (ok bob)) (clear_config (codes "w")) fleet).1
        ≡ none)
unfolding is_empty
serve-clear_drops_floors_example =
    serve-clear_drops_floors env bob (codes "w") fleet bob_is_editor refl found

-- An editor may not shorten the days.
shorter_run : (serve env (some (ok bob)) (put shorter) fleet).0 ≡ failed 403
unfolding serve dispatch require_role satisfies role_rank handle_set_config validate_override
    validate_paths validate_services validate_extra_file_path Path.is_denied Path.clean
    Path.has_prefix Path.contains Path.has_suffix Path.split_slash Path.clean_parts Path.join_parts
    gates gate current_override Store.get Store.set_override Store.update_agent any text_eq is_empty
    find_if update_if Override.changes_extra_file_paths Override.changes_log_retention_days
    Override.changes_service_log_retention_days Override.days_of
shorter_run = refl

-- The handler asks for a restart, and the agent checks in.
abbrev checks_in : AgentCheckIn
checks_in = record { host = codes "w"; reported = reported; applied_override_version = codes "v" }

commands_refine_example :
    IssueRefines (codes "t") (codes "w") (codes "restart") 9 (codes "eve") fleet.agents
    × CheckInRefines (codes "2") 9 (codes "t") checks_in fleet.agents
commands_refine_example =
    commands_refine fleet.agents (codes "t") (codes "w") (codes "restart") (codes "eve") (codes "2")
      9 checks_in

current-IsValid : (t h : Text) → IsValid (current t h fleet)
unfolding current_override Store.get find_if validate_override validate_paths validate_services
    validate_extra_file_path Path.is_denied Path.clean Path.has_prefix Path.contains Path.has_suffix
    Path.split_slash Path.clean_parts Path.join_parts any text_eq is_empty
current-IsValid t h = by_test (text_eq (codes "t") t && text_eq (codes "w") h)
  where
    by_test : (b : Bool) → IsValid (agent_override (scan_found (if b then some web else none)))
    by_test true = refl
    by_test false = tt

serve-IsValid_example :
    IsValid (current (codes "t") (codes "w") (serve env (some (ok bob)) (put larger_batch) fleet).1)
serve-IsValid_example =
    serve-IsValid env (some (ok bob)) (put larger_batch) fleet current-IsValid (codes "t")
      (codes "w")

check_in-answers_example :
    is_ok (check_in true (codes "2") 11 (codes "t") checks_in fleet.agents).0 ≡ true
check_in-answers_example =
    check_in-answers (codes "2") 11 (codes "t") checks_in fleet
      (current-IsValid (or_default (codes "t")) (codes "w"))
