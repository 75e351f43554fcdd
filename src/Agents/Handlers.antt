-- ===== src/Agents/Handlers.antt =====
-- The HTTP handlers of the agents and their routes (api/agents/handler.go). A body is `none` where
-- decodeJSON fails; which calls fail is a parameter of a request.
use cairnobs.Access.Roles.{Role, viewer, editor, admin, owner, Identity, Authorized}
use cairnobs.Access.Route.{lacks, route}
use cairnobs.Agents.Override.{
  ConfigOverride, ServiceDays, OverrideError, validate_override, changes_extra_file_paths,
  changes_log_retention_days, changes_service_log_retention_days,
}
use cairnobs.Agents.Store
use cairnobs.Agents.Store.{
  Agent, Agents, AgentError, not_found, store_failed, or_default, valid_command,
}
use cairnobs.Base.{
  ℕ, Bool, true, false, not, ◌&&◌, List, [], ◌∷◌, ◌++◌, Option, none, some, Text, codes,
}
use cairnobs.Base.Handler.{
  Handler, ◌>>=◌, ◌>>◌, answer, return, answer_if, reads, writes, answer_of,
}
use cairnobs.Base.Int.{ℤ}
use cairnobs.Base.Results.{Result, ok, err}
use cairnobs.Base.Triple
use cairnobs.Base.Triple.{or_fail}

pub record CommandLogEntry : Type 0 where
  pub host : Text
  pub command : Text
  pub issued_by : Text

-- The table, and the log of commands that the audit trail keeps.
pub record Fleet : Type 0 where
  pub agents : Agents
  pub command_log : List CommandLogEntry

-- The calls of the store, by their places in the handlers, and of the CommandLogger.
pub data Call : Type 0 where
  lists gets reads_paths reads_days reads_services sets_override clears_override : Call
  issues_command reads_back logs_command : Call

-- What one request meets. `has_logger` is false where no CommandLogger is configured.
pub record Env : Type 0 where
  pub is_up : Call → Bool
  pub now : ℕ
  pub version : Text
  pub has_logger : Bool

pub data Reply : Type 0 where
  failed : (status : ℕ) → Reply
  no_content : Reply
  agent_reply : Agent → Reply
  agents_reply : List Agent → Reply

-- `writeStoreErr`
abbrev pub store_err : AgentError → Reply
store_err not_found = failed 404
store_err store_failed = failed 500

abbrev pub server_err : AgentError → Reply
server_err _ = failed 500

abbrev pub user_of : Option Identity → Text
user_of none = []
user_of (some i) = i.user_id

-- `h.tenantID(r)`
abbrev pub tenant_of : Option Identity → Text
tenant_of none = codes "default"
tenant_of (some i) = or_default i.tenant_id

abbrev pub is_invalid : Option OverrideError → Bool
is_invalid none = false
is_invalid (some _) = true

abbrev pub fleet_after :
    Fleet → Result AgentError (Unit {0} × Agents) → Result AgentError (Unit {0} × Fleet)
fleet_after fleet (ok (_, rows)) = ok (tt, record fleet { agents = rows })
fleet_after fleet (err e) = err e

abbrev pub agent_override : Result AgentError Agent → Option ConfigOverride
agent_override (ok a) = a.desired_override
agent_override (err e) = none

abbrev pub paths_of : Option ConfigOverride → List Text
paths_of none = []
paths_of (some o) = o.extra_file_paths

abbrev pub days_of : Option ConfigOverride → Option ℤ
days_of none = none
days_of (some o) = o.log_retention_days

abbrev pub services_of : Option ConfigOverride → List ServiceDays
services_of none = []
services_of (some o) = o.service_log_retention_days

-- The stored override, and nothing where the store fails.
unfoldable pub current_override : Bool → Text → Text → Fleet → Option ConfigOverride
current_override up tenant_id host fleet =
    agent_override (Triple.attempt store_failed up (λ s. Store.get tenant_id host s.agents) fleet)

-- What the gates look for in the stored override and the new one.
abbrev pub changes_paths : ConfigOverride → Option ConfigOverride → Bool
changes_paths o c = changes_extra_file_paths (paths_of c) o.extra_file_paths

abbrev pub changes_days : ConfigOverride → Option ConfigOverride → Bool
changes_days o c = changes_log_retention_days (days_of c) o.log_retention_days

abbrev pub changes_services : ConfigOverride → Option ConfigOverride → Bool
changes_services o c =
    changes_service_log_retention_days (services_of c) o.service_log_retention_days

-- 403 to an identity that lacks `required` where the request changes what `current_override` reads.
unfoldable pub gate :
    Role
    → Bool
    → Option Identity
    → Text
    → (Option ConfigOverride → Bool)
    → Handler Fleet Reply (Unit {0})
unfolding current_override
gate required up identity host changes = λ s.
    answer_if (lacks required identity && changes (current_override up (tenant_of identity) host s))
      (failed 403) s

-- A change of the table, where the call does not fail.
abbrev pub stores :
    Bool → (Agents → Result AgentError (Unit {0} × Agents)) → Handler Fleet Reply (Unit {0})
stores up change =
    writes store_err (Triple.attempt store_failed up (λ s. fleet_after s (change s.agents)))

abbrev pub decode_json : {A : Type 0} → Option A → Handler Fleet Reply A
decode_json body = or_fail (failed 400) body

abbrev pub logged : Bool → CommandLogEntry → Fleet → Fleet
logged true entry s = record s { command_log = s.command_log ++ entry ∷ [] }
logged false entry s = s

module _ (env : Env) where
  unfoldable pub handle_list : Option Identity → Handler Fleet Reply (Unit {0})
  handle_list identity = do
    agents ← reads server_err (
        Triple.attempt store_failed (env.is_up lists)
          (λ s. Store.list (tenant_of identity) s.agents))
    answer (agents_reply agents)

  -- The agent of a host, as `call` reads it.
  abbrev pub read_agent : Call → Option Identity → Text → Handler Fleet Reply Agent
  read_agent call identity host = reads store_err (
      Triple.attempt store_failed (env.is_up call)
        (λ s. Store.get (tenant_of identity) host s.agents))

  unfoldable pub handle_get : Option Identity → Text → Handler Fleet Reply (Unit {0})
  handle_get identity host = do a ← read_agent gets identity host; answer (agent_reply a)

  -- The three gates of the fields that an editor must not change, or only take from.
  unfoldable pub gates : Option Identity → Text → ConfigOverride → Handler Fleet Reply (Unit {0})
  unfolding gate
  gates identity host o = do
    gate admin (env.is_up reads_paths) identity host (changes_paths o)
    gate owner (env.is_up reads_days) identity host (changes_days o)
    gate owner (env.is_up reads_services) identity host (changes_services o)

  unfoldable pub handle_set_config :
      Option Identity → Text → Option ConfigOverride → Handler Fleet Reply (Unit {0})
  unfolding gates
  handle_set_config identity host body = do
    o ← decode_json body
    answer_if (is_invalid (validate_override o)) (failed 400)
    gates identity host o
    stores (env.is_up sets_override)
        (Store.set_override (tenant_of identity) host o env.version (user_of identity))
    a ← read_agent reads_back identity host
    answer (agent_reply a)

  -- The audit trail; a failure is passed over.
  unfoldable pub log_command : CommandLogEntry → Handler Fleet Reply (Unit {0})
  log_command entry = λ s. return tt (logged (env.has_logger && env.is_up logs_command) entry s)

  unfoldable pub handle_issue_command :
      Option Identity → Text → Option Text → Handler Fleet Reply (Unit {0})
  unfolding log_command
  handle_issue_command identity host body = do
    command ← decode_json body
    answer_if (not (valid_command command)) (failed 400)
    stores (env.is_up issues_command)
        (Store.issue_command (tenant_of identity) host command env.now (user_of identity))
    a ← read_agent reads_back identity host
    log_command (record { host = host; command = command; issued_by = user_of identity })
    answer (agent_reply a)

  unfoldable pub handle_clear_config : Option Identity → Text → Handler Fleet Reply (Unit {0})
  handle_clear_config identity host = do
    stores (env.is_up clears_override) (Store.clear_override (tenant_of identity) host)
    answer no_content

pub data Request : Type 0 where
  get_agents : Request
  get_agent clear_config : (host : Text) → Request
  set_config : (host : Text) → Option ConfigOverride → Request
  put_command : (host : Text) → Option Text → Request

-- `RegisterRoutes`
unfoldable pub dispatch : Env → Authorized → Request → Handler Fleet Reply (Unit {0})
dispatch env auth get_agents = route failed auth viewer (handle_list env)
dispatch env auth (get_agent host) = route failed auth viewer (λ i. handle_get env i host)
dispatch env auth (set_config host body) =
    route failed auth editor (λ i. handle_set_config env i host body)
dispatch env auth (clear_config host) =
    route failed auth editor (λ i. handle_clear_config env i host)
dispatch env auth (put_command host body) =
    route failed auth admin (λ i. handle_issue_command env i host body)

unfoldable pub serve : Env → Authorized → Request → Fleet → Reply × Fleet
unfolding dispatch
serve env auth r fleet = answer_of no_content (dispatch env auth r fleet)
