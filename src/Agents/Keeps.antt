-- ===== src/Agents/Keeps.antt =====
-- The handlers keep a relation to the fleet that they were given, where a new override that passes the
-- validation and the gates keeps it.
use cairnobs.Access.Roles.{viewer, editor, admin, Identity, Authorized, handled, require_role}
use cairnobs.Access.Route.{route-Triple}
use cairnobs.Agents.Current.{
  current, Kept, set_override-Kept, clear_override-Kept, issue_command-Kept,
}
use cairnobs.Agents.Handlers
use cairnobs.Agents.Handlers.{
  Fleet, Call, Env, Reply, failed, no_content, logged, agent_reply, agents_reply, Request,
  get_agents, get_agent, clear_config, set_config, put_command, CommandLogEntry, tenant_of, user_of,
  is_invalid, server_err, store_err, lists, gets, reads_back, sets_override, issues_command,
  clears_override, handle_list, handle_get, handle_set_config, handle_clear_config,
  handle_issue_command, log_command, logs_command, gates, dispatch, serve, read_agent, fleet_after,
  stores,
}
use cairnobs.Agents.Override.{ConfigOverride, OverrideError, validate_override}
use cairnobs.Agents.Store.{Agents, AgentError, store_failed, valid_command}
use cairnobs.Base.{Bool, true, false, not, ◌&&◌, Option, none, some, arith, ◌≡◌, refl, Text}
use cairnobs.Base.Handler.{goes_on, Post, answers, continues}
use cairnobs.Base.Results.{Result, OnOk}
use cairnobs.Base.Triple.{
  Triple, Nothing, bind-Triple, answer_if-Triple-unless, or_fail-Triple, answer-Triple,
  reads-Triple, writes-Triple, any_value, answer_of-Triple,
}

module _ (R : Option ConfigOverride → Option ConfigOverride → Type 0) (s0 : Fleet) (env : Env) where
  read_agent-Triple :
      {P : Fleet → Type 0} (call : Call) (i : Option Identity) (host : Text)
      → Triple (Kept R s0) P (λ _ t. P t × Unit {0}) (read_agent env call i host)
  read_agent-Triple call i host =
      reads-Triple (λ _ _. Unit) store_err store_failed (env.is_up call) _ (λ s. any_value _)

  handle_list-Triple :
      (i : Option Identity) → Triple (Kept R s0) Nothing (λ _. Nothing) (handle_list env i)
  unfolding handle_list
  handle_list-Triple i =
      bind-Triple _ _
        (reads-Triple (λ _ _. Unit) server_err store_failed (env.is_up lists) _ (λ s. any_value _))
        λ agents. answer-Triple _ (agents_reply agents)

  handle_get-Triple :
      (i : Option Identity) (host : Text)
      → Triple (Kept R s0) Nothing (λ _. Nothing) (handle_get env i host)
  unfolding handle_get
  handle_get-Triple i host =
      bind-Triple _ _ (read_agent-Triple gets i host) λ a. answer-Triple _ (agent_reply a)

  stores-Triple :
      {P : Fleet → Type 0} (up : Bool) (change : Agents → Result AgentError (Unit {0} × Agents))
      → ((s : Fleet)
          → Kept R s0 s
          → P s
          → OnOk (λ p. Kept R s0 p.1) (fleet_after s (change s.agents)))
      → Triple (Kept R s0) P (λ _. Nothing) (stores up change)
  stores-Triple up change h = writes-Triple store_err store_failed up _ h

  -- What the validation and the gates of a PUT must establish.
  abbrev pub GatesGuard : Option Identity → Text → ConfigOverride → Type 0
  GatesGuard i host o =
      validate_override o ≡ none
      → Triple (Kept R s0) Nothing (λ _ s. R (current (tenant_of i) host s0) (some o))
          (gates env i host o)

  abbrev pub BodyGuard : Option Identity → Text → Option ConfigOverride → Type 0
  BodyGuard i host none = Unit
  BodyGuard i host (some o) = GatesGuard i host o

  none_of_valid : (e : Option OverrideError) → is_invalid e ≡ false → e ≡ none
  none_of_valid none h = refl
  none_of_valid (some x) h = absurd (ground arith)

  handle_set_config-Triple :
      (i : Option Identity) (host : Text) (body : Option ConfigOverride)
      → BodyGuard i host body
      → Triple (Kept R s0) Nothing (λ _. Nothing) (handle_set_config env i host body)
  unfolding handle_set_config
  handle_set_config-Triple i host none g = λ s v p. answers v
  handle_set_config-Triple i host (some o) g =
      bind-Triple _ _ (answer_if-Triple-unless (is_invalid (validate_override o)) (failed 400)) λ _.
        bind-Triple _ _ (λ s v p. g (none_of_valid (validate_override o) p.1) s v tt)
          λ _.
            bind-Triple _ _
              (stores-Triple (env.is_up sets_override) _ (λ s v p.
                set_override-Kept R s0 (tenant_of i) host o env.version (user_of i) s p v))
              λ _.
                bind-Triple _ _ (read_agent-Triple reads_back i host)
                  λ a. answer-Triple _ (agent_reply a)

  log_command-Triple :
      (P : Fleet → Type 0) (entry : CommandLogEntry)
      → Triple (Kept R s0) P (λ _. Nothing) (log_command env entry)
  unfolding log_command Handlers.current_override
  log_command-Triple P entry s v p = by_test (env.has_logger && env.is_up logs_command)
    where
      by_test :
          (b : Bool)
          → Post {R = Reply}
              (λ _ t. Kept R s0 t)
              (λ _ t. Kept R s0 t × Unit {0})
              (goes_on tt (logged b entry s))
      by_test true = continues {s = logged true entry s} (v, tt)
      by_test false = continues (v, tt)

  handle_issue_command-Triple :
      (i : Option Identity) (host : Text) (body : Option Text)
      → Triple (Kept R s0) Nothing (λ _. Nothing) (handle_issue_command env i host body)
  unfolding handle_issue_command
  handle_issue_command-Triple i host body =
      bind-Triple _ _ (or_fail-Triple (failed 400) body) λ command.
        bind-Triple _ _ (answer_if-Triple-unless (not (valid_command command)) (failed 400)) λ _.
          bind-Triple _ _
            (stores-Triple (env.is_up issues_command) _
              (λ s v p. issue_command-Kept R s0 (tenant_of i) host command env.now (user_of i) s v))
            λ _.
              bind-Triple _ _ (read_agent-Triple reads_back i host)
                λ a. bind-Triple _ _ (log_command-Triple _ _) λ _. answer-Triple _ (agent_reply a)

  -- A DELETE keeps it where it holds of an agent without an override.
  handle_clear_config-Triple :
      (i : Option Identity) (host : Text)
      → R (current (tenant_of i) host s0) none
      → Triple (Kept R s0) Nothing (λ _. Nothing) (handle_clear_config env i host)
  unfolding handle_clear_config
  handle_clear_config-Triple i host r =
      bind-Triple _ _
        (stores-Triple (env.is_up clears_override) _
          (λ s v p. clear_override-Kept R s0 (tenant_of i) host s r v))
        λ _. answer-Triple _ no_content

  -- What the handler behind the middleware must know for each request.
  abbrev pub Allows : Authorized → Request → Type 0
  Allows auth (set_config host body) =
      (i : Option Identity) → require_role auth editor ≡ handled i → BodyGuard i host body
  Allows auth (clear_config host) =
      (i : Option Identity)
      → require_role auth editor ≡ handled i
      → R (current (tenant_of i) host s0) none
  Allows auth _ = Unit

  dispatch-Triple :
      (auth : Authorized) (r : Request)
      → Allows auth r
      → Triple (Kept R s0) Nothing (λ _. Nothing) (dispatch env auth r)
  unfolding dispatch
  dispatch-Triple auth get_agents h =
      route-Triple failed auth viewer _ (λ i _. handle_list-Triple i)
  dispatch-Triple auth (get_agent host) h =
      route-Triple failed auth viewer _ (λ i _. handle_get-Triple i host)
  dispatch-Triple auth (set_config host body) h =
      route-Triple failed auth editor _ (λ i e. handle_set_config-Triple i host body (h i e))
  dispatch-Triple auth (clear_config host) h =
      route-Triple failed auth editor _ (λ i e. handle_clear_config-Triple i host (h i e))
  dispatch-Triple auth (put_command host body) h =
      route-Triple failed auth admin _ (λ i _. handle_issue_command-Triple i host body)

  pub serve-Kept :
      (auth : Authorized) (r : Request)
      → Kept R s0 s0
      → Allows auth r
      → Kept R s0 (serve env auth r s0).1
  unfolding serve
  serve-Kept auth r v h =
      answer_of-Triple no_content (dispatch env auth r) (dispatch-Triple auth r h) s0 v
