-- ===== src/Agents/Valid.antt =====
-- Every override in the table has passed validateOverride, and so the ingest service can read it.
use cairnobs.Access.Roles.{Identity, Authorized}
use cairnobs.Agents.Current.{current, Kept}
use cairnobs.Agents.Gates.{gate-Triple-pass}
use cairnobs.Agents.Handlers.{
  Fleet, Env, Request, get_agents, get_agent, clear_config, set_config, put_command, reads_paths,
  reads_days, reads_services, changes_paths, changes_days, changes_services, current_override,
  agent_override, gates, serve,
}
use cairnobs.Access.Roles.{admin, owner}
use cairnobs.Agents.Keeps.{GatesGuard, BodyGuard, Allows, serve-Kept}
use cairnobs.Agents.Override.{ConfigOverride, below, validate_override}
use cairnobs.Agents.Registry.{
  AgentCheckIn, AgentOverride, check_in, check_in_as, checked_in, new_row, override_of,
  parsed_override, pending_of, to_uint64, unmarshal_override, upsert, with_command_of,
}
use cairnobs.Agents.Store
use cairnobs.Agents.Store.{
  AgentRow, Agents, AgentError, is_agent, or_default, scan_found, shown_override,
}
use cairnobs.Base.{
  ℕ, Bool, true, false, [], ◌∷◌, ◌++◌, Option, none, some, ◌≡◌, refl, sym, subst, ◌⊎◌, inl, inr,
  arith, any, Text, find_if, update_if, find_if-update_if-found, find_if-append-none, find_if-any,
  Bool-cases, Option-cases, if◌then◌else◌,
}
use cairnobs.Base.Int.{ℤ, pos, negsuc}
use cairnobs.Base.Results.{Result, ok, err, ◌>>=◌, is_ok}
use cairnobs.Base.Triple.{bind-Triple, Triple-weaken}

abbrev pub IsValid : Option ConfigOverride → Type 0
IsValid none = Unit
IsValid (some o) = validate_override o ≡ none

abbrev Passes : Option ConfigOverride → Option ConfigOverride → Type 0
Passes c d = IsValid d

valid_gates :
    (s0 : Fleet) (env : Env) (i : Option Identity) (host : Text) (o : ConfigOverride)
    → GatesGuard Passes s0 env i host o
unfolding gates
valid_gates s0 env i host o valid =
    bind-Triple _ _
      (gate-Triple-pass (Kept Passes s0) admin (env.is_up reads_paths) i host (changes_paths o))
      λ _.
        bind-Triple _ _ (gate-Triple-pass _ owner (env.is_up reads_days) i host (changes_days o))
          λ _.
            Triple-weaken _
              (gate-Triple-pass _ owner (env.is_up reads_services) i host (changes_services o))
              (λ _ _ _ _. valid)

valid_body :
    (s0 : Fleet) (env : Env) (i : Option Identity) (host : Text) (body : Option ConfigOverride)
    → BodyGuard Passes s0 env i host body
valid_body s0 env i host none = tt
valid_body s0 env i host (some o) = valid_gates s0 env i host o

-- Where every override that the table shows is valid, it is so after any request, whoever sends it and
-- whatever fails on the way.
pub serve-IsValid :
    (env : Env) (auth : Authorized) (r : Request) (fleet : Fleet)
    → ((t h : Text) → IsValid (current t h fleet))
    → (t h : Text) → IsValid (current t h (serve env auth r fleet).1)
serve-IsValid env auth r fleet v = serve-Kept Passes fleet env auth r v (allows r)
  where
    allows : (q : Request) → Allows Passes fleet env auth q
    allows get_agents = tt
    allows (get_agent host) = tt
    allows (put_command host body) = tt
    allows (clear_config host) = λ i e. tt
    allows (set_config host body) = λ i e. valid_body fleet env i host body

not_below : (n : ℕ) (i : Option ℤ) → below n i ≡ false → (a : Option ℕ) × (to_uint64 i ≡ ok a)
not_below n none h = (none, refl)
not_below n (some (pos k)) h = (some k, refl)
not_below n (some (negsuc k)) h = absurd (ground (arith, h))

valid_numbers :
    (o : ConfigOverride)
    → validate_override o ≡ none
    → (below 1 o.batch_max_size ≡ false)
      × (below 100 o.batch_flush_interval_ms ≡ false)
      × (below 5000 o.heartbeat_interval_ms ≡ false)
unfolding validate_override
valid_numbers o h = (ground (arith, h), ground (arith, h), ground (arith, h))

unmarshal_override-valid :
    (version : Text) (o : ConfigOverride)
    → validate_override o ≡ none
    → is_ok (unmarshal_override version o) ≡ true
unfolding unmarshal_override
unmarshal_override-valid version o h =
    let v = valid_numbers o h in
    let size = not_below 1 o.batch_max_size v.0 in
    let flush = not_below 100 o.batch_flush_interval_ms v.1 in
    let beat = not_below 5000 o.heartbeat_interval_ms v.2 in rw (size.1, flush.1, beat.1) refl

abbrev some_override : AgentOverride → Result AgentError (Option AgentOverride)
some_override a = ok (some a)

is_ok-bind :
    (r : Result AgentError AgentOverride) → is_ok r ≡ true → is_ok (r >>= some_override) ≡ true
is_ok-bind (ok a) h = refl
is_ok-bind (err e) h = h

parsed_override-valid :
    (version : Option Text) (o : Option ConfigOverride)
    → IsValid (shown_override version o)
    → is_ok (parsed_override version o) ≡ true
parsed_override-valid none o v = refl
parsed_override-valid (some version) none v = refl
parsed_override-valid (some version) (some o) v =
    is_ok-bind (unmarshal_override version o) (unmarshal_override-valid version o v)

is_ok-with_command_of :
    (command : Option Text) (r : Result AgentError (Option AgentOverride))
    → is_ok r ≡ true
    → is_ok (r >>= with_command_of command) ≡ true
is_ok-with_command_of command (ok o) h = refl
is_ok-with_command_of command (err e) h = h

override_of-valid :
    (o : Option AgentRow) → IsValid (agent_override (scan_found o)) → is_ok (override_of o) ≡ true
override_of-valid none v = refl
override_of-valid (some row) v =
    parsed_override-valid row.desired_override_version row.desired_override v

-- A check-in shows the override that was there.
upsert-IsValid :
    (id t : Text) (info : AgentCheckIn) (now : ℕ) (rows : Agents)
    → IsValid (agent_override (scan_found (find_if (is_agent t info.host) rows)))
    → IsValid
        (agent_override (scan_found (find_if (is_agent t info.host) (upsert id t info now rows))))
unfolding upsert
upsert-IsValid id t info now rows v = elim (Bool-cases (any (is_agent t info.host) rows)) [
  | inl b ↦ rw b (
      updated
        (find_if (is_agent t info.host)
          (update_if (is_agent t info.host) (checked_in info now) rows))
        refl)
  | inr b ↦ rw b (added b (Option-cases (find_if (is_agent t info.host) rows)))
]
  where
    updated :
        (o : Option AgentRow)
        → find_if
            (is_agent t info.host)
            (update_if (is_agent t info.host) (checked_in info now) rows)
          ≡ o
        → IsValid (agent_override (scan_found o))
    updated none e = tt
    updated (some y) e =
        let f =
          find_if-update_if-found (is_agent t info.host) (is_agent t info.host)
            (checked_in info now) rows y (λ _. refl) e in
        subst (λ r. IsValid (agent_override (scan_found (some r)))) (sym f.2)
          (same f.0 (is_agent t info.host f.0)
            (subst (λ o. IsValid (agent_override (scan_found o))) f.1 v))
      where
        same :
            (x : AgentRow) (b : Bool)
            → IsValid (agent_override (scan_found (some x)))
            → IsValid (agent_override (scan_found (some (if b then checked_in info now x else x))))
        same x true w = w
        same x false w = w

    fresh :
        (b : Bool)
        → IsValid (agent_override (scan_found (if b then some (new_row id t info now) else none)))
    fresh true = tt
    fresh false = tt

    added :
        any (is_agent t info.host) rows ≡ false
        → (find_if (is_agent t info.host) rows ≡ none)
          ⊎ ((x : AgentRow) × (find_if (is_agent t info.host) rows ≡ some x))
        → IsValid (
            agent_override
              (scan_found (find_if (is_agent t info.host) (rows ++ new_row id t info now ∷ []))))
    added n (inl e) =
        rw (find_if-append-none (is_agent t info.host) rows (new_row id t info now ∷ []) e)
          (unfold find_if in fresh (is_agent t info.host (new_row id t info now)))
    added n (inr (x, e)) = absurd (ground (arith, find_if-any (is_agent t info.host) rows x e, n))

-- An agent whose stored override is valid gets an answer to its check-in, where the transaction commits.
pub check_in-answers :
    (id : Text) (now : ℕ) (tenant_id : Text) (info : AgentCheckIn) (fleet : Fleet)
    → IsValid (current (or_default tenant_id) info.host fleet)
    → is_ok (check_in true id now tenant_id info fleet.agents).0 ≡ true
unfolding check_in check_in_as current_override Store.get
check_in-answers id now tenant_id info fleet v =
    is_ok-with_command_of
      (pending_of (find_if (is_agent (or_default tenant_id) info.host) fleet.agents)) _
      (override_of-valid _ (upsert-IsValid id (or_default tenant_id) info now fleet.agents v))
