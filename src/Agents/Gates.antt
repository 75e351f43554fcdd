-- ===== src/Agents/Gates.antt =====
-- What the gates of a PUT (`handleSetConfig` of api/agents/handler.go) protect.
use cairnobs.Access.Roles.{Role, editor, admin, owner, Identity, require_role, satisfies}
use cairnobs.Access.Route.{lacks, seen_identity}
use cairnobs.Agents.Current.{current, current-without_override, Kept}
use cairnobs.Agents.Store
use cairnobs.Agents.Store.{is_agent}
use cairnobs.Agents.Handlers
use cairnobs.Agents.Handlers.{
  Fleet, Call, reads_paths, reads_days, reads_services, clears_override, Env, Reply, failed,
  no_content, Request, clear_config, set_config, get_agents, get_agent, put_command, tenant_of,
  changes_paths, changes_days, changes_services, paths_of, services_of, current_override, gate,
  gates, dispatch, serve,
}
use cairnobs.Agents.Keeps.{GatesGuard, BodyGuard, Allows, serve-Kept}
use cairnobs.Agents.Override
use cairnobs.Agents.Override.{
  ConfigOverride, changes_extra_file_paths, changes_log_retention_days,
  changes_service_log_retention_days, same_days, validate_override,
}
use cairnobs.Agents.ServiceDays.{KeysUnique, changes_service_log_retention_days-same}
use cairnobs.Base.{
  Bool, true, false, not, ◌&&◌, List, [], ◌∷◌, Option, none, some, ◌≡◌, refl, sym, ap, subst, ◌∙◌,
  arith, any, Text, text_eq, text_eq_iff, Bool-cases, inl, inr,
}
use cairnobs.Base.Handler
use cairnobs.Base.Handler.{Out, Handler, Post, answers, continues, answered, goes_on}
use cairnobs.Base.Int.{ℤ, eq_of_parts}
use cairnobs.Base.Results.{ok}
use cairnobs.Base.Triple.{Triple, bind-Triple, Triple-weaken}

module _ (I : Fleet → Type 0) where
  -- Behind a gate an identity that lacks the role changes nothing of what the gate reads.
  gate-Triple :
      {P : Fleet → Type 0} (required : Role) (up : Bool) (i : Option Identity) (host : Text)
      (changes : Option ConfigOverride → Bool)
      → lacks required i ≡ true
      → Triple I P
          (λ _ s. P s × (changes (current_override up (tenant_of i) host s) ≡ false))
          (gate required up i host changes)
  unfolding gate
  gate-Triple {P} required up i host changes l s v p =
      by_test (lacks required i) (changes (current_override up (tenant_of i) host s)) l refl
    where
      by_test :
          (b c : Bool)
          → b ≡ true
          → changes (current_override up (tenant_of i) host s) ≡ c
          → Post {R = Reply}
              (λ _ t. I t)
              (λ _ t. I t × (P t × (changes (current_override up (tenant_of i) host t) ≡ false)))
              (Handler.answer_if (b && c) (failed 403) s)
      by_test true true e k = answers v
      by_test true false e k = continues (v, (p, k))
      by_test false c e k = absurd (ground (arith, e))

  -- Whoever satisfies the role, a gate changes nothing.
  pub gate-Triple-pass :
      {P : Fleet → Type 0} (required : Role) (up : Bool) (i : Option Identity) (host : Text)
      (changes : Option ConfigOverride → Bool)
      → Triple I P (λ _. P) (gate required up i host changes)
  unfolding gate
  gate-Triple-pass {P} required up i host changes s v p =
      by_test (lacks required i && changes (current_override up (tenant_of i) host s))
    where
      by_test :
          (b : Bool)
          → Post {R = Reply} (λ _ t. I t) (λ _ t. I t × P t) (Handler.answer_if b (failed 403) s)
      by_test true = answers v
      by_test false = continues (v, p)

-- The second override has no path that the first one has not.
abbrev pub NoNewPath : Option ConfigOverride → Option ConfigOverride → Type 0
NoNewPath c d =
    (p : Text) → any (text_eq p) (paths_of d) ≡ true → any (text_eq p) (paths_of c) ≡ true

changes_extra_file_paths-NoNewPath :
    (now desired : List Text) (p : Text)
    → changes_extra_file_paths now desired ≡ false
    → any (text_eq p) desired ≡ true
    → any (text_eq p) now ≡ true
unfolding changes_extra_file_paths any
changes_extra_file_paths-NoNewPath now [] p h k = absurd (ground arith)
changes_extra_file_paths-NoNewPath now (x ∷ desired) p h k = elim (Bool-cases (text_eq p x)) [
  | inl b ↦
      subst (λ q. any (text_eq q) now ≡ true) (sym ((text_eq_iff p x).0 b)) (ground (arith, h))
  | inr b ↦
      changes_extra_file_paths-NoNewPath now desired p (ground (arith, h)) (ground (arith, b, k))
]

-- A failing read shows no path.
read-NoNewPath :
    (up : Bool) (t h : Text) (s : Fleet) → NoNewPath (current t h s) (current_override up t h s)
unfolding current_override any
read-NoNewPath true t h s p k = k
read-NoNewPath false t h s p k = absurd (ground (arith, k))

paths_guard :
    (s0 : Fleet) (env : Env) (i : Identity) (host : Text) (o : ConfigOverride)
    → satisfies i.role admin ≡ false
    → GatesGuard NoNewPath s0 env (some i) host o
unfolding gates
paths_guard s0 env i host o l valid =
    bind-Triple _ _
      (Triple-weaken _
        (gate-Triple (Kept NoNewPath s0) admin (env.is_up reads_paths) (some i) host
          (changes_paths o) (ap not l))
        (λ _ s v f p k. v (tenant_of (some i)) host p (
          read-NoNewPath (env.is_up reads_paths) (tenant_of (some i)) host s p
            (changes_extra_file_paths-NoNewPath _ o.extra_file_paths p f.1 k))))
      λ _.
        bind-Triple _ _
          (gate-Triple-pass _ owner (env.is_up reads_days) (some i) host (changes_days o))
          λ _.
            gate-Triple-pass _ owner (env.is_up reads_services) (some i) host (changes_services o)

paths_body :
    (s0 : Fleet) (env : Env) (i : Identity) (host : Text) (body : Option ConfigOverride)
    → satisfies i.role admin ≡ false
    → BodyGuard NoNewPath s0 env (some i) host body
paths_body s0 env i host none l = tt
paths_body s0 env i host (some o) l = paths_guard s0 env i host o l

-- No request of a user below admin, whatever it is and whatever fails on the way, gives any agent a
-- file to read that was not among its extra paths before.
pub serve-NoNewPath :
    (env : Env) (i : Identity) (r : Request) (fleet : Fleet)
    → satisfies i.role admin ≡ false
    → (t h p : Text)
    → any (text_eq p) (paths_of (current t h (serve env (some (ok i)) r fleet).1)) ≡ true
    → any (text_eq p) (paths_of (current t h fleet)) ≡ true
serve-NoNewPath env i r fleet l =
    serve-Kept NoNewPath fleet env (some (ok i)) r (λ t h p k. k) (allows r)
  where
    nothing_left : (t h : Text) → NoNewPath (current t h fleet) none
    nothing_left t h p k = absurd (unfold any in (ground (arith, k)))

    allows : (r : Request) → Allows NoNewPath fleet env (some (ok i)) r
    allows get_agents = tt
    allows (get_agent host) = tt
    allows (put_command host body) = tt
    allows (clear_config host) = λ seen e. nothing_left (tenant_of seen) host
    allows (set_config host body) = λ seen e.
        subst (λ j. BodyGuard NoNewPath fleet env j host body) (sym (seen_identity i editor seen e))
          (paths_body fleet env i host body l)

-- The second override gives every service the days that the first one gives it, and the host too.
abbrev pub SameFloors : Option ConfigOverride → Option ConfigOverride → Type 0
SameFloors c d =
    (Handlers.days_of d ≡ Handlers.days_of c)
    × ((service : Text)
        → Override.days_of service (services_of d) ≡ Override.days_of service (services_of c))

same_days-eq : (a b : Option ℤ) → same_days a b ≡ true → a ≡ b
same_days-eq none none h = refl
same_days-eq none (some b) h = absurd (ground (arith, h))
same_days-eq (some a) none h = absurd (ground (arith, h))
same_days-eq (some a) (some b) h = ap (λ x. some x) (eq_of_parts a b (ground (arith, h)))

changes_log_retention_days-same : (a b : Option ℤ) → changes_log_retention_days a b ≡ false → a ≡ b
unfolding changes_log_retention_days
changes_log_retention_days-same a b h = same_days-eq a b (ground (arith, h))

floors_guard :
    (s0 : Fleet) (env : Env) (i : Identity) (host : Text) (o : ConfigOverride)
    → satisfies i.role owner ≡ false
    → env.is_up reads_days ≡ true
    → env.is_up reads_services ≡ true
    → KeysUnique o.service_log_retention_days
    → GatesGuard SameFloors s0 env (some i) host o
unfolding gates
floors_guard s0 env i host o l up_days up_services u valid =
    bind-Triple _ _
      (gate-Triple-pass (Kept SameFloors s0) admin (env.is_up reads_paths) (some i) host
        (changes_paths o))
      λ _.
        bind-Triple _ _
          (gate-Triple _ owner (env.is_up reads_days) (some i) host (changes_days o) (ap not l))
          λ _.
            Triple-weaken _
              (gate-Triple _ owner (env.is_up reads_services) (some i) host (changes_services o)
                (ap not l))
              (λ _ s v f. same s v (rw up_days at f.0.1) (rw up_services at f.1))
  where
    same :
        (s : Fleet)
        → Kept SameFloors s0 s
        → changes_days o (current (tenant_of (some i)) host s) ≡ false
        → changes_services o (current (tenant_of (some i)) host s) ≡ false
        → SameFloors (current (tenant_of (some i)) host s0) (some o)
    same s v d e = (
      sym (changes_log_retention_days-same _ o.log_retention_days d)
          ∙ (v (tenant_of (some i)) host).0,
      λ service.
          sym (changes_service_log_retention_days-same _ o.service_log_retention_days u e service)
          ∙ (v (tenant_of (some i)) host).1 service,
    )

-- A body that decodes to a map, with one entry for a key.
abbrev pub BodyIsMap : Option ConfigOverride → Type 0
BodyIsMap none = Unit
BodyIsMap (some o) = KeysUnique o.service_log_retention_days

abbrev pub RequestIsMap : Request → Type 0
RequestIsMap (set_config host body) = BodyIsMap body
RequestIsMap _ = Unit

abbrev pub clears_config : Request → Bool
clears_config (clear_config host) = true
clears_config _ = false

floors_body :
    (s0 : Fleet) (env : Env) (i : Identity) (host : Text) (body : Option ConfigOverride)
    → satisfies i.role owner ≡ false
    → env.is_up reads_days ≡ true
    → env.is_up reads_services ≡ true
    → BodyIsMap body
    → BodyGuard SameFloors s0 env (some i) host body
floors_body s0 env i host none l up_days up_services u = tt
floors_body s0 env i host (some o) l up_days up_services u =
    floors_guard s0 env i host o l up_days up_services u

-- A request of a user below owner that does not delete a configuration leaves the retention days of
-- every host and of every service on it as they are, where the two reads of the stored days do not
-- fail and a map in the body has one entry for a service.
pub serve-SameFloors :
    (env : Env) (i : Identity) (r : Request) (fleet : Fleet)
    → satisfies i.role owner ≡ false
    → env.is_up reads_days ≡ true
    → env.is_up reads_services ≡ true
    → RequestIsMap r
    → clears_config r ≡ false
    → (t h : Text)
    → SameFloors (current t h fleet) (current t h (serve env (some (ok i)) r fleet).1)
serve-SameFloors env i r fleet l up_days up_services m n =
    serve-Kept SameFloors fleet env (some (ok i)) r (λ t h. (refl, λ _. refl)) (allows r m n)
  where
    allows :
        (r : Request)
        → RequestIsMap r
        → clears_config r ≡ false
        → Allows SameFloors fleet env (some (ok i)) r
    allows get_agents m n = tt
    allows (get_agent host) m n = tt
    allows (put_command host body) m n = tt
    allows (clear_config host) m n = absurd (ground (arith, n))
    allows (set_config host body) m n = λ seen e.
        subst (λ j. BodyGuard SameFloors fleet env j host body)
          (sym (seen_identity i editor seen e))
          (floors_body fleet env i host body l up_days up_services m)

-- A user who satisfies editor and deletes the configuration of an agent takes its retention days away
-- too, though only an owner may change them by a PUT.
pub serve-clear_drops_floors :
    (env : Env) (i : Identity) (host : Text) (fleet : Fleet)
    → satisfies i.role editor ≡ true
    → env.is_up clears_override ≡ true
    → any (is_agent (tenant_of (some i)) host) fleet.agents ≡ true
    → ((serve env (some (ok i)) (clear_config host) fleet).0 ≡ no_content)
      × (current (tenant_of (some i)) host (serve env (some (ok i)) (clear_config host) fleet).1
          ≡ none)
unfolding serve dispatch require_role Handlers.handle_clear_config Store.clear_override
    Store.update_agent
serve-clear_drops_floors env i host fleet l up a =
    rw (l, up, a) (refl, current-without_override (tenant_of (some i)) host fleet)
