-- ===== src/Retention/Kept.antt =====
-- What the configurations of the agents keep, read off the rows of the table, and that the lookup of
-- api/logretention/agent_floor.go finds it.
use cairnobs.Agents.Override.{ConfigOverride, ServiceDays, days_of, out_of_range}
use cairnobs.Agents.Store.{AgentRow, Agents}
use cairnobs.Base.{
  ◌*◌, Bool, true, false, ◌||◌, List, [], ◌∷◌, ◌++◌, Option, none, some, ◌≡◌, refl, ap, ◌∙◌, All,
  inl, inr, arith, any, text_eq, text_eq_iff, Text, Bool-cases, find_if, is_nil,
}
use cairnobs.Base.Int.{ℤ, ◌≤ℤ◌, ◌+ℤ◌, scale}
use cairnobs.Retention.Floors.{
  HostEntry, has_floor, entry_of, effective, put_floor, floors_from, floors_by_host, floor_of,
  hour_ns,
}
use cairnobs.Retention.Handlers.{LogRow}

-- The days for which an agent's configuration keeps the logs of a service: those given for the
-- service, and else those of the host. The first entry of the service counts, and a Go map has one.
pub data Keeps (o : ConfigOverride) (service : Text) : ℤ → Type 0 where
  for_service :
      (e : ServiceDays) (before after : List ServiceDays)
      → o.service_log_retention_days ≡ before ++ e ∷ after
      → any (λ f. text_eq f.service service) before ≡ false
      → e.service ≡ service
      → Keeps o service e.days
  for_host :
      (days : ℤ)
      → any (λ f. text_eq f.service service) o.service_log_retention_days ≡ false
      → o.log_retention_days ≡ some days
      → Keeps o service days

-- The agent of the row's host keeps the row: it is not older than the days that the agent's configuration
-- keeps the row's service. The agent is the last one of its host in the table.
pub record KeptBy (agents : Agents) (now : ℤ) (row : LogRow) : Type 0 where
  pub agent : AgentRow
  pub before : Agents
  pub after : Agents
  pub stored : agents ≡ before ++ agent ∷ after
  pub last : any (λ b. text_eq b.host row.host) after ≡ false
  pub host : agent.host ≡ row.host
  pub override : ConfigOverride
  pub configured : agent.desired_override ≡ some override
  pub days : ℤ
  pub keeps : Keeps override row.service days
  pub in_range : out_of_range days ≡ false
  pub not_older : now ≤ℤ (row.timestamp +ℤ scale (24 * hour_ns) days)

days_of-found :
    (service : Text) (before after : List ServiceDays) (e : ServiceDays)
    → any (λ f. text_eq f.service service) before ≡ false
    → e.service ≡ service
    → days_of service (before ++ e ∷ after) ≡ some e.days
unfolding days_of any
days_of-found service [] after e h k = rw ((text_eq_iff e.service service).1 k) refl
days_of-found service (f ∷ before) after e h k =
    ground (arith, h, days_of-found service before after e (ground (arith, h)) k)

days_of-none :
    (service : Text) (es : List ServiceDays)
    → any (λ f. text_eq f.service service) es ≡ false
    → days_of service es ≡ none
unfolding days_of any
days_of-none service [] h = refl
days_of-none service (e ∷ es) h = ground (arith, h, days_of-none service es (ground (arith, h)))

some_entry :
    (before after : List ServiceDays) (e : ServiceDays) → is_nil (before ++ e ∷ after) ≡ false
some_entry [] after e = refl
some_entry (x ∷ before) after e = refl

Keeps-floor :
    (o : ConfigOverride) (host service : Text) (days : ℤ)
    → Keeps o service days
    → (has_floor o ≡ true) × (effective (entry_of host o).floor service ≡ some days)
Keeps-floor o host service days (for_service e before after s n k) = (
  rw (s, some_entry before after e) (or_true _),
  rw (s, days_of-found service before after e n k) refl,
)
  where
    or_true : (b : Bool) → b || true ≡ true
    or_true true = refl
    or_true false = refl
Keeps-floor o host service days (for_host d n k) =
    (rw k refl, rw (days_of-none service o.service_log_retention_days n, k) refl)

floors_from-append :
    (out : List HostEntry) (xs ys : Agents)
    → floors_from out (xs ++ ys) ≡ floors_from (floors_from out xs) ys
unfolding floors_from
floors_from-append out [] ys = refl
floors_from-append out (x ∷ xs) ys = floors_from-append (put_floor x x.desired_override out) xs ys

put_floor-other :
    (host : Text) (row : AgentRow) (o : Option ConfigOverride) (out : List HostEntry)
    → text_eq row.host host ≡ false
    → find_if (λ e. text_eq e.host host) (put_floor row o out)
      ≡ find_if (λ e. text_eq e.host host) out
unfolding find_if
put_floor-other host row none out h = refl
put_floor-other host row (some o) out h = elim (Bool-cases (has_floor o)) [
  | inl b ↦ rw b (rw h refl)
  | inr b ↦ rw b refl
]

-- Rows of other hosts do not touch the entry of a host.
floors_from-other :
    (host : Text) (rows : Agents) (out : List HostEntry)
    → any (λ b. text_eq b.host host) rows ≡ false
    → find_if (λ e. text_eq e.host host) (floors_from out rows)
      ≡ find_if (λ e. text_eq e.host host) out
unfolding floors_from any
floors_from-other host [] out h = refl
floors_from-other host (r ∷ rows) out h =
    floors_from-other host rows (put_floor r r.desired_override out) (ground (arith, h))
    ∙ put_floor-other host r r.desired_override out (ground (arith, h))

-- The floor that the code looks up is the one of the last agent of the host.
pub KeptBy-floor :
    (agents : Agents) (now : ℤ) (row : LogRow) (k : KeptBy agents now row)
    → floor_of (floors_by_host agents) row.host row.service ≡ some k.days
unfolding floor_of floors_by_host
KeptBy-floor agents now row k =
    let own = Keeps-floor k.override k.agent.host row.service k.days k.keeps in
    let found : find_if (λ e. text_eq e.host row.host) (floors_from [] agents)
        ≡ some (entry_of k.agent.host k.override) =
      rw (k.stored, floors_from-append [] k.before (k.agent ∷ k.after))
        (unfold floors_from in
          rw (k.configured) (
            rw own.0 (
              floors_from-other row.host k.after _ k.last
              ∙ (unfold find_if in rw ((text_eq_iff k.agent.host row.host).1 k.host) refl)))) in
    rw found own.1

-- A configuration that gives no days.
abbrev pub NoDays : Option ConfigOverride → Type 0
NoDays none = Unit
NoDays (some o) = (o.log_retention_days ≡ none) × (o.service_log_retention_days ≡ [])

-- No agent of the host gives days.
abbrev pub NoDaysOf : Text → Agents → Type 0
NoDaysOf host = All (λ a. a.host ≡ host → NoDays a.desired_override)

put_floor-NoDays :
    (row : AgentRow) (o : Option ConfigOverride) (out : List HostEntry)
    → NoDays o
    → put_floor row o out ≡ out
put_floor-NoDays row none out n = refl
put_floor-NoDays row (some o) out n = rw (n.0, n.1) refl

floors_from-NoDaysOf :
    (host : Text) (rows : Agents) (out : List HostEntry)
    → NoDaysOf host rows
    → find_if (λ e. text_eq e.host host) (floors_from out rows)
      ≡ find_if (λ e. text_eq e.host host) out
unfolding floors_from
floors_from-NoDaysOf host [] out n = refl
floors_from-NoDaysOf host (r ∷ rows) out n =
    floors_from-NoDaysOf host rows (put_floor r r.desired_override out) n.1
    ∙ elim (Bool-cases (text_eq r.host host)) [
      | inl b ↦
          ap (find_if (λ e. text_eq e.host host))
            (put_floor-NoDays r r.desired_override out (n.0 ((text_eq_iff r.host host).0 b)))
      | inr b ↦ put_floor-other host r r.desired_override out b
    ]

pub NoDaysOf-floor :
    (agents : Agents) (host service : Text)
    → NoDaysOf host agents
    → floor_of (floors_by_host agents) host service ≡ none
unfolding floor_of floors_by_host
NoDaysOf-floor agents host service n =
    rw (floors_from-NoDaysOf host agents [] n) (unfold find_if in refl)
