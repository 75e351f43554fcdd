-- ===== src/Retention/Floors.antt =====
-- The retention floors of the hosts (api/logretention/agent_floor.go), read from the table of the agents of
-- all tenants. Times are nanoseconds; a time.Duration is an int64 of them.
use cairnobs.Agents.Override.{ConfigOverride, ServiceDays, days_of}
use cairnobs.Agents.Store.{AgentRow, Agents}
use cairnobs.Base.{
  ℕ, ◌*◌, Bool, true, false, not, ◌||◌, List, [], ◌∷◌, Option, none, some, if◌then◌else◌, is_nil,
  Text, text_eq, find_if,
}
use cairnobs.Base.Int.{ℤ, neg, scale, wrap_int64, ◌+ℤ◌}

pub record HostFloor : Type 0 where
  pub default_days : Option ℤ
  pub service_days : List ServiceDays

-- An entry of the map.
pub record HostEntry : Type 0 where
  pub host : Text
  pub floor : HostFloor

abbrev is_some : Option ℤ → Bool
is_some none = false
is_some (some _) = true

abbrev pub has_floor : ConfigOverride → Bool
has_floor o = is_some o.log_retention_days || not (is_nil o.service_log_retention_days)

abbrev pub entry_of : Text → ConfigOverride → HostEntry
entry_of host o = record {
  host = host;
  floor = record {
    default_days = o.log_retention_days;
    service_days = o.service_log_retention_days;
  };
}

-- `out[host] = hf`: of two rows of a host the last one counts, so entries go to the front.
abbrev pub put_floor : AgentRow → Option ConfigOverride → List HostEntry → List HostEntry
put_floor row none out = out
put_floor row (some o) out = if has_floor o then entry_of row.host o ∷ out else out

unfoldable pub floors_from : List HostEntry → Agents → List HostEntry
floors_from out [] = out
floors_from out (row ∷ rows) = floors_from (put_floor row row.desired_override out) rows

unfoldable pub floors_by_host : Agents → List HostEntry
unfolding floors_from
floors_by_host rows = floors_from [] rows

abbrev pub or_default : Option ℤ → Option ℤ → Option ℤ
or_default none default_days = default_days
or_default (some days) default_days = some days

-- `hf.Effective(service)`
abbrev pub effective : HostFloor → Text → Option ℤ
effective hf service = or_default (days_of service hf.service_days) hf.default_days

abbrev pub found_floor : Option HostEntry → Text → Option ℤ
found_floor none service = none
found_floor (some e) service = effective e.floor service

-- `floors[host].Effective(service)`; a missing host reads as a floor without any days.
unfoldable pub floor_of : List HostEntry → Text → Text → Option ℤ
floor_of floors host service = found_floor (find_if (λ e. text_eq e.host host) floors) service

abbrev pub hour_ns : ℕ
hour_ns = 3600 * 1000000000

-- `-time.Duration(hours) * time.Hour`, and the same for days of 24 hours.
abbrev pub hours_back : ℤ → ℤ
hours_back hours = wrap_int64 (scale hour_ns (neg hours))

abbrev pub days_back : ℤ → ℤ
days_back days = wrap_int64 (scale (24 * hour_ns) (neg days))

-- `now.Add(-time.Duration(days) * 24 * time.Hour)`
abbrev pub boundary : ℤ → ℤ → ℤ
boundary now days = now +ℤ days_back days
