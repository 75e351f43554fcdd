-- ===== src/Agents/Override.antt =====
-- The remotely edited configuration of an agent (`ConfigOverride` of api/agents/store.go), its validation
-- and the tests for a change of its guarded fields (api/agents/handler.go). A map is the list of its
-- entries, an absent list is empty, an int is an integer: nothing computes with it.
use cairnobs.Agents.Path.{PathError, validate_extra_file_path}
use cairnobs.Base.{
  ℕ, Bool, true, false, not, ◌||◌, List, [], ◌∷◌, Option, none, some, if◌then◌else◌, length, ltb,
  ◌==◌, any, Text, text_eq, is_empty,
}
use cairnobs.Base.Int.{ℤ, pos, ltb_ℤ, eqb_ℤ}

pub record ServiceDays : Type 0 where
  pub service : Text
  pub days : ℤ

pub record ConfigOverride : Type 0 where
  pub batch_max_size : Option ℤ
  pub batch_flush_interval_ms : Option ℤ
  pub heartbeat_enabled : Option Bool
  pub heartbeat_interval_ms : Option ℤ
  pub journald_unit : Option Text
  pub extra_file_paths : List Text
  pub log_retention_days : Option ℤ
  pub service_log_retention_days : List ServiceDays

pub data OverrideError : Type 0 where
  batch_too_small flush_too_short heartbeat_too_short too_many_paths retention_out_of_range :
      OverrideError
  too_many_services service_empty service_out_of_range : OverrideError
  path_refused : PathError → OverrideError

-- `p != nil && *p < n`
abbrev pub below : ℕ → Option ℤ → Bool
below n none = false
below n (some i) = ltb_ℤ i (pos n)

abbrev pub out_of_range : ℤ → Bool
out_of_range days = ltb_ℤ days (pos 1) || ltb_ℤ (pos 3650) days

abbrev pub days_refused : Option ℤ → Bool
days_refused none = false
days_refused (some days) = out_of_range days

abbrev pub or_else : Option OverrideError → Option OverrideError → Option OverrideError
or_else none next = next
or_else (some e) next = some e

abbrev pub path_error : Option PathError → Option OverrideError
path_error none = none
path_error (some e) = some (path_refused e)

unfoldable pub validate_paths : List Text → Option OverrideError
validate_paths [] = none
validate_paths (p ∷ ps) = or_else (path_error (validate_extra_file_path p)) (validate_paths ps)

-- The code goes over the map in no order, so it may report another entry.
unfoldable pub validate_services : List ServiceDays → Option OverrideError
validate_services [] = none
validate_services (e ∷ es) =
    let rest = validate_services es in
    if is_empty e.service
    then some service_empty
    else if out_of_range e.days
    then some service_out_of_range
    else rest

unfoldable pub validate_override : ConfigOverride → Option OverrideError
unfolding validate_paths validate_services
validate_override o =
    if below 1 o.batch_max_size
    then some batch_too_small
    else if below 100 o.batch_flush_interval_ms
    then some flush_too_short
    else if below 5000 o.heartbeat_interval_ms
    then some heartbeat_too_short
    else if ltb 20 (length o.extra_file_paths)
    then some too_many_paths
    else or_else (validate_paths o.extra_file_paths) (
        if days_refused o.log_retention_days
        then some retention_out_of_range
        else if ltb 200 (length o.service_log_retention_days)
        then some too_many_services
        else validate_services o.service_log_retention_days)

-- m[service]
unfoldable pub days_of : Text → List ServiceDays → Option ℤ
days_of service [] = none
days_of service (e ∷ es) =
    let rest = days_of service es in if text_eq e.service service then some e.days else rest

unfoldable pub changes_extra_file_paths : List Text → List Text → Bool
changes_extra_file_paths current desired = any (λ p. not (any (text_eq p) current)) desired

abbrev pub same_days : Option ℤ → Option ℤ → Bool
same_days none none = true
same_days (some a) (some b) = eqb_ℤ a b
same_days _ _ = false

unfoldable pub changes_log_retention_days : Option ℤ → Option ℤ → Bool
changes_log_retention_days current desired = not (same_days current desired)

unfoldable pub changes_service_log_retention_days : List ServiceDays → List ServiceDays → Bool
unfolding days_of
changes_service_log_retention_days current desired =
    not (length current == length desired)
    || any (λ e. not (same_days (days_of e.service current) (some e.days))) desired
