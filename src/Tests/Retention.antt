-- ===== src/Tests/Retention.antt =====
-- Requests to delete logs on a fixed warehouse.
use cairnobs.Access.Roles.{Identity, admin, satisfies, role_rank, require_role}
use cairnobs.Agents.Override
use cairnobs.Agents.Override.{ConfigOverride, out_of_range}
use cairnobs.Base.{
  ℕ, Bool, ◌&&◌, sym, subst, ap, arith, ◌↔◌, ◌≢◌, inr, text_eq_iff, ◌*◌, ◌≤◌, true, false, not, [],
  ◌∷◌, some, ◌≡◌, refl, Text, codes, any, text_eq, is_empty, length, remove_if, count_if, select_if,
  find_if,
}
use cairnobs.Base.Int.{ℤ, pos, scale, ◌+ℤ◌, +ℤ_parts, ◌≤ℤ◌, leb_ℤ, ltb_ℤ, wrap_int64}
use cairnobs.Base.Results.{ok}
use cairnobs.Retention.Asked.{Distinct, asks, parse_targets-same_set, serve-keeps_unasked}
use cairnobs.Retention.Exact.{AskedFor, serve-exact}
use cairnobs.Retention.Members.{same_target-eq, Split-any}
use cairnobs.Retention.Bounds.{durations-exact}
use cairnobs.Retention.Floors.{hour_ns, boundary, floors_by_host, floors_from, floor_of}
use cairnobs.Retention.Handlers.{
  LogRow, Warehouse, Env, Request, delete, cutoff_of, report, target_of, DeletionRequest, serve,
  dispatch, handle_delete, decode_deletion_request, partition_targets, count_allowed,
  delete_allowed, count_older_than, delete_older_than,
}
use cairnobs.Retention.Protected.{serve-keeps_protected}
use cairnobs.Retention.Kept.{KeptBy, for_host}
use cairnobs.Retention.Targets.{
  HostService, same_target, parse_targets, parse_from, partition_by, is_owner,
}
use cairnobs.Tests.Agents

abbrev hours : ℕ → ℤ
hours n = pos (n * hour_ns)

abbrev row : Text → Text → ℕ → LogRow
row host service n = record { host = host; service = service; timestamp = hours n }

-- The host w keeps its logs for 30 days, those of smtp for 90. It is 3000 hours past the epoch.
abbrev warehouse : Warehouse
warehouse = record {
  logs =
      row (codes "w") (codes "nginx") 1
      ∷ row (codes "w") (codes "nginx") 2500
      ∷ row (codes "w") (codes "smtp") 1000
      ∷ row (codes "x") (codes "nginx") 2900
      ∷ [];
  agents = Agents.fleet.agents;
}

abbrev env : Env
env = record { is_up = λ _. true; now = hours 3000; floor_now = hours 3000 }

abbrev eve : Identity
eve = record { tenant_id = codes "t"; user_id = codes "eve"; role = admin }

abbrev web : HostService
web = record { host = codes "w"; service = codes "nginx" }

abbrev other : HostService
other = record { host = codes "x"; service = codes "nginx" }

-- Older than 10 hours, of two hosts, one of them twice.
abbrev two_hosts : Request
two_hosts = delete (some (record { older_than_hours = pos 10; targets = web ∷ other ∷ web ∷ [] }))

is_no_owner : is_owner admin ≡ false
is_no_owner = refl

parsed : parse_targets (web ∷ other ∷ web ∷ []) ≡ some (web ∷ other ∷ [])
unfolding parse_targets parse_from any text_eq is_empty
parsed = refl

parse_targets-same_set_example :
    Distinct (web ∷ other ∷ [])
    × ((t : HostService)
        → any (same_target t) (web ∷ other ∷ []) ≡ any (same_target t) (web ∷ other ∷ web ∷ []))
    × (1 ≤ length (web ∷ other ∷ []))
    × (length (web ∷ other ∷ []) ≤ 2000)
parse_targets-same_set_example =
    parse_targets-same_set (web ∷ other ∷ web ∷ []) (web ∷ other ∷ []) parsed

-- The rows of nginx on the host w that are at most 600 hours old.
abbrev young_rows : LogRow → Bool
young_rows r =
    text_eq r.host (codes "w")
    && text_eq r.service (codes "nginx")
    && leb_ℤ (hours 2400) r.timestamp

no_days_of_its_own :
    (s : Text)
    → codes "nginx" ≡ s
    → any (λ f. text_eq f.service s) Agents.kept.service_log_retention_days ≡ false
unfolding any text_eq
no_days_of_its_own s e =
    subst (λ t. any (λ f. text_eq f.service t) Agents.kept.service_log_retention_days ≡ false) e
      refl

not_older :
    (t : ℤ) → leb_ℤ (hours 2400) t ≡ true → hours 3000 ≤ℤ (t +ℤ scale (24 * hour_ns) (pos 30))
not_older t h = ground (arith, h, +ℤ_parts t (scale (24 * hour_ns) (pos 30)))

young_rows-KeptBy : (r : LogRow) → young_rows r ≡ true → KeptBy warehouse.agents (hours 3000) r
unfolding any
young_rows-KeptBy r h = record {
  agent = Agents.web;
  before = [];
  after = [];
  stored = refl;
  last = refl;
  host = sym ((text_eq_iff r.host (codes "w")).0 (ground (arith, h)));
  override = Agents.kept;
  configured = refl;
  days = pos 30;
  keeps =
      for_host (pos 30)
        (no_days_of_its_own r.service
          (sym ((text_eq_iff r.service (codes "nginx")).0 (ground (arith, h)))))
        refl;
  in_range = refl;
  not_older = not_older r.timestamp (ground (arith, h));
}

serve-keeps_protected_example :
    select_if young_rows (serve env (some (ok eve)) two_hosts warehouse).1.logs
    ≡ select_if young_rows warehouse.logs
serve-keeps_protected_example =
    serve-keeps_protected env eve two_hosts warehouse young_rows is_no_owner young_rows-KeptBy

serve-keeps_unasked_example :
    select_if
      (λ r. not (asks env two_hosts r))
      (serve env (some (ok eve)) two_hosts warehouse).1.logs
    ≡ select_if (λ r. not (asks env two_hosts r)) warehouse.logs
serve-keeps_unasked_example = serve-keeps_unasked env (some (ok eve)) two_hosts warehouse

durations-exact_example :
    (cutoff_of env (pos 10) +ℤ scale hour_ns (pos 10) ≡ env.now)
    × (boundary env.floor_now (pos 30) +ℤ scale (24 * hour_ns) (pos 30) ≡ env.floor_now)
durations-exact_example = durations-exact env (pos 10) (pos 30) refl refl

abbrev ask : DeletionRequest
ask = record { older_than_hours = pos 10; targets = web ∷ other ∷ web ∷ [] }

eve_is_admin : satisfies admin admin ≡ true
unfolding satisfies role_rank
eve_is_admin = refl

-- No agent is on the host x.
abbrev free_ask : DeletionRequest
free_ask = record { older_than_hours = pos 10; targets = other ∷ [] }

free_parsed : parse_targets (other ∷ []) ≡ some (other ∷ [])
unfolding parse_targets parse_from any is_empty
free_parsed = refl

-- The rows of the request, by host, service and time.
abbrev is_asked : LogRow → Bool
is_asked r = same_target (target_of r) other && ltb_ℤ r.timestamp (hours 2990)

is_asked-AskedFor : (r : LogRow) → (is_asked r ≡ true) ↔ AskedFor env free_ask r
unfolding any
is_asked-AskedFor r = (
  λ h. record {
    target = record {
      before = [];
      after = [];
      split =
          ap (λ (t : HostService). t ∷ [])
            (sym (same_target-eq (target_of r) other (ground (arith, h))));
    };
    older = ground (arith, h, +ℤ_parts r.timestamp (scale hour_ns (pos 10)));
  },
  λ a. ground (
    arith,
    Split-any (target_of r) (other ∷ []) a.target,
    a.older,
    +ℤ_parts r.timestamp (scale hour_ns (pos 10)),
  ),
)

w_is_not_x : codes "w" ≢ codes "x"
w_is_not_x e = ground (arith, (text_eq_iff (codes "w") (codes "x")).1 e)

serve-exact_example : serve env (some (ok eve)) (delete (some free_ask)) warehouse ≡ (
  report (record {
    count = count_if is_asked warehouse.logs;
    cutoff = cutoff_of env (pos 10);
    targets = other ∷ [];
    blocked = [];
  }),
  record warehouse { logs = remove_if is_asked warehouse.logs },
)
serve-exact_example =
    serve-exact env eve free_ask (other ∷ []) warehouse is_asked eve_is_admin (λ c. refl) refl
      free_parsed (inr ((λ e. absurd (w_is_not_x e), tt), tt)) is_asked-AskedFor

-- Only the rows of the host without a floor go, since 10 hours reach into the 30 days of the other.
deletion_run :
    (serve env (some (ok eve)) two_hosts warehouse).1.logs
    ≡ row (codes "w") (codes "nginx") 1
      ∷ row (codes "w") (codes "nginx") 2500
      ∷ row (codes "w") (codes "smtp") 1000
      ∷ []
unfolding serve dispatch handle_delete decode_deletion_request partition_targets count_allowed
    delete_allowed count_older_than delete_older_than parse_targets parse_from partition_by
    floors_by_host floors_from floor_of any text_eq is_empty find_if remove_if count_if
    Override.days_of satisfies role_rank require_role wrap_int64 ◌+ℤ◌
deletion_run = refl

-- Two tenants have an agent on the host w, the first with the 30 days and the second with 1 day.
abbrev two_tenants : Warehouse
two_tenants = record warehouse {
  agents =
      Agents.web
      ∷ record Agents.web {
        tenant_id = codes "u";
        desired_override = some (record Agents.kept { log_retention_days = some (pos 1) });
      }
      ∷ [];
}

abbrev web_alone : Request
web_alone = delete (some (record { older_than_hours = pos 100; targets = web ∷ [] }))

-- The row listed last counts: nothing protects the logs of the first tenant's 30 days.
two_tenants_run :
    (serve env (some (ok eve)) web_alone two_tenants).1.logs
    ≡ row (codes "w") (codes "smtp") 1000 ∷ row (codes "x") (codes "nginx") 2900 ∷ []
unfolding serve dispatch handle_delete decode_deletion_request partition_targets count_allowed
    delete_allowed count_older_than delete_older_than parse_targets parse_from partition_by
    floors_by_host floors_from floor_of any text_eq is_empty find_if remove_if count_if
    Override.days_of satisfies role_rank require_role wrap_int64 ◌+ℤ◌
two_tenants_run = refl
