-- ===== src/Retention/Protected.antt =====
-- A deletion leaves alone what the floors of the agents protect from a caller below owner.
use cairnobs.Access.Roles.{admin, Identity}
use cairnobs.Access.Route.{seen_identity}
use cairnobs.Base.{
  ◌*◌, Bool, true, false, List, [], ◌∷◌, Option, none, some, ◌≡◌, refl, sym, ap, subst, ◌∙◌, inl,
  inr, arith, any, text_eq_iff, select_if, Bool-cases,
}
use cairnobs.Base.Int.{ℤ, ltb_ℤ, leb_ℤ, ◌≤ℤ◌, ◌+ℤ◌, scale, +ℤ_parts}
use cairnobs.Base.Results.{ok}
use cairnobs.Base.Triple.{Triple, Nothing, Triple-weaken}
use cairnobs.Retention.Bounds.{boundary-days}
use cairnobs.Retention.Kept.{KeptBy, KeptBy-floor}
use cairnobs.Retention.Floors.{hour_ns, HostEntry, floors_by_host, floor_of, boundary}
use cairnobs.Retention.Handlers.{
  LogRow, Warehouse, target_of, Env, DeletionRequest, Request, preview, delete,
  role_for_floor_check, partition_targets, cutoff_of, serve,
}
use cairnobs.Retention.Targets.{
  HostService, same_target, Partition, put_target, partition_by, is_owner,
}
use cairnobs.Retention.Safe.{Spared, Spares, Chooses, serve-Spared, partition_targets-by_floors}

-- A floor of these days lets rows before the cutoff go.
abbrev Permits : ℤ → ℤ → Option ℤ → Type 0
Permits cutoff now none = Unit
Permits cutoff now (some days) = ltb_ℤ (boundary now days) cutoff ≡ false

same_floor :
    (floors : List HostEntry) (t x : HostService)
    → same_target t x ≡ true
    → floor_of floors x.host x.service ≡ floor_of floors t.host t.service
same_floor floors t x h = sym (
    ap (λ a. floor_of floors a t.service) ((text_eq_iff t.host x.host).0 (ground (arith, h)))
    ∙ ap (λ a. floor_of floors x.host a) ((text_eq_iff t.service x.service).0 (ground (arith, h))))

put_target-Permits :
    (floors : List HostEntry) (cutoff now : ℤ) (x t : HostService) (rest : Partition) (o : Option ℤ)
    → floor_of floors x.host x.service ≡ o
    → any (same_target t) (put_target cutoff now x o rest).allowed ≡ true
    → (any (same_target t) rest.allowed ≡ true
        → Permits cutoff now (floor_of floors t.host t.service))
    → Permits cutoff now (floor_of floors t.host t.service)
unfolding any
put_target-Permits floors cutoff now x t rest none e h ih = elim (Bool-cases (same_target t x)) [
  | inl b ↦ subst (Permits cutoff now) (sym e ∙ same_floor floors t x b) tt
  | inr b ↦ ih (ground (arith, b, h))
]
put_target-Permits floors cutoff now x t rest (some days) e h ih =
    elim (Bool-cases (ltb_ℤ (boundary now days) cutoff)) [
      | inl k ↦ ih (rw k at h)
      | inr k ↦ elim (Bool-cases (same_target t x)) [
        | inl b ↦ subst (Permits cutoff now) (sym e ∙ same_floor floors t x b) k
        | inr b ↦ ih (ground (arith, b, rw k at h))
      ]
    ]

-- An allowed target has a floor that permits the cutoff, or none.
partition_by-Permits :
    (floors : List HostEntry) (cutoff now : ℤ) (ts : List HostService) (t : HostService)
    → any (same_target t) (partition_by floors cutoff now ts).allowed ≡ true
    → Permits cutoff now (floor_of floors t.host t.service)
unfolding partition_by any
partition_by-Permits floors cutoff now [] t h = absurd (ground arith)
partition_by-Permits floors cutoff now (x ∷ ts) t h =
    put_target-Permits floors cutoff now x t (partition_by floors cutoff now ts)
      (floor_of floors x.host x.service) refl h (λ k. partition_by-Permits floors cutoff now ts t k)

-- A row that the floor of its host and service, as the agents have it, protects at that time.
abbrev pub under_floor : ℤ → Option ℤ → LogRow → Bool
under_floor now none row = false
under_floor now (some days) row = leb_ℤ (boundary now days) row.timestamp

abbrev pub is_protected : Warehouse → ℤ → LogRow → Bool
is_protected w now row =
    under_floor now (floor_of (floors_by_host w.agents) row.host row.service) row

protected-kept :
    (o : Option ℤ) (now cutoff : ℤ) (row : LogRow)
    → Permits cutoff now o
    → under_floor now o row ≡ true
    → ltb_ℤ row.timestamp cutoff ≡ false
protected-kept none now cutoff row h u = absurd (ground (arith, u))
protected-kept (some days) now cutoff row h u = ground (arith, h, u)

floors-Spares :
    (w : Warehouse) (env : Env) (cutoff : ℤ) (ts : List HostService)
    → Spares
        (is_protected w env.floor_now)
        w
        env
        cutoff
        (partition_by (floors_by_host w.agents) cutoff env.floor_now ts).allowed
floors-Spares w env cutoff ts row u =
    elim (Bool-cases (any (same_target (target_of row)) allowed)) [
      | inl b ↦ ground (
        arith,
        protected-kept (floor_of (floors_by_host w.agents) row.host row.service) env.floor_now
            cutoff row
            (partition_by-Permits (floors_by_host w.agents) cutoff env.floor_now ts (target_of row)
              b)
            u,
      )
      | inr b ↦ ground (arith, b)
    ]
  where
    allowed : List HostService
    allowed = (partition_by (floors_by_host w.agents) cutoff env.floor_now ts).allowed

-- Adding the same to both sides does not matter.
cancel_add : (a b c : ℤ) → (a +ℤ c) ≤ℤ (b +ℤ c) → leb_ℤ a b ≡ true
cancel_add a b c h = ground (arith, h, +ℤ_parts a c, +ℤ_parts b c)

KeptBy-is_protected :
    (w : Warehouse) (now : ℤ) (row : LogRow)
    → KeptBy w.agents now row
    → is_protected w now row ≡ true
KeptBy-is_protected w now row k = rw (KeptBy-floor w.agents now row k) (
    cancel_add (boundary now k.days) row.timestamp (scale (24 * hour_ns) k.days)
      (rw (boundary-days now k.days k.in_range) k.not_older))

-- A request of a user who is no owner, whatever fails on the way, leaves in place all rows, by any
-- test that picks out only such rows, that are not older than the days for which the configuration of
-- the agent of their host keeps their service, where these days are between 1 and 3650. If the table
-- lists several agents of a host, whatever their tenants, this is only shown of the last one listed.
pub serve-keeps_protected :
    (env : Env) (i : Identity) (r : Request) (w : Warehouse) (rows : LogRow → Bool)
    → is_owner i.role ≡ false
    → ((row : LogRow) → rows row ≡ true → KeptBy w.agents env.floor_now row)
    → select_if rows (serve env (some (ok i)) r w).1.logs ≡ select_if rows w.logs
serve-keeps_protected env i r w rows l kept =
    (serve-Spared rows w env (some (ok i)) r (chooses r)).0
  where
    chosen :
        (req : DeletionRequest)
        → Triple
            (Spared rows w env)
            Nothing
            (λ q _. Spares rows w env (cutoff_of env req.older_than_hours) q.allowed)
            (partition_targets env
              (is_owner i.role)
              req.targets
              (cutoff_of env req.older_than_hours))
    chosen req = rw l (
        Triple-weaken _ (partition_targets-by_floors rows w env req.targets _) (λ q _ v e.
          subst (λ c. Spares rows w env (cutoff_of env req.older_than_hours) c.allowed) (sym e)
            (λ row b.
              floors-Spares w env (cutoff_of env req.older_than_hours) req.targets row
                (KeptBy-is_protected w env.floor_now row (kept row b)))))

    chooses : (r : Request) → Chooses rows w env (some (ok i)) r
    chooses (preview body) = tt
    chooses (delete body) = λ seen e req d.
        subst
          (λ j.
            Triple (Spared rows w env) Nothing
              (λ q _. Spares rows w env (cutoff_of env req.older_than_hours) q.allowed)
              (partition_targets env (is_owner (role_for_floor_check j)) req.targets
                (cutoff_of env req.older_than_hours)))
          (sym (seen_identity i admin seen e)) (chosen req)
