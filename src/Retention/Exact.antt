-- ===== src/Retention/Exact.antt =====
-- What a deletion does where nothing fails and no floor stands in the way.
use mathlib.Core.Path.{fun_ext}
use cairnobs.Access.Roles.{owner, admin, Identity, satisfies, require_role}
use cairnobs.Base.{
  Bool, true, false, List, [], ◌∷◌, ◌++◌, Option, some, none, ◌≡◌, refl, sym, subst, ◌∙◌, ◌↔◌, ◌⊎◌,
  inl, inr, arith, any, remove_if, count_if, is_nil, All, All-map, All-append, Split, Bool-cases,
}
use cairnobs.Base.Handler.{Out, answered, ◌>>=◌, ◌>>◌, answer}
use cairnobs.Base.Int.{ℤ, ltb_ℤ, ◌<ℤ◌, ◌+ℤ◌, +ℤ_parts, scale}
use cairnobs.Base.Results.{ok}
use cairnobs.Retention.Asked.{parse_targets-same_set, parse_targets-parse_from}
use cairnobs.Retention.Bounds.{cutoff_of-hours}
use cairnobs.Retention.Floors.{HostEntry, floors_by_host, floor_of, hour_ns}
use cairnobs.Retention.Handlers.{
  LogRow, Warehouse, target_of, is_old, count_older_than, delete_older_than, Call, counts, deletes,
  reads_floors, Env, DeletionRequest, delete, hours_refused, decode_deletion_request,
  partition_targets, count_allowed, delete_allowed, cutoff_of, reply_of, report, handle_delete,
  dispatch, serve,
}
use cairnobs.Retention.Members.{any-Split, Split-any}
use cairnobs.Retention.Kept.{NoDaysOf, NoDaysOf-floor}
use cairnobs.Retention.Targets.{
  HostService, same_target, is_blank, parse_from, parse_targets, Partition, partition_by,
  all_allowed, is_owner,
}

-- Without a target no row is old.
remove_if-is_old : (cutoff : ℤ) (rows : List LogRow) → remove_if (is_old cutoff []) rows ≡ rows
unfolding remove_if any
remove_if-is_old cutoff [] = refl
remove_if-is_old cutoff (r ∷ rows) = ground (arith, remove_if-is_old cutoff rows)

count_if-is_old : (cutoff : ℤ) (rows : List LogRow) → count_if (is_old cutoff []) rows ≡ 0
unfolding count_if any
count_if-is_old cutoff [] = refl
count_if-is_old cutoff (r ∷ rows) = ground (arith, count_if-is_old cutoff rows)

-- What stands behind the choice of the targets.
rest_of_delete :
    (env : Env) (cutoff : ℤ) (q : Partition) (allowed : List HostService) (w : Warehouse)
    → env.is_up counts ≡ true
    → env.is_up deletes ≡ true
    → (count_allowed env (is_nil allowed) cutoff allowed >>= λ count.
          delete_allowed env (is_nil allowed) cutoff allowed
          >> answer {A = Unit {0}} (reply_of env cutoff count q))
        w
      ≡ answered
          (reply_of env cutoff (count_if (is_old cutoff allowed) w.logs) q)
          (record w { logs = remove_if (is_old cutoff allowed) w.logs })
unfolding count_allowed delete_allowed count_older_than delete_older_than
rest_of_delete env cutoff q [] w c d =
    rw (count_if-is_old cutoff w.logs, remove_if-is_old cutoff w.logs) refl
rest_of_delete env cutoff q (t ∷ ts) w c d = rw (c, d) refl

-- The row is one that the request asks for: its host and service are a target, and it is more than
-- the given hours older than the time of the request.
pub record AskedFor (env : Env) (o : DeletionRequest) (row : LogRow) : Type 0 where
  pub target : Split o.targets (target_of row)
  pub older : (row.timestamp +ℤ scale hour_ns o.older_than_hours) <ℤ env.now

-- No floor stands in the way: the caller is an owner, or no agent of a target's host gives days.
abbrev pub Unhindered : Identity → DeletionRequest → Warehouse → Type 0
Unhindered i o w = (i.role ≡ owner) ⊎ All (λ t. NoDaysOf t.host w.agents) o.targets

-- Adding the same to both sides does not matter.
add_lt : (a b c : ℤ) → ltb_ℤ a b ≡ true → (a +ℤ c) <ℤ (b +ℤ c)
add_lt a b c h = ground (arith, h, +ℤ_parts a c, +ℤ_parts b c)

lt_add : (a b c : ℤ) → (a +ℤ c) <ℤ (b +ℤ c) → ltb_ℤ a b ≡ true
lt_add a b c h = ground (arith, h, +ℤ_parts a c, +ℤ_parts b c)

module _ (env : Env) (o : DeletionRequest) (h : hours_refused o.older_than_hours ≡ false)
    (targets : List HostService) (p : parse_targets o.targets ≡ some targets) where
  is_old-AskedFor :
      (row : LogRow)
      → is_old (cutoff_of env o.older_than_hours) targets row ≡ true
      → AskedFor env o row
  is_old-AskedFor row b = record {
    target =
        any-Split (target_of row) o.targets (
          sym ((parse_targets-same_set o.targets targets p).1 (target_of row)) ∙ ground (arith, b));
    older =
        subst (λ t. (row.timestamp +ℤ scale hour_ns o.older_than_hours) <ℤ t)
          (cutoff_of-hours env o.older_than_hours h)
          (add_lt row.timestamp (cutoff_of env o.older_than_hours)
            (scale hour_ns o.older_than_hours) (ground (arith, b)));
  }

  AskedFor-is_old :
      (row : LogRow)
      → AskedFor env o row
      → is_old (cutoff_of env o.older_than_hours) targets row ≡ true
  AskedFor-is_old row a =
      let asked : any (same_target (target_of row)) targets ≡ true =
        (parse_targets-same_set o.targets targets p).1 (target_of row)
        ∙ Split-any (target_of row) o.targets a.target in
      let old : ltb_ℤ row.timestamp (cutoff_of env o.older_than_hours) ≡ true =
        lt_add row.timestamp (cutoff_of env o.older_than_hours) (scale hour_ns o.older_than_hours) (
          subst (λ t. (row.timestamp +ℤ scale hour_ns o.older_than_hours) <ℤ t)
            (sym (cutoff_of-hours env o.older_than_hours h)) a.older) in
      ground (arith, asked, old)

  -- A test for exactly the rows asked for is the one of the statement.
  same_test :
      (asked : LogRow → Bool)
      → ((row : LogRow) → (asked row ≡ true) ↔ AskedFor env o row)
      → (row : LogRow) → asked row ≡ is_old (cutoff_of env o.older_than_hours) targets row
  same_test asked t row =
      same_bool _ _ (λ e. AskedFor-is_old row ((t row).0 e))
        (λ e. (t row).1 (is_old-AskedFor row e))
    where
      same_bool : (a b : Bool) → (a ≡ true → b ≡ true) → (b ≡ true → a ≡ true) → a ≡ b
      same_bool a b f g = ground (arith, f, g)

partition_by-free :
    (floors : List HostEntry) (cutoff now : ℤ) (ts : List HostService)
    → All (λ t. floor_of floors t.host t.service ≡ none) ts
    → partition_by floors cutoff now ts ≡ all_allowed ts
unfolding partition_by
partition_by-free floors cutoff now [] a = refl
partition_by-free floors cutoff now (t ∷ ts) a =
    rw (a.0, partition_by-free floors cutoff now ts a.1) refl

-- The targets that parseTargets keeps are some of those given.
parse_from-All :
    (P : HostService → Type 0) (out ts res : List HostService)
    → All P out
    → All P ts
    → parse_from out ts ≡ some res
    → All P res
unfolding parse_from
parse_from-All P out [] res a b e = subst (All P) (some_inj out res e) a
  where
    some_inj :
        (x y : List HostService) → ◌≡◌ {A = Option (List HostService)} (some x) (some y) → x ≡ y
    some_inj x y q = ground (arith, q)
parse_from-All P out (t ∷ ts) res a b e = elim (Bool-cases (is_blank t)) [
  | inl k ↦ absurd (ground (arith, rw k at e))
  | inr k ↦ elim (Bool-cases (any (same_target t) out)) [
    | inl d ↦ parse_from-All P out ts res a b.1 (rw (k, d) at e)
    | inr d ↦
        parse_from-All P (out ++ t ∷ []) ts res (All-append P out (t ∷ []) a (b.0, tt)) b.1
          (rw (k, d) at e)
  ]
]

choose_targets :
    (env : Env) (i : Identity) (o : DeletionRequest) (targets : List HostService) (w : Warehouse)
    (cutoff : ℤ) (b : Bool)
    → env.is_up reads_floors ≡ true
    → parse_targets o.targets ≡ some targets
    → is_owner i.role ≡ b
    → Unhindered i o w
    → partition_targets env b targets cutoff w ≡ Out.goes_on (all_allowed targets) w
unfolding partition_targets
choose_targets env i o targets w cutoff true u p e f = refl
choose_targets env i o targets w cutoff false u p e (inl own) =
    absurd (ground (arith, e, rw own at e))
choose_targets env i o targets w cutoff false u p e (inr none_given) = rw u (
    rw
      (partition_by-free (floors_by_host w.agents) cutoff env.floor_now targets (
        parse_from-All _ [] o.targets targets tt
          (All-map _ _ o.targets (λ t n. NoDaysOf-floor w.agents t.host t.service n) none_given)
          (parse_targets-parse_from o.targets targets p).0))
      refl)

-- Where no call fails and no floor stands in the way, a deletion by an admin or owner whose body is
-- accepted takes exactly the rows that it asks for, by any test that picks these out: those of its
-- targets that are strictly older than its hours, in exact arithmetic. It answers with their number,
-- the cutoff, all targets that parseTargets gives, and none blocked.
pub serve-exact :
    (env : Env) (i : Identity) (o : DeletionRequest) (targets : List HostService) (w : Warehouse)
    (asked : LogRow → Bool)
    → satisfies i.role admin ≡ true
    → ((c : Call) → env.is_up c ≡ true)
    → hours_refused o.older_than_hours ≡ false
    → parse_targets o.targets ≡ some targets
    → Unhindered i o w
    → ((row : LogRow) → (asked row ≡ true) ↔ AskedFor env o row)
    → serve env (some (ok i)) (delete (some o)) w ≡ (
      report (record {
        count = count_if asked w.logs;
        cutoff = cutoff_of env o.older_than_hours;
        targets = targets;
        blocked = [];
      }),
      record w { logs = remove_if asked w.logs },
    )
unfolding serve dispatch require_role handle_delete decode_deletion_request
serve-exact env i o targets w asked l up h p free t =
    let cutoff = cutoff_of env o.older_than_hours in
    rw
      (
        l,
        h,
        p,
        choose_targets env i o targets w cutoff (is_owner i.role) (up reads_floors) p refl free,
        rest_of_delete env cutoff (all_allowed targets) targets w (up counts) (up deletes),
        fun_ext (same_test env o h targets p asked t),
      )
      refl
