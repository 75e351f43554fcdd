-- ===== src/Retention/Safe.antt =====
-- What a deletion leaves alone.
use cairnobs.Access.Roles.{admin, Identity, Authorized, handled, require_role}
use cairnobs.Access.Route.{route-Triple}
use cairnobs.Base.{
  Bool, true, false, List, Option, none, some, ◌≡◌, refl, ap, ◌∙◌, select_if, is_nil,
  select_if-remove_if,
}
use cairnobs.Base.Handler.{answers, continues}
use cairnobs.Base.Int.{ℤ}
use cairnobs.Base.Triple.{
  Triple, Nothing, bind-Triple, answer_if-Triple-unless, or_fail-Triple-some, answer-Triple,
  reads-Triple, writes-Triple, Triple-weaken, answer_of-Triple,
}
use cairnobs.Retention.Floors.{floors_by_host}
use cairnobs.Retention.Handlers.{
  LogRow, Warehouse, is_old, delete_older_than, hours_refused, reads_floors, counts, deletes, Env,
  DeletionRequest, failed, failed_call, Request, preview, delete, decode_deletion_request,
  role_for_floor_check, partition_targets, count_allowed, delete_allowed, cutoff_of, reply_of,
  handle_preview, handle_delete, dispatch, serve,
}
use cairnobs.Retention.Targets.{HostService, parse_targets, partition_by, is_owner}

-- The request that a body decodes to.
abbrev pub Decoded : Option DeletionRequest → DeletionRequest → Type 0
Decoded none req = ⊥
Decoded (some o) req =
    (parse_targets o.targets ≡ some req.targets) × (req.older_than_hours ≡ o.older_than_hours)

-- The rows that p picks out are those of w0, and so are the agents.
module _ (p : LogRow → Bool) (w0 : Warehouse) (env : Env) where
  abbrev pub Spared : Warehouse → Type 0
  Spared w = (select_if p w.logs ≡ select_if p w0.logs) × (w.agents ≡ w0.agents)

  -- A deletion from these targets takes none of the rows.
  abbrev pub Spares : ℤ → List HostService → Type 0
  Spares cutoff targets = (row : LogRow) → p row ≡ true → is_old cutoff targets row ≡ false

  delete_allowed-Triple :
      (b : Bool) (cutoff : ℤ) (targets : List HostService)
      → Triple Spared
          (λ _. Spares cutoff targets)
          (λ _. Nothing)
          (delete_allowed env b cutoff targets)
  unfolding delete_allowed
  delete_allowed-Triple true cutoff targets = λ w v h. continues (v, tt)
  delete_allowed-Triple false cutoff targets =
      writes-Triple failed_call tt (env.is_up deletes) _ (λ w v h.
        unfold delete_older_than in
        (select_if-remove_if p (is_old cutoff targets) w.logs h ∙ v.0, v.1))

  count_allowed-Triple :
      {P : Warehouse → Type 0} (b : Bool) (cutoff : ℤ) (targets : List HostService)
      → Triple Spared P (λ _ w. P w) (count_allowed env b cutoff targets)
  unfolding count_allowed
  count_allowed-Triple true cutoff targets = λ w v h. continues (v, h)
  count_allowed-Triple false cutoff targets =
      Triple-weaken _ (reads-Triple (λ _ _. Unit {0}) failed_call tt (env.is_up counts) _ (λ w. tt))
        (λ _ w v h. h.0)

  -- The partition by the floors of w0 is what a caller below owner gets.
  pub partition_targets-by_floors :
      (targets : List HostService) (cutoff : ℤ)
      → Triple Spared Nothing
          (λ q _. q ≡ partition_by (floors_by_host w0.agents) cutoff env.floor_now targets)
          (partition_targets env false targets cutoff)
  unfolding partition_targets
  partition_targets-by_floors targets cutoff =
      bind-Triple _ _
        (reads-Triple (λ f w. f ≡ floors_by_host w.agents) failed_call tt (env.is_up reads_floors) _
          (λ w. refl))
        λ floors w v h.
          continues
            (v, ap (λ f. partition_by f cutoff env.floor_now targets) (h.1 ∙ ap floors_by_host v.1))

  pub partition_targets-Nothing :
      (b : Bool) (targets : List HostService) (cutoff : ℤ)
      → Triple Spared Nothing (λ _. Nothing) (partition_targets env b targets cutoff)
  unfolding partition_targets
  partition_targets-Nothing true targets cutoff = λ w v h. continues (v, tt)
  partition_targets-Nothing false targets cutoff =
      Triple-weaken _ (partition_targets-by_floors targets cutoff) (λ _ _ _ _. tt)

  -- What the choice of the targets must establish.
  abbrev pub ChoosesSpares : Option Identity → Option DeletionRequest → Type 0
  ChoosesSpares i body =
      (req : DeletionRequest)
      → Decoded body req
      → Triple Spared Nothing (λ q _. Spares (cutoff_of env req.older_than_hours) q.allowed)
          (partition_targets env (is_owner (role_for_floor_check i)) req.targets
            (cutoff_of env req.older_than_hours))

  decode_deletion_request-Triple :
      (body : Option DeletionRequest)
      → Triple Spared Nothing (λ req _. Decoded body req) (decode_deletion_request body)
  unfolding decode_deletion_request
  decode_deletion_request-Triple none = λ w v h. answers v
  decode_deletion_request-Triple (some o) =
      bind-Triple _ _ (answer_if-Triple-unless (hours_refused o.older_than_hours) (failed 400)) λ _.
        bind-Triple _ _ (or_fail-Triple-some _ (failed 400) (parse_targets o.targets))
          λ targets. λ w v e. continues (v, (e, refl))

  handle_delete-Triple :
      (i : Option Identity) (body : Option DeletionRequest)
      → ChoosesSpares i body
      → Triple Spared Nothing (λ _. Nothing) (handle_delete env i body)
  unfolding handle_delete
  handle_delete-Triple i body g = bind-Triple _ _ (decode_deletion_request-Triple body) λ req.
      bind-Triple _ _ (λ w v e. g req e w v tt)
        λ q. bind-Triple _ _ (count_allowed-Triple (is_nil q.allowed) _ q.allowed) λ count.
          bind-Triple _ _
            (delete_allowed-Triple (is_nil q.allowed) (cutoff_of env req.older_than_hours)
              q.allowed)
            λ _. answer-Triple _ (reply_of env (cutoff_of env req.older_than_hours) count q)

  handle_preview-Triple :
      (i : Option Identity) (body : Option DeletionRequest)
      → Triple Spared Nothing (λ _. Nothing) (handle_preview env i body)
  unfolding handle_preview
  handle_preview-Triple i body = bind-Triple _ _ (decode_deletion_request-Triple body) λ req.
      bind-Triple _ _
        (λ w v e.
          partition_targets-Nothing (is_owner (role_for_floor_check i)) req.targets
            (cutoff_of env req.older_than_hours) w v tt)
        λ q.
          bind-Triple _ _
            (count_allowed-Triple (is_nil q.allowed) (cutoff_of env req.older_than_hours) q.allowed)
            λ count. answer-Triple _ (reply_of env (cutoff_of env req.older_than_hours) count q)

  abbrev pub Chooses : Authorized → Request → Type 0
  Chooses auth (preview body) = Unit
  Chooses auth (delete body) =
      (i : Option Identity) → require_role auth admin ≡ handled i → ChoosesSpares i body

  dispatch-Triple :
      (auth : Authorized) (r : Request)
      → Chooses auth r
      → Triple Spared Nothing (λ _. Nothing) (dispatch env auth r)
  unfolding dispatch
  dispatch-Triple auth (preview body) g =
      route-Triple failed auth admin _ (λ i _. handle_preview-Triple i body)
  dispatch-Triple auth (delete body) g =
      route-Triple failed auth admin _ (λ i e. handle_delete-Triple i body (g i e))

  pub serve-Spared :
      (auth : Authorized) (r : Request) → Chooses auth r → Spared (serve env auth r w0).1
  unfolding serve
  serve-Spared auth r g =
      answer_of-Triple (failed 500) (dispatch env auth r) (dispatch-Triple auth r g) w0 (refl, refl)
