-- ===== src/Retention/Asked.antt =====
-- A deletion takes only rows that its request asks for, and what parseTargets makes of the targets.
use cairnobs.Access.Roles.{Identity, Authorized}
use cairnobs.Base.{
  Bool, true, false, not, ◌||◌, List, [], ◌∷◌, ◌++◌, Option, none, some, ◌≡◌, refl, sym, ap, subst,
  ◌∙◌, ◌⊎◌, inl, inr, arith, any, text_eq_iff, select_if, Bool-cases, any-append, length, ltb, ◌≤◌,
}
use cairnobs.Base.Handler.{continues}
use cairnobs.Base.Int.{ℤ, ltb_ℤ}
use cairnobs.Base.Triple.{Triple, Nothing, Triple-weaken}
use cairnobs.Retention.Floors.{HostEntry, floors_by_host, floor_of, boundary}
use cairnobs.Retention.Handlers.{
  LogRow, Warehouse, target_of, is_old, Env, DeletionRequest, Request, preview, delete,
  role_for_floor_check, partition_targets, cutoff_of, serve,
}
use cairnobs.Retention.Targets.{
  HostService, same_target, is_blank, parse_from, bounded, parse_targets, put_target, partition_by,
  is_owner,
}
use cairnobs.Retention.Safe.{
  Spared, Spares, Chooses, ChoosesSpares, Decoded, serve-Spared, partition_targets-by_floors,
}

-- Allowed targets are among those that were asked for.
partition_by-asked :
    (floors : List HostEntry) (cutoff now : ℤ) (ts : List HostService) (t : HostService)
    → any (same_target t) (partition_by floors cutoff now ts).allowed ≡ true
    → any (same_target t) ts ≡ true
unfolding partition_by any
partition_by-asked floors cutoff now [] t h = h
partition_by-asked floors cutoff now (x ∷ ts) t h =
    by_floor (floor_of floors x.host x.service) h (λ k. partition_by-asked floors cutoff now ts t k)
  where
    by_floor :
        (o : Option ℤ)
        → any
            (same_target t)
            (put_target cutoff now x o (partition_by floors cutoff now ts)).allowed
          ≡ true
        → (any (same_target t) (partition_by floors cutoff now ts).allowed ≡ true
            → any (same_target t) ts ≡ true)
        → (same_target t x || any (same_target t) ts) ≡ true
    by_floor none k ih = ground (arith, k, ih)
    by_floor (some days) k ih = elim (Bool-cases (ltb_ℤ (boundary now days) cutoff)) [
      | inl b ↦ ground (arith, ih (rw b at k))
      | inr b ↦ ground (arith, rw b at k, ih)
    ]

same_target_subst :
    (t x : HostService) (xs : List HostService)
    → same_target t x ≡ true
    → any (same_target x) xs ≡ any (same_target t) xs
same_target_subst t x xs h =
    ap (λ a. any (same_target (record { host = a; service = x.service })) xs)
      (sym ((text_eq_iff t.host x.host).0 (ground (arith, h))))
    ∙ ap (λ a. any (same_target (record { host = t.host; service = a })) xs)
        (sym ((text_eq_iff t.service x.service).0 (ground (arith, h))))

parse_from-any :
    (out ts res : List HostService) (t : HostService)
    → parse_from out ts ≡ some res
    → any (same_target t) res ≡ (any (same_target t) out || any (same_target t) ts)
unfolding parse_from any
parse_from-any out [] res t h = ground (arith, ap (any (same_target t)) (some_inj out res h))
  where
    some_inj :
        (a b : List HostService) → ◌≡◌ {A = Option (List HostService)} (some a) (some b) → a ≡ b
    some_inj a b e = ground (arith, e)
parse_from-any out (x ∷ ts) res t h = elim (Bool-cases (is_blank x)) [
  | inl b ↦ absurd (ground (arith, rw b at h))
  | inr b ↦ elim (Bool-cases (any (same_target x) out)) [
    | inl d ↦ parse_from-any out ts res t (rw (b, d) at h) ∙ known d (Bool-cases (same_target t x))
    | inr d ↦
        parse_from-any (out ++ x ∷ []) ts res t (rw (b, d) at h)
        ∙ ground (arith, any-append (same_target t) out (x ∷ []))
  ]
]
  where
    known :
        any (same_target x) out ≡ true
        → (same_target t x ≡ true) ⊎ (same_target t x ≡ false)
        → (any (same_target t) out || any (same_target t) ts)
          ≡ (any (same_target t) out || (same_target t x || any (same_target t) ts))
    known d (inl e) = ground (arith, d, e, same_target_subst t x out e)
    known d (inr e) = ground (arith, d, e)

-- Targets of which no two are the same.
abbrev pub Distinct : List HostService → Type 0
Distinct [] = Unit
Distinct (x ∷ xs) = (any (same_target x) xs ≡ false) × Distinct xs

same_target_sym : (a b : HostService) → same_target a b ≡ false → same_target b a ≡ false
same_target_sym a b h = ground (
  arith,
  text_eq_iff a.host b.host,
  text_eq_iff b.host a.host,
  text_eq_iff a.service b.service,
  text_eq_iff b.service a.service,
  h,
)

Distinct-concat :
    (xs : List HostService) (t : HostService)
    → Distinct xs
    → any (same_target t) xs ≡ false
    → Distinct (xs ++ t ∷ [])
unfolding any
Distinct-concat [] t d n = (refl, tt)
Distinct-concat (x ∷ xs) t d n = (
  ground (arith, any-append (same_target x) xs (t ∷ []), d.0, same_target_sym t x, n),
  Distinct-concat xs t d.1 (ground (arith, n)),
)

parse_from-Distinct :
    (out ts res : List HostService) → Distinct out → parse_from out ts ≡ some res → Distinct res
unfolding parse_from
parse_from-Distinct out [] res d h = subst Distinct (some_inj out res h) d
  where
    some_inj :
        (a b : List HostService) → ◌≡◌ {A = Option (List HostService)} (some a) (some b) → a ≡ b
    some_inj a b e = ground (arith, e)
parse_from-Distinct out (x ∷ ts) res d h = elim (Bool-cases (is_blank x)) [
  | inl b ↦ absurd (ground (arith, rw b at h))
  | inr b ↦ elim (Bool-cases (any (same_target x) out)) [
    | inl k ↦ parse_from-Distinct out ts res d (rw (b, k) at h)
    | inr k ↦
        parse_from-Distinct (out ++ x ∷ []) ts res (Distinct-concat out x d k) (rw (b, k) at h)
  ]
]

pub parse_targets-parse_from :
    (ts res : List HostService)
    → parse_targets ts ≡ some res
    → (parse_from [] ts ≡ some res) × (1 ≤ length res) × (length res ≤ 2000)
unfolding parse_targets
parse_targets-parse_from ts res h = by_result (parse_from [] ts) h
  where
    by_result :
        (o : Option (List HostService))
        → bounded o ≡ some res
        → (o ≡ some res) × (1 ≤ length res) × (length res ≤ 2000)
    by_result none e = absurd (ground (arith, e))
    by_result (some []) e = absurd (ground (arith, e))
    by_result (some (x ∷ xs)) e = elim (Bool-cases (ltb 2000 (length (x ∷ xs)))) [
      | inl b ↦ absurd (ground (arith, rw b at e))
      | inr b ↦
          subst
            (λ r.
              (◌≡◌ {A = Option (List HostService)} (some (x ∷ xs)) (some r))
              × (1 ≤ length r)
              × (length r ≤ 2000))
            (ground (arith, rw b at e)) (refl, omega arith, ground (arith, b))
    ]

-- The targets that parseTargets accepts are those of the request, each once, and between 1 and 2000.
pub parse_targets-same_set :
    (ts res : List HostService)
    → parse_targets ts ≡ some res
    → Distinct res
      × ((t : HostService) → any (same_target t) res ≡ any (same_target t) ts)
      × (1 ≤ length res)
      × (length res ≤ 2000)
unfolding any
parse_targets-same_set ts res h =
    let p = parse_targets-parse_from ts res h in
    (parse_from-Distinct [] ts res tt p.0, λ t. parse_from-any [] ts res t p.0, p.1, p.2)

-- What the request asks to delete.
abbrev pub asks_body : Env → Option DeletionRequest → LogRow → Bool
asks_body env none row = false
asks_body env (some o) row = is_old (cutoff_of env o.older_than_hours) o.targets row

abbrev pub asks : Env → Request → LogRow → Bool
asks env (preview body) row = false
asks env (delete body) row = asks_body env body row

abbrev unasked : Env → Request → LogRow → Bool
unasked env r row = not (asks env r row)

allowed-Spares :
    (env : Env) (w : Warehouse) (i : Option Identity) (o : DeletionRequest) (req : DeletionRequest)
    (allowed : List HostService)
    → Decoded (some o) req
    → ((t : HostService)
        → any (same_target t) allowed ≡ true
        → any (same_target t) req.targets ≡ true)
    → Spares (unasked env (delete (some o))) w env (cutoff_of env req.older_than_hours) allowed
allowed-Spares env w i o req allowed d sub row u =
    rw d.1 (elim (Bool-cases (any (same_target (target_of row)) allowed)) [
      | inl b ↦ ground (
        arith,
        u,
        sub (target_of row) b,
        (parse_targets-same_set o.targets req.targets d.0).1 (target_of row),
      )
      | inr b ↦ ground (arith, b)
    ])

chosen_body :
    (env : Env) (w : Warehouse) (i : Option Identity) (o req : DeletionRequest) (b : Bool)
    → Decoded (some o) req
    → Triple
        (Spared (unasked env (delete (some o))) w env)
        Nothing
        (λ q _.
          Spares
            (unasked env (delete (some o)))
            w
            env
            (cutoff_of env req.older_than_hours)
            q.allowed)
        (partition_targets env b req.targets (cutoff_of env req.older_than_hours))
unfolding partition_targets
chosen_body env w i o req true d =
    λ s v h. continues (v, allowed-Spares env w i o req req.targets d (λ t k. k))
chosen_body env w i o req false d =
    Triple-weaken _
      (partition_targets-by_floors (unasked env (delete (some o))) w env req.targets
        (cutoff_of env req.older_than_hours))
      (λ q _ v e. allowed-Spares env w i o req q.allowed d (λ t k.
        partition_by-asked (floors_by_host w.agents) (cutoff_of env req.older_than_hours)
          env.floor_now req.targets t (subst (λ c. any (same_target t) c.allowed ≡ true) e k)))

chooses-Spares :
    (env : Env) (w : Warehouse) (i : Option Identity) (body : Option DeletionRequest)
    → ChoosesSpares (unasked env (delete body)) w env i body
chooses-Spares env w i none req d = absurd d
chooses-Spares env w i (some o) req d =
    chosen_body env w i o req (is_owner (role_for_floor_check i)) d

-- A request, whoever sends it and whatever fails on the way, leaves every row that it does not ask to
-- delete: a preview leaves all of them, a deletion those that are no older than its cutoff or
-- belong to a host and service that it does not name.
pub serve-keeps_unasked :
    (env : Env) (auth : Authorized) (r : Request) (w : Warehouse)
    → select_if (λ row. not (asks env r row)) (serve env auth r w).1.logs
      ≡ select_if (λ row. not (asks env r row)) w.logs
serve-keeps_unasked env auth r w = (serve-Spared (unasked env r) w env auth r (chooses r)).0
  where
    chooses : (q : Request) → Chooses (unasked env q) w env auth q
    chooses (preview body) = tt
    chooses (delete body) = λ i e. chooses-Spares env w i body
