-- ===== src/Alerting/Liveness.antt =====
-- Every delivery comes to an end: it is sent or given up, and then left alone.
use cairnobs.Alerting.Delivery.{
  Delivery, Answer, broke, responded, is_open, has_come, is_due, hour_ns, backoff, mark_sent, fail,
  attempt, Tick, claimed, deliver, visit, places_left, batch_size, process_rows, process_due, run,
}
use cairnobs.Alerting.Retries.{IsSane, backoff-wait}
use cairnobs.Base.{
  ℕ, zero, suc, ◌-◌, ◌≤◌, Bool, true, false, not, ◌&&◌, ◌||◌, List, [], ◌∷◌, some, ◌≡◌, refl, ap,
  inl, inr, arith, if◌then◌else◌, ◌==◌, Bool-cases, All, length, find_if,
}
use cairnobs.Base.Int.{ℤ, pos, ◌+ℤ◌, ◌≤ℤ◌, +ℤ_parts}

-- Attempts that a row may still need.
abbrev pub remaining : Delivery → ℕ
remaining d = if is_open d.status then d.max_attempts - d.attempt_count else 0

-- A row that may need n more attempts, of a delivery whose waits do not overflow.
abbrev pub Needs : ℕ → Delivery → Type 0
Needs n d = IsSane d × (remaining d ≤ n) × (d.max_attempts ≤ 33)

-- The row is closed, or its next attempt may begin.
abbrev pub is_ready : ℤ → Delivery → Bool
is_ready now d = not (is_open d.status) || has_come now d.next_attempt_at

attempt-Needs :
    (now : ℤ) (a : Answer) (d : Delivery) (n : ℕ)
    → is_open d.status ≡ true
    → Needs (suc n) d
    → Needs n (attempt now a d)
unfolding attempt mark_sent fail
attempt-Needs now (broke e) d n o h = ground (arith, o, h)
attempt-Needs now (responded s) d n o h = ground (arith, o, h)

-- What the attempt waits for has come an hour later.
attempt-is_ready :
    (now later : ℤ) (a : Answer) (d : Delivery)
    → d.max_attempts ≤ 33
    → now +ℤ pos hour_ns ≤ℤ later
    → is_ready later (attempt now a d) ≡ true
unfolding attempt mark_sent fail
attempt-is_ready now later (broke e) d m h = ground (
  arith,
  m,
  h,
  backoff-wait (suc d.attempt_count),
  +ℤ_parts now (pos hour_ns),
  +ℤ_parts now (backoff (suc d.attempt_count)),
)
attempt-is_ready now later (responded s) d m h = ground (
  arith,
  m,
  h,
  backoff-wait (suc d.attempt_count),
  +ℤ_parts now (pos hour_ns),
  +ℤ_parts now (backoff (suc d.attempt_count)),
)

-- Every row is read back and every UPDATE is done.
abbrev pub IsUp : Tick → Type 0
IsUp t = (id : ℕ) → (t.is_read id ≡ true) × (t.is_written id ≡ true)

-- A tick that begins an hour after every attempt of the tick before it, or later.
abbrev pub Follows : Tick → Tick → Type 0
Follows t next = (id : ℕ) → t.written_at id +ℤ pos hour_ns ≤ℤ next.now

abbrev pub Ready : ℕ → ℤ → Delivery → Type 0
Ready n now d = Needs n d × (is_ready now d ≡ true)

visit-Needs :
    (t : Tick) (k n : ℕ) (d : Delivery)
    → IsUp t
    → Ready (suc n) t.now d
    → Needs n (visit t (suc k) d)
unfolding visit is_due deliver
visit-Needs t k n d up h =
    elim (Bool-cases (is_open d.status && has_come t.now d.next_attempt_at)) [
      | inl b ↦
          rw (b, (up d.id).0, (up d.id).1)
            (attempt-Needs (t.written_at d.id) (t.answer d.id) (claimed t.now d) n
              (ground (arith, b)) h.0)
      | inr b ↦ rw b (ground (arith, b, h))
    ]

visit-is_ready :
    (t : Tick) (k n : ℕ) (d : Delivery) (later : ℤ)
    → IsUp t
    → Ready n t.now d
    → t.written_at d.id +ℤ pos hour_ns ≤ℤ later
    → is_ready later (visit t (suc k) d) ≡ true
unfolding visit is_due deliver
visit-is_ready t k n d later up h l =
    elim (Bool-cases (is_open d.status && has_come t.now d.next_attempt_at)) [
      | inl b ↦
          rw (b, (up d.id).0, (up d.id).1)
            (attempt-is_ready (t.written_at d.id) later (t.answer d.id) (claimed t.now d) h.0.2 l)
      | inr b ↦ rw b (ground (arith, b, h.1))
    ]

length-process_rows :
    (t : Tick) (k : ℕ) (ds : List Delivery) → length (process_rows t k ds) ≡ length ds
unfolding process_rows
length-process_rows t k [] = refl
length-process_rows t k (d ∷ ds) = ap suc (length-process_rows t (places_left t k d) ds)

enough_places : (t : Tick) (k l : ℕ) (d : Delivery) → suc l ≤ k → l ≤ places_left t k d
unfolding places_left
enough_places t k l d h = ground (arith, h)

process_rows-Needs :
    (t : Tick) (k n : ℕ) (ds : List Delivery)
    → IsUp t
    → length ds ≤ k
    → All (Ready (suc n) t.now) ds
    → All (Needs n) (process_rows t k ds)
unfolding process_rows
process_rows-Needs t k n [] up l h = tt
process_rows-Needs t zero n (d ∷ ds) up l h = absurd (omega (arith, l))
process_rows-Needs t (suc k) n (d ∷ ds) up l h = (
  visit-Needs t k n d up h.0,
  process_rows-Needs t (places_left t (suc k) d) n ds up (enough_places t (suc k) (length ds) d l)
      h.1,
)

process_rows-Ready :
    (t next : Tick) (k n : ℕ) (ds : List Delivery)
    → IsUp t
    → Follows t next
    → length ds ≤ k
    → All (Ready (suc n) t.now) ds
    → All (Ready n next.now) (process_rows t k ds)
unfolding process_rows
process_rows-Ready t next k n [] up f l h = tt
process_rows-Ready t next zero n (d ∷ ds) up f l h = absurd (omega (arith, l))
process_rows-Ready t next (suc k) n (d ∷ ds) up f l h = (
  (visit-Needs t k n d up h.0, visit-is_ready t k (suc n) d next.now up h.0 (f d.id)),
  process_rows-Ready t next (places_left t (suc k) d) n ds up f
      (enough_places t (suc k) (length ds) d l) h.1,
)

-- The ticks from t on, each of which begins late enough.
abbrev pub Spaced : Tick → List Tick → Type 0
Spaced t [] = IsUp t
Spaced t (next ∷ ts) = IsUp t × Follows t next × Spaced next ts

is_open-Needs : (ds : List Delivery) → All (Needs 0) ds → All (λ d. is_open d.status ≡ false) ds
is_open-Needs [] h = tt
is_open-Needs (d ∷ ds) h = (ground (arith, h.0), is_open-Needs ds h.1)

run_from :
    (t : Tick) (ts : List Tick) (ds : List Delivery)
    → Spaced t ts
    → length ds ≤ batch_size
    → All (Ready (length (t ∷ ts)) t.now) ds
    → All (Needs 0) (run (t ∷ ts) ds)
unfolding run process_due
run_from t [] ds s l h = process_rows-Needs t batch_size 0 ds s l h
run_from t (next ∷ ts) ds s l h =
    run_from next ts (process_rows t batch_size ds) s.2
      (omega (arith, l, length-process_rows t batch_size ds))
      (process_rows-Ready t next batch_size (length (next ∷ ts)) ds s.0 s.1 l h)

-- Where the log has no more than 50 deliveries, each sane in its count of attempts, allowed at most 33 of
-- them and, if open, due by the first tick, where every call of the database succeeds and a tick
-- begins an hour or more after the attempts of the tick before it, as many ticks as any delivery
-- may still need attempts close all of them: they are sent or given up, whatever the attempts come
-- to.
pub run-closes :
    (t : Tick) (ts : List Tick) (ds : List Delivery)
    → Spaced t ts
    → length ds ≤ batch_size
    → All (Ready (length (t ∷ ts)) t.now) ds
    → All (λ d. is_open d.status ≡ false) (run (t ∷ ts) ds)
run-closes t ts ds s l h = is_open-Needs (run (t ∷ ts) ds) (run_from t ts ds s l h)

closed_stays : (t : Tick) (k : ℕ) (d : Delivery) → is_open d.status ≡ false → visit t k d ≡ d
unfolding visit is_due
closed_stays t zero d h = refl
closed_stays t (suc k) d h = ground (arith, h)

attempt-id : (now : ℤ) (a : Answer) (d : Delivery) → (attempt now a d).id ≡ d.id
unfolding attempt mark_sent fail
attempt-id now (broke e) d = ground arith
attempt-id now (responded s) d = ground arith

visit-id : (t : Tick) (k : ℕ) (d : Delivery) → (visit t k d).id ≡ d.id
unfolding visit is_due deliver
visit-id t zero d = refl
visit-id t (suc k) d =
    ground (arith, attempt-id (t.written_at d.id) (t.answer d.id) (claimed t.now d))

abbrev pub has_id : ℕ → Delivery → Bool
has_id id d = d.id == id

process_rows-closed :
    (t : Tick) (k id : ℕ) (ds : List Delivery) (d : Delivery)
    → find_if (has_id id) ds ≡ some d
    → is_open d.status ≡ false
    → find_if (has_id id) (process_rows t k ds) ≡ some d
unfolding process_rows find_if
process_rows-closed t k id [] d h c = absurd (ground (arith, h))
process_rows-closed t k id (x ∷ ds) d h c = elim (Bool-cases (x.id == id)) [
  | inl b ↦
      let e : x ≡ d = ground (arith, b, h) in
      rw (closed_stays t k x (rw e c)) (ground (arith, b, e))
  | inr b ↦
      rw (visit-id t k x, b)
        (process_rows-closed t (places_left t k x) id ds d (ground (arith, b, h)) c)
]

-- A delivery that was sent or given up, as the first one in the log with its id, is never touched again,
-- however often the worker runs; so it is not sent a second time.
pub run-closed :
    (ts : List Tick) (id : ℕ) (ds : List Delivery) (d : Delivery)
    → find_if (has_id id) ds ≡ some d
    → is_open d.status ≡ false
    → find_if (has_id id) (run ts ds) ≡ some d
unfolding run process_due
run-closed [] id ds d h c = h
run-closed (t ∷ ts) id ds d h c =
    run-closed ts id (process_rows t batch_size ds) d (process_rows-closed t batch_size id ds d h c)
      c
