-- ===== src/Alerting/Retries.antt =====
-- How long the delivery worker waits between attempts, and that it comes to an end.
use cairnobs.Alerting.Delivery.{
  Delivery, Answer, broke, responded, is_open, has_come, is_due, second_ns, hour_ns, backoff,
  mark_sent, fail, attempt, Tick, claimed, deliver, visit, places_left, batch_size, process_rows,
  process_due, run,
}
use cairnobs.Base.{
  ℕ, zero, suc, ◌*◌, ◌^◌, ◌≤◌, ◌<◌, Bool, true, ◌&&◌, List, [], ◌∷◌, ◌≡◌, refl, sym, subst, inl,
  inr, arith, if◌then◌else◌, leb, ltb, ◌==◌, ==_iff, Bool-cases, All,
}
use cairnobs.Base.Int.{ℤ, pos, eqb_ℤ, ◌≤ℤ◌, wrap_int64, eq_of_parts}

-- The wait without overflow: 2 ^ n seconds, and at most an hour.
abbrev wait : ℕ → ℕ
wait n = if ltb hour_ns (2 ^ n * second_ns) then hour_ns else 2 ^ n * second_ns

abbrev agrees : ℕ → Bool
agrees n = eqb_ℤ (backoff n) (pos (wait n)) && leb (wait n) hour_ns && leb 1 (wait n)

-- f holds of all numbers below n.
all_below : ℕ → (ℕ → Bool) → Bool
all_below zero f = true
all_below (suc n) f = f n && all_below n f

all_below-holds : (n : ℕ) (f : ℕ → Bool) (k : ℕ) → all_below n f ≡ true → k < n → f k ≡ true
unfolding all_below
all_below-holds zero f k h l = absurd (omega (arith, l))
all_below-holds (suc n) f k h l = elim (Bool-cases (k == n)) [
  | inl e ↦ subst (λ j. f j ≡ true) (sym ((==_iff k n).0 e)) (ground (arith, h))
  | inr e ↦ all_below-holds n f k (ground (arith, h)) (ground (arith, e, l))
]

agrees-below : all_below 34 agrees ≡ true
unfolding all_below backoff wrap_int64
agrees-below = refl

-- Up to the 33rd failed attempt the wait is 2 ^ n seconds or an hour, whichever is shorter, and so it is
-- positive and at most an hour.
pub backoff-wait :
    (n : ℕ)
    → n ≤ 33
    → (backoff n ≡ pos (if ltb hour_ns (2 ^ n * second_ns) then hour_ns else 2 ^ n * second_ns))
      × (backoff n ≤ℤ pos hour_ns)
      × (pos 1 ≤ℤ backoff n)
backoff-wait n h =
    let a = all_below-holds 34 agrees n agrees-below (omega (arith, h)) in
    let e : backoff n ≡ pos (wait n) = eq_of_parts (backoff n) (pos (wait n)) (ground (arith, a)) in
    (e, rw e (ground (arith, a)), rw e (ground (arith, a)))

-- An open row has an attempt left, and no row has had more than it may have.
abbrev pub spent : Delivery → ℕ
spent d = if is_open d.status then suc d.attempt_count else d.attempt_count

abbrev pub IsSane : Delivery → Type 0
IsSane d = spent d ≤ d.max_attempts

attempt-IsSane :
    (now : ℤ) (a : Answer) (d : Delivery)
    → suc d.attempt_count ≤ d.max_attempts
    → IsSane (attempt now a d)
unfolding attempt mark_sent fail
attempt-IsSane now (broke e) d h = ground (arith, h)
attempt-IsSane now (responded s) d h = ground (arith, h)

visit-IsSane : (t : Tick) (k : ℕ) (d : Delivery) → IsSane d → IsSane (visit t k d)
unfolding visit is_due deliver
visit-IsSane t zero d h = h
visit-IsSane t (suc k) d h =
    elim (Bool-cases (is_open d.status && has_come t.now d.next_attempt_at)) [
      | inl b ↦ rw b (elim (Bool-cases (t.is_read d.id && t.is_written d.id)) [
        | inl c ↦ rw c (
            attempt-IsSane (t.written_at d.id) (t.answer d.id) (claimed t.now d)
              (ground (arith, b, h)))
        | inr c ↦ rw c h
      ])
      | inr b ↦ rw b h
    ]

process_rows-IsSane :
    (t : Tick) (k : ℕ) (ds : List Delivery) → All IsSane ds → All IsSane (process_rows t k ds)
unfolding process_rows
process_rows-IsSane t k [] h = tt
process_rows-IsSane t k (d ∷ ds) h =
    (visit-IsSane t k d h.0, process_rows-IsSane t (places_left t k d) ds h.1)

-- Where no delivery counts more attempts than it may have, and one that is open has an attempt left, this
-- still holds however often the worker runs, whatever its attempts come to and whatever fails.
pub run-IsSane : (ts : List Tick) (ds : List Delivery) → All IsSane ds → All IsSane (run ts ds)
unfolding run process_due
run-IsSane [] ds h = h
run-IsSane (t ∷ ts) ds h =
    run-IsSane ts (process_rows t batch_size ds) (process_rows-IsSane t batch_size ds h)
