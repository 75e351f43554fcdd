-- ===== src/Tests/Delivery.antt =====
-- The delivery worker on a fixed log.
use cairnobs.Alerting.Delivery.{
  Delivery, Tick, broke, no_response, pending, sent, is_open, second_ns, hour_ns, backoff, run,
}
use cairnobs.Alerting.Liveness.{Spaced, Ready, has_id, run-closes, run-closed}
use cairnobs.Alerting.Retries.{IsSane, backoff-wait, run-IsSane}
use cairnobs.Base.{
  ℕ, ◌*◌, ◌^◌, true, false, List, [], ◌∷◌, none, some, ◌≡◌, refl, arith, All, find_if, ltb,
  if◌then◌else◌,
}
use cairnobs.Base.Int.{pos, ltb_ℤ, ◌≤ℤ◌, ◌+ℤ◌, wrap_int64}

-- Two attempts at most, of which none has been made.
abbrev first : Delivery
first = record {
  id = 1;
  status = pending;
  attempt_count = 0;
  max_attempts = 2;
  next_attempt_at = some (pos 0);
  last_attempt_at = none;
  response_status = none;
  last_error = none;
}

abbrev done : Delivery
done = record first { id = 2; status = sent; attempt_count = 1; response_status = some 200 }

-- There is no answer, at the hour h.
abbrev tick : ℕ → Tick
tick h = record {
  now = pos (h * hour_ns);
  is_read = λ _. true;
  answer = λ _. broke no_response;
  written_at = λ _. pos (h * hour_ns);
  is_written = λ _. true;
}

abbrev log : List Delivery
log = first ∷ done ∷ []

backoff-wait_example :
    (backoff 12 ≡ pos (if ltb hour_ns (2 ^ 12 * second_ns) then hour_ns else 2 ^ 12 * second_ns))
    × (backoff 12 ≤ℤ pos hour_ns)
    × (pos 1 ≤ℤ backoff 12)
backoff-wait_example = backoff-wait 12 (omega arith)

run-IsSane_example : All IsSane (run (tick 1 ∷ []) log)
run-IsSane_example = run-IsSane (tick 1 ∷ []) log (omega arith)

spaced : Spaced (tick 1) (tick 3 ∷ [])
unfolding ◌+ℤ◌
spaced = ((λ id. (refl, refl)), (λ id. omega arith), (λ id. (refl, refl)))

ready : All (Ready 2 (pos hour_ns)) log
ready = (
  ((omega arith, omega arith, omega arith), refl),
  (((omega arith, omega arith, omega arith), refl), tt),
)

run-closes_example : All (λ d. is_open d.status ≡ false) (run (tick 1 ∷ tick 3 ∷ []) log)
run-closes_example = run-closes (tick 1) (tick 3 ∷ []) log spaced (omega arith) ready

done_is_found : find_if (has_id 2) log ≡ some done
unfolding find_if
done_is_found = refl

run-closed_example : find_if (has_id 2) (run (tick 1 ∷ tick 3 ∷ []) log) ≡ some done
run-closed_example = run-closed (tick 1 ∷ tick 3 ∷ []) 2 log done done_is_found refl

-- From the 34th attempt on the wait overflows: the next attempt is due before this one is over.
backoff_overflows : ltb_ℤ (backoff 34) (pos 0) ≡ true
unfolding backoff wrap_int64
backoff_overflows = refl
