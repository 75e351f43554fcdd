-- ===== src/Alerting/Delivery.antt =====
-- The delivery worker (alerting/internal/delivery/webhook.go: `processDue`, `attempt`, `markSent`, `fail`) on
-- the rows of `delivery_log`, oldest first. Times are nanoseconds. What the look-up of the target,
-- the check of its address and the HTTP call come to is a parameter, and so is which UPDATE fails.
use cairnobs.Base.{
  ℕ, zero, suc, ◌-◌, ◌*◌, ◌^◌, Bool, true, false, ◌&&◌, List, [], ◌∷◌, Option, none, some,
  if◌then◌else◌, leb, ltb, ◌==◌,
}
use cairnobs.Base.Int.{ℤ, pos, leb_ℤ, ltb_ℤ, ◌+ℤ◌, scale, wrap_int64}

pub data Status : Type 0 where
  pending retrying sent failed : Status

-- `last_error`: what went wrong, less the wording.
pub data DeliveryError : Type 0 where
  no_target bad_url bad_request no_response bad_status : DeliveryError

pub record Delivery : Type 0 where
  pub id : ℕ
  pub status : Status
  pub attempt_count : ℕ
  pub max_attempts : ℕ
  pub next_attempt_at : Option ℤ
  pub last_attempt_at : Option ℤ
  pub response_status : Option ℕ
  pub last_error : Option DeliveryError

-- What an attempt comes to: an error before there is a response, or a response.
pub data Answer : Type 0 where
  broke : DeliveryError → Answer
  responded : (status : ℕ) → Answer

abbrev pub is_open : Status → Bool
is_open pending = true
is_open retrying = true
is_open sent = false
is_open failed = false

abbrev pub has_come : ℤ → Option ℤ → Bool
has_come now none = true
has_come now (some t) = leb_ℤ t now

-- The rows that `processDue` claims, up to its limit.
unfoldable pub is_due : ℤ → Delivery → Bool
is_due now d = is_open d.status && has_come now d.next_attempt_at

abbrev pub null_if_zero : ℕ → Option ℕ
null_if_zero n = if n == 0 then none else some n

abbrev pub second_ns : ℕ
second_ns = 1000000000

abbrev pub hour_ns : ℕ
hour_ns = 3600 * second_ns

abbrev pub capped : ℤ → ℤ
capped d = if ltb_ℤ (pos hour_ns) d then pos hour_ns else d

-- time.Duration(1<<uint(n)) * time.Second, and at most an hour.
unfoldable pub backoff : ℕ → ℤ
backoff n = capped (wrap_int64 (scale second_ns (wrap_int64 (pos (2 ^ n)))))

unfoldable pub mark_sent : ℕ → Delivery → Delivery
mark_sent status d = record d {
  status = sent;
  attempt_count = suc d.attempt_count;
  response_status = some status;
}

abbrev pub give_up : ℕ → DeliveryError → Delivery → Delivery
give_up status e d = record d {
  status = failed;
  attempt_count = suc d.attempt_count;
  response_status = null_if_zero status;
  last_error = some e;
}

abbrev pub retry : ℤ → ℕ → DeliveryError → Delivery → Delivery
retry now status e d = record d {
  status = retrying;
  attempt_count = suc d.attempt_count;
  response_status = null_if_zero status;
  last_error = some e;
  next_attempt_at = some (now +ℤ backoff (suc d.attempt_count));
}

unfoldable pub fail : ℤ → ℕ → DeliveryError → Delivery → Delivery
unfolding backoff
fail now status e d =
    if leb d.max_attempts (suc d.attempt_count) then give_up status e d else retry now status e d

abbrev pub is_success : ℕ → Bool
is_success status = leb 200 status && ltb status 300

-- The row after its attempt, where the UPDATE at its end does not fail.
unfoldable pub attempt : ℤ → Answer → Delivery → Delivery
unfolding mark_sent fail
attempt now (broke e) d = fail now 0 e d
attempt now (responded status) d =
    if is_success status then mark_sent status d else fail now status bad_status d

-- One call of `processDue`: its time, and for each row whether it is read back, what its attempt comes
-- to, and when the UPDATE at its end is, and whether that is done.
pub record Tick : Type 0 where
  pub now : ℤ
  pub is_read : ℕ → Bool
  pub answer : ℕ → Answer
  pub written_at : ℕ → ℤ
  pub is_written : ℕ → Bool

abbrev pub claimed : ℤ → Delivery → Delivery
claimed now d = record d { last_attempt_at = some now }

-- A row that is claimed.
unfoldable pub deliver : Tick → Delivery → Delivery
unfolding attempt
deliver t d =
    if t.is_read d.id && t.is_written d.id
    then attempt (t.written_at d.id) (t.answer d.id) (claimed t.now d)
    else claimed t.now d

abbrev pub batch_size : ℕ
batch_size = 50

-- A row, with k places left in the batch, and the places left behind it.
unfoldable pub visit : Tick → ℕ → Delivery → Delivery
unfolding is_due deliver
visit t zero d = d
visit t (suc k) d = if is_due t.now d then deliver t d else d

unfoldable pub places_left : Tick → ℕ → Delivery → ℕ
unfolding is_due
places_left t k d = if is_due t.now d then k - 1 else k

unfoldable pub process_rows : Tick → ℕ → List Delivery → List Delivery
unfolding visit places_left
process_rows t k [] = []
process_rows t k (d ∷ ds) = visit t k d ∷ process_rows t (places_left t k d) ds

unfoldable pub process_due : Tick → List Delivery → List Delivery
unfolding process_rows
process_due t ds = process_rows t batch_size ds

-- The ticks of `Run`, one after the other.
unfoldable pub run : List Tick → List Delivery → List Delivery
unfolding process_due
run [] ds = ds
run (t ∷ ts) ds = run ts (process_due t ds)
