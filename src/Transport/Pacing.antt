-- ===== src/Transport/Pacing.antt =====
-- The accounting and the deadlines of shph-transport/src/pacing.rs. An instant or a `Duration` is its number of
-- nanoseconds. The waiting itself and the send of crate `quinn` are not modelled.
pub mod Accounts
mod Tests
use shph.Prelude.{
  ℕ, ◌+◌, ◌-◌, ◌*◌, min, Bool, not, ◌||◌, Option, none, some, List, [], ◌∷◌, ltb, leb, ◌==◌,
  if◌then◌else◌, Result, ok, err, ShphError, true, config, protocol, timeout, connection_closed,
  resource_exhausted, invalid_argument, saturating_add,
}

pub record PacingMetrics : Type 0 where
  pub sent : ℕ
  pub expired : ℕ
  pub rejected_full : ℕ
  pub cancelled : ℕ
  pub locally_dropped : ℕ
  pub shaping_micros : ℕ
  pub queue_micros : ℕ
  pub overshoot_micros : ℕ

abbrev pub no_metrics : PacingMetrics
no_metrics = record {
  sent = 0;
  expired = 0;
  rejected_full = 0;
  cancelled = 0;
  locally_dropped = 0;
  shaping_micros = 0;
  queue_micros = 0;
  overshoot_micros = 0;
}

abbrev pub secs : ℕ → ℕ
secs n = n * 1000000000

unfoldable pub queue_deadline : ℕ → ℕ → ℕ
queue_deadline enqueued_at budget = enqueued_at + budget

unfoldable pub release_at : ℕ → ℕ → ℕ → ℕ
release_at enqueued_at shaping_delay budget = enqueued_at + min shaping_delay budget

unfoldable pub effective_deadline : ℕ → ℕ → ℕ → ℕ
effective_deadline enqueued_at caller_deadline budget =
    min caller_deadline (queue_deadline enqueued_at budget)

-- `max_datagram_size.is_none_or(|limit| payload_len > limit)`
abbrev pub exceeds : ℕ → Option ℕ → Bool
exceeds payload_len none = true
exceeds payload_len (some limit) = ltb limit payload_len

unfoldable pub validate_carrier_limit : ℕ → Option ℕ → Result ShphError (Unit {0})
validate_carrier_limit payload_len limit =
    if exceeds payload_len limit
    then err (protocol "paced datagram exceeds current carrier limit")
    else ok tt

-- The free slots of the semaphore, the budget and the counters.
pub record DatagramPacer : Type 0 where
  pub slots : ℕ
  pub budget : ℕ
  pub metrics : PacingMetrics

unfoldable pub new : ℕ → ℕ → Result ShphError DatagramPacer
new capacity maximum_queue_age =
    if ltb capacity 1
      || ltb 1024 capacity
      || maximum_queue_age == 0
      || ltb (secs 60) maximum_queue_age
    then err (config "invalid pacing capacity or deadline")
    else ok (record { slots = capacity; budget = maximum_queue_age; metrics = no_metrics })

-- `try_acquire`, with the count of refusals.
unfoldable pub reserve_slot : DatagramPacer → DatagramPacer × Result ShphError (Unit {0})
reserve_slot p =
    if p.slots == 0
    then (
      record p {
        metrics = record (p.metrics) { rejected_full = saturating_add p.metrics.rejected_full 1 };
      },
      err (resource_exhausted "pacing queue is full"),
    )
    else (record p { slots = p.slots - 1 }, ok tt)

abbrev pub dropped : PacingMetrics → PacingMetrics
dropped m = record m { locally_dropped = saturating_add m.locally_dropped 1 }

-- The match on the result, then the count of all failures.
unfoldable pub record_result : PacingMetrics → Result ShphError (Unit {0}) → PacingMetrics
record_result m (ok _) = record m { sent = saturating_add m.sent 1 }
record_result m (err timeout) = dropped (record m { expired = saturating_add m.expired 1 })
record_result m (err connection_closed) =
    dropped (record m { cancelled = saturating_add m.cancelled 1 })
record_result m (err _) = dropped m
