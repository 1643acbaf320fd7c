-- ===== src/Core/Metrics/Counters.antt =====
-- What the error count says about a run of calls.
use shph.Prelude.{ℕ, suc, ◌+◌, ◌≤◌, ◌≡◌, List, [], ◌∷◌, u64_max, saturating_add, arith, min}
use shph.Core.Metrics.{
  MetricsSnapshot, Event, sent, recv, error, malformed_packet, replay_drop, timed_out,
  oversized_packet, record_event, error_count, recorded,
}

-- The number of calls in a run that report a fault.
abbrev pub faults : List Event → ℕ
faults [] = 0
faults (sent n ∷ es) = faults es
faults (recv n ∷ es) = faults es
faults (error ∷ es) = suc (faults es)
faults (malformed_packet ∷ es) = suc (faults es)
faults (replay_drop ∷ es) = suc (faults es)
faults (timed_out ∷ es) = suc (faults es)
faults (oversized_packet ∷ es) = suc (faults es)

-- The exact count, before it is cut off at `u64::MAX`.
abbrev fault_sum : MetricsSnapshot → ℕ
fault_sum m = m.errors + m.malformed_packets + m.replay_drops + m.timeouts + m.oversized_packets

error_count_sum : (m : MetricsSnapshot) → error_count m ≡ min (fault_sum m) u64_max
unfolding error_count
error_count_sum m = omega arith

-- One call adds its faults to the count, cut off at `u64::MAX`.
error_count-event :
    (e : Event) (m : MetricsSnapshot)
    → error_count (record_event e m) ≡ saturating_add (error_count m) (faults (e ∷ []))
unfolding record_event
error_count-event (sent n) m =
    omega (arith, error_count_sum m, error_count_sum (record_event (sent n) m))
error_count-event (recv n) m =
    omega (arith, error_count_sum m, error_count_sum (record_event (recv n) m))
error_count-event error m = omega (arith, error_count_sum m, error_count_sum (record_event error m))
error_count-event malformed_packet m =
    omega (arith, error_count_sum m, error_count_sum (record_event malformed_packet m))
error_count-event replay_drop m =
    omega (arith, error_count_sum m, error_count_sum (record_event replay_drop m))
error_count-event timed_out m =
    omega (arith, error_count_sum m, error_count_sum (record_event timed_out m))
error_count-event oversized_packet m =
    omega (arith, error_count_sum m, error_count_sum (record_event oversized_packet m))

faults_one : (e : Event) (es : List Event) → faults (e ∷ es) ≡ faults (e ∷ []) + faults es
faults_one (sent n) es = omega arith
faults_one (recv n) es = omega arith
faults_one error es = omega arith
faults_one malformed_packet es = omega arith
faults_one replay_drop es = omega arith
faults_one timed_out es = omega arith
faults_one oversized_packet es = omega arith

-- After any run on counters whose error count is a 64-bit number, the error count is the number of calls that report a fault on top of the count before,
-- cut off at the largest 64-bit number.
pub error_count-recorded :
    (es : List Event) (m : MetricsSnapshot)
    → error_count m ≤ u64_max
    → error_count (recorded es m) ≡ saturating_add (error_count m) (faults es)
unfolding recorded
error_count-recorded [] m h = omega arith
error_count-recorded (e ∷ es) m h = omega (
  arith,
  error_count-event e m,
  error_count-recorded es (record_event e m) (omega (arith, error_count-event e m)),
  faults_one e es,
)
