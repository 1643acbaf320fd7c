-- ===== src/Core/Metrics.antt =====
-- The counters of shph-core/src/metrics.rs. Every update of a counter is one atomic saturating
-- addition, so updates of several threads are some sequence of them.
pub mod Counters
mod Tests
use shph.Prelude.{ℕ, ◌+◌, ◌-◌, ◌%◌, ◌^◌, Bool, not, List, [], ◌∷◌, ◌==◌, saturating_add}

pub record MetricsSnapshot : Type 0 where
  pub bytes_sent : ℕ
  pub bytes_recv : ℕ
  pub packets_sent : ℕ
  pub packets_recv : ℕ
  pub errors : ℕ
  pub malformed_packets : ℕ
  pub replay_drops : ℕ
  pub timeouts : ℕ
  pub oversized_packets : ℕ

abbrev pub zeroed : MetricsSnapshot
zeroed = record {
  bytes_sent = 0;
  bytes_recv = 0;
  packets_sent = 0;
  packets_recv = 0;
  errors = 0;
  malformed_packets = 0;
  replay_drops = 0;
  timeouts = 0;
  oversized_packets = 0;
}

-- The calls on a collector; its state is the values of its nine counters.
pub data Event : Type 0 where
  sent recv : ℕ → Event
  error malformed_packet replay_drop timed_out oversized_packet : Event

unfoldable pub record_event : Event → MetricsSnapshot → MetricsSnapshot
record_event (sent bytes) m = record {
  bytes_sent = saturating_add m.bytes_sent (bytes % 2 ^ 64);
  bytes_recv = m.bytes_recv;
  packets_sent = saturating_add m.packets_sent 1;
  packets_recv = m.packets_recv;
  errors = m.errors;
  malformed_packets = m.malformed_packets;
  replay_drops = m.replay_drops;
  timeouts = m.timeouts;
  oversized_packets = m.oversized_packets;
}
record_event (recv bytes) m = record {
  bytes_sent = m.bytes_sent;
  bytes_recv = saturating_add m.bytes_recv (bytes % 2 ^ 64);
  packets_sent = m.packets_sent;
  packets_recv = saturating_add m.packets_recv 1;
  errors = m.errors;
  malformed_packets = m.malformed_packets;
  replay_drops = m.replay_drops;
  timeouts = m.timeouts;
  oversized_packets = m.oversized_packets;
}
record_event error m = record {
  bytes_sent = m.bytes_sent;
  bytes_recv = m.bytes_recv;
  packets_sent = m.packets_sent;
  packets_recv = m.packets_recv;
  errors = saturating_add m.errors 1;
  malformed_packets = m.malformed_packets;
  replay_drops = m.replay_drops;
  timeouts = m.timeouts;
  oversized_packets = m.oversized_packets;
}
record_event malformed_packet m = record {
  bytes_sent = m.bytes_sent;
  bytes_recv = m.bytes_recv;
  packets_sent = m.packets_sent;
  packets_recv = m.packets_recv;
  errors = m.errors;
  malformed_packets = saturating_add m.malformed_packets 1;
  replay_drops = m.replay_drops;
  timeouts = m.timeouts;
  oversized_packets = m.oversized_packets;
}
record_event replay_drop m = record {
  bytes_sent = m.bytes_sent;
  bytes_recv = m.bytes_recv;
  packets_sent = m.packets_sent;
  packets_recv = m.packets_recv;
  errors = m.errors;
  malformed_packets = m.malformed_packets;
  replay_drops = saturating_add m.replay_drops 1;
  timeouts = m.timeouts;
  oversized_packets = m.oversized_packets;
}
record_event timed_out m = record {
  bytes_sent = m.bytes_sent;
  bytes_recv = m.bytes_recv;
  packets_sent = m.packets_sent;
  packets_recv = m.packets_recv;
  errors = m.errors;
  malformed_packets = m.malformed_packets;
  replay_drops = m.replay_drops;
  timeouts = saturating_add m.timeouts 1;
  oversized_packets = m.oversized_packets;
}
record_event oversized_packet m = record {
  bytes_sent = m.bytes_sent;
  bytes_recv = m.bytes_recv;
  packets_sent = m.packets_sent;
  packets_recv = m.packets_recv;
  errors = m.errors;
  malformed_packets = m.malformed_packets;
  replay_drops = m.replay_drops;
  timeouts = m.timeouts;
  oversized_packets = saturating_add m.oversized_packets 1;
}

unfoldable pub delta_since : MetricsSnapshot → MetricsSnapshot → MetricsSnapshot
delta_since m earlier = record {
  bytes_sent = m.bytes_sent - earlier.bytes_sent;
  bytes_recv = m.bytes_recv - earlier.bytes_recv;
  packets_sent = m.packets_sent - earlier.packets_sent;
  packets_recv = m.packets_recv - earlier.packets_recv;
  errors = m.errors - earlier.errors;
  malformed_packets = m.malformed_packets - earlier.malformed_packets;
  replay_drops = m.replay_drops - earlier.replay_drops;
  timeouts = m.timeouts - earlier.timeouts;
  oversized_packets = m.oversized_packets - earlier.oversized_packets;
}

unfoldable pub total_bytes : MetricsSnapshot → ℕ
total_bytes m = saturating_add m.bytes_sent m.bytes_recv

unfoldable pub total_packets : MetricsSnapshot → ℕ
total_packets m = saturating_add m.packets_sent m.packets_recv

unfoldable pub error_count : MetricsSnapshot → ℕ
error_count m =
    saturating_add
      (saturating_add (saturating_add (saturating_add m.errors m.malformed_packets) m.replay_drops)
        m.timeouts)
      m.oversized_packets

unfoldable pub has_errors : MetricsSnapshot → Bool
has_errors m = not (error_count m == 0)

-- The state after a sequence of calls.
unfoldable pub recorded : List Event → MetricsSnapshot → MetricsSnapshot
recorded [] m = m
recorded (e ∷ es) m = recorded es (record_event e m)
