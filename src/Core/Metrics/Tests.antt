-- ===== src/Core/Metrics/Tests.antt =====
-- The error count of a short run.
use shph.Prelude.{◌≡◌, refl, List, [], ◌∷◌}
use shph.Core.Metrics.{Event, sent, replay_drop, timed_out, zeroed, error_count, recorded}

abbrev events : List Event
events = sent 100 ∷ replay_drop ∷ timed_out ∷ replay_drop ∷ []

-- The two drops and the timeout.
three_faults : error_count (recorded events zeroed) ≡ 3
unfolding error_count recorded shph.Core.Metrics.record_event
three_faults = refl
