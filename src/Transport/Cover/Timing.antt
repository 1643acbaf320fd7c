-- ===== src/Transport/Cover/Timing.antt =====
-- What a grant of cover says of the request and the clock, and the stop latch.
use shph.Prelude.{
  ℕ, ◌-◌, ◌≤◌, ◌<◌, ◌≡◌, ◌≢◌, Bool, true, false, Option, none, some, List, [], ◌∷◌, arith, ok,
}
use shph.Transport.Cover.{
  CoverPolicy, CoverScheduler, millis, unwrap_or, is_suppressed, latch, reserve, Call, payload,
  cover, step, run,
}
use shph.Transport.Cover.Cases.{Grant, observed, reserve_cases, record_payload_cases}

-- Everything that a grant says of the request and of the clock.
pub record Timely (s : CoverScheduler) (now bytes : ℕ) : Type 0 where
  pub p : CoverPolicy
  pub data_at : ℕ
  pub has_policy : s.policy ≡ some p
  pub has_data : s.last_data ≡ some data_at
  pub running : s.stopped ≡ false
  pub sized : (0 < bytes) × (bytes ≤ 4096)
  pub onward : s.last_observed ≤ now
  pub busy : now - data_at < millis p.idle_timeout_ms
  pub spaced : millis p.interval_ms ≤ now - unwrap_or s.last_cover data_at

pub Grant-Timely :
    (s : CoverScheduler) (now bytes : ℕ) (pending congested cancelled : Bool)
    → s.last_observed ≤ now
    → Grant (latch (observed s now) cancelled) now bytes pending congested
    → Timely s now bytes × (pending ≡ false) × (congested ≡ false) × (cancelled ≡ false)
unfolding is_suppressed
Grant-Timely s now bytes pending congested cancelled onward g = (
  record {
    p = g.p;
    data_at = g.data_at;
    has_policy = g.has_policy;
    has_data = g.has_data;
    running = ground (arith, g.open_now);
    sized = ground (arith, g.open_now);
    onward = onward;
    busy = ground (arith, g.open_now);
    spaced = ground (arith, g.open_now);
  },
  ground (arith, g.open_now),
  ground (arith, g.open_now),
  ground (arith, g.open_now),
)

stopped-step :
    (s : CoverScheduler) (c : Call)
    → s.stopped ≡ true
    → ((step s c).0.stopped ≡ true) × ((step s c).1 ≢ ok true)
unfolding step
stopped-step s (payload now bytes) h =
    record_payload_cases (λ r. (r.0.stopped ≡ true) × (r.1 ≢ ok true)) s now bytes
      (λ e. (h, λ q. cc)) (λ onward. (h, λ q. cc))
stopped-step s (cover now bytes pending congested cancelled) h =
    reserve_cases (λ r. (r.0.stopped ≡ true) × (r.1 ≢ ok true)) s now bytes pending congested
      cancelled (λ back e. (h, λ q. cc)) (λ onward. (ground arith, λ q. cc))
      (λ onward g.
        absurd (
          ground
            (arith, (Grant-Timely s now bytes pending congested cancelled onward g).0.running)))

stopped-run : (s : CoverScheduler) (cs : List Call) → s.stopped ≡ true → (run s cs).stopped ≡ true
unfolding run
stopped-run s [] h = h
stopped-run s (c ∷ cs) h = stopped-run (step s c).0 cs (stopped-step s c h).0

reserve_cancelled :
    (s : CoverScheduler) (now bytes : ℕ) (pending congested : Bool)
    → s.last_observed ≤ now
    → (reserve s now bytes pending congested true).0.stopped ≡ true
reserve_cancelled s now bytes pending congested onward =
    reserve_cases (λ r. r.0.stopped ≡ true) s now bytes pending congested true
      (λ back e. absurd (omega arith)) (λ onward. ground arith) (λ onward g. ground arith)

-- After a `reserve` call that is told of a cancellation, with a clock that does not move backwards,
-- no later call is ever granted.
pub cancelled_for_good :
    (s : CoverScheduler) (now bytes : ℕ) (pending congested : Bool) (cs : List Call) (c : Call)
    → s.last_observed ≤ now
    → (step (run (reserve s now bytes pending congested true).0 cs) c).1 ≢ ok true
cancelled_for_good s now bytes pending congested cs c onward =
    (stopped-step (run s' cs) c (stopped-run s' cs latched)).1
  where
    s' : CoverScheduler
    s' = (reserve s now bytes pending congested true).0

    latched : s'.stopped ≡ true
    latched = reserve_cancelled s now bytes pending congested onward

-- A time that is there and not later than `now`.
abbrev pub Before : Option ℕ → ℕ → Type 0
Before none now = Unit
Before (some t) now = t ≤ now

abbrev IsOrdered : CoverScheduler → Type 0
IsOrdered s = Before s.last_data s.last_observed × Before s.last_cover s.last_observed
