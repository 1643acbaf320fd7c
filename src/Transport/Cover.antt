-- ===== src/Transport/Cover.antt =====
-- shph-transport/src/cover.rs: when a cover datagram may be sent. A `Duration` is its number of
-- nanoseconds; the caller drives the clock. A method on `&mut self` returns the new scheduler.
pub mod Cases
pub mod Budget
pub mod Timing
pub mod Spacing
mod Tests
use shph.Prelude.{
  ℕ, ◌+◌, ◌-◌, ◌*◌, ◌/◌, min, Bool, true, false, not, ◌&&◌, ◌||◌, Option, none, some, List, [], ◌∷◌,
  ltb, leb, ◌==◌, if◌then◌else◌, Result, ok, err, ShphError, config, invalid_argument,
  saturating_add,
}

pub record CoverPolicy : Type 0 where
  pub interval_ms : ℕ
  pub idle_timeout_ms : ℕ
  pub maximum_bytes : ℕ
  pub overhead_percent : ℕ

pub record CoverScheduler : Type 0 where
  pub policy : Option CoverPolicy
  pub last_observed : ℕ
  pub last_data : Option ℕ
  pub last_cover : Option ℕ
  pub payload_bytes : ℕ
  pub cover_bytes : ℕ
  pub stopped : Bool

-- `(low..=high).contains(&n)`
abbrev within : ℕ → ℕ → ℕ → Bool
within low high n = leb low n && leb n high

unfoldable pub validate : CoverPolicy → Result ShphError (Unit {0})
validate p =
    if not (within 100 60000 p.interval_ms)
      || ltb p.idle_timeout_ms p.interval_ms
      || ltb 300000 p.idle_timeout_ms
      || p.maximum_bytes == 0
      || ltb (64 * 1024 * 1024) p.maximum_bytes
      || not (within 1 100 p.overhead_percent)
    then err (config "invalid cover traffic budget")
    else ok tt

abbrev pub idle_scheduler : Option CoverPolicy → CoverScheduler
idle_scheduler policy = record {
  policy = policy;
  last_observed = 0;
  last_data = none;
  last_cover = none;
  payload_bytes = 0;
  cover_bytes = 0;
  stopped = false;
}

unfoldable pub new : Option CoverPolicy → Result ShphError CoverScheduler
new none = ok (idle_scheduler none)
new (some p) = elim (validate p) [ ok _ ↦ ok (idle_scheduler (some p)) | err e ↦ err e ]

-- An error changes nothing.
unfoldable pub observe : CoverScheduler → ℕ → Result ShphError CoverScheduler
observe s now =
    if ltb now s.last_observed
    then err (invalid_argument "cover clock moved backwards")
    else ok (record s { last_observed = now })

unfoldable pub record_payload : CoverScheduler → ℕ → ℕ → CoverScheduler × Result ShphError Bool
unfolding observe
record_payload s now bytes = elim (observe s now) [
  | err e ↦ (s, err e)
  | ok s' ↦ (
    record s' { last_data = some now; payload_bytes = saturating_add s'.payload_bytes bytes },
    ok false,
  )
]

abbrev pub millis : ℕ → ℕ
millis n = n * 1000000

-- `self.last_cover.unwrap_or(last_data)`
abbrev pub unwrap_or : Option ℕ → ℕ → ℕ
unwrap_or none d = d
unwrap_or (some t) d = t

-- What the policy allows for the payload seen so far; the product fits the `u128` of the code.
abbrev pub allowance : CoverPolicy → ℕ → ℕ
allowance p payload = min (payload * p.overhead_percent / 100) p.maximum_bytes

-- The tests that refuse cover before the budget is looked at.
unfoldable pub is_suppressed : CoverScheduler → CoverPolicy → ℕ → ℕ → ℕ → Bool → Bool → Bool
is_suppressed s p data_at now bytes payload_pending congested =
    s.stopped
    || payload_pending
    || congested
    || bytes == 0
    || ltb 4096 bytes
    || leb (millis p.idle_timeout_ms) (now - data_at)
    || ltb (now - unwrap_or s.last_cover data_at) (millis p.interval_ms)

unfoldable pub spend : CoverScheduler → CoverPolicy → ℕ → ℕ → CoverScheduler × Result ShphError Bool
spend s p now bytes =
    if ltb (allowance p s.payload_bytes - s.cover_bytes) bytes then (s, ok false) else (
      record s { cover_bytes = saturating_add s.cover_bytes bytes; last_cover = some now },
      ok true,
    )

-- The two `let … else` exits and the tests.
unfoldable pub reserve_observed :
    Option CoverPolicy
    → Option ℕ
    → CoverScheduler
    → ℕ
    → ℕ
    → Bool
    → Bool
    → CoverScheduler × Result ShphError Bool
unfolding is_suppressed spend
reserve_observed none last_data s now bytes payload_pending congested = (s, ok false)
reserve_observed (some p) none s now bytes payload_pending congested = (s, ok false)
reserve_observed (some p) (some data_at) s now bytes payload_pending congested =
    if is_suppressed s p data_at now bytes payload_pending congested
    then (s, ok false)
    else spend s p now bytes

abbrev pub latch : CoverScheduler → Bool → CoverScheduler
latch s cancelled = record s { stopped = s.stopped || cancelled }

unfoldable pub reserve :
    CoverScheduler → ℕ → ℕ → Bool → Bool → Bool → CoverScheduler × Result ShphError Bool
unfolding observe reserve_observed
reserve s now bytes payload_pending congested cancelled = elim (observe s now) [
  | err e ↦ (s, err e)
  | ok s' ↦
      reserve_observed s'.policy s'.last_data (latch s' cancelled) now bytes payload_pending
        congested
]

-- A caller's calls. `record_payload` grants nothing, so its success reads as `ok false`.
pub data Call : Type 0 where
  payload : ℕ → ℕ → Call
  cover : ℕ → ℕ → Bool → Bool → Bool → Call

unfoldable pub step : CoverScheduler → Call → CoverScheduler × Result ShphError Bool
step s (payload now bytes) = record_payload s now bytes
step s (cover now bytes pending congested cancelled) =
    reserve s now bytes pending congested cancelled

unfoldable pub run : CoverScheduler → List Call → CoverScheduler
run s [] = s
run s (c ∷ cs) = run (step s c).0 cs
