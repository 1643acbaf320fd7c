-- ===== src/Transport/Cover/Spacing.antt =====
-- How far apart the grants of cover lie.
use shph.Prelude.{ℕ, ◌+◌, ◌≤◌, ◌≡◌, refl, ap, Bool, true, some, List, [], ◌∷◌, arith, ok}
use shph.Transport.Cover.{
  CoverPolicy, CoverScheduler, millis, unwrap_or, reserve, Call, payload, cover, step, run,
}
use shph.Transport.Cover.Cases.{reserve_cases, record_payload_cases}
use shph.Transport.Cover.Timing.{Grant-Timely}

-- The last cover of the scheduler is at `from` or later, under the policy `p`.
record CoveredSince (p : CoverPolicy) (from : ℕ) (s : CoverScheduler) : Type 0 where
  same_policy : s.policy ≡ some p
  cover_at : ℕ
  covered : s.last_cover ≡ some cover_at
  later : from ≤ cover_at
  seen : from ≤ s.last_observed

step-CoveredSince :
    (p : CoverPolicy) (from : ℕ) (s : CoverScheduler) (c : Call)
    → CoveredSince p from s
    → CoveredSince p from (step s c).0
unfolding step
step-CoveredSince p from s (payload now bytes) h =
    record_payload_cases (λ r. CoveredSince p from r.0) s now bytes (λ e. h)
      (λ onward. record {
        same_policy = h.same_policy;
        cover_at = h.cover_at;
        covered = h.covered;
        later = h.later;
        seen = omega arith;
      })
step-CoveredSince p from s (cover now bytes pending congested cancelled) h =
    reserve_cases (λ r. CoveredSince p from r.0) s now bytes pending congested cancelled
      (λ back e. h)
      (λ onward. record {
        same_policy = h.same_policy;
        cover_at = h.cover_at;
        covered = h.covered;
        later = h.later;
        seen = omega arith;
      })
      (λ onward g. record {
        same_policy = h.same_policy;
        cover_at = now;
        covered = refl;
        later = omega (arith, h.seen, onward);
        seen = omega (arith, h.seen, onward);
      })

run-CoveredSince :
    (p : CoverPolicy) (from : ℕ) (s : CoverScheduler) (cs : List Call)
    → CoveredSince p from s
    → CoveredSince p from (run s cs)
unfolding run
run-CoveredSince p from s [] h = h
run-CoveredSince p from s (c ∷ cs) h =
    run-CoveredSince p from (step s c).0 cs (step-CoveredSince p from s c h)

granted-CoveredSince :
    (p : CoverPolicy) (s : CoverScheduler) (now bytes : ℕ) (pending congested cancelled : Bool)
    → s.policy ≡ some p
    → (reserve s now bytes pending congested cancelled).1 ≡ ok true
    → CoveredSince p now (reserve s now bytes pending congested cancelled).0
granted-CoveredSince p s now bytes pending congested cancelled e =
    reserve_cases (λ r. r.1 ≡ ok true → CoveredSince p now r.0) s now bytes pending congested
      cancelled (λ back e h. absurd (ground arith)) (λ onward h. absurd (ground arith))
      (λ onward g h. record {
        same_policy = e;
        cover_at = now;
        covered = refl;
        later = omega arith;
        seen = omega arith;
      })

granted_apart :
    (p : CoverPolicy) (from : ℕ) (s : CoverScheduler) (now bytes : ℕ)
    (pending congested cancelled : Bool)
    → CoveredSince p from s
    → (reserve s now bytes pending congested cancelled).1 ≡ ok true
    → from + millis p.interval_ms ≤ now
granted_apart p from s now bytes pending congested cancelled k =
    reserve_cases (λ r. r.1 ≡ ok true → from + millis p.interval_ms ≤ now) s now bytes pending
      congested cancelled (λ back e h. absurd (ground arith)) (λ onward h. absurd (ground arith))
      (λ onward g h.
        let t = (Grant-Timely s now bytes pending congested cancelled onward g).0 in
        let same : t.p ≡ p = ground (arith, t.has_policy, k.same_policy) in
        let wait : millis t.p.interval_ms ≡ millis p.interval_ms =
          ap (λ (q : CoverPolicy). millis q.interval_ms) same in
        let last : unwrap_or s.last_cover t.data_at ≡ k.cover_at =
          ap (λ o. unwrap_or o t.data_at) k.covered in
        omega (arith, t.spaced, wait, last, k.later, k.seen, onward))

-- Under one policy, two granted reservations are at least its interval apart, whatever calls, granted
-- ones among them, come between.
pub grants_spaced :
    (p : CoverPolicy) (s : CoverScheduler) (between : List Call) (now bytes now' bytes' : ℕ)
    (pending congested cancelled pending' congested' cancelled' : Bool)
    → s.policy ≡ some p
    → (step s (cover now bytes pending congested cancelled)).1 ≡ ok true
    → (step
        (run (step s (cover now bytes pending congested cancelled)).0 between)
        (cover now' bytes' pending' congested' cancelled')).1
      ≡ ok true
    → now + millis p.interval_ms ≤ now'
unfolding step
grants_spaced p s between now bytes now' bytes' pending congested cancelled pending' congested'
      cancelled' policy first second =
    let after = (reserve s now bytes pending congested cancelled).0 in
    granted_apart p now (run after between) now' bytes' pending' congested' cancelled'
      (run-CoveredSince p now after between
        (granted-CoveredSince p s now bytes pending congested cancelled policy first))
      second
