-- ===== src/Transport/Cover/Tests.antt =====
-- The scheduler's theorems on a short run.
use shph.Prelude.{◌+◌, ◌≤◌, ◌≢◌, refl, true, false, some, List, [], ◌∷◌, arith, ok}
use shph.Transport.Cover.{
  CoverPolicy, CoverScheduler, run, step, reserve, payload, cover, millis, Call, idle_scheduler,
  record_payload,
}
use shph.Transport.Cover.Timing.{cancelled_for_good}
use shph.Transport.Cover.Spacing.{grants_spaced}

abbrev policy : CoverPolicy
policy = record {
  interval_ms = 100;
  idle_timeout_ms = 1000;
  maximum_bytes = 4096;
  overhead_percent = 10;
}

abbrev calls : List Call
calls = payload (millis 10) 1000 ∷ cover (millis 200) 64 false false false ∷ []

abbrev busy : CoverScheduler
busy = run (idle_scheduler (some policy)) (payload (millis 10) 1000 ∷ [])

-- What comes between two grants: more payload, and a request that is too early.
abbrev between : List Call
between = payload (millis 210) 1000 ∷ cover (millis 290) 64 false false false ∷ []

grants_spaced_example : millis 200 + millis policy.interval_ms ≤ millis 300
unfolding run step record_payload reserve
grants_spaced_example =
    grants_spaced policy busy between (millis 200) 64 (millis 300) 64 false false false false false
      false refl refl refl

cancelled_for_good_example :
    (step
      (run (reserve (idle_scheduler (some policy)) 5 64 false false true).0 calls)
      (cover (millis 400) 64 false false false)).1
    ≢ ok true
cancelled_for_good_example =
    cancelled_for_good (idle_scheduler (some policy)) 5 64 false false calls
      (cover (millis 400) 64 false false false) (omega arith)
