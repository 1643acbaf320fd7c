-- ===== src/Core/Window/Tests.antt =====
-- The window's theorems at concrete counters.
use shph.Prelude.{◌≡◌, true, false, [], ◌∷◌, arith}
use shph.Core.Window.{new, check_and_insert}
use shph.Core.Window.History.{verdicts}
use shph.Core.Window.Refine.{run, run_refines}
use shph.Core.Window.Replay.{after, replay_refused, newer_accepted}

run_refines_example :
    run (new 0) (5 ∷ 70 ∷ 5 ∷ 6 ∷ 70 ∷ []) ≡ verdicts 64 [] (5 ∷ 70 ∷ 5 ∷ 6 ∷ 70 ∷ [])
run_refines_example = run_refines 0 (5 ∷ 70 ∷ 5 ∷ 6 ∷ 70 ∷ [])

newer_accepted_example : (check_and_insert (after (new 100) (5 ∷ 3 ∷ [])) 9).1 ≡ true
newer_accepted_example = newer_accepted 100 9 (5 ∷ 3 ∷ []) (omega arith, (omega arith, tt))

replay_refused_example :
    (check_and_insert (after (check_and_insert (after (new 0) (5 ∷ [])) 9).0 (80 ∷ [])) 9).1 ≡ false
replay_refused_example =
    replay_refused 0 9 (5 ∷ []) (80 ∷ []) (newer_accepted 0 9 (5 ∷ []) (omega arith, tt))
