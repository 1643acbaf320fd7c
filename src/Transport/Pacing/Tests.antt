-- ===== src/Transport/Pacing/Tests.antt =====
-- The accounts of three sends.
use shph.Prelude.{◌≡◌, refl, List, [], ◌∷◌, Result, ok, err, ShphError, timeout, protocol}
use shph.Transport.Pacing.{no_metrics}
use shph.Transport.Pacing.Accounts.{record_all, counted}

abbrev results : List (Result ShphError (Unit {0}))
results = ok tt ∷ err timeout ∷ err (protocol "limit") ∷ []

three_counted : counted (record_all no_metrics results) ≡ 3
unfolding record_all shph.Transport.Pacing.record_result
three_counted = refl
