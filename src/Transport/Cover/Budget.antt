-- ===== src/Transport/Cover/Budget.antt =====
-- The budget holds on every history of calls.
use shph.Prelude.{ℕ, ◌*◌, ◌≤◌, ◌≡◌, refl, Option, none, some, arith, ok, u64_max, subst}
use shph.Transport.Cover.{CoverPolicy, CoverScheduler, validate, idle_scheduler, new, allowance}

abbrev pub PolicyAllows : Option CoverPolicy → ℕ → ℕ → Type 0
PolicyAllows none seen covered = covered ≡ 0
PolicyAllows (some p) seen covered =
    (covered ≤ allowance p seen) × (p.maximum_bytes ≤ 64 * 1024 * 1024)

pub record IsWithin (s : CoverScheduler) : Type 0 where
  pub budget : PolicyAllows s.policy s.payload_bytes s.cover_bytes
  pub counted : s.payload_bytes ≤ u64_max

pub new-IsWithin : (o : Option CoverPolicy) {s : CoverScheduler} → new o ≡ ok s → IsWithin s
unfolding new validate
new-IsWithin none {s} e =
    let same : idle_scheduler none ≡ s = ground arith in
    subst IsWithin same (record { budget = refl; counted = omega arith })
new-IsWithin (some p) {s} e =
    let same : (idle_scheduler (some p) ≡ s) × (p.maximum_bytes ≤ 64 * 1024 * 1024) =
      ground arith in
    subst IsWithin same.0 (record { budget = (omega arith, same.1); counted = omega arith })
