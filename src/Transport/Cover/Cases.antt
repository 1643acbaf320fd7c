-- ===== src/Transport/Cover/Cases.antt =====
-- The states that one call can lead to.
use shph.Prelude.{
  ℕ, ◌-◌, ◌≤◌, ◌<◌, ◌≡◌, refl, Bool, true, false, Option, none, some, ltb, arith, Result, ok, err,
  ShphError, saturating_add, Bool-cases, inl, inr,
}
use shph.Transport.Cover.{
  CoverPolicy, CoverScheduler, observe, record_payload, allowance, is_suppressed, spend,
  reserve_observed, reserve, latch,
}

-- The scheduler that a granted reservation leaves.
abbrev pub granted : CoverScheduler → ℕ → ℕ → CoverScheduler
granted s now bytes = record s {
  cover_bytes = saturating_add s.cover_bytes bytes;
  last_cover = some now;
}

abbrev pub observed : CoverScheduler → ℕ → CoverScheduler
observed s now = record s { last_observed = now }

-- What a grant has checked: `s` is the scheduler after the clock and the latch.
pub record Grant (s : CoverScheduler) (now bytes : ℕ) (pending congested : Bool) : Type 0 where
  pub p : CoverPolicy
  pub data_at : ℕ
  pub has_policy : s.policy ≡ some p
  pub has_data : s.last_data ≡ some data_at
  pub open_now : is_suppressed s p data_at now bytes pending congested ≡ false
  pub affordable : bytes ≤ allowance p s.payload_bytes - s.cover_bytes

spend_cases :
    (P : CoverScheduler × Result ShphError Bool → Type 0) (s : CoverScheduler) (p : CoverPolicy)
    (now bytes : ℕ)
    → P (s, ok false)
    → (bytes ≤ allowance p s.payload_bytes - s.cover_bytes → P (granted s now bytes, ok true))
    → P (spend s p now bytes)
unfolding spend
spend_cases P s p now bytes refused grant =
    elim (Bool-cases (ltb (allowance p s.payload_bytes - s.cover_bytes) bytes)) [
      | inl over ↦ rw over refused
      | inr fits ↦ rw fits (grant (ground arith))
    ]

reserve_observed_cases :
    (P : CoverScheduler × Result ShphError Bool → Type 0) (o : Option CoverPolicy) (d : Option ℕ)
    (s : CoverScheduler) (now bytes : ℕ) (pending congested : Bool)
    → s.policy ≡ o
    → s.last_data ≡ d
    → P (s, ok false)
    → (Grant s now bytes pending congested → P (granted s now bytes, ok true))
    → P (reserve_observed o d s now bytes pending congested)
unfolding reserve_observed
reserve_observed_cases P none d s now bytes pending congested e f refused grant = refused
reserve_observed_cases P (some p) none s now bytes pending congested e f refused grant = refused
reserve_observed_cases P (some p) (some t) s now bytes pending congested e f refused grant =
    elim (Bool-cases (is_suppressed s p t now bytes pending congested)) [
      | inl shut ↦ rw shut refused
      | inr clear ↦ rw clear (
          spend_cases P s p now bytes refused (λ fits. grant (record {
            p = p;
            data_at = t;
            has_policy = e;
            has_data = f;
            open_now = clear;
            affordable = fits;
          })))
    ]

pub reserve_cases :
    (P : CoverScheduler × Result ShphError Bool → Type 0) (s : CoverScheduler) (now bytes : ℕ)
    (pending congested cancelled : Bool)
    → (now < s.last_observed → (e : ShphError) → P (s, err e))
    → (s.last_observed ≤ now → P (latch (observed s now) cancelled, ok false))
    → (s.last_observed ≤ now
        → Grant (latch (observed s now) cancelled) now bytes pending congested
        → P (granted (latch (observed s now) cancelled) now bytes, ok true))
    → P (reserve s now bytes pending congested cancelled)
unfolding reserve observe
reserve_cases P s now bytes pending congested cancelled failed refused grant =
    elim (Bool-cases (ltb now s.last_observed)) [
      | inl back ↦ rw (back, reserve) (failed (ground arith) _)
      | inr onward ↦
          rw (onward, reserve)
            (reserve_observed_cases P s.policy s.last_data (latch (observed s now) cancelled) now
              bytes pending congested refl refl (refused (ground arith)) (grant (ground arith)))
    ]

pub record_payload_cases :
    (P : CoverScheduler × Result ShphError Bool → Type 0) (s : CoverScheduler) (now bytes : ℕ)
    → ((e : ShphError) → P (s, err e))
    → (s.last_observed ≤ now
        → P (
          record s {
            last_observed = now;
            last_data = some now;
            payload_bytes = saturating_add s.payload_bytes bytes;
          },
          ok false,
        ))
    → P (record_payload s now bytes)
unfolding record_payload observe
record_payload_cases P s now bytes failed counted = elim (Bool-cases (ltb now s.last_observed)) [
  | inl back ↦ rw (back, record_payload) (failed _)
  | inr onward ↦ rw (onward, record_payload) (counted (ground arith))
]
