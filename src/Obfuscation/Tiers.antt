-- ===== src/Obfuscation/Tiers.antt =====
-- Identifiers of the tiers, and the sizes a tier holds.
use shph.Prelude.{ℕ, ◌+◌, ◌≤◌, ◌<◌, ◌≡◌, refl, true, none, some, arith, Option-cases, inl, inr}
use shph.Obfuscation.{
  ProfileTier, low, medium, high, tuned_low, tuned_medium, tuned_high, id, from_id, base_tiers,
  first_at_least, accepts_frame_len, jitter_bytes, max_payload_bytes, max_canonical_frame_len,
}

-- A number is read as a tier exactly when it is that tier's identifier; all others are rejected.
pub from_id-id :
    (t : ProfileTier) (n : ℕ) → (from_id (id t) ≡ some t) × (from_id n ≡ some t → n ≡ id t)
unfolding from_id
from_id-id low n = (refl, λ e. ground arith)
from_id-id medium n = (refl, λ e. ground arith)
from_id-id high n = (refl, λ e. ground arith)
from_id-id tuned_low n = (refl, λ e. ground arith)
from_id-id tuned_medium n = (refl, λ e. ground arith)
from_id-id tuned_high n = (refl, λ e. ground arith)

-- A chosen tier holds the frame and is a canonical length, with every jitter of the profile added.
pub first_at_least-accepted :
    (t : ProfileTier) (n j : ℕ) {base : ℕ}
    → first_at_least n (base_tiers t) ≡ some base
    → j ≤ jitter_bytes t
    → (n ≤ base) × (base + j ≤ max_canonical_frame_len t) × (accepts_frame_len t (base + j) ≡ true)
unfolding max_canonical_frame_len
first_at_least-accepted low n j e h = ground arith
first_at_least-accepted medium n j e h = ground arith
first_at_least-accepted high n j e h = ground arith
first_at_least-accepted tuned_low n j e h = ground arith
first_at_least-accepted tuned_medium n j e h = ground arith
first_at_least-accepted tuned_high n j e h = ground arith

pub max_small : (t : ProfileTier) → max_canonical_frame_len t ≤ 1360
unfolding max_canonical_frame_len
max_small low = omega arith
max_small medium = omega arith
max_small high = omega arith
max_small tuned_low = omega arith
max_small tuned_medium = omega arith
max_small tuned_high = omega arith

first_at_least-past :
    (t : ProfileTier) (n : ℕ)
    → first_at_least (7 + n) (base_tiers t) ≡ none
    → max_payload_bytes t < n
unfolding max_payload_bytes
first_at_least-past low n e = ground arith
first_at_least-past medium n e = ground arith
first_at_least-past high n e = ground arith
first_at_least-past tuned_low n e = ground arith
first_at_least-past tuned_medium n e = ground arith
first_at_least-past tuned_high n e = ground arith

-- A payload has a tier exactly when it is within the profile's limit.
pub first_at_least-fits :
    (t : ProfileTier) (n : ℕ)
    → n ≤ max_payload_bytes t
    → (base : ℕ) × (first_at_least (7 + n) (base_tiers t) ≡ some base)
first_at_least-fits t n h = elim (Option-cases (first_at_least (7 + n) (base_tiers t))) [
  | inl e ↦ absurd (omega (arith, first_at_least-past t n e))
  | inr found ↦ found
]

pub first_at_least-none :
    (t : ProfileTier) (n : ℕ)
    → max_payload_bytes t < n
    → first_at_least (7 + n) (base_tiers t) ≡ none
unfolding max_payload_bytes
first_at_least-none low n h = ground arith
first_at_least-none medium n h = ground arith
first_at_least-none high n h = ground arith
first_at_least-none tuned_low n h = ground arith
first_at_least-none tuned_medium n h = ground arith
first_at_least-none tuned_high n h = ground arith
