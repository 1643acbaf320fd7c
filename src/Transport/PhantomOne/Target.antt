-- ===== src/Transport/PhantomOne/Target.antt =====
-- The selection of a size: what a selected size satisfies, and that the loops find one.
use shph.Prelude.{
  ℕ, ◌+◌, ◌-◌, ◌≤◌, ◌<◌, min, ◌≡◌, true, false, some, List, [], ◌∷◌, All, ltb, is_none, arith, ok,
  Bool-cases, inl, inr, subst, ◌||◌,
}
use shph.Obfuscation.{
  ProfileTier, low, medium, high, tuned_low, tuned_medium, tuned_high, base_tiers,
  accepts_frame_len,
}
use shph.Transport.PhantomOne.{header_bytes, validate, validate_path_mtu, validate_payload_length}
use shph.Transport.PhantomOne.Encoder.{
  within, PhantomOneEncoder, remaining_padding, eligible_total, pick, first_within, jitter_bound,
  target_range,
}

-- A sample below the total weight selects a tier of the list that lies in range.
pub pick_found {κ} :
    (P : ℕ → Type κ) (least most : ℕ) (tiers weights : List ℕ) (sample : ℕ)
    → All P tiers
    → sample < eligible_total least most tiers weights
    → (tier : ℕ) × (pick least most tiers weights sample ≡ some tier)
      × (least ≤ tier)
      × (tier ≤ most)
      × P tier
unfolding pick eligible_total
pick_found P least most [] weights sample h below = absurd (omega arith)
pick_found P least most (tier ∷ tiers) [] sample h below = absurd (omega arith)
pick_found P least most (tier ∷ tiers) (weight ∷ weights) sample h below =
    elim (Bool-cases (within least most tier)) [
      | inl inside ↦ elim (Bool-cases (ltb sample weight)) [
        | inl here ↦ (tier, ground arith, ground arith, ground arith, h.0)
        | inr past ↦
            let (found, e, lower, upper, p) =
              pick_found P least most tiers weights (sample - weight) h.1 (ground arith) in
            (found, ground (arith, e), lower, upper, p)
      ]
      | inr outside ↦
          let (found, e, lower, upper, p) =
            pick_found P least most tiers weights sample h.1 (ground arith) in
          (found, ground (arith, e), lower, upper, p)
    ]

-- The smallest tier in range.
pub first_within_lem {κ} :
    (P : ℕ → Type κ) (least most : ℕ) (tiers : List ℕ) {base : ℕ}
    → All P tiers
    → first_within least most tiers ≡ some base
    → (least ≤ base) × (base ≤ most) × P base
unfolding first_within
first_within_lem P least most [] h e = absurd (ground arith)
first_within_lem P least most (tier ∷ tiers) {base} h e =
    elim (Bool-cases (ltb tier least || ltb most tier)) [
      | inl outside ↦ first_within_lem P least most tiers {base = base} h.1 (ground arith)
      | inr inside ↦
          let same : tier ≡ base = ground arith in
          (ground (arith, same), ground (arith, same), subst P same h.0)
    ]

-- Every tier of a profile is canonical, with any jitter that its profile adds.
abbrev pub Jittered : ProfileTier → ℕ → Type 0
Jittered t base = (j : ℕ) → j ≤ jitter_bound t → accepts_frame_len t (base + j) ≡ true

pub base_tiers-Jittered : (t : ProfileTier) → All (Jittered t) (base_tiers t)
base_tiers-Jittered low = (λ j h. ground arith, (λ j h. ground arith, tt))
base_tiers-Jittered medium = (
  λ j h. ground arith,
  (λ j h. ground arith, (λ j h. ground arith, (λ j h. ground arith, (λ j h. ground arith, tt)))),
)
base_tiers-Jittered high = (λ j h. ground arith, (λ j h. ground arith, (λ j h. ground arith, tt)))
base_tiers-Jittered tuned_low = (
  λ j h. ground arith,
  (
    λ j h. ground arith,
    (
      λ j h. ground arith,
      (
        λ j h. ground arith,
        (λ j h. ground arith, (λ j h. ground arith, (λ j h. ground arith, tt))),
      ),
    ),
  ),
)
base_tiers-Jittered tuned_medium = (
  λ j h. ground arith,
  (
    λ j h. ground arith,
    (λ j h. ground arith, (λ j h. ground arith, (λ j h. ground arith, (λ j h. ground arith, tt)))),
  ),
)
base_tiers-Jittered tuned_high = (
  λ j h. ground arith,
  (λ j h. ground arith, (λ j h. ground arith, (λ j h. ground arith, (λ j h. ground arith, tt)))),
)

-- The bounds of a selected size.
pub record Ranged {S : Type 0} (e : PhantomOneEncoder S) (n path_mtu least most : ℕ) : Type 0 where
  pub valid : validate e.config ≡ ok tt
  pub routed : validate_path_mtu path_mtu ≡ ok tt
  pub fits : validate_payload_length n ≡ ok tt
  pub numbered : is_none e.next_sequence ≡ false
  pub bottom : least ≡ header_bytes + n + e.config.min_padding
  pub ordered : least ≤ most
  pub top : most ≡ min (header_bytes + n + min e.config.max_padding (remaining_padding e)) path_mtu

pub target_range-Ranged :
    {S : Type 0} (e : PhantomOneEncoder S) (n path_mtu : ℕ) {r : ℕ × ℕ}
    → target_range e n path_mtu ≡ ok r
    → Ranged e n path_mtu r.0 r.1
unfolding target_range
target_range-Ranged e n path_mtu h = record {
  valid = ground arith;
  routed = ground arith;
  fits = ground arith;
  numbered = ground arith;
  bottom = ground arith;
  ordered = ground arith;
  top = ground arith;
}
