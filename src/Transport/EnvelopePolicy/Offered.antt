-- ===== src/Transport/EnvelopePolicy/Offered.antt =====
-- The profiles whose bit a mask has.
use Prim.Native.Nat.{bit_and}
use shph.Prelude.{
  ℕ, ◌^◌, ◌≡◌, sym, ap, subst, Bool, true, false, not, ◌&&◌, none, some, List, [], ◌∷◌, All, ◌==◌,
  arith, Option-cases, Bool-cases, inl, inr,
}
use shph.Prelude.Bits.{test_bit-and, bit_and-pow}
use shph.Obfuscation.{ProfileTier, id, from_id}
use shph.Obfuscation.Tiers.{from_id-id}
use shph.Transport.EnvelopePolicy.Negotiate.{offered}

-- Bit `id` of a mask.
abbrev pub supports : ℕ → ProfileTier → Bool
supports mask tier = not (bit_and mask (2 ^ id tier) == 0)

pub supports-and :
    (a b : ℕ) (tier : ProfileTier)
    → supports (bit_and a b) tier ≡ (supports a tier && supports b tier)
supports-and a b tier = ground (
  arith,
  bit_and-pow (bit_and a b) (id tier),
  bit_and-pow a (id tier),
  bit_and-pow b (id tier),
  test_bit-and a b (id tier),
)

offered_skip :
    (common k : ℕ) (ks : List ℕ)
    → (bit_and common (2 ^ k) == 0) ≡ true
    → offered common (k ∷ ks) ≡ offered common ks
unfolding offered
offered_skip common k ks h = ground arith

offered_unknown :
    (common k : ℕ) (ks : List ℕ) → from_id k ≡ none → offered common (k ∷ ks) ≡ offered common ks
unfolding offered
offered_unknown common k ks h = ground arith

offered_more :
    (common k : ℕ) (ks : List ℕ) (tier : ProfileTier)
    → from_id k ≡ some tier
    → (bit_and common (2 ^ k) == 0) ≡ false
    → offered common (k ∷ ks) ≡ tier ∷ offered common ks
unfolding offered
offered_more common k ks tier e h = ground arith

bit_at :
    (common k : ℕ) (tier : ProfileTier)
    → from_id k ≡ some tier
    → (bit_and common (2 ^ k) == 0) ≡ not (supports common tier)
bit_at common k tier e = ground (arith, ap (λ t. bit_and common (2 ^ t)) ((from_id-id tier k).1 e))

module _ (P : ProfileTier → Type 0) (common : ℕ) where
  offered_rest : (k : ℕ) (ks : List ℕ) → All P (offered common (k ∷ ks)) → All P (offered common ks)
  offered_rest k ks h = elim (Bool-cases (bit_and common (2 ^ k) == 0)) [
    | inl clear ↦ subst (All P) (offered_skip common k ks clear) h
    | inr set ↦ elim (Option-cases (from_id k)) [
      | inl unknown ↦ subst (All P) (offered_unknown common k ks unknown) h
      | inr (tier, known) ↦ (subst (All P) (offered_more common k ks tier known set) h).1
    ]
  ]

  -- What holds of all the profiles offered holds of each that has its bit.
  pub offered_each :
      (ks : List ℕ)
      → All P (offered common ks)
      → All
          (λ k. (tier : ProfileTier) → from_id k ≡ some tier → supports common tier ≡ true → P tier)
          ks
  offered_each [] h = tt
  offered_each (k ∷ ks) h = (
    λ tier e s.
        (subst (All P) (offered_more common k ks tier e (ground (arith, bit_at common k tier e)))
          h).0,
    offered_each ks (offered_rest k ks h),
  )

-- All the profiles offered have their bit.
pub offered_supported :
    (common : ℕ) (ks : List ℕ) → All (λ tier. supports common tier ≡ true) (offered common ks)
unfolding offered
offered_supported common [] = tt
offered_supported common (k ∷ ks) =
    let Holds = All (λ tier. supports common tier ≡ true) in
    let rest = offered_supported common ks in
    elim (Bool-cases (bit_and common (2 ^ k) == 0)) [
      | inl clear ↦ subst Holds (sym (offered_skip common k ks clear)) rest
      | inr set ↦ elim (Option-cases (from_id k)) [
        | inl unknown ↦ subst Holds (sym (offered_unknown common k ks unknown)) rest
        | inr (tier, known) ↦
            let bit : supports common tier ≡ true = ground (arith, bit_at common k tier known) in
            let both : Holds (tier ∷ offered common ks) = (bit, rest) in
            subst Holds (sym (offered_more common k ks tier known set)) both
      ]
    ]
