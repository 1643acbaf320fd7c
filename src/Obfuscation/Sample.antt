-- ===== src/Obfuscation/Sample.antt =====
-- Rejection sampling stays below its bound, and one draw is enough for the bounds the source uses.
use shph.Prelude.{ℕ, zero, suc, ◌-◌, ◌%◌, ◌^◌, ◌≤◌, ◌<◌, ◌≡◌, refl, some, arith}
use shph.Obfuscation.{
  Rng, draw, sample_uniform_below, jitter_of, jitter_bytes, ProfileTier, low, medium, high,
  tuned_low, tuned_medium, tuned_high,
}

module _ {S : Type 0} (rng : Rng S) where
  draw_bound :
      (fuel limit upper : ℕ) (s : S) {r : S × ℕ}
      → 0 < upper
      → draw rng fuel limit upper s ≡ some r
      → r.1 < upper
  unfolding draw
  draw_bound zero limit upper s h e = ground arith
  draw_bound (suc fuel) limit upper s {r} h e =
      ground (arith, draw_bound fuel limit upper (rng.next_u32 s).0 {r = r} h)

  -- A sample is below its bound.
  pub sample_bound :
      (fuel upper : ℕ) (s : S) {r : S × ℕ}
      → 0 < upper
      → sample_uniform_below rng fuel upper s ≡ some r
      → r.1 < upper
  unfolding sample_uniform_below
  sample_bound fuel upper s {r} h e =
      ground (arith, draw_bound fuel (2 ^ 32 - 2 ^ 32 % upper) upper s {r = r} h)

  -- When the bound divides the range of the words, the first word is never rejected.
  pub sample_first :
      (fuel upper : ℕ) (s : S)
      → 2 ^ 32 % upper ≡ 0
      → 1 < upper
      → sample_uniform_below rng (suc fuel) upper s
        ≡ some ((rng.next_u32 s).0, (rng.next_u32 s).1 % upper)
  unfolding sample_uniform_below draw
  sample_first fuel upper s h k = ground (arith, rng.next_u32_bound s)

  pub jitter_bound :
      (t : ProfileTier) (fuel : ℕ) (s : S) {r : S × ℕ}
      → jitter_of rng t fuel s ≡ some r
      → r.1 ≤ jitter_bytes t
  unfolding jitter_of
  jitter_bound low fuel s e = omega (arith, sample_bound fuel 8 s (omega arith) e)
  jitter_bound tuned_low fuel s e = omega (arith, sample_bound fuel 4 s (omega arith) e)
  jitter_bound medium fuel s e = ground arith
  jitter_bound high fuel s e = ground arith
  jitter_bound tuned_medium fuel s e = ground arith
  jitter_bound tuned_high fuel s e = ground arith

  pub jitter_drawn :
      (t : ProfileTier) (fuel : ℕ) (s : S) → (r : S × ℕ) × (jitter_of rng t (suc fuel) s ≡ some r)
  unfolding jitter_of
  jitter_drawn low fuel s = (_, sample_first fuel 8 s refl (omega arith))
  jitter_drawn tuned_low fuel s = (_, sample_first fuel 4 s refl (omega arith))
  jitter_drawn medium fuel s = (_, refl)
  jitter_drawn high fuel s = (_, refl)
  jitter_drawn tuned_medium fuel s = (_, refl)
  jitter_drawn tuned_high fuel s = (_, refl)
