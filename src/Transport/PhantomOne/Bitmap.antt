-- ===== src/Transport/PhantomOne/Bitmap.antt =====
-- The digits of the replay bitmap after a shift.
use Prim.Native.Nat.{bit_and, bit_or}
use shph.Prelude.{
  ℕ, zero, suc, ◌-◌, ◌*◌, ◌%◌, ◌^◌, ◌≤◌, ◌<◌, max, ◌≡◌, refl, ap₂, ◌∙◌, ltb, ◌==◌, if◌then◌else◌,
  arith,
}
use shph.Prelude.Bits.{
  test_bit, test_bit-le, test_bit-and, test_bit-or, test_bit-shl, test_bit-ones, test_bit-zero,
}
use shph.Transport.PhantomOne.Decoder.{window_mask}

mask_ones : (w j : ℕ) → j < w → test_bit (window_mask w) j ≡ 1
unfolding window_mask
mask_ones w j h = ground (arith, test_bit-ones w j h, test_bit-ones 64 j)

pub one_bit : (j : ℕ) → test_bit 1 j ≡ (if j == 0 then 1 else 0)
one_bit zero = refl
one_bit (suc j) = ground (arith, test_bit-zero j)

pub shifted_bit :
    (bitmap shift w j : ℕ)
    → j < w
    → w ≤ 64
    → test_bit (bit_and (bit_or (bitmap * 2 ^ shift % 2 ^ 64) 1) (window_mask w)) j
      ≡ max (if ltb j shift then 0 else test_bit bitmap (j - shift)) (if j == 0 then 1 else 0)
shifted_bit bitmap shift w j h small =
    let wide : j < 64 = omega arith in
    let inner : test_bit (bit_or (bitmap * 2 ^ shift % 2 ^ 64) 1) j
        ≡ max (if ltb j shift then 0 else test_bit bitmap (j - shift)) (if j == 0 then 1 else 0) =
      test_bit-or (bitmap * 2 ^ shift % 2 ^ 64) 1 j
      ∙ ap₂ max (test_bit-shl shift 64 bitmap j wide) (one_bit j) in
    ground (
      arith,
      test_bit-and (bit_or (bitmap * 2 ^ shift % 2 ^ 64) 1) (window_mask w) j,
      mask_ones w j h,
      inner,
      test_bit-le bitmap (j - shift),
    )
