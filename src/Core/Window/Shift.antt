-- ===== src/Core/Window/Shift.antt =====
-- `shift_down` moves every bit of the bitmap up by the gap and drops those past the end.
use shph.Prelude.{
  ℕ, zero, suc, ◌+◌, ◌-◌, ◌*◌, ◌/◌, ◌%◌, ◌^◌, ◌≤◌, ◌<◌, max, ◌≡◌, ap, ◌∙◌, List, length, get_or,
  set, replicate, ltb, leb, ◌==◌, if◌then◌else◌, arith, ◌&&◌, length-set, get_or-set_self,
  get_or-set_ne, length-replicate, get_or-replicate, Bool-cases, inl, inr, ℕ_discrete, dec_lt,
  get_or_past,
}
use shph.Prelude.Bits.{test_bit, test_bit-zero, test_bit-high, test_bit-shl, test_bit-shr}
use shph.Core.Window.{copy_word, or_low, or_high, shift_word, for_rounds, shift_down}
use shph.Core.Window.Words.{bit, Narrow, length-or_at, test_bit-or_at}

-- One round in numbers: what word `k` has so far, then the low part, then the high part.
merge_round :
    (n k ws low high : ℕ) {before between after low_now high_now : ℕ}
    → before
      ≡ max
          (if leb ws k && ltb (k - ws) n then low else 0)
          (if ltb ws k && ltb (k - ws - 1) n then high else 0)
    → between ≡ max before (if k == n + ws then low_now else 0)
    → after ≡ max between (if k == n + ws + 1 then high_now else 0)
    → (k ≡ n + ws → low_now ≡ low)
    → (k ≡ n + ws + 1 → high_now ≡ high)
    → after
      ≡ max
          (if leb ws k && ltb (k - ws) (suc n) then low else 0)
          (if ltb ws k && ltb (k - ws - 1) (suc n) then high else 0)
merge_round n k ws low high p q r e f = ground arith

module _ (bits : List ℕ) (ws : ℕ) where
  copied : ℕ → List ℕ
  copied n = for_rounds n (copy_word bits ws) (replicate (length bits) 0)

  length-copied : (n : ℕ) → length (copied n) ≡ length bits
  unfolding copied for_rounds copy_word
  length-copied zero = length-replicate (length bits) 0
  length-copied (suc n) =
      ground (arith, length-copied n, length-set (copied n) (n + ws) (get_or bits n 0))

  -- After `n` rounds word `k` holds word `k - ws` of the input, if that was reached.
  get_or-copied :
      (n k : ℕ)
      → k < length bits
      → get_or (copied n) k 0 ≡ (if leb ws k && ltb (k - ws) n then get_or bits (k - ws) 0 else 0)
  unfolding copied for_rounds copy_word
  get_or-copied zero k h = ground (arith, get_or-replicate {A = ℕ} (length bits) k 0)
  get_or-copied (suc n) k h = elim (ℕ_discrete (n + ws) k) [
    | yes e ↦ ground (
      arith,
      length-copied n,
      ap (λ t. get_or (copied n) t 0) e,
      ap (λ t. get_or (set (copied n) (n + ws) (get_or bits n 0)) t 0) e,
      get_or-set_self (copied n) (n + ws) (get_or bits n 0) 0,
      ap (λ t. get_or bits t 0) {x = n} {y = k - ws} (omega arith),
    )
    | no e ↦
        ground
          (arith, get_or-copied n k h, get_or-set_ne (copied n) (n + ws) k (get_or bits n 0) 0 e)
  ]

  module _ (bs : ℕ) where
    shifted : ℕ → List ℕ
    shifted n = for_rounds n (shift_word bits ws bs) (replicate (length bits) 0)

    low : ℕ → ℕ
    low i = get_or bits i 0 * 2 ^ bs % 2 ^ 64

    high : ℕ → ℕ
    high i = get_or bits i 0 / 2 ^ (64 - bs)

    at_low : (n k j : ℕ) → k ≡ n + ws → test_bit (low n) j ≡ test_bit (low (k - ws)) j
    at_low n k j e = ap (λ t. test_bit (low t) j) {x = n} {y = k - ws} (omega arith)

    at_high : (n k j : ℕ) → k ≡ n + ws + 1 → test_bit (high n) j ≡ test_bit (high (k - ws - 1)) j
    at_high n k j e = ap (λ t. test_bit (high t) j) {x = n} {y = k - ws - 1} (omega arith)

    length-low : (i : ℕ) (out : List ℕ) → length (or_low bits ws bs i out) ≡ length out
    unfolding or_low low
    length-low i out = ground (arith, length-or_at out (i + ws) (low i))

    length-high : (i : ℕ) (out : List ℕ) → length (or_high bits ws bs i out) ≡ length out
    unfolding or_high high
    length-high i out = ground (arith, length-or_at out (i + ws + 1) (high i))

    length-shifted : (n : ℕ) → length (shifted n) ≡ length bits
    unfolding shifted for_rounds shift_word
    length-shifted zero = length-replicate (length bits) 0
    length-shifted (suc n) =
        length-high n (or_low bits ws bs n (shifted n))
        ∙ length-low n (shifted n)
        ∙ length-shifted n

    low_lem :
        (i k j : ℕ) (out : List ℕ)
        → k < length bits
        → length out ≡ length bits
        → test_bit (get_or (or_low bits ws bs i out) k 0) j
          ≡ max (test_bit (get_or out k 0) j) (if k == i + ws then test_bit (low i) j else 0)
    unfolding or_low low
    low_lem i k j out h e = ground (arith, test_bit-or_at out (i + ws) (low i) k j)

    high_lem :
        (i k j : ℕ) (out : List ℕ)
        → k < length bits
        → length out ≡ length bits
        → test_bit (get_or (or_high bits ws bs i out) k 0) j
          ≡ max (test_bit (get_or out k 0) j) (if k == i + ws + 1 then test_bit (high i) j else 0)
    unfolding or_high high
    high_lem i k j out h e = ground (arith, test_bit-or_at out (i + ws + 1) (high i) k j)

    -- After `n` rounds word `k` holds the low part of word `k - ws` and the high part of the one
    -- before it, as far as those were reached.
    shifted_word :
        (n k j : ℕ)
        → k < length bits
        → test_bit (get_or (shifted n) k 0) j
          ≡ max
              (if leb ws k && ltb (k - ws) n then test_bit (low (k - ws)) j else 0)
              (if ltb ws k && ltb (k - ws - 1) n then test_bit (high (k - ws - 1)) j else 0)
    unfolding shifted for_rounds shift_word
    shifted_word zero k j h =
        ground (arith, ap (λ t. test_bit t j) (get_or-replicate (length bits) k 0), test_bit-zero j)
    shifted_word (suc n) k j h =
        merge_round n k ws (test_bit (low (k - ws)) j) (test_bit (high (k - ws - 1)) j)
          (shifted_word n k j h) (low_lem n k j (shifted n) h (length-shifted n))
          (high_lem n k j (or_low bits ws bs n (shifted n)) h
            (length-low n (shifted n) ∙ length-shifted n))
          (at_low n k j) (at_high n k j)

pub length-shift_down : (bits : List ℕ) (gap : ℕ) → length (shift_down bits gap) ≡ length bits
unfolding shift_down copied shifted
length-shift_down bits gap = ground (
  arith,
  length-copied bits (gap / 64) (length bits),
  length-shifted bits (gap / 64) (gap % 64) (length bits),
)

bit-at :
    (bits : List ℕ) (k i j : ℕ)
    → j < 64
    → k ≡ i * 64 + j
    → bit bits k ≡ test_bit (get_or bits i 0) j
bit-at bits k i j h e =
    ap (λ t. test_bit (get_or bits t 0) (k % 64)) {x = k / 64} {y = i} (omega arith)
    ∙ ap (λ t. test_bit (get_or bits i 0) t) {x = k % 64} {y = j} (omega arith)

-- The bits of a word shifted left by `bs`, and of the part carried to the next word.
module _ (bits : List ℕ) (narrow : Narrow bits) (ws bs : ℕ) (inside : bs < 64)
    (moved : 0 < bs) where
  low-bit :
      (i j : ℕ)
      → j < 64
      → test_bit (low bits ws bs i) j
        ≡ (if ltb j bs then 0 else test_bit (get_or bits i 0) (j - bs))
  unfolding low
  low-bit i j h = test_bit-shl bs 64 (get_or bits i 0) j h

  high-bit : (i j : ℕ) → test_bit (high bits ws bs i) j ≡ test_bit (get_or bits i 0) (64 - bs + j)
  unfolding high
  high-bit i j = test_bit-shr (64 - bs) (get_or bits i 0) j

  high-bit_past : (i j : ℕ) → bs ≤ j → test_bit (high bits ws bs i) j ≡ 0
  high-bit_past i j h =
      high-bit i j
      ∙ ap (λ t. test_bit (get_or bits i 0) t) {x = 64 - bs + j} {y = 64 + (j - bs)} (omega arith)
      ∙ narrow i (j - bs)

  low-bit_past : (i j : ℕ) → test_bit (low bits ws bs i) (64 + j) ≡ 0
  unfolding low
  low-bit_past i j = test_bit-high 64 (get_or bits i 0 * 2 ^ bs % 2 ^ 64) j (omega arith)

  bit-shifted :
      (k : ℕ)
      → k < length bits * 64
      → bit (shifted bits ws bs (length bits)) k
        ≡ (if ltb k (ws * 64 + bs) then 0 else bit bits (k - (ws * 64 + bs)))
  bit-shifted k h =
      let i : ℕ = k / 64 in
      let j : ℕ = k % 64 in
      elim (dec_lt j bs) [
        | yes carried ↦ ground (
          arith,
          shifted_word bits ws bs (length bits) i j,
          low-bit (i - ws) j,
          high-bit (i - ws - 1) j,
          bit-at bits (k - (ws * 64 + bs)) (i - ws - 1) (64 - bs + j),
        )
        | no stays ↦ ground (
          arith,
          shifted_word bits ws bs (length bits) i j,
          low-bit (i - ws) j,
          high-bit_past (i - ws - 1) j,
          bit-at bits (k - (ws * 64 + bs)) (i - ws) (j - bs),
        )
      ]

  Narrow-shifted : Narrow (shifted bits ws bs (length bits))
  Narrow-shifted i j = elim (dec_lt i (length bits)) [
    | yes h ↦ ground (
      arith,
      shifted_word bits ws bs (length bits) i (64 + j) h,
      low-bit_past (i - ws) j,
      high-bit_past (i - ws - 1) (64 + j),
    )
    | no h ↦
        ap (λ t. test_bit t (64 + j))
          (get_or_past (shifted bits ws bs (length bits)) i 0
            (omega (arith, length-shifted bits ws bs (length bits))))
        ∙ test_bit-zero (64 + j)
  ]

module _ (bits : List ℕ) (ws : ℕ) where
  bit-copied :
      (k : ℕ)
      → k < length bits * 64
      → bit (copied bits ws (length bits)) k
        ≡ (if ltb k (ws * 64) then 0 else bit bits (k - ws * 64))
  bit-copied k h = ground (
    arith,
    ap (λ t. test_bit t (k % 64)) (get_or-copied bits ws (length bits) (k / 64) (omega arith)),
    test_bit-zero (k % 64),
    bit-at bits (k - ws * 64) (k / 64 - ws) (k % 64),
  )

  Narrow-copied : Narrow bits → Narrow (copied bits ws (length bits))
  Narrow-copied narrow i j = elim (dec_lt i (length bits)) [
    | yes h ↦ ground (
      arith,
      ap (λ t. test_bit t (64 + j)) (get_or-copied bits ws (length bits) i h),
      test_bit-zero (64 + j),
      narrow (i - ws) j,
    )
    | no h ↦
        ap (λ t. test_bit t (64 + j))
          (get_or_past (copied bits ws (length bits)) i 0
            (omega (arith, length-copied bits ws (length bits))))
        ∙ test_bit-zero (64 + j)
  ]

-- Bit `k` of the shifted map is bit `k - gap` of the old one, and 0 below the gap.
pub bit-shift_down :
    (bits : List ℕ) (gap k : ℕ)
    → Narrow bits
    → k < length bits * 64
    → bit (shift_down bits gap) k ≡ (if ltb k gap then 0 else bit bits (k - gap))
unfolding shift_down copied shifted
bit-shift_down bits gap k narrow h = elim (Bool-cases (gap % 64 == 0)) [
  | inl whole ↦ rw whole (bit-copied bits (gap / 64) k h ∙ ground arith)
  | inr part ↦ rw part (
      bit-shifted bits narrow (gap / 64) (gap % 64) (omega arith) (ground arith) k h ∙ ground arith)
]

pub Narrow-shift_down : (bits : List ℕ) (gap : ℕ) → Narrow bits → Narrow (shift_down bits gap)
unfolding shift_down copied shifted
Narrow-shift_down bits gap narrow = elim (Bool-cases (gap % 64 == 0)) [
  | inl whole ↦ rw whole (Narrow-copied bits (gap / 64) narrow)
  | inr part ↦
      rw part (Narrow-shifted bits narrow (gap / 64) (gap % 64) (omega arith) (ground arith))
]
