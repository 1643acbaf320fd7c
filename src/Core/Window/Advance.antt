-- ===== src/Core/Window/Advance.antt =====
-- What `advance_bits` leaves in the bitmap, in all three of its cases.
use shph.Prelude.{
  ℕ, suc, ◌+◌, ◌-◌, ◌*◌, ◌/◌, ◌%◌, ◌^◌, ◌<◌, ◌≡◌, refl, ap, ap₂, ◌∙◌, List, [], ◌∷◌, map, length,
  ltb, ◌==◌, if◌then◌else◌, arith, Bool-cases, inl, inr, subst, ltb→lt, ==→eq,
}
use shph.Prelude.Bits.{test_bit, test_bit-zero}
use shph.Core.Window.{or_at, mark, shift_down, advance_bits}
use shph.Core.Window.Words.{bit, Narrow, bit-mark, Narrow-mark, get_or-blank, length-mark}
use shph.Core.Window.Shift.{length-shift_down, bit-shift_down, Narrow-shift_down}

cleared : List ℕ → List ℕ
cleared bits = map (λ _. 0) bits

length-cleared : (bits : List ℕ) → length (cleared bits) ≡ length bits
unfolding cleared
length-cleared [] = refl
length-cleared (x ∷ bits) = ap suc (length-cleared bits)

bit-cleared : (bits : List ℕ) (k : ℕ) → bit (cleared bits) k ≡ 0
unfolding cleared
bit-cleared bits k =
    ap (λ t. test_bit t (k % 64)) (get_or-blank bits (k / 64)) ∙ test_bit-zero (k % 64)

Narrow-cleared : (bits : List ℕ) → Narrow (cleared bits)
unfolding cleared
Narrow-cleared bits i j =
    ap (λ t. test_bit t (64 + j)) (get_or-blank bits i) ∙ test_bit-zero (64 + j)

-- The top bit of the last word is the last bit of the map.
last_bit :
    (bits words : List ℕ)
    → 0 < length bits
    → or_at words (length bits - 1) (2 ^ 63) ≡ mark words (length bits * 64 - 1)
unfolding mark
last_bit bits words h =
    ap₂ (λ i j. or_at words i (2 ^ j)) {x = length bits - 1} {y = (length bits * 64 - 1) / 64}
      {u = 63} {v = (length bits * 64 - 1) % 64} (omega arith) (omega arith)

module _ (bits : List ℕ) (size gap : ℕ) (fits : size ≡ length bits * 64)
    (some_word : 0 < length bits) where
  -- The three cases of the code, with the wide mask of the second written as a bit of the map.
  advance_cases {ℓ} :
      (P : List ℕ → Type ℓ)
      → (size < gap → P (cleared bits))
      → (gap ≡ size → P (mark (cleared bits) (gap - 1)))
      → (gap < size → P (mark (shift_down bits gap) (gap - 1)))
      → P (advance_bits bits size gap)
  unfolding advance_bits cleared
  advance_cases P far edge near = elim (Bool-cases (ltb size gap)) [
    | inl t ↦ rw t (far (ltb→lt size gap t))
    | inr t ↦ rw t (elim (Bool-cases (gap == size)) [
      | inl e ↦
          let same : gap ≡ size = ==→eq gap size e in
          rw e (
            rw (last_bit bits (cleared bits) some_word)
              (subst (λ n. P (mark (cleared bits) (n - 1))) {x = gap} (same ∙ fits) (edge same)))
      | inr n ↦ rw n (near (ground arith))
    ])
  ]

  pub length-advance_bits : length (advance_bits bits size gap) ≡ length bits
  length-advance_bits =
      advance_cases (λ out. length out ≡ length bits) (λ _. length-cleared bits)
        (λ _. length-mark (cleared bits) (gap - 1) ∙ length-cleared bits)
        (λ _. length-mark (shift_down bits gap) (gap - 1) ∙ length-shift_down bits gap)

  pub Narrow-advance_bits : 0 < gap → Narrow bits → Narrow (advance_bits bits size gap)
  Narrow-advance_bits pos narrow =
      advance_cases Narrow (λ _. Narrow-cleared bits)
        (λ e.
          Narrow-mark (cleared bits) (gap - 1) (omega (arith, length-cleared bits))
            (Narrow-cleared bits))
        (λ h.
          Narrow-mark (shift_down bits gap) (gap - 1) (omega (arith, length-shift_down bits gap))
            (Narrow-shift_down bits gap narrow))

  -- The bit of the old highest is set, the old bits stand above it, and those below are clear.
  pub bit-advance_bits :
      (k : ℕ)
      → 0 < gap
      → Narrow bits
      → k < size
      → bit (advance_bits bits size gap) k
        ≡ (if ltb k (gap - 1) then 0 else if k == gap - 1 then 1 else bit bits (k - gap))
  bit-advance_bits k pos narrow h =
      advance_cases
        (λ out.
          bit out k
          ≡ (if ltb k (gap - 1) then 0 else if k == gap - 1 then 1 else bit bits (k - gap)))
        (λ far. ground (arith, bit-cleared bits k))
        (λ edge.
          ground
            (arith, bit-mark (cleared bits) (gap - 1) k, bit-cleared bits k, length-cleared bits))
        (λ near. ground (
          arith,
          bit-mark (shift_down bits gap) (gap - 1) k,
          bit-shift_down bits gap k narrow,
          length-shift_down bits gap,
        ))
