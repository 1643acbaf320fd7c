-- ===== src/Core/ConstantTime.antt =====
-- The comparisons without early exit: `constant_time_eq` of shph-core/src/crypto.rs and
-- `constant_time_diff` of shph-core/src/cookie.rs. Bytes are numbers; `^` and `|` of bytes are bytes.
use Prim.Native.Nat.{bit_or, bit_xor}
use shph.Prelude.{
  ℕ, ◌≡◌, refl, ap, ◌∙◌, Bool, false, not, ◌&&◌, List, [], ◌∷◌, length, bytes_eq, ◌==◌,
  if◌then◌else◌, arith, Bool-cases, inl, inr, ==→eq, bytes_eq→eq,
}
use shph.Prelude.Bits.{bit_or-bit_xor}

-- `for (x, y) in a.iter().zip(b) { diff |= x ^ y; }`
unfoldable pub diff_from : ℕ → List ℕ → List ℕ → ℕ
diff_from diff [] ys = diff
diff_from diff (x ∷ xs) [] = diff
diff_from diff (x ∷ xs) (y ∷ ys) = diff_from (bit_or diff (bit_xor x y)) xs ys

-- The walk over the longer input on a mismatch of the lengths has no effect on the answer.
unfoldable pub constant_time_eq : List ℕ → List ℕ → Bool
constant_time_eq a b = if not (length a == length b) then false else diff_from 0 a b == 0

unfoldable pub constant_time_diff : List ℕ → List ℕ → ℕ
constant_time_diff left right =
    diff_from (if not (length left == length right) then 1 else 0) left right

diff_from-zero :
    (diff : ℕ) (xs ys : List ℕ)
    → length xs ≡ length ys
    → (diff_from diff xs ys == 0) ≡ (diff == 0 && bytes_eq xs ys)
unfolding diff_from
diff_from-zero diff [] [] h = ground arith
diff_from-zero diff [] (y ∷ ys) h = ground arith
diff_from-zero diff (x ∷ xs) [] h = ground arith
diff_from-zero diff (x ∷ xs) (y ∷ ys) h =
    diff_from-zero (bit_or diff (bit_xor x y)) xs ys (ground arith)
    ∙ ap (λ t. t && bytes_eq xs ys) (bit_or-bit_xor diff x y)
    ∙ ground arith

-- A difference once seen is never lost.
diff_from_kept :
    (diff : ℕ) (xs ys : List ℕ) → (diff == 0) ≡ false → (diff_from diff xs ys == 0) ≡ false
unfolding diff_from
diff_from_kept diff [] ys h = h
diff_from_kept diff (x ∷ xs) [] h = h
diff_from_kept diff (x ∷ xs) (y ∷ ys) h =
    diff_from_kept (bit_or diff (bit_xor x y)) xs ys (ground (arith, bit_or-bit_xor diff x y))

bytes_eq_sized : (xs ys : List ℕ) → (length xs == length ys) ≡ false → bytes_eq xs ys ≡ false
bytes_eq_sized xs ys h = elim (Bool-cases (bytes_eq xs ys)) [
  | inl same ↦ ground (arith, ap length (bytes_eq→eq xs ys same))
  | inr other ↦ other
]

-- Both comparisons without early exit decide equality of the two byte strings, their lengths included.
pub constant_time_decides :
    (a b : List ℕ)
    → (constant_time_eq a b ≡ bytes_eq a b) × ((constant_time_diff a b == 0) ≡ bytes_eq a b)
unfolding constant_time_eq constant_time_diff
constant_time_decides a b = elim (Bool-cases (length a == length b)) [
  | inl sized ↦
      let zero_diff : (diff_from 0 a b == 0) ≡ bytes_eq a b =
        diff_from-zero 0 a b (==→eq (length a) (length b) sized) in
      (ground (arith, sized, zero_diff), ground (arith, sized, zero_diff))
  | inr other ↦
      let kept : (diff_from 1 a b == 0) ≡ false = diff_from_kept 1 a b refl in
      let differ : bytes_eq a b ≡ false = bytes_eq_sized a b other in
      (ground (arith, other, differ), ground (arith, other, kept, differ))
]
