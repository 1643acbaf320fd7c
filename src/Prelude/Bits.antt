-- ===== src/Prelude/Bits.antt =====
-- Binary digits of a word, and how `&`, `|`, `<<` and `>>` act on them.
use Prim.Native.Nat.{ℕ, zero, suc, ◌+◌, ◌-◌, ◌*◌, ◌/◌, ◌%◌, ◌^◌, ◌≤◌, ◌<◌, min, max, digits}
use Prim.Native.Nat.{
  bit_and, bit_or, bit_xor, bit_and-bitwise, bit_or-bitwise, bit_xor-bitwise, differ,
}
use mathlib.Core.Path.{◌≡◌, refl, ◌∙◌, ap, ap₂, sym}
use native.Mathlib.Omega.{arith}
use native.Mathlib.Nat.{pow-suc, one-le-pow, div-div-eq-div-mul, mod-lt, div-add-mod}
use native.Mathlib.Nat.{div-add-mod', add-mul-mod_self_right, mod-eq_of_lt}
use mathlib.Core.Bool.{◌&&◌}
use mathlib.Core.Logic.{inl, inr}
use shph.Prelude.Tests.{◌==◌, if◌then◌else◌, ltb, Bool-cases, ==→eq}

-- Digit `k` of `w`, counted from the lowest.
abbrev pub test_bit : ℕ → ℕ → ℕ
test_bit w zero = w % 2
test_bit w (suc k) = test_bit (w / 2) k

pub test_bit-le : (w k : ℕ) → test_bit w k ≤ 1
test_bit-le w zero = omega arith
test_bit-le w (suc k) = test_bit-le (w / 2) k

pub test_bit-zero : (k : ℕ) → test_bit 0 k ≡ 0
test_bit-zero zero = refl
test_bit-zero (suc k) = test_bit-zero k

-- The native operations run a digit recursion on fuel, here read off digit by digit.
or_digits :
    (n a b k : ℕ)
    → a ≤ n
    → test_bit (digits (λ y. y) max n a b) k ≡ max (test_bit a k) (test_bit b k)
or_digits zero zero b k h = omega (arith, test_bit-zero k)
or_digits zero (suc a) b k h = absurd (omega arith)
or_digits (suc n) zero b k h = omega (arith, test_bit-zero k)
or_digits (suc n) (suc a) b zero h = omega arith
or_digits (suc n) (suc a) b (suc k) h =
    let rest = digits (λ y. y) max n (suc a / 2) (b / 2) in
    let halve : (rest * 2 + max (suc a % 2) (b % 2)) / 2 ≡ rest = omega arith in
    ap (λ t. test_bit t k) halve ∙ or_digits n (suc a / 2) (b / 2) k (omega arith)

and_digits :
    (n a b k : ℕ)
    → a ≤ n
    → test_bit (digits (λ y. 0) min n a b) k ≡ min (test_bit a k) (test_bit b k)
and_digits zero zero b k h = omega (arith, test_bit-zero k)
and_digits zero (suc a) b k h = absurd (omega arith)
and_digits (suc n) zero b k h = omega (arith, test_bit-zero k)
and_digits (suc n) (suc a) b zero h = omega arith
and_digits (suc n) (suc a) b (suc k) h =
    let rest = digits (λ y. 0) min n (suc a / 2) (b / 2) in
    let halve : (rest * 2 + min (suc a % 2) (b % 2)) / 2 ≡ rest = omega arith in
    ap (λ t. test_bit t k) halve ∙ and_digits n (suc a / 2) (b / 2) k (omega arith)

pub test_bit-or : (a b k : ℕ) → test_bit (bit_or a b) k ≡ max (test_bit a k) (test_bit b k)
test_bit-or a b k = simp bit_or-bitwise (or_digits a a b k (omega arith))

pub test_bit-and : (a b k : ℕ) → test_bit (bit_and a b) k ≡ min (test_bit a k) (test_bit b k)
test_bit-and a b k = simp bit_and-bitwise (and_digits a a b k (omega arith))

-- The mask `1 << k` has one digit.
pub test_bit-pow : (k j : ℕ) → test_bit (2 ^ k) j ≡ (if k == j then 1 else 0)
test_bit-pow zero zero = refl
test_bit-pow zero (suc j) = ground (arith, test_bit-zero j)
test_bit-pow (suc k) zero = ground (arith, pow-suc 2 k)
test_bit-pow (suc k) (suc j) =
    let halve : 2 ^ suc k / 2 ≡ 2 ^ k = omega (arith, pow-suc 2 k) in
    ap (λ t. test_bit t j) halve ∙ test_bit-pow k j ∙ ground arith

zero_of_digits : (n a : ℕ) → a ≤ n → ((k : ℕ) → test_bit a k ≡ 0) → a ≡ 0
zero_of_digits n zero h z = refl
zero_of_digits zero (suc a) h z = absurd (omega arith)
zero_of_digits (suc n) (suc a) h z =
    omega (arith, z 0, zero_of_digits n (suc a / 2) (omega arith) (λ k. z (suc k)))

-- `w & (1 << k) != 0` reads digit `k`.
pub bit_and-pow : (w k : ℕ) → (bit_and w (2 ^ k) == 0) ≡ (test_bit w k == 0)
bit_and-pow w k = ground (arith, clear, own, test_bit-zero k, test_bit-le w k)
  where
    masked : ℕ
    masked = bit_and w (2 ^ k)

    own : test_bit masked k ≡ test_bit w k
    own = ground (arith, test_bit-and w (2 ^ k) k, test_bit-pow k k, test_bit-le w k)

    clear : test_bit w k ≡ 0 → masked ≡ 0
    clear z =
        zero_of_digits masked masked (omega arith)
          λ j. ground (arith, test_bit-and w (2 ^ k) j, test_bit-pow k j)

test_bit-congr : (a b j k : ℕ) → a ≡ b → j ≡ k → test_bit a j ≡ test_bit b k
test_bit-congr a b j k p q = ap (λ t. test_bit t j) p ∙ ap (λ t. test_bit b t) q

two_pow_pos : (m : ℕ) → 0 < 2 ^ m
two_pow_pos m = one-le-pow m 2 (omega arith)

-- `w >> s`
pub test_bit-shr : (s w j : ℕ) → test_bit (w / 2 ^ s) j ≡ test_bit w (s + j)
test_bit-shr zero w j = test_bit-congr (w / 1) w j (0 + j) (omega arith) (omega arith)
test_bit-shr (suc s) w j =
    let halve : w / 2 ^ suc s ≡ w / 2 / 2 ^ s =
      ap (λ t. w / t) (omega (arith, pow-suc 2 s)) ∙ sym (div-div-eq-div-mul w 2 (2 ^ s)) in
    ap (λ t. test_bit t j) halve
    ∙ test_bit-shr s (w / 2) j
    ∙ test_bit-congr w w (suc (s + j)) (suc s + j) refl (omega arith)

-- x = 2 (p q + t) + r, with t < p and r < 2.
halve_mod : (m x : ℕ) → (x % 2 ^ suc m) / 2 ≡ (x / 2) % 2 ^ m
halve_mod m x =
    let p : ℕ = 2 ^ m in
    let q : ℕ = x / 2 / p in
    let t : ℕ = (x / 2) % p in
    let r : ℕ = 2 * t + x % 2 in
    let small : t < p = mod-lt (x / 2) (two_pow_pos m) in
    let split : p * q + t ≡ x / 2 = div-add-mod (x / 2) p in
    let whole : x ≡ r + q * (p * 2) = omega (arith, split) in
    let rest : x % (p * 2) ≡ r =
      ap (λ n. n % (p * 2)) whole
      ∙ add-mul-mod_self_right r q (p * 2)
      ∙ mod-eq_of_lt (omega arith) in
    ap (λ n. (x % n) / 2) (pow-suc 2 m) ∙ omega (arith, rest)

lowest_mod : (m x : ℕ) → x % 2 ^ suc m % 2 ≡ x % 2
lowest_mod m x =
    let p : ℕ = 2 ^ m in
    let split : x / (p * 2) * (p * 2) + x % (p * 2) ≡ x = div-add-mod' x (p * 2) in
    ap (λ n. x % n % 2) (pow-suc 2 m) ∙ omega (arith, split)

-- Keeping `m` digits leaves those below `m` alone.
test_bit-mod : (m x j : ℕ) → j < m → test_bit (x % 2 ^ m) j ≡ test_bit x j
test_bit-mod zero x j h = absurd (omega arith)
test_bit-mod (suc m) x zero h = lowest_mod m x
test_bit-mod (suc m) x (suc j) h =
    ap (λ t. test_bit t j) (halve_mod m x) ∙ test_bit-mod m (x / 2) j (omega arith)

double_mul_pow : (s w : ℕ) → w * 2 ^ suc s ≡ 2 * (w * 2 ^ s)
double_mul_pow s w = omega (arith, ap (λ (t : ℕ). w * t) (pow-suc 2 s))

test_bit-mul_pow :
    (s w j : ℕ) → test_bit (w * 2 ^ s) j ≡ (if ltb j s then 0 else test_bit w (j - s))
test_bit-mul_pow zero w j =
    ground (arith, test_bit-congr (w * 1) w j (j - 0) (omega arith) (omega arith))
test_bit-mul_pow (suc s) w zero = ground (arith, double_mul_pow s w)
test_bit-mul_pow (suc s) w (suc j) =
    let halve : w * 2 ^ suc s / 2 ≡ w * 2 ^ s = omega (arith, double_mul_pow s w) in
    ap (λ t. test_bit t j) halve
    ∙ test_bit-mul_pow s w j
    ∙ ground (arith, test_bit-congr w w (j - s) (suc j - suc s) refl (omega arith))

-- `w << s` on a word of `m` digits.
pub test_bit-shl :
    (s m w j : ℕ)
    → j < m
    → test_bit (w * 2 ^ s % 2 ^ m) j ≡ (if ltb j s then 0 else test_bit w (j - s))
test_bit-shl s m w j h = test_bit-mod m (w * 2 ^ s) j h ∙ test_bit-mul_pow s w j

-- A number below 2 ^ m has no digit from `m` on.
pub test_bit-high : (m x j : ℕ) → x < 2 ^ m → test_bit x (m + j) ≡ 0
test_bit-high zero x j h =
    test_bit-congr x 0 (0 + j) j (omega arith) (omega arith) ∙ test_bit-zero j
test_bit-high (suc m) x j h =
    test_bit-congr x x (suc m + j) (suc (m + j)) refl (omega arith)
    ∙ test_bit-high m (x / 2) j (omega (arith, pow-suc 2 m))

-- The mask of `m` ones.
pub test_bit-ones : (m j : ℕ) → j < m → test_bit (2 ^ m - 1) j ≡ 1
test_bit-ones zero j h = absurd (omega arith)
test_bit-ones (suc m) zero h = omega (arith, pow-suc 2 m, two_pow_pos m)
test_bit-ones (suc m) (suc j) h =
    let halve : (2 ^ suc m - 1) / 2 ≡ 2 ^ m - 1 = omega (arith, pow-suc 2 m, two_pow_pos m) in
    ap (λ t. test_bit t j) halve ∙ test_bit-ones m j (omega arith)

differ_zero : (x y : ℕ) → differ x y ≡ 0 → x ≡ y
differ_zero zero y h = sym h
differ_zero (suc x) zero h = h
differ_zero (suc x) (suc y) h = ap suc (differ_zero x y h)

differ_same : (x : ℕ) → differ x x ≡ 0
differ_same zero = refl
differ_same (suc x) = differ_same x

xor_digits : (n a b : ℕ) → a ≤ n → digits (λ y. y) differ n a b ≡ 0 → a ≡ b
xor_digits zero zero b h e = sym e
xor_digits zero (suc a) b h e = absurd (omega arith)
xor_digits (suc n) zero b h e = sym e
xor_digits (suc n) (suc a) b h e =
    let halves : suc a / 2 ≡ b / 2 = xor_digits n (suc a / 2) (b / 2) (omega arith) (omega arith) in
    let lowest : suc a % 2 ≡ b % 2 = differ_zero (suc a % 2) (b % 2) (omega arith) in omega arith

xor_digits_same : (n a : ℕ) → a ≤ n → digits (λ y. y) differ n a a ≡ 0
xor_digits_same zero zero h = refl
xor_digits_same zero (suc a) h = absurd (omega arith)
xor_digits_same (suc n) zero h = refl
xor_digits_same (suc n) (suc a) h =
    omega (arith, xor_digits_same n (suc a / 2) (omega arith), differ_same (suc a % 2))

pub bit_xor_zero : (a b : ℕ) → bit_xor a b ≡ 0 → a ≡ b
bit_xor_zero a b h = xor_digits a a b (omega arith) (simp bit_xor-bitwise at h)

pub bit_xor_same : (a : ℕ) → bit_xor a a ≡ 0
bit_xor_same a = simp bit_xor-bitwise (xor_digits_same a a (omega arith))

pub bit_or_zero : (a b : ℕ) → bit_or a b ≡ 0 → (a ≡ 0) × (b ≡ 0)
bit_or_zero a b h = (
  zero_of_digits a a (omega arith) (λ k. omega (arith, both k, test_bit-zero k)),
  zero_of_digits b b (omega arith) (λ k. omega (arith, both k, test_bit-zero k)),
)
  where
    both : (k : ℕ) → max (test_bit a k) (test_bit b k) ≡ test_bit 0 k
    both k = sym (test_bit-or a b k) ∙ ap (λ w. test_bit w k) h

-- Folding `|=` of a difference into an accumulator keeps it zero only on equal numbers.
pub bit_or-bit_xor : (acc a b : ℕ) → (bit_or acc (bit_xor a b) == 0) ≡ (acc == 0 && a == b)
bit_or-bit_xor acc a b = elim (Bool-cases (bit_or acc (bit_xor a b) == 0)) [
  | inl clear ↦
      let (cleared, same) =
        bit_or_zero acc (bit_xor a b) (==→eq (bit_or acc (bit_xor a b)) 0 clear) in
      ground (arith, bit_xor_zero a b same)
  | inr set ↦ elim (Bool-cases (acc == 0 && a == b)) [
    | inl equal ↦
        let clear : acc ≡ 0 = ground arith in
        let same : a ≡ b = ground arith in
        let none_left : bit_or acc (bit_xor a b) ≡ 0 =
          ap₂ bit_or clear (ap (bit_xor a) (sym same) ∙ bit_xor_same a) in
        ground (arith, none_left)
    | inr different ↦ set ∙ sym different
  ]
]
