-- ===== src/Core/Window/Words.antt =====
-- The window's bitmap read bit by bit: what `mark`, `is_marked` and the blank map do to one bit.
use shph.Prelude.{
  ℕ, zero, suc, ◌+◌, ◌*◌, ◌/◌, ◌%◌, ◌^◌, ◌<◌, max, ◌≡◌, refl, sym, List, [], ◌∷◌, map, length,
  get_or, ◌==◌, if◌then◌else◌, arith, ℕ_discrete, length-set, get_or-set_self, get_or-set_ne,
}
use shph.Prelude.Bits.{test_bit, test_bit-le, test_bit-or, test_bit-pow, bit_and-pow}
use shph.Core.Window.{or_at, mark, is_marked}

-- Bit `k` of the bitmap.
abbrev pub bit : List ℕ → ℕ → ℕ
bit words k = test_bit (get_or words (k / 64) 0) (k % 64)

-- No word is wider than 64 bits.
abbrev pub Narrow : List ℕ → Type 0
Narrow words = (i j : ℕ) → test_bit (get_or words i 0) (64 + j) ≡ 0

pub length-or_at : (words : List ℕ) (i v : ℕ) → length (or_at words i v) ≡ length words
unfolding or_at
length-or_at words i v = length-set words i _

pub test_bit-or_at :
    (words : List ℕ) (i v k j : ℕ)
    → i < length words
    → test_bit (get_or (or_at words i v) k 0) j
      ≡ max (test_bit (get_or words k 0) j) (if k == i then test_bit v j else 0)
unfolding or_at
test_bit-or_at words i v k j h = elim (ℕ_discrete k i) [
  | yes e ↦
      rw e (rw (get_or-set_self words i _ 0 h) (ground (arith, test_bit-or (get_or words i 0) v j)))
  | no n ↦ rw (get_or-set_ne words i k _ 0 (λ e. n (sym e))) (ground arith)
]

pub bit-mark :
    (words : List ℕ) (index k : ℕ)
    → index < length words * 64
    → bit (mark words index) k ≡ (if k == index then 1 else bit words k)
unfolding mark
bit-mark words index k h = ground (
  arith,
  test_bit-or_at words (index / 64) (2 ^ (index % 64)) (k / 64) (k % 64) (omega arith),
  test_bit-pow (index % 64) (k % 64),
  test_bit-le (get_or words (k / 64) 0) (k % 64),
)

pub is_marked-bit : (words : List ℕ) (index : ℕ) → is_marked words index ≡ (bit words index == 1)
unfolding is_marked
is_marked-bit words index = ground (
  arith,
  bit_and-pow (get_or words (index / 64) 0) (index % 64),
  test_bit-le (get_or words (index / 64) 0) (index % 64),
)

pub get_or-blank : (words : List ℕ) (i : ℕ) → get_or {A = ℕ} (map (λ _. 0) words) i 0 ≡ 0
get_or-blank [] i = refl
get_or-blank (x ∷ words) zero = refl
get_or-blank (x ∷ words) (suc i) = get_or-blank words i

pub Narrow-or_at :
    (words : List ℕ) (i v : ℕ)
    → i < length words
    → ((j : ℕ) → test_bit v (64 + j) ≡ 0)
    → Narrow words
    → Narrow (or_at words i v)
Narrow-or_at words i v h fits narrow k j =
    ground (arith, test_bit-or_at words i v k (64 + j) h, fits j, narrow k j)

pub Narrow-mark :
    (words : List ℕ) (index : ℕ)
    → index < length words * 64
    → Narrow words
    → Narrow (mark words index)
unfolding mark
Narrow-mark words index h narrow =
    Narrow-or_at words (index / 64) (2 ^ (index % 64)) (omega arith)
      (λ j. ground (arith, test_bit-pow (index % 64) (64 + j))) narrow

pub length-mark : (words : List ℕ) (index : ℕ) → length (mark words index) ≡ length words
unfolding mark
length-mark words index = length-or_at words (index / 64) (2 ^ (index % 64))
