-- ===== src/Prelude/Bytes.antt =====
-- `to_be_bytes` and `from_be_bytes` at every width, over bytes as numbers.
use Prim.Native.Nat.{ℕ, zero, suc, ◌+◌, ◌*◌, ◌/◌, ◌%◌, ◌^◌, ◌<◌}
use mathlib.Core.Path.{◌≡◌, refl, ap, ap₂, ◌∙◌, sym}
use mathlib.Core.List.{List, [], ◌∷◌, reverse, reverse-reverse, reverse-cons}
use native.Mathlib.Omega.{arith}
use native.Mathlib.Nat.{pow-suc}
use shph.Prelude.Lists.{length, length-reverse, All, All-append}

abbrev pub IsByte : ℕ → Type 0
IsByte b = b < 256

le_bytes : ℕ → ℕ → List ℕ
le_bytes zero v = []
le_bytes (suc n) v = (v % 256) ∷ le_bytes n (v / 256)

le_value : List ℕ → ℕ
le_value [] = 0
le_value (b ∷ bs) = b + 256 * le_value bs

-- `n` bytes, the highest first.
unfoldable pub be_bytes : ℕ → ℕ → List ℕ
unfolding le_bytes
be_bytes n v = reverse (le_bytes n v)

unfoldable pub be_value : List ℕ → ℕ
unfolding le_value
be_value bs = le_value (reverse bs)

length-le_bytes : (n v : ℕ) → length (le_bytes n v) ≡ n
unfolding le_bytes
length-le_bytes zero v = refl
length-le_bytes (suc n) v = ap suc (length-le_bytes n (v / 256))

le_value-le_bytes : (n v : ℕ) → v < 256 ^ n → le_value (le_bytes n v) ≡ v
unfolding le_bytes le_value
le_value-le_bytes zero v h = omega arith
le_value-le_bytes (suc n) v h =
    omega (arith, le_value-le_bytes n (v / 256) (omega (arith, pow-suc 256 n)))

le_bytes-le_value : (bs : List ℕ) → All IsByte bs → le_bytes (length bs) (le_value bs) ≡ bs
unfolding le_bytes le_value
le_bytes-le_value [] h = refl
le_bytes-le_value (b ∷ bs) h =
    let rest : (b + 256 * le_value bs) / 256 ≡ le_value bs = omega arith in
    ap₂ ◌∷◌ (omega arith) (ap (le_bytes (length bs)) rest ∙ le_bytes-le_value bs h.1)

le_value_bound : (bs : List ℕ) → All IsByte bs → le_value bs < 256 ^ length bs
unfolding le_value
le_value_bound [] h = omega arith
le_value_bound (b ∷ bs) h = omega (arith, le_value_bound bs h.1, pow-suc 256 (length bs))

le_bytes-IsByte : (n v : ℕ) → All IsByte (le_bytes n v)
unfolding le_bytes
le_bytes-IsByte zero v = tt
le_bytes-IsByte (suc n) v = (omega arith, le_bytes-IsByte n (v / 256))

pub All-reverse {ℓ κ} : {A : Type ℓ} (P : A → Type κ) (xs : List A) → All P xs → All P (reverse xs)
All-reverse P [] h = h
All-reverse P (x ∷ xs) h =
    rw reverse-cons (All-append P (reverse xs) (x ∷ []) (All-reverse P xs h.1) (h.0, tt))

pub length-be_bytes : (n v : ℕ) → length (be_bytes n v) ≡ n
unfolding be_bytes
length-be_bytes n v = length-reverse (le_bytes n v) ∙ length-le_bytes n v

pub be_bytes-IsByte : (n v : ℕ) → All IsByte (be_bytes n v)
unfolding be_bytes
be_bytes-IsByte n v = All-reverse IsByte (le_bytes n v) (le_bytes-IsByte n v)

pub be_value-be_bytes : (n v : ℕ) → v < 256 ^ n → be_value (be_bytes n v) ≡ v
unfolding be_bytes be_value
be_value-be_bytes n v h = ap le_value (reverse-reverse (le_bytes n v)) ∙ le_value-le_bytes n v h

pub be_bytes-be_value :
    (n : ℕ) (bs : List ℕ) → length bs ≡ n → All IsByte bs → be_bytes n (be_value bs) ≡ bs
unfolding be_bytes be_value
be_bytes-be_value n bs e h =
    ap (λ k. reverse (le_bytes k (le_value (reverse bs)))) (sym e ∙ sym (length-reverse bs))
    ∙ ap reverse (le_bytes-le_value (reverse bs) (All-reverse IsByte bs h))
    ∙ reverse-reverse bs

pub be_value_bound : (n : ℕ) (bs : List ℕ) → length bs ≡ n → All IsByte bs → be_value bs < 256 ^ n
unfolding be_value
be_value_bound n bs e h = omega (
  arith,
  le_value_bound (reverse bs) (All-reverse IsByte bs h),
  ap (λ k. 256 ^ k) (length-reverse bs ∙ e),
)

-- Different values below the bound have different bytes.
pub be_bytes_injective :
    (n v w : ℕ) → v < 256 ^ n → w < 256 ^ n → be_bytes n v ≡ be_bytes n w → v ≡ w
be_bytes_injective n v w h k e =
    sym (be_value-be_bytes n v h) ∙ ap be_value e ∙ be_value-be_bytes n w k

pub be_bytes_two : (v : ℕ) → be_bytes 2 v ≡ (v / 256 % 256) ∷ (v % 256) ∷ []
unfolding be_bytes
be_bytes_two v = refl
