-- ===== src/Transport/EnvelopePolicy/Parts.antt =====
-- Each part of an offer's bytes is read back.
use shph.Prelude.{
  ℕ, ◌+◌, ◌*◌, ◌<◌, ◌^◌, ◌≡◌, refl, sym, ap, ap₂, ◌∙◌, Option, none, some, List, [], ◌∷◌, ◌++◌, All,
  length, get_or, drop, replicate, arith, ok,
}
use shph.Prelude.Bytes.{be_bytes, be_value-be_bytes}
use shph.Transport.Cover
use shph.Transport.Cover.{CoverPolicy}
use shph.Transport.PhantomOne.{SizeSelection, first_fit, weighted}
use shph.Transport.PhantomOne.Wire.{field}
use shph.Transport.EnvelopePolicy.Offer.{validate_cover}
use shph.Transport.EnvelopePolicy.Wire.{
  weight_bytes, weights_at, selection_bytes, selection_at, padding_budget_bytes, budget_at,
  cover_bytes, cover_at, stated_cover,
}

abbrev pub IsWeight : ℕ → Type 0
IsWeight weight = weight < 65536

length-weight_bytes : (weights : List ℕ) → length (weight_bytes weights) ≡ 2 * length weights
unfolding weight_bytes be_bytes
length-weight_bytes [] = omega arith
length-weight_bytes (weight ∷ weights) = omega (arith, length-weight_bytes weights)

weights_at-weight_bytes :
    (weights tail : List ℕ)
    → All IsWeight weights
    → weights_at (length weights) (weight_bytes weights ++ tail) ≡ weights
unfolding weights_at weight_bytes be_bytes
weights_at-weight_bytes [] tail h = refl
weights_at-weight_bytes (weight ∷ weights) tail h =
    ap₂ ◌∷◌ (be_value-be_bytes 2 weight (omega (arith, h.0)))
      (weights_at-weight_bytes weights tail h.1)

-- An array of seven numbers of 16 bits.
abbrev pub IsSelection : SizeSelection → Type 0
IsSelection first_fit = Unit {0}
IsSelection (weighted weights) = (length weights ≡ 7) × All IsWeight weights

pub record SelectionReads (choice : SizeSelection) (tail : List ℕ) : Type 0 where
  pub long : length (selection_bytes choice) ≡ 15
  pub reads :
      selection_at
        (get_or (selection_bytes choice ++ tail) 0 0)
        (weights_at 7 (drop 1 (selection_bytes choice ++ tail)))
      ≡ ok choice

pub selection-SelectionReads :
    (choice : SizeSelection) (tail : List ℕ) → IsSelection choice → SelectionReads choice tail
unfolding selection_bytes selection_at
selection-SelectionReads first_fit tail h =
    let zeros = weights_at-weight_bytes (replicate 7 0) tail (
      omega arith,
      (omega arith, (omega arith, (omega arith, (omega arith, (omega arith, (omega arith, tt)))))),
    ) in
    record {
      long = omega (arith, length-weight_bytes (replicate 7 0));
      reads = ground (arith, zeros);
    }
selection-SelectionReads (weighted weights) tail h =
    let same : weights_at 7 (weight_bytes weights ++ tail) ≡ weights =
      ap (λ n. weights_at n (weight_bytes weights ++ tail)) (sym h.0)
      ∙ weights_at-weight_bytes weights tail h.1 in
    record { long = omega (arith, length-weight_bytes weights, h.0); reads = ground (arith, same) }

-- The bytes behind the padding budget stand where they did, nine bytes later.
pub padding_budget_lem :
    (b : Option ℕ) (rest : List ℕ)
    → (field (padding_budget_bytes b ++ rest) 9 2 ≡ field rest 0 2)
      × (field (padding_budget_bytes b ++ rest) 11 2 ≡ field rest 2 2)
      × (budget_at (padding_budget_bytes b ++ rest) 13 ≡ budget_at rest 4)
      × (budget_at (padding_budget_bytes b ++ rest) 29 ≡ budget_at rest 20)
      × (drop 45 (padding_budget_bytes b ++ rest) ≡ drop 36 rest)
      × (length (padding_budget_bytes b ++ rest) ≡ 9 + length rest)
unfolding be_bytes
padding_budget_lem none rest = (refl, refl, refl, refl, refl, omega arith)
padding_budget_lem (some bytes) rest = (refl, refl, refl, refl, refl, omega arith)

cover_bytes_lem :
    (p : CoverPolicy)
    → p.interval_ms < 2 ^ 32
    → p.idle_timeout_ms < 2 ^ 32
    → p.maximum_bytes < 2 ^ 64
    → p.overhead_percent < 2 ^ 16
    → (get_or (cover_bytes (some p)) 0 0 ≡ 1)
      × (field (cover_bytes (some p)) 1 4 ≡ p.interval_ms)
      × (field (cover_bytes (some p)) 5 4 ≡ p.idle_timeout_ms)
      × (field (cover_bytes (some p)) 9 8 ≡ p.maximum_bytes)
      × (field (cover_bytes (some p)) 17 2 ≡ p.overhead_percent)
      × (length (cover_bytes (some p)) ≡ 19)
unfolding cover_bytes be_bytes
cover_bytes_lem p a b c d = (
  refl,
  be_value-be_bytes 4 p.interval_ms (omega arith),
  be_value-be_bytes 4 p.idle_timeout_ms (omega arith),
  be_value-be_bytes 8 p.maximum_bytes (omega arith),
  be_value-be_bytes 2 p.overhead_percent (omega arith),
  refl,
)

cover_widths :
    (p : CoverPolicy)
    → Cover.validate p ≡ ok tt
    → (p.interval_ms < 2 ^ 32)
      × (p.idle_timeout_ms < 2 ^ 32)
      × (p.maximum_bytes < 2 ^ 64)
      × (p.overhead_percent < 2 ^ 16)
unfolding Cover.validate
cover_widths p h = ground arith

no_cover : (cover_at (cover_bytes none) ≡ ok none) × (length (cover_bytes none) ≡ 19)
unfolding cover_at cover_bytes
no_cover = (refl, refl)

cover_at_stated :
    (bytes : List ℕ) (p : CoverPolicy)
    → get_or bytes 0 0 ≡ 1
    → stated_cover bytes ≡ p
    → Cover.validate p ≡ ok tt
    → cover_at bytes ≡ ok (some p)
unfolding cover_at
cover_at_stated bytes p tag same h = simp (tag, same, h)

-- A cover policy that may be offered is read back.
pub cover_at-cover_bytes :
    (cover : Option CoverPolicy)
    → validate_cover cover ≡ ok tt
    → (cover_at (cover_bytes cover) ≡ ok cover) × (length (cover_bytes cover) ≡ 19)
cover_at-cover_bytes none h = no_cover
cover_at-cover_bytes (some p) h =
    let (a, b, c, d) = cover_widths p h in
    let (tag, e, f, g, k, long) = cover_bytes_lem p a b c d in
    let same : stated_cover (cover_bytes (some p)) ≡ p = ground (arith, e, f, g, k) in
    (cover_at_stated (cover_bytes (some p)) p tag same h, long)
