-- ===== src/Edge/Token/Split.antt =====
-- `str::split_once` on a byte.
use shph.Prelude.{
  ℕ, ◌≡◌, sym, ap, ap₂, ◌∙◌, inl, inr, Bool-cases, Option-cases, false, Option, none, some, List,
  [], ◌∷◌, ◌++◌, any, ◌==◌, if◌then◌else◌, arith,
}

prepend : ℕ → Option (List ℕ × List ℕ) → Option (List ℕ × List ℕ)
prepend b none = none
prepend b (some (before, after)) = some (b ∷ before, after)

unfoldable pub split_once : ℕ → List ℕ → Option (List ℕ × List ℕ)
unfolding prepend
split_once sep [] = none
split_once sep (b ∷ bs) =
    let rest = split_once sep bs in if b == sep then some ([], bs) else prepend b rest

-- The split is at the first separator.
pub split_once-join :
    (sep : ℕ) (before after : List ℕ)
    → any (λ b. b == sep) before ≡ false
    → split_once sep (before ++ (sep ∷ after)) ≡ some (before, after)
unfolding split_once
split_once-join sep [] after h = ground arith
split_once-join sep (b ∷ before) after h = ground (arith, split_once-join sep before after)

-- What a split gives, put together again.
pub split_once_sound :
    (sep : ℕ) (bs : List ℕ) {before after : List ℕ}
    → split_once sep bs ≡ some (before, after)
    → (bs ≡ before ++ (sep ∷ after)) × (any (λ b. b == sep) before ≡ false)
unfolding split_once
split_once_sound sep [] e = absurd (ground (arith, e))
split_once_sound sep (b ∷ bs) {before} {after} e = elim (Bool-cases (b == sep)) [
  | inl here ↦
      let none_before : [] ≡ before = ground (arith, e, here) in
      let rest : bs ≡ after = ground (arith, e, here) in
      let same : b ≡ sep = ground (arith, here) in
      (
        ap₂ ◌∷◌ same rest ∙ ap (λ xs. xs ++ (sep ∷ after)) none_before,
        ap (any (λ x. x == sep)) (sym none_before),
      )
  | inr further ↦ elim (Option-cases (split_once sep bs)) [
    | inl missing ↦ absurd (ground (arith, e, further, missing))
    | inr ((front, back), found) ↦
        let (joined, clear) = split_once_sound sep bs {before = front} {after = back} found in
        let longer : b ∷ front ≡ before = ground (arith, e, further, found) in
        let same : back ≡ after = ground (arith, e, further, found) in
        (
          ap (◌∷◌ b) (joined ∙ ap (λ xs. front ++ (sep ∷ xs)) same)
              ∙ ap (λ xs. xs ++ (sep ∷ after)) longer,
          ap (any (λ x. x == sep)) (sym longer) ∙ ground (arith, further, clear),
        )
  ]
]
