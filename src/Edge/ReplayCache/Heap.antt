-- ===== src/Edge/ReplayCache/Heap.antt =====
-- The heap of expirations: `peek` and `pop` deliver a least entry by time, then by nonce.
use shph.Prelude.{
  ℕ, suc, ◌≤◌, ◌≡◌, refl, Bool, true, false, ◌&&◌, ◌||◌, Option, none, some, List, [], ◌∷◌, length,
  bytes_eq, if◌then◌else◌, arith, Bool-cases, inl, inr, ap, ltb, ◌==◌,
}

-- The order of `[u8; 16]`.
bytes_less : List ℕ → List ℕ → Bool
bytes_less [] [] = false
bytes_less [] (y ∷ ys) = true
bytes_less (x ∷ xs) [] = false
bytes_less (x ∷ xs) (y ∷ ys) = let rest = bytes_less xs ys in ltb x y || (x == y && rest)

unfoldable pub less : ℕ × List ℕ → ℕ × List ℕ → Bool
unfolding bytes_less
less (s, m) (t, n) = ltb s t || (s == t && bytes_less m n)

-- Between an entry and the least of the others.
pick :
    ℕ × List ℕ
    → List (ℕ × List ℕ)
    → Option ((ℕ × List ℕ) × List (ℕ × List ℕ))
    → Option ((ℕ × List ℕ) × List (ℕ × List ℕ))
pick x xs none = some (x, xs)
pick x xs (some (y, rest)) = if less y x then some (y, x ∷ rest) else some (x, xs)

unfoldable pub pop_least : List (ℕ × List ℕ) → Option ((ℕ × List ℕ) × List (ℕ × List ℕ))
unfolding pick
pop_least [] = none
pop_least (x ∷ xs) = pick x xs (pop_least xs)

unfoldable pub has : List (ℕ × List ℕ) → ℕ → List ℕ → Bool
has [] t n = false
has ((s, m) ∷ h) t n = (s == t && bytes_eq m n) || has h t n

-- What is popped, and the rest: one entry fewer, the same entries, none of them earlier.
pub record Popped (h : List (ℕ × List ℕ)) (s : ℕ) (m : List ℕ) (rest : List (ℕ × List ℕ))
    : Type 0 where
  pub shorter : length h ≡ suc (length rest)
  pub same : (t : ℕ) (n : List ℕ) → has h t n ≡ ((s == t && bytes_eq m n) || has rest t n)
  pub least : (t : ℕ) (n : List ℕ) → has h t n ≡ true → s ≤ t

abbrev pub PoppedFrom : List (ℕ × List ℕ) → Option ((ℕ × List ℕ) × List (ℕ × List ℕ)) → Type 0
PoppedFrom h none = h ≡ []
PoppedFrom h (some ((s, m), rest)) = Popped h s m rest

less_time : (s t : ℕ) (m n : List ℕ) → less (s, m) (t, n) ≡ true → s ≤ t
unfolding less
less_time s t m n h = ground arith

not_less_time : (s t : ℕ) (m n : List ℕ) → less (s, m) (t, n) ≡ false → t ≤ s
unfolding less
not_less_time s t m n h = ground arith

pick-PoppedFrom :
    (s : ℕ) (m : List ℕ) (xs : List (ℕ × List ℕ)) (o : Option ((ℕ × List ℕ) × List (ℕ × List ℕ)))
    → PoppedFrom xs o
    → PoppedFrom ((s, m) ∷ xs) (pick (s, m) xs o)
unfolding pick has
pick-PoppedFrom s m xs none empty = record {
  shorter = refl;
  same = λ t n. refl;
  least = λ t n h. ground (arith, ap (λ l. has l t n) empty);
}
pick-PoppedFrom s m xs (some ((s', m'), rest)) p = elim (Bool-cases (less (s', m') (s, m))) [
  | inl before ↦ rw before (record {
    shorter = omega (arith, p.shorter);
    same = λ t n. ground (arith, p.same t n);
    least = λ t n h. ground (arith, p.least t n, less_time s' s m' m before);
  })
  | inr after ↦ rw after (record {
    shorter = refl;
    same = λ t n. refl;
    least = λ t n h. ground (arith, p.least t n, not_less_time s' s m' m after);
  })
]

-- On an empty heap there is nothing to pop; otherwise the entry popped is a least one.
pub pop_least-PoppedFrom : (h : List (ℕ × List ℕ)) → PoppedFrom h (pop_least h)
unfolding pop_least
pop_least-PoppedFrom [] = refl
pop_least-PoppedFrom ((s, m) ∷ xs) = pick-PoppedFrom s m xs (pop_least xs) (pop_least-PoppedFrom xs)
