-- ===== src/Core/Window/History.antt =====
-- What a replay window promises, said without a bitmap: a counter is accepted when it was not
-- accepted before and lies at most `width` below the newest one accepted.
use shph.Prelude.{
  ℕ, ◌+◌, ◌≤◌, max, ◌≡◌, Bool, true, false, not, ◌&&◌, ◌||◌, List, [], ◌∷◌, leb, ◌==◌,
  if◌then◌else◌, arith,
}

unfoldable pub contains : List ℕ → ℕ → Bool
contains [] n = false
contains (m ∷ seen) n = m == n || contains seen n

-- The newest counter accepted, 0 before the first.
unfoldable pub newest : List ℕ → ℕ
newest [] = 0
newest (m ∷ seen) = max m (newest seen)

unfoldable pub accepts : ℕ → List ℕ → ℕ → Bool
accepts width seen n = not (contains seen n) && leb (newest seen) (n + width)

-- The verdicts on a sequence of counters.
unfoldable pub verdicts : ℕ → List ℕ → List ℕ → List Bool
verdicts width seen [] = []
verdicts width seen (n ∷ ns) =
    accepts width seen n ∷ verdicts width (if accepts width seen n then n ∷ seen else seen) ns

pub contains-le-newest : (seen : List ℕ) (n : ℕ) → contains seen n ≡ true → n ≤ newest seen
unfolding contains newest
contains-le-newest [] n h = ground arith
contains-le-newest (m ∷ seen) n h = ground (arith, contains-le-newest seen n)
