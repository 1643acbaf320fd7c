-- ===== src/Edge/ReplayCache/Nonces.antt =====
-- The map from nonces to expiry times.
use shph.Prelude.{
  ℕ, ◌≤◌, ◌≡◌, refl, Option, none, some, List, [], ◌∷◌, length, bytes_eq, bytes_eq_same,
  bytes_eq_sym, if◌then◌else◌, arith,
}

unfoldable pub lookup : List ℕ → List (List ℕ × ℕ) → Option ℕ
lookup k [] = none
lookup k ((j, v) ∷ m) = if bytes_eq j k then some v else lookup k m

unfoldable pub without : List ℕ → List (List ℕ × ℕ) → List (List ℕ × ℕ)
without k [] = []
without k ((j, v) ∷ m) = let rest = without k m in if bytes_eq j k then rest else (j, v) ∷ rest

-- `HashMap::insert`
unfoldable pub store : List ℕ → ℕ → List (List ℕ × ℕ) → List (List ℕ × ℕ)
unfolding without
store k v m = (k, v) ∷ without k m

pub lookup-without :
    (k j : List ℕ) (m : List (List ℕ × ℕ))
    → lookup j (without k m) ≡ (if bytes_eq k j then none else lookup j m)
unfolding lookup without
lookup-without k j [] = ground arith
lookup-without k j ((i, v) ∷ m) =
    ground (arith, lookup-without k j m, bytes_eq_same i k j, bytes_eq_same i j k, bytes_eq_sym j k)

pub lookup-store :
    (k j : List ℕ) (v : ℕ) (m : List (List ℕ × ℕ))
    → lookup j (store k v m) ≡ (if bytes_eq k j then some v else lookup j m)
unfolding lookup store
lookup-store k j v m = ground (arith, lookup-without k j m)

pub length-without-le : (k : List ℕ) (m : List (List ℕ × ℕ)) → length (without k m) ≤ length m
unfolding without
length-without-le k [] = omega arith
length-without-le k ((j, v) ∷ m) = ground (arith, length-without-le k m)

-- Removing a key that is not there changes nothing.
pub without-none : (k : List ℕ) (m : List (List ℕ × ℕ)) → lookup k m ≡ none → without k m ≡ m
unfolding lookup without
without-none k [] h = refl
without-none k ((j, v) ∷ m) h = ground (arith, without-none k m)
