-- ===== src/Edge/ReplayCache/Tests.antt =====
-- The cache theorems on a cache for two nonces.
use shph.Prelude.{ℕ, ◌≤◌, ◌≡◌, refl, false, [], ◌∷◌, length, arith, ok}
use shph.Edge.ReplayCache.{ReplayCache, new, insert, insert_pruned, prune, prune_loop}
use shph.Edge.ReplayCache.Heap.{pop_least}
use shph.Edge.ReplayCache.Nonces.{lookup, store}
use shph.Edge.ReplayCache.Once.{Insertion, apply, after, accepted_once, capacity_holds}

abbrev pair : ReplayCache
pair = record { capacity = 2; entries = []; expirations = [] }

abbrev at : ℕ → ℕ → ℕ → Insertion
at n expiry clock = record { nonce = n ∷ []; expires_at = expiry; now = clock }

pair-new : new 2 ≡ ok pair
unfolding new
pair-new = refl

accepted_once_example :
    (apply
      (after (apply (after pair (at 1 10 0 ∷ [])) (at 2 20 5)).0 (at 3 30 11 ∷ []))
      (at 2 40 19)).1
    ≡ false
unfolding after insert insert_pruned prune prune_loop lookup store pop_least
accepted_once_example =
    accepted_once 2 (at 1 10 0 ∷ []) (at 3 30 11 ∷ []) (at 2 20 5) (at 2 40 19) pair-new refl
      (omega arith, tt) refl (omega arith)

capacity_holds_example : length (after pair (at 1 10 0 ∷ at 2 10 0 ∷ at 3 10 0 ∷ [])).entries ≤ 2
capacity_holds_example = capacity_holds 2 (at 1 10 0 ∷ at 2 10 0 ∷ at 3 10 0 ∷ []) pair-new
