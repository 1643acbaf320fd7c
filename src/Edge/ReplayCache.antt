-- ===== src/Edge/ReplayCache.antt =====
-- `ReplayCache` of shph-edge/src/capability.rs. The `HashMap` is a list of keyed values without an
-- order that matters, the `BinaryHeap<Reverse<..>>` a list from which the least entry is taken.
pub mod Nonces
pub mod Heap
pub mod Prune
pub mod Insert
pub mod Once
mod Tests
use shph.Prelude.{
  ℕ, zero, suc, Bool, true, false, ◌&&◌, ◌||◌, Option, none, some, List, [], ◌∷◌, length, ltb, leb,
  ◌==◌, if◌then◌else◌, is_some, Result, ok, err,
}
use shph.Edge.Capability.{
  CapabilityClaims, CapabilityError, malformed, not_yet_valid, expired, replay,
}
use Nonces.{lookup, without, store}
use Heap.{pop_least}

pub record ReplayCache : Type 0 where
  pub capacity : ℕ
  pub entries : List (List ℕ × ℕ)
  pub expirations : List (ℕ × List ℕ)

unfoldable pub new : ℕ → Result CapabilityError ReplayCache
new capacity =
    if capacity == 0 || ltb 1000000 capacity
    then err malformed
    else ok (record { capacity = capacity; entries = []; expirations = [] })

-- `if self.entries.get(&nonce) == Some(&expires_at) { self.entries.remove(&nonce); }`
unfoldable pub forget : List (List ℕ × ℕ) → List ℕ → ℕ → List (List ℕ × ℕ)
forget entries nonce expires_at = elim (lookup nonce entries) [
  | none ↦ entries
  | some e ↦ if e == expires_at then without nonce entries else entries
]

-- The `while let` loop of `prune`, a round for each entry of the heap.
unfoldable pub prune_loop : ℕ → ReplayCache → ℕ → ReplayCache
prune_loop zero c now = c
prune_loop (suc fuel) c now = elim (pop_least c.expirations) [
  | none ↦ c
  | some ((expires_at, nonce), rest) ↦ elim (ltb now expires_at) [
    | true ↦ c
    | false ↦
        prune_loop fuel
          (record c { entries = forget c.entries nonce expires_at; expirations = rest }) now
  ]
]

unfoldable pub prune : ReplayCache → ℕ → ReplayCache
prune c now = prune_loop (length c.expirations) c now

-- `is_some_and(|existing_expiry| *existing_expiry > now)`
abbrev pub is_live : Option ℕ → ℕ → Bool
is_live none now = false
is_live (some e) now = ltb now e

-- After the prune.
unfoldable pub insert_pruned : ReplayCache → List ℕ → ℕ → ℕ → ReplayCache × Bool
insert_pruned c nonce expires_at now =
    if leb expires_at now || is_some (lookup nonce c.entries)
    then (c, false)
    else if leb c.capacity (length c.entries)
    then (c, false)
    else (
      record c {
        entries = store nonce expires_at c.entries;
        expirations = (expires_at, nonce) ∷ c.expirations;
      },
      true,
    )

unfoldable pub insert : ReplayCache → List ℕ → ℕ → ℕ → ReplayCache × Bool
insert c nonce expires_at now =
    if is_live (lookup nonce c.entries) now
    then (c, false)
    else insert_pruned (prune c now) nonce expires_at now

pub record VerifiedCapability : Type 0 where
  pub claims : CapabilityClaims
  pub valid_from : ℕ
  pub replay_expires_at : ℕ

abbrev consumed :
    CapabilityClaims → ReplayCache × Bool → ReplayCache × Result CapabilityError CapabilityClaims
consumed claims (c, true) = (c, ok claims)
consumed claims (c, false) = (c, err replay)

unfoldable pub consume :
    ReplayCache → VerifiedCapability → ℕ → ReplayCache × Result CapabilityError CapabilityClaims
consume c v now =
    if ltb now v.valid_from
    then (c, err not_yet_valid)
    else if leb v.replay_expires_at now
    then (c, err expired)
    else consumed v.claims (insert c v.claims.nonce v.replay_expires_at now)
