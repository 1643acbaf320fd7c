-- ===== src/Edge/ReplayCache/Insert.antt =====
-- What one insertion answers, what it leaves, and the invariant of the cache.
use shph.Prelude.{
  ℕ, ◌≤◌, ◌<◌, ◌≡◌, refl, ◌∙◌, ap, Bool, true, false, not, ◌&&◌, ◌||◌, Option, none, some, List, [],
  ◌∷◌, length, bytes_eq, ltb, leb, if◌then◌else◌, arith, Bool-cases, inl, inr, is_some, ok, subst,
}
use shph.Edge.ReplayCache.{ReplayCache, new, prune, is_live, insert_pruned, insert}
use shph.Edge.ReplayCache.Nonces.{lookup, store, lookup-store, length-without-le}
use shph.Edge.ReplayCache.Heap.{has}
use shph.Edge.ReplayCache.Prune.{Indexed, Pruned, prune-Pruned, kept}

pub record IsSound (c : ReplayCache) : Type 0 where
  pub indexed : Indexed c
  pub bounded : length c.entries ≤ c.capacity

pub new-IsSound : (capacity : ℕ) {c : ReplayCache} → new capacity ≡ ok c → IsSound c
unfolding new lookup
new-IsSound capacity {c} e =
    let start : ReplayCache = record { capacity = capacity; entries = []; expirations = [] } in
    let fresh : start ≡ c = ground arith in
    subst IsSound fresh (record { indexed = λ n t h. cc; bounded = omega arith })

-- The answer in terms of the map before: the time lies ahead, the nonce is not live, and there is
-- room once the expired entries are gone.
abbrev pub room : ReplayCache → ℕ → Bool
room c now = ltb (length (prune c now).entries) c.capacity

abbrev pub admits : ReplayCache → List ℕ → ℕ → ℕ → Bool
admits c nonce expires_at now =
    ltb now expires_at && not (is_live (lookup nonce c.entries) now) && room c now

kept-is_some : (o : Option ℕ) (now : ℕ) → is_some (kept o now) ≡ is_live o now
kept-is_some none now = refl
kept-is_some (some e) now = ground arith

pub insert-answer :
    (c : ReplayCache) (nonce : List ℕ) (expires_at now : ℕ)
    → IsSound c
    → (insert c nonce expires_at now).1 ≡ admits c nonce expires_at now
unfolding insert insert_pruned
insert-answer c nonce expires_at now s = ground (
  arith,
  ap is_some ((prune-Pruned c now s.indexed).looks nonce),
  kept-is_some (lookup nonce c.entries) now,
  (prune-Pruned c now s.indexed).capacity,
)

-- The cache that an accepted nonce leaves, after the prune.
abbrev stored : ReplayCache → List ℕ → ℕ → ReplayCache
stored c nonce expires_at = record c {
  entries = store nonce expires_at c.entries;
  expirations = (expires_at, nonce) ∷ c.expirations;
}

insert_cases :
    (P : ReplayCache × Bool → Type 0) (c : ReplayCache) (nonce : List ℕ) (expires_at now : ℕ)
    → P (c, false)
    → P (prune c now, false)
    → (now < expires_at
        → is_live (lookup nonce c.entries) now ≡ false
        → lookup nonce (prune c now).entries ≡ none
        → length (prune c now).entries < (prune c now).capacity
        → P (stored (prune c now) nonce expires_at, true))
    → P (insert c nonce expires_at now)
unfolding insert insert_pruned
insert_cases P c nonce expires_at now live refused accepted =
    elim (Bool-cases (is_live (lookup nonce c.entries) now)) [
      | inl a ↦ rw a live
      | inr a ↦
          rw a
            (elim (Bool-cases
              (leb expires_at now || is_some (lookup nonce (prune c now).entries))) [
                | inl b ↦ rw b refused
                | inr b ↦
                    rw b
                      (elim (Bool-cases
                        (leb (prune c now).capacity (length (prune c now).entries))) [
                          | inl d ↦ rw d refused
                          | inr d ↦ rw d (accepted (ground arith) a (ground arith) (ground arith))
                        ])
              ])
    ]

kept-kept : (o : Option ℕ) (now : ℕ) → kept (kept o now) now ≡ kept o now
kept-kept none now = refl
kept-kept (some e) now = ground arith

-- The entries that are live at `now`: an accepted nonce joins them, and no other one leaves.
pub insert-live :
    (c : ReplayCache) (nonce : List ℕ) (expires_at now : ℕ) (j : List ℕ)
    → IsSound c
    → kept (lookup j (insert c nonce expires_at now).0.entries) now ≡ (
        if (insert c nonce expires_at now).1 && bytes_eq nonce j
        then some expires_at
        else kept (lookup j c.entries) now)
insert-live c nonce expires_at now j s =
    let p : Pruned c now (prune c now) = prune-Pruned c now s.indexed in
    let view : kept (lookup j (prune c now).entries) now ≡ kept (lookup j c.entries) now =
      ap (λ o. kept o now) (p.looks j) ∙ kept-kept (lookup j c.entries) now in
    insert_cases
      (λ r.
        kept (lookup j r.0.entries) now
        ≡ (if r.1 && bytes_eq nonce j then some expires_at else kept (lookup j c.entries) now))
      c nonce expires_at now refl view
      (λ ahead dead gone space.
        ground (arith, lookup-store nonce j expires_at (prune c now).entries, view))

stored-Indexed :
    (c : ReplayCache) (nonce : List ℕ) (expires_at : ℕ)
    → Indexed c
    → Indexed (stored c nonce expires_at)
unfolding has
stored-Indexed c nonce expires_at ix n e h =
    ground (arith, lookup-store nonce n expires_at c.entries, ix n e)

-- An insertion keeps every entry of the map indexed by the heap, and the map within its capacity.
pub insert-IsSound :
    (c : ReplayCache) (nonce : List ℕ) (expires_at now : ℕ)
    → IsSound c
    → IsSound (insert c nonce expires_at now).0
insert-IsSound c nonce expires_at now s =
    let p : Pruned c now (prune c now) = prune-Pruned c now s.indexed in
    insert_cases (λ r. IsSound r.0) c nonce expires_at now s
      (record { indexed = p.indexed; bounded = omega (arith, p.shrinks, p.capacity, s.bounded) })
      (λ ahead dead gone space. record {
        indexed = λ n e h. stored-Indexed (prune c now) nonce expires_at p.indexed n e h;
        bounded = unfold store in omega (arith, length-without-le nonce (prune c now).entries);
      })

pub capacity-insert :
    (c : ReplayCache) (nonce : List ℕ) (expires_at now : ℕ)
    → IsSound c
    → (insert c nonce expires_at now).0.capacity ≡ c.capacity
capacity-insert c nonce expires_at now s =
    let same : (prune c now).capacity ≡ c.capacity = (prune-Pruned c now s.indexed).capacity in
    insert_cases (λ r. r.0.capacity ≡ c.capacity) c nonce expires_at now refl same
      (λ ahead dead gone space. same)
