-- ===== src/Edge/ReplayCache/Once.antt =====
-- A nonce that was accepted is refused until its time, whatever is inserted in between.
use shph.Prelude.{
  ℕ, ◌≤◌, ◌<◌, ◌≡◌, refl, ◌∙◌, ap, Bool, true, false, Option, none, some, List, [], ◌∷◌, length,
  bytes_eq, bytes_eq_refl, bytes_eq→eq, arith, All, ok,
}
use shph.Edge.ReplayCache.{ReplayCache, new, insert}
use shph.Edge.ReplayCache.Nonces.{lookup}
use shph.Edge.ReplayCache.Prune.{kept}
use shph.Edge.ReplayCache.Insert.{
  IsSound, new-IsSound, insert-IsSound, insert-live, insert-answer, capacity-insert,
}

-- A call of `insert`: nonce, expiry, clock.
pub record Insertion : Type 0 where
  pub nonce : List ℕ
  pub expires_at : ℕ
  pub now : ℕ

abbrev pub apply : ReplayCache → Insertion → ReplayCache × Bool
apply c i = insert c i.nonce i.expires_at i.now

-- The cache after a sequence of calls, whatever their answers.
unfoldable pub after : ReplayCache → List Insertion → ReplayCache
after c [] = c
after c (i ∷ is) = after (apply c i).0 is

after-IsSound : (c : ReplayCache) (is : List Insertion) → IsSound c → IsSound (after c is)
unfolding after
after-IsSound c [] s = s
after-IsSound c (i ∷ is) s =
    after-IsSound (apply c i).0 is (insert-IsSound c i.nonce i.expires_at i.now s)

kept-some : (o : Option ℕ) (now : ℕ) {e : ℕ} → kept o now ≡ some e → o ≡ some e
kept-some none now h = h
kept-some (some t) now h = ground arith

-- A live entry survives an insertion at any time before its own.
lookup-apply :
    (c : ReplayCache) (n : List ℕ) (e : ℕ) (i : Insertion)
    → IsSound c
    → lookup n c.entries ≡ some e
    → i.now < e
    → lookup n (apply c i).0.entries ≡ some e
lookup-apply c n e i s there early = kept-some (lookup n (apply c i).0.entries) i.now (
    ground (
      arith,
      insert-live c i.nonce i.expires_at i.now n s,
      insert-answer c i.nonce i.expires_at i.now s,
      there,
      λ (h : bytes_eq i.nonce n ≡ true). ap (λ t. lookup t c.entries) (bytes_eq→eq i.nonce n h),
    ))

lookup-after :
    (c : ReplayCache) (n : List ℕ) (e : ℕ) (is : List Insertion)
    → IsSound c
    → lookup n c.entries ≡ some e
    → All (λ i. i.now < e) is
    → lookup n (after c is).entries ≡ some e
unfolding after
lookup-after c n e [] s there early = there
lookup-after c n e (i ∷ is) s there early =
    lookup-after (apply c i).0 n e is (insert-IsSound c i.nonce i.expires_at i.now s)
      (lookup-apply c n e i s there early.0) early.1

-- On a cache of any capacity, after any insertions: a nonce accepted with time `e` is refused by
-- every insertion at a time before `e`, if all insertions in between happen before `e` too.
pub accepted_once :
    (capacity : ℕ) (before between : List Insertion) (first again : Insertion) {c : ReplayCache}
    → new capacity ≡ ok c
    → (apply (after c before) first).1 ≡ true
    → All (λ i. i.now < first.expires_at) between
    → again.nonce ≡ first.nonce
    → again.now < first.expires_at
    → (apply (after (apply (after c before) first).0 between) again).1 ≡ false
accepted_once capacity before between first again {c} made accepted early same soon =
    let c₁ : ReplayCache = after c before in
    let s₁ : IsSound c₁ = after-IsSound c before (new-IsSound capacity made) in
    let c₂ : ReplayCache = (apply c₁ first).0 in
    let s₂ : IsSound c₂ = insert-IsSound c₁ first.nonce first.expires_at first.now s₁ in
    let there : lookup first.nonce c₂.entries ≡ some first.expires_at =
      kept-some (lookup first.nonce c₂.entries) first.now (
        ground (
          arith,
          insert-live c₁ first.nonce first.expires_at first.now first.nonce s₁,
          accepted,
          bytes_eq_refl first.nonce,
        )) in
    let c₃ : ReplayCache = after c₂ between in
    let still : lookup again.nonce c₃.entries ≡ some first.expires_at =
      ap (λ n. lookup n c₃.entries) same
      ∙ lookup-after c₂ first.nonce first.expires_at between s₂ there early in
    insert-answer c₃ again.nonce again.expires_at again.now (after-IsSound c₂ between s₂)
    ∙ ground (arith, still)

capacity-after :
    (c : ReplayCache) (is : List Insertion) → IsSound c → (after c is).capacity ≡ c.capacity
unfolding after
capacity-after c [] s = refl
capacity-after c (i ∷ is) s =
    capacity-after (apply c i).0 is (insert-IsSound c i.nonce i.expires_at i.now s)
    ∙ capacity-insert c i.nonce i.expires_at i.now s

-- Whatever is inserted, a cache made for a capacity never holds more entries than that.
pub capacity_holds :
    (capacity : ℕ) (is : List Insertion) {c : ReplayCache}
    → new capacity ≡ ok c
    → length (after c is).entries ≤ capacity
unfolding new
capacity_holds capacity is {c} made =
    let sound : IsSound c = new-IsSound capacity made in
    let asked : c.capacity ≡ capacity = ground arith in
    omega (arith, (after-IsSound c is sound).bounded, capacity-after c is sound, asked)
