-- ===== src/Edge/ReplayCache/Prune.antt =====
-- Pruning removes exactly the entries that have expired.
use shph.Prelude.{
  ℕ, zero, suc, ◌≤◌, ◌<◌, ◌≡◌, refl, sym, ◌∙◌, ap, Bool, true, false, ◌&&◌, Option, none, some,
  List, [], ◌∷◌, length, bytes_eq, bytes_eq→eq, ltb, ◌==◌, if◌then◌else◌, arith, Bool-cases, inl,
  inr, Option-cases, subst,
}
use shph.Edge.ReplayCache.{ReplayCache, forget, prune_loop, prune}
use shph.Edge.ReplayCache.Nonces.{lookup, lookup-without, length-without-le}
use shph.Edge.ReplayCache.Heap.{has, pop_least, Popped, PoppedFrom, pop_least-PoppedFrom}

-- Every entry of the map stands in the heap with its time; the heap may also hold others.
abbrev pub Indexed : ReplayCache → Type 0
Indexed c = (n : List ℕ) (e : ℕ) → lookup n c.entries ≡ some e → has c.expirations e n ≡ true

-- What pruning keeps of an entry.
abbrev pub kept : Option ℕ → ℕ → Option ℕ
kept none now = none
kept (some e) now = if ltb now e then some e else none

abbrev is_time : Option ℕ → ℕ → Bool
is_time none e = false
is_time (some t) e = t == e

lookup-forget :
    (m : List (List ℕ × ℕ)) (k : List ℕ) (e : ℕ) (n : List ℕ)
    → lookup n (forget m k e)
      ≡ (if bytes_eq k n && is_time (lookup n m) e then none else lookup n m)
unfolding forget lookup
lookup-forget m k e n = elim (Option-cases (lookup k m)) [
  | inl gone ↦
      rw (gone, forget)
        (ground
          (arith, gone, λ (h : bytes_eq k n ≡ true). ap (λ t. lookup t m) (bytes_eq→eq k n h)))
  | inr (t, there) ↦
      rw (there, forget)
        (ground (
          arith,
          there,
          lookup-without k n m,
          λ (h : bytes_eq k n ≡ true). ap (λ t. lookup t m) (bytes_eq→eq k n h),
        ))
]

length-forget-le : (m : List (List ℕ × ℕ)) (k : List ℕ) (e : ℕ) → length (forget m k e) ≤ length m
unfolding forget
length-forget-le m k e = elim (Option-cases (lookup k m)) [
  | inl gone ↦ rw (gone, forget) (omega arith)
  | inr (t, there) ↦ rw (there, forget) (ground (arith, length-without-le k m))
]

-- `c'` is `c` without its expired entries.
pub record Pruned (c : ReplayCache) (now : ℕ) (c' : ReplayCache) : Type 0 where
  pub looks : (n : List ℕ) → lookup n c'.entries ≡ kept (lookup n c.entries) now
  pub indexed : Indexed c'
  pub capacity : c'.capacity ≡ c.capacity
  pub shrinks : length c'.entries ≤ length c.entries

kept_live : (o : Option ℕ) (now : ℕ) → ((e : ℕ) → o ≡ some e → now < e) → kept o now ≡ o
kept_live none now h = refl
kept_live (some e) now h = ground (arith, h e refl)

-- A cache whose heap holds no time up to `now` is pruned already.
Pruned-self :
    (c : ReplayCache) (now : ℕ)
    → Indexed c
    → ((e : ℕ) (n : List ℕ) → has c.expirations e n ≡ true → now < e)
    → Pruned c now c
Pruned-self c now ix later = record {
  looks = λ n. sym (kept_live (lookup n c.entries) now (λ e h. later e n (ix n e h)));
  indexed = ix;
  capacity = refl;
  shrinks = omega arith;
}

has-empty : (h : List (ℕ × List ℕ)) (e : ℕ) (n : List ℕ) → h ≡ [] → has h e n ≡ false
has-empty h e n z = ap (λ l. has l e n) z ∙ (unfold has in refl)

forgotten : ReplayCache → ℕ → List ℕ → List (ℕ × List ℕ) → ReplayCache
forgotten c s m rest = record c { entries = forget c.entries m s; expirations = rest }

forgotten-Indexed :
    (c : ReplayCache) (s : ℕ) (m : List ℕ) (rest : List (ℕ × List ℕ))
    → Indexed c
    → Popped c.expirations s m rest
    → Indexed (forgotten c s m rest)
unfolding forgotten
forgotten-Indexed c s m rest ix p n e h =
    ground (arith, lookup-forget c.entries m s n, ix n e, p.same e n)

-- Forgetting an expired entry is seen by no pruned view.
forgotten-Pruned :
    (c c' : ReplayCache) (now s : ℕ) (m : List ℕ) (rest : List (ℕ × List ℕ))
    → s ≤ now
    → Pruned (forgotten c s m rest) now c'
    → Pruned c now c'
unfolding forgotten
forgotten-Pruned c c' now s m rest old p = record {
  looks = λ n.
      p.looks n
      ∙ ap (λ o. kept o now) (lookup-forget c.entries m s n)
      ∙ kept_forgotten (lookup n c.entries) (bytes_eq m n);
  indexed = p.indexed;
  capacity = p.capacity;
  shrinks = omega (arith, p.shrinks, length-forget-le c.entries m s);
}
  where
    kept_forgotten :
        (o : Option ℕ) (b : Bool) → kept (if b && is_time o s then none else o) now ≡ kept o now
    kept_forgotten none b = ground arith
    kept_forgotten (some t) b = ground arith

empty_of_short : (h : List (ℕ × List ℕ)) → length h ≤ 0 → h ≡ []
empty_of_short [] e = refl
empty_of_short (x ∷ h) e = absurd (omega arith)

prune_loop-Pruned :
    (fuel : ℕ) (c : ReplayCache) (now : ℕ)
    → length c.expirations ≤ fuel
    → Indexed c
    → Pruned c now (prune_loop fuel c now)
unfolding prune_loop forgotten
prune_loop-Pruned zero c now short ix = Pruned-self c now ix λ e n h.
    absurd (ground (arith, has-empty c.expirations e n (empty_of_short c.expirations short)))
prune_loop-Pruned (suc fuel) c now short ix = elim (Option-cases (pop_least c.expirations)) [
  | inl none_left ↦
      let empty : c.expirations ≡ [] =
        subst (PoppedFrom c.expirations) none_left (pop_least-PoppedFrom c.expirations) in
      rw (none_left, prune_loop)
        (Pruned-self c now ix λ e n h. absurd (ground (arith, has-empty c.expirations e n empty)))
  | inr (((s, m), rest), popped) ↦
      let p : Popped c.expirations s m rest =
        subst (PoppedFrom c.expirations) popped (pop_least-PoppedFrom c.expirations) in
      rw (popped, prune_loop)
        (elim (Bool-cases (ltb now s)) [
          | inl live ↦ rw live (Pruned-self c now ix λ e n h. ground (arith, p.least e n h))
          | inr dead ↦ rw dead (
              forgotten-Pruned c _ now s m rest (ground arith) (
                prune_loop-Pruned fuel (forgotten c s m rest) now (omega (arith, p.shorter))
                  (forgotten-Indexed c s m rest ix p)))
        ])
]

-- Pruning removes from the map exactly the entries whose time is not later than `now`; what stays
-- is still indexed by the heap.
pub prune-Pruned : (c : ReplayCache) (now : ℕ) → Indexed c → Pruned c now (prune c now)
unfolding prune
prune-Pruned c now ix = prune_loop-Pruned (length c.expirations) c now (omega arith) ix
