-- ===== src/Core/Window/Refine.antt =====
-- The bitmap represents the history of accepted counters, and gives the verdicts of the history.
use shph.Prelude.{
  ℕ, ◌+◌, ◌-◌, ◌*◌, ◌/◌, ◌%◌, ◌≤◌, ◌<◌, ◌≡◌, refl, sym, ap, ap₂, ◌∙◌, Bool, true, false, List, [],
  ◌∷◌, length, ltb, ◌==◌, if◌then◌else◌, arith, Bool-cases, inl, inr, Option, none, some,
  length-replicate, get_or-replicate, ◌&&◌, ◌||◌, subst,
}
use shph.Prelude.Bits.{test_bit, test_bit-zero}
use shph.Core.Window.{
  ReplayWindow, window_words, new, mark, is_marked, insert_below, check_against, check_and_insert,
  advance_bits,
}
use shph.Core.Window.Words.{bit, Narrow, bit-mark, Narrow-mark, is_marked-bit, length-mark}
use shph.Core.Window.Advance.{length-advance_bits, Narrow-advance_bits, bit-advance_bits}
use shph.Core.Window.History.{contains, newest, accepts, verdicts, contains-le-newest}

-- Bit `k` of the map stands for the counter `highest - 1 - k`.
abbrev pub MapsBelow : ReplayWindow → ℕ → List ℕ → Type 0
MapsBelow w highest seen =
    (k : ℕ)
    → k < w.size
    → bit w.bits k ≡ (if ltb k highest && contains seen (highest - 1 - k) then 1 else 0)

abbrev pub MapsFrom : ReplayWindow → List ℕ → Option ℕ → Type 0
MapsFrom w seen none = (seen ≡ []) × ((k : ℕ) → bit w.bits k ≡ 0)
MapsFrom w seen (some highest) =
    (highest ≡ newest seen) × (contains seen highest ≡ true) × MapsBelow w highest seen

pub record Represents (w : ReplayWindow) (seen : List ℕ) : Type 0 where
  pub fits : w.size ≡ length w.bits * 64
  pub some_word : 0 < length w.bits
  pub narrow : Narrow w.bits
  pub maps : MapsFrom w seen w.highest

pub new-Represents : (size : ℕ) → Represents (new size) []
unfolding new
new-Represents size =
    let words : ℕ = window_words size in
    record {
      fits = ap (λ t. t * 64) (sym (length-replicate words 0));
      some_word = omega (arith, length-replicate {A = ℕ} words 0);
      narrow = λ i j.
          ap (λ t. test_bit t (64 + j)) (get_or-replicate words i 0) ∙ test_bit-zero (64 + j);
      maps = (
        refl,
        λ k.
            ap (λ t. test_bit t (k % 64)) (get_or-replicate words (k / 64) 0)
            ∙ test_bit-zero (k % 64),
      );
    }

abbrev pub recorded : List ℕ → ℕ → Bool → List ℕ
recorded seen n fresh = if fresh then n ∷ seen else seen

-- One step: the verdict is that of the history, and the new map represents the new history.
abbrev pub Agrees : ReplayWindow × Bool → ℕ → List ℕ → ℕ → Type 0
Agrees (w, fresh) width seen n =
    (fresh ≡ accepts width seen n) × Represents w (recorded seen n fresh) × (w.size ≡ width)

contains_at : (seen : List ℕ) (m n : ℕ) → m ≡ n → contains seen m ≡ contains seen n
contains_at seen m n e = ap (contains seen) e

module _ (w : ReplayWindow) (seen : List ℕ) (nonce : ℕ) (r : Represents w seen) where
  first_Agrees :
      MapsFrom w seen none → Agrees (record w { highest = some nonce }, true) w.size seen nonce
  unfolding accepts contains newest
  first_Agrees m =
      let unseen : (n : ℕ) → contains seen n ≡ false = λ n. ap (λ s. contains s n) m.0 in
      let oldest : newest seen ≡ 0 = ap newest m.0 in
      (
        ground (arith, unseen nonce),
        record {
          fits = r.fits;
          some_word = r.some_word;
          narrow = r.narrow;
          maps = (omega arith, ground arith, λ k h. ground (arith, m.1 k, unseen (nonce - 1 - k)));
        },
        refl,
      )

  module _ (highest : ℕ) (m : MapsFrom w seen (some highest)) where
    above_bit :
        (k : ℕ)
        → highest < nonce
        → k < w.size
        → bit (advance_bits w.bits w.size (nonce - highest)) k
          ≡ (if ltb k nonce && contains (nonce ∷ seen) (nonce - 1 - k) then 1 else 0)
    unfolding contains
    above_bit k h inside = ground (
      arith,
      bit-advance_bits w.bits w.size (nonce - highest) r.fits r.some_word k (omega arith) r.narrow
          inside,
      m.2 (k - (nonce - highest)),
      contains-le-newest seen (nonce - 1 - k),
      contains_at seen (nonce - 1 - k) highest,
      contains_at seen (nonce - 1 - k) (highest - 1 - (k - (nonce - highest))),
    )

    above_Agrees :
        highest < nonce
        → Agrees
            (
              record w {
                highest = some nonce;
                bits = advance_bits w.bits w.size (nonce - highest);
              },
              true,
            )
            w.size
            seen
            nonce
    unfolding accepts contains newest
    above_Agrees h =
        let gap : ℕ = nonce - highest in
        let same : length (advance_bits w.bits w.size gap) ≡ length w.bits =
          length-advance_bits w.bits w.size gap r.fits r.some_word in
        (
          ground (arith, contains-le-newest seen nonce),
          record {
            fits = omega (arith, same, r.fits);
            some_word = omega (arith, same, r.some_word);
            narrow =
                Narrow-advance_bits w.bits w.size gap r.fits r.some_word (omega arith) r.narrow;
            maps = (omega (arith, m.0), ground arith, λ k inside. above_bit k h inside);
          },
          refl,
        )

    module _ (h : nonce ≤ highest) where
      offset_bit :
          nonce < highest
          → highest - nonce ≤ w.size
          → bit w.bits (highest - nonce - 1) ≡ (if contains seen nonce then 1 else 0)
      offset_bit p q = ground (
        arith,
        m.2 (highest - nonce - 1),
        contains_at seen (highest - 1 - (highest - nonce - 1)) nonce,
      )

      below_bit :
          (k : ℕ)
          → nonce < highest
          → highest - nonce ≤ w.size
          → k < w.size
          → bit (mark w.bits (highest - nonce - 1)) k
            ≡ (if ltb k highest && contains (nonce ∷ seen) (highest - 1 - k) then 1 else 0)
      unfolding contains
      below_bit k p q inside =
          ground (arith, bit-mark w.bits (highest - nonce - 1) k, r.fits, m.2 k inside)

      refused : accepts w.size seen nonce ≡ false → Agrees (w, false) w.size seen nonce
      refused no_entry = (sym no_entry, r, refl)

      marked_Agrees :
          w.highest ≡ some highest
          → nonce < highest
          → highest - nonce ≤ w.size
          → contains seen nonce ≡ false
          → Agrees (record w { bits = mark w.bits (highest - nonce - 1) }, true) w.size seen nonce
      unfolding accepts contains newest
      marked_Agrees e p q unseen =
          let index : ℕ = highest - nonce - 1 in
          let w' : ReplayWindow = record w { bits = mark w.bits index } in
          let inside : index < length w.bits * 64 = omega (arith, r.fits) in
          let below : MapsFrom w' (nonce ∷ seen) (some highest) =
            (omega (arith, m.0), ground (arith, m.1), λ k k_inside. below_bit k p q k_inside) in
          (
            ground (arith, m.0),
            record {
              fits = omega (arith, length-mark w.bits index, r.fits);
              some_word = omega (arith, length-mark w.bits index, r.some_word);
              narrow = Narrow-mark w.bits index inside r.narrow;
              maps = subst (MapsFrom w' (nonce ∷ seen)) (sym e) below;
            },
            refl,
          )

      below_Agrees :
          w.highest ≡ some highest → Agrees (insert_below w (highest - nonce)) w.size seen nonce
      unfolding insert_below
      below_Agrees e = elim (Bool-cases (highest - nonce == 0 || ltb w.size (highest - nonce))) [
        | inl out ↦ rw out (refused (outside out))
        | inr near ↦ rw near (elim (Bool-cases (is_marked w.bits (highest - nonce - 1))) [
          | inl old ↦ rw old (refused (replayed near old))
          | inr fresh ↦
              rw fresh (marked_Agrees e (ground arith) (ground arith) (unmarked near fresh))
        ])
      ]
        where
          outside :
              (highest - nonce == 0 || ltb w.size (highest - nonce)) ≡ true
              → accepts w.size seen nonce ≡ false
          outside out = unfold accepts in ground (arith, m.0, m.1, contains_at seen nonce highest)

          replayed :
              (highest - nonce == 0 || ltb w.size (highest - nonce)) ≡ false
              → is_marked w.bits (highest - nonce - 1) ≡ true
              → accepts w.size seen nonce ≡ false
          replayed near old =
              unfold accepts in
              ground (
                arith,
                is_marked-bit w.bits (highest - nonce - 1),
                offset_bit (ground arith) (ground arith),
              )

          unmarked :
              (highest - nonce == 0 || ltb w.size (highest - nonce)) ≡ false
              → is_marked w.bits (highest - nonce - 1) ≡ false
              → contains seen nonce ≡ false
          unmarked near fresh = ground (
            arith,
            is_marked-bit w.bits (highest - nonce - 1),
            offset_bit (ground arith) (ground arith),
          )

check_against-Agrees :
    (w : ReplayWindow) (seen : List ℕ) (nonce : ℕ) (o : Option ℕ)
    → w.highest ≡ o
    → MapsFrom w seen o
    → Represents w seen
    → Agrees (check_against w nonce o) w.size seen nonce
unfolding check_against
check_against-Agrees w seen nonce none e m r = first_Agrees w seen nonce r m
check_against-Agrees w seen nonce (some highest) e m r = elim (Bool-cases (ltb highest nonce)) [
  | inl above ↦ rw above (above_Agrees w seen nonce r highest m (ground arith))
  | inr below ↦ rw below (below_Agrees w seen nonce r highest m (ground arith) e)
]

-- One call on a window that represents a history gives the verdict of the history, keeps the
-- width, and the new window represents the new history.
pub check_and_insert-Agrees :
    (w : ReplayWindow) (seen : List ℕ) (nonce : ℕ)
    → Represents w seen
    → Agrees (check_and_insert w nonce) w.size seen nonce
unfolding check_and_insert
check_and_insert-Agrees w seen nonce r = check_against-Agrees w seen nonce w.highest refl r.maps r

-- The verdicts of a window on a sequence of counters.
unfoldable pub run : ReplayWindow → List ℕ → List Bool
run w [] = []
run w (n ∷ ns) = let (w', fresh) = check_and_insert w n in fresh ∷ run w' ns

run-verdicts :
    (w : ReplayWindow) (seen ns : List ℕ) → Represents w seen → run w ns ≡ verdicts w.size seen ns
unfolding run verdicts
run-verdicts w seen [] r = refl
run-verdicts w seen (n ∷ ns) r =
    let (w', fresh) = check_and_insert w n in
    let (same, next, width) = check_and_insert-Agrees w seen n r in
    ap₂ ◌∷◌ same (
      run-verdicts w' (recorded seen n fresh) ns next
      ∙ ap₂ (λ size b. verdicts size (recorded seen n b) ns) width same)

-- A new window of any requested size gives, on every sequence of counters, the verdicts of the
-- plain history whose width is the requested size clamped to 64 .. 65536 and rounded up to words.
pub run_refines :
    (size : ℕ) (ns : List ℕ) → run (new size) ns ≡ verdicts (window_words size * 64) [] ns
unfolding new
run_refines size ns = run-verdicts (new size) [] ns (new-Represents size)
