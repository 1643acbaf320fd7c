-- ===== src/Transport/PhantomOne/Replay.antt =====
-- The 64-bit replay bitmap gives the verdicts of a plain history of accepted sequence numbers.
use Prim.Native.Nat.{bit_and, bit_or}
use shph.Prelude.{
  ℕ, ◌-◌, ◌^◌, ◌≤◌, ◌<◌, ◌≡◌, refl, sym, ap, subst, true, false, not, ◌&&◌, Option, none, some,
  List, [], ◌∷◌, ltb, leb, ◌==◌, if◌then◌else◌, arith, Result, ok, err, ShphError, protocol,
  Bool-cases, inl, inr,
}
use shph.Prelude.Bits.{test_bit, test_bit-le, test_bit-or, test_bit-pow, bit_and-pow}
use shph.Core.Window.History.{contains, newest, accepts, contains-le-newest}
use shph.Transport.PhantomOne.Decoder.{
  PhantomOneDecoder, accept_sequence, accept_from, accept_newer, accept_older,
}
use shph.Transport.PhantomOne.Bitmap.{one_bit, shifted_bit}

-- Bit `k` of the map stands for the number `highest - k`.
abbrev Maps : ℕ → ℕ → ℕ → List ℕ → Type 0
Maps bitmap window_size highest seen =
    (k : ℕ)
    → k < window_size
    → test_bit bitmap k ≡ (if leb k highest && contains seen (highest - k) then 1 else 0)

abbrev MapsFrom : ℕ → ℕ → List ℕ → Option ℕ → Type 0
MapsFrom bitmap window_size seen none = seen ≡ []
MapsFrom bitmap window_size seen (some highest) =
    (highest ≡ newest seen) × (contains seen highest ≡ true) × Maps bitmap window_size highest seen

-- The decoder's window and bitmap stand for the numbers it accepted.
pub record Represents (d : PhantomOneDecoder) (seen : List ℕ) : Type 0 where
  pub some_window : 0 < d.window_size
  pub one_word : d.window_size ≤ 64
  pub maps : MapsFrom d.seen_bitmap d.window_size seen d.highest_sequence

contains_at : (seen : List ℕ) (m n : ℕ) → m ≡ n → contains seen m ≡ contains seen n
contains_at seen m n e = ap (contains seen) e

module _ (d : PhantomOneDecoder) (seen : List ℕ) (n : ℕ) (r : Represents d seen) where
  abbrev Agrees : Result ShphError PhantomOneDecoder → Type 0
  Agrees (ok d') =
      (accepts (d.window_size - 1) seen n ≡ true)
      × Represents d' (n ∷ seen)
      × (d'.window_size ≡ d.window_size)
  Agrees (err why) = accepts (d.window_size - 1) seen n ≡ false

  first_Agrees :
      MapsFrom d.seen_bitmap d.window_size seen none
      → Agrees (ok (record d { highest_sequence = some n; seen_bitmap = 1 }))
  unfolding accepts contains newest
  first_Agrees empty =
      let unseen : (m : ℕ) → contains seen m ≡ false = λ m. ap (λ s. contains s m) empty in
      let oldest : newest seen ≡ 0 = ap newest empty in
      (
        ground (arith, unseen n),
        record {
          some_window = r.some_window;
          one_word = r.one_word;
          maps = (omega arith, ground arith, λ k h. ground (arith, one_bit k, unseen (n - k)));
        },
        refl,
      )

  module _ (highest : ℕ) (top : d.highest_sequence ≡ some highest)
      (m : MapsFrom d.seen_bitmap d.window_size seen (some highest)) where
    newer_bit :
        (k : ℕ)
        → highest < n
        → k < d.window_size
        → test_bit (accept_newer d highest n).seen_bitmap k
          ≡ (if leb k n && contains (n ∷ seen) (n - k) then 1 else 0)
    unfolding accept_newer contains
    newer_bit k h inside =
        let shift = n - highest in
        elim (Bool-cases (leb d.window_size shift)) [
          | inl far ↦ ground (arith, far, one_bit k, contains-le-newest seen (n - k))
          | inr close ↦ ground (
            arith,
            close,
            shifted_bit d.seen_bitmap shift d.window_size k inside r.one_word,
            m.2 (k - shift),
            contains-le-newest seen (n - k),
            contains_at seen (n - k) highest,
            contains_at seen (n - k) (highest - (k - shift)),
          )
        ]

    newer_Agrees : highest < n → Agrees (ok (accept_newer d highest n))
    unfolding accept_newer accepts contains newest
    newer_Agrees h = (
      ground (arith, contains-le-newest seen n),
      record {
        some_window = r.some_window;
        one_word = r.one_word;
        maps = (omega arith, ground arith, λ k inside. newer_bit k h inside);
      },
      refl,
    )

    older_bit :
        n ≤ highest
        → highest - n < d.window_size
        → (not (bit_and d.seen_bitmap (2 ^ (highest - n)) == 0)) ≡ contains seen n
    older_bit h inside = ground (
      arith,
      bit_and-pow d.seen_bitmap (highest - n),
      m.2 (highest - n) inside,
      contains_at seen (highest - (highest - n)) n (omega arith),
    )

    marked_bit :
        (k : ℕ)
        → n ≤ highest
        → k < d.window_size
        → test_bit (bit_or d.seen_bitmap (2 ^ (highest - n))) k
          ≡ (if leb k highest && contains (n ∷ seen) (highest - k) then 1 else 0)
    unfolding contains
    marked_bit k h inside = ground (
      arith,
      test_bit-or d.seen_bitmap (2 ^ (highest - n)) k,
      test_bit-pow (highest - n) k,
      test_bit-le d.seen_bitmap k,
      m.2 k inside,
    )

    marked_Represents :
        n ≤ highest
        → Represents
            (record d { seen_bitmap = bit_or d.seen_bitmap (2 ^ (highest - n)) })
            (n ∷ seen)
    unfolding contains newest
    marked_Represents h = record {
      some_window = r.some_window;
      one_word = r.one_word;
      maps =
          subst (MapsFrom (bit_or d.seen_bitmap (2 ^ (highest - n))) d.window_size (n ∷ seen))
            (sym top) (ground (arith, m.0), ground (arith, m.1), λ k inside. marked_bit k h inside);
    }

    older_Agrees : n ≤ highest → Agrees (accept_older d highest n)
    unfolding accept_older accepts
    older_Agrees h = elim (Bool-cases (leb d.window_size (highest - n))) [
      | inl stale ↦
          let refused : accept_older d highest n
              ≡ err (protocol "Phantom One sequence is outside replay window") =
            ground (arith, stale) in
          subst Agrees (sym refused) (ground (arith, m.0))
      | inr recent ↦
          let bit = older_bit h (ground arith) in
          elim (Bool-cases (contains seen n)) [
            | inl again ↦
                let refused : accept_older d highest n
                    ≡ err (protocol "Phantom One replay detected") =
                  ground (arith, bit, recent, again) in
                subst Agrees (sym refused) (ground (arith, again))
            | inr new ↦
                let taken : accept_older d highest n
                    ≡ ok (record d { seen_bitmap = bit_or d.seen_bitmap (2 ^ (highest - n)) }) =
                  ground (arith, bit, recent, new) in
                subst Agrees (sym taken)
                  (ground (arith, m.0, new, recent, r.some_window), marked_Represents h, refl)
          ]
    ]

  accept_from-Agrees :
      (o : Option ℕ)
      → d.highest_sequence ≡ o
      → MapsFrom d.seen_bitmap d.window_size seen o
      → Agrees (accept_from o d n)
  unfolding accept_from
  accept_from-Agrees none top m = first_Agrees m
  accept_from-Agrees (some highest) top m = elim (Bool-cases (ltb highest n)) [
    | inl above ↦
        let newer : accept_from (some highest) d n ≡ ok (accept_newer d highest n) =
          ground (arith, above) in
        subst Agrees (sym newer) (newer_Agrees highest top m (ground arith))
    | inr below ↦
        let older : accept_from (some highest) d n ≡ accept_older d highest n =
          ground (arith, below) in
        subst Agrees (sym older) (older_Agrees highest top m (ground arith))
  ]

  -- One number: the verdict is that of the history, and the new decoder stands for the new history.
  pub accept_sequence-Agrees : Agrees (accept_sequence d n)
  unfolding accept_sequence
  accept_sequence-Agrees = accept_from-Agrees d.highest_sequence refl r.maps

  pub accepted-Represents :
      (d' : PhantomOneDecoder)
      → accept_sequence d n ≡ ok d'
      → (accepts (d.window_size - 1) seen n ≡ true)
        × Represents d' (n ∷ seen)
        × (d'.window_size ≡ d.window_size)
  accepted-Represents d' taken = subst Agrees taken accept_sequence-Agrees

  pub refused_stale :
      (why : ShphError) → accept_sequence d n ≡ err why → accepts (d.window_size - 1) seen n ≡ false
  refused_stale why refused = subst Agrees refused accept_sequence-Agrees
