-- ===== src/Transport/PhantomOne/Once.antt =====
-- A decoder over many frames: its verdicts, and that no sequence number is delivered twice.
use shph.Prelude.{
  ℕ, ◌-◌, ◌≤◌, ◌<◌, ◌≡◌, refl, sym, ap, ◌∙◌, subst, Bool, true, false, List, [], ◌∷◌, arith, ok,
  err, Result-cases, inl, inr,
}
use shph.Core.Window.History.{verdicts}
use shph.Transport.PhantomOne.{PhantomOneConfig, PhantomOneFrame}
use shph.Transport.PhantomOne.Wire.{decode_parts, to_frame}
use shph.Transport.PhantomOne.Decoder.{
  PhantomOneDecoder, fresh_decoder, with_config_and_window, next_padding_bytes, accept_sequence,
  accept_parts, decode,
}
use shph.Transport.PhantomOne.Replay.{Represents, accepted-Represents, refused_stale}

-- The verdicts on a sequence of numbers; a refused number leaves the decoder as it is.
unfoldable pub accept_all : PhantomOneDecoder → List ℕ → List Bool
accept_all d [] = []
accept_all d (n ∷ ns) = elim (accept_sequence d n) [
  | ok d' ↦ true ∷ accept_all d' ns
  | err why ↦ false ∷ accept_all d ns
]

pub accept_all-verdicts :
    (d : PhantomOneDecoder) (seen ns : List ℕ)
    → Represents d seen
    → accept_all d ns ≡ verdicts (d.window_size - 1) seen ns
unfolding accept_all verdicts
accept_all-verdicts d seen [] r = refl
accept_all-verdicts d seen (n ∷ ns) r = elim (Result-cases (accept_sequence d n)) [
  | inl (d', taken) ↦
      let (fresh, r', same) = accepted-Represents d seen n r d' taken in
      ground (
        arith,
        taken,
        fresh,
        accept_all-verdicts d' (n ∷ seen) ns r',
        ap (λ w. verdicts (w - 1) (n ∷ seen) ns) same,
      )
  | inr (why, refused) ↦
      ground (arith, refused, refused_stale d seen n r why refused, accept_all-verdicts d seen ns r)
]

pub fresh-Represents :
    (generation : ℕ) (c : PhantomOneConfig) (w : ℕ) {d : PhantomOneDecoder}
    → with_config_and_window generation c w ≡ ok d
    → Represents d [] × (d.window_size ≡ w)
unfolding with_config_and_window
fresh-Represents generation c w {d} h =
    let same : d ≡ fresh_decoder generation c w = ground arith in
    let small : (0 < w) × (w ≤ 64) = (ground arith, ground arith) in
    (
      subst (λ t. Represents t []) (sym same)
          (record { some_window = small.0; one_word = small.1; maps = refl }),
      ap (λ t. t.window_size) same,
    )

-- A new decoder accepts a sequence of numbers exactly as a history does that refuses what it holds and
-- what lies a whole window below the newest number.
pub accept_all_refines :
    (generation : ℕ) (c : PhantomOneConfig) (w : ℕ) (ns : List ℕ) {d : PhantomOneDecoder}
    → with_config_and_window generation c w ≡ ok d
    → accept_all d ns ≡ verdicts (w - 1) [] ns
accept_all_refines generation c w ns {d} h =
    let (r, same) = fresh-Represents generation c w {d = d} h in
    accept_all-verdicts d [] ns r ∙ ap (λ t. verdicts (t - 1) [] ns) same

-- A decoded frame: its number was accepted, and the window that follows stands for it too.
pub decode-accepts :
    (d d' : PhantomOneDecoder) (datagram : List ℕ) (path_mtu : ℕ) (frame : PhantomOneFrame)
    → decode d datagram path_mtu ≡ ok (d', frame)
    → (accepted : PhantomOneDecoder) × (accept_sequence d frame.sequence ≡ ok accepted)
      × (d'.window_size ≡ accepted.window_size)
      × (d'.seen_bitmap ≡ accepted.seen_bitmap)
      × (d'.highest_sequence ≡ accepted.highest_sequence)
unfolding decode accept_parts to_frame
decode-accepts d d' datagram path_mtu frame h =
    elim (Result-cases (decode_parts datagram d.generation path_mtu d.config)) [
      | inr (why, bad) ↦ absurd (ground (arith, bad))
      | inl (parts, good) ↦ elim (Result-cases (next_padding_bytes d parts.padding_len)) [
        | inr (why, over) ↦ absurd (ground (arith, good, over))
        | inl (next, room) ↦ elim (Result-cases (accept_sequence d parts.sequence)) [
          | inr (why, refused) ↦ absurd (ground (arith, good, room, refused))
          | inl (accepted, taken) ↦
              let same : parts.sequence ≡ frame.sequence = ground (arith, good, room, taken) in
              (
                accepted,
                ap (accept_sequence d) (sym same) ∙ taken,
                ground (arith, good, room, taken),
                ground (arith, good, room, taken),
                ground (arith, good, room, taken),
              )
        ]
      ]
    ]
