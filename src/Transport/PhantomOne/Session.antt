-- ===== src/Transport/PhantomOne/Session.antt =====
-- An encoder and a decoder of one session.
use shph.Prelude.{
  ℕ, ◌+◌, ◌-◌, ◌≤◌, ◌<◌, ◌^◌, ◌≡◌, refl, sym, ap, ◌∙◌, subst, false, Option, none, some, List,
  length, ltb, arith, ok, inl, inr, u64_max, Bool-cases,
}
use shph.Transport.PhantomOne.{PhantomOneFrameType, validate}
use shph.Transport.PhantomOne.Encoder.{PhantomOneEncoder, remaining_padding, remaining_under}
use shph.Transport.PhantomOne.Envelope.{following, counted}
use shph.Transport.PhantomOne.Decoder.{
  PhantomOneDecoder, next_padding_bytes, over_budget, accept_sequence, accept_from, accept_newer,
  accept_parts, decode,
}
use shph.Transport.PhantomOne.Encoding.{Written}
use shph.Transport.PhantomOne.RoundTrip.{IsWide, frame_of, decode_parts-written, to_frame-written}

-- Every number the decoder has seen is one the encoder has used.
abbrev pub Behind : Option ℕ → Option ℕ → Type 0
Behind none next = Unit {0}
Behind (some highest) none = highest ≤ u64_max
Behind (some highest) (some next) = highest < next

-- The padding spent is within the budget, if there is one.
abbrev pub Funded : Option ℕ → ℕ → Type 0
Funded none used = Unit {0}
Funded (some budget) used = used ≤ budget

pub nothing_spent : (o : Option ℕ) → Funded o 0
nothing_spent none = tt
nothing_spent (some budget) = omega arith

pub record InSync {S : Type 0} (e : PhantomOneEncoder S) (d : PhantomOneDecoder) : Type 0 where
  pub generation : d.generation ≡ e.generation
  pub config : d.config ≡ e.config
  pub padding : d.padding_bytes_used ≡ e.metrics.padding_bytes
  pub window : 0 < d.window_size
  pub behind : Behind d.highest_sequence e.next_sequence
  pub funded : Funded e.config.padding_budget e.metrics.padding_bytes

spend_lem :
    (o : Option ℕ) (used n : ℕ)
    → Funded o used
    → n ≤ remaining_under o used
    → (over_budget o (used + n) ≡ false) × Funded o (used + n)
unfolding remaining_under
spend_lem none used n h k = (refl, tt)
spend_lem (some budget) used n h k = (ground arith, omega arith)

Behind-following : (s : ℕ) → s < 2 ^ 64 → Behind (some s) (following s)
Behind-following s h = elim (Bool-cases (ltb s u64_max)) [
  | inl more ↦ rw more (omega arith)
  | inr last ↦ rw last (omega arith)
]

accept_newer-Behind :
    (o : Option ℕ) (d : PhantomOneDecoder) (sequence : ℕ)
    → Behind o (some sequence)
    → (d' : PhantomOneDecoder) × (accept_from o d sequence ≡ ok d')
      × (d'.highest_sequence ≡ some sequence)
      × (d'.window_size ≡ d.window_size)
      × (d'.config ≡ d.config)
      × (d'.generation ≡ d.generation)
unfolding accept_from accept_newer
accept_newer-Behind none d sequence h = (_, refl, refl, refl, refl, refl)
accept_newer-Behind (some highest) d sequence h =
    (accept_newer d highest sequence, ground arith, refl, refl, refl, refl)

module _ {S : Type 0} (e e' : PhantomOneEncoder S) (frame_type : PhantomOneFrameType)
    (payload : List ℕ) (target path_mtu : ℕ) (envelope : List ℕ) (wide : IsWide e)
    (room : e.metrics.padding_bytes + 4096 ≤ u64_max)
    (w : Written e frame_type payload target path_mtu e' envelope) where
  unfoldable pub spent : ℕ
  spent = target - (24 + length payload)

  pub spent_bound : spent ≤ 4096
  unfolding spent validate
  spent_bound = ground (arith, w.allowed.bounded, w.allowed.valid)

  sequence_bound : w.sequence < 2 ^ 64
  sequence_bound = wide.sequence w.sequence w.allowed.numbered

  pub metrics_after : e'.metrics.padding_bytes ≡ e.metrics.padding_bytes + spent
  unfolding spent counted
  metrics_after = ap (λ m. m.padding_bytes) w.metrics ∙ omega (arith, spent_bound)

  pub IsWide-after : IsWide e'
  IsWide-after = record {
    generation = omega (arith, w.generation, wide.generation);
    sequence = λ s h. ground (arith, w.next, sequence_bound);
  }

  module _ (d : PhantomOneDecoder) (sync : InSync e d) where
    pub decode_step :
        (d' : PhantomOneDecoder) × (decode d envelope path_mtu
          ≡ ok (d', frame_of e.config e.generation frame_type w.sequence payload target))
        × InSync e' d'
    unfolding decode accept_parts next_padding_bytes accept_sequence spent remaining_padding
    decode_step =
        let (accepted, taken, top, size, kept, dated) =
          accept_newer-Behind d.highest_sequence d w.sequence
            (subst (Behind d.highest_sequence) w.allowed.numbered sync.behind) in
        let (within_budget, funded) =
          spend_lem e.config.padding_budget e.metrics.padding_bytes spent sync.funded
            w.allowed.budgeted in
        let counter : ltb u64_max (e.metrics.padding_bytes + spent) ≡ false =
          ground (arith, spent_bound, room) in
        (
          record accepted { padding_bytes_used = e.metrics.padding_bytes + spent },
          simp (
            sync.generation,
            sync.config,
            sync.padding,
            decode_parts-written e e' frame_type payload target path_mtu envelope wide w,
            counter,
            within_budget,
            taken,
            to_frame-written e e' frame_type payload target path_mtu envelope wide w,
          ),
          record {
            generation = dated ∙ sync.generation ∙ sym w.generation;
            config = kept ∙ sync.config ∙ sym w.config;
            padding = sym metrics_after;
            window = omega (arith, size, sync.window);
            behind = rw top (rw w.next (Behind-following w.sequence sequence_bound));
            funded = rw w.config (rw metrics_after funded);
          },
        )
