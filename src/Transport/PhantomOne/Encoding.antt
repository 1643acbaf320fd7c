-- ===== src/Transport/PhantomOne/Encoding.antt =====
-- What a written envelope says of the encoder, and what all the encoder's writes preserve.
use shph.Prelude.{
  ℕ, ◌+◌, ◌-◌, ◌≤◌, ◌≡◌, false, not, ◌&&◌, some, List, [], ◌++◌, length, arith, ok, err, ShphError,
  Option-cases, Result-cases, inl, inr,
}
use shph.Obfuscation.{accepts_frame_len}
use shph.Transport.PhantomOne.{
  PhantomOneFrameType, header_bytes, validate, validate_path_mtu, validate_payload_length,
}
use shph.Transport.PhantomOne.Encoder.{StdRng, PhantomOneEncoder, remaining_padding}
use shph.Transport.PhantomOne.Envelope.{
  checked_sequence, header, following, counted, encode_with_target_into,
}

-- The conditions under which a frame is written.
pub record Allowed {S : Type 0} (e : PhantomOneEncoder S) (n target path_mtu : ℕ) (sequence : ℕ)
    : Type 0 where
  pub valid : validate e.config ≡ ok tt
  pub routed : validate_path_mtu path_mtu ≡ ok tt
  pub fits : validate_payload_length n ≡ ok tt
  pub numbered : e.next_sequence ≡ some sequence
  pub holds : header_bytes + n ≤ target
  pub within_path : target ≤ path_mtu
  pub padded : e.config.min_padding ≤ target - (header_bytes + n)
  pub bounded : target - (header_bytes + n) ≤ e.config.max_padding
  pub budgeted : target - (header_bytes + n) ≤ remaining_padding e
  pub canonical : e.config.profile_bound && not (accepts_frame_len e.config.profile target) ≡ false

pub checked-Allowed :
    {S : Type 0} (e : PhantomOneEncoder S) (n target path_mtu : ℕ) {sequence : ℕ}
    → checked_sequence e n target path_mtu ≡ ok sequence
    → Allowed e n target path_mtu sequence
unfolding checked_sequence
checked-Allowed e n target path_mtu {sequence} h = elim (Option-cases e.next_sequence) [
  | inl missing ↦ absurd (ground (arith, missing))
  | inr (s, numbered) ↦ record {
    valid = ground arith;
    routed = ground arith;
    fits = ground arith;
    numbered = ground (arith, numbered);
    holds = ground arith;
    within_path = ground arith;
    padded = ground arith;
    bounded = ground arith;
    budgeted = ground arith;
    canonical = ground arith;
  }
]

-- The encoder after a frame, and the frame.
pub record Written {S : Type 0} (e : PhantomOneEncoder S) (frame_type : PhantomOneFrameType)
    (payload : List ℕ) (target path_mtu : ℕ) (e' : PhantomOneEncoder S) (envelope : List ℕ)
    : Type 0 where
  pub sequence : ℕ
  pub padding : List ℕ
  pub allowed : Allowed e (length payload) target path_mtu sequence
  pub tail : length padding ≡ target - (header_bytes + length payload)
  pub bytes :
      envelope
      ≡ header e.config e.generation frame_type sequence (length payload) target
        ++ (payload ++ padding)
  pub config : e'.config ≡ e.config
  pub generation : e'.generation ≡ e.generation
  pub next : e'.next_sequence ≡ following sequence
  pub metrics :
      e'.metrics ≡ counted e.metrics (length payload) (target - (header_bytes + length payload))

module _ {S : Type 0} (rng : StdRng S) where
  pub encode-Written :
      (e : PhantomOneEncoder S) (frame_type : PhantomOneFrameType) (payload : List ℕ)
      (target path_mtu : ℕ) {e' : PhantomOneEncoder S} {envelope : List ℕ}
      → encode_with_target_into rng e frame_type payload target path_mtu ≡ (e', envelope, ok tt)
      → Written e frame_type payload target path_mtu e' envelope
  unfolding encode_with_target_into
  encode-Written e frame_type payload target path_mtu {e'} {envelope} h =
      elim (Result-cases (checked_sequence e (length payload) target path_mtu)) [
        | inr (why, refused) ↦ absurd (ground (arith, refused))
        | inl (sequence, passed) ↦
            let need = target - (header_bytes + length payload) in
            elim (Option-cases (rng.try_fill_bytes e.rng need).1) [
              | inl empty ↦ absurd (ground (arith, passed, empty))
              | inr (padding, full) ↦ record {
                sequence = sequence;
                padding = padding;
                allowed = checked-Allowed e (length payload) target path_mtu passed;
                tail = rng.filled e.rng need full;
                bytes = ground (arith, passed, full);
                config = ground (arith, passed, full);
                generation = ground (arith, passed, full);
                next = ground (arith, passed, full);
                metrics = ground (arith, passed, full);
              }
            ]
      ]

  -- A refused frame leaves an empty buffer and an encoder in which at most the state of the generator
  -- has changed.
  pub encode_refused :
      (e : PhantomOneEncoder S) (frame_type : PhantomOneFrameType) (payload : List ℕ)
      (target path_mtu : ℕ) {e' : PhantomOneEncoder S} {envelope : List ℕ} {why : ShphError}
      → encode_with_target_into rng e frame_type payload target path_mtu ≡ (e', envelope, err why)
      → (envelope ≡ []) × (e' ≡ record e { rng = e'.rng })
  unfolding encode_with_target_into
  encode_refused e frame_type payload target path_mtu {e'} {envelope} {why} h =
      elim (Result-cases (checked_sequence e (length payload) target path_mtu)) [
        | inr (reason, refused) ↦ (ground (arith, refused), ground (arith, refused))
        | inl (sequence, passed) ↦
            let need = target - (header_bytes + length payload) in
            elim (Option-cases (rng.try_fill_bytes e.rng need).1) [
              | inl empty ↦ (ground (arith, passed, empty), ground (arith, passed, empty))
              | inr (padding, full) ↦ absurd (ground (arith, passed, full))
            ]
      ]
