-- ===== src/Transport/PhantomOne/Envelope.antt =====
-- The writing of an envelope: `encode_with_target_into` and `encode_into`. The sums of lengths are
-- checked below the bounds first, so no `checked_add` of a length can fail.
use shph.Prelude.{
  ℕ, ◌+◌, ◌-◌, not, ◌&&◌, ◌||◌, Option, none, some, List, [], ◌∷◌, ◌++◌, length, ltb, if◌then◌else◌,
  is_none, Result, ok, err, ◌>>◌, reject_if, ShphError, protocol, crypto, saturating_add, u64_max,
}
use shph.Prelude.Bytes.{be_bytes}
use shph.Obfuscation.{id, accepts_frame_len}
use shph.Transport.PhantomOne.{
  PhantomOneConfig, PhantomOneFrameType, EnvelopeMetrics, magic, version, header_bytes,
  max_envelope_bytes, type_byte, validate, validate_path_mtu, validate_payload_length,
}
use shph.Transport.PhantomOne.Encoder.{
  StdRng, PhantomOneEncoder, exhausted, remaining_padding, target_size,
}

-- The checks of `encode_with_target_into`, which give the sequence number.
unfoldable pub checked_sequence :
    {S : Type 0} → PhantomOneEncoder S → ℕ → ℕ → ℕ → Result ShphError ℕ
checked_sequence e payload_len target_len path_mtu = do
  validate e.config
  validate_path_mtu path_mtu
  validate_payload_length payload_len
  reject_if (is_none e.next_sequence) exhausted
  let minimum = header_bytes + payload_len
  reject_if (ltb target_len minimum)
      (protocol "Phantom One target is smaller than the Phantom One header and payload")
  let padding_len = target_len - minimum
  reject_if
      (ltb path_mtu target_len
        || ltb max_envelope_bytes target_len
        || ltb padding_len e.config.min_padding
        || ltb e.config.max_padding padding_len
        || ltb (remaining_padding e) padding_len)
      (protocol "Phantom One target is outside configured path-MTU bounds")
  reject_if (e.config.profile_bound && not (accepts_frame_len e.config.profile target_len))
      (protocol "Phantom One target is outside the selected profile's canonical size classes")
  reject_if (ltb 65535 target_len) (protocol "Phantom One target length overflow")
  reject_if (ltb 65535 payload_len) (protocol "Phantom One payload length overflow")
  ok (sequence_of e.next_sequence)
  where
    sequence_of : Option ℕ → ℕ
    sequence_of none = 0
    sequence_of (some sequence) = sequence

-- The bytes of the header.
unfoldable pub header : PhantomOneConfig → ℕ → PhantomOneFrameType → ℕ → ℕ → ℕ → List ℕ
header c generation frame_type sequence payload_len target_len =
    magic
    ++ (version ∷ id c.profile ∷ be_bytes 4 generation)
    ++ (type_byte frame_type ∷ be_bytes 8 sequence)
    ++ be_bytes 2 payload_len
    ++ be_bytes 2 target_len
    ++ (0 ∷ [])

-- `sequence.checked_add(1)`
abbrev pub following : ℕ → Option ℕ
following sequence = if ltb sequence u64_max then some (sequence + 1) else none

unfoldable pub counted : EnvelopeMetrics → ℕ → ℕ → EnvelopeMetrics
counted m payload_len padding_len = record {
  frames = saturating_add m.frames 1;
  payload_bytes = saturating_add m.payload_bytes payload_len;
  header_total = saturating_add m.header_total header_bytes;
  padding_bytes = saturating_add m.padding_bytes padding_len;
}

module _ {S : Type 0} (rng : StdRng S) where
  -- The encoder, the buffer that the guard leaves and the answer.
  unfoldable pub encode_with_target_into :
      PhantomOneEncoder S
      → PhantomOneFrameType
      → List ℕ
      → ℕ
      → ℕ
      → PhantomOneEncoder S × List ℕ × Result ShphError (Unit {0})
  encode_with_target_into e frame_type payload target_len path_mtu =
      let minimum = header_bytes + length payload in
      let (s', tail) = rng.try_fill_bytes e.rng (target_len - minimum) in
      elim (checked_sequence e (length payload) target_len path_mtu) [
        | err why ↦ (e, [], err why)
        | ok sequence ↦ elim tail [
          | none ↦ (record e { rng = s' }, [], err (crypto "Phantom One padding randomness failed"))
          | some padding ↦ (
            record e {
              next_sequence = following sequence;
              rng = s';
              metrics = counted e.metrics (length payload) (target_len - minimum);
            },
            header e.config e.generation frame_type sequence (length payload) target_len
                ++ (payload ++ padding),
            ok tt,
          )
        ]
      ]

  -- At the target the session selects; `none` where the code would panic.
  unfoldable pub encode_into :
      PhantomOneEncoder S
      → PhantomOneFrameType
      → List ℕ
      → ℕ
      → Option (PhantomOneEncoder S × List ℕ × Result ShphError (Unit {0}))
  encode_into e frame_type payload path_mtu = elim (target_size rng e (length payload) path_mtu) [
    | none ↦ none
    | some (s', err why) ↦ some (record e { rng = s' }, [], err why)
    | some (s', ok target_len) ↦
        some
          (encode_with_target_into (record e { rng = s' }) frame_type payload target_len path_mtu)
  ]

  abbrev pub bytes_or_error : List ℕ → Result ShphError (Unit {0}) → Result ShphError (List ℕ)
  bytes_or_error envelope (ok _) = ok envelope
  bytes_or_error envelope (err why) = err why

  -- `encode_with_target` and `encode`: into a buffer of their own.
  unfoldable pub encode_with_target :
      PhantomOneEncoder S
      → PhantomOneFrameType
      → List ℕ
      → ℕ
      → ℕ
      → PhantomOneEncoder S × Result ShphError (List ℕ)
  encode_with_target e frame_type payload target_len path_mtu =
      let (e', envelope, answer) =
        encode_with_target_into e frame_type payload target_len path_mtu in
      (e', bytes_or_error envelope answer)

  unfoldable pub encode :
      PhantomOneEncoder S
      → PhantomOneFrameType
      → List ℕ
      → ℕ
      → Option (PhantomOneEncoder S × Result ShphError (List ℕ))
  encode e frame_type payload path_mtu = elim (encode_into e frame_type payload path_mtu) [
    | none ↦ none
    | some (e', envelope, answer) ↦ some (e', bytes_or_error envelope answer)
  ]
