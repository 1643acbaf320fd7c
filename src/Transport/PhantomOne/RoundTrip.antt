-- ===== src/Transport/PhantomOne/RoundTrip.antt =====
-- The decoder reads back what the encoder wrote.
use shph.Prelude.{
  ℕ, ◌+◌, ◌-◌, ◌<◌, ◌^◌, ◌≡◌, refl, true, false, not, ◌||◌, some, List, ◌++◌, length, take, drop,
  get_or, any, bytes_eq, ltb, ◌==◌, arith, eq→==, ltb-false, ok, ap, ◌∙◌, length-append,
  take-append,
}
use shph.Prelude.Bytes.{be_bytes, be_value-be_bytes}
use shph.Obfuscation.{id}
use shph.Obfuscation.Tiers.{from_id-id}
use shph.Transport.PhantomOne.{
  PhantomOneConfig, PhantomOneFrameType, PhantomOneFrame, header_bytes, validate_path_mtu,
  frame_type_try_from, type_byte, data_frame, control_frame, keepalive_frame, magic,
}
use shph.Transport.PhantomOne.Encoder.{PhantomOneEncoder}
use shph.Transport.PhantomOne.Envelope.{header}
use shph.Transport.PhantomOne.Wire.{DecodedPhantomOneParts, decode_parts, to_frame, field}
use shph.Transport.PhantomOne.Encoding.{Allowed, Written}

frame_type-type_byte : (t : PhantomOneFrameType) → frame_type_try_from (type_byte t) ≡ ok t
unfolding frame_type_try_from
frame_type-type_byte data_frame = refl
frame_type-type_byte control_frame = refl
frame_type-type_byte keepalive_frame = refl

-- What each field of a datagram reads as, and what stands behind the header.
record Reads (d : List ℕ) (c : PhantomOneConfig) (generation : ℕ) (frame_type : PhantomOneFrameType)
    (sequence n target : ℕ) (rest : List ℕ) : Type 0 where
  marked : bytes_eq (take 4 d) magic ≡ true
  versioned : get_or d 4 0 ≡ 1
  tiered : get_or d 5 0 ≡ id c.profile
  dated : field d 6 4 ≡ generation
  typed : get_or d 10 0 ≡ type_byte frame_type
  ordered : field d 11 8 ≡ sequence
  measured : field d 19 2 ≡ n
  sized : field d 21 2 ≡ target
  reserved : any (λ byte. not (byte == 0)) (take 1 (drop 23 d)) ≡ false
  behind : drop 24 d ≡ rest
  long : length d ≡ 24 + length rest

header-Reads :
    (c : PhantomOneConfig) (generation : ℕ) (frame_type : PhantomOneFrameType)
    (sequence n target : ℕ) (rest : List ℕ)
    → generation < 2 ^ 32
    → sequence < 2 ^ 64
    → n < 65536
    → target < 65536
    → Reads
        (header c generation frame_type sequence n target ++ rest)
        c
        generation
        frame_type
        sequence
        n
        target
        rest
unfolding header be_bytes
header-Reads c generation frame_type sequence n target rest g s p t = record {
  marked = refl;
  versioned = refl;
  tiered = refl;
  dated = be_value-be_bytes 4 generation (omega arith);
  typed = refl;
  ordered = be_value-be_bytes 8 sequence (omega arith);
  measured = be_value-be_bytes 2 n (omega arith);
  sized = be_value-be_bytes 2 target (omega arith);
  reserved = refl;
  behind = refl;
  long = omega arith;
}

-- What the header of an allowed frame is read as.
abbrev pub parts_of :
    PhantomOneConfig → ℕ → PhantomOneFrameType → ℕ → ℕ → ℕ → DecodedPhantomOneParts
parts_of c generation frame_type sequence n target = record {
  profile = c.profile;
  generation = generation;
  frame_type = frame_type;
  sequence = sequence;
  payload_len = n;
  target_len = target;
  padding_len = target - (header_bytes + n);
  payload_end = header_bytes + n;
}

abbrev pub frame_of : PhantomOneConfig → ℕ → PhantomOneFrameType → ℕ → List ℕ → ℕ → PhantomOneFrame
frame_of c generation frame_type sequence payload target = record {
  profile = c.profile;
  generation = generation;
  frame_type = frame_type;
  sequence = sequence;
  payload = payload;
  target_len = target;
  padding_len = target - (header_bytes + length payload);
}

module _ {S : Type 0} (e : PhantomOneEncoder S) (frame_type : PhantomOneFrameType)
    (n target path_mtu sequence : ℕ) (d rest : List ℕ) (a : Allowed e n target path_mtu sequence)
    (r : Reads d e.config e.generation frame_type sequence n target rest)
    (tail : length rest ≡ target - header_bytes) where
  path_fits : (ltb (length d) header_bytes || ltb path_mtu (length d)) ≡ false
  path_fits = ground (arith, r.long, tail, a.within_path, a.holds)

  same_length : (target == length d) ≡ true
  same_length = ground (arith, r.long, tail, a.holds)

  padding_fits :
      (ltb (target - (header_bytes + n)) e.config.min_padding
        || ltb e.config.max_padding (target - (header_bytes + n)))
      ≡ false
  padding_fits = ground (arith, a.padded, a.bounded)

  decode_parts-Reads :
      decode_parts d e.generation path_mtu e.config
      ≡ ok (parts_of e.config e.generation frame_type sequence n target)
  unfolding decode_parts
  decode_parts-Reads = simp (
    a.valid,
    a.routed,
    path_fits,
    r.marked,
    r.versioned,
    r.tiered,
    (from_id-id e.config.profile 0).0,
    eq→== (id e.config.profile) (id e.config.profile) refl,
    r.dated,
    eq→== e.generation e.generation refl,
    r.typed,
    frame_type-type_byte frame_type,
    r.ordered,
    r.measured,
    r.sized,
    r.reserved,
    same_length,
    ltb-false path_mtu target a.within_path,
    a.fits,
    ltb-false target (header_bytes + n) a.holds,
    padding_fits,
    a.canonical,
  )

-- The numbers of an encoder fit their fields.
pub record IsWide {S : Type 0} (e : PhantomOneEncoder S) : Type 0 where
  pub generation : e.generation < 2 ^ 32
  pub sequence : (s : ℕ) → e.next_sequence ≡ some s → s < 2 ^ 64

module _ {S : Type 0} (e e' : PhantomOneEncoder S) (frame_type : PhantomOneFrameType)
    (payload : List ℕ) (target path_mtu : ℕ) (envelope : List ℕ) (wide : IsWide e)
    (w : Written e frame_type payload target path_mtu e' envelope) where
  path_small : target < 65536
  unfolding validate_path_mtu
  path_small = ground (arith, w.allowed.routed, w.allowed.within_path)

  rest_length : length (payload ++ w.padding) ≡ target - header_bytes
  rest_length = omega (arith, length-append payload w.padding, w.tail, w.allowed.holds)

  written-Reads :
      Reads envelope e.config e.generation frame_type w.sequence
        (length payload)
        target
        (payload ++ w.padding)
  written-Reads = rw w.bytes (
      header-Reads e.config e.generation frame_type w.sequence (length payload) target
        (payload ++ w.padding) wide.generation (wide.sequence w.sequence w.allowed.numbered)
        (omega (arith, w.allowed.holds, path_small)) path_small)

  pub length-written : length envelope ≡ target
  length-written = omega (arith, written-Reads.long, rest_length, w.allowed.holds)

  pub decode_parts-written :
      decode_parts envelope e.generation path_mtu e.config
      ≡ ok (parts_of e.config e.generation frame_type w.sequence (length payload) target)
  decode_parts-written =
      decode_parts-Reads e frame_type (length payload) target path_mtu w.sequence envelope
        (payload ++ w.padding) w.allowed written-Reads rest_length

  pub to_frame-written :
      to_frame
        (parts_of e.config e.generation frame_type w.sequence (length payload) target)
        envelope
      ≡ frame_of e.config e.generation frame_type w.sequence payload target
  unfolding to_frame
  to_frame-written =
      let n = length payload in
      ap (frame_with e.config e.generation frame_type w.sequence target n) (
        ap (take (header_bytes + n - header_bytes)) written-Reads.behind
        ∙ take-append (header_bytes + n - header_bytes) payload w.padding (omega arith))
    where
      frame_with : PhantomOneConfig → ℕ → PhantomOneFrameType → ℕ → ℕ → ℕ → List ℕ → PhantomOneFrame
      frame_with c generation frame_type sequence target n payload = record {
        profile = c.profile;
        generation = generation;
        frame_type = frame_type;
        sequence = sequence;
        payload = payload;
        target_len = target;
        padding_len = target - (header_bytes + n);
      }

  -- The number that the envelope carries.
  pub sequence-written : field envelope 11 8 ≡ w.sequence
  sequence-written = written-Reads.ordered
