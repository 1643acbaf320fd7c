-- ===== src/Transport/PhantomOne/Reach.antt =====
-- The states a decoder reaches, by decoding frames, into a new buffer or in place, and by `reset`. A refused
-- datagram leaves the state as it is, so it is no step of its own.
use shph.Prelude.{
  ℕ, ◌+◌, ◌-◌, ◌≡◌, ◌≢◌, refl, sym, ap, ◌∙◌, subst, true, not, ◌&&◌, ◌||◌, ltb, ◌==◌, List, [], ◌∷◌,
  length, get_or, take, drop, any, bytes_eq, arith, ok, inl, inr, Result-cases, >>-eq-ok, >>=-eq-ok,
  reject_if, protocol,
}
use shph.Obfuscation.{id, from_id, accepts_frame_len}
use shph.Core.Window.History.{contains, accepts}
use shph.Transport.PhantomOne.{
  PhantomOneConfig, PhantomOneFrame, magic, version, header_bytes, validate, validate_path_mtu,
  validate_payload_length, frame_type_try_from,
}
use shph.Transport.PhantomOne.Wire.{
  DecodedPhantomOneParts, known_profile, decode_parts, to_frame, field,
}
use shph.Transport.PhantomOne.Decoder.{
  PhantomOneDecoder, with_config_and_window, decode, decode_in_place, accept_parts, reset,
}
use shph.Transport.PhantomOne.Replay.{Represents, accepted-Represents}
use shph.Transport.PhantomOne.Once.{decode-accepts, fresh-Represents}

-- A datagram that the decoder takes, the number in bytes 11 to 18 of its header, and the decoder then.
pub data Takes (d : PhantomOneDecoder) : List ℕ → PhantomOneDecoder → Type 0 where
  decoded :
      {d' : PhantomOneDecoder} (datagram : List ℕ) (path_mtu : ℕ) (frame : PhantomOneFrame)
      → decode d datagram path_mtu ≡ ok (d', frame)
      → Takes d datagram d'
  decoded_in_place :
      {d' : PhantomOneDecoder} (datagram : List ℕ) (path_mtu : ℕ) (payload : List ℕ)
      → decode_in_place d datagram path_mtu ≡ ok (d', payload)
      → Takes d datagram d'

-- Any number of datagrams taken, with no reset.
pub data Reaches (start : PhantomOneDecoder) : PhantomOneDecoder → Type 0 where
  here : Reaches start start
  taken :
      {d d' : PhantomOneDecoder}
      → Reaches start d
      → (datagram : List ℕ) → Takes d datagram d'
      → Reaches start d'

-- Any number of datagrams taken, and any number of resets.
pub data Visits (start : PhantomOneDecoder) : PhantomOneDecoder → Type 0 where
  begun : Visits start start
  going :
      {d d' : PhantomOneDecoder}
      → Visits start d
      → (datagram : List ℕ) → Takes d datagram d'
      → Visits start d'
  cleared : {d : PhantomOneDecoder} → Visits start d → Visits start (reset d)

same_window-Represents :
    (d d' : PhantomOneDecoder) (seen : List ℕ)
    → d'.window_size ≡ d.window_size
    → d'.seen_bitmap ≡ d.seen_bitmap
    → d'.highest_sequence ≡ d.highest_sequence
    → Represents d seen
    → Represents d' seen
same_window-Represents d d' seen size bits top r = record {
  some_window = omega (arith, size, r.some_window);
  one_word = omega (arith, size, r.one_word);
  maps = rw size (rw bits (rw top r.maps));
}

pub decode-Represents :
    (d d' : PhantomOneDecoder) (seen datagram : List ℕ) (path_mtu : ℕ) (frame : PhantomOneFrame)
    → Represents d seen
    → decode d datagram path_mtu ≡ ok (d', frame)
    → (accepts (d.window_size - 1) seen frame.sequence ≡ true)
      × Represents d' (frame.sequence ∷ seen)
decode-Represents d d' seen datagram path_mtu frame r h =
    let (accepted, admitted, size, bits, top) = decode-accepts d d' datagram path_mtu frame h in
    let (fresh, r', same) = accepted-Represents d seen frame.sequence r accepted admitted in
    (fresh, same_window-Represents accepted d' (frame.sequence ∷ seen) size bits top r')

-- What `decode_in_place` takes, `decode` takes with the same state after it.
in_place-decode :
    (d d' : PhantomOneDecoder) (datagram : List ℕ) (path_mtu : ℕ) (payload : List ℕ)
    → decode_in_place d datagram path_mtu ≡ ok (d', payload)
    → (frame : PhantomOneFrame) × (decode d datagram path_mtu ≡ ok (d', frame))
unfolding decode decode_in_place
in_place-decode d d' datagram path_mtu payload h =
    elim (Result-cases (decode_parts datagram d.generation path_mtu d.config)) [
      | inr (why, bad) ↦ absurd (ground (arith, bad))
      | inl (parts, good) ↦ elim (Result-cases (accept_parts d parts)) [
        | inr (why, refused) ↦ absurd (ground (arith, good, refused))
        | inl (accepted, fine) ↦ (to_frame parts datagram, ground (arith, good, fine))
      ]
    ]

-- The number that `decode_parts` reads.
parts-sequence :
    (datagram : List ℕ) (generation path_mtu : ℕ) (c : PhantomOneConfig)
    {parts : DecodedPhantomOneParts}
    → decode_parts datagram generation path_mtu c ≡ ok parts
    → parts.sequence ≡ field datagram 11 8
unfolding decode_parts
parts-sequence datagram generation path_mtu c e0 =
    let target_len = field datagram 21 2 in
    let padding_len = target_len - (header_bytes + field datagram 19 2) in
    let (_, e1) = >>-eq-ok (validate c) _ e0 in
    let (_, e2) = >>-eq-ok (validate_path_mtu path_mtu) _ e1 in
    let (_, e3) =
      >>-eq-ok
        (reject_if (ltb (length datagram) header_bytes || ltb path_mtu (length datagram))
          (protocol "Phantom One datagram length is outside path-MTU bounds"))
        _ e2 in
    let (_, e4) =
      >>-eq-ok
        (reject_if (not (bytes_eq (take 4 datagram) magic)) (protocol "Phantom One magic mismatch"))
        _ e3 in
    let (_, e5) =
      >>-eq-ok
        (reject_if (not (get_or datagram 4 0 == version)) (protocol "Phantom One version mismatch"))
        _ e4 in
    let (tier, _, e6) = >>=-eq-ok (known_profile (from_id (get_or datagram 5 0))) _ e5 in
    let (_, e7) =
      >>-eq-ok
        (reject_if (not (id tier == id c.profile))
          (protocol "Phantom One profile does not match session policy"))
        _ e6 in
    let (_, e8) =
      >>-eq-ok
        (reject_if (not (field datagram 6 4 == generation))
          (protocol "Phantom One generation mismatch"))
        _ e7 in
    let (frame_type, _, e9) = >>=-eq-ok (frame_type_try_from (get_or datagram 10 0)) _ e8 in
    let (_, e10) =
      >>-eq-ok
        (reject_if (any (λ byte. not (byte == 0)) (take 1 (drop 23 datagram)))
          (protocol "Phantom One reserved header bytes are non-canonical"))
        _ e9 in
    let (_, e11) =
      >>-eq-ok
        (reject_if (not (target_len == length datagram))
          (protocol "Phantom One target length does not match datagram length"))
        _ e10 in
    let (_, e12) =
      >>-eq-ok
        (reject_if (ltb path_mtu target_len)
          (protocol "Phantom One target length exceeds path MTU"))
        _ e11 in
    let (_, e13) = >>-eq-ok (validate_payload_length (field datagram 19 2)) _ e12 in
    let (_, e14) =
      >>-eq-ok
        (reject_if (ltb target_len (header_bytes + field datagram 19 2))
          (protocol "Phantom One payload is truncated by target length"))
        _ e13 in
    let (_, e15) =
      >>-eq-ok
        (reject_if (ltb padding_len c.min_padding || ltb c.max_padding padding_len)
          (protocol "Phantom One padding is outside the configured bounds"))
        _ e14 in
    let (_, e16) =
      >>-eq-ok
        (reject_if (c.profile_bound && not (accepts_frame_len tier target_len))
          (protocol "Phantom One target is outside the selected profile's canonical size classes"))
        _ e15 in
    ground (arith, e16)

decode-sequence :
    (d d' : PhantomOneDecoder) (datagram : List ℕ) (path_mtu : ℕ) (frame : PhantomOneFrame)
    → decode d datagram path_mtu ≡ ok (d', frame)
    → frame.sequence ≡ field datagram 11 8
unfolding decode to_frame
decode-sequence d d' datagram path_mtu frame h =
    elim (Result-cases (decode_parts datagram d.generation path_mtu d.config)) [
      | inr (why, bad) ↦ absurd (ground (arith, bad))
      | inl (parts, good) ↦ elim (Result-cases (accept_parts d parts)) [
        | inr (why, refused) ↦ absurd (ground (arith, good, refused))
        | inl (accepted, fine) ↦
            let same : parts.sequence ≡ frame.sequence = ground (arith, good, fine) in
            sym same ∙ parts-sequence datagram d.generation path_mtu d.config good
      ]
    ]

Takes-Represents :
    {d d' : PhantomOneDecoder} {datagram : List ℕ} (seen : List ℕ)
    → Represents d seen
    → Takes d datagram d'
    → (accepts (d.window_size - 1) seen (field datagram 11 8) ≡ true)
      × Represents d' (field datagram 11 8 ∷ seen)
Takes-Represents {d} {d'} seen r (decoded datagram path_mtu frame h) =
    subst (λ n. (accepts (d.window_size - 1) seen n ≡ true) × Represents d' (n ∷ seen))
      (decode-sequence d d' datagram path_mtu frame h)
      (decode-Represents d d' seen datagram path_mtu frame r h)
Takes-Represents {d} {d'} seen r (decoded_in_place datagram path_mtu payload h) =
    let (frame, h') = in_place-decode d d' datagram path_mtu payload h in
    subst (λ n. (accepts (d.window_size - 1) seen n ≡ true) × Represents d' (n ∷ seen))
      (decode-sequence d d' datagram path_mtu frame h')
      (decode-Represents d d' seen datagram path_mtu frame r h')

abbrev Kept : List ℕ → List ℕ → Type 0
Kept seen later = (n : ℕ) → contains seen n ≡ true → contains later n ≡ true

Reaches-Represents :
    {d d' : PhantomOneDecoder} (seen : List ℕ)
    → Represents d seen
    → Reaches d d'
    → (later : List ℕ) × Represents d' later × Kept seen later
unfolding contains
Reaches-Represents seen r here = (seen, r, λ n h. h)
Reaches-Represents seen r (taken {d} {d'} path datagram step) =
    let (later, r', kept) = Reaches-Represents seen r path in
    let (_, r'') = Takes-Represents later r' step in
    (field datagram 11 8 ∷ later, r'', λ n h. ground (arith, kept n h))

reset-Represents :
    (d : PhantomOneDecoder) (seen : List ℕ) → Represents d seen → Represents (reset d) []
unfolding reset
reset-Represents d seen r = record {
  some_window = r.some_window;
  one_word = r.one_word;
  maps = refl;
}

Visits-Represents :
    {d d' : PhantomOneDecoder}
    → Represents d []
    → Visits d d'
    → (seen : List ℕ) × Represents d' seen
Visits-Represents r begun = ([], r)
Visits-Represents r (going {d} {d'} path datagram step) =
    let (seen, r') = Visits-Represents r path in
    let (_, r'') = Takes-Represents seen r' step in (field datagram 11 8 ∷ seen, r'')
Visits-Represents r (cleared {d} path) =
    let (seen, r') = Visits-Represents r path in ([], reset-Represents d seen r')

-- From a new decoder on, after any datagrams taken and any resets, two datagrams that the decoder takes with
-- no reset between them, whatever it takes in between, carry different sequence numbers in their headers.
-- Each of them is taken by `decode` or by `decode_in_place`.
pub frame_once :
    (generation : ℕ) (c : PhantomOneConfig) (w : ℕ) {start d d' later last : PhantomOneDecoder}
    (first second : List ℕ)
    → with_config_and_window generation c w ≡ ok start
    → Visits start d
    → Takes d first d'
    → Reaches d' later
    → Takes later second last
    → field first 11 8 ≢ field second 11 8
unfolding contains accepts
frame_once generation c w {start} {d} {d'} {later} {last} first second new before one between two
      same =
    let (r0, _) = fresh-Represents generation c w {d = start} new in
    let (seen, r1) = Visits-Represents r0 before in
    let (_, r2) = Takes-Represents seen r1 one in
    let (seen', r3, kept) = Reaches-Represents (field first 11 8 ∷ seen) r2 between in
    let (fresh, _) = Takes-Represents seen' r3 two in
    let held : contains seen' (field first 11 8) ≡ true = kept (field first 11 8) (ground arith) in
    ground (arith, fresh, held, ap (contains seen') same)
