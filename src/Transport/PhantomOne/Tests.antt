-- ===== src/Transport/PhantomOne/Tests.antt =====
-- The Phantom One theorems on an encoder of the low profile, with a generator that counts.
use shph.Prelude.{
  ℕ, suc, ◌-◌, ◌≤◌, ◌<◌, ◌≡◌, ◌≢◌, refl, sym, ap, ◌∙◌, some, List, [], ◌∷◌, length, replicate,
  length-replicate, arith, ok,
}
use shph.Obfuscation.{low, from_id}
use shph.Core.Window.History.{verdicts}
use shph.Transport.PhantomOne.{
  PhantomOneConfig, PhantomOneFrame, for_profile, data_frame, control_frame, default_config,
  weighted, header_bytes, validate_payload_length, frame_type_try_from, validate_path_mtu, validate,
  check_selection,
}
use shph.Transport.PhantomOne.Encoder.{
  StdRng, PhantomOneEncoder, from_validated_config, target_size, target_range,
  from_seed_with_config, remaining_under, select, remaining_padding, first_within, fitted_target,
}
use shph.Transport.PhantomOne.Envelope.{
  encode_with_target_into, encode_into, checked_sequence, counted, header,
}
use shph.Transport.PhantomOne.Wire.{field, to_frame, decode_parts}
use shph.Transport.PhantomOne.Decoder.{
  PhantomOneDecoder, fresh_decoder, decode, decode_in_place, reset, accept_sequence, window_mask,
  with_config_and_window, accept_parts, accept_from, accept_newer, next_padding_bytes,
}
use shph.Transport.PhantomOne.Once.{accept_all, accept_all_refines}
use shph.Transport.PhantomOne.Reach.{Takes, Reaches, Visits, frame_once}
use shph.Transport.PhantomOne.Selected.{Answers, target_size-checked}
use shph.Transport.PhantomOne.RoundTrip.{IsWide, frame_of}
use shph.Transport.PhantomOne.Delivery.{Request, Delivers, send_all, new_session-Delivers}
use shph.Transport.PhantomOne.Progress.{Sends, sequence_increases}
use shph.Transport.PhantomOne.Writes.{encode_into_succeeds}
use shph.Prelude.Bytes.{be_value, be_bytes}

abbrev counting : StdRng ℕ
counting = record {
  gen_range = λ s least most. (suc s, least);
  ranged = λ s least most h. (omega arith, h);
  try_fill_bytes = λ s n. (suc s, some (replicate n 9));
  filled = λ s n {bytes} e. filled_lem n bytes e;
}
  where
    filled_lem : (n : ℕ) (bytes : List ℕ) → some (replicate n 9) ≡ some bytes → length bytes ≡ n
    filled_lem n bytes e =
        let same : replicate n 9 ≡ bytes = ground (arith, e) in
        ap length (sym same) ∙ length-replicate {A = ℕ} n 9

abbrev hello : List ℕ
hello = b'h' ∷ b'i' ∷ []

abbrev tiered : PhantomOneConfig
tiered = for_profile low

abbrev encoder : PhantomOneEncoder ℕ
encoder = from_validated_config 7 0 tiered

abbrev decoder : PhantomOneDecoder
decoder = fresh_decoder 7 tiered 64

abbrev requests : List Request
requests =
    record { frame_type = data_frame; payload = hello; target_len = 128; path_mtu = 1200 }
    ∷ record { frame_type = data_frame; payload = hello; target_len = 140; path_mtu = 1200 }
    ∷ record { frame_type = control_frame; payload = []; target_len = 256; path_mtu = 1200 }
    ∷ []

-- The request at a length that is not canonical is refused.
two_sent : length (send_all counting encoder requests) ≡ 2
unfolding send_all encode_with_target_into checked_sequence validate check_selection
    validate_path_mtu validate_payload_length remaining_padding remaining_under
two_sent = refl

target_size-checked_example : Answers (target_size counting encoder 2 1200) (λ t.
    (sequence : ℕ) × (some 0 ≡ some sequence)
    × (checked_sequence encoder 2 t 1200 ≡ ok sequence)
    × (t ≤ 1200))
target_size-checked_example = target_size-checked counting encoder 2 1200

accept_all_refines_example :
    accept_all (fresh_decoder 7 tiered 4) (3 ∷ 1 ∷ 3 ∷ 9 ∷ 2 ∷ 8 ∷ [])
    ≡ verdicts (4 - 1) [] (3 ∷ 1 ∷ 3 ∷ 9 ∷ 2 ∷ 8 ∷ [])
unfolding with_config_and_window validate check_selection
accept_all_refines_example =
    accept_all_refines 7 tiered 4 (3 ∷ 1 ∷ 3 ∷ 9 ∷ 2 ∷ 8 ∷ []) {d = fresh_decoder 7 tiered 4} refl

new_session-Delivers_example : Delivers decoder (send_all counting encoder requests)
unfolding from_seed_with_config validate check_selection with_config_and_window
new_session-Delivers_example =
    new_session-Delivers counting 7 0 tiered 64 {e = encoder} {d = decoder} requests refl refl
      (omega arith) (omega arith)

-- A budget of 200 padding bytes: the first frame has 102, and a second one of 232 is refused.
abbrev budgeted : PhantomOneConfig
budgeted = record tiered { padding_budget = some 200 }

abbrev limited : PhantomOneEncoder ℕ
limited = from_validated_config 7 0 budgeted

abbrev limited_bytes : List ℕ
limited_bytes = (encode_with_target_into counting limited data_frame hello 128 1200).1

abbrev limited_sent : PhantomOneEncoder ℕ
limited_sent = (encode_with_target_into counting limited data_frame hello 128 1200).0

-- Two frames, one after the other.
abbrev one_sent : PhantomOneEncoder ℕ
one_sent = (encode_with_target_into counting encoder data_frame hello 128 1200).0

abbrev first_bytes : List ℕ
first_bytes = (encode_with_target_into counting encoder data_frame hello 128 1200).1

abbrev both_sent : PhantomOneEncoder ℕ
both_sent = (encode_with_target_into counting one_sent control_frame [] 256 1200).0

abbrev second_bytes : List ℕ
second_bytes = (encode_with_target_into counting one_sent control_frame [] 256 1200).1

encoder-IsWide : IsWide encoder
encoder-IsWide = record { generation = omega arith; sequence = λ s h. ground arith }

sequence_increases_example : field first_bytes 11 8 < field second_bytes 11 8
unfolding encode_with_target_into checked_sequence validate check_selection validate_path_mtu
    validate_payload_length remaining_padding remaining_under
sequence_increases_example =
    sequence_increases counting encoder one_sent one_sent both_sent data_frame control_frame hello
      [] 128 256 1200 1200 first_bytes second_bytes encoder-IsWide tt refl Sends.here refl

abbrev first_frame : PhantomOneFrame
first_frame = frame_of tiered 7 data_frame 0 hello 128

abbrev second_frame : PhantomOneFrame
second_frame = frame_of tiered 7 control_frame 1 [] 256

abbrev after_first : PhantomOneDecoder
after_first = record decoder {
  highest_sequence = some 0;
  seen_bitmap = 1;
  padding_bytes_used = 102;
}

abbrev after_second : PhantomOneDecoder
after_second = record decoder {
  highest_sequence = some 1;
  seen_bitmap = 3;
  padding_bytes_used = 334;
}

-- The first datagram is decoded, and decoded again after a reset.
abbrev after_again : PhantomOneDecoder
after_again = record after_first { padding_bytes_used = 204 }

frame_once_example : field first_bytes 11 8 ≢ field second_bytes 11 8
unfolding with_config_and_window validate check_selection decode decode_in_place decode_parts
    validate_path_mtu encode_with_target_into checked_sequence validate_payload_length
    remaining_padding remaining_under header be_bytes from_id be_value frame_type_try_from
    accept_parts accept_from accept_newer accept_sequence next_padding_bytes window_mask counted
    to_frame reset
frame_once_example =
    frame_once 7 tiered 64 {start = decoder} {d = reset after_first} {d' = after_again}
      {later = after_again} {last = record after_second { padding_bytes_used = 436 }} first_bytes
      second_bytes refl
      (Visits.cleared
        (Visits.going Visits.begun first_bytes (Takes.decoded first_bytes 1200 first_frame refl)))
      (Takes.decoded first_bytes 1200 first_frame refl) Reaches.here
      (Takes.decoded_in_place second_bytes 1200 [] refl)

encode_into_succeeds_example :
    (e' : PhantomOneEncoder ℕ) × (envelope : List ℕ) × (encode_into counting encoder data_frame
        hello 1200
      ≡ some (e', envelope, ok tt))
    × (length envelope ≡ 128)
    × (128 ≤ 1200)
unfolding target_size target_range validate check_selection validate_path_mtu
    validate_payload_length remaining_padding remaining_under select fitted_target first_within
    shph.Transport.PhantomOne.Encoder.jittered
encode_into_succeeds_example =
    encode_into_succeeds counting (λ s n. (replicate n 9, refl)) encoder data_frame hello 1200
      {s = 1} encoder-IsWide refl
