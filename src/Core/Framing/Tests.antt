-- ===== src/Core/Framing/Tests.antt =====
-- The framing theorems at a small payload.
use shph.Prelude.{
  ℕ, zero, suc, ◌≡◌, refl, true, some, List, [], ◌∷◌, length, replicate, All, arith, ok,
}
use shph.Prelude.Bytes.{IsByte, be_value}
use shph.Core.Stealth.{ShroudProfile, balanced}
use shph.Core.Framing.{encode_cell, encode_data_cell, decode_cell, frame_data, classify}
use shph.Core.Framing.RoundTrip.{decode-encode_data, encode-decode}

abbrev tiny : ShroudProfile
tiny = record {
  name = "tiny";
  cell_size = 64;
  send_interval = 1;
  chaff_interval = 1;
  max_payload_chunk = 8;
  deterministic_padding = true;
  adaptive_chunking = true;
}

abbrev hi_cell : List ℕ
hi_cell = b'S' ∷ b'D' ∷ frame_data ∷ 0 ∷ 2 ∷ b'h' ∷ b'i' ∷ replicate 57 0

zeros-IsByte : (n : ℕ) → All IsByte (replicate n 0)
zeros-IsByte zero = tt
zeros-IsByte (suc n) = (omega arith, zeros-IsByte n)

decode-encode_data_example :
    (cell : List ℕ) × (encode_data_cell balanced (b'h' ∷ b'i' ∷ []) ≡ ok cell)
    × (length cell ≡ 1024)
    × (decode_cell balanced cell ≡ ok (some (b'h' ∷ b'i' ∷ [])))
decode-encode_data_example = decode-encode_data balanced (b'h' ∷ b'i' ∷ []) refl (omega arith)

encode-decode_example : encode_cell tiny frame_data (b'h' ∷ b'i' ∷ []) ≡ ok hi_cell
unfolding decode_cell classify be_value
encode-decode_example =
    encode-decode tiny hi_cell (b'h' ∷ b'i' ∷ [])
      (
        omega arith,
        (
          omega arith,
          (
            omega arith,
            (omega arith, (omega arith, (omega arith, (omega arith, zeros-IsByte 57)))),
          ),
        ),
      )
      refl
