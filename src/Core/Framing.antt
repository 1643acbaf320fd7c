-- ===== src/Core/Framing.antt =====
-- shph-core/src/framing.rs: fixed-size shroud cells. A byte is a number; where a proof needs it,
-- the hypothesis says that it is below 256.
pub mod Decode
pub mod RoundTrip
mod Tests
use shph.Prelude.{
  ℕ, ◌+◌, ◌-◌, ◌%◌, ◌^◌, Bool, true, false, not, ◌||◌, Option, none, some, List, [], ◌∷◌, ◌++◌,
  length, get_or, take, drop, replicate, any, bytes_eq, ltb, ◌==◌, if◌then◌else◌, Result, ok, err,
  ◌>>=◌, ◌>>◌, reject_if, ShphError, protocol,
}
use shph.Prelude.Bytes.{be_bytes, be_value}
use shph.Core.Stealth.{ShroudProfile, payload_capacity, is_valid}

abbrev pub frame_header : List ℕ
frame_header = b'S' ∷ b'D' ∷ []

abbrev pub frame_data : ℕ
frame_data = 1

abbrev pub frame_chaff : ℕ
frame_chaff = 2

-- `Vec::resize(size, 0)`
abbrev pub resize : ℕ → List ℕ → List ℕ
resize size xs = take size xs ++ replicate (size - length xs) 0

-- Header, type, 16-bit length, payload, zeros. The cast `as u16` wraps.
unfoldable pub cell_bytes : ShroudProfile → ℕ → List ℕ → List ℕ
cell_bytes p frame_type payload =
    resize p.cell_size
      (frame_header ++ (frame_type ∷ be_bytes 2 (length payload % 2 ^ 16)) ++ payload)

-- `ShroudCell::new`, the cell as its bytes; `encode_cell` unwraps it.
unfoldable pub encode_cell : ShroudProfile → ℕ → List ℕ → Result ShphError (List ℕ)
unfolding cell_bytes
encode_cell p frame_type payload = do
  reject_if (not (is_valid p)) (protocol "invalid cell size")
  reject_if (not (frame_type == frame_data || frame_type == frame_chaff))
      (protocol "unsupported frame type")
  reject_if (ltb (payload_capacity p) (length payload)) (protocol "payload exceeds cell capacity")
  ok (cell_bytes p frame_type payload)

unfoldable pub encode_data_cell : ShroudProfile → List ℕ → Result ShphError (List ℕ)
encode_data_cell p payload = do
  reject_if (ltb p.max_payload_chunk (length payload)) (protocol "payload exceeds profile capacity")
  encode_cell p frame_data payload

unfoldable pub encode_chaff_cell : ShroudProfile → List ℕ → Result ShphError (List ℕ)
encode_chaff_cell p payload = encode_cell p frame_chaff payload

-- The match on the frame type.
unfoldable pub classify : ℕ → List ℕ → Result ShphError (Option (List ℕ))
classify frame_type payload =
    if frame_type == frame_data
    then ok (some payload)
    else if frame_type == frame_chaff
    then ok none
    else err (protocol "unsupported frame type")

-- `decode_cell_payload`; `decode_cell` copies its slice.
unfoldable pub decode_cell : ShroudProfile → List ℕ → Result ShphError (Option (List ℕ))
unfolding classify
decode_cell p cell = do
  reject_if (not (is_valid p)) (protocol "invalid cell size")
  reject_if (not (length cell == p.cell_size)) (protocol "cell size mismatch")
  reject_if (not (bytes_eq (take 2 cell) frame_header)) (protocol "frame header mismatch")
  let payload_len = be_value (get_or cell 3 0 ∷ get_or cell 4 0 ∷ [])
  reject_if (ltb (payload_capacity p) payload_len) (protocol "payload length exceeds cell capacity")
  reject_if (any (λ b. not (b == 0)) (drop (5 + payload_len) cell))
      (protocol "non-canonical cell padding")
  classify (get_or cell 2 0) (take payload_len (drop 5 cell))
