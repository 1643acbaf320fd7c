-- ===== src/Core/Framing/RoundTrip.antt =====
-- Encoding and decoding of cells are inverse to each other.
use shph.Prelude.{
  ℕ, zero, suc, ◌+◌, ◌-◌, ◌/◌, ◌%◌, ◌≤◌, ◌<◌, ◌≡◌, refl, sym, ap, ◌∙◌, true, false, not, Option,
  none, some, List, [], ◌∷◌, ◌++◌, length, take, drop, any, replicate, ◌==◌, arith, ok, take_all,
  take-append, drop-append, length-append, length-replicate, length-take, length-drop,
  take-append-drop, All, ap₂,
}
use shph.Prelude.Bytes.{
  be_bytes, be_value, be_bytes_two, be_value-be_bytes, be_bytes-be_value, IsByte,
}
use shph.Core.Stealth.{ShroudProfile, payload_capacity, is_valid}
use shph.Core.Framing.{
  cell_bytes, encode_cell, encode_data_cell, encode_chaff_cell, decode_cell, classify, frame_header,
  frame_data, frame_chaff, resize,
}
use shph.Core.Framing.Decode.{Decoded, decode_cell-Decoded, stated_len}

-- The cell laid out byte by byte.
abbrev layout : ShroudProfile → ℕ → List ℕ → List ℕ
layout p t payload =
    let n : ℕ = length payload in
    b'S' ∷ b'D' ∷ t ∷ (n / 256 % 256) ∷ (n % 256) ∷ (payload ++ replicate (p.cell_size - 5 - n) 0)

any_zeros : (n : ℕ) → any (λ b. not (b == 0)) (replicate n 0) ≡ false
any_zeros zero = refl
any_zeros (suc n) = any_zeros n

zeros_of_any : (xs : List ℕ) → any (λ b. not (b == 0)) xs ≡ false → xs ≡ replicate (length xs) 0
zeros_of_any [] h = refl
zeros_of_any (x ∷ xs) h = ap₂ ◌∷◌ {x = x} {y = 0} (ground arith) (zeros_of_any xs (ground arith))

module _ (p : ShroudProfile) (valid : is_valid p ≡ true) (t : ℕ) (payload : List ℕ)
    (fits : length payload ≤ payload_capacity p) where
  small : length payload + 5 ≤ p.cell_size
  small = ground arith

  narrow : length payload < 65536
  narrow = ground arith

  cell_bytes-layout : cell_bytes p t payload ≡ layout p t payload
  unfolding cell_bytes
  cell_bytes-layout =
      let n : ℕ = length payload in
      let body : List ℕ = b'S' ∷ b'D' ∷ t ∷ (n / 256 % 256) ∷ (n % 256) ∷ payload in
      let wrap : n % 65536 ≡ n = omega (arith, narrow) in
      ap (λ k. resize p.cell_size (frame_header ++ (t ∷ be_bytes 2 k) ++ payload)) wrap
      ∙ ap (λ bs. resize p.cell_size (frame_header ++ (t ∷ bs) ++ payload)) (be_bytes_two n)
      ∙ ap₂ ◌++◌ (take_all p.cell_size body (omega (arith, small))) (
          ap (λ k. replicate k 0) {x = p.cell_size - length body} {y = p.cell_size - 5 - n}
            (omega arith))

  length-layout : length (layout p t payload) ≡ p.cell_size
  length-layout =
      let zeros : ℕ = p.cell_size - 5 - length payload in
      omega
        (arith, length-append payload (replicate zeros 0), length-replicate {A = ℕ} zeros 0, small)

  stated_len-layout : stated_len (layout p t payload) ≡ length payload
  stated_len-layout =
      ap be_value (sym (be_bytes_two (length payload)))
      ∙ be_value-be_bytes 2 (length payload) (omega (arith, narrow))

  decode-layout : decode_cell p (layout p t payload) ≡ classify t payload
  unfolding decode_cell
  decode-layout =
      let n : ℕ = length payload in
      let zeros : List ℕ = replicate (p.cell_size - 5 - n) 0 in
      let cell : List ℕ = layout p t payload in
      let tail : drop (5 + n) cell ≡ zeros =
        ap (λ k. drop k cell) {x = 5 + n} {y = suc (suc (suc (suc (suc n))))} (omega arith)
        ∙ drop-append n payload zeros refl in
      ground (
        arith,
        valid,
        fits,
        length-layout,
        stated_len-layout,
        ap (λ k. drop (5 + k) cell) stated_len-layout,
        ap (λ k. take k (payload ++ zeros)) stated_len-layout,
        ap (any (λ b. not (b == 0))) tail,
        any_zeros (p.cell_size - 5 - n),
        take-append n payload zeros refl,
      )

-- A payload within the profile's chunk limit is accepted, its cell has the profile's size, and
-- decoding the cell gives the payload back.
pub decode-encode_data :
    (p : ShroudProfile) (payload : List ℕ)
    → is_valid p ≡ true
    → length payload ≤ p.max_payload_chunk
    → (cell : List ℕ) × (encode_data_cell p payload ≡ ok cell)
      × (length cell ≡ p.cell_size)
      × (decode_cell p cell ≡ ok (some payload))
unfolding encode_data_cell encode_cell classify
decode-encode_data p payload valid fits =
    let within : length payload ≤ payload_capacity p = ground arith in
    let laid : cell_bytes p frame_data payload ≡ layout p frame_data payload =
      cell_bytes-layout p valid frame_data payload within in
    (
      cell_bytes p frame_data payload,
      ground arith,
      ap length laid ∙ length-layout p valid frame_data payload within,
      ap (decode_cell p) laid ∙ decode-layout p valid frame_data payload within,
    )

-- Chaff of any content within the capacity has the size of a data cell and decodes to nothing.
pub decode-encode_chaff :
    (p : ShroudProfile) (payload : List ℕ)
    → is_valid p ≡ true
    → length payload ≤ payload_capacity p
    → (cell : List ℕ) × (encode_chaff_cell p payload ≡ ok cell)
      × (length cell ≡ p.cell_size)
      × (decode_cell p cell ≡ ok none)
unfolding encode_chaff_cell encode_cell classify
decode-encode_chaff p payload valid within =
    let laid : cell_bytes p frame_chaff payload ≡ layout p frame_chaff payload =
      cell_bytes-layout p valid frame_chaff payload within in
    (
      cell_bytes p frame_chaff payload,
      ground arith,
      ap length laid ∙ length-layout p valid frame_chaff payload within,
      ap (decode_cell p) laid ∙ decode-layout p valid frame_chaff payload within,
    )

cell_not_short :
    (p : ShroudProfile) (cell : List ℕ) {r : Option (List ℕ)} → Decoded p cell r → 64 ≤ length cell
cell_not_short p cell d = ground (arith, d.valid, d.sized)

data_kind :
    (t : ℕ) (body : List ℕ) {payload : List ℕ}
    → classify t body ≡ ok (some payload)
    → (t ≡ frame_data) × (body ≡ payload)
unfolding classify
data_kind t body e = ground arith

-- The five header bytes and the padding of a decoded data cell are forced.
layout_of_Decoded :
    (p : ShroudProfile) (cell payload : List ℕ)
    → All IsByte cell
    → Decoded p cell (some payload)
    → (cell ≡ layout p frame_data payload) × (length payload ≤ payload_capacity p)
unfolding classify
layout_of_Decoded p (a ∷ b ∷ t ∷ hi ∷ lo ∷ rest) payload bytes d =
    let n : ℕ = be_value (hi ∷ lo ∷ []) in
    let (is_data, body) = data_kind t (take n rest) d.kind in
    let tail : drop n rest ≡ replicate (length (drop n rest)) 0 = zeros_of_any (drop n rest) (
      ap (λ k. any (λ b. not (b == 0)) (drop k (a ∷ b ∷ t ∷ hi ∷ lo ∷ rest)))
        {x = suc (suc (suc (suc (suc n))))} {y = 5 + n} (omega arith)
      ∙ d.padded) in
    let room : n + 5 ≤ length rest + 5 = ground (arith, d.valid, d.sized, d.fits) in
    let long : length payload ≡ n =
      ap length (sym body) ∙ length-take n rest ∙ omega (arith, room) in
    let zeros : replicate (length (drop n rest)) 0
        ≡ replicate (p.cell_size - 5 - length payload) 0 =
      ap (λ k. replicate k 0) (omega (arith, length-drop n rest, d.sized, long)) in
    let number : (n / 256 % 256) ∷ (n % 256) ∷ [] ≡ hi ∷ lo ∷ [] =
      sym (be_bytes_two n)
      ∙ be_bytes-be_value 2 (hi ∷ lo ∷ []) refl (bytes.1.1.1.0, (bytes.1.1.1.1.0, tt)) in
    let whole : rest ≡ payload ++ replicate (p.cell_size - 5 - length payload) 0 =
      sym (take-append-drop n rest) ∙ ap₂ ◌++◌ body (tail ∙ zeros) in
    (
      ground (
        arith,
        d.headed,
        is_data,
        number,
        whole,
        ap (λ k. k / 256 % 256) long,
        ap (λ k. k % 256) long,
      ),
      omega (arith, long, d.fits),
    )
layout_of_Decoded p cell payload bytes d = absurd (omega (arith, cell_not_short p cell d))

-- A cell of bytes that decodes to data is the encoding of that data.
pub encode-decode :
    (p : ShroudProfile) (cell payload : List ℕ)
    → All IsByte cell
    → decode_cell p cell ≡ ok (some payload)
    → encode_cell p frame_data payload ≡ ok cell
unfolding encode_cell
encode-decode p cell payload bytes e =
    let d : Decoded p cell (some payload) = decode_cell-Decoded p cell e in
    let (shape, fits) = layout_of_Decoded p cell payload bytes d in
    let valid : is_valid p ≡ true = d.valid in
    let same : cell_bytes p frame_data payload ≡ cell =
      cell_bytes-layout p valid frame_data payload fits ∙ sym shape in
    ground (arith, valid, fits, same)
