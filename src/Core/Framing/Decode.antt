-- ===== src/Core/Framing/Decode.antt =====
-- What a successful decode says of the bytes.
use shph.Prelude.{
  ℕ, ◌+◌, ◌≤◌, ◌≡◌, true, false, not, Option, List, [], ◌∷◌, length, get_or, take, drop, any, ◌==◌,
  arith, ok, bytes_eq→eq,
}
use shph.Prelude.Bytes.{be_value}
use shph.Core.Stealth.{ShroudProfile, payload_capacity, is_valid}
use shph.Core.Framing.{decode_cell, classify, frame_header}

abbrev pub stated_len : List ℕ → ℕ
stated_len cell = be_value (get_or cell 3 0 ∷ get_or cell 4 0 ∷ [])

pub record Decoded (p : ShroudProfile) (cell : List ℕ) (r : Option (List ℕ)) : Type 0 where
  pub valid : is_valid p ≡ true
  pub sized : length cell ≡ p.cell_size
  pub headed : take 2 cell ≡ frame_header
  pub fits : stated_len cell ≤ payload_capacity p
  pub padded : any (λ b. not (b == 0)) (drop (5 + stated_len cell) cell) ≡ false
  pub kind : classify (get_or cell 2 0) (take (stated_len cell) (drop 5 cell)) ≡ ok r

pub decode_cell-Decoded :
    (p : ShroudProfile) (cell : List ℕ) {r : Option (List ℕ)}
    → decode_cell p cell ≡ ok r
    → Decoded p cell r
unfolding decode_cell
decode_cell-Decoded p cell {r} e = record {
  valid = ground arith;
  sized = ground arith;
  headed = bytes_eq→eq (take 2 cell) frame_header (ground arith);
  fits = ground arith;
  padded = ground arith;
  kind = ground arith;
}
