-- ===== src/Edge/Capability/Utf8.antt =====
-- `str::from_utf8`: which byte sequences are UTF-8.
use shph.Prelude.{
  ℕ, ◌<◌, ◌≡◌, refl, Bool, true, false, ◌&&◌, Option, none, some, List, [], ◌∷◌, ltb, leb, ◌==◌,
  if◌then◌else◌, All, arith,
}

abbrev within : ℕ → ℕ → ℕ → Bool
within low high b = leb low b && leb b high

abbrev tail_byte : ℕ × ℕ
tail_byte = (0x80, 0xbf)

-- The ranges that the bytes after a lead byte must lie in.
follow : ℕ → Option (List (ℕ × ℕ))
follow b =
    if ltb b 0x80
    then some []
    else if within 0xc2 0xdf b
    then some (tail_byte ∷ [])
    else if b == 0xe0
    then some ((0xa0, 0xbf) ∷ tail_byte ∷ [])
    else if b == 0xed
    then some ((0x80, 0x9f) ∷ tail_byte ∷ [])
    else if within 0xe1 0xef b
    then some (tail_byte ∷ tail_byte ∷ [])
    else if b == 0xf0
    then some ((0x90, 0xbf) ∷ tail_byte ∷ tail_byte ∷ [])
    else if within 0xf1 0xf3 b
    then some (tail_byte ∷ tail_byte ∷ tail_byte ∷ [])
    else if b == 0xf4
    then some ((0x80, 0x8f) ∷ tail_byte ∷ tail_byte ∷ [])
    else none

utf8_from : List (ℕ × ℕ) → List ℕ → Bool
utf8_from [] [] = true
utf8_from (r ∷ rs) [] = false
utf8_from [] (b ∷ bs) = elim (follow b) [ none ↦ false | some rs ↦ utf8_from rs bs ]
utf8_from ((low, high) ∷ rs) (b ∷ bs) = let rest = utf8_from rs bs in within low high b && rest

unfoldable pub is_utf8 : List ℕ → Bool
unfolding follow utf8_from
is_utf8 bytes = utf8_from [] bytes

-- ASCII text is UTF-8.
pub is_utf8-ascii : (bytes : List ℕ) → All (λ b. b < 128) bytes → is_utf8 bytes ≡ true
unfolding is_utf8
is_utf8-ascii [] h = refl
is_utf8-ascii (b ∷ bytes) h = ground (arith, h.0, is_utf8-ascii bytes h.1)
