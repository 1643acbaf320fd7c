-- ===== src/Core/Window.antt =====
-- `ReplayWindow` of shph-core/src/crypto.rs: the sliding bitmap over 64-bit counters.
-- Words and counters are numbers; the masks, shifts and their 64-bit wrap are written out.
pub mod Words
pub mod Shift
pub mod Advance
pub mod History
pub mod Refine
pub mod Replay
mod Tests
use Prim.Native.Nat.{bit_and, bit_or}
use shph.Prelude.{
  ℕ, zero, suc, ◌+◌, ◌-◌, ◌*◌, ◌/◌, ◌%◌, ◌^◌, min, max, Bool, true, false, not, Option, none, some,
  ◌||◌, List, map, length, get_or, set, replicate, ltb, ◌==◌, if◌then◌else◌,
}

pub record ReplayWindow : Type 0 where
  pub highest : Option ℕ
  pub bits : List ℕ
  pub size : ℕ

abbrev pub max_replay_window_size : ℕ
max_replay_window_size = 64 * 1024

-- `size.clamp(64, MAX_REPLAY_WINDOW_SIZE).div_ceil(64)`
abbrev pub window_words : ℕ → ℕ
window_words size = (max 64 (min size max_replay_window_size) + 63) / 64

unfoldable pub new : ℕ → ReplayWindow
new size = record {
  highest = none;
  bits = replicate (window_words size) 0;
  size = window_words size * 64;
}

-- `words[i] |= v`
unfoldable pub or_at : List ℕ → ℕ → ℕ → List ℕ
or_at words i v = set words i (bit_or (get_or words i 0) v)

-- `bits[index / 64] |= 1u64 << (index % 64)`
unfoldable pub mark : List ℕ → ℕ → List ℕ
mark bits index = or_at bits (index / 64) (2 ^ (index % 64))

-- `bits[index / 64] & (1u64 << (index % 64)) != 0`
unfoldable pub is_marked : List ℕ → ℕ → Bool
is_marked bits index = not (bit_and (get_or bits (index / 64) 0) (2 ^ (index % 64)) == 0)

-- One round of the loop for a whole number of words.
unfoldable pub copy_word : List ℕ → ℕ → ℕ → List ℕ → List ℕ
copy_word bits word_shift i out =
    if ltb (i + word_shift) (length bits) then set out (i + word_shift) (get_or bits i 0) else out

-- One round of the loop for a shift inside the words: the low part, then the carried high part.
or_low : List ℕ → ℕ → ℕ → ℕ → List ℕ → List ℕ
or_low bits word_shift bit_shift i out =
    if ltb (i + word_shift) (length bits)
    then or_at out (i + word_shift) (get_or bits i 0 * 2 ^ bit_shift % 2 ^ 64)
    else out

or_high : List ℕ → ℕ → ℕ → ℕ → List ℕ → List ℕ
or_high bits word_shift bit_shift i out =
    if ltb (i + word_shift + 1) (length bits)
    then or_at out (i + word_shift + 1) (get_or bits i 0 / 2 ^ (64 - bit_shift))
    else out

unfoldable pub shift_word : List ℕ → ℕ → ℕ → ℕ → List ℕ → List ℕ
unfolding or_low or_high
shift_word bits word_shift bit_shift i out =
    or_high bits word_shift bit_shift i (or_low bits word_shift bit_shift i out)

-- `for i in 0..rounds` over the output vector.
unfoldable pub for_rounds : ℕ → (ℕ → List ℕ → List ℕ) → List ℕ → List ℕ
for_rounds zero body out = out
for_rounds (suc i) body out = body i (for_rounds i body out)

unfoldable pub shift_down : List ℕ → ℕ → List ℕ
shift_down bits gap =
    let blank = replicate (length bits) 0 in
    if gap % 64 == 0
    then for_rounds (length bits) (copy_word bits (gap / 64)) blank
    else for_rounds (length bits) (shift_word bits (gap / 64) (gap % 64)) blank

-- The bitmap after the highest counter has grown by `gap`.
unfoldable pub advance_bits : List ℕ → ℕ → ℕ → List ℕ
advance_bits bits size gap =
    if ltb size gap
    then map (λ _. 0) bits
    else if gap == size
    then or_at (map (λ _. 0) bits) (length bits - 1) (2 ^ 63)
    else mark (shift_down bits gap) (gap - 1)

-- A counter at or below the highest, `offset` below it.
unfoldable pub insert_below : ReplayWindow → ℕ → ReplayWindow × Bool
insert_below w offset =
    if offset == 0 || ltb w.size offset
    then (w, false)
    else if is_marked w.bits (offset - 1)
    then (w, false)
    else (record w { bits = mark w.bits (offset - 1) }, true)

-- The match on `self.highest`.
unfoldable pub check_against : ReplayWindow → ℕ → Option ℕ → ReplayWindow × Bool
check_against w nonce none = (record w { highest = some nonce }, true)
check_against w nonce (some highest) =
    if ltb highest nonce
    then (
      record w { highest = some nonce; bits = advance_bits w.bits w.size (nonce - highest) },
      true,
    )
    else insert_below w (highest - nonce)

unfoldable pub check_and_insert : ReplayWindow → ℕ → ReplayWindow × Bool
unfolding check_against
check_and_insert w nonce = check_against w nonce w.highest
