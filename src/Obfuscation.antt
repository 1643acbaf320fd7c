-- ===== src/Obfuscation.antt =====
-- The padding profiles of shph-obfuscation/src/lib.rs. The generator of random numbers (crate
-- `rand`) and the text of a formatted message are parameters; a `Vec<u8>` is the list of its bytes.
pub mod Tiers
pub mod Sample
pub mod Frame
pub mod RoundTrip
pub mod Decides
mod Tests
use text.Mathlib.Text.{◌==◌ as str_eq}
use shph.Prelude.{
  ℕ, zero, suc, ◌+◌, ◌-◌, ◌%◌, ◌^◌, ◌<◌, ◌≡◌, Bool, true, false, not, ◌&&◌, ◌||◌, Option, none,
  some, List, [], ◌∷◌, ◌++◌, String, length, get_or, take, drop, any, bytes_eq, ltb, leb, ◌==◌,
  if◌then◌else◌, Result, ok, err, ◌>>=◌, ◌>>◌, reject_if, ShphError, obfuscation, crypto,
}
use shph.Prelude.Bytes.{be_bytes, be_value}
use shph.Core.Stealth.{ShroudProfile}

pub data ProfileTier : Type 0 where
  low medium high tuned_low tuned_medium tuned_high : ProfileTier

abbrev pub profile_magic : List ℕ
profile_magic = b'S' ∷ b'P' ∷ b'A' ∷ b'D' ∷ []

abbrev pub profile_header_bytes : ℕ
profile_header_bytes = 7

abbrev pub low_jitter_bytes : ℕ
low_jitter_bytes = 7

abbrev pub as_str : ProfileTier → String
as_str low = "low"
as_str medium = "medium"
as_str high = "high"
as_str tuned_low = "tuned-low"
as_str tuned_medium = "tuned-medium"
as_str tuned_high = "tuned-high"

abbrev pub id : ProfileTier → ℕ
id low = 0
id medium = 1
id high = 2
id tuned_low = 3
id tuned_medium = 4
id tuned_high = 5

unfoldable pub from_id : ℕ → Option ProfileTier
from_id n =
    if n == 0
    then some low
    else if n == 1
    then some medium
    else if n == 2
    then some high
    else if n == 3
    then some tuned_low
    else if n == 4
    then some tuned_medium
    else if n == 5
    then some tuned_high
    else none

abbrev pub base_tiers : ProfileTier → List ℕ
base_tiers low = 128 ∷ 256 ∷ []
base_tiers medium = 128 ∷ 256 ∷ 512 ∷ 1024 ∷ 1360 ∷ []
base_tiers high = 512 ∷ 1024 ∷ 1360 ∷ []
base_tiers tuned_low = 64 ∷ 96 ∷ 128 ∷ 192 ∷ 256 ∷ 512 ∷ 768 ∷ []
base_tiers tuned_medium = 128 ∷ 256 ∷ 512 ∷ 768 ∷ 1024 ∷ 1360 ∷ []
base_tiers tuned_high = 512 ∷ 768 ∷ 1024 ∷ 1280 ∷ 1360 ∷ []

unfoldable pub from_shroud_profile : ShroudProfile → ProfileTier
from_shroud_profile p =
    if str_eq p.name "tuned-low"
    then tuned_low
    else if str_eq p.name "tuned-medium"
    then tuned_medium
    else if str_eq p.name "tuned-high"
    then tuned_high
    else if str_eq p.name "low-latency"
    then low
    else if str_eq p.name "bulk" || str_eq p.name "extreme-lab"
    then high
    else medium

-- `(base..=base + jitter).contains(&len)`
abbrev pub near : ℕ → ℕ → ℕ → Bool
near jitter len base = leb base len && leb len (base + jitter)

abbrev pub accepts_frame_len : ProfileTier → ℕ → Bool
accepts_frame_len low len = near low_jitter_bytes len 128 || near low_jitter_bytes len 256
accepts_frame_len tuned_low len = any (near 3 len) (base_tiers tuned_low)
accepts_frame_len medium len = any (λ b. b == len) (base_tiers medium)
accepts_frame_len high len = any (λ b. b == len) (base_tiers high)
accepts_frame_len tuned_medium len = any (λ b. b == len) (base_tiers tuned_medium)
accepts_frame_len tuned_high len = any (λ b. b == len) (base_tiers tuned_high)

-- `self.base_tiers()[self.base_tiers().len() - 1]`
abbrev pub largest : ProfileTier → ℕ
largest t = get_or (base_tiers t) (length (base_tiers t) - 1) 0

abbrev pub jitter_bytes : ProfileTier → ℕ
jitter_bytes low = low_jitter_bytes
jitter_bytes tuned_low = 3
jitter_bytes _ = 0

unfoldable pub max_canonical_frame_len : ProfileTier → ℕ
max_canonical_frame_len t = largest t + jitter_bytes t

unfoldable pub max_payload_bytes : ProfileTier → ℕ
max_payload_bytes t = largest t - profile_header_bytes

-- `RngCore`: the next 32-bit word, and a buffer of the given length or a failure.
pub record Rng (S : Type 0) : Type 0 where
  pub next_u32 : S → S × ℕ
  pub next_u32_bound : (s : S) → (next_u32 s).1 < 2 ^ 32
  pub try_fill_bytes : S → ℕ → S × Option (List ℕ)
  pub filled :
      (s : S) (n : ℕ) {bytes : List ℕ} → (try_fill_bytes s n).1 ≡ some bytes → length bytes ≡ n

-- The smallest tier that holds the frame.
abbrev pub first_at_least : ℕ → List ℕ → Option ℕ
first_at_least n [] = none
first_at_least n (size ∷ sizes) =
    let rest = first_at_least n sizes in if leb n size then some size else rest

module _ {S : Type 0} (rng : Rng S) where
  -- The draws of `sample_uniform_below`; `none` when `fuel` draws were all rejected.
  unfoldable pub draw : ℕ → ℕ → ℕ → S → Option (S × ℕ)
  draw zero limit upper s = none
  draw (suc fuel) limit upper s =
      let (s', sample) = rng.next_u32 s in
      let rest = draw fuel limit upper s' in
      if ltb sample limit then some (s', sample % upper) else rest

  unfoldable pub sample_uniform_below : ℕ → ℕ → S → Option (S × ℕ)
  sample_uniform_below fuel upper s =
      if leb upper 1 then some (s, 0) else draw fuel (2 ^ 32 - 2 ^ 32 % upper) upper s

  -- The jitter of a frame: only two tiers draw.
  unfoldable pub jitter_of : ProfileTier → ℕ → S → Option (S × ℕ)
  jitter_of low fuel s = sample_uniform_below fuel (low_jitter_bytes + 1) s
  jitter_of tuned_low fuel s = sample_uniform_below fuel (3 + 1) s
  jitter_of medium fuel s = some (s, 0)
  jitter_of high fuel s = some (s, 0)
  jitter_of tuned_medium fuel s = some (s, 0)
  jitter_of tuned_high fuel s = some (s, 0)

  -- The buffer of a frame of `frame_len` bytes, and the random bytes behind the payload.
  unfoldable pub write_frame : ProfileTier → List ℕ → ℕ → S → S × Result ShphError (List ℕ)
  write_frame t payload frame_len s =
      let head = profile_magic ++ (id t ∷ be_bytes 2 (length payload)) ++ payload in
      let (s', tail) = rng.try_fill_bytes s (frame_len - (profile_header_bytes + length payload)) in
      if ltb (profile_header_bytes + length payload) frame_len
      then (elim tail [
        | none ↦ (s', err (crypto "OS randomness unavailable"))
        | some bytes ↦ (s', ok (head ++ bytes))
      ])
      else (s, ok head)

  -- The frame, behind the checks on its sizes.
  unfoldable pub sized_frame : ProfileTier → List ℕ → ℕ → S × ℕ → S × Result ShphError (List ℕ)
  sized_frame t payload base (s, jitter) =
      if ltb 65535 (base + jitter)
      then (s, err (obfuscation "profile frame length exceeds u16"))
      else write_frame t payload (base + jitter) s

-- The guard of a buffer. Its `drop` runs when the guarded work returns, with an answer or an error.
pub record WipeBufferOnError : Type 0 where
  pub buffer : List ℕ
  pub committed : Bool

abbrev pub guard : List ℕ → WipeBufferOnError
guard buffer = record { buffer = buffer; committed = false }

abbrev pub commit_guard : WipeBufferOnError → WipeBufferOnError
commit_guard g = record g { committed = true }

abbrev pub drop_guard : WipeBufferOnError → List ℕ
drop_guard g = if g.committed then g.buffer else []

-- The buffer after the guarded writing of a frame: what an error leaves in it is wiped.
abbrev pub wipe_on_error :
    {S : Type 0} → S × Result ShphError (List ℕ) → S × List ℕ × Result ShphError (Unit {0})
wipe_on_error (s, ok bytes) = (s, drop_guard (commit_guard (guard bytes)), ok tt)
wipe_on_error (s, err e) = (s, drop_guard (guard []), err e)

module _ {S : Type 0} (rng : Rng S) (format : String → ℕ → String) where
  -- `none` when `fuel` draws give no jitter. The old content of the buffer plays no part.
  unfoldable pub apply_profile_into_with_rng :
      ℕ → ProfileTier → List ℕ → S → Option (S × List ℕ × Result ShphError (Unit {0}))
  apply_profile_into_with_rng fuel t payload s =
      elim (first_at_least (profile_header_bytes + length payload) (base_tiers t)) [
        | none ↦ some (wipe_on_error (s, err (obfuscation (format (as_str t) (length payload)))))
        | some base ↦
            if ltb 65535 (length payload)
            then some (wipe_on_error (s, err (obfuscation "profile payload exceeds u16")))
            else (elim (jitter_of rng t fuel s) [
              | none ↦ none
              | some drawn ↦ some (wipe_on_error (sized_frame rng t payload base drawn))
            ])
      ]

-- The payload of a frame whose marker is there.
unfoldable pub open_frame : ProfileTier → List ℕ → Result ShphError (List ℕ)
open_frame t framed = do
  reject_if (ltb (length framed) profile_header_bytes) (obfuscation "profile envelope is truncated")
  reject_if (not (get_or framed 4 0 == id t)) (obfuscation "profile envelope tier mismatch")
  reject_if (not (accepts_frame_len t (length framed)))
      (obfuscation "profile envelope size is not a canonical tier")
  let payload_len = be_value (get_or framed 5 0 ∷ get_or framed 6 0 ∷ [])
  reject_if (ltb (length framed - profile_header_bytes) payload_len)
      (obfuscation "profile envelope payload length exceeds frame")
  ok (take payload_len (drop profile_header_bytes framed))

-- The guard after an attempt to open its buffer: an early return does not commit it.
unfoldable pub open_guarded :
    ProfileTier → WipeBufferOnError → WipeBufferOnError × Result ShphError (Unit {0})
open_guarded t g =
    if ltb (length g.buffer) 4 || not (bytes_eq (take 4 g.buffer) profile_magic)
    then (commit_guard g, ok tt)
    else (elim (open_frame t g.buffer) [
      | err e ↦ (g, err e)
      | ok payload ↦ (commit_guard (record g { buffer = payload }), ok tt)
    ])

-- The buffer afterwards and the answer. Bytes without the marker are left as they are.
unfoldable pub remove_profile_in_place : ProfileTier → List ℕ → List ℕ × Result ShphError (Unit {0})
unfolding open_guarded
remove_profile_in_place t framed =
    let (g, answer) = open_guarded t (guard framed) in (drop_guard g, answer)

-- `remove_profile`: a copy of the input, opened in place.
unfoldable pub remove_profile : ProfileTier → List ℕ → Result ShphError (List ℕ)
remove_profile t framed = opened (remove_profile_in_place t framed)
  where
    opened : List ℕ × Result ShphError (Unit {0}) → Result ShphError (List ℕ)
    opened (reusable, ok _) = ok reusable
    opened (reusable, err e) = err e

-- A session's tier and the state of its generator.
pub record ProfilePadder (S : Type 0) : Type 0 where
  pub profile : ProfileTier
  pub rng : S

module _ {S : Type 0} (source : Rng S) (format : String → ℕ → String) where
  abbrev advance :
      ProfilePadder S
      → Option (S × List ℕ × Result ShphError (Unit {0}))
      → Option (ProfilePadder S × List ℕ × Result ShphError (Unit {0}))
  advance p none = none
  advance p (some (s, framed, r)) = some (record p { rng = s }, framed, r)

  unfoldable pub apply_into :
      ℕ → ProfilePadder S → List ℕ → Option (ProfilePadder S × List ℕ × Result ShphError (Unit {0}))
  apply_into fuel p payload =
      advance p (apply_profile_into_with_rng source format fuel p.profile payload p.rng)
