-- ===== src/Obfuscation/Frame.antt =====
-- The bytes of a written frame, and what opening such bytes gives.
use shph.Prelude.{
  ℕ, ◌+◌, ◌-◌, ◌/◌, ◌%◌, ◌≤◌, ◌<◌, ◌≡◌, refl, sym, ap, ◌∙◌, true, List, [], ◌∷◌, ◌++◌, length,
  get_or, take, ltb, arith, ok, length-append, take-append, Option-cases, Bool-cases, inl, inr,
}
use shph.Prelude.Bytes.{be_bytes, be_value, be_bytes_two, be_value-be_bytes}
use shph.Obfuscation.{
  ProfileTier, id, profile_magic, profile_header_bytes, Rng, write_frame, open_frame,
  remove_profile_in_place, accepts_frame_len,
}

append_nil : (xs : List ℕ) → xs ++ [] ≡ xs
append_nil [] = refl
append_nil (x ∷ xs) = ap (◌∷◌ x) (append_nil xs)

abbrev pub layout : ProfileTier → List ℕ → List ℕ → List ℕ
layout t payload tail =
    let n : ℕ = length payload in
    b'S' ∷ b'P' ∷ b'A' ∷ b'D' ∷ id t ∷ (n / 256 % 256) ∷ (n % 256) ∷ (payload ++ tail)

stated-layout :
    (t : ProfileTier) (payload tail : List ℕ)
    → length payload < 65536
    → be_value (get_or (layout t payload tail) 5 0 ∷ get_or (layout t payload tail) 6 0 ∷ [])
      ≡ length payload
stated-layout t payload tail h =
    ap be_value (sym (be_bytes_two (length payload)))
    ∙ be_value-be_bytes 2 (length payload) (omega (arith, h))

open-layout :
    (t : ProfileTier) (payload tail : List ℕ)
    → length payload < 65536
    → accepts_frame_len t (length (layout t payload tail)) ≡ true
    → open_frame t (layout t payload tail) ≡ ok payload
unfolding open_frame
open-layout t payload tail h canonical = ground (
  arith,
  canonical,
  stated-layout t payload tail h,
  length-append payload tail,
  ap (λ k. take k (payload ++ tail)) (stated-layout t payload tail h),
  take-append (length payload) payload tail refl,
)

-- Opening a laid out frame of canonical length leaves its payload in the buffer.
pub remove-layout :
    (t : ProfileTier) (payload tail : List ℕ)
    → length payload < 65536
    → accepts_frame_len t (length (layout t payload tail)) ≡ true
    → remove_profile_in_place t (layout t payload tail) ≡ (payload, ok tt)
unfolding remove_profile_in_place
remove-layout t payload tail h canonical = ground (arith, open-layout t payload tail h canonical)

head-layout :
    (t : ProfileTier) (payload tail : List ℕ)
    → (profile_magic ++ (id t ∷ be_bytes 2 (length payload)) ++ payload) ++ tail
      ≡ layout t payload tail
head-layout t payload tail =
    ap (λ bs. (profile_magic ++ (id t ∷ bs) ++ payload) ++ tail) (be_bytes_two (length payload))
    ∙ refl

module _ {S : Type 0} (rng : Rng S) where
  -- A frame that is written has the length asked for.
  pub write_frame-layout :
      (t : ProfileTier) (payload : List ℕ) (frame_len : ℕ) (s : S) {s' : S} {framed : List ℕ}
      → 7 + length payload ≤ frame_len
      → write_frame rng t payload frame_len s ≡ (s', ok framed)
      → (tail : List ℕ) × (framed ≡ layout t payload tail) × (length framed ≡ frame_len)
  unfolding write_frame
  write_frame-layout t payload frame_len s {s'} {framed} h e =
      let n : ℕ = length payload in
      let head : List ℕ = profile_magic ++ (id t ∷ be_bytes 2 n) ++ payload in
      let room : ℕ = frame_len - (profile_header_bytes + n) in
      elim (Bool-cases (ltb (profile_header_bytes + n) frame_len)) [
        | inl longer ↦ elim (Option-cases (rng.try_fill_bytes s room).1) [
          | inl failed ↦ absurd (ground (arith, failed, longer))
          | inr (bytes, done) ↦
              let same : framed ≡ head ++ bytes = ground (arith, done, longer) in
              let laid : framed ≡ layout t payload bytes = same ∙ head-layout t payload bytes in
              (
                bytes,
                laid,
                omega
                    (arith, ap length laid, length-append payload bytes, rng.filled s room done, h),
              )
        ]
        | inr exact ↦
            let same : framed ≡ head = ground (arith, exact) in
            let laid : framed ≡ layout t payload [] =
              same ∙ sym (append_nil head) ∙ head-layout t payload [] in
            ([], laid, ground (arith, ap length laid, length-append {A = ℕ} payload []))
      ]
