-- ===== src/Obfuscation/RoundTrip.antt =====
-- Removing a profile undoes applying it.
use shph.Prelude.{
  ℕ, suc, ◌+◌, ◌-◌, ◌≤◌, ◌<◌, ◌≡◌, sym, ap, ◌∙◌, true, some, List, [], ◌∷◌, ◌++◌, String, length,
  ltb, arith, Result, ok, err, ShphError, obfuscation, Option-cases, Bool-cases, inl, inr,
}
use shph.Prelude.Bytes.{be_bytes}
use shph.Obfuscation.{
  ProfileTier, id, base_tiers, first_at_least, Rng, jitter_of, jitter_bytes, write_frame,
  sized_frame, wipe_on_error, as_str, apply_profile_into_with_rng, remove_profile_in_place,
  max_payload_bytes, accepts_frame_len, profile_magic,
}
use shph.Obfuscation.Tiers.{
  first_at_least-accepted, first_at_least-fits, first_at_least-none, max_small,
}
use shph.Obfuscation.Sample.{jitter_bound, jitter_drawn}
use shph.Obfuscation.Frame.{write_frame-layout, remove-layout}

wipe_on_error_ok :
    {S : Type 0} (r : S × Result ShphError (List ℕ)) {s' : S} {framed : List ℕ}
    → wipe_on_error r ≡ (s', framed, ok tt)
    → r ≡ (s', ok framed)
wipe_on_error_ok (s, ok bytes) h = ground (arith, h)
wipe_on_error_ok (s, err e) h = absurd (ground (arith, h))

module _ {S : Type 0} (rng : Rng S) (format : String → ℕ → String) where
  sized_frame-RoundTrip :
      (t : ProfileTier) (payload : List ℕ) (base j : ℕ) (s : S) {s' : S} {framed : List ℕ}
      → first_at_least (7 + length payload) (base_tiers t) ≡ some base
      → j ≤ jitter_bytes t
      → sized_frame rng t payload base (s, j) ≡ (s', ok framed)
      → (length framed ≡ base + j) × (remove_profile_in_place t framed ≡ (payload, ok tt))
  unfolding sized_frame
  sized_frame-RoundTrip t payload base j s {s'} {framed} found bounded e =
      let (holds, small, canonical) =
        first_at_least-accepted t (7 + length payload) j found bounded in
      let written : write_frame rng t payload (base + j) s ≡ (s', ok framed) =
        ground (arith, max_small t) in
      let (tail, laid, sized) =
        write_frame-layout rng t payload (base + j) s (omega arith) written in
      let fits : length payload < 65536 = omega (arith, max_small t) in
      (
        sized,
        ap (remove_profile_in_place t) laid
            ∙ remove-layout t payload tail fits
                (ap (accepts_frame_len t) (sym (ap length laid) ∙ sized) ∙ canonical),
      )

  apply-RoundTrip :
      (fuel : ℕ) (t : ProfileTier) (payload : List ℕ) (s : S) {s' : S} {framed : List ℕ}
      → apply_profile_into_with_rng rng format fuel t payload s ≡ some (s', framed, ok tt)
      → (7 + length payload ≤ length framed)
        × (accepts_frame_len t (length framed) ≡ true)
        × (remove_profile_in_place t framed ≡ (payload, ok tt))
  unfolding apply_profile_into_with_rng
  apply-RoundTrip fuel t payload s {s'} {framed} e =
      elim (Option-cases (first_at_least (7 + length payload) (base_tiers t))) [
        | inl missing ↦ absurd (ground (arith, missing))
        | inr (base, found) ↦ elim (Option-cases (jitter_of rng t fuel s)) [
          | inl stuck ↦ absurd (ground (arith, found, stuck))
          | inr ((s1, j), drawn) ↦
              let small : j ≤ jitter_bytes t = jitter_bound rng t fuel s drawn in
              let wiping : wipe_on_error (sized_frame rng t payload base (s1, j))
                  ≡ (s', framed, ok tt) =
                ground (arith, found, drawn) in
              let made : sized_frame rng t payload base (s1, j) ≡ (s', ok framed) =
                wipe_on_error_ok (sized_frame rng t payload base (s1, j)) wiping in
              let (sized, back) = sized_frame-RoundTrip t payload base j s1 found small made in
              let (holds, _, canonical) =
                first_at_least-accepted t (7 + length payload) j found small in
              (omega arith, ap (accepts_frame_len t) sized ∙ canonical, back)
        ]
      ]

  module _
      (fills : (s : S) (n : ℕ) → (bytes : List ℕ) × ((rng.try_fill_bytes s n).1 ≡ some bytes)) where
    write_frame-ok :
        (t : ProfileTier) (payload : List ℕ) (frame_len : ℕ) (s : S)
        → (s' : S) × (framed : List ℕ) × (write_frame rng t payload frame_len s ≡ (s', ok framed))
    unfolding write_frame
    write_frame-ok t payload frame_len s =
        let room : ℕ = frame_len - (7 + length payload) in
        let (bytes, done) = fills s room in
        let head : List ℕ = profile_magic ++ (id t ∷ be_bytes 2 (length payload)) ++ payload in
        elim (Bool-cases (ltb (7 + length payload) frame_len)) [
          | inl longer ↦
              ((rng.try_fill_bytes s room).0, head ++ bytes, ground (arith, longer, done))
          | inr exact ↦ (s, head, ground (arith, exact))
        ]

    apply_succeeds :
        (fuel : ℕ) (t : ProfileTier) (payload : List ℕ) (s : S)
        → length payload ≤ max_payload_bytes t
        → (s' : S) × (framed : List ℕ) × (apply_profile_into_with_rng rng format
              (suc fuel)
              t
              payload
              s
            ≡ some (s', framed, ok tt))
    unfolding apply_profile_into_with_rng sized_frame
    apply_succeeds fuel t payload s fits =
        let (base, found) = first_at_least-fits t (length payload) fits in
        let ((s1, j), drawn) = jitter_drawn rng t fuel s in
        let small : j ≤ jitter_bytes t = jitter_bound rng t (suc fuel) s drawn in
        let (holds, canonical, _) = first_at_least-accepted t (7 + length payload) j found small in
        let (s', framed, written) = write_frame-ok t payload (base + j) s1 in
        (s', framed, ground (arith, found, drawn, written, max_small t, holds, canonical))

    -- With a generator that never fails to fill a buffer: for every tier and every payload within its limit,
    -- applying the profile with any positive number of draws gives
    -- a frame of a length the tier accepts; removing the profile from it leaves the payload in the buffer.
    pub remove-apply :
        (fuel : ℕ) (t : ProfileTier) (payload : List ℕ) (s : S)
        → length payload ≤ max_payload_bytes t
        → (s' : S) × (framed : List ℕ) × (apply_profile_into_with_rng rng format
              (suc fuel)
              t
              payload
              s
            ≡ some (s', framed, ok tt))
          × (accepts_frame_len t (length framed) ≡ true)
          × (remove_profile_in_place t framed ≡ (payload, ok tt))
    remove-apply fuel t payload s fits =
        let (s', framed, applied) = apply_succeeds fuel t payload s fits in
        let (_, canonical, back) = apply-RoundTrip (suc fuel) t payload s applied in
        (s', framed, applied, canonical, back)

  -- A payload above the limit of its tier is refused at once, and the buffer is left empty.
  pub apply_too_long :
      (fuel : ℕ) (t : ProfileTier) (payload : List ℕ) (s : S)
      → max_payload_bytes t < length payload
      → apply_profile_into_with_rng rng format fuel t payload s
        ≡ some (s, [], err (obfuscation (format (as_str t) (length payload))))
  unfolding apply_profile_into_with_rng
  apply_too_long fuel t payload s h = ground (arith, first_at_least-none t (length payload) h)
