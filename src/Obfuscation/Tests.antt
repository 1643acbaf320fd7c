-- ===== src/Obfuscation/Tests.antt =====
-- The padding theorems with a generator that counts.
use shph.Prelude.{
  ℕ, suc, ◌%◌, ◌^◌, ◌≡◌, refl, ap, true, some, List, [], ◌∷◌, ◌++◌, String, length, replicate,
  length-replicate, arith, ok, err, obfuscation, sym, ◌∙◌,
}
use shph.Obfuscation.{
  Rng, profile_magic, tuned_low, low, apply_profile_into_with_rng, remove_profile_in_place,
  accepts_frame_len, max_payload_bytes, open_frame,
}
use shph.Prelude.Bytes.{be_value}
use shph.Obfuscation.RoundTrip.{remove-apply}
use shph.Obfuscation.Decides.{Decides, remove-Decides}

abbrev counting : Rng ℕ
counting = record {
  next_u32 = λ s. (suc s, s % 2 ^ 32);
  next_u32_bound = λ s. omega arith;
  try_fill_bytes = λ s n. (suc s, some (replicate n 1));
  filled = λ s n {bytes} e. filled_lem n bytes e;
}
  where
    filled_lem : (n : ℕ) (bytes : List ℕ) → some (replicate n 1) ≡ some bytes → length bytes ≡ n
    filled_lem n bytes e =
        let same : replicate n 1 ≡ bytes = ground (arith, e) in
        ap length (sym same) ∙ length-replicate {A = ℕ} n 1

abbrev text : String → ℕ → String
text s n = s

abbrev hi : List ℕ
hi = b'h' ∷ b'i' ∷ []

remove-apply_example :
    (s' : ℕ) × (framed : List ℕ) × (apply_profile_into_with_rng counting text 1 tuned_low hi 6
      ≡ some (s', framed, ok tt))
    × (accepts_frame_len tuned_low (length framed) ≡ true)
    × (remove_profile_in_place tuned_low framed ≡ (hi, ok tt))
unfolding max_payload_bytes
remove-apply_example =
    remove-apply counting text (λ s n. (replicate n 1, refl)) 0 tuned_low hi 6 (omega arith)

-- What follows the marker of a frame of 128 bytes with the payload `hi`.
abbrev behind_marker : List ℕ
behind_marker = 0 ∷ 0 ∷ 2 ∷ b'h' ∷ b'i' ∷ replicate 119 1

removed : remove_profile_in_place low (profile_magic ++ behind_marker) ≡ (hi, ok tt)
unfolding remove_profile_in_place open_frame be_value
removed = refl

remove-Decides_example :
    Decides low
      (profile_magic ++ behind_marker)
      (remove_profile_in_place low (profile_magic ++ behind_marker))
remove-Decides_example = remove-Decides low behind_marker (omega arith)

-- The same frame, cut behind its tier.
remove_refused :
    remove_profile_in_place low (profile_magic ++ (0 ∷ []))
    ≡ ([], err (obfuscation "profile envelope is truncated"))
unfolding remove_profile_in_place open_frame
remove_refused = refl
