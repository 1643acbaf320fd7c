-- ===== src/Obfuscation/Decides.antt =====
-- What removing a profile makes of a buffer that has the marker.
use shph.Prelude.{
  ℕ, ◌/◌, ◌%◌, ◌≤◌, ◌<◌, ◌≡◌, refl, sym, ap, ◌∙◌, subst, true, List, [], ◌∷◌, ◌++◌, length, take,
  drop, All, arith, Result, ok, err, ShphError, Result-cases, inl, inr, take-append-drop,
  length-take,
}
use shph.Prelude.Bytes.{IsByte, be_value, be_value_bound, be_bytes_two, be_bytes-be_value}
use shph.Obfuscation.{
  ProfileTier, id, profile_magic, open_frame, remove_profile_in_place, accepts_frame_len,
}
use shph.Obfuscation.Frame.{layout, remove-layout}

-- The frame of a payload: marker, tier, length, payload and any tail, of a length that the tier accepts.
abbrev pub IsEnvelope : ProfileTier → List ℕ → List ℕ → Type 0
IsEnvelope t framed payload =
    (tail : List ℕ) × (framed ≡ layout t payload tail)
    × (length payload < 65536)
    × (accepts_frame_len t (length framed) ≡ true)

-- The buffer holds the payload of the envelope; or it is empty and there was no envelope of the tier.
abbrev pub Decides : ProfileTier → List ℕ → List ℕ × Result ShphError (Unit {0}) → Type 0
Decides t framed (buffer, ok _) = IsEnvelope t framed buffer
Decides t framed (buffer, err _) =
    (buffer ≡ []) × ((payload : List ℕ) → ¬ IsEnvelope t framed payload)

open_frame-IsEnvelope :
    (t : ProfileTier) (rest : List ℕ) {payload : List ℕ}
    → All IsByte rest
    → open_frame t (profile_magic ++ rest) ≡ ok payload
    → IsEnvelope t (profile_magic ++ rest) payload
unfolding open_frame
open_frame-IsEnvelope t [] h e = absurd (ground (arith, e))
open_frame-IsEnvelope t (i ∷ []) h e = absurd (ground (arith, e))
open_frame-IsEnvelope t (i ∷ j ∷ []) h e = absurd (ground (arith, e))
open_frame-IsEnvelope t (i ∷ j ∷ k ∷ body) {payload} h e =
    let n = be_value (j ∷ k ∷ []) in
    let ours : i ≡ id t = ground (arith, e) in
    let canonical : accepts_frame_len t (length (profile_magic ++ i ∷ j ∷ k ∷ body)) ≡ true =
      ground (arith, e) in
    let room : n ≤ length body = ground (arith, e) in
    let front : take n body ≡ payload = ground (arith, e) in
    let sized : length payload ≡ n = omega (arith, ap length front, length-take n body, room) in
    let small : n < 65536 =
      omega (arith, be_value_bound 2 (j ∷ k ∷ []) refl (h.1.0, (h.1.1.0, tt))) in
    let stated : (n / 256 % 256) ∷ (n % 256) ∷ [] ≡ j ∷ k ∷ [] =
      sym (be_bytes_two n) ∙ be_bytes-be_value 2 (j ∷ k ∷ []) refl (h.1.0, (h.1.1.0, tt)) in
    let counted : (length payload / 256 % 256) ∷ (length payload % 256) ∷ [] ≡ j ∷ k ∷ [] =
      ap (λ m. (m / 256 % 256) ∷ (m % 256) ∷ []) sized ∙ stated in
    let whole : body ≡ payload ++ drop n body =
      sym (take-append-drop n body) ∙ ap (λ xs. xs ++ drop n body) front in
    (drop n body, ground (arith, ours, counted, whole), omega arith, canonical)

opened-remove :
    (t : ProfileTier) (rest payload : List ℕ)
    → open_frame t (profile_magic ++ rest) ≡ ok payload
    → remove_profile_in_place t (profile_magic ++ rest) ≡ (payload, ok tt)
unfolding remove_profile_in_place
opened-remove t rest payload opened = ground (arith, opened)

refused-remove :
    (t : ProfileTier) (rest : List ℕ) (e : ShphError)
    → open_frame t (profile_magic ++ rest) ≡ err e
    → remove_profile_in_place t (profile_magic ++ rest) ≡ ([], err e)
unfolding remove_profile_in_place
refused-remove t rest e refused = ground (arith, refused)

-- A buffer with the marker is opened exactly when it is an envelope of the tier: then the payload is left in
-- it, and else, whatever its other bytes, it is left empty.
pub remove-Decides :
    (t : ProfileTier) (rest : List ℕ)
    → All IsByte rest
    → Decides t (profile_magic ++ rest) (remove_profile_in_place t (profile_magic ++ rest))
remove-Decides t rest bytes = elim (Result-cases (open_frame t (profile_magic ++ rest))) [
  | inl (payload, opened) ↦
      let kept : remove_profile_in_place t (profile_magic ++ rest) ≡ (payload, ok tt) =
        opened-remove t rest payload opened in
      subst (Decides t (profile_magic ++ rest)) (sym kept)
        (open_frame-IsEnvelope t rest bytes opened)
  | inr (e, refused) ↦
      let wiped : remove_profile_in_place t (profile_magic ++ rest) ≡ ([], err e) =
        refused-remove t rest e refused in
      subst (Decides t (profile_magic ++ rest)) (sym wiped) (
        refl,
        λ payload envelope.
            let (tail, same, small, canonical) = envelope in
            let taken : remove_profile_in_place t (profile_magic ++ rest) ≡ (payload, ok tt) =
              ap (remove_profile_in_place t) same
              ∙ remove-layout t payload tail small
                  (ap (λ xs. accepts_frame_len t (length xs)) (sym same) ∙ canonical) in
            ground (arith, wiped, taken),
      )
]
