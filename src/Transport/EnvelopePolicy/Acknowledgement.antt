-- ===== src/Transport/EnvelopePolicy/Acknowledgement.antt =====
-- `EnvelopeOffer::acknowledgement`: both peers hash the same description of their agreement. SHA-256 is a
-- parameter.
use shph.Prelude.{
  ℕ, ◌%◌, ◌^◌, ◌≡◌, refl, sym, ap, ◌∙◌, subst, Bool, true, false, ◌&&◌, ◌||◌, List, [], ◌∷◌, ◌++◌,
  ltb, ◌==◌, arith, Bool-cases, inl, inr, Result, ok, ◌>>=◌, >>=-eq-ok, ShphError,
}
use shph.Prelude.Bytes.{be_bytes}
use shph.Obfuscation.{ProfileTier, id}
use shph.Transport.EnvelopePolicy.{FrameBudget}
use shph.Transport.EnvelopePolicy.Offer.{EnvelopeOffer}
use shph.Transport.EnvelopePolicy.Negotiate.{NegotiatedPolicy, negotiate}
use shph.Transport.EnvelopePolicy.Wire.{encode, decode, budget_bytes}
use shph.Transport.EnvelopePolicy.Mirrors.{mirror, negotiate-mirrors}
use shph.Transport.EnvelopePolicy.Blocks.{IsOffer}
use shph.Transport.EnvelopePolicy.RoundTrip.{decode-encode_offer}

-- The order of byte strings.
abbrev pub bytes_le : List ℕ → List ℕ → Bool
bytes_le [] ys = true
bytes_le (x ∷ xs) [] = false
bytes_le (x ∷ xs) (y ∷ ys) = ltb x y || (x == y && bytes_le xs ys)

abbrev pub ack_domain : List ℕ
ack_domain =
    b'S' ∷ b'H' ∷ b'P' ∷ b'H' ∷ b'-' ∷ b'p' ∷ b'o' ∷ b'l' ∷ b'i' ∷ b'c' ∷ b'y' ∷ b'-' ∷ b'a' ∷ b'c'
    ∷ b'k' ∷ b'-' ∷ b'v' ∷ b'2' ∷ 0 ∷ []

-- The bytes hashed: the two offers in order, the profile, and the limits and budgets of the first.
unfoldable pub ack_bytes :
    List ℕ → List ℕ → ProfileTier → ℕ → ℕ → FrameBudget → FrameBudget → List ℕ
ack_bytes first second tier first_limit second_limit first_budget second_budget =
    ack_domain
    ++ first
    ++ second
    ++ (id tier ∷ [])
    ++ be_bytes 2 (first_limit % 2 ^ 16)
    ++ be_bytes 2 (second_limit % 2 ^ 16)
    ++ budget_bytes first_budget
    ++ budget_bytes second_budget

unfoldable pub ack_message : Bool → List ℕ → List ℕ → NegotiatedPolicy → List ℕ
ack_message true local remote p =
    ack_bytes local remote p.config.profile p.outbound_frame_limit p.inbound_frame_limit
      p.outbound_budget p.inbound_budget
ack_message false local remote p =
    ack_bytes remote local p.config.profile p.inbound_frame_limit p.outbound_frame_limit
      p.inbound_budget p.outbound_budget

unfoldable pub acknowledgement :
    (List ℕ → List ℕ) → EnvelopeOffer → EnvelopeOffer → Result ShphError (List ℕ)
acknowledgement sha256 o peer = do
  agreement ← negotiate o peer
  let local = encode o
  let remote = encode peer
  ok (sha256 (ack_message (bytes_le local remote) local remote agreement))

bytes_le_total : (xs ys : List ℕ) → bytes_le xs ys ≡ false → bytes_le ys xs ≡ true
bytes_le_total [] ys h = absurd (ground arith)
bytes_le_total (x ∷ xs) [] h = refl
bytes_le_total (x ∷ xs) (y ∷ ys) h = ground (arith, bytes_le_total xs ys)

bytes_le_antisym : (xs ys : List ℕ) → bytes_le xs ys ≡ true → bytes_le ys xs ≡ true → xs ≡ ys
bytes_le_antisym [] [] h k = refl
bytes_le_antisym [] (y ∷ ys) h k = absurd (ground arith)
bytes_le_antisym (x ∷ xs) [] h k = absurd (ground arith)
bytes_le_antisym (x ∷ xs) (y ∷ ys) h k = ground (arith, bytes_le_antisym xs ys)

ok_injective :
    (o peer : EnvelopeOffer) → ◌≡◌ {A = Result ShphError EnvelopeOffer} (ok o) (ok peer) → o ≡ peer
ok_injective o peer e = cc

encode_injective :
    (o peer : EnvelopeOffer) → IsOffer o → IsOffer peer → encode o ≡ encode peer → o ≡ peer
encode_injective o peer v w e =
    ok_injective o peer
      (sym (decode-encode_offer o v).1 ∙ ap decode e ∙ (decode-encode_offer peer w).1)

-- The message is the same from both sides, when the two offers are not the same bytes.
ack_message_sym :
    (local remote : List ℕ) (p : NegotiatedPolicy) (first : Bool)
    → bytes_le local remote ≡ first
    → (bytes_le remote local ≡ true → first ≡ false)
    → ack_message (bytes_le remote local) remote local (mirror p)
      ≡ ack_message (bytes_le local remote) local remote p
unfolding ack_message
ack_message_sym local remote p true h k = elim (Bool-cases (bytes_le remote local)) [
  | inl back ↦ absurd (ground (arith, k back))
  | inr back ↦ rw h (rw back refl)
]
ack_message_sym local remote p false h k = rw h (rw (bytes_le_total local remote h) refl)

module _ (sha256 : List ℕ → List ℕ) (o peer : EnvelopeOffer) {hash : List ℕ}
    (h : acknowledgement sha256 o peer ≡ ok hash) where
  distinct_agrees :
      (bytes_le (encode peer) (encode o) ≡ true → bytes_le (encode o) (encode peer) ≡ false)
      → acknowledgement sha256 peer o ≡ ok hash
  unfolding acknowledgement
  distinct_agrees apart =
      let local = encode o in
      let remote = encode peer in
      let (p, agreed, hashed) =
        >>=-eq-ok (negotiate o peer)
          (λ p. ok (sha256 (ack_message (bytes_le local remote) local remote p))) h in
      ap (λ r. r >>= λ p. ok (sha256 (ack_message (bytes_le remote local) remote local p)))
        (negotiate-mirrors o peer {p = p} agreed)
      ∙ ap (λ m. ok (sha256 m)) (ack_message_sym local remote p (bytes_le local remote) refl apart)
      ∙ hashed

  same_agrees : o ≡ peer → acknowledgement sha256 peer o ≡ ok hash
  same_agrees same =
      subst (λ x. acknowledgement sha256 x o ≡ ok hash) same
        (subst (λ x. acknowledgement sha256 o x ≡ ok hash) (sym same) h)

-- When one peer computes an acknowledgement, the other computes the same one. The numbers of both offers
-- are within the ranges of their types and their parts pass the checks of their constructors (`IsOffer`).
pub acknowledgement_agrees :
    (sha256 : List ℕ → List ℕ) (o peer : EnvelopeOffer) {hash : List ℕ}
    → IsOffer o
    → IsOffer peer
    → acknowledgement sha256 o peer ≡ ok hash
    → acknowledgement sha256 peer o ≡ ok hash
acknowledgement_agrees sha256 o peer {hash} v w h =
    elim (Bool-cases (bytes_le (encode o) (encode peer))) [
      | inr after ↦ distinct_agrees sha256 o peer {hash = hash} h (λ back. after)
      | inl before ↦ elim (Bool-cases (bytes_le (encode peer) (encode o))) [
        | inl back ↦
            same_agrees sha256 o peer {hash = hash} h
              (encode_injective o peer v w (bytes_le_antisym (encode o) (encode peer) before back))
        | inr back ↦
            distinct_agrees sha256 o peer {hash = hash} h
              (λ again. absurd (ground (arith, back, again)))
      ]
    ]
