-- ===== src/Core/Cipher/InOrder.antt =====
-- Frames that arrive in the order in which they were sent are all delivered, as they were sent.
use shph.Prelude.{
  ℕ, ◌≡◌, refl, ap, ap₂, ◌∙◌, false, Option, none, some, List, [], ◌∷◌, take, drop, arith, Result,
  ok, ShphError, >>=-eq-ok, ◌>>=◌, subst, take-append, drop-append, length, length-append, ltb,
}
use shph.Core.Cipher.{
  Aead, SendCipher, strict, ReceiveCipher, new_receiver, candidate, is_stale, nonce_counter,
  encrypt, decrypt, opened_frame, nonce_bytes,
}
use shph.Core.Cipher.Nonce.{length-nonce_bytes, nonce_counter-nonce_bytes}
use shph.Core.Cipher.Send.{Sealed, encrypt_cases}

-- The strict mark lies below the sender's counter.
abbrev Behind : ReceiveCipher → SendCipher → Type 0
Behind r c =
    (last : Option ℕ) × (r.replay ≡ strict last) × (is_stale last c.nonce ≡ false) × (r.key ≡ c.key)

module _ (aead : Aead) where
  -- A sender's frames for a list of messages, stopping at the first error.
  unfoldable pub send_all : SendCipher → List (List ℕ) → Result ShphError (List (List ℕ))
  send_all c [] = ok []
  send_all c (p ∷ ps) = do
    f ← (encrypt aead c p).1
    fs ← send_all (encrypt aead c p).0 ps
    ok (f ∷ fs)

  -- A receiver's messages for a list of frames, stopping at the first error.
  unfoldable pub receive_all : ReceiveCipher → List (List ℕ) → Result ShphError (List (List ℕ))
  receive_all r [] = ok []
  receive_all r (f ∷ fs) = do
    p ← (decrypt aead r f).1
    ps ← receive_all (decrypt aead r f).0 fs
    ok (p ∷ ps)

  opened-Sealed :
      (r : ReceiveCipher) (c : SendCipher) (last : Option ℕ) (p f : List ℕ)
      → r.replay ≡ strict last
      → is_stale last c.nonce ≡ false
      → r.key ≡ c.key
      → Sealed aead c p f
      → opened_frame aead r f ≡ ok (p, strict (some c.nonce))
  unfolding opened_frame
  opened-Sealed r c last p f state newer same s =
      let n : List ℕ = nonce_bytes c.nonce in
      let twelve : length n ≡ 12 = length-nonce_bytes c.nonce in
      let prefix : take 12 f ≡ n = ap (take 12) s.framed ∙ take-append 12 n s.body twelve in
      let rest : drop 12 f ≡ s.body = ap (drop 12) s.framed ∙ drop-append 12 n s.body twelve in
      let counted : nonce_counter (take 12 f) ≡ ok c.nonce =
        ap nonce_counter prefix ∙ nonce_counter-nonce_bytes c.nonce (omega (arith, s.below)) in
      let admitted : candidate r.replay c.nonce ≡ ok (strict (some c.nonce)) =
        ap (λ t. candidate t c.nonce) state ∙ unfold candidate in ground (arith, newer) in
      let long : ltb (length f) 12 ≡ false =
        ground (arith, ap (λ (t : List ℕ). length t) s.framed, length-append n s.body, twelve) in
      let opens : aead.unseal r.key (take 12 f) (drop 12 f) ≡ ok p =
        ap (λ k. aead.unseal k (take 12 f) (drop 12 f)) same
        ∙ ap₂ (aead.unseal c.key) prefix rest
        ∙ aead.unseal-seal c.key n p s.body s.sealed in
      let keyed : aead.new_from_slice r.key ≡ ok tt = ap aead.new_from_slice same ∙ s.key_ok in
      rw (keyed, long, counted, admitted, opens) refl

  decrypt-encrypt :
      (r : ReceiveCipher) (c : SendCipher) (p : List ℕ) {f : List ℕ}
      → Behind r c
      → (encrypt aead c p).1 ≡ ok f
      → (decrypt aead r f ≡ (record r { replay = strict (some c.nonce) }, ok p))
        × Behind (record r { replay = strict (some c.nonce) }) (encrypt aead c p).0
  unfolding decrypt
  decrypt-encrypt r c p {f} (last, state, newer, same) sent =
      let (s, next) = encrypt_cases aead c p sent in
      (
        rw (opened-Sealed r c last p f state newer same s) refl,
        rw next (some c.nonce, refl, unfold is_stale in ground arith, same),
      )

  receive-send :
      (ps : List (List ℕ)) (r : ReceiveCipher) (c : SendCipher) {fs : List (List ℕ)}
      → Behind r c
      → send_all c ps ≡ ok fs
      → receive_all r fs ≡ ok ps
  unfolding send_all receive_all
  receive-send [] r c {fs} behind sent =
      let empty : [] ≡ fs = ground arith in subst (λ t. receive_all r t ≡ ok []) empty refl
  receive-send (p ∷ ps) r c {fs} behind sent =
      let (f, first, later) = >>=-eq-ok (encrypt aead c p).1 _ sent in
      let (rest, sent_rest, last) = >>=-eq-ok (send_all (encrypt aead c p).0 ps) _ later in
      let (opened, behind') = decrypt-encrypt r c p behind first in
      let r' : ReceiveCipher = record r { replay = strict (some c.nonce) } in
      let tail : receive_all r' rest ≡ ok ps =
        receive-send ps r' (encrypt aead c p).0 behind' sent_rest in
      let whole : f ∷ rest ≡ fs = ground (arith, last) in
      subst (λ t. receive_all r t ≡ ok (p ∷ ps)) whole (rw (opened, tail) refl)

  -- Whatever messages a new sender manages to seal, a new strict receiver with the same key that is
  -- given the frames in order delivers exactly those messages.
  pub session_delivers :
      (key : List ℕ) (messages : List (List ℕ)) {frames : List (List ℕ)}
      → send_all (record { key = key; nonce = 0 }) messages ≡ ok frames
      → receive_all (new_receiver key) frames ≡ ok messages
  session_delivers key messages sent =
      receive-send messages (new_receiver key) (record { key = key; nonce = 0 })
        (none, refl, unfold is_stale in refl, refl) sent
