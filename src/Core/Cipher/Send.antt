-- ===== src/Core/Cipher/Send.antt =====
-- The sender's counter: what one call writes, and that no nonce is used twice.
use shph.Prelude.{
  ℕ, ◌+◌, ◌≤◌, ◌<◌, ◌≡◌, ◌≢◌, refl, sym, ap, ◌∙◌, List, [], ◌∷◌, ◌++◌, take, arith, ok, err,
  ShphError, take-append, Result-cases, inl, inr, leb, reject_if, crypto, >>-eq-ok, >>=-eq-ok,
  reject_if-eq-ok,
}
use shph.Core.Cipher.{Aead, SendCipher, aead_nonce_limit, nonce_bytes, sealed_frame, encrypt}
use shph.Core.Cipher.Nonce.{length-nonce_bytes, nonce_bytes_injective}

module _ (aead : Aead) where
  pub record Sealed (c : SendCipher) (plaintext frame : List ℕ) : Type 0 where
    pub body : List ℕ
    pub below : c.nonce < aead_nonce_limit
    pub key_ok : aead.new_from_slice c.key ≡ ok tt
    pub sealed : aead.seal c.key (nonce_bytes c.nonce) plaintext ≡ ok body
    pub framed : frame ≡ nonce_bytes c.nonce ++ body

  pub sealed_frame-Sealed :
      (c : SendCipher) (plaintext : List ℕ) {frame : List ℕ}
      → sealed_frame aead c plaintext ≡ ok frame
      → Sealed c plaintext frame
  unfolding sealed_frame
  sealed_frame-Sealed c plaintext {frame} e =
      let (room, e₁) = >>-eq-ok (reject_if (leb aead_nonce_limit c.nonce) _) _ e in
      let (key_ok, e₂) = >>-eq-ok (aead.new_from_slice c.key) _ e₁ in
      let (body, sealed, e₃) = >>=-eq-ok (aead.seal c.key (nonce_bytes c.nonce) plaintext) _ e₂ in
      record {
        body = body;
        below = ground (arith, reject_if-eq-ok (leb aead_nonce_limit c.nonce) _ room);
        key_ok = key_ok;
        sealed = sealed;
        framed = ground arith;
      }

  pub encrypt_cases :
      (c : SendCipher) (plaintext : List ℕ) {frame : List ℕ}
      → (encrypt aead c plaintext).1 ≡ ok frame
      → Sealed c plaintext frame × ((encrypt aead c plaintext).0 ≡ record c { nonce = c.nonce + 1 })
  unfolding encrypt
  encrypt_cases c plaintext {frame} e = elim (Result-cases (sealed_frame aead c plaintext)) [
    | inl (f, done) ↦ (sealed_frame-Sealed c plaintext (ground arith), rw done refl)
    | inr (x, failed) ↦ absurd (ground arith)
  ]

  -- The sender after a sequence of calls, whatever their results.
  unfoldable pub after_sends : SendCipher → List (List ℕ) → SendCipher
  after_sends c [] = c
  after_sends c (p ∷ ps) = after_sends (encrypt aead c p).0 ps

  encrypt-grows : (c : SendCipher) (p : List ℕ) → c.nonce ≤ (encrypt aead c p).0.nonce
  unfolding encrypt
  encrypt-grows c p = ground arith

  after_sends-grows : (c : SendCipher) (ps : List (List ℕ)) → c.nonce ≤ (after_sends c ps).nonce
  unfolding after_sends
  after_sends-grows c [] = omega arith
  after_sends-grows c (p ∷ ps) =
      omega (arith, encrypt-grows c p, after_sends-grows (encrypt aead c p).0 ps)

  Sealed-prefix :
      (c : SendCipher) (p : List ℕ) {f : List ℕ} → Sealed c p f → take 12 f ≡ nonce_bytes c.nonce
  Sealed-prefix c p s =
      ap (take 12) s.framed
      ∙ take-append 12 (nonce_bytes c.nonce) s.body (length-nonce_bytes c.nonce)

  -- Two frames that one sender produced, with any calls between, never carry the same nonce.
  pub nonce_never_reused :
      (c : SendCipher) (p q : List ℕ) (between : List (List ℕ)) {f g : List ℕ}
      → (encrypt aead c p).1 ≡ ok f
      → (encrypt aead (after_sends (encrypt aead c p).0 between) q).1 ≡ ok g
      → take 12 f ≢ take 12 g
  nonce_never_reused c p q between sent again same =
      let (first, next) = encrypt_cases c p sent in
      let c' : SendCipher = after_sends (encrypt aead c p).0 between in
      let (second, last) = encrypt_cases c' q again in
      let equal : c.nonce ≡ c'.nonce =
        nonce_bytes_injective c.nonce c'.nonce (omega (arith, first.below))
          (omega (arith, second.below))
          (sym (Sealed-prefix c p first) ∙ same ∙ Sealed-prefix c' q second) in
      omega (
        arith,
        equal,
        ap (λ (s : SendCipher). s.nonce) next,
        after_sends-grows (encrypt aead c p).0 between,
      )

  -- At the nonce limit or above it every call fails and leaves the sender as it was.
  pub limit_fails_closed :
      (c : SendCipher) (p : List ℕ)
      → aead_nonce_limit ≤ c.nonce
      → (e : ShphError) × (encrypt aead c p ≡ (c, err e))
  unfolding encrypt sealed_frame
  limit_fails_closed c p h =
      (crypto "AEAD nonce limit reached; rekey required to avoid nonce reuse", ground arith)
