-- ===== src/Core/Cipher/Receive.antt =====
-- The receiver's replay state: what a call stores, and that no counter is delivered twice.
use shph.Prelude.{
  ℕ, ◌≤◌, ◌≡◌, refl, sym, ap, ◌∙◌, true, false, Option, none, some, List, ◌∷◌, length, take, drop,
  arith, ok, err, ShphError, crypto, Result-cases, ◌⊎◌, inl, inr, ltb, >>-eq-ok, >>=-eq-ok,
  reject_if, subst, reject_if-eq-ok,
}
use shph.Core.Window.{ReplayWindow, check_and_insert}
use shph.Core.Window.History.{contains}
use shph.Core.Window.Refine.{Represents, check_and_insert-Agrees, recorded}
use shph.Core.Window.Replay.{contains-recorded, refuse_seen}
use shph.Core.Cipher.{
  Aead, ReplayState, strict, window, ReceiveCipher, candidate, is_stale, nonce_counter,
  opened_frame, decrypt,
}

-- The state has met these counters: a number at or below the strict mark, or one in the history
-- behind the window.
abbrev pub Knows : ReplayState → ℕ → Type 0
Knows (strict none) n = ⊥
Knows (strict (some last)) n = n ≤ last
Knows (window w) n = (seen : List ℕ) × Represents w seen × (contains seen n ≡ true)

abbrev pub IsGood : ReplayState → Type 0
IsGood (strict last) = Unit
IsGood (window w) = (seen : List ℕ) × Represents w seen

window_candidate :
    (w : ReplayWindow) (n : ℕ) {s : ReplayState}
    → candidate (window w) n ≡ ok s
    → ((check_and_insert w n).1 ≡ true) × (s ≡ window (check_and_insert w n).0)
unfolding candidate
window_candidate w n e = ground arith

strict_candidate :
    (last : Option ℕ) (n : ℕ) {s : ReplayState}
    → candidate (strict last) n ≡ ok s
    → (is_stale last n ≡ false) × (s ≡ strict (some n))
unfolding candidate
strict_candidate last n e = ground arith

pub candidate-IsGood :
    (r s : ReplayState) (n : ℕ) → candidate r n ≡ ok s → IsGood r → IsGood s × Knows s n
candidate-IsGood (strict last) s n e g =
    subst (λ t. IsGood t × Knows t n) (sym (strict_candidate last n e).1) (tt, omega arith)
candidate-IsGood (window w) s n e (seen, r) =
    let (fresh, stored) = window_candidate w n e in
    let (same, next, width) = check_and_insert-Agrees w seen n r in
    let now : Represents (check_and_insert w n).0 (n ∷ seen) =
      subst (λ b. Represents (check_and_insert w n).0 (recorded seen n b)) fresh next in
    subst (λ t. IsGood t × Knows t n) (sym stored)
      ((n ∷ seen, now), (n ∷ seen, now, unfold contains in ground arith))

pub candidate-Knows : (r s : ReplayState) (m n : ℕ) → candidate r m ≡ ok s → Knows r n → Knows s n
candidate-Knows (strict none) s m n e k = absurd k
candidate-Knows (strict (some last)) s m n e k =
    let (newer, stored) = strict_candidate (some last) m e in
    subst (λ t. Knows t n) (sym stored) (unfold is_stale in ground (arith, newer))
candidate-Knows (window w) s m n e (seen, r, known) =
    let (fresh, stored) = window_candidate w m e in
    let (same, next, width) = check_and_insert-Agrees w seen m r in
    subst (λ t. Knows t n) (sym stored)
      (
        recorded seen m (check_and_insert w m).1,
        next,
        contains-recorded seen m n (check_and_insert w m).1 known,
      )

-- A counter that the state knows is refused.
pub candidate-refuses :
    (r : ReplayState) (n : ℕ)
    → Knows r n
    → candidate r n ≡ err (crypto "replay or stale nonce rejected")
unfolding candidate
candidate-refuses (strict none) n k = absurd k
candidate-refuses (strict (some last)) n k = ground arith
candidate-refuses (window w) n (seen, r, known) = ground (arith, refuse_seen w seen n r known)

module _ (aead : Aead) where
  pub record Opened (r : ReceiveCipher) (frame plaintext : List ℕ) (next : ReplayState)
      : Type 0 where
    pub counter : ℕ
    pub key_ok : aead.new_from_slice r.key ≡ ok tt
    pub long : 12 ≤ length frame
    pub counted : nonce_counter (take 12 frame) ≡ ok counter
    pub admitted : candidate r.replay counter ≡ ok next
    pub authentic : aead.unseal r.key (take 12 frame) (drop 12 frame) ≡ ok plaintext

  pub opened_frame-Opened :
      (r : ReceiveCipher) (frame : List ℕ) {plaintext : List ℕ} {next : ReplayState}
      → opened_frame aead r frame ≡ ok (plaintext, next)
      → Opened r frame plaintext next
  unfolding opened_frame
  opened_frame-Opened r frame {plaintext} {next} e =
      let (key_ok, e₁) = >>-eq-ok (aead.new_from_slice r.key) _ e in
      let (room, e₂) = >>-eq-ok (reject_if (ltb (length frame) 12) _) _ e₁ in
      let (counter, counted, e₃) = >>=-eq-ok (nonce_counter (take 12 frame)) _ e₂ in
      let (next', admitted, e₄) = >>=-eq-ok (candidate r.replay counter) _ e₃ in
      let (text, authentic, e₅) =
        >>=-eq-ok (aead.unseal r.key (take 12 frame) (drop 12 frame)) _ e₄ in
      let same : (text ≡ plaintext) × (next' ≡ next) = ground (arith, e₅) in
      record {
        counter = counter;
        key_ok = key_ok;
        long = ground (arith, reject_if-eq-ok (ltb (length frame) 12) _ room);
        counted = counted;
        admitted = admitted ∙ ap ok same.1;
        authentic = authentic ∙ ap ok same.0;
      }

  -- The two outcomes of a call: an error with the receiver as it was, or a frame that passed every
  -- check with the candidate stored.
  pub decrypt_cases :
      (r : ReceiveCipher) (frame : List ℕ)
      → ((e : ShphError) × (decrypt aead r frame ≡ (r, err e)))
        ⊎ ((plaintext : List ℕ) × (next : ReplayState) × Opened r frame plaintext next
            × (decrypt aead r frame ≡ (record r { replay = next }, ok plaintext)))
  unfolding decrypt
  decrypt_cases r frame = elim (Result-cases (opened_frame aead r frame)) [
    | inl ((plaintext, next), done) ↦
        inr (plaintext, next, opened_frame-Opened r frame done, rw done refl)
    | inr (e, failed) ↦ inl (e, rw failed refl)
  ]
