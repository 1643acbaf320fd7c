-- ===== src/Core/Cipher/Session.antt =====
-- A sender and a receiver with one key: delivery in order, and at most once.
use shph.Prelude.{
  ℕ, ◌≡◌, ◌≢◌, ap, ◌∙◌, Option, none, some, List, [], ◌∷◌, take, arith, ok, inl, inr,
}
use shph.Core.Window.Refine.{new-Represents}
use shph.Core.Cipher.{
  Aead, ReceiveCipher, new_receiver, new_with_replay_window, candidate, nonce_counter, decrypt,
}
use shph.Core.Cipher.Receive.{
  decrypt_cases, Knows, IsGood, candidate-IsGood, candidate-Knows, candidate-refuses,
}

-- The two constructors of a receiver: strict order, or a window of a requested size.
unfoldable pub start : List ℕ → Option ℕ → ReceiveCipher
start key none = new_receiver key
start key (some size) = new_with_replay_window key size

start-IsGood : (key : List ℕ) (mode : Option ℕ) → IsGood (start key mode).replay
unfolding start new_with_replay_window
start-IsGood key none = tt
start-IsGood key (some size) = ([], new-Represents size)

module _ (aead : Aead) where
  -- The receiver after a sequence of frames, whatever their results.
  unfoldable pub after_frames : ReceiveCipher → List (List ℕ) → ReceiveCipher
  after_frames r [] = r
  after_frames r (f ∷ fs) = after_frames (decrypt aead r f).0 fs

  decrypt-IsGood :
      (r : ReceiveCipher) (f : List ℕ) → IsGood r.replay → IsGood (decrypt aead r f).0.replay
  decrypt-IsGood r f g = elim (decrypt_cases aead r f) [
    | inl (e, failed) ↦ rw failed g
    | inr (plaintext, next, o, done) ↦
        rw done (candidate-IsGood r.replay next o.counter o.admitted g).0
  ]

  decrypt-Knows :
      (r : ReceiveCipher) (f : List ℕ) (n : ℕ)
      → Knows r.replay n
      → Knows (decrypt aead r f).0.replay n
  decrypt-Knows r f n k = elim (decrypt_cases aead r f) [
    | inl (e, failed) ↦ rw failed k
    | inr (plaintext, next, o, done) ↦
        rw done (candidate-Knows r.replay next o.counter n o.admitted k)
  ]

  after_frames-IsGood :
      (r : ReceiveCipher) (fs : List (List ℕ)) → IsGood r.replay → IsGood (after_frames r fs).replay
  unfolding after_frames
  after_frames-IsGood r [] g = g
  after_frames-IsGood r (f ∷ fs) g =
      after_frames-IsGood (decrypt aead r f).0 fs (decrypt-IsGood r f g)

  after_frames-Knows :
      (r : ReceiveCipher) (fs : List (List ℕ)) (n : ℕ)
      → Knows r.replay n
      → Knows (after_frames r fs).replay n
  unfolding after_frames
  after_frames-Knows r [] n k = k
  after_frames-Knows r (f ∷ fs) n k =
      after_frames-Knows (decrypt aead r f).0 fs n (decrypt-Knows r f n k)

  -- A delivered frame carries a counter that the state knows from then on.
  delivered_counter :
      (r : ReceiveCipher) (f : List ℕ) {p : List ℕ}
      → IsGood r.replay
      → (decrypt aead r f).1 ≡ ok p
      → (n : ℕ) × (nonce_counter (take 12 f) ≡ ok n) × Knows (decrypt aead r f).0.replay n
  delivered_counter r f g e = elim (decrypt_cases aead r f) [
    | inl (x, failed) ↦ absurd (ground (arith, failed))
    | inr (plaintext, next, o, done) ↦
        (o.counter, o.counted, rw done (candidate-IsGood r.replay next o.counter o.admitted g).1)
  ]

  -- A frame whose counter the state knows is not delivered.
  known_not_delivered :
      (r : ReceiveCipher) (f : List ℕ) (n : ℕ) {q : List ℕ}
      → nonce_counter (take 12 f) ≡ ok n
      → Knows r.replay n
      → (decrypt aead r f).1 ≢ ok q
  known_not_delivered r f n counted k e = elim (decrypt_cases aead r f) [
    | inl (x, failed) ↦ ground (arith, failed)
    | inr (plaintext, next, o, done) ↦
        let same : o.counter ≡ n = ground (arith, o.counted, counted) in
        cc (candidate-refuses r.replay n k, o.admitted, ap (candidate r.replay) same)
  ]

  -- In either mode, once a frame has been delivered, no frame with its nonce is delivered again,
  -- whatever frames came before and come between.
  pub delivered_once :
      (key : List ℕ) (mode : Option ℕ) (before between : List (List ℕ)) (f g : List ℕ)
      {p q : List ℕ}
      → let r = after_frames (start key mode) before in
        (decrypt aead r f).1 ≡ ok p
        → take 12 g ≡ take 12 f
        → (decrypt aead (after_frames (decrypt aead r f).0 between) g).1 ≢ ok q
  delivered_once key mode before between f g delivered same =
      let r : ReceiveCipher = after_frames (start key mode) before in
      let good : IsGood r.replay =
        after_frames-IsGood (start key mode) before (start-IsGood key mode) in
      let (n, counted, known) = delivered_counter r f good delivered in
      known_not_delivered (after_frames (decrypt aead r f).0 between) g n
        (ap nonce_counter same ∙ counted) (after_frames-Knows (decrypt aead r f).0 between n known)
