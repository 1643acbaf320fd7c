-- ===== src/Core/Cipher/Tests.antt =====
-- The ciphers' theorems with a toy cipher that puts the key before the plaintext.
use shph.Prelude.{
  ℕ, ◌≡◌, ◌≢◌, refl, sym, ap, ◌∙◌, none, List, [], ◌∷◌, ◌++◌, length, take, drop, bytes_eq,
  bytes_eq_refl, take-append, drop-append, if◌then◌else◌, arith, Result, ok, err, ShphError, crypto,
}
use shph.Prelude.Bytes.{be_bytes}
use shph.Core.Cipher.{
  Aead, SendCipher, new_receiver, encrypt, decrypt, nonce_bytes, sealed_frame, opened_frame,
  nonce_counter, candidate,
}
use shph.Core.Cipher.Send.{after_sends, nonce_never_reused}
use shph.Core.Cipher.Session.{start, after_frames, delivered_once}
use shph.Core.Cipher.InOrder.{send_all, receive_all, session_delivers}

abbrev toy_seal : List ℕ → List ℕ → List ℕ → Result ShphError (List ℕ)
toy_seal key nonce plaintext = ok (key ++ plaintext)

abbrev toy_unseal : List ℕ → List ℕ → List ℕ → Result ShphError (List ℕ)
toy_unseal key nonce sealed =
    if bytes_eq (take (length key) sealed) key
    then ok (drop (length key) sealed)
    else err (crypto "toy")

toy_unseal-seal :
    (key nonce plaintext sealed : List ℕ)
    → toy_seal key nonce plaintext ≡ ok sealed
    → toy_unseal key nonce sealed ≡ ok plaintext
toy_unseal-seal key nonce plaintext sealed e =
    let same : key ++ plaintext ≡ sealed = ground (arith, e) in
    let head : take (length key) sealed ≡ key =
      ap (take (length key)) (sym same) ∙ take-append (length key) key plaintext refl in
    let tail : drop (length key) sealed ≡ plaintext =
      ap (drop (length key)) (sym same) ∙ drop-append (length key) key plaintext refl in
    ground (arith, tail, ap (λ t. bytes_eq t key) head ∙ bytes_eq_refl key)

abbrev toy : Aead
toy = record {
  new_from_slice = λ key. ok tt;
  seal = toy_seal;
  unseal = toy_unseal;
  unseal-seal = toy_unseal-seal;
}

abbrev sender : ℕ → SendCipher
sender n = record { key = 7 ∷ []; nonce = n }

abbrev frame : ℕ → ℕ → List ℕ
frame n byte = nonce_bytes n ++ (7 ∷ byte ∷ [])

nonce_never_reused_example : take 12 (frame 0 1) ≢ take 12 (frame 2 1)
unfolding encrypt sealed_frame after_sends
nonce_never_reused_example =
    nonce_never_reused toy (sender 0) (1 ∷ []) (1 ∷ []) ((2 ∷ []) ∷ []) refl refl

session_delivers_example :
    receive_all toy (new_receiver (7 ∷ [])) (frame 0 1 ∷ frame 1 2 ∷ [])
    ≡ ok ((1 ∷ []) ∷ (2 ∷ []) ∷ [])
unfolding encrypt sealed_frame send_all
session_delivers_example = session_delivers toy (7 ∷ []) ((1 ∷ []) ∷ (2 ∷ []) ∷ []) refl

delivered_once_example :
    (decrypt toy
      (after_frames toy (decrypt toy (start (7 ∷ []) none) (frame 0 1)).0 (frame 1 2 ∷ []))
      (frame 0 3)).1
    ≢ ok (3 ∷ [])
unfolding start after_frames decrypt opened_frame nonce_bytes nonce_counter candidate be_bytes
delivered_once_example =
    delivered_once toy (7 ∷ []) none [] (frame 1 2 ∷ []) (frame 0 1) (frame 0 3) {p = 1 ∷ []} refl
      refl
