-- ===== src/Core/Hkdf/Context.antt =====
-- The salt is the parts of the context in a row, on the stack and on the heap alike.
use mathlib.Core.List.{append_assoc}
use shph.Prelude.{
  ℕ, ◌+◌, ◌^◌, ◌≤◌, ◌<◌, ◌≡◌, refl, sym, ap, ap₂, ◌∙◌, some, List, [], ◌∷◌, ◌++◌, length, take,
  drop, replicate, leb, arith, Result, ShphError, length-append, length-drop, length-replicate,
  take-append, drop-append, drop-drop, Bool-cases, inl, inr,
}
use shph.Core.Hkdf.{
  total_len, overwrite, fill_stack, extend_all, expand_context, hkdf_sha256_into, hkdf_sha256,
  max_hkdf_output_bytes, max_hkdf_context_bytes,
}

abbrev pub joined : List (List ℕ) → List ℕ
joined [] = []
joined (part ∷ info) = part ++ joined info

total_len-joined :
    (total : ℕ) (info : List (List ℕ))
    → total + length (joined info) < 2 ^ 64
    → total_len total info ≡ some (total + length (joined info))
unfolding total_len
total_len-joined total [] h = ap some (omega arith)
total_len-joined total (part ∷ info) h =
    let split : length (part ++ joined info) ≡ length part + length (joined info) =
      length-append part (joined info) in
    ground (arith, split, h, total_len-joined (total + length part) info (omega arith))

append_nil : (xs : List ℕ) → xs ++ [] ≡ xs
append_nil [] = refl
append_nil (x ∷ xs) = ap (◌∷◌ x) (append_nil xs)

extend_all-joined :
    (salt : List ℕ) (info : List (List ℕ)) → extend_all salt info ≡ salt ++ joined info
unfolding extend_all
extend_all-joined salt [] = sym (append_nil salt)
extend_all-joined salt (part ∷ info) =
    extend_all-joined (salt ++ part) info ∙ append_assoc salt part (joined info)

overwrite-append :
    (k : ℕ) (done rest part : List ℕ)
    → k ≡ length done
    → overwrite k part (done ++ rest) ≡ (done ++ part) ++ drop (length part) rest
overwrite-append k done rest part e =
    ap₂ (λ front back. front ++ (part ++ back)) (take-append k done rest (sym e))
      (drop-drop k (length part) (k + length part) (done ++ rest) refl
        ∙ ap (drop (length part)) (drop-append k done rest (sym e)))
    ∙ sym (append_assoc done part (drop (length part) rest))

-- A buffer that holds `done` at its front, filled on.
fill_stack-joined :
    (k n : ℕ) (done rest : List ℕ) (info : List (List ℕ))
    → k ≡ length done
    → n ≡ length done + length (joined info)
    → length (joined info) ≤ length rest
    → take n (fill_stack k info (done ++ rest)) ≡ done ++ joined info
unfolding fill_stack
fill_stack-joined k n done rest [] e total h =
    take-append n done rest (omega arith) ∙ sym (append_nil done)
fill_stack-joined k n done rest (part ∷ info) e total h =
    let split : length (part ++ joined info) ≡ length part + length (joined info) =
      length-append part (joined info) in
    let grown : length (done ++ part) ≡ length done + length part = length-append done part in
    let left : List ℕ = drop (length part) rest in
    ap (λ salt. take n (fill_stack (k + length part) info salt))
      (overwrite-append k done rest part e)
    ∙ fill_stack-joined (k + length part) n (done ++ part) left info (omega arith) (omega arith)
        (omega (arith, length-drop (length part) rest, split, h))
    ∙ append_assoc done part (joined info)

module _ (expand : List ℕ → List ℕ → ℕ → Result ShphError (List ℕ)) where
  -- Within both limits, and whichever buffer serves, both entry points expand the input key under the parts
  -- of the context in a row.
  pub hkdf-joined :
      (input_key : List ℕ) (info : List (List ℕ)) (output_len : ℕ)
      → length (joined info) ≤ max_hkdf_context_bytes
      → output_len ≤ max_hkdf_output_bytes
      → (hkdf_sha256_into expand input_key info output_len
          ≡ expand (joined info) input_key output_len)
        × (hkdf_sha256 expand input_key info output_len ≡ expand (joined info) input_key output_len)
  unfolding hkdf_sha256_into hkdf_sha256 expand_context
  hkdf-joined input_key info output_len small short =
      let n : ℕ = length (joined info) in
      let counted : total_len 0 info ≡ some n =
        total_len-joined 0 info (omega arith) ∙ ap some (omega arith) in
      let heap : extend_all [] info ≡ joined info = extend_all-joined [] info in
      let into : hkdf_sha256_into expand input_key info output_len
          ≡ expand (joined info) input_key output_len =
        elim (Bool-cases (leb n 256)) [
          | inl fits ↦
              let stack : take n (fill_stack 0 info (replicate 256 0)) ≡ joined info =
                fill_stack-joined 0 n [] (replicate 256 0) info refl (omega arith)
                  (ground (arith, fits, length-replicate {A = ℕ} 256 0)) in
              ground (arith, counted, fits, ap (λ salt. expand salt input_key output_len) stack)
          | inr longer ↦
              ground (arith, counted, longer, ap (λ salt. expand salt input_key output_len) heap)
        ] in
      (into, ground (arith, into))
