-- ===== src/Core/Hkdf.antt =====
-- `hkdf_sha256` and `hkdf_sha256_into` of shph-core/src/crypto.rs. The expansion of crate `hkdf`, from a salt, an input key
-- and a length to the bytes or an error, is a parameter; a filled output buffer is the list of its bytes.
pub mod Context
mod Tests
use shph.Prelude.{
  ℕ, ◌+◌, ◌*◌, ◌^◌, Option, none, some, List, [], ◌∷◌, ◌++◌, length, take, drop, replicate, ltb,
  leb, if◌then◌else◌, Result, ok, err, ShphError, crypto,
}

abbrev pub max_hkdf_output_bytes : ℕ
max_hkdf_output_bytes = 255 * 32

abbrev pub max_hkdf_context_bytes : ℕ
max_hkdf_context_bytes = 256 * 1024

abbrev pub stack_salt_bytes : ℕ
stack_salt_bytes = 256

-- `try_fold(0usize, |total, part| total.checked_add(part.len()))`
unfoldable pub total_len : ℕ → List (List ℕ) → Option ℕ
total_len total [] = some total
total_len total (part ∷ info) =
    let rest = total_len (total + length part) info in
    if leb (2 ^ 64) (total + length part) then none else rest

-- `salt[offset..offset + part.len()].copy_from_slice(part)`
abbrev pub overwrite : ℕ → List ℕ → List ℕ → List ℕ
overwrite offset part salt = take offset salt ++ (part ++ drop (offset + length part) salt)

-- The loop over the parts, on the stack buffer.
unfoldable pub fill_stack : ℕ → List (List ℕ) → List ℕ → List ℕ
fill_stack offset [] salt = salt
fill_stack offset (part ∷ info) salt =
    fill_stack (offset + length part) info (overwrite offset part salt)

-- The loop over the parts, on the vector.
unfoldable pub extend_all : List ℕ → List (List ℕ) → List ℕ
extend_all salt [] = salt
extend_all salt (part ∷ info) = extend_all (salt ++ part) info

module _ (expand : List ℕ → List ℕ → ℕ → Result ShphError (List ℕ)) where
  -- Behind the check on the length of the output.
  unfoldable pub expand_context : List ℕ → List (List ℕ) → ℕ → Option ℕ → Result ShphError (List ℕ)
  expand_context input_key info output_len none = err (crypto "HKDF context length overflow")
  expand_context input_key info output_len (some salt_len) =
      if ltb max_hkdf_context_bytes salt_len
      then err (crypto "HKDF context exceeds the 256 KiB safety limit")
      else if leb salt_len stack_salt_bytes
      then expand (take salt_len (fill_stack 0 info (replicate stack_salt_bytes 0))) input_key
          output_len
      else expand (extend_all [] info) input_key output_len

  unfoldable pub hkdf_sha256_into : List ℕ → List (List ℕ) → ℕ → Result ShphError (List ℕ)
  hkdf_sha256_into input_key info output_len =
      if ltb max_hkdf_output_bytes output_len
      then err (crypto "HKDF output exceeds the SHA-256 expansion limit")
      else expand_context input_key info output_len (total_len 0 info)

  unfoldable pub hkdf_sha256 : List ℕ → List (List ℕ) → ℕ → Result ShphError (List ℕ)
  hkdf_sha256 input_key info output_len =
      if ltb max_hkdf_output_bytes output_len
      then err (crypto "HKDF output exceeds the SHA-256 expansion limit")
      else hkdf_sha256_into input_key info output_len
