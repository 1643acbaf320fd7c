-- ===== src/Core/Hkdf/Tests.antt =====
-- Two parts of a context, with an expansion that returns its salt.
use shph.Prelude.{ℕ, ◌≡◌, List, [], ◌∷◌, arith, Result, ok, ShphError}
use shph.Core.Hkdf.{hkdf_sha256_into, hkdf_sha256}
use shph.Core.Hkdf.Context.{hkdf-joined}

abbrev toy : List ℕ → List ℕ → ℕ → Result ShphError (List ℕ)
toy salt input_key output_len = ok salt

abbrev context : List (List ℕ)
context = (1 ∷ 2 ∷ []) ∷ [] ∷ (3 ∷ []) ∷ []

hkdf-joined_example :
    (hkdf_sha256_into toy (9 ∷ []) context 32 ≡ ok (1 ∷ 2 ∷ 3 ∷ []))
    × (hkdf_sha256 toy (9 ∷ []) context 32 ≡ ok (1 ∷ 2 ∷ 3 ∷ []))
hkdf-joined_example = hkdf-joined toy (9 ∷ []) context 32 (omega arith) (omega arith)
