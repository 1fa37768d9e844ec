-- ===== src/Crc/Tests.antt =====
-- The theorem on the bytes of a short text, and the value that the sum is known to have for the
-- digits from 1 to 9.
use socle.Prelude.{ℕ, ◌≡◌, refl, List, [], ◌∷◌, arith}
use socle.Crc.{table_at, compute_bytes, compute}
use socle.Crc.Shifts.{crc_of, compute-crc_of}

abbrev text : List ℕ
text = 49 ∷ 50 ∷ 51 ∷ []

check_value : compute 0 (49 ∷ 50 ∷ 51 ∷ 52 ∷ 53 ∷ 54 ∷ 55 ∷ 56 ∷ 57 ∷ []) ≡ 0xcbf43926
unfolding compute compute_bytes table_at
check_value = refl

compute-crc_of_example : compute 0 text ≡ crc_of 0 text
compute-crc_of_example = compute-crc_of 0 text (omega arith, (omega arith, (omega arith, tt)))
