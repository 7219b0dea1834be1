-- ===== src/Examples/Orders.antt =====
-- Orders, searches and views of c/struple.c: the theorems at concrete inputs.
use struple.Prelude.{◌≡◌, arith, [], ◌∷◌}
use struple.Prelude.Int.{pos, negsuc}
use struple.Bytes.BigEndian.{be_value}
use struple.Compare.{compare_bytes}
use struple.Compare.Order.{lexicographic, compare_bytes-lexicographic}
use struple.Semantic.{sem_u64_scaled, sem_mag_scaled}
use struple.Semantic.Magnitudes.{scaled, sem_u64_scaled-exact}
use struple.Semantic.Shift.{sem_mag_scaled-exact}
use struple.Examples.{nine_bytes}

compare_bytes-lexicographic_example :
    compare_bytes (1 ∷ 2 ∷ []) (1 ∷ 2 ∷ 3 ∷ []) ≡ lexicographic (1 ∷ 2 ∷ []) (1 ∷ 2 ∷ 3 ∷ [])
compare_bytes-lexicographic_example = compare_bytes-lexicographic (1 ∷ 2 ∷ []) (1 ∷ 2 ∷ 3 ∷ [])

sem_u64_scaled-exact_example : sem_u64_scaled 5 3 (negsuc 0) ≡ scaled 5 3 (negsuc 0)
sem_u64_scaled-exact_example =
    sem_u64_scaled-exact 5 3 (negsuc 0) (omega arith) (omega arith) (omega arith) (omega arith)

sem_mag_scaled-exact_example :
    sem_mag_scaled nine_bytes 3 (pos 63) ≡ scaled (be_value nine_bytes) 3 (pos 63)
sem_mag_scaled-exact_example =
    sem_mag_scaled-exact nine_bytes 3 (pos 63) (omega arith) (omega arith)
