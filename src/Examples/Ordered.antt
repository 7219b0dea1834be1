-- ===== src/Examples/Ordered.antt =====
-- Byte order of encodings: the theorems at concrete inputs.
use struple.Prelude.{◌^◌, ◌≡◌, refl, arith, [], ◌∷◌, ◌++◌}
use struple.Prelude.Int.{pos, negsuc}
use struple.Compare.{compare_bytes}
use struple.Writer.{writer_init}
use struple.Framing.{write_framed}
use struple.Encode.Ints.{append_int}
use struple.Encode.Scalars.{append_f64, append_timestamp}
use struple.Semantic.{sem_icmp}
use struple.Semantic.Numbers.{sem_dcmp, or_else}
use struple.ByteOrder.Ints.{append_int-sem_icmp}
use struple.ByteOrder.Scalars.{append_f64-sem_dcmp, append_timestamp-sem_icmp}
use struple.ByteOrder.Frames.{write_framed-compare_bytes}

-- -300 and 2 ^ 40
append_int-sem_icmp_example :
    compare_bytes
      (append_int writer_init (negsuc 299)).bytes
      (append_int writer_init (pos (2 ^ 40))).bytes
    ≡ sem_icmp (negsuc 299) (pos (2 ^ 40))
append_int-sem_icmp_example =
    append_int-sem_icmp (negsuc 299) (pos (2 ^ 40)) (omega arith) (omega arith)

-- 1.5 and -0.0
append_f64-sem_dcmp_example :
    compare_bytes
      (append_f64 writer_init 0x3ff8000000000000).bytes
      (append_f64 writer_init 0x8000000000000000).bytes
    ≡ sem_dcmp 0x3ff8000000000000 0x8000000000000000
append_f64-sem_dcmp_example =
    append_f64-sem_dcmp 0x3ff8000000000000 0x8000000000000000 (omega arith) (omega arith) refl refl

append_timestamp-sem_icmp_example :
    compare_bytes
      (append_timestamp writer_init (negsuc 0)).bytes
      (append_timestamp writer_init (pos 5)).bytes
    ≡ sem_icmp (negsuc 0) (pos 5)
append_timestamp-sem_icmp_example =
    append_timestamp-sem_icmp (negsuc 0) (pos 5) (omega arith) (omega arith)

-- Contents that are equal, with a zero inside, and codes behind them
write_framed-compare_bytes_example :
    compare_bytes
      ((write_framed writer_init 0x40 (1 ∷ 0 ∷ [])).bytes ++ 0x20 ∷ [])
      ((write_framed writer_init 0x40 (1 ∷ 0 ∷ [])).bytes ++ 0x21 ∷ 7 ∷ [])
    ≡ or_else (compare_bytes (1 ∷ 0 ∷ []) (1 ∷ 0 ∷ [])) (compare_bytes (0x20 ∷ []) (0x21 ∷ 7 ∷ []))
write_framed-compare_bytes_example =
    write_framed-compare_bytes 0x40 (1 ∷ 0 ∷ []) (1 ∷ 0 ∷ []) (0x20 ∷ []) (0x21 ∷ 7 ∷ [])
      (omega arith) (omega arith)
