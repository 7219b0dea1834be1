-- ===== src/Examples/Meaning.antt =====
-- The semantic order and the reader's progress in c/struple.c: runs, and the theorems at concrete inputs.
use struple.Prelude.{
  ℕ, ◌+◌, ◌*◌, ◌^◌, ◌≡◌, refl, arith, List, [], ◌∷◌, ◌++◌, Ordering, false, some, none,
  if◌then◌else◌, ltb,
}
use struple.Prelude.Int.{pos, negsuc}
use struple.Bytes.BigEndian.{be_from}
use struple.Writer.{writer_init}
use struple.Encode.Ints.{append_int}
use struple.Encode.Scalars.{append_f64}
use struple.Floats.{fabs, double_of_int, widen}
use struple.Reader.{int, f32, f64, decimal, reader_at, reader_init}
use struple.Reader.Next.{reader_next, transcode, transcode_loop}
use struple.Reader.Progress.{Behind, reader_next-Behind}
use struple.Reader.Rounds.{transcode-transcode_loop}
use struple.Semantic.{sem_decompose}
use struple.Semantic.Numbers.{sem_sign}
use struple.Semantic.Base10.{B10, sem_b10_mag, sem_b10_float, with_sign}
use struple.Semantic.Order.{sem_numbers, semantic_order, max_depth}
use struple.Semantic.Exact.{sem_b10_mag-exact, value_of, lift_of}
use struple.Semantic.DoubleValues.{double_units, sem_b10_float-exact}
use struple.Semantic.Depth.{nested_arrays, semantic_order-nested_arrays}
use struple.Semantic.Antisymmetry.{flipped, semantic_order-flip}
use struple.Compare.{order_of}

-- 5 and 5.0, 2 ^ 53 + 1 and 2.0 ^ 53, 1.5 as a decimal and as a double, as a float and as a double
five : sem_numbers (int (pos 5)) (f64 0x4014000000000000) ≡ Ordering.eq
unfolding sem_numbers struple.Semantic.Numbers.sem_int_finite struple.Semantic.Numbers.sem_i64_float
    double_of_int
five = refl

beyond_53 : sem_numbers (int (pos (2 ^ 53 + 1))) (f64 0x4340000000000000) ≡ Ordering.gt
unfolding sem_numbers struple.Semantic.Numbers.sem_int_finite struple.Semantic.Numbers.sem_i64_float
    struple.Semantic.sem_u64_scaled sem_decompose struple.Encode.Ints.magnitude
beyond_53 = refl

half : sem_numbers (decimal false (negsuc 0) (1 ∷ 5 ∷ [])) (f64 0x3ff8000000000000) ≡ Ordering.eq
unfolding sem_numbers struple.Semantic.Base10.sem_with_decimal sem_sign
    struple.Encode.Ints.strip_zeros struple.Semantic.Digits.sem_dec_digits_to_mag
    struple.Semantic.sem_cmp_mag struple.Semantic.sem_shl struple.Semantic.Digits.sem_mul_pow
    sem_decompose struple.Bytes.Words.word_bytes
half = refl

floats : sem_numbers (f32 0x3fc00000) (f64 0x3ff8000000000000) ≡ Ordering.eq
unfolding sem_numbers widen struple.Semantic.Numbers.sem_dcmp
floats = refl

ten_eleven : sem_numbers (decimal false (pos 1) (1 ∷ [])) (int (pos 11)) ≡ Ordering.lt
unfolding sem_numbers struple.Semantic.Base10.sem_with_decimal struple.Encode.Ints.strip_zeros
    struple.Bytes.u64_to_be struple.Encode.Ints.magnitude
    struple.Semantic.Digits.sem_dec_digits_to_mag struple.Semantic.sem_cmp_mag
    struple.Semantic.Digits.sem_mul_pow
ten_eleven = refl

converted : (double_of_int (negsuc 4) ≡ 0xc014000000000000) × (widen 1 ≡ 0x36a0000000000000)
unfolding double_of_int widen
converted = (refl, refl)

-- The encodings of 5 and of 5.5
abbrev int_five : List ℕ
int_five = 0x21 ∷ 5 ∷ []

abbrev float_stream : List ℕ
float_stream = (append_f64 writer_init 0x4016000000000000).bytes

semantic_order-flip_example :
    semantic_order float_stream int_five ≡ flipped (semantic_order int_five float_stream)
semantic_order-flip_example = semantic_order-flip int_five float_stream

-- 15 * 10 ^ -1 and 2 * 10 ^ 400
abbrev one_and_half : B10
one_and_half = record { sign = Ordering.gt; mag = 15 ∷ []; exp10 = negsuc 0 }

abbrev huge : B10
huge = record { sign = Ordering.gt; mag = 2 ∷ []; exp10 = pos 400 }

sem_b10_mag-exact_example :
    sem_b10_mag one_and_half huge
    ≡ order_of
        (value_of one_and_half * 10 ^ lift_of (negsuc 0) (pos 400))
        (value_of huge * 10 ^ lift_of (pos 400) (negsuc 0))
unfolding be_from
sem_b10_mag-exact_example =
    sem_b10_mag-exact one_and_half huge (omega arith) (omega arith) (omega arith) (omega arith)

sem_b10_float-exact_example :
    sem_b10_float huge 0x3ff8000000000000
    ≡ with_sign Ordering.gt (
        order_of
          (value_of huge * 10 ^ 400 * 2 ^ 1074)
          (double_units (fabs 0x3ff8000000000000) * 10 ^ 0))
unfolding be_from sem_sign
sem_b10_float-exact_example =
    sem_b10_float-exact huge 0x3ff8000000000000 (omega arith) (omega arith) (omega arith)
      (omega arith) refl

semantic_order-nested_arrays_example :
    semantic_order (nested_arrays 257) (nested_arrays 257)
    ≡ (if ltb max_depth 257 then none else some Ordering.eq)
semantic_order-nested_arrays_example = semantic_order-nested_arrays 257

-- A string without its terminator
abbrev cut_off : List ℕ
cut_off = 0x40 ∷ 104 ∷ []

reader_next-Behind_example : Behind (reader_at 3 cut_off) (reader_next (reader_at 3 cut_off)).1
reader_next-Behind_example = reader_next-Behind (reader_at 3 cut_off)

transcode-transcode_loop_example :
    transcode_loop 100 (reader_init (int_five ++ cut_off)) writer_init
    ≡ transcode (int_five ++ cut_off) writer_init
transcode-transcode_loop_example =
    transcode-transcode_loop (int_five ++ cut_off) writer_init 100 (omega arith)
