-- ===== src/RoundTrip/Decimals.antt =====
-- Decimals: `reader_next` behind `append_decimal`.
pub mod Pairs
pub mod Exponent
pub mod Written
use struple.Prelude.{
  ℕ, zero, ◌+◌, ◌-◌, ◌*◌, ◌≤◌, ◌≡◌, refl, ap, arith, List, [], ◌∷◌, ◌++◌, length, length-append,
  All, append_assoc, Bool, true, false, some,
}
use struple.Prelude.Int.{ℤ, pos, negsuc, ◌+ℤ◌, ◌-ℤ◌}
use struple.Codes.{dec_sign_neg, dec_sign_pos, dec_sign_zero, terminator}
use struple.Writer.{writer_init}
use struple.Writer.Contents.{bytes-sw_push}
use struple.Encode.Ints.{strip_zeros, append_int}
use struple.Encode.Ints.Words.{flips}
use struple.Encode.Decimals.{append_decimal, beyond_int32}
use struple.Reader.{decimal, Reader, reader_at}
use struple.Reader.Steps.{take_bytes-append}
use struple.Reader.Next.Big.{length-flips}
use struple.Reader.Decimals.{read_decimal_digits, read_decimal, take_region, region}
use struple.Reader.Next.{item, reader_next, read_payload}
use struple.RoundTrip.Ints.{ReadsBack}
use struple.RoundTrip.Magnitudes.{IsInt64}
use struple.RoundTrip.Decimals.Pairs.{
  pairs, IsTrimmed, pairs-IsPair, end_mark, scan_until-flips, unpack-pairs,
}
use struple.RoundTrip.Decimals.Exponent.{read_dec_exponent-append_int}
use struple.Semantic.Digits.{IsDigit}
pub use Written.{
  IsSignificant, adjusted, sign_byte, decimal_bytes, flips_tail, bytes-append_decimal,
}

back : (n : ℕ) (e : ℤ) → (pos n +ℤ e) -ℤ pos n ≡ e
back n (pos m) = ground arith
back n (negsuc m) = ground arith

pub beyond_int32-IsInt64 : (v : ℤ) → beyond_int32 v ≡ false → IsInt64 v
beyond_int32-IsInt64 (pos n) h = ground arith
beyond_int32-IsInt64 (negsuc n) h = ground arith

pub digits_of : (digits : List ℕ) → IsSignificant digits → All IsDigit digits
digits_of [] h = absurd h
digits_of (d ∷ ds) h = h.1

pub IsSignificant-IsTrimmed : (digits : List ℕ) → IsSignificant digits → IsTrimmed digits
IsSignificant-IsTrimmed [] h = absurd h
IsSignificant-IsTrimmed (d ∷ ds) h = h.2

some_pair :
    (negative : Bool) (digits : List ℕ)
    → IsSignificant digits
    → 1 ≤ length (flips negative (pairs digits))
unfolding pairs
some_pair negative [] h = absurd h
some_pair negative (d ∷ []) h = omega (arith, length-flips negative ((d * 10 + 1) ∷ []))
some_pair negative (d ∷ e ∷ ds) h =
    omega (arith, length-flips negative ((d * 10 + e + 1) ∷ pairs ds))

region_lem :
    (r : Reader) (p rest : List ℕ)
    → 1 ≤ length p
    → region r (some (p, rest)) ≡ (some p, reader_at (r.pos + (length p + 1)) rest)
region_lem r [] rest h = absurd (omega arith)
region_lem r (b ∷ bs) rest h = refl

-- The digit bytes are the region before the terminator, and are not empty.
taken_region :
    (negative : Bool) (digits : List ℕ) (at : ℕ) (rest : List ℕ)
    → IsSignificant digits
    → take_region
        (end_mark negative)
        (reader_at at (flips negative (pairs digits) ++ end_mark negative ∷ rest))
      ≡ (
        some (flips negative (pairs digits)),
        reader_at (at + (length (flips negative (pairs digits)) + 1)) rest,
      )
unfolding take_region
taken_region negative digits at rest h =
    rw (scan_until-flips negative (pairs digits) rest (pairs-IsPair digits (digits_of digits h))) (
      region_lem (reader_at at (flips negative (pairs digits) ++ end_mark negative ∷ rest))
        (flips negative (pairs digits)) rest (some_pair negative digits h))

digits_read :
    (negative : Bool) (digits : List ℕ) (e : ℤ) (at : ℕ) (rest : List ℕ)
    → IsSignificant digits
    → beyond_int32 e ≡ false
    → read_decimal_digits negative (
        reader_at at (
          flips negative (append_int writer_init e).bytes
          ++ (flips negative (pairs digits) ++ end_mark negative ∷ rest)))
      ≡ (
        some (decimal negative (e -ℤ pos (length digits)) digits),
        reader_at
            (at
              + length (append_int writer_init e).bytes
              + (length (flips negative (pairs digits)) + 1))
            rest,
      )
unfolding read_decimal_digits
digits_read negative digits e at rest h small =
    rw
      (
        read_dec_exponent-append_int negative e (beyond_int32-IsInt64 e small) small at
            (flips negative (pairs digits) ++ end_mark negative ∷ rest),
        taken_region negative digits (at + length (append_int writer_init e).bytes) rest h,
        unpack-pairs negative digits (digits_of digits h) (IsSignificant-IsTrimmed digits h),
      )
      refl

signed_read :
    (negative : Bool) (at : ℕ) (rest : List ℕ)
    → read_decimal (reader_at at (sign_byte negative ∷ rest))
      ≡ read_decimal_digits negative (reader_at (at + 1) rest)
unfolding read_decimal
signed_read true at rest = rw (take_bytes-append at 1 (dec_sign_neg ∷ []) rest refl) refl
signed_read false at rest = rw (take_bytes-append at 1 (dec_sign_pos ∷ []) rest refl) refl

-- A decimal whose digits have no zero at either end and whose adjusted exponent is an int32_t is
-- written by append_decimal so that reader_next, before any bytes, presents it with its sign, its
-- exponent and its digits, the position directly behind it.
pub append_decimal-ReadsBack :
    (negative : Bool) (digits : List ℕ) (exp : ℤ)
    → IsSignificant digits
    → beyond_int32 (adjusted digits exp) ≡ false
    → ReadsBack
        (append_decimal writer_init negative digits exp).1.bytes
        (decimal negative exp digits)
unfolding reader_next read_payload
append_decimal-ReadsBack negative digits exp h small at rest =
    let e = adjusted digits exp in
    let x : List ℕ = (append_int writer_init e).bytes in
    let y : List ℕ = flips negative (pairs digits) in
    rw
      (
        bytes-append_decimal writer_init negative digits exp h small,
        append_assoc (flips negative x) (y ++ end_mark negative ∷ []) rest,
        append_assoc y (end_mark negative ∷ []) rest,
        signed_read negative (at + 1) (flips negative x ++ (y ++ end_mark negative ∷ rest)),
        digits_read negative digits e (at + 1 + 1) rest h small,
        back (length digits) exp,
      )
      (ap (λ (n : ℕ). (item (decimal negative exp digits), reader_at n rest))
        (omega (
          arith,
          length-append (flips negative x) (y ++ end_mark negative ∷ []),
          length-append y (end_mark negative ∷ []),
          length-flips negative x,
        )))

-- Zero has one form, with no exponent.
pub zero-ReadsBack :
    ReadsBack (append_decimal writer_init false [] (pos 0)).1.bytes (decimal false (pos 0) [])
unfolding append_decimal strip_zeros reader_next read_payload read_decimal
zero-ReadsBack at rest =
    rw (bytes-sw_push, bytes-sw_push)
      (rw (take_bytes-append (at + 1) 1 (dec_sign_zero ∷ []) rest refl)
        (ap (λ (n : ℕ). (item (decimal false (pos 0) []), reader_at n rest)) (omega arith)))
