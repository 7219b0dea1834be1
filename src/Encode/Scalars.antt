-- ===== src/Encode/Scalars.antt =====
-- nil, undefined, booleans, floats, timestamps and UUIDs. A double or a float is its IEEE 754 bit
-- pattern: a NaN has all exponent bits set and a fraction that is not 0, and `v == 0.0` holds of both zeros.
use struple.Prelude.{
  ℕ, ◌-◌, ◌%◌, ◌^◌, bit_xor, Bool, false, List, take, ltb, leb, ◌==◌, if◌then◌else◌,
}
use struple.Prelude.Int.{ℤ}
use struple.Codes.{
  nil_code, undef_code, bool_false, bool_true, float32, float64, timestamp_code, uuid_code, sign64,
  sign32, u64_mod,
}
use struple.Writer.{Writer, sw_push, sw_append}
use struple.Encode.Ints.{push_word, as_u64}

unfoldable pub append_nil : Writer → Writer
append_nil w = sw_push w nil_code

unfoldable pub append_undefined : Writer → Writer
append_undefined w = sw_push w undef_code

unfoldable pub append_bool : Writer → Bool → Writer
append_bool w v = sw_push w (if v then bool_true else bool_false)

abbrev pub isnan64 : ℕ → Bool
isnan64 bits = ltb 0x7ff0_0000_0000_0000 (bits % sign64)

abbrev pub isnan32 : ℕ → Bool
isnan32 bits = ltb 0x7f80_0000 (bits % sign32)

-- The bits that are written for a double: one NaN, one zero.
unfoldable pub canonical64 : ℕ → ℕ
canonical64 bits =
    if isnan64 bits then 0x7ff8_0000_0000_0000 else if bits % sign64 == 0 then 0 else bits

unfoldable pub canonical32 : ℕ → ℕ
canonical32 bits = if isnan32 bits then 0x7fc0_0000 else if bits % sign32 == 0 then 0 else bits

-- `(bits & SIGN64) ? ~bits : (bits ^ SIGN64)`
unfoldable pub order64 : ℕ → ℕ
order64 bits = if leb sign64 bits then u64_mod - 1 - bits else bit_xor bits sign64

unfoldable pub order32 : ℕ → ℕ
order32 bits = if leb sign32 bits then 2 ^ 32 - 1 - bits else bit_xor bits sign32

unfoldable pub append_f64 : Writer → ℕ → Writer
append_f64 w v = push_word false 8 (order64 (canonical64 v)) (sw_push w float64)

unfoldable pub append_f32 : Writer → ℕ → Writer
append_f32 w v = push_word false 4 (order32 (canonical32 v)) (sw_push w float32)

unfoldable pub append_timestamp : Writer → ℤ → Writer
append_timestamp w micros =
    push_word false 8 (bit_xor (as_u64 micros) sign64) (sw_push w timestamp_code)

unfoldable pub append_uuid : Writer → List ℕ → Writer
append_uuid w uuid16 = sw_append (sw_push w uuid_code) (take 16 uuid16)
