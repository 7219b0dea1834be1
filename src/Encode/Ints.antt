-- ===== src/Encode/Ints.antt =====
-- Integers: `append_magnitude` and the functions that reach it. A magnitude is a big-endian byte list.
pub mod Payload
pub mod Emitted
pub mod Range
pub mod Stripped
pub mod Words
use struple.Prelude.{
  ℕ, zero, suc, ◌+◌, ◌-◌, ◌*◌, ◌/◌, ◌%◌, ◌^◌, Bool, true, false, List, [], ◌∷◌, length, get_or, ltb,
  ◌==◌, if◌then◌else◌, not,
}
use struple.Prelude.Int.{ℤ, pos, negsuc}
use struple.Codes.{int_zero, int_neg_big, int_pos_big, u64_mod}
use struple.Bytes.{flip, u64_to_be, byte_len}
use struple.Writer.{Writer, sw_push, sw_append}

-- `for (i = 1; i < 16; i++) if (mag[i] != 0) return false; return true;`
unfoldable pub all_zero : List ℕ → Bool
all_zero [] = true
all_zero (b ∷ bs) = let rest = all_zero bs in if b == 0 then rest else false

abbrev pub rest_zero : List ℕ → Bool
rest_zero [] = true
rest_zero (b ∷ bs) = all_zero bs

unfoldable pub fits_fixed : Bool → List ℕ → Bool
unfolding all_zero
fits_fixed negative mag =
    if ltb (length mag) 16
    then true
    else if ltb 16 (length mag)
    then false
    else if ltb (get_or mag 0 0) 0x80
    then true
    else if not negative
    then false
    else if get_or mag 0 0 == 0x80
    then rest_zero mag
    else false

-- `if (pv[i]-- != 0) break;`: the flag says that the loop has not been left, so `b` is decremented.
abbrev pub borrow : ℕ → List ℕ × Bool → List ℕ × Bool
borrow b (pv, true) = (((b + 255) % 256) ∷ pv, b == 0)
borrow b (pv, false) = (b ∷ pv, false)

-- `for (i = mag_len; i-- > 0;)`: from the last byte on.
unfoldable pub sub_one_loop : List ℕ → List ℕ × Bool
sub_one_loop [] = ([], true)
sub_one_loop (b ∷ bs) = borrow b (sub_one_loop bs)

unfoldable pub sub_one : List ℕ → List ℕ
unfolding sub_one_loop
sub_one mag = (sub_one_loop mag).0

-- `while (start + 1 < len && p[start] == 0) start++;`
unfoldable pub trim_zeros : List ℕ → List ℕ
trim_zeros [] = []
trim_zeros (b ∷ []) = b ∷ []
trim_zeros (b ∷ c ∷ bs) = let rest = trim_zeros (c ∷ bs) in if b == 0 then rest else b ∷ c ∷ bs

-- `negative ? (uint8_t)~b : b`
abbrev pub flip_if : Bool → ℕ → ℕ
flip_if negative b = if negative then flip b else b

-- One sw_push for each byte.
unfoldable pub push_all : Bool → List ℕ → Writer → Writer
push_all negative [] w = w
push_all negative (b ∷ bs) w = push_all negative bs (sw_push w (flip_if negative b))

-- `for (i = k; i-- > 0;) sw_push(w, (x >> (8 * i)) & 0xff)`, each byte complemented or not
unfoldable pub push_word : Bool → ℕ → ℕ → Writer → Writer
push_word negative zero x w = w
push_word negative (suc i) x w =
    push_word negative i x (sw_push w (flip_if negative (x / 2 ^ (8 * i) % 256)))

unfoldable pub append_fixed_pos : Writer → List ℕ → Writer
append_fixed_pos w mag = sw_append (sw_push w ((int_zero + length mag) % 256)) mag

unfoldable pub append_fixed_neg : Writer → List ℕ → Writer
append_fixed_neg w mag =
    let pv = trim_zeros (sub_one mag) in
    push_all true pv (sw_push w ((int_zero + 256 - length pv) % 256))

unfoldable pub append_big : Writer → Bool → List ℕ → Writer
append_big w negative mag =
    let n = length mag in
    let m = if byte_len n == 0 then 1 else byte_len n in
    push_all negative mag (
      push_word negative m n (
        sw_push (sw_push w (if negative then int_neg_big else int_pos_big))
          (flip_if negative (m % 256))))

unfoldable pub append_magnitude : Writer → Bool → List ℕ → Writer
unfolding append_fixed_pos append_fixed_neg append_big
append_magnitude w negative mag =
    if fits_fixed negative mag
    then (if not negative then append_fixed_pos w mag else append_fixed_neg w mag)
    else append_big w negative mag

-- `(uint64_t)v` of an int64_t
abbrev pub as_u64 : ℤ → ℕ
as_u64 (pos n) = n % u64_mod
as_u64 (negsuc n) = u64_mod - 1 - n % u64_mod

abbrev pub is_negative : ℤ → Bool
is_negative (pos n) = false
is_negative (negsuc n) = true

abbrev pub is_zero : ℤ → Bool
is_zero (pos n) = n == 0
is_zero (negsuc n) = false

-- `negative ? ~(uint64_t)v + 1 : (uint64_t)v`
unfoldable pub magnitude : ℤ → ℕ
magnitude v = if is_negative v then (u64_mod - 1 - as_u64 v + 1) % u64_mod else as_u64 v

unfoldable pub append_int : Writer → ℤ → Writer
append_int w v =
    if is_zero v
    then sw_push w int_zero
    else append_magnitude w (is_negative v) (u64_to_be (magnitude v))

unfoldable pub append_uint : Writer → ℕ → Writer
append_uint w v = if v == 0 then sw_push w int_zero else append_magnitude w false (u64_to_be v)

-- `while (mag_len > 0 && mag[0] == 0) { mag++; mag_len--; }`
unfoldable pub strip_zeros : List ℕ → List ℕ
strip_zeros [] = []
strip_zeros (b ∷ bs) = let rest = strip_zeros bs in if b == 0 then rest else b ∷ bs

abbrev append_stripped : Writer → Bool → List ℕ → Writer
append_stripped w negative [] = sw_push w int_zero
append_stripped w negative (b ∷ bs) = append_magnitude w negative (b ∷ bs)

unfoldable pub append_big_int : Writer → Bool → List ℕ → Writer
append_big_int w negative mag = append_stripped w negative (strip_zeros mag)
