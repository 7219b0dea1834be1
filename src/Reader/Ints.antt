-- ===== src/Reader/Ints.antt =====
-- `read_fixed_int` and `read_big_int`. The payload of a fixed-width slot is `p`, of `n` bytes.
pub mod Payload
use struple.Prelude.{
  ℕ, zero, suc, ◌+◌, ◌-◌, ◌*◌, ◌/◌, ◌%◌, ◌^◌, bit_or, Bool, true, false, ◌&&◌, ◌||◌, not, Option,
  none, some, List, [], ◌∷◌, length, get_or, ltb, leb, ◌==◌, if◌then◌else◌,
}
use struple.Prelude.Int.{ℤ, pos, negsuc, neg}
use struple.Codes.{int_zero, int_neg_big, u64_mod, int64_max}
use struple.Bytes.{flip, flip_all, be_to_u64, u64_to_be, byte_len}
use struple.Encode.Ints.{trim_zeros, flip_if}
use struple.Reader.{Element, int, bigint, Read, ◌>>=◌, lift, take_bytes, sub64}

-- `v = (uint8_t)~p[i] + carry; s[i] = v & 0xff; carry = v >> 8`
abbrev pub carry_into : ℕ → List ℕ × ℕ → List ℕ × ℕ
carry_into b (s, carry) = (((flip b + carry) % 256) ∷ s, (flip b + carry) / 256)

-- `for (i = n; i-- > 0;)`: from the last byte on, with carry = 1 before it.
unfoldable pub negate_loop : List ℕ → List ℕ × ℕ
negate_loop [] = ([], 1)
negate_loop (b ∷ bs) = carry_into b (negate_loop bs)

unfoldable pub negate_bytes : List ℕ → List ℕ
unfolding negate_loop
negate_bytes p = (negate_loop p).0

-- The payloads that a canonical encoder does not write.
unfoldable pub bad_fixed : Bool → ℕ → List ℕ → Bool
bad_fixed positive n p =
    (if positive then get_or p 0 0 == 0x00 else (get_or p 0 0 == 0xff && ltb 1 n))
    || (n == 16
        && ((positive && leb 0x80 (get_or p 0 0)) || (not positive && ltb (get_or p 0 0) 0x80)))

-- eight bytes of a negative number: the magnitude is 2 ^ 64 - raw
unfoldable pub neg_word : ℕ → Element
neg_word raw =
    if raw == 0
    then bigint true (1 ∷ 0 ∷ 0 ∷ 0 ∷ 0 ∷ 0 ∷ 0 ∷ 0 ∷ 0 ∷ [])
    else if leb (sub64 0 raw) (int64_max + 1)
    then int (if sub64 0 raw == int64_max + 1 then negsuc int64_max else neg (sub64 0 raw))
    else bigint true (u64_to_be (sub64 0 raw))

unfoldable pub fixed_pos : ℕ → List ℕ → Element
fixed_pos n p =
    if leb n 8
    then (if leb (be_to_u64 p) int64_max then int (pos (be_to_u64 p)) else bigint false p)
    else bigint false p

unfoldable pub fixed_neg : ℕ → List ℕ → Element
fixed_neg n p =
    if leb n 8
    then (if ltb n 8 then int (neg (sub64 (2 ^ (8 * n)) (be_to_u64 p))) else neg_word (be_to_u64 p))
    else bigint true (trim_zeros (negate_bytes p))

unfoldable pub fixed_element : Bool → ℕ → List ℕ → Option Element
unfolding bad_fixed fixed_pos fixed_neg
fixed_element positive n p =
    if bad_fixed positive n p
    then none
    else some (if positive then fixed_pos n p else fixed_neg n p)

-- The width is in the type code.
abbrev pub slot_width : ℕ → ℕ
slot_width t = if ltb int_zero t then t - int_zero else int_zero - t

unfoldable pub read_fixed_int : ℕ → Read Element
read_fixed_int t = do
  p ← take_bytes (slot_width t)
  lift (fixed_element (ltb int_zero t) (slot_width t) p)

-- `for (i = 1; i < len; i++) if ((negative ? (uint8_t)~stored[i] : stored[i]) != 0) return false;`
unfoldable pub stored_zero : Bool → List ℕ → Bool
stored_zero negative [] = true
stored_zero negative (b ∷ bs) =
    let rest = stored_zero negative bs in if flip_if negative b == 0 then rest else false

abbrev stored_rest_zero : Bool → List ℕ → Bool
stored_rest_zero negative [] = true
stored_rest_zero negative (b ∷ bs) = stored_zero negative bs

unfoldable pub fits_fixed_stored : Bool → List ℕ → Bool
unfolding stored_zero
fits_fixed_stored negative stored =
    if ltb (length stored) 16
    then true
    else if ltb 16 (length stored)
    then false
    else if ltb (flip_if negative (get_or stored 0 0)) 0x80
    then true
    else if not negative
    then false
    else if flip_if negative (get_or stored 0 0) == 0x80
    then stored_rest_zero negative stored
    else false

-- `n = (n << 8) | b` over the length bytes
unfoldable pub length_loop : Bool → ℕ → List ℕ → ℕ
length_loop negative n [] = n
length_loop negative n (b ∷ bs) =
    length_loop negative (bit_or (n * 256 % u64_mod) (flip_if negative b)) bs

-- What a canonical encoder does not write: an empty magnitude, a length header that is too long, a
-- leading zero, or a value that belongs in a fixed slot.
unfoldable pub bad_big : Bool → ℕ → ℕ → List ℕ → Bool
bad_big negative m n mag =
    n == 0
    || not (m == byte_len n)
    || flip_if negative (get_or mag 0 0) == 0
    || fits_fixed_stored negative mag

unfoldable pub big_element : Bool → ℕ → ℕ → List ℕ → Option Element
unfolding bad_big
big_element negative m n mag =
    if bad_big negative m n mag
    then none
    else some (bigint negative (if negative then flip_all mag else mag))

abbrev pub at_most_8 : ℕ → Option ℕ
at_most_8 m = if ltb 8 m then none else some m

unfoldable pub read_big_int : ℕ → Read Element
read_big_int t = do
  let negative = t == int_neg_big
  p ← take_bytes 1
  m ← lift (at_most_8 (flip_if negative (get_or p 0 0)))
  nb ← take_bytes m
  let n = length_loop negative 0 nb
  mag ← take_bytes n
  lift (big_element negative m n mag)
