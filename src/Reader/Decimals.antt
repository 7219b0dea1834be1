-- ===== src/Reader/Decimals.antt =====
-- `read_dec_exponent` and `read_decimal`.
use struple.Prelude.{
  ℕ, ◌+◌, ◌*◌, ◌/◌, ◌%◌, ◌^◌, Bool, false, ◌&&◌, ◌||◌, not, Option, none, some, List, [], ◌∷◌,
  length, get_or, ltb, leb, ◌==◌, if◌then◌else◌,
}
use struple.Prelude.Int.{ℤ, pos, negsuc, neg, ◌-ℤ◌}
use struple.Codes.{
  int_zero, is_fixed_neg, is_fixed_pos, int64_max, dec_sign_neg, dec_sign_zero, dec_sign_pos,
}
use struple.Bytes.{flip_all, be_to_u64}
use struple.Encode.Ints.{flip_if}
use struple.Encode.Decimals.{beyond_int32}
use struple.Reader.{Element, decimal, Reader, Read, ◌>>=◌, lift, take_bytes, sub64}
use struple.Reader.Ints.{slot_width}

-- The number in the payload `tmp` of `n` bytes, if it fits an int64_t.
unfoldable pub exponent_i64 : Bool → ℕ → List ℕ → Option ℤ
exponent_i64 positive n tmp =
    let mag = be_to_u64 tmp in
    if n == 16
      && ((positive && leb 0x80 (get_or tmp 0 0)) || (not positive && ltb (get_or tmp 0 0) 0x80))
    then none
    else if ltb 8 n
    then none
    else if positive
    then (if ltb int64_max mag then none else some (pos mag))
    else if ltb n 8
    then some (neg (sub64 (2 ^ (8 * n)) mag))
    else if ltb (int64_max + 1) (sub64 0 mag)
    then none
    else some (if sub64 0 mag == int64_max + 1 then negsuc int64_max else neg (sub64 0 mag))

abbrev pub within_int32 : Option ℤ → Option ℤ
within_int32 none = none
within_int32 (some v) = if beyond_int32 v then none else some v

abbrev pub fixed_code : ℕ → Option ℕ
fixed_code tb = if is_fixed_neg tb || is_fixed_pos tb then some tb else none

unfoldable pub read_exponent_payload : Bool → ℕ → Read ℤ
read_exponent_payload complement tb = do
  t ← lift (fixed_code tb)
  raw ← take_bytes (slot_width t)
  lift (
      within_int32
        (exponent_i64 (ltb int_zero t) (slot_width t) (if complement then flip_all raw else raw)))

unfoldable pub read_dec_exponent : Bool → Read ℤ
read_dec_exponent complement = do
  tp ← take_bytes 1
  let tb = flip_if complement (get_or tp 0 0)
  if tb == int_zero then lift (some (pos 0)) else read_exponent_payload complement tb

abbrev pub cons_digits : ℕ → Option (List ℕ × List ℕ) → Option (List ℕ × List ℕ)
cons_digits b none = none
cons_digits b (some (ds, rest)) = some (b ∷ ds, rest)

-- `while (i < len && buf[i] != term) i++;`: the bytes before the terminator and those after it
unfoldable pub scan_until : ℕ → List ℕ → Option (List ℕ × List ℕ)
scan_until term [] = none
scan_until term (b ∷ bs) =
    let more = cons_digits b (scan_until term bs) in if b == term then some ([], bs) else more

-- The region of the digit bytes. It is not empty, and the terminator is consumed.
abbrev pub region : Reader → Option (List ℕ × List ℕ) → Option (List ℕ) × Reader
region r none = (none, r)
region r (some ([], rest)) = (none, r)
region r (some (b ∷ bs, rest)) =
    (some (b ∷ bs), record { pos = r.pos + (length (b ∷ bs) + 1); rest = rest })

unfoldable pub take_region : ℕ → Read (List ℕ)
unfolding scan_until
take_region term r = region r (scan_until term r.rest)

abbrev pub pair_of : Bool → ℕ → ℕ
pair_of negative raw = (flip_if negative raw + 255) % 256

abbrev pub prepend : List ℕ → Option (List ℕ) → Option (List ℕ)
prepend ds none = none
prepend (d ∷ []) (some es) = some (d ∷ es)
prepend (d ∷ e ∷ _) (some es) = some (d ∷ e ∷ es)
prepend [] (some es) = some es

-- Base-100 bytes to digits; a low digit 0 of the last byte is the padding.
unfoldable pub unpack : Bool → List ℕ → Option (List ℕ)
unpack negative [] = some []
unpack negative (raw ∷ []) =
    let pair = pair_of negative raw in
    if ltb 99 pair
    then none
    else if pair % 10 == 0
    then some (pair / 10 ∷ [])
    else some (pair / 10 ∷ pair % 10 ∷ [])
unpack negative (raw ∷ b ∷ bs) =
    let pair = pair_of negative raw in
    let more = prepend (pair / 10 ∷ pair % 10 ∷ []) (unpack negative (b ∷ bs)) in
    if ltb 99 pair then none else more

unfoldable pub read_decimal_digits : Bool → Read Element
read_decimal_digits negative = do
  adj_exp ← read_dec_exponent negative
  packed ← take_region (if negative then 0xff else 0x00)
  digs ← lift (unpack negative packed)
  lift (some (decimal negative (◌-ℤ◌ adj_exp (pos (length digs))) digs))

unfoldable pub read_decimal : Read Element
read_decimal = do
  sp ← take_bytes 1
  let sign = get_or sp 0 0
  if sign == dec_sign_zero
      then lift (some (decimal false (pos 0) []))
      else (if sign == dec_sign_neg || sign == dec_sign_pos
          then read_decimal_digits (sign == dec_sign_neg)
          else lift none)
