-- ===== src/Floats.antt =====
-- Doubles as IEEE 754 bit patterns: the comparisons, conversions and classes that C's operators and
-- math.h give to c/struple.c.
use struple.Prelude.{
  ℕ, zero, suc, ◌+◌, ◌-◌, ◌*◌, ◌/◌, ◌%◌, ◌^◌, Bool, not, ◌&&◌, ltb, leb, ◌==◌, if◌then◌else◌,
}
use struple.Prelude.Int.{ℤ, pos, negsuc, neg, ltb_ℤ}
use struple.Codes.{sign64, sign32}
use struple.Encode.Scalars.{isnan64}

-- The bits without the sign
abbrev pub fabs : ℕ → ℕ
fabs f = f % sign64

abbrev pub isinf : ℕ → Bool
isinf f = fabs f == 0x7ff0_0000_0000_0000

-- Doubles that are no NaN stand in the order of these numbers, both zeros in one place.
abbrev pub place : ℕ → ℤ
place f = if leb sign64 f then neg (f - sign64) else pos f

-- `x < y`, which is false where one is a NaN
abbrev pub float_lt : ℕ → ℕ → Bool
float_lt x y = not (isnan64 x) && not (isnan64 y) && ltb_ℤ (place x) (place y)

-- The position of the highest bit that is set, with the rounds left
unfoldable pub top_bit : ℕ → ℕ → ℕ
top_bit zero n = 0
top_bit (suc f) n = let rest = top_bit f (n / 2) in if ltb n 2 then 0 else suc rest

-- The fraction of n, whose highest bit is `k`, without that bit
abbrev pub fraction_of : ℕ → ℕ → ℕ
fraction_of k n = if leb k 52 then (n - 2 ^ k) * 2 ^ (52 - k) else (n - 2 ^ k) / 2 ^ (k - 52)

-- `(double)v` of an integer of at most 53 bits
unfoldable pub double_of_nat : ℕ → ℕ
unfolding top_bit
double_of_nat n =
    let k = top_bit 64 n in if n == 0 then 0 else (1023 + k) * 2 ^ 52 + fraction_of k n

unfoldable pub double_of_int : ℤ → ℕ
unfolding double_of_nat
double_of_int (pos n) = double_of_nat n
double_of_int (negsuc n) = sign64 + double_of_nat (suc n)

-- `(double)f` of the bits of a float above its sign: a subnormal float is a normal double.
unfoldable pub widen_abs : ℕ → ℕ
unfolding top_bit
widen_abs f =
    let e = f / 2 ^ 23 in
    let m = f % 2 ^ 23 in
    let k = top_bit 32 m in
    if e == 255
    then 0x7ff0_0000_0000_0000 + m * 2 ^ 29
    else if e == 0
    then (if m == 0 then 0 else (874 + k) * 2 ^ 52 + fraction_of k m)
    else (e + 896) * 2 ^ 52 + m * 2 ^ 29

unfoldable pub widen : ℕ → ℕ
unfolding widen_abs
widen f = if leb sign32 f then sign64 + widen_abs (f - sign32) else widen_abs f
