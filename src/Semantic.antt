-- ===== src/Semantic.antt =====
-- The exact comparison of numbers in the semantic order of c/struple.c: magnitudes with each other and
-- with scaled mantissas. `Ordering.lt`, `Ordering.eq` and `Ordering.gt` are the C results -1, 0
-- and 1; allocations are taken to succeed.
pub mod Magnitudes
pub mod Shift
pub mod Digits
pub mod Numbers
pub mod Base10
pub mod Order
pub mod Flip
pub mod Antisymmetry
pub mod Exact
pub mod ExactFloat
pub mod FloatRange
pub mod DoubleValues
pub mod Rounds
pub mod Depth
use struple.Prelude.{
  ℕ, zero, suc, ◌+◌, ◌-◌, ◌*◌, ◌/◌, ◌%◌, ◌^◌, min, bit_or, Ordering, Bool, true, false, List, [],
  ◌∷◌, ◌++◌, length, ltb, leb, ◌==◌, ◌||◌, if◌then◌else◌,
}
use struple.Prelude.Int.{ℤ, pos, negsuc, sub_ℕ, ltb_ℤ}
use struple.Codes.{u64_mod}
use struple.Bytes.Words.{word_bytes}
use struple.Encode.Ints.{strip_zeros}
use struple.Compare.{memcmp, order_of, or_length}
use struple.Reader.{
  Element, nil, undef, bool, int, bigint, f32, f64, decimal, timestamp, uuid, string, bytes, array,
  map, set,
}

unfoldable pub sem_class_rank : Element → ℕ
sem_class_rank nil = 0
sem_class_rank undef = 1
sem_class_rank (bool v) = 2
sem_class_rank (int v) = 3
sem_class_rank (bigint negative mag) = 3
sem_class_rank (f32 v) = 3
sem_class_rank (f64 v) = 3
sem_class_rank (decimal negative exp digits) = 3
sem_class_rank (timestamp v) = 4
sem_class_rank (uuid u) = 5
sem_class_rank (string s) = 6
sem_class_rank (bytes b) = 7
sem_class_rank (array c) = 8
sem_class_rank (map c) = 9
sem_class_rank (set c) = 10

unfoldable pub sem_icmp : ℤ → ℤ → Ordering
sem_icmp x y = if ltb_ℤ x y then Ordering.lt else if ltb_ℤ y x then Ordering.gt else Ordering.eq

unfoldable pub sem_cmp_lex : List ℕ → List ℕ → Ordering
unfolding memcmp
sem_cmp_lex a b = or_length (memcmp (min (length a) (length b)) a b) (length a) (length b)

abbrev pub cmp_stripped : List ℕ → List ℕ → Ordering
cmp_stripped a b =
    if length a == length b
    then memcmp (length a) a b
    else if ltb (length a) (length b)
    then Ordering.lt
    else Ordering.gt

-- The two loops over leading zeros are the one of `struple_append_big_int`.
unfoldable pub sem_cmp_mag : List ℕ → List ℕ → Ordering
unfolding memcmp
sem_cmp_mag a b = cmp_stripped (strip_zeros a) (strip_zeros b)

-- The mantissa and the exponent of a finite double above 0, from its bits.
unfoldable pub sem_decompose : ℕ → ℕ × ℤ
sem_decompose bits =
    let raw = bits / 2 ^ 52 % 2048 in
    let frac = bits % 2 ^ 52 in
    if raw == 0 then (frac, negsuc 1073) else (bit_or (2 ^ 52) frac, sub_ℕ raw 1075)

-- The loop of `sem_shl` from the last byte to the first: the carry out of the first byte, and the bytes.
unfoldable pub shl_loop : ℕ → List ℕ → ℕ × List ℕ
shl_loop bit_shift [] = (0, [])
shl_loop bit_shift (b ∷ bs) =
    let (carry, out) = shl_loop bit_shift bs in
    let cur = bit_or (b * 2 ^ bit_shift) carry in (cur / 256, (cur % 256) ∷ out)

abbrev pub zeros : ℕ → List ℕ
zeros zero = []
zeros (suc n) = 0 ∷ zeros n

unfoldable pub sem_shl : List ℕ → ℕ → List ℕ
unfolding shl_loop
sem_shl src bits =
    let (carry, out) = shl_loop (bits % 8) src in (carry % 256) ∷ (out ++ zeros (bits / 8))

-- A uint64_t against `mant * 2 ^ exp`
unfoldable pub sem_u64_scaled : ℕ → ℕ → ℤ → Ordering
sem_u64_scaled n mant (pos exp) =
    if leb 64 exp || ltb ((u64_mod - 1) / 2 ^ exp) mant
    then Ordering.lt
    else order_of n (mant * 2 ^ exp % u64_mod)
sem_u64_scaled n mant (negsuc k) =
    let s = suc k in
    if leb 64 s || ltb ((u64_mod - 1) / 2 ^ s) n
    then Ordering.gt
    else order_of (n * 2 ^ s % u64_mod) mant

-- The eight bytes of a mantissa
abbrev pub mantissa_bytes : ℕ → List ℕ
mantissa_bytes mant = word_bytes 8 mant

unfoldable pub sem_mag_scaled : List ℕ → ℕ → ℤ → Ordering
unfolding sem_cmp_mag sem_shl
sem_mag_scaled mag mant (pos exp) = sem_cmp_mag mag (sem_shl (mantissa_bytes mant) exp)
sem_mag_scaled mag mant (negsuc k) = sem_cmp_mag (sem_shl mag (suc k)) (mantissa_bytes mant)
