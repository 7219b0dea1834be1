-- ===== src/Semantic/Base10.antt =====
-- Decimals in the semantic order of c/struple.c: exact values in base 10, against each other and doubles.
-- Of the fields of sem_b10 the magnitude carries its length.
use struple.Prelude.{
  ℕ, ◌*◌, Ordering, Bool, true, false, List, [], ◌∷◌, length, ◌&&◌, if◌then◌else◌,
}
use struple.Prelude.Int.{ℤ, pos, negsuc, pos_part, ltb_ℤ, ◌+ℤ◌, ◌-ℤ◌}
use struple.Bytes.{u64_to_be}
use struple.Floats.{fabs}
use struple.Encode.Ints.{magnitude, is_negative, is_zero, strip_zeros}
use struple.Reader.{Element, int, bigint, decimal}
use struple.Semantic.{sem_cmp_mag, sem_shl, sem_decompose, mantissa_bytes}
use struple.Semantic.Digits.{sem_dec_digits_to_mag, sem_mul_pow}
use struple.Semantic.Numbers.{flip_order, or_else, cmp_signs, sign_of, sem_sign, sem_float}

-- sem_b10: sign · mag · 10 ^ exp10
pub record B10 : Type 0 where
  pub sign : Ordering
  pub mag : List ℕ
  pub exp10 : ℤ

abbrev pub zero_b10 : B10
zero_b10 = record { sign = Ordering.eq; mag = []; exp10 = pos 0 }

unfoldable pub sem_is_exact : Element → Bool
sem_is_exact (int v) = true
sem_is_exact (bigint negative mag) = true
sem_is_exact (decimal negative exp digits) = true
sem_is_exact e = false

-- An element without digits is 0, as are those of other kinds, for which it is not called.
unfoldable pub sem_num_to_b10 : Element → B10
sem_num_to_b10 (int v) =
    if is_zero v
    then zero_b10
    else record { sign = sign_of (is_negative v); mag = u64_to_be (magnitude v); exp10 = pos 0 }
sem_num_to_b10 (bigint negative mag) = record { sign = sign_of negative; mag = mag; exp10 = pos 0 }
sem_num_to_b10 (decimal negative exp []) = zero_b10
sem_num_to_b10 (decimal negative exp (d ∷ ds)) = record {
  sign = sign_of negative;
  mag = sem_dec_digits_to_mag (d ∷ ds);
  exp10 = exp;
}
sem_num_to_b10 e = zero_b10

-- sem_oom: 10 ^ lo ≤ |value| < 10 ^ hi
pub record Oom : Type 0 where
  pub lo : ℤ
  pub hi : ℤ

unfoldable pub sem_b10_oom : B10 → Oom
sem_b10_oom v =
    let n = length (strip_zeros v.mag) in
    record { lo = (v.exp10 +ℤ pos (2 * n)) -ℤ pos 2; hi = v.exp10 +ℤ pos (3 * n) }

abbrev pub leb_ℤ : ℤ → ℤ → Bool
leb_ℤ a b = if ltb_ℤ b a then false else true

abbrev pub min_ℤ : ℤ → ℤ → ℤ
min_ℤ a b = if ltb_ℤ a b then a else b

-- `(size_t)v` of an int64_t that is not negative
abbrev pub to_size : ℤ → ℕ
to_size v = pos_part v

unfoldable pub sem_b10_mag : B10 → B10 → Ordering
unfolding sem_b10_oom
sem_b10_mag a b =
    let e = min_ℤ a.exp10 b.exp10 in
    if leb_ℤ (sem_b10_oom a).hi (sem_b10_oom b).lo
    then Ordering.lt
    else if leb_ℤ (sem_b10_oom b).hi (sem_b10_oom a).lo
    then Ordering.gt
    else sem_cmp_mag (sem_mul_pow a.mag 10 (to_size (a.exp10 -ℤ e)))
        (sem_mul_pow b.mag 10 (to_size (b.exp10 -ℤ e)))

abbrev pub max_ℤ : ℤ → ℤ → ℤ
max_ℤ a b = if ltb_ℤ a b then b else a

abbrev pub negate : ℤ → ℤ
negate v = pos 0 -ℤ v

-- `mag * 10 ^ exp10` against `mant * 2 ^ e2`, both scaled to whole numbers
unfoldable pub sem_b10_mag_to_float : List ℕ → ℤ → ℕ → ℤ → Ordering
sem_b10_mag_to_float mag exp10 mant e2 =
    let a_pow2 = max_ℤ (max_ℤ (pos 0) (negate exp10)) (negate e2) in
    let b_pow5 = max_ℤ (pos 0) (negate exp10) in
    let lhs5 = sem_mul_pow mag 5 (to_size (exp10 +ℤ b_pow5)) in
    let lhs = sem_shl lhs5 (to_size (exp10 +ℤ a_pow2)) in
    let rhs5 = sem_mul_pow (mantissa_bytes mant) 5 (to_size b_pow5) in
    let rhs = sem_shl rhs5 (to_size (e2 +ℤ a_pow2)) in sem_cmp_mag lhs rhs

-- Two values of one sign that is not 0: the sign of `v` and the order of the magnitudes
abbrev pub b10_float_mag : B10 → ℕ → Ordering
b10_float_mag v f =
    let (mant, exp) = sem_decompose (fabs f) in
    if leb_ℤ (pos 310) (sem_b10_oom v).lo
    then Ordering.gt
    else if leb_ℤ (sem_b10_oom v).hi (negsuc 324)
    then Ordering.lt
    else sem_b10_mag_to_float v.mag v.exp10 mant exp

-- `c` under the sign, which is 0 for both of two zeros.
abbrev pub with_sign : Ordering → Ordering → Ordering
with_sign Ordering.lt c = flip_order c
with_sign Ordering.eq c = Ordering.eq
with_sign Ordering.gt c = c

unfoldable pub sem_b10_float : B10 → ℕ → Ordering
unfolding sem_b10_mag_to_float
sem_b10_float v f = or_else (cmp_signs v.sign (sem_sign f)) (with_sign v.sign (b10_float_mag v f))

abbrev pub b10_b10 : B10 → B10 → Ordering
b10_b10 a b = or_else (cmp_signs a.sign b.sign) (with_sign a.sign (sem_b10_mag a b))

-- One of the two is a decimal, and no NaN and no infinity is among them.
unfoldable pub sem_with_decimal : Element → Element → Ordering
unfolding sem_b10_float sem_b10_mag sem_is_exact sem_num_to_b10
sem_with_decimal a b =
    if sem_is_exact a && sem_is_exact b
    then b10_b10 (sem_num_to_b10 a) (sem_num_to_b10 b)
    else if sem_is_exact a
    then sem_b10_float (sem_num_to_b10 a) (sem_float b)
    else flip_order (sem_b10_float (sem_num_to_b10 b) (sem_float a))
