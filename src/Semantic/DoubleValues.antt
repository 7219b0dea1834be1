-- ===== src/Semantic/DoubleValues.antt =====
-- Exact values in base 10 against doubles, by the number that IEEE 754 gives to the bits of a double.
use struple.Prelude.{
  true, false, ℕ, ◌+◌, ◌-◌, ◌*◌, ◌/◌, ◌%◌, ◌^◌, ◌<◌, ◌≤◌, ◌≡◌, refl, sym, ap, ◌∙◌, arith, Ordering,
  ◌==◌, if◌then◌else◌, Bool-cases, inl, inr, bit_or,
}
use struple.Prelude.Bits.{bit_or_disjoint}
use struple.Prelude.Int.{ℤ, negsuc, pos_part, neg_part, sub_ℕ}
use struple.Prelude.Powers.{power_add, power_pos}
use struple.Bytes.{IsBytes}
use struple.Compare.{order_of}
use struple.Floats.{fabs}
use struple.Semantic.{sem_decompose}
use struple.Semantic.Base10.{B10, sem_b10_float, with_sign}
use struple.Semantic.Numbers.{sem_sign, cmp_signs}
use struple.Semantic.Exact.{value_of, order_of-mul}
use struple.Semantic.ExactFloat.{against}
use struple.Semantic.FloatRange.{sem_decompose-IsFinite, b10_float_mag-exact}

-- A finite double without its sign, in units of 2 ^ -1074, the least double above 0: the fraction
-- itself where the exponent field is 0, and else 1.fraction at 2 ^ (exponent - 1023).
abbrev pub double_units : ℕ → ℕ
double_units f =
    if f / 2 ^ 52 == 0 then f % 2 ^ 52 else (2 ^ 52 + f % 2 ^ 52) * 2 ^ (f / 2 ^ 52 - 1)

subnormal : (f : ℕ) → (f / 2 ^ 52 == 0) ≡ true → sem_decompose f ≡ (f % 2 ^ 52, negsuc 1073)
unfolding sem_decompose
subnormal f h = let none : f / 2 ^ 52 % 2048 ≡ 0 = ground arith in rw none refl

normal :
    (f : ℕ)
    → f < 0x7ff0_0000_0000_0000
    → (f / 2 ^ 52 == 0) ≡ false
    → sem_decompose f ≡ (2 ^ 52 + f % 2 ^ 52, sub_ℕ (f / 2 ^ 52) 1075)
unfolding sem_decompose
normal f h other =
    let field : f / 2 ^ 52 % 2048 ≡ f / 2 ^ 52 = omega arith in
    let joined : bit_or (2 ^ 52) (f % 2 ^ 52) ≡ 2 ^ 52 + f % 2 ^ 52 =
      bit_or_disjoint 52 1 (2 ^ 52) (f % 2 ^ 52) (omega arith) (omega arith) in
    rw (field, joined, other) refl

-- A power of two that is taken in two parts
in_parts : (m e d p : ℕ) → e + d ≡ p → m * 2 ^ e * 2 ^ d ≡ m * 2 ^ p
in_parts m e d p h = rw (← h, power_add 2 e d) (grind arith)

subnormal_units : (m d : ℕ) → d + 1074 ≡ 1074 → m * 2 ^ 0 * 2 ^ d ≡ m
subnormal_units m d h = in_parts m 0 d 0 (omega arith) ∙ omega arith

exponent_units :
    (raw d : ℕ)
    → 1 ≤ raw
    → d + neg_part (sub_ℕ raw 1075) ≡ 1074
    → pos_part (sub_ℕ raw 1075) + d ≡ raw - 1
exponent_units raw d h e = ground arith

-- The mantissa and the exponent stand for the number of the bits.
sem_decompose-double_units :
    (f d : ℕ)
    → f < 0x7ff0_0000_0000_0000
    → d + neg_part (sem_decompose f).1 ≡ 1074
    → (sem_decompose f).0 * 2 ^ pos_part (sem_decompose f).1 * 2 ^ d ≡ double_units f
sem_decompose-double_units f d h e = elim (Bool-cases (f / 2 ^ 52 == 0)) [
  | inl zero_field ↦
      let form = subnormal f zero_field in
      rw (form, zero_field) (subnormal_units (f % 2 ^ 52) d (rw form at e))
  | inr other ↦
      let form = normal f h other in
      rw (form, other)
        (in_parts (2 ^ 52 + f % 2 ^ 52) (pos_part (sub_ℕ (f / 2 ^ 52) 1075)) d (f / 2 ^ 52 - 1)
          (exponent_units (f / 2 ^ 52) d (ground arith) (rw form at e)))
]

-- Both sides in units of the least double
against-double_units :
    (m : ℕ) (x : ℤ) (f : ℕ)
    → 0 < f
    → f < 0x7ff0_0000_0000_0000
    → against m x (sem_decompose f).0 (sem_decompose f).1
      ≡ order_of (m * 10 ^ pos_part x * 2 ^ 1074) (double_units f * 10 ^ neg_part x)
against-double_units m x f p h =
    let near = (sem_decompose-IsFinite f p h).near in
    let mant = (sem_decompose f).0 in
    let exp = (sem_decompose f).1 in
    let d : ℕ = 1074 - neg_part exp in
    sym (
      order_of-mul (2 ^ d) (m * 10 ^ pos_part x * 2 ^ neg_part exp)
        (mant * 2 ^ pos_part exp * 10 ^ neg_part x) (power_pos 2 d (omega arith)))
    ∙ ap (λ (l : ℕ). order_of l (mant * 2 ^ pos_part exp * 10 ^ neg_part x * 2 ^ d))
        (in_parts (m * 10 ^ pos_part x) (neg_part exp) d 1074 (omega arith))
    ∙ ap (λ (r : ℕ). order_of (m * 10 ^ pos_part x * 2 ^ 1074) r)
        (swapped (mant * 2 ^ pos_part exp) (10 ^ neg_part x) (2 ^ d)
          ∙ ap (λ (u : ℕ). u * 10 ^ neg_part x) (sem_decompose-double_units f d h (omega arith)))
  where
    swapped : (a b c : ℕ) → a * b * c ≡ a * c * b
    swapped a b c = grind arith

-- For an exact value in base 10 whose magnitude is bytes and not 0, and the bits of a double of the
-- same sign that is finite and not 0, sem_b10_float is the exact order of the two numbers: mag * 10 ^
-- exp10 against the number that IEEE 754 gives to the bits, which double_units counts in units of 2 ^
-- -1074, both multiplied by the powers that make them whole, and turned round under a negative sign.
-- Subnormal doubles and the decisions by the range of a double, without scaling, are covered.
pub sem_b10_float-exact :
    (v : B10) (f : ℕ)
    → IsBytes v.mag
    → 0 < value_of v
    → 0 < fabs f
    → fabs f < 0x7ff0_0000_0000_0000
    → v.sign ≡ sem_sign f
    → sem_b10_float v f
      ≡ with_sign v.sign (
          order_of
            (value_of v * 10 ^ pos_part v.exp10 * 2 ^ 1074)
            (double_units (fabs f) * 10 ^ neg_part v.exp10))
unfolding sem_b10_float
sem_b10_float-exact v f h p pf ff same =
    rw (← same, b10_float_mag-exact v f h p pf ff, equal_signs v.sign)
      (ap (with_sign v.sign) (against-double_units (value_of v) v.exp10 (fabs f) pf ff))
  where
    equal_signs : (s : Ordering) → cmp_signs s s ≡ Ordering.eq
    equal_signs Ordering.lt = refl
    equal_signs Ordering.eq = refl
    equal_signs Ordering.gt = refl
