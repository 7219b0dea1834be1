-- ===== src/Semantic/FloatRange.antt =====
-- The range of doubles, by which `sem_b10_float` decides far values without scaling them.
use struple.Prelude.{
  ℕ, suc, ◌+◌, ◌*◌, ◌/◌, ◌%◌, ◌^◌, ◌≤◌, ◌<◌, ◌≡◌, sym, arith, length, Ordering, true, ◌==◌,
  Bool-cases, inl, inr, bit_or,
}
use struple.Prelude.Bits.{bit_or_disjoint}
use struple.Prelude.Int.{ℤ, pos, negsuc, pos_part, neg_part, ◌+ℤ◌, ◌-ℤ◌}
use struple.Prelude.Powers.{power_add, power_pos, power_le}
use struple.Bytes.{IsBytes}
use struple.Bytes.BigEndian.{mul-le}
use struple.Encode.Ints.{strip_zeros}
use struple.Encode.Ints.Stripped.{be_value-strip_zeros, strip_zeros-IsStripped}
use struple.Compare.Order.{order_of-lt, order_of-gt}
use struple.Floats.{fabs}
use struple.Semantic.{sem_decompose}
use struple.Semantic.Base10.{B10, sem_b10_oom, leb_ℤ, b10_float_mag}
use struple.Semantic.Exact.{value_of, below, above, some_length}
use struple.Semantic.ExactFloat.{against, sem_b10_mag_to_float-exact}

-- The mantissa and the exponent of a finite double above 0
pub record IsFinite (mant : ℕ) (exp : ℤ) : Type 0 where
  pub positive : 0 < mant
  pub narrow : mant < 2 ^ 53
  pub small : pos_part exp ≤ 971
  pub near : neg_part exp ≤ 1074

pub sem_decompose-IsFinite :
    (f : ℕ) → 0 < f → f < 0x7ff0_0000_0000_0000 → IsFinite (sem_decompose f).0 (sem_decompose f).1
unfolding sem_decompose
sem_decompose-IsFinite f p h = elim (Bool-cases (f / 2 ^ 52 % 2048 == 0)) [
  | inl e ↦ let zero_exp : f / 2 ^ 52 % 2048 ≡ 0 = ground arith in rw e (omega arith)
  | inr e ↦
      let joined : bit_or (2 ^ 52) (f % 2 ^ 52) ≡ 2 ^ 52 + f % 2 ^ 52 =
        bit_or_disjoint 52 1 (2 ^ 52) (f % 2 ^ 52) (omega arith) (omega arith) in
      let raw : f / 2 ^ 52 % 2048 ≤ 2046 = omega arith in
      rw (e, joined)
        (record {
          positive = omega arith;
          narrow = omega arith;
          small = ground arith;
          near = ground arith;
        })
]

too_large :
    (m x n mant u k e : ℕ)
    → 10 ^ (2 * k) ≤ m
    → n + 310 ≤ x + 2 * k
    → mant < 2 ^ 53
    → u ≤ 971
    → mant * 2 ^ u * 10 ^ n < m * 10 ^ x * 2 ^ e
too_large m x n mant u k e hm h hn hu =
    let w : suc (mant * 2 ^ u) ≤ 10 ^ 310 =
      omega
        (arith, mul-le mant (2 ^ u) (2 ^ 53) (omega arith), power_le 2 (omega arith) u 971 hu) in
    omega (
      arith,
      mul-le (suc (mant * 2 ^ u)) (10 ^ n) (10 ^ 310) w,
      power_pos 10 n (omega arith),
      power_add 10 310 n,
      power_le 10 (omega arith) (310 + n) (2 * k + x) (omega arith),
      power_add 10 (2 * k) x,
      mul-le (10 ^ (2 * k)) (10 ^ x) m hm,
      grown (m * 10 ^ x) (2 ^ e) (power_pos 2 e (omega arith)),
    )
  where
    grown : (a b : ℕ) → 0 < b → a ≤ a * b
    grown a b h = grind arith

too_small :
    (m x n mant u l e : ℕ)
    → m < 10 ^ (3 * l)
    → x + 3 * l + 325 ≤ n
    → 0 < mant
    → e ≤ 1074
    → m * 10 ^ x * 2 ^ e < mant * 2 ^ u * 10 ^ n
too_small m x n mant u l e hm h hp he =
    let at_least : 1 ≤ mant * 2 ^ u =
      omega (arith, mul-le 1 (2 ^ u) mant hp, power_pos 2 u (omega arith)) in
    omega (
      arith,
      mul-le (suc m) (10 ^ x) (10 ^ (3 * l)) hm,
      power_pos 10 x (omega arith),
      power_add 10 (3 * l) x,
      scaled_up (m * 10 ^ x) (2 ^ e) (10 ^ 325) (omega (arith, power_le 2 (omega arith) e 1074 he)),
      mul-le (suc (m * 10 ^ x)) (10 ^ 325) (10 ^ (3 * l + x)) (
          omega (
            arith,
            mul-le (suc m) (10 ^ x) (10 ^ (3 * l)) hm,
            power_pos 10 x (omega arith),
            power_add 10 (3 * l) x,
          )),
      power_add 10 (3 * l + x) 325,
      power_le 10 (omega arith) (3 * l + x + 325) n (omega arith),
      mul-le 1 (10 ^ n) (mant * 2 ^ u) at_least,
    )
  where
    scaled_up : (a b c : ℕ) → b ≤ c → a * b ≤ a * c
    scaled_up a b c h = grind arith

lo_test :
    (x : ℤ) (m : ℕ)
    → leb_ℤ (pos 310) ((x +ℤ pos (2 * m)) -ℤ pos 2) ≡ true
    → neg_part x + 312 ≤ pos_part x + 2 * m
lo_test x m h = ground arith

hi_test :
    (x : ℤ) (m : ℕ)
    → leb_ℤ (x +ℤ pos (3 * m)) (negsuc 324) ≡ true
    → pos_part x + 3 * m + 325 ≤ neg_part x
hi_test x m h = ground arith

module _ (v : B10) (h : IsBytes v.mag) (p : 0 < value_of v) (mant : ℕ) (exp : ℤ)
    (fin : IsFinite mant exp) where
  above_all :
      leb_ℤ (pos 310) (sem_b10_oom v).lo ≡ true
      → Ordering.gt ≡ against (value_of v) v.exp10 mant exp
  unfolding sem_b10_oom
  above_all t =
      let s = strip_zeros v.mag in
      let (k, e) = some_length s (rw (be_value-strip_zeros v.mag) p) in
      let bound =
        rw (be_value-strip_zeros v.mag) at (above s k (strip_zeros-IsStripped v.mag h) e) in
      sym (
        order_of-gt _ _ (
          too_large (value_of v) (pos_part v.exp10) (neg_part v.exp10) mant (pos_part exp) k
            (neg_part exp) bound (omega (arith, lo_test v.exp10 (length s) t, e)) fin.narrow
            fin.small))

  below_all :
      leb_ℤ (sem_b10_oom v).hi (negsuc 324) ≡ true
      → Ordering.lt ≡ against (value_of v) v.exp10 mant exp
  unfolding sem_b10_oom
  below_all t =
      let s = strip_zeros v.mag in
      let bound = rw (be_value-strip_zeros v.mag) at (below s (strip_zeros-IsStripped v.mag h)) in
      sym (
        order_of-lt _ _ (
          too_small (value_of v) (pos_part v.exp10) (neg_part v.exp10) mant (pos_part exp)
            (length s) (neg_part exp) bound (hi_test v.exp10 (length s) t) fin.positive fin.near))

-- The range decides nothing wrongly.
pub b10_float_mag-exact :
    (v : B10) (f : ℕ)
    → IsBytes v.mag
    → 0 < value_of v
    → 0 < fabs f
    → fabs f < 0x7ff0_0000_0000_0000
    → b10_float_mag v f
      ≡ against (value_of v) v.exp10 (sem_decompose (fabs f)).0 (sem_decompose (fabs f)).1
b10_float_mag-exact v f h p pf ff =
    let fin = sem_decompose-IsFinite (fabs f) pf ff in
    let mant = (sem_decompose (fabs f)).0 in
    let exp = (sem_decompose (fabs f)).1 in
    elim (Bool-cases (leb_ℤ (pos 310) (sem_b10_oom v).lo)) [
      | inl t ↦ rw t (above_all v h p mant exp fin t)
      | inr t ↦ elim (Bool-cases (leb_ℤ (sem_b10_oom v).hi (negsuc 324))) [
        | inl u ↦ rw (t, u) (below_all v h p mant exp fin u)
        | inr u ↦
            rw (t, u)
              (sem_b10_mag_to_float-exact v.mag v.exp10 mant exp h (omega (arith, fin.narrow)))
      ]
    ]
