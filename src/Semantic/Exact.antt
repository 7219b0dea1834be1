-- ===== src/Semantic/Exact.antt =====
-- The comparisons of exact values in base 10 are those of the numbers, short cuts included.
use struple.Prelude.{
  ℕ, suc, ◌+◌, ◌-◌, ◌*◌, ◌^◌, ◌≤◌, ◌<◌, ◌≡◌, refl, sym, ap, ◌∙◌, arith, min, List, [], ◌∷◌, length,
  true, Bool-cases, inl, inr,
}
use struple.Prelude.Int.{ℤ, pos, pos_part, neg_part, ◌+ℤ◌, ◌-ℤ◌}
use struple.Prelude.Powers.{power_add, power_pos, power_le, power256-le, power256-ge}
use struple.Bytes.{IsBytes}
use struple.Bytes.BigEndian.{
  be_value, be_from, be_value-lt, power, power-suc, mul-le, power-le_IsNormal,
}
use struple.Encode.Ints.{strip_zeros}
use struple.Encode.Ints.Stripped.{be_value-strip_zeros, IsStripped, strip_zeros-IsStripped}
use struple.Compare.{order_of}
use struple.Compare.Order.{order_of-lt, order_of-gt}
use struple.Semantic.{sem_cmp_mag}
use struple.Semantic.Magnitudes.{sem_cmp_mag-be_value, IsStripped-IsBytes}
use struple.Semantic.Digits.{sem_mul_pow, be_value-sem_mul_pow}
use struple.Semantic.Base10.{B10, sem_b10_oom, sem_b10_mag, leb_ℤ, min_ℤ, to_size}

-- A common factor changes no order.
pub order_of-mul : (k m n : ℕ) → 0 < k → order_of (m * k) (n * k) ≡ order_of m n
order_of-mul k m n h = ground (arith, mul-le (suc m) k n, mul-le (suc n) k m)

-- 10 ^ (2 * (n - 1)) ≤ |v| < 10 ^ (3 * n) for a magnitude of n bytes.
pub below : (p : List ℕ) → IsStripped p → be_value p < 10 ^ (3 * length p)
below p h = omega (arith, be_value-lt p (IsStripped-IsBytes p h), power256-le (length p))

pub above : (p : List ℕ) (k : ℕ) → IsStripped p → length p ≡ suc k → 10 ^ (2 * k) ≤ be_value p
above [] k h e = absurd (omega arith)
above (b ∷ bs) k h e =
    let size : power (length (b ∷ bs)) ≡ 256 * power k = ap power e ∙ power-suc k in
    omega (arith, power-le_IsNormal (b ∷ bs) h, power256-ge k)

-- Bounds that are apart decide.
apart :
    (a b p q n k : ℕ)
    → a < 10 ^ (3 * n)
    → 10 ^ (2 * k) ≤ b
    → p + 3 * n ≤ q + 2 * k
    → a * 10 ^ p < b * 10 ^ q
apart a b p q n k ha hb h = omega (
  arith,
  mul-le (suc a) (10 ^ p) (10 ^ (3 * n)) ha,
  power_add 10 (3 * n) p,
  power_le 10 (omega arith) (3 * n + p) (2 * k + q) (omega arith),
  power_add 10 (2 * k) q,
  mul-le (10 ^ (2 * k)) (10 ^ q) b hb,
  power_pos 10 p (omega arith),
)

-- x - y, as the difference of two numbers
above_min :
    (x y : ℤ) → to_size (x -ℤ min_ℤ x y) ≡ (pos_part x + neg_part y) - (pos_part y + neg_part x)
above_min x y = ground arith

above_min_right :
    (x y : ℤ) → to_size (y -ℤ min_ℤ x y) ≡ (pos_part y + neg_part x) - (pos_part x + neg_part y)
above_min_right x y = ground arith

hi-le-lo :
    (x y : ℤ) (n m : ℕ)
    → leb_ℤ (x +ℤ pos (3 * n)) ((y +ℤ pos (2 * m)) -ℤ pos 2) ≡ true
    → pos_part x + neg_part y + 3 * n + 2 ≤ pos_part y + neg_part x + 2 * m
hi-le-lo x y n m h = ground arith

-- Both sides divided by the smaller power
scaled_down :
    (a b p q : ℕ)
    → order_of (a * 10 ^ (p - q)) (b * 10 ^ (q - p)) ≡ order_of (a * 10 ^ p) (b * 10 ^ q)
scaled_down a b p q =
    sym (
      order_of-mul (10 ^ min p q) (a * 10 ^ (p - q)) (b * 10 ^ (q - p))
        (power_pos 10 (min p q) (omega arith)))
    ∙ rw (whole a p (p - q) (min p q) (omega arith), whole b q (q - p) (min p q) (omega arith)) refl
  where
    whole : (a p d r : ℕ) → d + r ≡ p → a * 10 ^ d * 10 ^ r ≡ a * 10 ^ p
    whole a p d r e = rw (← e, power_add 10 d r) (grind arith)

abbrev pub value_of : B10 → ℕ
value_of v = be_value v.mag

-- What the two exponents leave on each side of a comparison without fractions
abbrev pub lift_of : ℤ → ℤ → ℕ
lift_of x y = pos_part x + neg_part y

pub some_length : (q : List ℕ) → 0 < be_value q → (k : ℕ) × (length q ≡ suc k)
unfolding be_from
some_length [] h = absurd (omega arith)
some_length (b ∷ bs) h = (length bs, refl)

module _ (a b : B10) (ha : IsBytes a.mag) (hb : IsBytes b.mag) where
  short_cut_at :
      (k : ℕ)
      → length (strip_zeros b.mag) ≡ suc k
      → leb_ℤ (sem_b10_oom a).hi (sem_b10_oom b).lo ≡ true
      → value_of a * 10 ^ lift_of a.exp10 b.exp10 < value_of b * 10 ^ lift_of b.exp10 a.exp10
  unfolding sem_b10_oom
  short_cut_at k e h =
      let p = strip_zeros a.mag in
      let q = strip_zeros b.mag in
      let gap = hi-le-lo a.exp10 b.exp10 (length p) (length q) h in
      apart (value_of a) (value_of b) (lift_of a.exp10 b.exp10) (lift_of b.exp10 a.exp10) (length p)
        k (rw (be_value-strip_zeros a.mag) at (below p (strip_zeros-IsStripped a.mag ha)))
        (rw (be_value-strip_zeros b.mag) at (above q k (strip_zeros-IsStripped b.mag hb) e))
        (omega (arith, gap, e))

  short_cut :
      0 < value_of b
      → leb_ℤ (sem_b10_oom a).hi (sem_b10_oom b).lo ≡ true
      → value_of a * 10 ^ lift_of a.exp10 b.exp10 < value_of b * 10 ^ lift_of b.exp10 a.exp10
  short_cut pb h =
      let (k, e) = some_length (strip_zeros b.mag) (rw (be_value-strip_zeros b.mag) pb) in
      short_cut_at k e h

  scaled_lem :
      sem_cmp_mag
        (sem_mul_pow a.mag 10 (to_size (a.exp10 -ℤ min_ℤ a.exp10 b.exp10)))
        (sem_mul_pow b.mag 10 (to_size (b.exp10 -ℤ min_ℤ a.exp10 b.exp10)))
      ≡ order_of
          (value_of a * 10 ^ lift_of a.exp10 b.exp10)
          (value_of b * 10 ^ lift_of b.exp10 a.exp10)
  scaled_lem =
      let p = lift_of a.exp10 b.exp10 in
      let q = lift_of b.exp10 a.exp10 in
      let (va, ba) = be_value-sem_mul_pow a.mag 10 (p - q) ha (omega arith) (omega arith) in
      let (vb, bb) = be_value-sem_mul_pow b.mag 10 (q - p) hb (omega arith) (omega arith) in
      rw (above_min a.exp10 b.exp10, above_min_right a.exp10 b.exp10)
        (sem_cmp_mag-be_value (sem_mul_pow a.mag 10 (p - q)) (sem_mul_pow b.mag 10 (q - p)) ba bb
          ∙ rw (va, vb) (scaled_down (value_of a) (value_of b) p q))

-- For two exact values in base 10 whose magnitudes are bytes and not 0, sem_b10_mag is the exact order
-- of mag * 10 ^ exp10, both multiplied by the powers of ten that make them whole, also where it
-- decides by the orders of magnitude alone.
pub sem_b10_mag-exact :
    (a b : B10)
    → IsBytes a.mag
    → IsBytes b.mag
    → 0 < value_of a
    → 0 < value_of b
    → sem_b10_mag a b
      ≡ order_of
          (value_of a * 10 ^ lift_of a.exp10 b.exp10)
          (value_of b * 10 ^ lift_of b.exp10 a.exp10)
unfolding sem_b10_mag
sem_b10_mag-exact a b ha hb pa pb =
    elim (Bool-cases (leb_ℤ (sem_b10_oom a).hi (sem_b10_oom b).lo)) [
      | inl below_b ↦ rw below_b (sym (order_of-lt _ _ (short_cut a b ha hb pb below_b)))
      | inr on ↦ elim (Bool-cases (leb_ℤ (sem_b10_oom b).hi (sem_b10_oom a).lo)) [
        | inl above_b ↦ rw (on, above_b) (sym (order_of-gt _ _ (short_cut b a hb ha pa above_b)))
        | inr near ↦ rw (on, near) (scaled_lem a b ha hb)
      ]
    ]
