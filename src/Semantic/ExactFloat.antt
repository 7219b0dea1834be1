-- ===== src/Semantic/ExactFloat.antt =====
-- Exact values in base 10 against doubles, the short cuts by the range of a double included.
use struple.Prelude.{ℕ, ◌+◌, ◌*◌, ◌^◌, ◌<◌, ◌≡◌, refl, sym, ap, ◌∙◌, arith, min, List, Ordering}
use struple.Prelude.Int.{ℤ, pos, pos_part, neg_part, ◌+ℤ◌}
use struple.Prelude.Powers.{power_add, power_pos, power_times}
use struple.Codes.{u64_mod}
use struple.Bytes.{IsBytes}
use struple.Bytes.BigEndian.{be_value}
use struple.Bytes.Words.{word_bytes-IsBytes, be_value-word_bytes}
use struple.Compare.{order_of}
use struple.Semantic.{sem_cmp_mag, sem_shl, mantissa_bytes}
use struple.Semantic.Magnitudes.{sem_cmp_mag-be_value}
use struple.Semantic.Shift.{be_value-sem_shl}
use struple.Semantic.Digits.{sem_mul_pow, be_value-sem_mul_pow}
use struple.Semantic.Base10.{max_ℤ, negate, to_size, sem_b10_mag_to_float}
use struple.Semantic.Exact.{order_of-mul}

-- `b_pow5` and `a_pow2`
abbrev pow5 : ℤ → ℤ
pow5 x = max_ℤ (pos 0) (negate x)

abbrev pow2 : ℤ → ℤ → ℤ
pow2 x y = max_ℤ (max_ℤ (pos 0) (negate x)) (negate y)

size_pow5 : (x : ℤ) → to_size (pow5 x) ≡ neg_part x
size_pow5 x = ground arith

size_plus_pow5 : (x : ℤ) → to_size (x +ℤ pow5 x) ≡ pos_part x
size_plus_pow5 x = ground arith

size_left :
    (x y : ℤ) → to_size (x +ℤ pow2 x y) + min (neg_part x) (neg_part y) ≡ pos_part x + neg_part y
size_left x y = ground arith

size_right :
    (x y : ℤ) → to_size (y +ℤ pow2 x y) + min (neg_part x) (neg_part y) ≡ pos_part y + neg_part x
size_right x y = ground arith

-- Both scaled sides, times the power of two that they share
left_side : (m p s d e : ℕ) → s + d ≡ p + e → m * 5 ^ p * 2 ^ s * 2 ^ d ≡ m * 10 ^ p * 2 ^ e
left_side m p s d e h =
    regroup m (5 ^ p) (2 ^ s) (2 ^ d)
    ∙ rw (← power_add 2 s d, h, power_add 2 p e)
        (regroup_again m (5 ^ p) (2 ^ p) (2 ^ e) ∙ rw (← power_times 5 2 p) refl)
  where
    regroup : (a b c d : ℕ) → a * b * c * d ≡ a * b * (c * d)
    regroup a b c d = grind arith

    regroup_again : (a b c d : ℕ) → a * b * (c * d) ≡ a * (b * c) * d
    regroup_again a b c d = grind arith

right_side : (m n s d e : ℕ) → s + d ≡ e + n → m * 5 ^ n * 2 ^ s * 2 ^ d ≡ m * 2 ^ e * 10 ^ n
right_side m n s d e h =
    regroup m (5 ^ n) (2 ^ s) (2 ^ d)
    ∙ rw (← power_add 2 s d, h, power_add 2 e n)
        (regroup_again m (5 ^ n) (2 ^ e) (2 ^ n) ∙ rw (← power_times 5 2 n) refl)
  where
    regroup : (a b c d : ℕ) → a * b * c * d ≡ a * b * (c * d)
    regroup a b c d = grind arith

    regroup_again : (a b c d : ℕ) → a * b * (c * d) ≡ a * c * (b * d)
    regroup_again a b c d = grind arith

-- `mag * 10 ^ exp10` against `mant * 2 ^ e2`, both sides multiplied by what makes them whole
abbrev pub against : ℕ → ℤ → ℕ → ℤ → Ordering
against m x mant y =
    order_of (m * 10 ^ pos_part x * 2 ^ neg_part y) (mant * 2 ^ pos_part y * 10 ^ neg_part x)

-- The comparison with the exponents computed
abbrev by_sizes : List ℕ → ℕ → (p n s t : ℕ) → Ordering
by_sizes mag mant p n s t =
    sem_cmp_mag (sem_shl (sem_mul_pow mag 5 p) s)
      (sem_shl (sem_mul_pow (mantissa_bytes mant) 5 n) t)

by_sizes-exact :
    (mag : List ℕ) (mant p n s t d e u : ℕ)
    → IsBytes mag
    → mant < u64_mod
    → s + d ≡ p + e
    → t + d ≡ u + n
    → by_sizes mag mant p n s t ≡ order_of (be_value mag * 10 ^ p * 2 ^ e) (mant * 2 ^ u * 10 ^ n)
by_sizes-exact mag mant p n s t d e u h hm hs ht =
    let (v5, b5) = be_value-sem_mul_pow mag 5 p h (omega arith) (omega arith) in
    let (w5, c5) =
      be_value-sem_mul_pow (mantissa_bytes mant) 5 n (word_bytes-IsBytes 8 mant) (omega arith)
        (omega arith) in
    let (vs, bs) = be_value-sem_shl (sem_mul_pow mag 5 p) s b5 in
    let (ws, cs) = be_value-sem_shl (sem_mul_pow (mantissa_bytes mant) 5 n) t c5 in
    sem_cmp_mag-be_value (sem_shl (sem_mul_pow mag 5 p) s)
      (sem_shl (sem_mul_pow (mantissa_bytes mant) 5 n) t) bs cs
    ∙ rw (vs, ws, v5, w5, be_value-word_bytes 8 mant hm) refl
    ∙ sym (
        order_of-mul (2 ^ d) (be_value mag * 5 ^ p * 2 ^ s) (mant * 5 ^ n * 2 ^ t)
          (power_pos 2 d (omega arith)))
    ∙ rw (left_side (be_value mag) p s d e hs, right_side mant n t d u ht) refl

pub sem_b10_mag_to_float-exact :
    (mag : List ℕ) (x : ℤ) (mant : ℕ) (y : ℤ)
    → IsBytes mag
    → mant < u64_mod
    → sem_b10_mag_to_float mag x mant y ≡ against (be_value mag) x mant y
unfolding sem_b10_mag_to_float
sem_b10_mag_to_float-exact mag x mant y h hm =
    let s = to_size (x +ℤ pow2 x y) in
    let t = to_size (y +ℤ pow2 x y) in
    ap (λ (p : ℕ). by_sizes mag mant p (to_size (pow5 x)) s t) (size_plus_pow5 x)
    ∙ ap (λ (n : ℕ). by_sizes mag mant (pos_part x) n s t) (size_pow5 x)
    ∙ by_sizes-exact mag mant (pos_part x) (neg_part x) s t (min (neg_part x) (neg_part y))
        (neg_part y) (pos_part y) h hm (size_left x y) (size_right x y)
