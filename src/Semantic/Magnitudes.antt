-- ===== src/Semantic/Magnitudes.antt =====
-- The comparisons of magnitudes against the numbers that they stand for.
use native.Mathlib.Nat.{pow-le-pow_right, le-div_iff_mul-le, div-lt_iff_lt-mul}
use struple.Prelude.{
  ℕ, suc, ◌-◌, ◌*◌, ◌/◌, ◌%◌, ◌^◌, ◌≤◌, ◌<◌, ◌≡◌, refl, sym, arith, List, [], ◌∷◌, length, Ordering,
  Bool, true, false, ltb, leb, ◌==◌, ◌||◌, inl, inr, three_ways, lt→ltb, le→ltb-false, Bool-cases,
  ltb→lt, ltb-false, ==_false,
}
use struple.Prelude.Int.{ℤ, pos, negsuc}
use struple.Codes.{u64_mod}
use struple.Bytes.{IsBytes}
use struple.Bytes.BigEndian.{
  be_value, be_value-lt, power_mono, power-suc, mul-le, IsNormal-IsBytes, power-le_IsNormal,
}
use struple.Encode.Ints.{strip_zeros}
use struple.Encode.Ints.Stripped.{be_value-strip_zeros, IsStripped, strip_zeros-IsStripped}
use struple.Compare.{order_of}
use struple.Compare.Order.{memcmp-be_value, order_of-lt, order_of-gt}
use struple.Semantic.{cmp_stripped, sem_cmp_mag, sem_u64_scaled}

pub IsStripped-IsBytes : (p : List ℕ) → IsStripped p → IsBytes p
IsStripped-IsBytes [] h = tt
IsStripped-IsBytes (b ∷ bs) h = IsNormal-IsBytes (b ∷ bs) h

-- The longer magnitude is the greater one.
longer :
    (p q : List ℕ) → IsStripped p → IsStripped q → length p < length q → be_value p < be_value q
longer p [] hp hq l = absurd (omega arith)
longer p (y ∷ q) hp hq l = omega (
  arith,
  be_value-lt p (IsStripped-IsBytes p hp),
  power-le_IsNormal (y ∷ q) hq,
  power_mono (suc (length p)) (length (y ∷ q)) l,
  power-suc (length p),
)

cmp_stripped_lem :
    (p q : List ℕ)
    → IsStripped p
    → IsStripped q
    → cmp_stripped p q ≡ order_of (be_value p) (be_value q)
cmp_stripped_lem p q hp hq = elim (three_ways (length p) (length q)) [
  | inl less ↦
      rw (==_false (length p) (length q) (λ e. omega (arith, e)), lt→ltb _ _ less)
        (sym (order_of-lt _ _ (longer p q hp hq less)))
  | inr (inl e) ↦
      rw (same e) (memcmp-be_value p q (IsStripped-IsBytes p hp) (IsStripped-IsBytes q hq) e)
  | inr (inr more) ↦
      rw
        (
          ==_false (length p) (length q) (λ e. omega (arith, e)),
          le→ltb-false (length p) (length q) (omega arith),
        )
        (sym (order_of-gt _ _ (longer q p hq hp more)))
]
  where
    same : length p ≡ length q → (length p == length q) ≡ true
    same e = ground arith

-- sem_cmp_mag of two byte lists, with leading zeros or without, is the order of their numbers.
pub sem_cmp_mag-be_value :
    (a b : List ℕ) → IsBytes a → IsBytes b → sem_cmp_mag a b ≡ order_of (be_value a) (be_value b)
unfolding sem_cmp_mag
sem_cmp_mag-be_value a b ha hb =
    rw (be_value-strip_zeros a, be_value-strip_zeros b) at
      (cmp_stripped_lem (strip_zeros a) (strip_zeros b) (strip_zeros-IsStripped a ha)
        (strip_zeros-IsStripped b hb))

-- mant * 2 ^ exp against n, in whole numbers
abbrev pub scaled : ℕ → ℕ → ℤ → Ordering
scaled n mant (pos exp) = order_of n (mant * 2 ^ exp)
scaled n mant (negsuc k) = order_of (n * 2 ^ suc k) mant

-- The test for a shift that leaves the word.
abbrev leaves : ℕ → ℕ → Bool
leaves m e = leb 64 e || ltb ((u64_mod - 1) / 2 ^ e) m

pub two_power : (i e : ℕ) → i ≤ e → 2 ^ i ≤ 2 ^ e
two_power i e h = pow-le-pow_right (omega arith) h

pub two_power_pos : (e : ℕ) → 0 < 2 ^ e
two_power_pos e = omega (arith, two_power 0 e (omega arith))

leaves-true : (m e : ℕ) → 0 < m → leaves m e ≡ true → u64_mod ≤ m * 2 ^ e
leaves-true m e p h = elim (Bool-cases (leb 64 e)) [
  | inl wide ↦ omega (arith, two_power 64 e (ground (arith, wide)), mul-le 1 (2 ^ e) m p)
  | inr narrow ↦
      let out : ltb ((u64_mod - 1) / 2 ^ e) m ≡ true = rw narrow at h in
      omega (arith, (div-lt_iff_lt-mul (two_power_pos e)).0 (ltb→lt _ _ out))
]

leaves-false : (m e : ℕ) → leaves m e ≡ false → m * 2 ^ e < u64_mod
leaves-false m e h = elim (Bool-cases (leb 64 e)) [
  | inl wide ↦ cc (rw wide at h)
  | inr narrow ↦
      let fits : ltb ((u64_mod - 1) / 2 ^ e) m ≡ false = rw narrow at h in
      omega (arith, (le-div_iff_mul-le (two_power_pos e)).0 (ltb-false _ _ fits))
]

-- For a number and a mantissa above 0 and below 2 ^ 64, sem_u64_scaled, whose shifts are in 64 bits,
-- is the exact order of the number against mant * 2 ^ exp, for a negative exponent with both sides
-- multiplied by its power of two.
pub sem_u64_scaled-exact :
    (n mant : ℕ) (exp : ℤ)
    → 0 < n
    → n < u64_mod
    → 0 < mant
    → mant < u64_mod
    → sem_u64_scaled n mant exp ≡ scaled n mant exp
unfolding sem_u64_scaled
sem_u64_scaled-exact n mant (pos e) pn hn pm hm = elim (Bool-cases (leaves mant e)) [
  | inl out ↦ rw out (sym (order_of-lt n (mant * 2 ^ e) (omega (arith, leaves-true mant e pm out))))
  | inr fits ↦
      let whole : mant * 2 ^ e % u64_mod ≡ mant * 2 ^ e = omega (arith, leaves-false mant e fits) in
      rw (fits, whole) refl
]
sem_u64_scaled-exact n mant (negsuc k) pn hn pm hm = elim (Bool-cases (leaves n (suc k))) [
  | inl out ↦
      rw out (sym (order_of-gt (n * 2 ^ suc k) mant (omega (arith, leaves-true n (suc k) pn out))))
  | inr fits ↦
      let whole : n * 2 ^ suc k % u64_mod ≡ n * 2 ^ suc k =
        omega (arith, leaves-false n (suc k) fits) in
      rw (fits, whole) refl
]
