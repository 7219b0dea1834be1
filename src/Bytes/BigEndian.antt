-- ===== src/Bytes/BigEndian.antt =====
-- The number that a big-endian byte list stands for, and the helpers of `Bytes` against it.
use native.Mathlib.Nat.{pow-succ'}
use native.Mathlib.Numerals.{towards_suc}
use struple.Prelude.{
  ℕ, zero, suc, ◌+◌, ◌*◌, ◌%◌, ◌^◌, ◌≤◌, ◌<◌, ◌≡◌, refl, sym, ap, ◌∙◌, arith, List, [], ◌∷◌, ◌++◌,
  length, inl, inr, three_ways,
}
use struple.Prelude.Bits.{bit_or_byte}
use struple.Codes.{u64_mod}
use struple.Bytes.{IsBytes, be_to_u64_loop, be_to_u64}

-- `a` and then the digits of the list, in base 256
unfoldable pub be_from : ℕ → List ℕ → ℕ
be_from a [] = a
be_from a (b ∷ bs) = be_from (a * 256 + b) bs

abbrev pub be_value : List ℕ → ℕ
be_value bs = be_from 0 bs

-- 256 ^ n
abbrev pub power : ℕ → ℕ
power n = 256 ^ n

pub power-suc : (n : ℕ) → power (suc n) ≡ 256 * power n
power-suc n = pow-succ' 256 n

pub be_from_zero : (b : ℕ) (bs : List ℕ) → be_value (b ∷ bs) ≡ be_from b bs
unfolding be_from
be_from_zero b bs = ap (λ (t : ℕ). be_from t bs) (omega arith)

pub be_from-split : (a : ℕ) (bs : List ℕ) → be_from a bs ≡ a * power (length bs) + be_value bs
unfolding be_from
be_from-split a [] = omega arith
be_from-split a (b ∷ bs) = omega (
  arith,
  be_from_zero b bs,
  be_from-split (a * 256 + b) bs,
  be_from-split b bs,
  ap (λ (t : ℕ). a * t) (power-suc (length bs)),
)

pub be_from-append : (a : ℕ) (xs ys : List ℕ) → be_from a (xs ++ ys) ≡ be_from (be_from a xs) ys
unfolding be_from
be_from-append a [] ys = refl
be_from-append a (x ∷ xs) ys = be_from-append (a * 256 + x) xs ys

pub be_value-cons : (b : ℕ) (bs : List ℕ) → be_value (b ∷ bs) ≡ b * power (length bs) + be_value bs
be_value-cons b bs = be_from_zero b bs ∙ be_from-split b bs

pub mul-le : (b p c : ℕ) → b ≤ c → b * p ≤ c * p
mul-le b p c h = grind arith

pub be_value-lt : (bs : List ℕ) → IsBytes bs → be_value bs < power (length bs)
be_value-lt [] h = unfold be_from in omega arith
be_value-lt (b ∷ bs) (hb, h) = omega (
  arith,
  be_value-cons b bs,
  be_value-lt bs h,
  power-suc (length bs),
  mul-le b (power (length bs)) 255 (omega arith),
)

pub be_from-le : (v : ℕ) (bs : List ℕ) → v ≤ be_from v bs
unfolding be_from
be_from-le v [] = omega arith
be_from-le v (b ∷ bs) = omega (arith, be_from-le (v * 256 + b) bs)

-- A leading digit decides before those that follow.
pub digit_lt : (p x y u v : ℕ) → u < p → x < y → x * p + u < y * p + v
digit_lt p x y u v hu h = omega (arith, mul-le (suc x) p y h)

pub digit_order : (p x y u v : ℕ) → u < p → v < p → x * p + u ≡ y * p + v → (x ≡ y) × (u ≡ v)
digit_order p x y u v hu hv e = elim (three_ways x y) [
  | inl less ↦ absurd (omega (arith, digit_lt p x y u v hu less))
  | inr (inl h) ↦ (h, omega (arith, ap (λ (t : ℕ). t * p) h))
  | inr (inr more) ↦ absurd (omega (arith, digit_lt p y x v u hv more))
]

-- A byte list is determined by its number and its length.
pub be_value-injective :
    (xs ys : List ℕ)
    → IsBytes xs
    → IsBytes ys
    → length xs ≡ length ys
    → be_value xs ≡ be_value ys
    → xs ≡ ys
be_value-injective [] [] hx hy l e = refl
be_value-injective [] (y ∷ ys) hx hy l e = absurd (omega arith)
be_value-injective (x ∷ xs) [] hx hy l e = absurd (omega arith)
be_value-injective (x ∷ xs) (y ∷ ys) (bx, hx) (by, hy) l e =
    let same : length xs ≡ length ys = omega arith in
    let (h, t) =
      digit_order (power (length xs)) x y (be_value xs) (be_value ys) (be_value-lt xs hx)
        (rw same (be_value-lt ys hy))
        (sym (be_value-cons x xs) ∙ e ∙ be_value-cons y ys ∙ rw same refl) in
    rw (h, be_value-injective xs ys hx hy same t) refl

-- be_to_u64 of at most eight bytes is their number.
be_to_u64_loop-be_from :
    (v : ℕ) (bs : List ℕ) → IsBytes bs → be_from v bs < u64_mod → be_to_u64_loop v bs ≡ be_from v bs
unfolding be_to_u64_loop be_from
be_to_u64_loop-be_from v [] h lt = refl
be_to_u64_loop-be_from v (b ∷ bs) (hb, h) lt =
    let fits : v * 256 + b < u64_mod = omega (arith, be_from-le (v * 256 + b) bs) in
    let whole : v * 256 % u64_mod ≡ v * 256 = omega arith in
    rw (whole, bit_or_byte v b hb) (be_to_u64_loop-be_from (v * 256 + b) bs h lt)

pub be_to_u64-be_value :
    (bs : List ℕ) → IsBytes bs → be_value bs < u64_mod → be_to_u64 bs ≡ be_value bs
unfolding be_to_u64
be_to_u64-be_value bs h lt = be_to_u64_loop-be_from 0 bs h lt

pub power_mono : (m n : ℕ) → m ≤ n → power m ≤ power n
power_mono zero zero h = omega arith
power_mono zero (suc n) h = omega (arith, power-suc n, power_mono zero n (omega arith))
power_mono (suc m) zero h = absurd (omega arith)
power_mono (suc m) (suc n) h = omega (arith, power-suc m, power-suc n, power_mono m n (omega arith))

-- A magnitude as the encoder wants it: no leading zero, and not empty.
abbrev pub IsNormal : List ℕ → Type 0
IsNormal [] = ⊥
IsNormal (b ∷ bs) = (0 < b) × (b < 256) × IsBytes bs

pub IsNormal-IsBytes : (p : List ℕ) → IsNormal p → IsBytes p
IsNormal-IsBytes [] h = absurd h
IsNormal-IsBytes (b ∷ bs) h = (h.1, h.2)

pub length_pos_IsNormal : (p : List ℕ) → IsNormal p → 1 ≤ length p
length_pos_IsNormal [] h = absurd h
length_pos_IsNormal (b ∷ bs) h = omega arith

pub power-le_IsNormal : (p : List ℕ) → IsNormal p → power (length p) ≤ 256 * be_value p
power-le_IsNormal [] h = absurd h
power-le_IsNormal (b ∷ bs) h =
    omega (arith, power-suc (length bs), be_value-cons b bs, mul-le 1 (power (length bs)) b h.0)

pub IsNormal-of_power : (p : List ℕ) → IsBytes p → power (length p) ≤ 256 * be_value p → IsNormal p
IsNormal-of_power [] h le = unfold be_from in absurd (omega arith)
IsNormal-of_power (zero ∷ bs) (hb, h) le =
    absurd (omega (arith, power-suc (length bs), be_value-cons 0 bs, be_value-lt bs h))
IsNormal-of_power (suc b ∷ bs) (hb, h) le = (omega arith, hb, h)

-- The length of a magnitude follows from its number.
pub length-le_IsNormal :
    (p q : List ℕ) → IsNormal p → IsBytes q → be_value p ≤ be_value q → length p ≤ length q
length-le_IsNormal p q hp hq le = elim (three_ways (length q) (length p)) [
  | inl less ↦ absurd (
      omega (
        arith,
        power-le_IsNormal p hp,
        be_value-lt q hq,
        power-suc (length q),
        power_mono (suc (length q)) (length p) less,
      ))
  | inr (inl h) ↦ omega arith
  | inr (inr h) ↦ omega arith
]

pub IsNormal-injective : (p q : List ℕ) → IsNormal p → IsNormal q → be_value p ≡ be_value q → p ≡ q
IsNormal-injective p q hp hq e =
    let bp = IsNormal-IsBytes p hp in
    let bq = IsNormal-IsBytes q hq in
    be_value-injective p q bp bq
      (omega (
        arith,
        length-le_IsNormal p q hp bq (omega arith),
        length-le_IsNormal q p hq bp (omega arith),
      ))
      e

-- `1 << (8 * n)`
pub two-pow-eight_mul : (n : ℕ) → 2 ^ (8 * n) ≡ power n
two-pow-eight_mul zero = refl
two-pow-eight_mul (suc n) =
    let e : 8 * suc n ≡ 8 * n + 8 = omega arith in
    rw e (eight (8 * n) ∙ omega (arith, two-pow-eight_mul n, power-suc n))
  where
    eight : (s : ℕ) → 2 ^ (s + 8) ≡ 256 * 2 ^ s
    eight s = simp towards_suc (omega arith)
