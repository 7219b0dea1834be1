-- ===== src/Prelude/Bits.antt =====
-- `bit_or` and `bit_xor` at variables, from the digit recursion that the native operations stand for.
use Prim.Native.Nat.{digits, differ, bit_or-bitwise, bit_xor-bitwise, max}
use native.Mathlib.Nat.{two-pow-succ}
use struple.Prelude.{
  ℕ, zero, suc, ◌+◌, ◌-◌, ◌*◌, ◌/◌, ◌%◌, ◌^◌, ◌≤◌, ◌<◌, bit_or, bit_xor, ◌≡◌, refl, ap, ◌∙◌, arith,
}

-- A count of digits that is large enough may be replaced by another.
digits_fuel :
    (f : ℕ → ℕ → ℕ) (n m a b : ℕ)
    → a ≤ n
    → a ≤ m
    → digits (λ c. c) f n a b ≡ digits (λ c. c) f m a b
digits_fuel f zero zero a b p q = refl
digits_fuel f zero (suc m) zero b p q = refl
digits_fuel f zero (suc m) (suc a) b p q = absurd (omega arith)
digits_fuel f (suc n) zero zero b p q = refl
digits_fuel f (suc n) zero (suc a) b p q = absurd (omega arith)
digits_fuel f (suc n) (suc m) zero b p q = refl
digits_fuel f (suc n) (suc m) (suc a) b p q =
    omega (arith, digits_fuel f n m (suc a / 2) (b / 2) (omega arith) (omega arith))

zero-bit_or : (b : ℕ) → bit_or 0 b ≡ b
zero-bit_or b = bit_or-bitwise 0 b

zero-bit_xor : (b : ℕ) → bit_xor 0 b ≡ b
zero-bit_xor b = bit_xor-bitwise 0 b

-- The law for the lowest digit.
pub bit_or_step : (a b : ℕ) → bit_or a b ≡ bit_or (a / 2) (b / 2) * 2 + max (a % 2) (b % 2)
bit_or_step zero b = omega (arith, zero-bit_or b, zero-bit_or (b / 2))
bit_or_step (suc a) b = omega (
  arith,
  bit_or-bitwise (suc a) b,
  bit_or-bitwise (suc a / 2) (b / 2),
  digits_fuel max a (suc a / 2) (suc a / 2) (b / 2) (omega arith) (omega arith),
)

pub bit_xor_step : (a b : ℕ) → bit_xor a b ≡ bit_xor (a / 2) (b / 2) * 2 + differ (a % 2) (b % 2)
bit_xor_step zero b = rw (zero-bit_xor b, zero-bit_xor (b / 2)) (omega arith)
bit_xor_step (suc a) b = omega (
  arith,
  bit_xor-bitwise (suc a) b,
  bit_xor-bitwise (suc a / 2) (b / 2),
  digits_fuel differ a (suc a / 2) (suc a / 2) (b / 2) (omega arith) (omega arith),
)

bit_or-zero_fuel : (n a : ℕ) → a ≤ n → bit_or a 0 ≡ a
bit_or-zero_fuel n zero h = refl
bit_or-zero_fuel zero (suc a) h = absurd (omega arith)
bit_or-zero_fuel (suc n) (suc a) h =
    omega (arith, bit_or_step (suc a) 0, bit_or-zero_fuel n (suc a / 2) (omega arith))

-- Digits that do not overlap add up.
pub bit_or_disjoint : (j k a b : ℕ) → a ≡ k * 2 ^ j → b < 2 ^ j → bit_or a b ≡ a + b
bit_or_disjoint zero k a b e h =
    let z : b ≡ 0 = omega arith in rw z (omega (arith, bit_or-zero_fuel a a (omega arith)))
bit_or_disjoint (suc j) k a b e h =
    let twice : a ≡ 2 * (k * 2 ^ j) = omega (arith, ap (λ (t : ℕ). k * t) (two-pow-succ j)) in
    omega (
      arith,
      bit_or_step a b,
      two-pow-succ j,
      bit_or_disjoint j k (a / 2) (b / 2) (omega arith) (omega (arith, two-pow-succ j)),
    )

-- `(v << 8) | b` for a byte `b`.
pub bit_or_byte : (v b : ℕ) → b < 256 → bit_or (v * 256) b ≡ v * 256 + b
bit_or_byte v b h = bit_or_disjoint 8 v (v * 256) b (omega arith) h

differ-zero : (d : ℕ) → differ d 0 ≡ d
differ-zero zero = refl
differ-zero (suc d) = refl

bit_xor_double : (x p : ℕ) → bit_xor x (2 * p) ≡ bit_xor (x / 2) p * 2 + x % 2
bit_xor_double x p =
    let half : 2 * p / 2 ≡ p = omega arith in
    let even : 2 * p % 2 ≡ 0 = omega arith in
    bit_xor_step x (2 * p) ∙ rw (half, even, differ-zero) refl

-- Exclusive or with a power of two sets or clears that digit.
pub bit_xor_top :
    (k x : ℕ)
    → (x < 2 ^ k → bit_xor x (2 ^ k) ≡ x + 2 ^ k)
      × (2 ^ k ≤ x → x < 2 ^ k + 2 ^ k → bit_xor x (2 ^ k) ≡ x - 2 ^ k)
bit_xor_top zero zero = (λ h. refl, λ h g. absurd (omega arith))
bit_xor_top zero (suc zero) = (λ h. absurd (omega arith), λ h g. refl)
bit_xor_top zero (suc (suc x)) = (λ h. absurd (omega arith), λ h g. absurd (omega arith))
bit_xor_top (suc k) x =
    let (lo, hi) = bit_xor_top k (x / 2) in
    let e : 2 ^ suc k ≡ 2 * 2 ^ k = omega (arith, two-pow-succ k) in
    rw e (
      λ h. rw (bit_xor_double x (2 ^ k), lo (omega arith)) (omega arith),
      λ h g. rw (bit_xor_double x (2 ^ k), hi (omega arith) (omega arith)) (omega arith),
    )

-- `x ^ 0x8000000000000000` and `x ^ 0x80000000`, on the words of that width.
pub bit_xor_sign64 :
    (x : ℕ)
    → (x < 2 ^ 63 → bit_xor x (2 ^ 63) ≡ x + 2 ^ 63)
      × (2 ^ 63 ≤ x → x < 2 ^ 64 → bit_xor x (2 ^ 63) ≡ x - 2 ^ 63)
bit_xor_sign64 = bit_xor_top 63

pub bit_xor_sign32 :
    (x : ℕ)
    → (x < 2 ^ 31 → bit_xor x (2 ^ 31) ≡ x + 2 ^ 31)
      × (2 ^ 31 ≤ x → x < 2 ^ 32 → bit_xor x (2 ^ 31) ≡ x - 2 ^ 31)
bit_xor_sign32 = bit_xor_top 31
