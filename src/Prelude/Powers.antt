-- ===== src/Prelude/Powers.antt =====
-- Powers of the native numbers.
use native.Mathlib.Nat.{pow-zero, pow-suc, pow-le-pow_left, pow-le-pow_right}
use struple.Prelude.{ℕ, zero, suc, ◌+◌, ◌*◌, ◌^◌, ◌≤◌, ◌<◌, ◌≡◌, sym, ap, ◌∙◌, arith}

pub power_add : (b j k : ℕ) → b ^ (j + k) ≡ b ^ j * b ^ k
power_add b zero k =
    let e : 0 + k ≡ k = omega arith in
    ap (λ (t : ℕ). b ^ t) e ∙ omega (arith, ap (λ (t : ℕ). t * b ^ k) (pow-zero b))
power_add b (suc j) k =
    ap (λ (t : ℕ). b ^ t) (shift j k)
    ∙ pow-suc b (j + k)
    ∙ ap (λ (t : ℕ). t * b) (power_add b j k)
    ∙ regroup (b ^ j) (b ^ k) b
    ∙ ap (λ (t : ℕ). t * b ^ k) (sym (pow-suc b j))
  where
    shift : (j k : ℕ) → suc j + k ≡ suc (j + k)
    shift j k = omega arith

    regroup : (x y z : ℕ) → x * y * z ≡ x * z * y
    regroup x y z = grind arith

pub power_pos : (b k : ℕ) → 0 < b → 0 < b ^ k
power_pos b zero h = omega (arith, pow-zero b)
power_pos b (suc k) h = positive (b ^ k) b (pow-suc b k) (power_pos b k h) h
  where
    positive : {t : ℕ} (x y : ℕ) → t ≡ x * y → 0 < x → 0 < y → 0 < t
    positive x y e p q = rw e (grind arith)

pub power_le : (b : ℕ) → 0 < b → (j k : ℕ) → j ≤ k → b ^ j ≤ b ^ k
power_le b p j k h = pow-le-pow_right p h

pub power_times : (b c k : ℕ) → (b * c) ^ k ≡ b ^ k * c ^ k
power_times b c zero =
    omega (arith, pow-zero (b * c), ap (λ (t : ℕ). t * c ^ 0) (pow-zero b), pow-zero c)
power_times b c (suc k) =
    pow-suc (b * c) k
    ∙ ap (λ (t : ℕ). t * (b * c)) (power_times b c k)
    ∙ regroup (b ^ k) (c ^ k) b c
    ∙ ap (λ (t : ℕ). t * (c ^ k * c)) (sym (pow-suc b k))
    ∙ ap (λ (t : ℕ). b ^ suc k * t) (sym (pow-suc c k))
  where
    regroup : (x y b c : ℕ) → x * y * (b * c) ≡ x * b * (y * c)
    regroup x y b c = grind arith

pub hundred_powers : (k : ℕ) → 100 ^ k ≡ 10 ^ (2 * k)
hundred_powers k =
    let twice : k + k ≡ 2 * k = omega arith in
    power_times 10 10 k ∙ sym (power_add 10 k k) ∙ ap (λ (t : ℕ). 10 ^ t) twice

pub thousand_powers : (k : ℕ) → 1000 ^ k ≡ 10 ^ (3 * k)
thousand_powers k =
    let thrice : k + 2 * k ≡ 3 * k = omega arith in
    power_times 10 100 k
    ∙ ap (λ (t : ℕ). 10 ^ k * t) (hundred_powers k)
    ∙ sym (power_add 10 k (2 * k))
    ∙ ap (λ (t : ℕ). 10 ^ t) thrice

-- The powers of 256 between those of 100 and of 1000
pub power256-le : (k : ℕ) → 256 ^ k ≤ 10 ^ (3 * k)
power256-le k = rw (thousand_powers k) at (pow-le-pow_left {n = 256} {m = 1000} (omega arith) k)

pub power256-ge : (k : ℕ) → 10 ^ (2 * k) ≤ 256 ^ k
power256-ge k = rw (hundred_powers k) at (pow-le-pow_left {n = 100} {m = 256} (omega arith) k)
