-- ===== src/ByteOrder/Values.antt =====
-- The order of significant digits and their place, against the numbers that they stand for.
use struple.Prelude.{
  ℕ, suc, ◌+◌, ◌*◌, ◌^◌, ◌<◌, ◌≡◌, refl, sym, ap, ◌∙◌, arith, List, [], ◌∷◌, length, All, Ordering,
  inl, inr, ◌⊎◌, three_ways, lt→ltb, le→ltb-false,
}
use native.Mathlib.Nat.{pow-zero, pow-suc}
use struple.Bytes.BigEndian.{mul-le}
use struple.Prelude.Int.{ℤ, pos, ◌+ℤ◌, pos_part, neg_part, sub_ℕ}
use struple.Prelude.Powers.{power_add, power_pos, power_le}
use struple.Compare.{order_of}
use struple.Compare.Order.{lexicographic, order_of-lt, order_of-gt, order_of-eq, order_of-add}
use struple.Semantic.{sem_icmp}
use struple.Semantic.Numbers.{or_else}
use struple.Semantic.Digits.{IsDigit, decimal_from}
use struple.RoundTrip.Decimals.{IsSignificant, adjusted, digits_of, IsSignificant-IsTrimmed}
use struple.RoundTrip.Decimals.Pairs.{IsTrimmed}

-- The order of 0.d₁d₂… · 10 ^ a and 0.e₁e₂… · 10 ^ b, where the first digits are not 0
abbrev pub magnitude_order : ℤ → List ℕ → ℤ → List ℕ → Ordering
magnitude_order a ds b es = or_else (sem_icmp a b) (lexicographic ds es)

-- The number of the digits, times a power of ten
abbrev pub scaled_digits : List ℕ → ℕ → ℕ
scaled_digits ds u = decimal_from 0 ds * 10 ^ u

times : (x p q n : ℕ) → (x * p + n) * q ≡ x * (p * q) + n * q
times x p q n = omega arith

carried_in : (ds : List ℕ) (a : ℕ) → decimal_from a ds ≡ a * 10 ^ length ds + decimal_from 0 ds
unfolding decimal_from
carried_in [] a = omega (arith, pow-zero 10)
carried_in (d ∷ ds) a =
    let more = carried_in ds (a * 10 + d) in
    let alone = carried_in ds (0 * 10 + d) in
    let tens = pow-suc 10 (length ds) in
    omega (
      arith,
      more,
      alone,
      ap (λ (t : ℕ). a * t) tens,
      times a 10 (10 ^ length ds) d,
      times 0 10 (10 ^ length ds) d,
    )

digits_cons :
    (d : ℕ) (ds : List ℕ) → decimal_from 0 (d ∷ ds) ≡ d * 10 ^ length ds + decimal_from 0 ds
unfolding decimal_from
digits_cons d ds = rw (zero_plus d) (carried_in ds d)
  where
    zero_plus : (d : ℕ) → 0 * 10 + d ≡ d
    zero_plus d = omega arith

digits_below : (ds : List ℕ) → All IsDigit ds → decimal_from 0 ds < 10 ^ length ds
unfolding decimal_from
digits_below [] h = omega (arith, pow-zero 10)
digits_below (d ∷ ds) (hd, h) = omega (
  arith,
  digits_cons d ds,
  digits_below ds h,
  pow-suc 10 (length ds),
  mul-le (suc d) (10 ^ length ds) 10 (omega arith),
)

pub digits_positive : (d : ℕ) (ds : List ℕ) → IsTrimmed (d ∷ ds) → 0 < decimal_from 0 (d ∷ ds)
digits_positive d [] h =
    omega (arith, digits_cons d [], power_pos 10 0 (omega arith), mul-le 1 (10 ^ 0) d (omega arith))
digits_positive d (e ∷ es) h = omega (arith, digits_cons d (e ∷ es), digits_positive e es h)

scaled_cons :
    (d : ℕ) (ds : List ℕ) (u : ℕ)
    → scaled_digits (d ∷ ds) u ≡ d * 10 ^ (length ds + u) + scaled_digits ds u
scaled_cons d ds u =
    ap (λ (n : ℕ). n * 10 ^ u) (digits_cons d ds)
    ∙ times d (10 ^ length ds) (10 ^ u) (decimal_from 0 ds)
    ∙ ap (λ (t : ℕ). d * t + scaled_digits ds u) (sym (power_add 10 (length ds) u))

scaled_below : (ds : List ℕ) (u : ℕ) → All IsDigit ds → scaled_digits ds u < 10 ^ (length ds + u)
scaled_below ds u h = omega (
  arith,
  power_add 10 (length ds) u,
  power_pos 10 u (omega arith),
  mul-le (suc (decimal_from 0 ds)) (10 ^ u) (10 ^ length ds) (digits_below ds h),
)

scaled_positive : (d : ℕ) (ds : List ℕ) (u : ℕ) → IsTrimmed (d ∷ ds) → 0 < scaled_digits (d ∷ ds) u
scaled_positive d ds u h = omega (
  arith,
  power_pos 10 u (omega arith),
  mul-le 1 (10 ^ u) (decimal_from 0 (d ∷ ds)) (digits_positive d ds h),
)

-- Where the places of the first digits are the same, a greater first digit decides.
head_decides :
    (d e : ℕ) (ds es : List ℕ) (u v : ℕ)
    → All IsDigit ds
    → length ds + u ≡ length es + v
    → d < e
    → scaled_digits (d ∷ ds) u < scaled_digits (e ∷ es) v
head_decides d e ds es u v h same less = omega (
  arith,
  scaled_cons d ds u,
  scaled_cons e es v,
  scaled_below ds u h,
  ap (λ (k : ℕ). 10 ^ k) same,
  ap (λ (k : ℕ). d * 10 ^ k) same,
  mul-le (suc d) (10 ^ (length es + v)) e less,
)

scaled_none : (u : ℕ) → scaled_digits [] u ≡ 0
unfolding decimal_from
scaled_none u = omega arith

none-scaled_digits :
    (e : ℕ) (es : List ℕ) (u v : ℕ)
    → IsTrimmed (e ∷ es)
    → (order_of (scaled_digits [] u) (scaled_digits (e ∷ es) v) ≡ Ordering.lt)
      × (order_of (scaled_digits (e ∷ es) v) (scaled_digits [] u) ≡ Ordering.gt)
none-scaled_digits e es u v h =
    let less : scaled_digits [] u < scaled_digits (e ∷ es) v =
      omega (arith, scaled_none u, scaled_positive e es v h) in
    (order_of-lt _ _ less, order_of-gt _ _ less)

-- Digits that begin at the same place are in the order of their numbers.
lexicographic-scaled_digits :
    (ds es : List ℕ) (u v : ℕ)
    → All IsDigit ds
    → All IsDigit es
    → IsTrimmed ds
    → IsTrimmed es
    → length ds + u ≡ length es + v
    → lexicographic ds es ≡ order_of (scaled_digits ds u) (scaled_digits es v)
unfolding lexicographic
lexicographic-scaled_digits [] [] u v hd he td te same =
    rw (scaled_none u, scaled_none v) (sym (order_of-eq 0))
lexicographic-scaled_digits [] (e ∷ es) u v hd he td te same =
    sym (none-scaled_digits e es u v te).0
lexicographic-scaled_digits (d ∷ ds) [] u v hd he td te same =
    sym (none-scaled_digits d ds v u td).1
lexicographic-scaled_digits (d ∷ ds) (e ∷ es) u v (hd, hds) (he, hes) td te same =
    let behind : length ds + u ≡ length es + v = omega arith in
    elim (three_ways d e) [
      | inl less ↦
          rw (lt→ltb d e less) (sym (order_of-lt _ _ (head_decides d e ds es u v hds behind less)))
      | inr (inl equal) ↦
          rw (equal, le→ltb-false e e (omega arith))
            (lexicographic-scaled_digits ds es u v hds hes (trimmed_behind d ds td)
                (trimmed_behind e es te) behind
              ∙ sym (
                  order_of-add (e * 10 ^ (length es + v)) (scaled_digits ds u) (scaled_digits es v))
              ∙ rw (scaled_cons e ds u, scaled_cons e es v, behind) refl)
      | inr (inr more) ↦
          rw (le→ltb-false d e (omega arith), lt→ltb e d more)
            (sym (order_of-gt _ _ (head_decides e d es ds v u hes (sym behind) more)))
    ]
  where
    trimmed_behind : (x : ℕ) (xs : List ℕ) → IsTrimmed (x ∷ xs) → IsTrimmed xs
    trimmed_behind x [] h = tt
    trimmed_behind x (y ∷ ys) h = h

-- A number that begins at a lower place is less.
place_decides :
    (ds es : List ℕ) (u v : ℕ)
    → All IsDigit ds
    → IsSignificant es
    → length ds + u < length es + v
    → scaled_digits ds u < scaled_digits es v
place_decides ds [] u v hd he less = absurd he
place_decides ds (e ∷ es) u v hd he less = omega (
  arith,
  scaled_below ds u hd,
  scaled_cons e es v,
  power_le 10 (omega arith) (length ds + u) (length es + v) (omega arith),
  mul-le 1 (10 ^ (length es + v)) e he.0,
)

balanced : (a b : ℕ) → pos_part (sub_ℕ a b) + b ≡ a + neg_part (sub_ℕ a b)
balanced a b = ground arith

sem_icmp-balanced :
    (x y : ℤ) (m n : ℕ)
    → pos_part x + neg_part y + n ≡ pos_part y + neg_part x + m
    → sem_icmp x y ≡ order_of m n
unfolding sem_icmp
sem_icmp-balanced x y m n h = ground arith

icmp-order_of :
    (l k u v : ℕ) (d e : ℤ)
    → d +ℤ pos v ≡ e +ℤ pos u
    → sem_icmp (pos l +ℤ d) (pos k +ℤ e) ≡ order_of (l + u) (k + v)
icmp-order_of l k u v d e h = sem_icmp-balanced (pos l +ℤ d) (pos k +ℤ e) (l + u) (k + v) (
    omega (
      arith,
      balanced (l + pos_part d) (0 + neg_part d),
      balanced (k + pos_part e) (0 + neg_part e),
      balanced (pos_part d + v) (neg_part d + 0),
      balanced (pos_part e + u) (neg_part e + 0),
      ap pos_part h,
      ap neg_part h,
    ))

pub magnitude_order-scaled_digits :
    (ds es : List ℕ) (d e : ℤ) (u v : ℕ)
    → IsSignificant ds
    → IsSignificant es
    → d +ℤ pos v ≡ e +ℤ pos u
    → magnitude_order (adjusted ds d) ds (adjusted es e) es
      ≡ order_of (scaled_digits ds u) (scaled_digits es v)
magnitude_order-scaled_digits ds es d e u v hd he h =
    ap (λ (o : Ordering). or_else o (lexicographic ds es))
      (icmp-order_of (length ds) (length es) u v d e h)
    ∙ by_place (three_ways (length ds + u) (length es + v))
  where
    by_place :
        (length ds + u < length es + v)
          ⊎ ((length ds + u ≡ length es + v) ⊎ (length es + v < length ds + u))
        → or_else (order_of (length ds + u) (length es + v)) (lexicographic ds es)
          ≡ order_of (scaled_digits ds u) (scaled_digits es v)
    by_place (inl less) =
        rw (order_of-lt _ _ less)
          (sym (order_of-lt _ _ (place_decides ds es u v (digits_of ds hd) he less)))
    by_place (inr (inl same)) =
        rw (same, order_of-eq)
          (lexicographic-scaled_digits ds es u v (digits_of ds hd) (digits_of es he)
            (IsSignificant-IsTrimmed ds hd) (IsSignificant-IsTrimmed es he) same)
    by_place (inr (inr more)) =
        rw (order_of-gt _ _ more)
          (sym (order_of-gt _ _ (place_decides es ds v u (digits_of es he) hd more)))
