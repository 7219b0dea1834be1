-- ===== src/Semantic/Flip.antt =====
-- The comparisons of the semantic order with their arguments exchanged.
use struple.Prelude.{
  ℕ, zero, suc, ◌*◌, ◌≡◌, refl, sym, ap, ◌∙◌, arith, min, List, [], ◌∷◌, length, Ordering, Bool,
  true, false, not, ◌&&◌, ◌||◌, ◌==◌, if◌then◌else◌, Bool-cases, inl, inr,
}
use struple.Prelude.Int.{ℤ, pos, ltb_ℤ, ◌+ℤ◌, ◌-ℤ◌}
use struple.Encode.Ints.{strip_zeros}
use struple.Compare.{memcmp, order_of, or_length}
use struple.Floats.{float_lt, place}
use struple.Encode.Scalars.{isnan64}
use struple.Reader.{Element, nil, int, bigint, decimal}
use struple.Semantic.{sem_icmp, sem_cmp_lex, sem_cmp_mag, cmp_stripped}
use struple.Semantic.Numbers.{
  flip_order, signed, or_else, cmp_signs, sign_of, sem_dcmp, sem_is_int, sem_int_int, is_decimal,
  sem_float,
}
use struple.Semantic.Digits.{sem_mul_pow}
use struple.Semantic.Base10.{
  B10, sem_b10_oom, sem_b10_mag, leb_ℤ, min_ℤ, to_size, with_sign, b10_b10, sem_is_exact,
  sem_num_to_b10, sem_b10_float, sem_with_decimal,
}

pub flip_twice : (c : Ordering) → flip_order (flip_order c) ≡ c
flip_twice Ordering.lt = refl
flip_twice Ordering.eq = refl
flip_twice Ordering.gt = refl

pub order_of-flip : (m n : ℕ) → order_of n m ≡ flip_order (order_of m n)
order_of-flip m n = ground arith

pub sem_icmp-flip : (x y : ℤ) → sem_icmp y x ≡ flip_order (sem_icmp x y)
unfolding sem_icmp
sem_icmp-flip x y = ground arith

memcmp-flip : (n : ℕ) (a b : List ℕ) → memcmp n b a ≡ flip_order (memcmp n a b)
unfolding memcmp
memcmp-flip zero a b = refl
memcmp-flip (suc n) [] [] = refl
memcmp-flip (suc n) [] (y ∷ b) = refl
memcmp-flip (suc n) (x ∷ a) [] = refl
memcmp-flip (suc n) (x ∷ a) (y ∷ b) = ground (arith, memcmp-flip n a b)

or_length-flip :
    (c : Ordering) (m n : ℕ) → or_length (flip_order c) n m ≡ flip_order (or_length c m n)
or_length-flip Ordering.lt m n = refl
or_length-flip Ordering.eq m n = order_of-flip m n
or_length-flip Ordering.gt m n = refl

min_comm : (m n : ℕ) → min m n ≡ min n m
min_comm m n = omega arith

pub sem_cmp_lex-flip : (a b : List ℕ) → sem_cmp_lex b a ≡ flip_order (sem_cmp_lex a b)
unfolding sem_cmp_lex
sem_cmp_lex-flip a b =
    rw (min_comm (length b) (length a), memcmp-flip (min (length a) (length b)) a b)
      (or_length-flip (memcmp (min (length a) (length b)) a b) (length a) (length b))

cmp_stripped-flip : (a b : List ℕ) → cmp_stripped b a ≡ flip_order (cmp_stripped a b)
cmp_stripped-flip a b = elim (Bool-cases (length a == length b)) [
  | inl e ↦
      let same : length a ≡ length b = ground arith in
      let back : (length b == length a) ≡ true = ground arith in
      rw (e, back, same) (memcmp-flip (length b) a b)
  | inr e ↦ ground arith
]

pub sem_cmp_mag-flip : (a b : List ℕ) → sem_cmp_mag b a ≡ flip_order (sem_cmp_mag a b)
unfolding sem_cmp_mag
sem_cmp_mag-flip a b = cmp_stripped-flip (strip_zeros a) (strip_zeros b)

ltb_ℤ-asym : (x y : ℤ) → ltb_ℤ x y ≡ true → ltb_ℤ y x ≡ false
ltb_ℤ-asym x y h = ground arith

guarded : (p q : Bool) (x y : ℤ) → (p && q && ltb_ℤ x y) ≡ true → (q && p && ltb_ℤ y x) ≡ false
guarded true true x y h = ltb_ℤ-asym x y h
guarded true false x y h = refl
guarded false true x y h = refl
guarded false false x y h = refl

-- Two tests that exclude one another, and then a comparison.
by_tests :
    (p q : Bool) (c d : Ordering)
    → (p ≡ true → q ≡ false)
    → d ≡ flip_order c
    → (if q then Ordering.lt else if p then Ordering.gt else d)
      ≡ flip_order (if p then Ordering.lt else if q then Ordering.gt else c)
by_tests true true c d h e = cc (h refl)
by_tests true false c d h e = refl
by_tests false true c d h e = refl
by_tests false false c d h e = e

pub sem_dcmp-flip : (x y : ℕ) → sem_dcmp y x ≡ flip_order (sem_dcmp x y)
unfolding sem_dcmp
sem_dcmp-flip x y =
    by_tests (float_lt x y) (float_lt y x) Ordering.eq Ordering.eq
      (guarded (not (isnan64 x)) (not (isnan64 y)) (place x) (place y)) refl

-- Equal signs leave the decision to what follows.
pub or_else-flip :
    (s t c d : Ordering)
    → (s ≡ t → d ≡ flip_order c)
    → or_else (cmp_signs t s) d ≡ flip_order (or_else (cmp_signs s t) c)
or_else-flip Ordering.lt Ordering.lt c d h = h refl
or_else-flip Ordering.lt Ordering.eq c d h = refl
or_else-flip Ordering.lt Ordering.gt c d h = refl
or_else-flip Ordering.eq Ordering.lt c d h = refl
or_else-flip Ordering.eq Ordering.eq c d h = h refl
or_else-flip Ordering.eq Ordering.gt c d h = refl
or_else-flip Ordering.gt Ordering.lt c d h = refl
or_else-flip Ordering.gt Ordering.eq c d h = refl
or_else-flip Ordering.gt Ordering.gt c d h = h refl

signed-flip :
    (n m : Bool) (c d : Ordering)
    → d ≡ flip_order c
    → sign_of n ≡ sign_of m
    → signed m d ≡ flip_order (signed n c)
signed-flip true true c d h e = ap flip_order h
signed-flip true false c d h e = cc e
signed-flip false true c d h e = cc e
signed-flip false false c d h e = h

pub sem_int_int-flip :
    (a b : Element)
    → sem_is_int a ≡ true
    → sem_is_int b ≡ true
    → sem_int_int b a ≡ flip_order (sem_int_int a b)
unfolding sem_is_int sem_int_int
sem_int_int-flip (int x) (int y) ha hb = sem_icmp-flip x y
sem_int_int-flip (int x) (bigint m q) ha hb =
    or_else-flip (sem_icmp x (pos 0)) (sign_of m) (flip_order (sem_icmp x (pos 0))) (sign_of m)
      (λ e. sym e ∙ sym (flip_twice (sem_icmp x (pos 0))))
sem_int_int-flip (bigint n p) (int y) ha hb =
    or_else-flip (sign_of n) (sem_icmp y (pos 0)) (sign_of n) (flip_order (sem_icmp y (pos 0)))
      (λ e. ap flip_order (sym e))
sem_int_int-flip (bigint n p) (bigint m q) ha hb =
    or_else-flip (sign_of n) (sign_of m) (signed n (sem_cmp_mag p q)) (signed m (sem_cmp_mag q p))
      (signed-flip n m (sem_cmp_mag p q) (sem_cmp_mag q p) (sem_cmp_mag-flip p q))
sem_int_int-flip a b ha hb = ground arith

-- The bounds of a value are apart, so that two values are below one another in one way at most.
bounds_apart :
    (x y : ℤ) (p q : ℕ)
    → leb_ℤ (x +ℤ pos (3 * p)) ((y +ℤ pos (2 * q)) -ℤ pos 2) ≡ true
    → leb_ℤ (y +ℤ pos (3 * q)) ((x +ℤ pos (2 * p)) -ℤ pos 2) ≡ false
bounds_apart x y p q h = ground arith

sem_b10_oom_apart :
    (a b : B10)
    → leb_ℤ (sem_b10_oom a).hi (sem_b10_oom b).lo ≡ true
    → leb_ℤ (sem_b10_oom b).hi (sem_b10_oom a).lo ≡ false
unfolding sem_b10_oom
sem_b10_oom_apart a b h =
    bounds_apart a.exp10 b.exp10 (length (strip_zeros a.mag)) (length (strip_zeros b.mag)) h

min_ℤ_comm : (x y : ℤ) → min_ℤ x y ≡ min_ℤ y x
min_ℤ_comm x y = ground arith

-- The comparison with both values scaled to the exponent `e`
abbrev scaled_to : ℤ → B10 → B10 → Ordering
scaled_to e a b =
    sem_cmp_mag (sem_mul_pow a.mag 10 (to_size (a.exp10 -ℤ e)))
      (sem_mul_pow b.mag 10 (to_size (b.exp10 -ℤ e)))

pub sem_b10_mag-flip : (a b : B10) → sem_b10_mag b a ≡ flip_order (sem_b10_mag a b)
unfolding sem_b10_mag
sem_b10_mag-flip a b =
    by_tests (leb_ℤ (sem_b10_oom a).hi (sem_b10_oom b).lo)
      (leb_ℤ (sem_b10_oom b).hi (sem_b10_oom a).lo) (scaled_to (min_ℤ a.exp10 b.exp10) a b)
      (scaled_to (min_ℤ b.exp10 a.exp10) b a) (sem_b10_oom_apart a b)
      (ap (λ (e : ℤ). scaled_to e b a) (min_ℤ_comm b.exp10 a.exp10)
        ∙ sem_cmp_mag-flip (sem_mul_pow a.mag 10 (to_size (a.exp10 -ℤ min_ℤ a.exp10 b.exp10)))
            (sem_mul_pow b.mag 10 (to_size (b.exp10 -ℤ min_ℤ a.exp10 b.exp10))))

pub b10_b10-flip : (a b : B10) → b10_b10 b a ≡ flip_order (b10_b10 a b)
b10_b10-flip a b =
    or_else-flip a.sign b.sign (with_sign a.sign (sem_b10_mag a b))
      (with_sign b.sign (sem_b10_mag b a))
      (under a.sign b.sign (sem_b10_mag a b) (sem_b10_mag b a) (sem_b10_mag-flip a b))
  where
    under :
        (s t c d : Ordering) → d ≡ flip_order c → s ≡ t → with_sign t d ≡ flip_order (with_sign s c)
    under Ordering.lt Ordering.lt c d h e = ap flip_order h
    under Ordering.eq Ordering.eq c d h e = refl
    under Ordering.gt Ordering.gt c d h e = h
    under s t c d h e = cc e

inexact : (a : Element) → sem_is_exact a ≡ false → is_decimal a ≡ false
unfolding sem_is_exact
inexact (decimal negative exp digits) h = cc h
inexact nil h = refl
inexact a h = refl

pub sem_with_decimal-flip :
    (a b : Element)
    → (is_decimal a || is_decimal b) ≡ true
    → sem_with_decimal b a ≡ flip_order (sem_with_decimal a b)
unfolding sem_with_decimal
sem_with_decimal-flip a b h =
    by_kinds (sem_is_exact a) (sem_is_exact b) (b10_b10 (sem_num_to_b10 a) (sem_num_to_b10 b))
      (b10_b10 (sem_num_to_b10 b) (sem_num_to_b10 a))
      (sem_b10_float (sem_num_to_b10 a) (sem_float b))
      (sem_b10_float (sem_num_to_b10 b) (sem_float a))
      (b10_b10-flip (sem_num_to_b10 a) (sem_num_to_b10 b))
      (λ ha hb. cc (rw (inexact a ha, inexact b hb) at h))
  where
    by_kinds :
        (p q : Bool) (c d x y : Ordering)
        → d ≡ flip_order c
        → (p ≡ false → q ≡ false → ⊥)
        → (if q && p then d else if q then y else flip_order x)
          ≡ flip_order (if p && q then c else if p then x else flip_order y)
    by_kinds true true c d x y e k = e
    by_kinds true false c d x y e k = refl
    by_kinds false true c d x y e k = sym (flip_twice y)
    by_kinds false false c d x y e k = absurd (k refl refl)
