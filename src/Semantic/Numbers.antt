-- ===== src/Semantic/Numbers.antt =====
-- Integers and floats in the semantic order of c/struple.c. A double is its bits, `sem_float` widens.
use struple.Prelude.{ℕ, suc, ◌^◌, Ordering, Bool, true, false, List, leb, ◌||◌, if◌then◌else◌}
use struple.Prelude.Int.{ℤ, pos, negsuc}
use struple.Compare.{order_of}
use struple.Floats.{float_lt, fabs, isinf, double_of_int, widen}
use struple.Encode.Scalars.{isnan64}
use struple.Encode.Ints.{magnitude, is_negative, is_zero}
use struple.Reader.{Element, int, bigint, f32, f64, decimal}
use struple.Semantic.{sem_icmp, sem_cmp_mag, sem_decompose, sem_u64_scaled, sem_mag_scaled}

-- `-c` of a C result
abbrev pub flip_order : Ordering → Ordering
flip_order Ordering.lt = Ordering.gt
flip_order Ordering.eq = Ordering.eq
flip_order Ordering.gt = Ordering.lt

-- `negative ? -c : c`
abbrev pub signed : Bool → Ordering → Ordering
signed negative c = if negative then flip_order c else c

-- The first result if it is not 0, else the second
abbrev pub or_else : Ordering → Ordering → Ordering
or_else Ordering.lt d = Ordering.lt
or_else Ordering.eq d = d
or_else Ordering.gt d = Ordering.gt

abbrev rank : Ordering → ℕ
rank Ordering.lt = 0
rank Ordering.eq = 1
rank Ordering.gt = 2

-- `(sa > sb) - (sa < sb)` of two signs
abbrev pub cmp_signs : Ordering → Ordering → Ordering
cmp_signs a b = order_of (rank a) (rank b)

unfoldable pub sem_dcmp : ℕ → ℕ → Ordering
sem_dcmp x y =
    if float_lt x y then Ordering.lt else if float_lt y x then Ordering.gt else Ordering.eq

unfoldable pub sem_sign : ℕ → Ordering
unfolding sem_dcmp
sem_sign f = sem_dcmp f 0

-- `value >= -(1LL << 53) && value <= (1LL << 53)`
abbrev pub within_53 : ℤ → Bool
within_53 (pos n) = leb n (2 ^ 53)
within_53 (negsuc n) = leb (suc n) (2 ^ 53)

abbrev pub sign_of : Bool → Ordering
sign_of negative = if negative then Ordering.lt else Ordering.gt

unfoldable pub sem_i64_float : ℤ → ℕ → Ordering
unfolding sem_sign
sem_i64_float value f =
    if is_zero value
    then flip_order (sem_sign f)
    else if within_53 value
    then sem_dcmp (double_of_int value) f
    else (let (mant, exp) = sem_decompose (fabs f) in
        or_else (cmp_signs (sign_of (is_negative value)) (sem_sign f))
          (signed (is_negative value) (sem_u64_scaled (magnitude value) mant exp)))

unfoldable pub sem_bigint_float : Bool → List ℕ → ℕ → Ordering
unfolding sem_sign
sem_bigint_float negative mag f =
    let (mant, exp) = sem_decompose (fabs f) in
    or_else (cmp_signs (sign_of negative) (sem_sign f))
      (signed negative (sem_mag_scaled mag mant exp))

unfoldable pub sem_is_int : Element → Bool
sem_is_int (int v) = true
sem_is_int (bigint negative mag) = true
sem_is_int e = false

abbrev pub is_decimal : Element → Bool
is_decimal (decimal negative exp digits) = true
is_decimal e = false

-- `f64_val` is 0 in an element of another kind.
unfoldable pub sem_float : Element → ℕ
sem_float (f32 v) = widen v
sem_float (f64 v) = v
sem_float e = 0

-- `big_negative` is false in an element of another kind.
unfoldable pub sem_int_sign : Element → Ordering
sem_int_sign (int v) = sem_icmp v (pos 0)
sem_int_sign (bigint negative mag) = sign_of negative
sem_int_sign e = Ordering.gt

unfoldable pub sem_num_class : Element → ℕ
unfolding sem_is_int sem_float
sem_num_class e =
    if sem_is_int e || is_decimal e
    then 1
    else if isnan64 (sem_float e)
    then 3
    else if isinf (sem_float e)
    then (if float_lt 0 (sem_float e) then 2 else 0)
    else 1

-- Called on integers only.
unfoldable pub sem_int_finite : Element → ℕ → Ordering
sem_int_finite (int v) f = sem_i64_float v f
sem_int_finite (bigint negative mag) f = sem_bigint_float negative mag f
sem_int_finite e f = Ordering.eq

abbrev big_of_two : Element → Element → Ordering → Ordering
big_of_two (bigint n p) (bigint m q) sa = signed n (sem_cmp_mag p q)
big_of_two (bigint n p) b sa = sa
big_of_two a b sa = flip_order sa

-- Called on integers only: two of int64_t, or signs, or which of them is a big integer, or magnitudes.
unfoldable pub sem_int_int : Element → Element → Ordering
unfolding sem_int_sign
sem_int_int (int x) (int y) = sem_icmp x y
sem_int_int a b =
    or_else (cmp_signs (sem_int_sign a) (sem_int_sign b)) (big_of_two a b (sem_int_sign a))
