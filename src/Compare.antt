-- ===== src/Compare.antt =====
-- Byte order: memcmp, `struple_compare` and `cmp_bytes` of c/struple.c. `Ordering.lt`, `Ordering.eq`
-- and `Ordering.gt` are the C results -1, 0 and 1.
pub mod Order
use struple.Prelude.{ℕ, zero, suc, min, Ordering, List, [], ◌∷◌, length, ltb, if◌then◌else◌}

-- The sign of memcmp over the first `n` bytes.
unfoldable pub memcmp : ℕ → List ℕ → List ℕ → Ordering
memcmp zero a b = Ordering.eq
memcmp (suc n) [] b = Ordering.eq
memcmp (suc n) (x ∷ a) [] = Ordering.eq
memcmp (suc n) (x ∷ a) (y ∷ b) =
    let rest = memcmp n a b in
    if ltb x y then Ordering.lt else if ltb y x then Ordering.gt else rest

-- The order of two numbers, as the sign that C makes of `(x > y) - (x < y)`
abbrev pub order_of : ℕ → ℕ → Ordering
order_of m n = if ltb m n then Ordering.lt else if ltb n m then Ordering.gt else Ordering.eq

-- `c` if it is not 0, else the order of the lengths
abbrev pub or_length : Ordering → ℕ → ℕ → Ordering
or_length Ordering.lt m n = Ordering.lt
or_length Ordering.eq m n = order_of m n
or_length Ordering.gt m n = Ordering.gt

unfoldable pub compare_bytes : List ℕ → List ℕ → Ordering
unfolding memcmp
compare_bytes a b = or_length (memcmp (min (length a) (length b)) a b) (length a) (length b)

unfoldable pub cmp_bytes : List ℕ → List ℕ → Ordering
unfolding memcmp
cmp_bytes a b = or_length (memcmp (min (length a) (length b)) a b) (length a) (length b)
