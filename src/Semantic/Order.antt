-- ===== src/Semantic/Order.antt =====
-- `struple_semantic_order` of c/struple.c: numbers of all kinds, elements, streams of elements, and
-- the recursion into containers. `none` is the result -1.
use struple.Prelude.{
  ℕ, zero, suc, ◌+◌, Ordering, Bool, not, ◌&&◌, ◌||◌, Option, none, some, List, length, take, ◌==◌,
  if◌then◌else◌,
}
use struple.Compare.{order_of}
use struple.Reader.{
  Element, nil, undef, bool, timestamp, uuid, string, bytes, array, map, set, Reader, reader_init,
}
use struple.Reader.Next.{Outcome, at_end, item, malformed, reader_next}
use struple.Semantic.{sem_class_rank, sem_icmp, sem_cmp_lex}
use struple.Semantic.Numbers.{
  flip_order, sem_dcmp, sem_is_int, is_decimal, sem_float, sem_num_class, sem_int_finite,
  sem_int_int,
}
use struple.Semantic.Base10.{sem_with_decimal}

-- STRUPLE_MAX_DEPTH
abbrev pub max_depth : ℕ
max_depth = 256

unfoldable pub sem_numbers : Element → Element → Ordering
unfolding sem_num_class sem_is_int
sem_numbers a b =
    if not (sem_num_class a == sem_num_class b)
    then order_of (sem_num_class a) (sem_num_class b)
    else if not (sem_num_class a == 1)
    then Ordering.eq
    else if is_decimal a || is_decimal b
    then sem_with_decimal a b
    else if sem_is_int a && sem_is_int b
    then sem_int_int a b
    else if not (sem_is_int a) && not (sem_is_int b)
    then sem_dcmp (sem_float a) (sem_float b)
    else if sem_is_int a
    then sem_int_finite a (sem_float b)
    else flip_order (sem_int_finite b (sem_float a))

abbrev pub bit_of : Bool → ℕ
bit_of v = if v then 1 else 0

-- The switch on the kind of two elements of one class. `nested` compares the contents of containers
-- one level deeper.
unfoldable pub same_class :
    (List ℕ → List ℕ → Option Ordering) → Element → Element → Option Ordering
same_class nested nil b = some Ordering.eq
same_class nested undef b = some Ordering.eq
same_class nested (bool x) (bool y) = some (order_of (bit_of x) (bit_of y))
same_class nested (timestamp x) (timestamp y) = some (sem_icmp x y)
same_class nested (uuid x) (uuid y) = some (sem_cmp_lex (take 16 x) (take 16 y))
same_class nested (string x) (string y) = some (sem_cmp_lex x y)
same_class nested (bytes x) (bytes y) = some (sem_cmp_lex x y)
same_class nested (array x) (array y) = nested x y
same_class nested (map x) (map y) = nested x y
same_class nested (set x) (set y) = nested x y
same_class nested a b = some (sem_numbers a b)

unfoldable pub sem_elements :
    (List ℕ → List ℕ → Option Ordering) → Element → Element → Option Ordering
unfolding same_class sem_class_rank
sem_elements nested a b =
    if not (sem_class_rank a == sem_class_rank b)
    then some (order_of (sem_class_rank a) (sem_class_rank b))
    else same_class nested a b

-- `if (*err) break; if (c != 0) { … break; }`, and else the next round
abbrev pub next_round : Option Ordering → Option Ordering → Option Ordering
next_round none rest = none
next_round (some Ordering.lt) rest = some Ordering.lt
next_round (some Ordering.eq) rest = rest
next_round (some Ordering.gt) rest = some Ordering.gt

-- A round on what the two readers present.
abbrev pub sem_round :
    (Element → Element → Option Ordering)
    → Option Ordering
    → Outcome Element
    → Outcome Element
    → Option Ordering
sem_round elements rest malformed ob = none
sem_round elements rest at_end malformed = none
sem_round elements rest at_end at_end = some Ordering.eq
sem_round elements rest at_end (item b) = some Ordering.lt
sem_round elements rest (item a) malformed = none
sem_round elements rest (item a) at_end = some Ordering.gt
sem_round elements rest (item a) (item b) = next_round (elements a b) rest

-- The loop over both streams. An element takes a byte at least, so their lengths are enough fuel.
unfoldable pub sem_loop :
    (Element → Element → Option Ordering) → ℕ → Reader → Reader → Option Ordering
sem_loop elements zero ra rb = none
sem_loop elements (suc f) ra rb =
    let rest = sem_loop elements f (reader_next ra).1 (reader_next rb).1 in
    sem_round elements rest (reader_next ra).0 (reader_next rb).0

-- With the levels of nesting that are left; none is left where depth is above the bound.
unfoldable pub sem_order_impl : ℕ → List ℕ → List ℕ → Option Ordering
unfolding sem_loop sem_elements
sem_order_impl zero a b = none
sem_order_impl (suc levels) a b =
    sem_loop (sem_elements (sem_order_impl levels)) (suc (length a + length b)) (reader_init a)
      (reader_init b)

unfoldable pub semantic_order : List ℕ → List ℕ → Option Ordering
unfolding sem_order_impl
semantic_order a b = sem_order_impl (max_depth + 1) a b
