-- ===== src/Semantic/Antisymmetry.antt =====
-- `struple_semantic_order` with its arguments exchanged.
use struple.Prelude.{
  ℕ, zero, suc, ◌+◌, ◌≡◌, refl, sym, ap, ◌∙◌, arith, List, length, take, Ordering, Bool, true,
  false, not, ◌&&◌, ◌||◌, Option, none, some, ◌==◌, if◌then◌else◌, Bool-cases, inl, inr,
}
use struple.Compare.{order_of}
use struple.Reader.{
  Element, nil, undef, bool, timestamp, uuid, string, bytes, array, map, set, Reader, reader_init,
}
use struple.Reader.Next.{Outcome, at_end, item, malformed, reader_next}
use struple.Semantic.{sem_class_rank}
use struple.Semantic.Numbers.{
  flip_order, sem_num_class, sem_is_int, is_decimal, sem_float, sem_int_finite, sem_int_int,
  sem_dcmp,
}
use struple.Semantic.Base10.{sem_with_decimal}
use struple.Semantic.Order.{
  sem_numbers, same_class, sem_elements, next_round, sem_round, sem_loop, sem_order_impl,
  semantic_order, max_depth, bit_of,
}
use struple.Semantic.Flip.{
  flip_twice, order_of-flip, sem_icmp-flip, sem_cmp_lex-flip, sem_dcmp-flip, sem_int_int-flip,
  sem_with_decimal-flip,
}

by_classes :
    (m n : ℕ) (c d : Ordering)
    → (m ≡ n → d ≡ flip_order c)
    → (if not (n == m) then order_of n m else if not (n == 1) then Ordering.eq else d)
      ≡ flip_order (if not (m == n) then order_of m n else if not (m == 1) then Ordering.eq else c)
by_classes m n c d h = ground (arith, h)

finite :
    (da db ia ib : Bool) (w w' i i' x x' y y' : Ordering)
    → ((da || db) ≡ true → w' ≡ flip_order w)
    → (ia ≡ true → ib ≡ true → i' ≡ flip_order i)
    → x' ≡ flip_order x
    → (if db || da
        then w'
        else if ib && ia
        then i'
        else if not ib && not ia
        then x'
        else if ib
        then y'
        else flip_order y)
      ≡ flip_order (
          if da || db
          then w
          else if ia && ib
          then i
          else if not ia && not ib
          then x
          else if ia
          then y
          else flip_order y')
finite true true ia ib w w' i i' x x' y y' hw hi hx = hw refl
finite true false ia ib w w' i i' x x' y y' hw hi hx = hw refl
finite false true ia ib w w' i i' x x' y y' hw hi hx = hw refl
finite false false true true w w' i i' x x' y y' hw hi hx = hi refl refl
finite false false true false w w' i i' x x' y y' hw hi hx = refl
finite false false false true w w' i i' x x' y y' hw hi hx = sym (flip_twice y')
finite false false false false w w' i i' x x' y y' hw hi hx = hx

pub sem_numbers-flip : (a b : Element) → sem_numbers b a ≡ flip_order (sem_numbers a b)
unfolding sem_numbers
sem_numbers-flip a b = by_classes (sem_num_class a) (sem_num_class b) _ _ (λ same.
    finite (is_decimal a) (is_decimal b) (sem_is_int a) (sem_is_int b) (sem_with_decimal a b)
      (sem_with_decimal b a) (sem_int_int a b) (sem_int_int b a)
      (sem_dcmp (sem_float a) (sem_float b)) (sem_dcmp (sem_float b) (sem_float a))
      (sem_int_finite a (sem_float b)) (sem_int_finite b (sem_float a)) (sem_with_decimal-flip a b)
      (sem_int_int-flip a b) (sem_dcmp-flip (sem_float a) (sem_float b)))

-- The result with the arguments exchanged.
abbrev pub flipped : Option Ordering → Option Ordering
flipped none = none
flipped (some c) = some (flip_order c)

module _ (nested : List ℕ → List ℕ → Option Ordering)
    (turn : (x y : List ℕ) → nested y x ≡ flipped (nested x y)) where
  same_class-flip :
      (a b : Element)
      → sem_class_rank a ≡ sem_class_rank b
      → same_class nested b a ≡ flipped (same_class nested a b)
  unfolding same_class sem_class_rank
  same_class-flip nil nil h = refl
  same_class-flip undef undef h = refl
  same_class-flip (bool x) (bool y) h = ap some (order_of-flip (bit_of x) (bit_of y))
  same_class-flip (timestamp x) (timestamp y) h = ap some (sem_icmp-flip x y)
  same_class-flip (uuid x) (uuid y) h = ap some (sem_cmp_lex-flip (take 16 x) (take 16 y))
  same_class-flip (string x) (string y) h = ap some (sem_cmp_lex-flip x y)
  same_class-flip (bytes x) (bytes y) h = ap some (sem_cmp_lex-flip x y)
  same_class-flip (array x) (array y) h = turn x y
  same_class-flip (map x) (map y) h = turn x y
  same_class-flip (set x) (set y) h = turn x y
  same_class-flip a nil h = ground arith
  same_class-flip nil b h = ground arith
  same_class-flip a undef h = ground arith
  same_class-flip undef b h = ground arith
  same_class-flip a b h = ap some (sem_numbers-flip a b)

  pub sem_elements-flip :
      (a b : Element) → sem_elements nested b a ≡ flipped (sem_elements nested a b)
  unfolding sem_elements
  sem_elements-flip a b = elim (Bool-cases (sem_class_rank a == sem_class_rank b)) [
    | inl e ↦
        let same : sem_class_rank a ≡ sem_class_rank b = ground arith in
        let back : (sem_class_rank b == sem_class_rank a) ≡ true = ground arith in
        rw (e, back) (same_class-flip a b same)
    | inr e ↦
        let back : (sem_class_rank b == sem_class_rank a) ≡ false = ground arith in
        rw (e, back) (ap some (order_of-flip (sem_class_rank a) (sem_class_rank b)))
  ]

sem_round-flip :
    (elements : Element → Element → Option Ordering)
    → ((a b : Element) → elements b a ≡ flipped (elements a b))
    → (rest rest' : Option Ordering) → rest' ≡ flipped rest
    → (oa ob : Outcome Element)
    → sem_round elements rest' ob oa ≡ flipped (sem_round elements rest oa ob)
sem_round-flip elements turn rest rest' h malformed malformed = refl
sem_round-flip elements turn rest rest' h malformed at_end = refl
sem_round-flip elements turn rest rest' h malformed (item b) = refl
sem_round-flip elements turn rest rest' h at_end malformed = refl
sem_round-flip elements turn rest rest' h at_end at_end = refl
sem_round-flip elements turn rest rest' h at_end (item b) = refl
sem_round-flip elements turn rest rest' h (item a) malformed = refl
sem_round-flip elements turn rest rest' h (item a) at_end = refl
sem_round-flip elements turn rest rest' h (item a) (item b) = rw (turn a b) (onward (elements a b))
  where
    onward : (o : Option Ordering) → next_round (flipped o) rest' ≡ flipped (next_round o rest)
    onward none = refl
    onward (some Ordering.lt) = refl
    onward (some Ordering.eq) = h
    onward (some Ordering.gt) = refl

sem_loop-flip :
    (elements : Element → Element → Option Ordering)
    → ((a b : Element) → elements b a ≡ flipped (elements a b))
    → (f : ℕ) (ra rb : Reader) → sem_loop elements f rb ra ≡ flipped (sem_loop elements f ra rb)
unfolding sem_loop
sem_loop-flip elements turn zero ra rb = refl
sem_loop-flip elements turn (suc f) ra rb =
    sem_round-flip elements turn _ _
      (sem_loop-flip elements turn f (reader_next ra).1 (reader_next rb).1) (reader_next ra).0
      (reader_next rb).0

sem_order_impl-flip :
    (levels : ℕ) (a b : List ℕ) → sem_order_impl levels b a ≡ flipped (sem_order_impl levels a b)
unfolding sem_order_impl
sem_order_impl-flip zero a b = refl
sem_order_impl-flip (suc levels) a b =
    ap
      (λ (n : ℕ).
        sem_loop (sem_elements (sem_order_impl levels)) (suc n) (reader_init b) (reader_init a))
      (swapped (length b) (length a))
    ∙ sem_loop-flip (sem_elements (sem_order_impl levels))
        (sem_elements-flip (sem_order_impl levels) (sem_order_impl-flip levels))
        (suc (length a + length b)) (reader_init a) (reader_init b)
  where
    swapped : (m n : ℕ) → m + n ≡ n + m
    swapped m n = omega arith

-- For any two byte strings, well-formed or not, semantic_order with its arguments exchanged fails
-- exactly when it failed before, and otherwise gives the opposite result.
pub semantic_order-flip : (a b : List ℕ) → semantic_order b a ≡ flipped (semantic_order a b)
unfolding semantic_order
semantic_order-flip a b = sem_order_impl-flip (max_depth + 1) a b

-- Where semantic_order compares a byte string with itself and succeeds, the result is equality, for
-- NaN too.
pub semantic_order_self :
    (a : List ℕ) (c : Ordering) → semantic_order a a ≡ some c → c ≡ Ordering.eq
semantic_order_self a c h = alone c (sym h ∙ semantic_order-flip a a ∙ ap flipped h)
  where
    alone : (c : Ordering) → some c ≡ some (flip_order c) → c ≡ Ordering.eq
    alone Ordering.lt k = cc k
    alone Ordering.eq k = refl
    alone Ordering.gt k = cc k
