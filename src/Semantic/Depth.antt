-- ===== src/Semantic/Depth.antt =====
-- The bound on nesting in `struple_semantic_order`.
use struple.Prelude.{
  ℕ, zero, suc, ◌+◌, ◌≡◌, refl, ap, ◌∙◌, arith, List, [], append-nil, length, Ordering, Option,
  none, some, ltb, if◌then◌else◌,
}
use struple.Reader.{Element, array, Reader, reader_at, reader_init}
use struple.Reader.Next.{Outcome, item, reader_next}
use struple.Semantic.Order.{
  sem_elements, sem_round, next_round, sem_loop, sem_order_impl, semantic_order, max_depth,
}
use struple.Semantic.Rounds.{sem_order_impl-sem_loop}
use struple.RoundTrip.Elements.{encoding, append_element-reader_next}

-- An array in an array, `k` times over, around nothing.
unfoldable pub nested_arrays : ℕ → List ℕ
nested_arrays zero = []
nested_arrays (suc k) = encoding (array (nested_arrays k))

-- The reader presents the one array and is then at the end.
presented :
    (c : List ℕ)
    → reader_next (reader_at 0 (encoding (array c)))
      ≡ (item (array c), reader_at (0 + length (encoding (array c))) [])
presented c = rw append-nil at (append_element-reader_next (array c) tt 0 [] tt)

module _ (nested : List ℕ → List ℕ → Option Ordering) (f : ℕ) (c : List ℕ) where
  first_round :
      (r r' : Reader)
      → reader_next r ≡ (item (array c), r')
      → sem_loop (sem_elements nested) (suc f) r r
        ≡ next_round (nested c c) (sem_loop (sem_elements nested) f r' r')
  unfolding sem_loop sem_elements
  first_round r r' h =
      ap
        (λ (q : Outcome Element × Reader).
          sem_round (sem_elements nested) (sem_loop (sem_elements nested) f q.1 q.1) q.0 q.0)
        h

  last_round :
      (at : ℕ)
      → sem_loop (sem_elements nested) (suc f) (reader_at at []) (reader_at at [])
        ≡ some Ordering.eq
  unfolding sem_loop reader_next
  last_round at = refl

one_array :
    (nested : List ℕ → List ℕ → Option Ordering) (f : ℕ) (c : List ℕ)
    → sem_loop
        (sem_elements nested)
        (suc (suc f))
        (reader_at 0 (encoding (array c)))
        (reader_at 0 (encoding (array c)))
      ≡ next_round (nested c c) (some Ordering.eq)
one_array nested f c =
    let n = 0 + length (encoding (array c)) in
    first_round nested (suc f) c (reader_at 0 (encoding (array c))) (reader_at n []) (presented c)
    ∙ ap (next_round (nested c c)) (last_round nested f c n)

sem_order_impl-nested_arrays :
    (levels k : ℕ)
    → sem_order_impl levels (nested_arrays k) (nested_arrays k)
      ≡ (if ltb k levels then some Ordering.eq else none)
unfolding nested_arrays reader_init
sem_order_impl-nested_arrays zero k = unfold sem_order_impl in ground arith
sem_order_impl-nested_arrays (suc levels) zero =
    sem_order_impl-sem_loop levels [] [] 1 (omega arith)
    ∙ last_round (sem_order_impl levels) 0 [] 0
    ∙ ground arith
sem_order_impl-nested_arrays (suc levels) (suc k) =
    let c = nested_arrays k in
    sem_order_impl-sem_loop levels (encoding (array c)) (encoding (array c))
      (suc (suc (length (encoding (array c))))) (omega arith)
    ∙ one_array (sem_order_impl levels) (length (encoding (array c))) c
    ∙ ap (λ (o : Option Ordering). next_round o (some Ordering.eq))
        (sem_order_impl-nested_arrays levels k)
    ∙ ground arith

-- Empty bytes wrapped in an array k times over compare as equal with themselves where k is at most
-- 256, and semantic_order fails where k is greater.
pub semantic_order-nested_arrays :
    (k : ℕ)
    → semantic_order (nested_arrays k) (nested_arrays k)
      ≡ (if ltb max_depth k then none else some Ordering.eq)
unfolding semantic_order
semantic_order-nested_arrays k = sem_order_impl-nested_arrays (max_depth + 1) k ∙ ground arith
