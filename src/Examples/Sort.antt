-- ===== src/Examples/Sort.antt =====
-- Insertion sort, which keeps the contract of qsort.
use struple.Prelude.{◌≡◌, ◌≢◌, refl, List, [], ◌∷◌, All, Ordering}
use mathlib.Core.List.{Permᴰ}
use struple.Encode.Sorting.{IsConsistent, IsOrdered, Sorts}
use struple.Encode.Sorting.Rearranged.{permuted}

module _ {A : Type 0} where
  abbrev place : A → A → Ordering → List A → List A → List A
  place x y Ordering.gt ys inserted = y ∷ inserted
  place x y Ordering.lt ys inserted = x ∷ y ∷ ys
  place x y Ordering.eq ys inserted = x ∷ y ∷ ys

  unfoldable insert : (A → A → Ordering) → A → List A → List A
  insert c x [] = x ∷ []
  insert c x (y ∷ ys) = place x y (c x y) ys (insert c x ys)

  unfoldable pub insertion_sort : (A → A → Ordering) → List A → List A
  unfolding insert
  insertion_sort c [] = []
  insertion_sort c (x ∷ xs) = insert c x (insertion_sort c xs)

  insert-Permᴰ : (c : A → A → Ordering) (x : A) (ys : List A) → Permᴰ (x ∷ ys) (insert c x ys)
  unfolding insert
  insert-Permᴰ c x [] = Permᴰ.cons refl Permᴰ.nil
  insert-Permᴰ c x (y ∷ ys) = go (c x y) (insert-Permᴰ c x ys)
    where
      same : (zs : List A) → Permᴰ zs zs
      same [] = Permᴰ.nil
      same (z ∷ zs) = Permᴰ.cons refl (same zs)

      go :
          (o : Ordering)
          → Permᴰ (x ∷ ys) (insert c x ys)
          → Permᴰ (x ∷ y ∷ ys) (place x y o ys (insert c x ys))
      go Ordering.gt d = Permᴰ.trans (Permᴰ.swap refl refl) (Permᴰ.cons refl d)
      go Ordering.lt d = same (x ∷ y ∷ ys)
      go Ordering.eq d = same (x ∷ y ∷ ys)

  insertion_sort-Permᴰ : (c : A → A → Ordering) (xs : List A) → Permᴰ xs (insertion_sort c xs)
  unfolding insertion_sort
  insertion_sort-Permᴰ c [] = Permᴰ.nil
  insertion_sort-Permᴰ c (x ∷ xs) =
      Permᴰ.trans (Permᴰ.cons refl (insertion_sort-Permᴰ c xs))
        (insert-Permᴰ c x (insertion_sort c xs))

  module _ (c : A → A → Ordering) (consistent : IsConsistent c) where
    not_above_rest :
        (x y : A) (ys : List A)
        → c x y ≢ Ordering.gt
        → All (λ z. c y z ≢ Ordering.gt) ys
        → All (λ z. c x z ≢ Ordering.gt) ys
    not_above_rest x y [] h k = tt
    not_above_rest x y (z ∷ zs) h (k, ks) = (consistent.trans x y z h k, not_above_rest x y zs h ks)

    insert-IsOrdered : (x : A) (ys : List A) → IsOrdered c ys → IsOrdered c (insert c x ys)
    unfolding insert
    insert-IsOrdered x [] h = (tt, tt)
    insert-IsOrdered x (y ∷ ys) (above, h) = go (c x y) refl (insert-IsOrdered x ys h)
      where
        go :
            (o : Ordering)
            → c x y ≡ o
            → IsOrdered c (insert c x ys)
            → IsOrdered c (place x y o ys (insert c x ys))
        go Ordering.gt e inserted = (
          permuted (λ z. c y z ≢ Ordering.gt) (insert-Permᴰ c x ys) (consistent.flips x y e, above),
          inserted,
        )
        go Ordering.lt e inserted =
            let first : c x y ≢ Ordering.gt = λ f. cc (e, f) in
            ((first, not_above_rest x y ys first above), (above, h))
        go Ordering.eq e inserted =
            let first : c x y ≢ Ordering.gt = λ f. cc (e, f) in
            ((first, not_above_rest x y ys first above), (above, h))

    insertion_sort-IsOrdered : (xs : List A) → IsOrdered c (insertion_sort c xs)
    unfolding insertion_sort
    insertion_sort-IsOrdered [] = tt
    insertion_sort-IsOrdered (x ∷ xs) =
        insert-IsOrdered x (insertion_sort c xs) (insertion_sort-IsOrdered xs)

  pub insertion_sort-Sorts : Sorts insertion_sort
  insertion_sort-Sorts = record {
    permutes = insertion_sort-Permᴰ;
    orders = λ c consistent xs. insertion_sort-IsOrdered c consistent xs;
  }
