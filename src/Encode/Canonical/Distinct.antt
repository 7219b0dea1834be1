-- ===== src/Encode/Canonical/Distinct.antt =====
-- The elements that are left where equal neighbours are skipped, as `struple_append_set` does.
use struple.Prelude.{ℕ, ◌≡◌, ◌≢◌, refl, sym, ◌∙◌, List, [], ◌∷◌, All, Ordering, ◌⊎◌, inl, inr}
use mathlib.Core.List.{Memᴰ}
use struple.Compare.{compare_bytes, cmp_bytes}
use struple.Compare.Order.{compare_bytes-eq, compare_bytes-flip}
use struple.Encode.Sorting.{IsOrdered, cmp_bytes-IsConsistent}
use struple.Encode.Sorting.Strict.{IsStrict, Within, apart}

-- The list without the elements that are equal to the one before them
abbrev pub kept : Ordering → List ℕ → List (List ℕ) → List (List ℕ)
kept Ordering.eq e rest = rest
kept Ordering.lt e rest = e ∷ rest
kept Ordering.gt e rest = e ∷ rest

abbrev pub distinct_from : List ℕ → List (List ℕ) → List (List ℕ)
distinct_from last [] = []
distinct_from last (e ∷ es) = kept (cmp_bytes last e) e (distinct_from e es)

abbrev pub distinct : List (List ℕ) → List (List ℕ)
distinct [] = []
distinct (e ∷ es) = e ∷ distinct_from e es

abbrev pub Below : List ℕ → List ℕ → Type 0
Below a b = compare_bytes a b ≡ Ordering.lt

-- One element is below what is behind the next.
Below-trans : (a b d : List ℕ) → cmp_bytes a b ≢ Ordering.gt → Below b d → Below a d
unfolding cmp_bytes compare_bytes
Below-trans a b d h k =
    apart a d (cmp_bytes-IsConsistent.trans a b d h (λ e. cc (k, e)))
      (λ same. h (rw same (compare_bytes-flip b d k)))

All-Below :
    (a b : List ℕ) (es : List (List ℕ))
    → cmp_bytes a b ≢ Ordering.gt
    → All (Below b) es
    → All (Below a) es
All-Below a b [] h k = tt
All-Below a b (e ∷ es) h (k, ks) = (Below-trans a b e h k, All-Below a b es h ks)

distinct_from-IsStrict :
    (last : List ℕ) (es : List (List ℕ))
    → IsOrdered cmp_bytes (last ∷ es)
    → All (Below last) (distinct_from last es) × IsStrict Below (distinct_from last es)
distinct_from-IsStrict last [] h = (tt, tt)
distinct_from-IsStrict last (e ∷ es) ((first, above), h) =
    let (behind, strict) = distinct_from-IsStrict e es h in
    go (cmp_bytes last e) refl (All-Below last e (distinct_from e es) first behind) behind strict
  where
    go :
        (o : Ordering)
        → cmp_bytes last e ≡ o
        → All (Below last) (distinct_from e es)
        → All (Below e) (distinct_from e es)
        → IsStrict Below (distinct_from e es)
        → All (Below last) (kept o e (distinct_from e es))
          × IsStrict Below (kept o e (distinct_from e es))
    go Ordering.eq c lower behind strict = (lower, strict)
    go Ordering.lt c lower behind strict =
        ((unfold cmp_bytes compare_bytes in c, lower), (behind, strict))
    go Ordering.gt c lower behind strict = absurd (first c)

pub distinct-IsStrict : (es : List (List ℕ)) → IsOrdered cmp_bytes es → IsStrict Below (distinct es)
distinct-IsStrict [] h = tt
distinct-IsStrict (e ∷ es) h = distinct_from-IsStrict e es h

-- A member that is `e` or behind it is there still when `e` is skipped or kept.
after_skip :
    (last e : List ℕ) (es : List (List ℕ)) (z : List ℕ)
    → (z ≡ e) ⊎ Memᴰ z es
    → (z ≡ last) ⊎ Memᴰ z (kept (cmp_bytes last e) e es)
after_skip last e es z m = go (cmp_bytes last e) refl m
  where
    go :
        (o : Ordering)
        → cmp_bytes last e ≡ o
        → (z ≡ e) ⊎ Memᴰ z es
        → (z ≡ last) ⊎ Memᴰ z (kept o e es)
    go Ordering.eq c (inl same) =
        inl (same ∙ sym (compare_bytes-eq last e (unfold cmp_bytes compare_bytes in c)))
    go Ordering.eq c (inr n) = inr n
    go Ordering.lt c (inl same) = inr (Memᴰ.head same)
    go Ordering.lt c (inr n) = inr (Memᴰ.tail n)
    go Ordering.gt c (inl same) = inr (Memᴰ.head same)
    go Ordering.gt c (inr n) = inr (Memᴰ.tail n)

-- Skipping loses no member,
Memᴰ-distinct_from :
    (last : List ℕ) (es : List (List ℕ)) (z : List ℕ)
    → Memᴰ z es
    → (z ≡ last) ⊎ Memᴰ z (distinct_from last es)
Memᴰ-distinct_from last [] z m = elim m [ ]
Memᴰ-distinct_from last (e ∷ es) z (Memᴰ.head same) =
    after_skip last e (distinct_from e es) z (inl same)
Memᴰ-distinct_from last (e ∷ es) z (Memᴰ.tail n) =
    after_skip last e (distinct_from e es) z (Memᴰ-distinct_from e es z n)

-- and adds none.
distinct_from-Memᴰ :
    (last : List ℕ) (es : List (List ℕ)) (z : List ℕ) → Memᴰ z (distinct_from last es) → Memᴰ z es
distinct_from-Memᴰ last [] z m = m
distinct_from-Memᴰ last (e ∷ es) z m = go (cmp_bytes last e) m (distinct_from-Memᴰ e es z)
  where
    go :
        (o : Ordering)
        → Memᴰ z (kept o e (distinct_from e es))
        → (Memᴰ z (distinct_from e es) → Memᴰ z es)
        → Memᴰ z (e ∷ es)
    go Ordering.eq n back = Memᴰ.tail (back n)
    go Ordering.lt (Memᴰ.head same) back = Memᴰ.head same
    go Ordering.lt (Memᴰ.tail n) back = Memᴰ.tail (back n)
    go Ordering.gt (Memᴰ.head same) back = Memᴰ.head same
    go Ordering.gt (Memᴰ.tail n) back = Memᴰ.tail (back n)

pub distinct-Within : (es : List (List ℕ)) → Within (distinct es) es
distinct-Within [] z m = m
distinct-Within (e ∷ es) z (Memᴰ.head same) = Memᴰ.head same
distinct-Within (e ∷ es) z (Memᴰ.tail n) = Memᴰ.tail (distinct_from-Memᴰ e es z n)

pub Within-distinct : (es : List (List ℕ)) → Within es (distinct es)
Within-distinct [] z m = m
Within-distinct (e ∷ es) z (Memᴰ.head same) = Memᴰ.head same
Within-distinct (e ∷ es) z (Memᴰ.tail n) = elim (Memᴰ-distinct_from e es z n) [
  | inl same ↦ Memᴰ.head same
  | inr k ↦ Memᴰ.tail k
]
