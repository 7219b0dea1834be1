-- ===== src/Encode/Sorting.antt =====
-- What c/struple.c relies on of qsort, and the comparisons that it passes.
pub mod Rearranged
pub mod Strict
use struple.Prelude.{
  ℕ, ◌≡◌, ◌≢◌, refl, sym, ap, ◌∙◌, arith, List, [], ◌∷◌, All, Ordering, ltb, lt→ltb, le→ltb-false,
  three_ways, inl, inr, ◌⊎◌, ◌<◌,
}
use mathlib.Core.List.{Permᴰ}
use struple.Compare.{compare_bytes, cmp_bytes}
use struple.Compare.Order.{lexicographic, compare_bytes-lexicographic, compare_bytes-flip}
use struple.Encode.Containers.{Entry, kv_cmp}

-- What the C standard asks of a comparison
pub record IsConsistent {A : Type 0} (c : A → A → Ordering) : Type 0 where
  pub flips : (a b : A) → c a b ≡ Ordering.gt → c b a ≢ Ordering.gt
  pub trans : (a b d : A) → c a b ≢ Ordering.gt → c b d ≢ Ordering.gt → c a d ≢ Ordering.gt

-- No element is above a later one.
abbrev pub IsOrdered : {A : Type 0} → (A → A → Ordering) → List A → Type 0
IsOrdered c [] = Unit
IsOrdered c (x ∷ xs) = All (λ y. c x y ≢ Ordering.gt) xs × IsOrdered c xs

-- The contract of qsort: a rearrangement, in the order of the comparison.
pub record Sorts {A : Type 0} (qsort : (A → A → Ordering) → List A → List A) : Type 0 where
  pub permutes : (c : A → A → Ordering) (xs : List A) → Permᴰ xs (qsort c xs)
  pub orders : (c : A → A → Ordering) → IsConsistent c → (xs : List A) → IsOrdered c (qsort c xs)

-- What the first bytes say where the one is not above the other.
not_above :
    (x y : ℕ) (a b : List ℕ)
    → lexicographic (x ∷ a) (y ∷ b) ≢ Ordering.gt
    → (x < y) ⊎ ((x ≡ y) × (lexicographic a b ≢ Ordering.gt))
unfolding lexicographic
not_above x y a b h = elim (three_ways x y) [
  | inl less ↦ inl less
  | inr (inl e) ↦ inr (e, rw (e, le→ltb-false y y (omega arith)) at h)
  | inr (inr more) ↦ absurd (rw (le→ltb-false x y (omega arith), lt→ltb y x more) at h refl)
]

heads_less : (x y : ℕ) (a b : List ℕ) → x < y → lexicographic (x ∷ a) (y ∷ b) ≢ Ordering.gt
unfolding lexicographic
heads_less x y a b less = rw (lt→ltb x y less) (λ e. cc e)

lexicographic_trans :
    (a b d : List ℕ)
    → lexicographic a b ≢ Ordering.gt
    → lexicographic b d ≢ Ordering.gt
    → lexicographic a d ≢ Ordering.gt
unfolding lexicographic
lexicographic_trans [] b [] h k = λ e. cc e
lexicographic_trans [] b (z ∷ d) h k = λ e. cc e
lexicographic_trans (x ∷ a) [] d h k = absurd (h refl)
lexicographic_trans (x ∷ a) (y ∷ b) [] h k = absurd (k refl)
lexicographic_trans (x ∷ a) (y ∷ b) (z ∷ d) h k = elim (not_above x y a b h) [
  | inl less ↦ elim (not_above y z b d k) [
    | inl lower ↦ heads_less x z a d (omega arith)
    | inr (same, rest) ↦ heads_less x z a d (omega arith)
  ]
  | inr (same, rest) ↦ elim (not_above y z b d k) [
    | inl lower ↦ heads_less x z a d (omega arith)
    | inr (same', rest') ↦
        rw (same, same', le→ltb-false z z (omega arith)) (lexicographic_trans a b d rest rest')
  ]
]

lexicographic-flips :
    (a b : List ℕ) → lexicographic a b ≡ Ordering.gt → lexicographic b a ≢ Ordering.gt
unfolding lexicographic
lexicographic-flips [] [] h = cc h
lexicographic-flips [] (y ∷ b) h = cc h
lexicographic-flips (x ∷ a) [] h = λ e. cc e
lexicographic-flips (x ∷ a) (y ∷ b) h = elim (three_ways x y) [
  | inl less ↦ cc (rw (lt→ltb x y less) at h)
  | inr (inl e) ↦
      let rest = rw (e, le→ltb-false y y (omega arith)) at h in
      rw (e, le→ltb-false y y (omega arith)) (lexicographic-flips a b rest)
  | inr (inr more) ↦ heads_less y x b a more
]

cmp_bytes-lexicographic : (a b : List ℕ) → cmp_bytes a b ≡ lexicographic a b
unfolding cmp_bytes compare_bytes
cmp_bytes-lexicographic a b = compare_bytes-lexicographic a b

-- t
pub cmp_bytes-IsConsistent : IsConsistent cmp_bytes
cmp_bytes-IsConsistent = record {
  flips = λ a b h.
      rw (cmp_bytes-lexicographic b a)
        (lexicographic-flips a b (rw (cmp_bytes-lexicographic a b) at h));
  trans = λ a b d h k. rw (cmp_bytes-lexicographic a d) (
      lexicographic_trans a b d (rw (cmp_bytes-lexicographic a b) at h)
        (rw (cmp_bytes-lexicographic b d) at k));
}

pub kv_cmp-IsConsistent : IsConsistent kv_cmp
unfolding kv_cmp
kv_cmp-IsConsistent = record {
  flips = λ x y. cmp_bytes-IsConsistent.flips x.key y.key;
  trans = λ x y z. cmp_bytes-IsConsistent.trans x.key y.key z.key;
}
