-- ===== src/Encode/Sorting/Rearranged.antt =====
-- Rearrangements of a list: what holds of all its elements, and which they are.
use struple.Prelude.{
  ℕ, zero, suc, ◌≡◌, ◌≢◌, refl, sym, ap, ◌∙◌, List, [], ◌∷◌, All, get_elem?, some,
}
use mathlib.Core.Path.{subst}
use mathlib.Core.List.{Memᴰ, Permᴰ}
use struple.Encode.Containers.{Entry}

pub permuted {ℓ κ} :
    {A : Type ℓ} (P : A → Type κ) {xs ys : List A} → Permᴰ xs ys → All P xs → All P ys
permuted P Permᴰ.nil h = h
permuted P (Permᴰ.cons e d) (p, h) = (subst P e p, permuted P d h)
permuted P (Permᴰ.swap e f) (p, (q, h)) = (subst P f q, (subst P e p, h))
permuted P (Permᴰ.trans d d') h = permuted P d' (permuted P d h)

-- The keys are all different.
abbrev pub HasDistinctKeys : List Entry → Type 0
HasDistinctKeys [] = Unit
HasDistinctKeys (e ∷ es) = All (λ x. e.key ≢ x.key) es × HasDistinctKeys es

pub All-at {ℓ κ} :
    {A : Type ℓ} (P : A → Type κ) (xs : List A) (i : ℕ) (x : A)
    → All P xs
    → get_elem? xs i ≡ some x
    → P x
All-at P [] i x h at = cc at
All-at P (y ∷ xs) zero x (p, h) at = let same : y ≡ x = cc at in subst P same p
All-at P (y ∷ xs) (suc i) x (p, h) at = All-at P xs i x h at

pub All-by_index {ℓ κ} :
    {A : Type ℓ} (P : A → Type κ) (xs : List A)
    → ((i : ℕ) (x : A) → get_elem? xs i ≡ some x → P x)
    → All P xs
All-by_index P [] h = tt
All-by_index P (x ∷ xs) h = (h 0 x refl, All-by_index P xs (λ i. h (suc i)))

pub permuted-HasDistinctKeys :
    {xs ys : List Entry} → Permᴰ xs ys → HasDistinctKeys xs → HasDistinctKeys ys
permuted-HasDistinctKeys Permᴰ.nil h = h
permuted-HasDistinctKeys (Permᴰ.cons {b = b} e d) (new, h) =
    (permuted (λ x. b.key ≢ x.key) d (rw e at new), permuted-HasDistinctKeys d h)
permuted-HasDistinctKeys (Permᴰ.swap {l = l} e f) ((other, new), (new', h)) = (
  (
    λ same. other (ap (λ (x : Entry). x.key) e ∙ sym same ∙ sym (ap (λ (x : Entry). x.key) f)),
    subst (λ (y : Entry). All (λ x. y.key ≢ x.key) l) f new',
  ),
  (subst (λ (y : Entry). All (λ x. y.key ≢ x.key) l) e new, h),
)
permuted-HasDistinctKeys (Permᴰ.trans d d') h =
    permuted-HasDistinctKeys d' (permuted-HasDistinctKeys d h)

pub permuted-Memᴰ {ℓ} : {A : Type ℓ} {z : A} {xs ys : List A} → Permᴰ xs ys → Memᴰ z xs → Memᴰ z ys
permuted-Memᴰ Permᴰ.nil m = elim m [ ]
permuted-Memᴰ (Permᴰ.cons e d) (Memᴰ.head h) = Memᴰ.head (h ∙ e)
permuted-Memᴰ (Permᴰ.cons e d) (Memᴰ.tail m) = Memᴰ.tail (permuted-Memᴰ d m)
permuted-Memᴰ (Permᴰ.swap e f) (Memᴰ.head h) = Memᴰ.tail (Memᴰ.head (h ∙ e))
permuted-Memᴰ (Permᴰ.swap e f) (Memᴰ.tail (Memᴰ.head h)) = Memᴰ.head (h ∙ f)
permuted-Memᴰ (Permᴰ.swap e f) (Memᴰ.tail (Memᴰ.tail m)) = Memᴰ.tail (Memᴰ.tail m)
permuted-Memᴰ (Permᴰ.trans d d') m = permuted-Memᴰ d' (permuted-Memᴰ d m)

pub All-Memᴰ {ℓ κ} :
    {A : Type ℓ} (P : A → Type κ) {z : A} (xs : List A) → All P xs → Memᴰ z xs → P z
All-Memᴰ P [] h m = elim m [ ]
All-Memᴰ P (x ∷ xs) (p, h) (Memᴰ.head e) = subst P (sym e) p
All-Memᴰ P (x ∷ xs) (p, h) (Memᴰ.tail m) = All-Memᴰ P xs h m
