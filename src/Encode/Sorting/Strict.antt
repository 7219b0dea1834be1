-- ===== src/Encode/Sorting/Strict.antt =====
-- Lists in strictly ascending order: they are determined by their members.
use struple.Prelude.{ℕ, zero, suc, ◌≡◌, ◌≢◌, refl, sym, ◌∙◌, arith, List, [], ◌∷◌, All, Ordering}
use mathlib.Core.Path.{subst}
use mathlib.Core.List.{Memᴰ}
use struple.Compare.{compare_bytes, cmp_bytes}
use struple.Compare.Order.{compare_bytes-eq, compare_bytes-flip}
use struple.Encode.Containers.{Entry, kv_cmp}
use struple.Encode.Sorting.{IsOrdered}
use struple.Encode.Sorting.Rearranged.{All-Memᴰ, All-at, HasDistinctKeys}
use struple.IndexedMap.Found.{IsAscending}

-- Each element is below all later ones.
abbrev pub IsStrict {ℓ κ} : {A : Type ℓ} → (A → A → Type κ) → List A → Type κ
IsStrict R [] = Unit
IsStrict R (x ∷ xs) = All (R x) xs × IsStrict R xs

-- All members of the one are members of the other.
abbrev pub Within {ℓ} : {A : Type ℓ} → List A → List A → Type ℓ
Within {A} xs ys = (z : A) → Memᴰ z xs → Memᴰ z ys

module _ {ℓ κ} {A : Type ℓ} (R : A → A → Type κ) (asym : (x y : A) → R x y → R y x → ⊥) where
  same_head :
      (x y : A) (xs ys : List A)
      → All (R x) xs
      → All (R y) ys
      → Memᴰ x (y ∷ ys)
      → Memᴰ y (x ∷ xs)
      → x ≡ y
  same_head x y xs ys h k (Memᴰ.head e) m = e
  same_head x y xs ys h k (Memᴰ.tail n) (Memᴰ.head e) = sym e
  same_head x y xs ys h k (Memᴰ.tail n) (Memᴰ.tail m) =
      absurd (asym x y (All-Memᴰ (R x) xs h m) (All-Memᴰ (R y) ys k n))

  behind_head :
      (x y z : A) (xs ys : List A) → x ≡ y → All (R x) xs → Memᴰ z xs → Memᴰ z (y ∷ ys) → Memᴰ z ys
  behind_head x y z xs ys same h m (Memᴰ.tail n) = n
  behind_head x y z xs ys same h m (Memᴰ.head e) =
      let self : R x x = subst (R x) (e ∙ sym same) (All-Memᴰ (R x) xs h m) in
      absurd (asym x x self self)

  pub IsStrict-unique :
      (xs ys : List A) → IsStrict R xs → IsStrict R ys → Within xs ys → Within ys xs → xs ≡ ys
  IsStrict-unique [] [] h k there back = refl
  IsStrict-unique [] (y ∷ ys) h k there back = elim (back y (Memᴰ.head refl)) [ ]
  IsStrict-unique (x ∷ xs) [] h k there back = elim (there x (Memᴰ.head refl)) [ ]
  IsStrict-unique (x ∷ xs) (y ∷ ys) (h, hs) (k, ks) there back =
      let same = same_head x y xs ys h k (there x (Memᴰ.head refl)) (back y (Memᴰ.head refl)) in
      let rest =
        IsStrict-unique xs ys hs ks
          (λ z m. behind_head x y z xs ys same h m (there z (Memᴰ.tail m)))
          (λ z m. behind_head y x z ys xs (sym same) k m (back z (Memᴰ.tail m))) in
      rw (same, rest) refl

abbrev pub KeyBelow : Entry → Entry → Type 0
KeyBelow x y = compare_bytes x.key y.key ≡ Ordering.lt

pub compare_bytes_asym :
    (a b : List ℕ) → compare_bytes a b ≡ Ordering.lt → compare_bytes b a ≡ Ordering.lt → ⊥
compare_bytes_asym a b h k = cc (compare_bytes-flip a b h, k)

pub apart :
    (a b : List ℕ) → compare_bytes a b ≢ Ordering.gt → a ≢ b → compare_bytes a b ≡ Ordering.lt
apart a b h k = go (compare_bytes a b) refl
  where
    go : (o : Ordering) → compare_bytes a b ≡ o → compare_bytes a b ≡ Ordering.lt
    go Ordering.lt e = e
    go Ordering.eq e = absurd (k (compare_bytes-eq a b e))
    go Ordering.gt e = absurd (h e)

pub IsOrdered-IsStrict :
    (m : List Entry) → IsOrdered kv_cmp m → HasDistinctKeys m → IsStrict KeyBelow m
unfolding kv_cmp cmp_bytes compare_bytes
IsOrdered-IsStrict [] h k = tt
IsOrdered-IsStrict (x ∷ m) (above, h) (new, k) = (below m above new, IsOrdered-IsStrict m h k)
  where
    below :
        (es : List Entry)
        → All (λ y. kv_cmp x y ≢ Ordering.gt) es
        → All (λ y. x.key ≢ y.key) es
        → All (KeyBelow x) es
    below [] a n = tt
    below (y ∷ es) (a, rest) (n, news) = (apart x.key y.key a n, below es rest news)

pub IsStrict-IsAscending : (m : List Entry) → IsStrict KeyBelow m → IsAscending m
IsStrict-IsAscending [] h i j a b less at at' = cc at
IsStrict-IsAscending (x ∷ m) h i zero a b less at at' = absurd (omega arith)
IsStrict-IsAscending (x ∷ m) (above, h) zero (suc j) a b less at at' =
    let first : x ≡ a = cc at in rw first at (All-at (KeyBelow x) m j b above at')
IsStrict-IsAscending (x ∷ m) (above, h) (suc i) (suc j) a b less at at' =
    IsStrict-IsAscending m h i j a b (omega arith) at at'
