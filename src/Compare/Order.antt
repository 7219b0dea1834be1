-- ===== src/Compare/Order.antt =====
-- Byte order as an order of lists, and as the order of the numbers that bytes of one length stand for.
use struple.Prelude.{
  ℕ, suc, ◌+◌, ◌*◌, ◌<◌, ◌≡◌, refl, sym, ap, ◌∙◌, arith, List, [], ◌∷◌, length, Ordering, min, ltb,
  if◌then◌else◌, inl, inr, three_ways, lt→ltb, le→ltb-false,
}
use struple.Bytes.{IsBytes}
use struple.Bytes.BigEndian.{be_value, be_value-cons, be_value-lt, power, mul-le, be_from}
use struple.Compare.{memcmp, order_of, or_length, compare_bytes}

pub order_of-lt : (m n : ℕ) → m < n → order_of m n ≡ Ordering.lt
order_of-lt m n h = rw (lt→ltb m n h) refl

pub order_of-gt : (m n : ℕ) → n < m → order_of m n ≡ Ordering.gt
order_of-gt m n h = rw (le→ltb-false m n (omega arith), lt→ltb n m h) refl

pub order_of-eq : (m : ℕ) → order_of m m ≡ Ordering.eq
order_of-eq m = rw (le→ltb-false m m (omega arith)) refl

pub order_of-add : (k m n : ℕ) → order_of (k + m) (k + n) ≡ order_of m n
order_of-add k m n = ground arith

same_head :
    (x : ℕ) (a b : List ℕ)
    → length a ≡ length b
    → order_of (be_value (x ∷ a)) (be_value (x ∷ b)) ≡ order_of (be_value a) (be_value b)
same_head x a b l =
    rw (be_value-cons x a, be_value-cons x b, l)
      (order_of-add (x * power (length b)) (be_value a) (be_value b))

-- The number of a list with a greater head is greater.
head_decides :
    (x y : ℕ) (a b : List ℕ)
    → IsBytes (x ∷ a)
    → length a ≡ length b
    → x < y
    → be_value (x ∷ a) < be_value (y ∷ b)
head_decides x y a b (hx, h) l s = omega (
  arith,
  be_value-cons x a,
  be_value-cons y b,
  be_value-lt a h,
  ap power l,
  mul-le (suc x) (power (length b)) y s,
  ap (λ (p : ℕ). x * p) (ap power l),
)

pub memcmp-be_value :
    (a b : List ℕ)
    → IsBytes a
    → IsBytes b
    → length a ≡ length b
    → memcmp (length a) a b ≡ order_of (be_value a) (be_value b)
unfolding memcmp be_from
memcmp-be_value [] [] ha hb l = sym (order_of-eq 0)
memcmp-be_value [] (y ∷ b) ha hb l = absurd (omega arith)
memcmp-be_value (x ∷ a) [] ha hb l = absurd (omega arith)
memcmp-be_value (x ∷ a) (y ∷ b) (hx, ha) (hy, hb) l =
    let same : length a ≡ length b = omega arith in
    elim (three_ways x y) [
      | inl less ↦
          rw (lt→ltb x y less) (sym (order_of-lt _ _ (head_decides x y a b (hx, ha) same less)))
      | inr (inl e) ↦
          rw (e, le→ltb-false y y (omega arith))
            (memcmp-be_value a b ha hb same ∙ sym (same_head y a b same))
      | inr (inr more) ↦
          rw (le→ltb-false x y (omega arith), lt→ltb y x more)
            (sym (order_of-gt _ _ (head_decides y x b a (hy, hb) (sym same) more)))
    ]

-- On two byte lists of one length, compare_bytes is the order of the big-endian numbers.
pub compare_bytes-be_value :
    (a b : List ℕ)
    → IsBytes a
    → IsBytes b
    → length a ≡ length b
    → compare_bytes a b ≡ order_of (be_value a) (be_value b)
unfolding compare_bytes
compare_bytes-be_value a b ha hb l =
    let shorter : min (length a) (length b) ≡ length a = omega arith in
    rw (shorter, memcmp-be_value a b ha hb l, l)
      (settled (order_of (be_value a) (be_value b)) (length b))
  where
    settled : (o : Ordering) (n : ℕ) → or_length o n n ≡ o
    settled Ordering.lt n = refl
    settled Ordering.eq n = order_of-eq n
    settled Ordering.gt n = refl

pub compare_bytes-cons : (x : ℕ) (a b : List ℕ) → compare_bytes (x ∷ a) (x ∷ b) ≡ compare_bytes a b
unfolding compare_bytes memcmp
compare_bytes-cons x a b =
    let shorter : min (suc (length a)) (suc (length b)) ≡ suc (min (length a) (length b)) =
      omega arith in
    rw (shorter, le→ltb-false x x (omega arith)) (lengths (memcmp (min (length a) (length b)) a b))
  where
    lengths :
        (o : Ordering)
        → or_length o (suc (length a)) (suc (length b)) ≡ or_length o (length a) (length b)
    lengths Ordering.lt = refl
    lengths Ordering.eq = ground arith
    lengths Ordering.gt = refl

-- The order of the first bytes that differ, and a proper prefix below what it begins.
unfoldable pub lexicographic : List ℕ → List ℕ → Ordering
lexicographic [] [] = Ordering.eq
lexicographic [] (y ∷ b) = Ordering.lt
lexicographic (x ∷ a) [] = Ordering.gt
lexicographic (x ∷ a) (y ∷ b) =
    let rest = lexicographic a b in
    if ltb x y then Ordering.lt else if ltb y x then Ordering.gt else rest

-- Heads that differ decide.
pub compare_bytes-heads :
    (x y : ℕ) (a b : List ℕ)
    → (x < y → compare_bytes (x ∷ a) (y ∷ b) ≡ Ordering.lt)
      × (y < x → compare_bytes (x ∷ a) (y ∷ b) ≡ Ordering.gt)
unfolding compare_bytes memcmp
compare_bytes-heads x y a b =
    let shorter : min (suc (length a)) (suc (length b)) ≡ suc (min (length a) (length b)) =
      omega arith in
    rw shorter (
      λ less. rw (lt→ltb x y less) refl,
      λ more. rw (le→ltb-false x y (omega arith), lt→ltb y x more) refl,
    )

-- compare_bytes, a memcmp of the shared length and then the order of the lengths, is the lexicographic
-- order, in which a proper prefix stands first.
pub compare_bytes-lexicographic : (a b : List ℕ) → compare_bytes a b ≡ lexicographic a b
unfolding lexicographic
compare_bytes-lexicographic [] [] = unfold compare_bytes memcmp in refl
compare_bytes-lexicographic [] (y ∷ b) =
    let shared : min 0 (suc (length b)) ≡ 0 = omega arith in
    unfold compare_bytes memcmp in rw shared (order_of-lt 0 (suc (length b)) (omega arith))
compare_bytes-lexicographic (x ∷ a) [] =
    let shared : min (suc (length a)) 0 ≡ 0 = omega arith in
    unfold compare_bytes memcmp in rw shared (order_of-gt (suc (length a)) 0 (omega arith))
compare_bytes-lexicographic (x ∷ a) (y ∷ b) = elim (three_ways x y) [
  | inl less ↦ (compare_bytes-heads x y a b).0 less ∙ rw (lt→ltb x y less) refl
  | inr (inl e) ↦
      rw (e, le→ltb-false y y (omega arith))
        (compare_bytes-cons y a b ∙ compare_bytes-lexicographic a b)
  | inr (inr more) ↦
      (compare_bytes-heads x y a b).1 more
      ∙ rw (le→ltb-false x y (omega arith), lt→ltb y x more) refl
]

lexicographic-eq : (a b : List ℕ) → lexicographic a b ≡ Ordering.eq → a ≡ b
unfolding lexicographic
lexicographic-eq [] [] h = refl
lexicographic-eq [] (y ∷ b) h = cc h
lexicographic-eq (x ∷ a) [] h = cc h
lexicographic-eq (x ∷ a) (y ∷ b) h = elim (three_ways x y) [
  | inl less ↦ cc (rw (lt→ltb x y less) at h)
  | inr (inl e) ↦
      let rest = rw (e, le→ltb-false y y (omega arith)) at h in cc (e, lexicographic-eq a b rest)
  | inr (inr more) ↦ cc (rw (le→ltb-false x y (omega arith), lt→ltb y x more) at h)
]

-- Eq.
pub compare_bytes-eq : (a b : List ℕ) → compare_bytes a b ≡ Ordering.eq → a ≡ b
compare_bytes-eq a b h = lexicographic-eq a b (sym (compare_bytes-lexicographic a b) ∙ h)

lexicographic_self : (a : List ℕ) → lexicographic a a ≡ Ordering.eq
unfolding lexicographic
lexicographic_self [] = refl
lexicographic_self (x ∷ a) = rw (le→ltb-false x x (omega arith)) (lexicographic_self a)

pub compare_bytes_self : (a : List ℕ) → compare_bytes a a ≡ Ordering.eq
compare_bytes_self a = compare_bytes-lexicographic a a ∙ lexicographic_self a

lexicographic-flip :
    (a b : List ℕ) → lexicographic a b ≡ Ordering.lt → lexicographic b a ≡ Ordering.gt
unfolding lexicographic
lexicographic-flip [] [] h = cc h
lexicographic-flip [] (y ∷ b) h = refl
lexicographic-flip (x ∷ a) [] h = cc h
lexicographic-flip (x ∷ a) (y ∷ b) h = elim (three_ways x y) [
  | inl less ↦ rw (le→ltb-false y x (omega arith), lt→ltb x y less) refl
  | inr (inl e) ↦
      let rest = rw (e, le→ltb-false y y (omega arith)) at h in
      rw (e, le→ltb-false y y (omega arith)) (lexicographic-flip a b rest)
  | inr (inr more) ↦ cc (rw (le→ltb-false x y (omega arith), lt→ltb y x more) at h)
]

pub compare_bytes-flip :
    (a b : List ℕ) → compare_bytes a b ≡ Ordering.lt → compare_bytes b a ≡ Ordering.gt
compare_bytes-flip a b h =
    compare_bytes-lexicographic b a
    ∙ lexicographic-flip a b (sym (compare_bytes-lexicographic a b) ∙ h)
