-- ===== src/IndexedMap/Agreement.antt =====
-- `struple_map_get` against `struple_indexed_map_get`: the scan of the stream, and the binary search in
-- the array that `struple_indexed_map_init` makes of it.
use struple.Prelude.{
  ℕ, zero, suc, ◌+◌, ◌-◌, ◌/◌, ◌≡◌, ◌≢◌, refl, sym, ap, ◌∙◌, arith, List, [], ◌∷◌, ◌++◌, length,
  append_assoc, append-nil, get_elem?, Option, none, some, inl, inr, ◌⊎◌, Option-cases, Ordering,
  ltb, Bool-cases,
}
use struple.Compare.{compare_bytes}
use struple.Compare.Order.{compare_bytes-eq}
use struple.Encode.Containers.{Entry}
use struple.Reader.{Reader, reader_init}
use struple.Reader.Next.{Outcome, at_end, item, malformed}
use struple.MapView.{map_next, map_iterator, get_loop, map_get}
use struple.IndexedMap.{index_loop, indexed_map_init, find_loop, indexed_map_find, indexed_map_get}
use struple.IndexedMap.Found.{IsAscending, indexed_map_get-there}

-- What the scan does with a comparison, and with what is behind.
abbrev by_order : List ℕ → Option (List ℕ) → Ordering → Option (List ℕ)
by_order v behind Ordering.eq = some v
by_order v behind Ordering.gt = none
by_order v behind Ordering.lt = behind

-- The scan over entries
abbrev lookup : List ℕ → List Entry → Option (List ℕ)
lookup key [] = none
lookup key (e ∷ es) = by_order e.value (lookup key es) (compare_bytes e.key key)

-- One round of each loop, on what `map_next` gives.
abbrev index_after : ℕ → List Entry → Outcome Entry × Reader → Option (List Entry)
index_after f acc (at_end, r) = some acc
index_after f acc (malformed, r) = none
index_after f acc (item e, r) = index_loop f r (acc ++ (e ∷ []))

abbrev get_after : ℕ → List ℕ → Outcome Entry × Reader → Option (List ℕ)
get_after f key (at_end, r) = none
get_after f key (malformed, r) = none
get_after f key (item e, r) = by_order e.value (get_loop f r key) (compare_bytes e.key key)

index_loop-after :
    (f : ℕ) (r : Reader) (acc : List Entry)
    → index_loop (suc f) r acc ≡ index_after f acc (map_next r)
unfolding index_loop
index_loop-after f r acc = by_outcome (map_next r)
  where
    by_outcome :
        (q : Outcome Entry × Reader)
        → (elim q.0 [
          | at_end ↦ some acc
          | malformed ↦ none
          | item e ↦ index_loop f q.1 (acc ++ (e ∷ []))
        ])
          ≡ index_after f acc q
    by_outcome (at_end, r) = refl
    by_outcome (malformed, r) = refl
    by_outcome (item e, r) = refl

get_loop-after :
    (f : ℕ) (r : Reader) (key : List ℕ) → get_loop (suc f) r key ≡ get_after f key (map_next r)
unfolding get_loop
get_loop-after f r key = by_outcome (map_next r)
  where
    by_order_of :
        (v : List ℕ) (behind : Option (List ℕ)) (o : Ordering)
        → (elim o [ Ordering.eq ↦ some v | Ordering.gt ↦ none | Ordering.lt ↦ behind ])
          ≡ by_order v behind o
    by_order_of v behind Ordering.eq = refl
    by_order_of v behind Ordering.gt = refl
    by_order_of v behind Ordering.lt = refl

    by_outcome :
        (q : Outcome Entry × Reader)
        → (elim q.0 [
          | at_end ↦ none
          | malformed ↦ none
          | item e ↦ elim (compare_bytes e.key key) [
            | Ordering.eq ↦ some e.value
            | Ordering.gt ↦ none
            | Ordering.lt ↦ get_loop f q.1 key
          ]
        ])
          ≡ get_after f key q
    by_outcome (at_end, r) = refl
    by_outcome (malformed, r) = refl
    by_outcome (item e, r) = by_order_of e.value (get_loop f r key) (compare_bytes e.key key)

-- The array holds the entries that are still to come, in the order in which the scan meets them.
get_loop-lookup :
    (key : List ℕ) (f : ℕ) (r : Reader) (acc es : List Entry)
    → index_loop f r acc ≡ some es
    → (behind : List Entry) × (es ≡ acc ++ behind) × (get_loop f r key ≡ lookup key behind)
get_loop-lookup key zero r acc es h = unfold index_loop in absurd (cc h)
get_loop-lookup key (suc f) r acc es h =
    rw (get_loop-after f r key)
      (go (map_next r) (sym (index_loop-after f r acc) ∙ h) (get_loop-lookup key f))
  where
    go :
        (q : Outcome Entry × Reader)
        → index_after f acc q ≡ some es
        → ((r' : Reader) (acc' es' : List Entry)
            → index_loop f r' acc' ≡ some es'
            → (behind : List Entry) × (es' ≡ acc' ++ behind)
              × (get_loop f r' key ≡ lookup key behind))
        → (behind : List Entry) × (es ≡ acc ++ behind) × (get_after f key q ≡ lookup key behind)
    go (at_end, r') e further = ([], rw (append-nil acc) (cc e), refl)
    go (malformed, r') e further = absurd (cc e)
    go (item x, r') e further =
        let (behind, same, found) = further r' (acc ++ (x ∷ [])) es e in
        (x ∷ behind, same ∙ append_assoc acc (x ∷ []) behind, rw found refl)

-- Either an entry has the key, or none has.
abbrev Looked : List ℕ → List Entry → Type 0
Looked key es =
    ((i : ℕ) × (e : Entry) × (get_elem? es i ≡ some e)
      × (e.key ≡ key)
      × (lookup key es ≡ some e.value))
    ⊎ ((lookup key es ≡ none)
        × ((i : ℕ) (e : Entry) → get_elem? es i ≡ some e → compare_bytes e.key key ≢ Ordering.eq))

lookup-Looked : (key : List ℕ) (es : List Entry) → IsAscending es → Looked key es
lookup-Looked key [] ascending = inr (refl, λ i e at same. cc at)
lookup-Looked key (x ∷ es) ascending =
    go (compare_bytes x.key key) refl
      (lookup-Looked key es (λ i j a b less. ascending (suc i) (suc j) a b (omega (arith, less))))
  where
    above :
        compare_bytes x.key key ≡ Ordering.gt
        → (i : ℕ) (y : Entry) → get_elem? (x ∷ es) i ≡ some y
        → compare_bytes y.key key ≢ Ordering.eq
    above e zero y at same = cc (e, at, same)
    above e (suc i) y at same =
        let equal : y.key ≡ key = compare_bytes-eq y.key key same in
        let less : compare_bytes x.key y.key ≡ Ordering.lt =
          ascending 0 (suc i) x y (omega arith) refl at in
        cc (e, rw equal at less)

    below :
        compare_bytes x.key key ≡ Ordering.lt
        → ((i : ℕ) (y : Entry) → get_elem? es i ≡ some y → compare_bytes y.key key ≢ Ordering.eq)
        → (i : ℕ) (y : Entry) → get_elem? (x ∷ es) i ≡ some y
        → compare_bytes y.key key ≢ Ordering.eq
    below e other zero y at same = cc (e, at, same)
    below e other (suc i) y at same = other i y at same

    go : (o : Ordering) → compare_bytes x.key key ≡ o → Looked key es → Looked key (x ∷ es)
    go Ordering.eq e tail = inl (0, x, refl, compare_bytes-eq x.key key e, rw e refl)
    go Ordering.gt e tail = inr (rw e refl, above e)
    go Ordering.lt e (inl (i, y, at, same, found)) = inl (suc i, y, at, same, rw e found)
    go Ordering.lt e (inr (missing, other)) = inr (rw e missing, below e other)

module _ (key : List ℕ) (es : List Entry)
    (other : (i : ℕ) (e : Entry)
      → get_elem? es i ≡ some e
      → compare_bytes e.key key ≢ Ordering.eq) where
  find_loop-missing : (f lo hi : ℕ) → find_loop f es key lo hi ≡ none
  unfolding find_loop
  find_loop-missing zero lo hi = refl
  find_loop-missing (suc f) lo hi = elim (Bool-cases (ltb lo hi)) [
    | inr e ↦ rw e refl
    | inl e ↦ elim (Option-cases (get_elem? es (lo + (hi - lo) / 2))) [
      | inl past ↦ rw (e, past) refl
      | inr (x, at) ↦
          rw (e, at)
            (by_comparison (lo + (hi - lo) / 2) (compare_bytes x.key key)
              (other (lo + (hi - lo) / 2) x at) (find_loop-missing f (lo + (hi - lo) / 2 + 1) hi)
              (find_loop-missing f lo (lo + (hi - lo) / 2)))
    ]
  ]
    where
      by_comparison :
          (n : ℕ) {below above : Option ℕ} (o : Ordering)
          → o ≢ Ordering.eq
          → below ≡ none
          → above ≡ none
          → (elim o [ Ordering.eq ↦ some n | Ordering.lt ↦ below | Ordering.gt ↦ above ]) ≡ none
      by_comparison n Ordering.eq h b a = absurd (h refl)
      by_comparison n Ordering.lt h b a = b
      by_comparison n Ordering.gt h b a = a

  pub indexed_map_get-missing : indexed_map_get es key ≡ none
  unfolding indexed_map_get indexed_map_find
  indexed_map_get-missing =
      rw (indexed_map_get, find_loop-missing (suc (length es)) 0 (length es)) refl

lookup-indexed_map_get :
    (key : List ℕ) (es : List Entry) → IsAscending es → indexed_map_get es key ≡ lookup key es
lookup-indexed_map_get key es ascending = elim (lookup-Looked key es ascending) [
  | inl (i, e, at, same, found) ↦ rw found (rw same at (indexed_map_get-there es ascending i e at))
  | inr (missing, other) ↦ rw missing (indexed_map_get-missing key es other)
]

pub map_get-indexed_map_get :
    (inner : List ℕ) (m : List Entry) (key : List ℕ)
    → indexed_map_init inner ≡ some m
    → IsAscending m
    → map_get inner key ≡ indexed_map_get m key
unfolding indexed_map_init map_get map_iterator
map_get-indexed_map_get inner m key h ascending =
    let (behind, same, found) =
      get_loop-lookup key (suc (length inner)) (reader_init inner) [] m h in
    found ∙ ap (lookup key) (sym same) ∙ sym (lookup-indexed_map_get key m ascending)
