-- ===== src/IndexedMap/Found.antt =====
-- The binary search of `struple_indexed_map_find` over entries in ascending order of their keys.
use struple.Prelude.{
  ℕ, zero, suc, ◌+◌, ◌-◌, ◌/◌, ◌≤◌, ◌<◌, ◌≡◌, refl, ap, ◌∙◌, arith, List, [], ◌∷◌, length,
  get_elem?, some, inl, inr, three_ways, Ordering, lt→ltb,
}
use struple.Compare.{compare_bytes}
use struple.Compare.Order.{compare_bytes_self, compare_bytes-flip}
use struple.Encode.Containers.{Entry}
use struple.IndexedMap.{find_loop, indexed_map_find, indexed_map_get}

-- Each key is below the keys of all later entries.
abbrev pub IsAscending : List Entry → Type 0
IsAscending m =
    (i j : ℕ) (a b : Entry)
    → i < j
    → get_elem? m i ≡ some a
    → get_elem? m j ≡ some b
    → compare_bytes a.key b.key ≡ Ordering.lt

entry_at : (m : List Entry) (i : ℕ) → i < length m → (x : Entry) × (get_elem? m i ≡ some x)
entry_at [] i h = absurd (omega arith)
entry_at (x ∷ m) zero h = (x, refl)
entry_at (x ∷ m) (suc i) h = entry_at m i (omega arith)

get_elem?-lt : (m : List Entry) (i : ℕ) (e : Entry) → get_elem? m i ≡ some e → i < length m
get_elem?-lt [] i e h = cc h
get_elem?-lt (x ∷ m) zero e h = omega arith
get_elem?-lt (x ∷ m) (suc i) e h = omega (arith, get_elem?-lt m i e h)

module _ (m : List Entry) (ascending : IsAscending m) (i : ℕ) (e : Entry)
    (there : get_elem? m i ≡ some e) where
  find_loop-there :
      (f lo hi : ℕ)
      → lo ≤ i
      → i < hi
      → hi ≤ length m
      → hi < lo + f
      → find_loop f m e.key lo hi ≡ some i
  unfolding find_loop
  find_loop-there zero lo hi l h s fuel = absurd (omega arith)
  find_loop-there (suc f) lo hi l h s fuel =
      let mid : ℕ = lo + (hi - lo) / 2 in
      let (x, at) = entry_at m mid (omega arith) in
      elim (three_ways mid i) [
        | inl less ↦
            rw (lt→ltb lo hi (omega arith), at, ascending mid i x e less at there)
              (find_loop-there f (mid + 1) hi (omega arith) h s (omega arith))
        | inr (inl same) ↦
            rw (lt→ltb lo hi (omega arith), ap (get_elem? m) same ∙ there, compare_bytes_self e.key)
              (ap some same)
        | inr (inr more) ↦
            rw
              (
                lt→ltb lo hi (omega arith),
                at,
                compare_bytes-flip e.key x.key (ascending i mid e x more there at),
              )
              (find_loop-there f lo mid l more (omega arith) (omega arith))
      ]

  -- In entries whose keys ascend in byte order, the binary search for the key of the entry at an index
  -- ends with that index.
  pub indexed_map_find-there : indexed_map_find m e.key ≡ some i
  unfolding indexed_map_find
  indexed_map_find-there =
      find_loop-there (suc (length m)) 0 (length m) (omega arith) (get_elem?-lt m i e there)
        (omega arith) (omega arith)

  -- In entries whose keys ascend in byte order, the value of each entry is found by its key.
  pub indexed_map_get-there : indexed_map_get m e.key ≡ some e.value
  unfolding indexed_map_get
  indexed_map_get-there = rw (indexed_map_get, indexed_map_find-there, there) refl
