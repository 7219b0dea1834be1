-- ===== src/IndexedMap.antt =====
-- The indexed map of c/struple.c: the entries of a map's inner stream in an array, and binary search.
pub mod Found
pub mod Agreement
use struple.Prelude.{
  ℕ, zero, suc, ◌+◌, ◌-◌, ◌/◌, Ordering, Option, none, some, List, [], ◌∷◌, ◌++◌, length, get_elem?,
  ltb, if◌then◌else◌,
}
use struple.Compare.{compare_bytes}
use struple.Encode.Containers.{Entry}
use struple.Reader.{Reader, reader_init}
use struple.Reader.Next.{at_end, item, malformed}
use struple.MapView.{map_next}

-- The loop of `struple_indexed_map_init`, which reads a key and then its value; `none` is the result -1.
unfoldable pub index_loop : ℕ → Reader → List Entry → Option (List Entry)
index_loop zero r entries = none
index_loop (suc f) r entries =
    let (o, r') = map_next r in
    elim o [
      | at_end ↦ some entries
      | malformed ↦ none
      | item e ↦ index_loop f r' (entries ++ (e ∷ []))
    ]

unfoldable pub indexed_map_init : List ℕ → Option (List Entry)
indexed_map_init inner = index_loop (suc (length inner)) (reader_init inner) []

unfoldable pub indexed_map_count : List Entry → ℕ
indexed_map_count m = length m

unfoldable pub indexed_map_at : List Entry → ℕ → Option Entry
indexed_map_at m index = get_elem? m index

-- `while (lo < hi)`, with the rounds left
unfoldable pub find_loop : ℕ → List Entry → List ℕ → ℕ → ℕ → Option ℕ
find_loop zero m key lo hi = none
find_loop (suc f) m key lo hi =
    let mid = lo + (hi - lo) / 2 in
    let below = find_loop f m key (mid + 1) hi in
    let above = find_loop f m key lo mid in
    if ltb lo hi
    then (elim (get_elem? m mid) [
      | none ↦ none
      | some e ↦ elim (compare_bytes e.key key) [
        | Ordering.eq ↦ some mid
        | Ordering.lt ↦ below
        | Ordering.gt ↦ above
      ]
    ])
    else none

-- The range shrinks in each round, so the count is enough fuel.
unfoldable pub indexed_map_find : List Entry → List ℕ → Option ℕ
indexed_map_find m key = find_loop (suc (length m)) m key 0 (length m)

unfoldable pub indexed_map_get : List Entry → List ℕ → Option (List ℕ)
indexed_map_get m key = elim (indexed_map_find m key) [
  | none ↦ none
  | some i ↦ elim (get_elem? m i) [ none ↦ none | some e ↦ some e.value ]
]
