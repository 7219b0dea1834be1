-- ===== src/MapView.antt =====
-- Map navigation in c/struple.c, over the inner stream of a map.
use struple.Prelude.{ℕ, zero, suc, ◌/◌, Ordering, Option, none, some, List, length}
use struple.Compare.{compare_bytes}
use struple.Encode.Containers.{Entry}
use struple.Reader.{Reader, reader_init}
use struple.Reader.Next.{Outcome, at_end, item, malformed}
use struple.View.{view_count, reader_next_view}

unfoldable pub map_count : List ℕ → Option ℕ
map_count m = elim (view_count m) [ none ↦ none | some c ↦ some (c / 2) ]

unfoldable pub map_iterator : List ℕ → Reader
map_iterator m = reader_init m

abbrev value_of : List ℕ → Outcome (List ℕ) × Reader → Outcome Entry × Reader
value_of k (at_end, r) = (malformed, r)
value_of k (malformed, r) = (malformed, r)
value_of k (item v, r) = (item (record { key = k; value = v }), r)

abbrev entry_of : Outcome (List ℕ) × Reader → Outcome Entry × Reader
entry_of (at_end, r) = (at_end, r)
entry_of (malformed, r) = (malformed, r)
entry_of (item k, r) = value_of k (reader_next_view r)

unfoldable pub map_next : Reader → Outcome Entry × Reader
map_next it = entry_of (reader_next_view it)

-- The scan stops at the key, or at the first key above it. `none` is the result 0, also where the
-- iteration ends by an error.
unfoldable pub get_loop : ℕ → Reader → List ℕ → Option (List ℕ)
get_loop zero it key = none
get_loop (suc f) it key =
    let (o, it') = map_next it in
    elim o [
      | at_end ↦ none
      | malformed ↦ none
      | item e ↦ elim (compare_bytes e.key key) [
        | Ordering.eq ↦ some e.value
        | Ordering.gt ↦ none
        | Ordering.lt ↦ get_loop f it' key
      ]
    ]

-- An entry takes a byte at least, so the length is enough fuel.
unfoldable pub map_get : List ℕ → List ℕ → Option (List ℕ)
map_get m key = get_loop (suc (length m)) (map_iterator m) key
