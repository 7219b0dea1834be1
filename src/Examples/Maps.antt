-- ===== src/Examples/Maps.antt =====
-- Maps and sets of c/struple.c: the theorems at concrete inputs, with insertion sort for qsort.
use struple.Prelude.{
  ℕ, ◌+◌, ◌≡◌, ◌≢◌, refl, sym, ap, arith, List, [], ◌∷◌, ◌++◌, length, get_or, All, some, none,
}
use mathlib.Core.List.{Memᴰ}
use struple.Writer.{writer_init, sw_push, sw_append}
use struple.Framing.{write_framed}
use struple.Encode.Scalars.{append_nil}
use struple.Encode.Containers.{Entry, kv_cmp, append_map, append_set, append_string}
use struple.Encode.Canonical.{inner_bytes, append_map-canonical}
use struple.Encode.Canonical.Sets.{append_set-canonical}
use struple.Encode.Sorting.Rearranged.{HasDistinctKeys}
use struple.Encode.Sorting.Strict.{Within}
use struple.Reader.{nil, string, map, reader_at}
use struple.Reader.Next.{item, reader_next, append_element}
use struple.MapView.{map_get}
use struple.RoundTrip.Entries.{IsEncoding, IsEncoded}
use struple.RoundTrip.Maps.{append_map-map_get, append_map-map_get_missing}
use struple.Examples.Sort.{insertion_sort, insertion_sort-Sorts}

-- The strings "b" and "a", and null
abbrev b_key : List ℕ
b_key = 0x48 ∷ 98 ∷ 0 ∷ []

abbrev a_key : List ℕ
a_key = 0x48 ∷ 97 ∷ 0 ∷ []

abbrev pairs : List Entry
pairs = record { key = b_key; value = 0x01 ∷ [] } ∷ record { key = a_key; value = 0x01 ∷ [] } ∷ []

abbrev turned : List Entry
turned = record { key = a_key; value = 0x01 ∷ [] } ∷ record { key = b_key; value = 0x01 ∷ [] } ∷ []

b_key-IsEncoding : IsEncoding b_key
unfolding append_element append_string write_framed sw_push sw_append
b_key-IsEncoding = record { element = string (98 ∷ []); canonical = tt; encodes = refl }

a_key-IsEncoding : IsEncoding a_key
unfolding append_element append_string write_framed sw_push sw_append
a_key-IsEncoding = record { element = string (97 ∷ []); canonical = tt; encodes = refl }

null-IsEncoding : IsEncoding (0x01 ∷ [])
unfolding append_element append_nil sw_push
null-IsEncoding = record { element = nil; canonical = tt; encodes = refl }

pairs-IsEncoded : All IsEncoded pairs
pairs-IsEncoded = ((b_key-IsEncoding, null-IsEncoding), ((a_key-IsEncoding, null-IsEncoding), tt))

b_key_other : b_key ≢ a_key
b_key_other e = let second : 98 ≡ 97 = ap (λ (p : List ℕ). get_or p 1 0) e in omega (arith, second)

pairs-HasDistinctKeys : HasDistinctKeys pairs
pairs-HasDistinctKeys = ((b_key_other, tt), (tt, tt))

turned-HasDistinctKeys : HasDistinctKeys turned
turned-HasDistinctKeys = ((λ e. b_key_other (sym e), tt), (tt, tt))

append_map-map_get_example :
    (reader_next (reader_at 4 ((append_map insertion_sort writer_init pairs).bytes ++ 0x05 ∷ []))
      ≡ (
        item (map (inner_bytes (insertion_sort kv_cmp pairs))),
        reader_at (4 + length (append_map insertion_sort writer_init pairs).bytes) (0x05 ∷ []),
      ))
    × All (λ e. map_get (inner_bytes (insertion_sort kv_cmp pairs)) e.key ≡ some e.value) pairs
append_map-map_get_example =
    append_map-map_get insertion_sort insertion_sort-Sorts pairs pairs-IsEncoded
      pairs-HasDistinctKeys 4 (0x05 ∷ []) (omega arith)

append_map-map_get_missing_example :
    map_get (inner_bytes (insertion_sort kv_cmp pairs)) (0x01 ∷ []) ≡ none
append_map-map_get_missing_example =
    append_map-map_get_missing insertion_sort insertion_sort-Sorts pairs pairs-IsEncoded
      pairs-HasDistinctKeys (0x01 ∷ []) (λ e. cc e, (λ e. cc e, tt))

there : Within pairs turned
there z (Memᴰ.head e) = Memᴰ.tail (Memᴰ.head e)
there z (Memᴰ.tail (Memᴰ.head e)) = Memᴰ.head e
there z (Memᴰ.tail (Memᴰ.tail m)) = elim m [ ]

back : Within turned pairs
back z (Memᴰ.head e) = Memᴰ.tail (Memᴰ.head e)
back z (Memᴰ.tail (Memᴰ.head e)) = Memᴰ.head e
back z (Memᴰ.tail (Memᴰ.tail m)) = elim m [ ]

append_map-canonical_example :
    (append_map insertion_sort writer_init pairs).bytes
    ≡ (append_map insertion_sort writer_init turned).bytes
append_map-canonical_example =
    append_map-canonical insertion_sort insertion_sort-Sorts writer_init pairs turned
      pairs-HasDistinctKeys turned-HasDistinctKeys there back

abbrev twice : List (List ℕ)
twice = b_key ∷ a_key ∷ b_key ∷ []

abbrev once : List (List ℕ)
once = a_key ∷ b_key ∷ []

twice-Within : Within twice once
twice-Within z (Memᴰ.head e) = Memᴰ.tail (Memᴰ.head e)
twice-Within z (Memᴰ.tail (Memᴰ.head e)) = Memᴰ.head e
twice-Within z (Memᴰ.tail (Memᴰ.tail (Memᴰ.head e))) = Memᴰ.tail (Memᴰ.head e)
twice-Within z (Memᴰ.tail (Memᴰ.tail (Memᴰ.tail m))) = elim m [ ]

once-Within : Within once twice
once-Within z (Memᴰ.head e) = Memᴰ.tail (Memᴰ.head e)
once-Within z (Memᴰ.tail (Memᴰ.head e)) = Memᴰ.head e
once-Within z (Memᴰ.tail (Memᴰ.tail m)) = elim m [ ]

append_set-canonical_example :
    (append_set insertion_sort writer_init twice).bytes
    ≡ (append_set insertion_sort writer_init once).bytes
append_set-canonical_example =
    append_set-canonical insertion_sort insertion_sort-Sorts writer_init twice once twice-Within
      once-Within
