-- ===== src/RoundTrip/Maps.antt =====
-- Maps from `struple_append_map` to `struple_map_get`: what is written, read back and looked up.
use struple.Prelude.{ℕ, ◌+◌, ◌≡◌, ◌≢◌, refl, ◌∙◌, List, ◌++◌, length, All, some, none, Ordering}
use mathlib.Core.List.Permᴰ
use struple.Codes.{map_code}
use struple.Writer.{writer_init}
use struple.Framing.Escape.{NotEscape}
use struple.Compare.Order.{compare_bytes-eq}
use struple.Encode.Containers.{Entry, kv_cmp, append_map}
use struple.Encode.Canonical.{inner_bytes, append_map-write_framed}
use struple.Encode.Sorting.{Sorts, kv_cmp-IsConsistent}
use struple.Reader.{map, reader_at}
use struple.Reader.Next.{item, reader_next}
use struple.MapView.{map_get}
use struple.IndexedMap.{indexed_map_init}
use struple.IndexedMap.Found.{IsAscending, indexed_map_get-there}
use struple.IndexedMap.Agreement.{map_get-indexed_map_get, indexed_map_get-missing}
use struple.RoundTrip.Framed.{write_framed-reader_next}
use struple.RoundTrip.Entries.{IsEncoded, indexed_map_init-inner_bytes}
use struple.Encode.Sorting.Rearranged.{
  permuted, HasDistinctKeys, permuted-HasDistinctKeys, All-at, All-by_index,
}
use struple.Encode.Sorting.Strict.{IsOrdered-IsStrict, IsStrict-IsAscending}

module _ (qsort : (Entry → Entry → Ordering) → List Entry → List Entry) (sorts : Sorts qsort) where
  abbrev sorted : List Entry → List Entry
  sorted entries = qsort kv_cmp entries

  append_map-reader_next :
      (entries : List Entry) (at : ℕ) (rest : List ℕ)
      → NotEscape rest
      → reader_next (reader_at at ((append_map qsort writer_init entries).bytes ++ rest)) ≡ (
        item (map (inner_bytes (qsort kv_cmp entries))),
        reader_at (at + length (append_map qsort writer_init entries).bytes) rest,
      )
  append_map-reader_next entries at rest h =
      rw (append_map-write_framed qsort writer_init entries)
        (write_framed-reader_next map_code (inner_bytes (sorted entries)) refl at rest h)

  module _ (entries : List Entry) (encoded : All IsEncoded entries)
      (distinct : HasDistinctKeys entries) where
    indexed : indexed_map_init (inner_bytes (sorted entries)) ≡ some (sorted entries)
    indexed =
        indexed_map_init-inner_bytes (sorted entries)
          (permuted IsEncoded (sorts.permutes kv_cmp entries) encoded)

    ascending : IsAscending (sorted entries)
    ascending = IsStrict-IsAscending (sorted entries) (
        IsOrdered-IsStrict (sorted entries) (sorts.orders kv_cmp kv_cmp-IsConsistent entries)
          (permuted-HasDistinctKeys (sorts.permutes kv_cmp entries) distinct))

    found : All (λ e. map_get (inner_bytes (sorted entries)) e.key ≡ some e.value) entries
    found =
        permuted (λ e. map_get (inner_bytes (sorted entries)) e.key ≡ some e.value)
          (Permᴰ.symm (sorts.permutes kv_cmp entries))
          (All-by_index _ (sorted entries) (λ i e there.
            map_get-indexed_map_get (inner_bytes (sorted entries)) (sorted entries) e.key indexed
              ascending
            ∙ indexed_map_get-there (sorted entries) ascending i e there))

    -- For a qsort that rearranges and orders, and entries that have different keys and whose keys and
    -- values are encodings of elements that IsCanonical: what append_map writes, before bytes that do
    -- not begin with 0xff, is presented by reader_next as a map whose inner bytes are the sorted
    -- entries, with the position behind it, and map_get in these inner bytes finds the value of every
    -- entry by its key.
    pub append_map-map_get :
        (at : ℕ) (rest : List ℕ)
        → NotEscape rest
        → (reader_next (reader_at at ((append_map qsort writer_init entries).bytes ++ rest)) ≡ (
          item (map (inner_bytes (qsort kv_cmp entries))),
          reader_at (at + length (append_map qsort writer_init entries).bytes) rest,
        ))
          × All (λ e. map_get (inner_bytes (qsort kv_cmp entries)) e.key ≡ some e.value) entries
    append_map-map_get at rest h = (append_map-reader_next entries at rest h, found)

    -- For a qsort that rearranges and orders, and entries that have different keys and whose keys and
    -- values are encodings of elements that IsCanonical: in the sorted entries, map_get finds nothing
    -- for a key that no entry has.
    pub append_map-map_get_missing :
        (key : List ℕ)
        → All (λ e. e.key ≢ key) entries
        → map_get (inner_bytes (qsort kv_cmp entries)) key ≡ none
    append_map-map_get_missing key other =
        map_get-indexed_map_get (inner_bytes (sorted entries)) (sorted entries) key indexed
          ascending
        ∙ indexed_map_get-missing key (sorted entries) (λ i e there same.
          All-at (λ x. x.key ≢ key) (sorted entries) i e
            (permuted (λ x. x.key ≢ key) (sorts.permutes kv_cmp entries) other) there
            (compare_bytes-eq e.key key same))
