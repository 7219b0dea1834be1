-- ===== src/Encode/Canonical.antt =====
-- `struple_append_map` and `struple_append_set` write a map and a set, whatever the order of the entries or
-- elements that they are given.
pub mod Distinct
pub mod Sets
use struple.Prelude.{ℕ, ◌≡◌, sym, ap, ◌∙◌, List, [], ◌∷◌, ◌++◌, append_assoc, append-nil, Ordering}
use mathlib.Core.List.Permᴰ
use struple.Codes.{map_code, terminator}
use struple.Writer.{Writer, sw_push}
use struple.Writer.Contents.{bytes-sw_push}
use struple.Framing.{write_escaped, write_framed}
use struple.Framing.Escape.{escaped, escaped-append, bytes-write_escaped, bytes-write_framed}
use struple.Encode.Containers.{Entry, kv_cmp, write_entries, append_map}
use struple.Encode.Sorting.{Sorts, kv_cmp-IsConsistent}
use struple.Encode.Sorting.Rearranged.{HasDistinctKeys, permuted-HasDistinctKeys, permuted-Memᴰ}
use struple.Encode.Sorting.Strict.{
  IsStrict, Within, IsStrict-unique, KeyBelow, compare_bytes_asym, IsOrdered-IsStrict,
}

-- The keys and values of the entries, one behind the other
unfoldable pub inner_bytes : List Entry → List ℕ
inner_bytes [] = []
inner_bytes (e ∷ es) = e.key ++ (e.value ++ inner_bytes es)

bytes-write_entries :
    (es : List Entry) (w : Writer)
    → (write_entries es w).bytes ≡ w.bytes ++ escaped (inner_bytes es)
unfolding write_entries inner_bytes escaped
bytes-write_entries [] w = sym (append-nil w.bytes)
bytes-write_entries (e ∷ es) w =
    bytes-write_entries es (write_escaped (write_escaped w e.key) e.value)
    ∙ rw
        (
          bytes-write_escaped (write_escaped w e.key) e.value,
          bytes-write_escaped w e.key,
          escaped-append e.key (e.value ++ inner_bytes es),
          escaped-append e.value (inner_bytes es),
        )
        (simp append_assoc)

-- What a frame adds to a writer
pub framed_bytes :
    (t : ℕ) (w w' : Writer) (content : List ℕ)
    → w'.bytes ≡ (sw_push w t).bytes ++ escaped content
    → (sw_push w' terminator).bytes ≡ (write_framed w t content).bytes
framed_bytes t w w' content h =
    rw (bytes-sw_push w' terminator, h, bytes-sw_push w t, bytes-write_framed w t content)
      (simp append_assoc)

module _ (qsort : (Entry → Entry → Ordering) → List Entry → List Entry) where
  -- A map is the frame of its sorted entries.
  pub append_map-write_framed :
      (w : Writer) (entries : List Entry)
      → (append_map qsort w entries).bytes
        ≡ (write_framed w map_code (inner_bytes (qsort kv_cmp entries))).bytes
  unfolding append_map
  append_map-write_framed w entries =
      framed_bytes map_code w (write_entries (qsort kv_cmp entries) (sw_push w map_code))
        (inner_bytes (qsort kv_cmp entries))
        (bytes-write_entries (qsort kv_cmp entries) (sw_push w map_code))

  -- For a qsort that rearranges and orders: append_map writes the same bytes for two lists of entries
  -- with the same members, where in each list the keys are all different.
  pub append_map-canonical :
      (sorts : Sorts qsort) (w : Writer) (xs ys : List Entry)
      → HasDistinctKeys xs
      → HasDistinctKeys ys
      → Within xs ys
      → Within ys xs
      → (append_map qsort w xs).bytes ≡ (append_map qsort w ys).bytes
  append_map-canonical sorts w xs ys h k there back =
      append_map-write_framed w xs
      ∙ ap (λ (es : List Entry). (write_framed w map_code (inner_bytes es)).bytes) same
      ∙ sym (append_map-write_framed w ys)
    where
      strict : (es : List Entry) → HasDistinctKeys es → IsStrict KeyBelow (qsort kv_cmp es)
      strict es distinct =
          IsOrdered-IsStrict (qsort kv_cmp es) (sorts.orders kv_cmp kv_cmp-IsConsistent es)
            (permuted-HasDistinctKeys (sorts.permutes kv_cmp es) distinct)

      within : (ps qs : List Entry) → Within ps qs → Within (qsort kv_cmp ps) (qsort kv_cmp qs)
      within ps qs sub z m =
          permuted-Memᴰ (sorts.permutes kv_cmp qs)
            (sub z (permuted-Memᴰ (Permᴰ.symm (sorts.permutes kv_cmp ps)) m))

      same : qsort kv_cmp xs ≡ qsort kv_cmp ys
      same =
          IsStrict-unique KeyBelow (λ x y. compare_bytes_asym x.key y.key) (qsort kv_cmp xs)
            (qsort kv_cmp ys) (strict xs h) (strict ys k) (within xs ys there) (within ys xs back)
