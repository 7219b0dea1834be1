-- ===== src/Encode/Containers.antt =====
-- Strings, byte strings and containers. A map or a set is sorted by qsort, which is a parameter.
use struple.Prelude.{ℕ, Ordering, List, [], ◌∷◌}
use struple.Codes.{string_code, bytes_code, array_code, map_code, set_code, terminator}
use struple.Writer.{Writer, sw_push}
use struple.Framing.{write_escaped, write_framed}
use struple.Compare.{cmp_bytes}

unfoldable pub append_string : Writer → List ℕ → Writer
append_string w s = write_framed w string_code s

unfoldable pub append_bytes : Writer → List ℕ → Writer
append_bytes w b = write_framed w bytes_code b

unfoldable pub append_array : Writer → List ℕ → Writer
append_array w child = write_framed w array_code child

-- struple_kv
pub record Entry : Type 0 where
  pub key : List ℕ
  pub value : List ℕ

unfoldable pub kv_cmp : Entry → Entry → Ordering
kv_cmp x y = cmp_bytes x.key y.key

unfoldable pub write_entries : List Entry → Writer → Writer
write_entries [] w = w
write_entries (e ∷ es) w = write_entries es (write_escaped (write_escaped w e.key) e.value)

-- An element that is equal to the one before it is skipped.
unfoldable pub write_elements : List ℕ → List (List ℕ) → Writer → Writer
write_elements last [] w = w
write_elements last (e ∷ es) w =
    write_elements e es (elim (cmp_bytes last e) [ Ordering.eq ↦ w | _ ↦ write_escaped w e ])

abbrev pub write_distinct : List (List ℕ) → Writer → Writer
write_distinct [] w = w
write_distinct (e ∷ es) w = write_elements e es (write_escaped w e)

module _ (qsort : (Entry → Entry → Ordering) → List Entry → List Entry) where
  unfoldable pub append_map : Writer → List Entry → Writer
  append_map w entries =
      sw_push (write_entries (qsort kv_cmp entries) (sw_push w map_code)) terminator

module _ (qsort : (List ℕ → List ℕ → Ordering) → List (List ℕ) → List (List ℕ)) where
  unfoldable pub append_set : Writer → List (List ℕ) → Writer
  append_set w elems =
      sw_push (write_distinct (qsort cmp_bytes elems) (sw_push w set_code)) terminator
