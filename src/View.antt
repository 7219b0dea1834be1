-- ===== src/View.antt =====
-- Navigation in c/struple.c: spans of elements without decoding, the reader's cursor, and views. A view
-- is the list of its bytes.
pub mod Span
pub mod Types
pub mod Split
pub mod Agreement
use struple.Prelude.{
  ℕ, zero, suc, ◌+◌, Bool, Option, none, some, List, [], ◌∷◌, length, take, drop, ◌==◌,
  if◌then◌else◌,
}
use struple.Writer.{Writer, writer_append}
use struple.Reader.{Element, array, map, set, Reader, reader_init, advance}
use struple.Reader.Next.{Outcome, at_end, item, malformed, reader_next}
use Span.{element_span}

unfoldable pub reader_peek_type : Reader → Option ℕ
reader_peek_type r = elim r.rest [ [] ↦ none | t ∷ ts ↦ some t ]

unfoldable pub reader_rest : Reader → List ℕ
reader_rest r = r.rest

abbrev pub view_of : Reader → Outcome ℕ → Outcome (List ℕ) × Reader
view_of r at_end = (at_end, r)
view_of r malformed = (malformed, r)
view_of r (item span) = (item (take span r.rest), advance span r)

-- The raw bytes of the next element. The position moves only on success.
unfoldable pub reader_next_view : Reader → Outcome (List ℕ) × Reader
reader_next_view r = view_of r (element_span r.rest)

unfoldable pub reader_skip : Reader → Outcome (List ℕ) × Reader
reader_skip r = reader_next_view r

-- Each round takes a byte at least, so the length is enough fuel for the loops below; `none` is -1.
unfoldable pub count_loop : ℕ → Reader → ℕ → Option ℕ
count_loop zero r n = none
count_loop (suc f) r n =
    let (o, r') = reader_skip r in
    elim o [ at_end ↦ some n | malformed ↦ none | item v ↦ count_loop f r' (n + 1) ]

unfoldable pub view_count : List ℕ → Option ℕ
view_count v = count_loop (suc (length v)) (reader_init v) 0

-- The loop of `struple_view_at`, over the elements left until the index.
unfoldable pub at_loop : ℕ → Reader → Outcome (List ℕ)
at_loop zero r = (reader_next_view r).0
at_loop (suc i) r =
    let (o, r') = reader_next_view r in
    elim o [ at_end ↦ at_end | malformed ↦ malformed | item v ↦ at_loop i r' ]

unfoldable pub view_at : List ℕ → ℕ → Outcome (List ℕ)
view_at v index = at_loop index (reader_init v)

unfoldable pub view_head : List ℕ → Outcome (List ℕ)
view_head v = view_at v 0

unfoldable pub view_tail : List ℕ → List ℕ
view_tail v = (reader_next_view (reader_init v)).1.rest

-- `for (i = 0; i < n; i++) if (skip != 1) break;`
unfoldable pub skip_loop : ℕ → Reader → Reader
skip_loop zero r = r
skip_loop (suc n) r =
    let (o, r') = reader_skip r in elim o [ at_end ↦ r' | malformed ↦ r' | item v ↦ skip_loop n r' ]

unfoldable pub view_nth_rest : List ℕ → ℕ → List ℕ
view_nth_rest v n = (skip_loop n (reader_init v)).rest

unfoldable pub view_take : List ℕ → ℕ → List ℕ
view_take v n = take (skip_loop n (reader_init v)).pos v

abbrev inner_of : Writer → Outcome Element → Outcome (Unit {0}) × Writer
inner_of out at_end = (at_end, out)
inner_of out malformed = (malformed, out)
inner_of out (item (array c)) = (item tt, writer_append out c)
inner_of out (item (map c)) = (item tt, writer_append out c)
inner_of out (item (set c)) = (item tt, writer_append out c)
inner_of out (item _) = (at_end, out)

-- `at_end` is the result 0, which is also that of an element which is no container.
unfoldable pub view_contained_items : List ℕ → Writer → Outcome (Unit {0}) × Writer
view_contained_items v out = inner_of out (reader_next (reader_init v)).0
