-- ===== src/View/Agreement.antt =====
-- `element_span` against `reader_next`: where the reader presents an element, it has moved by the span.
-- The two test the type codes in different orders and read the payloads independently.
pub mod Rules
pub mod Scans
pub mod Payloads
pub mod Decimals
pub mod Dispatch
use struple.Prelude.{
  ℕ, ◌+◌, ◌≤◌, ◌≡◌, refl, sym, ap, ◌∙◌, arith, List, [], ◌∷◌, ◌++◌, length, length-take, take, drop,
  Option, none, some, le→ltb-false, take-append-drop,
}
use struple.Reader.{Element, Reader, reader_at, advance}
use struple.Reader.Next.{
  Outcome, at_end, item, malformed, outcome, next_from, read_payload, reader_next,
}
use struple.View.{view_of, reader_next_view, reader_skip}
use struple.View.Span.{payload_span, element_span, checked}
use Rules.{MovesBy, advance-advance}
use Dispatch.{read_payload-MovesBy}

-- What is shown of an element that is presented from the bytes `bs`.
abbrev Presented : List ℕ → Reader → Outcome Element × Reader → Type 0
Presented bs r (at_end, r') = Unit
Presented bs r (malformed, r') = Unit
Presented bs r (item e, r') =
    (n : ℕ) × (element_span bs ≡ item n) × (r' ≡ advance n r) × (n ≤ length bs)

next_from-Presented :
    (at t : ℕ) (ts : List ℕ) (q : Option Element × Reader)
    → MovesBy (reader_at (at + 1) ts) (payload_span t ts) q
    → Presented (t ∷ ts) (reader_at at (t ∷ ts)) (outcome q)
unfolding element_span
next_from-Presented at t ts (none, r') h = tt
next_from-Presented at t ts (some e, r') (n, span, moved, fits) = (
  1 + n,
  rw (span, le→ltb-false (length (t ∷ ts)) (1 + n) (omega arith)) refl,
  moved ∙ advance-advance 1 n (reader_at at (t ∷ ts)),
  omega arith,
)

reader_next-Presented :
    (at : ℕ) (bs : List ℕ) → Presented bs (reader_at at bs) (reader_next (reader_at at bs))
unfolding reader_next
reader_next-Presented at [] = tt
reader_next-Presented at (t ∷ ts) =
    next_from-Presented at t ts (read_payload t (reader_at (at + 1) ts))
      (read_payload-MovesBy t (reader_at (at + 1) ts))

-- t
pub element_span-reader_next :
    (r : Reader) (e : Element) (r' : Reader)
    → reader_next r ≡ (item e, r')
    → (n : ℕ) × (element_span r.rest ≡ item n) × (r' ≡ advance n r) × (n ≤ length r.rest)
element_span-reader_next r e r' h = rw h at (reader_next-Presented r.pos r.rest)

-- On any bytes, where reader_next presents an element, reader_next_view presents some bytes and leaves
-- the reader in the same state; these bytes and those that are left are the bytes before, and the
-- position has moved by their number.
pub reader_next_view-reader_next :
    (r : Reader) (e : Element) (r' : Reader)
    → reader_next r ≡ (item e, r')
    → (v : List ℕ) × (reader_next_view r ≡ (item v, r'))
      × (v ++ r'.rest ≡ r.rest)
      × (r'.pos ≡ r.pos + length v)
unfolding reader_next_view
reader_next_view-reader_next r e r' h =
    let (n, span, moved, fits) = element_span-reader_next r e r' h in
    (
      take n r.rest,
      rw (span, moved) refl,
      rw moved (take-append-drop n r.rest),
      rw moved (omega (arith, length-take n r.rest)),
    )
