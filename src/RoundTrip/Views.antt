-- ===== src/RoundTrip/Views.antt =====
-- Views of what `append_element` wrote: `reader_next_view`, `struple_view_count` and `struple_view_at` on
-- the encodings of elements, one behind the other.
use struple.Prelude.{
  ℕ, zero, suc, ◌+◌, ◌<◌, ◌≡◌, refl, ap, ◌∙◌, arith, List, [], ◌∷◌, ◌++◌, length, take-append,
  drop-append, All, Option, none, some, get_elem?,
}
use struple.Framing.Escape.{NotEscape}
use struple.Reader.{Element, Reader, reader_at, reader_init}
use struple.Reader.Next.{Outcome, at_end, item}
use struple.View.{reader_next_view, reader_skip, count_loop, view_count, at_loop, view_at}
use struple.View.Span.{element_span}
use struple.View.Agreement.{element_span-reader_next}
use struple.RoundTrip.Elements.{IsCanonical, encoding, append_element-reader_next}
use struple.RoundTrip.Streams.{encodings, encodings-NotEscape, length-encodings}

-- The span of an encoding is its length.
pub element_span-encoding :
    (e : Element) (rest : List ℕ)
    → IsCanonical e
    → NotEscape rest
    → element_span (encoding e ++ rest) ≡ item (length (encoding e))
element_span-encoding e rest c h =
    let (n, span, moved, fits) =
      element_span-reader_next (reader_at 0 (encoding e ++ rest)) e
        (reader_at (0 + length (encoding e)) rest) (append_element-reader_next e c 0 rest h) in
    let same : 0 + length (encoding e) ≡ 0 + n = ap (λ (r : Reader). r.pos) moved in
    span ∙ ap item (omega arith)

pub reader_next_view-encoding :
    (e : Element) (at : ℕ) (rest : List ℕ)
    → IsCanonical e
    → NotEscape rest
    → reader_next_view (reader_at at (encoding e ++ rest))
      ≡ (item (encoding e), reader_at (at + length (encoding e)) rest)
unfolding reader_next_view
reader_next_view-encoding e at rest c h =
    rw
      (
        element_span-encoding e rest c h,
        take-append (encoding e) rest,
        drop-append (encoding e) rest,
      )
      refl

count_loop-item :
    (f : ℕ) (r r' : Reader) (n : ℕ) (v : List ℕ)
    → reader_next_view r ≡ (item v, r')
    → count_loop (suc f) r n ≡ count_loop f r' (n + 1)
unfolding count_loop reader_skip
count_loop-item f r r' n v h =
    rw
      (
        count_loop,
        ap (λ (p : Outcome (List ℕ) × Reader). p.0) h,
        ap (λ (p : Outcome (List ℕ) × Reader). p.1) h,
      )
      refl

at_loop-item :
    (i : ℕ) (r r' : Reader) (v : List ℕ)
    → reader_next_view r ≡ (item v, r')
    → at_loop (suc i) r ≡ at_loop i r'
unfolding at_loop
at_loop-item i r r' v h =
    rw
      (
        at_loop,
        ap (λ (p : Outcome (List ℕ) × Reader). p.0) h,
        ap (λ (p : Outcome (List ℕ) × Reader). p.1) h,
      )
      refl

-- The first element of a stream
stream_head :
    (e : Element) (es : List Element) (at : ℕ)
    → All IsCanonical (e ∷ es)
    → reader_next_view (reader_at at (encoding e ++ encodings es))
      ≡ (item (encoding e), reader_at (at + length (encoding e)) (encodings es))
stream_head e es at (ce, c) =
    reader_next_view-encoding e at (encodings es) ce (encodings-NotEscape es c)

count_loop-encodings :
    (es : List Element) (f at n : ℕ)
    → All IsCanonical es
    → length es < f
    → count_loop f (reader_at at (encodings es)) n ≡ some (n + length es)
unfolding encodings
count_loop-encodings es zero at n c h = absurd (omega arith)
count_loop-encodings [] (suc f) at n c h =
    unfold count_loop reader_skip reader_next_view element_span in ap some (omega arith)
count_loop-encodings (e ∷ es) (suc f) at n c h =
    count_loop-item f (reader_at at (encoding e ++ encodings es)) _ n (encoding e)
      (stream_head e es at c)
    ∙ count_loop-encodings es f (at + length (encoding e)) (n + 1) c.1 (omega arith)
    ∙ ap some (omega arith)

-- In the encodings of elements that are all IsCanonical, one behind the other, view_count counts the
-- elements.
pub view_count-encodings :
    (es : List Element) → All IsCanonical es → view_count (encodings es) ≡ some (length es)
unfolding view_count reader_init
view_count-encodings es c =
    count_loop-encodings es (suc (length (encodings es))) 0 0 c
      (omega (arith, length-encodings es c))
    ∙ ap some (omega arith)

-- What an index finds in a stream: the encoding of the element there, or the end.
abbrev pub encoding_at : Option Element → Outcome (List ℕ)
encoding_at none = at_end
encoding_at (some e) = item (encoding e)

at_loop-encodings :
    (es : List Element) (i at : ℕ)
    → All IsCanonical es
    → at_loop i (reader_at at (encodings es)) ≡ encoding_at (get_elem? es i)
unfolding encodings
at_loop-encodings [] zero at c = unfold at_loop reader_next_view element_span in refl
at_loop-encodings [] (suc i) at c = unfold at_loop reader_next_view element_span in refl
at_loop-encodings (e ∷ es) zero at c =
    unfold at_loop in ap (λ (p : Outcome (List ℕ) × Reader). p.0) (stream_head e es at c)
at_loop-encodings (e ∷ es) (suc i) at c =
    at_loop-item i (reader_at at (encoding e ++ encodings es)) _ (encoding e)
      (stream_head e es at c)
    ∙ at_loop-encodings es i (at + length (encoding e)) c.1

-- In the encodings of elements that are all IsCanonical, one behind the other, view_at with an index
-- below their number presents the encoding of the element at that index, and with any other index the
-- end.
pub view_at-encodings :
    (es : List Element) (i : ℕ)
    → All IsCanonical es
    → view_at (encodings es) i ≡ encoding_at (get_elem? es i)
unfolding view_at reader_init
view_at-encodings es i c = at_loop-encodings es i 0 c
