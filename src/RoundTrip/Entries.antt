-- ===== src/RoundTrip/Entries.antt =====
-- The inner stream of a map, and what `struple_map_next` and `struple_indexed_map_init` read from it.
use struple.Prelude.{
  ℕ, zero, suc, ◌+◌, ◌≤◌, ◌<◌, ◌≡◌, refl, sym, ap, ◌∙◌, arith, List, [], ◌∷◌, ◌++◌, length,
  length-append, append_assoc, append-nil, All, some,
}
use struple.Framing.Escape.{NotEscape}
use struple.Encode.Containers.{Entry}
use struple.Encode.Canonical.{inner_bytes}
use struple.Reader.{Element, Reader, reader_at, reader_init}
use struple.Reader.Next.{Outcome, item}
use struple.View.{reader_next_view}
use struple.View.Span.{element_span}
use struple.MapView.{map_next}
use struple.IndexedMap.{index_loop, indexed_map_init}
use struple.RoundTrip.Elements.{IsCanonical, encoding}
use struple.RoundTrip.Streams.{encoding_head}
use struple.RoundTrip.Views.{reader_next_view-encoding}

-- Bytes that are the encoding of one element
pub record IsEncoding (p : List ℕ) : Type 0 where
  pub element : Element
  pub canonical : IsCanonical element
  pub encodes : encoding element ≡ p

abbrev pub IsEncoded : Entry → Type 0
IsEncoded e = IsEncoding e.key × IsEncoding e.value

IsEncoding-NotEscape : (p rest : List ℕ) → IsEncoding p → NotEscape (p ++ rest)
IsEncoding-NotEscape p rest h = (encoding_head h.element p h.canonical h.encodes).1 rest

IsEncoding-NotEmpty : (p : List ℕ) → IsEncoding p → 1 ≤ length p
IsEncoding-NotEmpty p h = (encoding_head h.element p h.canonical h.encodes).0

inner_bytes-NotEscape : (es : List Entry) → All IsEncoded es → NotEscape (inner_bytes es)
unfolding inner_bytes
inner_bytes-NotEscape [] c = tt
inner_bytes-NotEscape (e ∷ es) (ce, c) = IsEncoding-NotEscape e.key (e.value ++ inner_bytes es) ce.0

next_view :
    (p : List ℕ) (at : ℕ) (rest : List ℕ)
    → IsEncoding p
    → NotEscape rest
    → reader_next_view (reader_at at (p ++ rest)) ≡ (item p, reader_at (at + length p) rest)
next_view p at rest h escape =
    rw h.encodes at (reader_next_view-encoding h.element at rest h.canonical escape)

map_next-inner_bytes :
    (e : Entry) (es : List Entry) (at : ℕ)
    → All IsEncoded (e ∷ es)
    → map_next (reader_at at (inner_bytes (e ∷ es)))
      ≡ (item e, reader_at (at + length e.key + length e.value) (inner_bytes es))
unfolding map_next inner_bytes
map_next-inner_bytes e es at (ce, c) =
    rw
      (
        next_view e.key at (e.value ++ inner_bytes es) ce.0
            (IsEncoding-NotEscape e.value (inner_bytes es) ce.1),
        next_view e.value (at + length e.key) (inner_bytes es) ce.1 (inner_bytes-NotEscape es c),
      )
      refl

index_loop-item :
    (f : ℕ) (r r' : Reader) (acc : List Entry) (e : Entry)
    → map_next r ≡ (item e, r')
    → index_loop (suc f) r acc ≡ index_loop f r' (acc ++ (e ∷ []))
unfolding index_loop
index_loop-item f r r' acc e h =
    rw
      (
        index_loop,
        ap (λ (p : Outcome Entry × Reader). p.0) h,
        ap (λ (p : Outcome Entry × Reader). p.1) h,
      )
      refl

index_loop-inner_bytes :
    (es acc : List Entry) (f at : ℕ)
    → All IsEncoded es
    → length es < f
    → index_loop f (reader_at at (inner_bytes es)) acc ≡ some (acc ++ es)
unfolding inner_bytes
index_loop-inner_bytes es acc zero at c h = absurd (omega arith)
index_loop-inner_bytes [] acc (suc f) at c h =
    unfold index_loop map_next reader_next_view element_span in ap some (sym (append-nil acc))
index_loop-inner_bytes (e ∷ es) acc (suc f) at c h =
    index_loop-item f (reader_at at (inner_bytes (e ∷ es))) _ acc e (map_next-inner_bytes e es at c)
    ∙ index_loop-inner_bytes es (acc ++ (e ∷ [])) f (at + length e.key + length e.value) c.1
        (omega arith)
    ∙ ap some (append_assoc acc (e ∷ []) es)

length-inner_bytes : (es : List Entry) → All IsEncoded es → length es ≤ length (inner_bytes es)
unfolding inner_bytes
length-inner_bytes [] c = omega arith
length-inner_bytes (e ∷ es) (ce, c) = omega (
  arith,
  IsEncoding-NotEmpty e.key ce.0,
  length-append e.key (e.value ++ inner_bytes es),
  length-append e.value (inner_bytes es),
  length-inner_bytes es c,
)

-- t
pub indexed_map_init-inner_bytes :
    (es : List Entry) → All IsEncoded es → indexed_map_init (inner_bytes es) ≡ some es
unfolding indexed_map_init reader_init
indexed_map_init-inner_bytes es c =
    index_loop-inner_bytes es [] (suc (length (inner_bytes es))) 0 c
      (omega (arith, length-inner_bytes es c))
