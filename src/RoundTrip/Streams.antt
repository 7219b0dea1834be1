-- ===== src/RoundTrip/Streams.antt =====
-- Streams of elements: `struple_transcode` over what `append_element` wrote, element after element.
use struple.Prelude.{
  ℕ, zero, suc, ◌+◌, ◌≤◌, ◌<◌, ◌≡◌, refl, sym, ap, ◌∙◌, arith, List, [], ◌∷◌, ◌++◌, length,
  length-append, append_assoc, append-nil, All, true,
}
use struple.Writer.{Writer}
use struple.Framing.Escape.{NotEscape}
use struple.Reader.{Element, Reader, reader_at, reader_init}
use struple.Reader.Next.{
  Outcome, item, reader_next, read_payload, append_element, transcode_loop, transcode,
}
use struple.RoundTrip.Elements.{
  IsCanonical, encoding, append_element-reader_next, append_element-Appends,
}

-- The encodings of the elements, one behind the other
unfoldable pub encodings : List Element → List ℕ
encodings [] = []
encodings (e ∷ es) = encoding e ++ encodings es

-- What the reader presents of an encoding alone.
alone :
    (e : Element) (p : List ℕ)
    → IsCanonical e
    → encoding e ≡ p
    → (reader_next (reader_at 0 p)).0 ≡ item e
alone e p c same = rw (append-nil, same) at (ap (λ r. r.0) (append_element-reader_next e c 0 [] tt))

-- An encoding is not empty and does not begin with 0xff: the reader would not present an element.
pub encoding_head :
    (e : Element) (p : List ℕ)
    → IsCanonical e
    → encoding e ≡ p
    → (1 ≤ length p) × ((rest : List ℕ) → NotEscape (p ++ rest))
unfolding reader_next read_payload
encoding_head e [] c same = absurd (cc (alone e [] c same))
encoding_head e (b ∷ bs) c same =
    (omega arith, λ rest escape. cc (rw escape at (alone e (b ∷ bs) c same)))

pub encodings-NotEscape : (es : List Element) → All IsCanonical es → NotEscape (encodings es)
unfolding encodings
encodings-NotEscape [] c = tt
encodings-NotEscape (e ∷ es) (ce, c) = (encoding_head e (encoding e) ce refl).1 (encodings es)

pub length-encodings : (es : List Element) → All IsCanonical es → length es ≤ length (encodings es)
unfolding encodings
length-encodings [] c = omega arith
length-encodings (e ∷ es) (ce, c) = omega (
  arith,
  (encoding_head e (encoding e) ce refl).0,
  length-append (encoding e) (encodings es),
  length-encodings es c,
)

transcode_loop-item :
    (f : ℕ) (r r' : Reader) (w : Writer) (e : Element)
    → reader_next r ≡ (item e, r')
    → transcode_loop (suc f) r w ≡ transcode_loop f r' (append_element w e)
unfolding transcode_loop
transcode_loop-item f r r' w e h =
    rw
      (
        transcode_loop,
        ap (λ (p : Outcome Element × Reader). p.0) h,
        ap (λ (p : Outcome Element × Reader). p.1) h,
      )
      refl

transcode_loop-encodings :
    (es : List Element) (f at : ℕ) (w : Writer)
    → All IsCanonical es
    → length es < f
    → ((transcode_loop f (reader_at at (encodings es)) w).0 ≡ true)
      × ((transcode_loop f (reader_at at (encodings es)) w).1.bytes ≡ w.bytes ++ encodings es)
unfolding encodings
transcode_loop-encodings es zero at w c h = absurd (omega arith)
transcode_loop-encodings [] (suc f) at w c h =
    unfold transcode_loop reader_next in (refl, sym (append-nil w.bytes))
transcode_loop-encodings (e ∷ es) (suc f) at w (ce, c) h =
    let (done, same) =
      transcode_loop-encodings es f (at + length (encoding e)) (append_element w e) c
        (omega arith) in
    rw
      (transcode_loop-item f (reader_at at (encoding e ++ encodings es))
        (reader_at (at + length (encoding e)) (encodings es)) w e
        (append_element-reader_next e ce at (encodings es) (encodings-NotEscape es c)))
      (
        done,
        same
            ∙ rw ((append_element-Appends e ce).at w)
                (append_assoc w.bytes (encoding e) (encodings es)),
      )

-- For a list of elements that are all IsCanonical, transcode of their encodings, one behind the other,
-- ends with success and adds exactly the same bytes to the writer.
pub transcode-encodings :
    (es : List Element) (w : Writer)
    → All IsCanonical es
    → ((transcode (encodings es) w).0 ≡ true)
      × ((transcode (encodings es) w).1.bytes ≡ w.bytes ++ encodings es)
unfolding transcode reader_init
transcode-encodings es w c =
    transcode_loop-encodings es (suc (length (encodings es))) 0 w c
      (omega (arith, length-encodings es c))
