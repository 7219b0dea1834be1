-- ===== src/RoundTrip/Framed.antt =====
-- Strings, byte strings and containers: `reader_next` behind `write_framed`.
use struple.Prelude.{
  ℕ, ◌+◌, ◌≡◌, ap, arith, List, [], ◌∷◌, ◌++◌, length, length-append, append_assoc, true,
}
use struple.Codes.{terminator}
use struple.Writer.{writer_init}
use struple.Framing.{write_framed}
use struple.Framing.Escape.{
  escaped, bytes-write_framed, scan_framed-escaped, unescape-escaped, NotEscape,
}
use struple.Reader.{reader_at}
use struple.Reader.Next.{item, reader_next, take_framed, read_framed, framed_kind, is_framed}
use struple.Reader.Next.Dispatch.{read_payload-framed}

pub write_framed-reader_next :
    (t : ℕ) (content : List ℕ)
    → is_framed t ≡ true
    → (at : ℕ) (rest : List ℕ) → NotEscape rest
    → reader_next (reader_at at ((write_framed writer_init t content).bytes ++ rest)) ≡ (
      item (framed_kind t content),
      reader_at (at + length (write_framed writer_init t content).bytes) rest,
    )
unfolding reader_next read_framed take_framed
write_framed-reader_next t content framed at rest h =
    let body = escaped content in
    let size : length (body ++ terminator ∷ []) ≡ length body + 1 =
      omega (arith, length-append body (terminator ∷ [])) in
    rw
      (
        bytes-write_framed writer_init t content,
        append_assoc body (terminator ∷ []) rest,
        size,
        read_payload-framed t framed,
        scan_framed-escaped content rest h,
        unescape-escaped content,
      )
      (ap (λ (k : ℕ). (item (framed_kind t content), reader_at k rest)) (omega arith))
