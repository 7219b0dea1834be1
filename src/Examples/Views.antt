-- ===== src/Examples/Views.antt =====
-- Decimals, their order, spans and views of c/struple.c: the theorems at concrete inputs.
use struple.Prelude.{ℕ, ◌+◌, ◌≡◌, refl, arith, List, [], ◌∷◌, ◌++◌, length, All, true, some}
use struple.Prelude.Int.{pos, negsuc}
use struple.Writer.{writer_init}
use struple.Compare.{compare_bytes}
use struple.Semantic.Numbers.{or_else}
use struple.Semantic.Order.{sem_numbers}
use struple.ByteOrder.SemanticDecimals.{append_decimal-sem_numbers}
use struple.ByteOrder.Values.{scaled_digits}
use struple.ByteOrder.Decimals.{signed_order, append_decimal-signed_order}
use struple.Encode.Decimals.{append_decimal}
use struple.Reader.{Element, string, int, decimal, reader_at}
use struple.Reader.Next.{item, reader_next}
use struple.View.{reader_next_view, view_count, view_at}
use struple.View.Agreement.{reader_next_view-reader_next}
use struple.RoundTrip.Decimals.{IsSignificant, append_decimal-ReadsBack}
use struple.RoundTrip.Elements.{IsCanonical, encoding, append_element-reader_next}
use struple.RoundTrip.Streams.{encodings}
use struple.RoundTrip.Views.{view_count-encodings, view_at-encodings}

fifteen-IsSignificant : IsSignificant (1 ∷ 5 ∷ [])
fifteen-IsSignificant = (omega arith, (omega arith, (omega arith, tt)), omega arith)

-- -1.5, the digits 15 with the exponent -1
append_decimal-ReadsBack_example :
    reader_next
      (reader_at 4 ((append_decimal writer_init true (1 ∷ 5 ∷ []) (negsuc 0)).1.bytes ++ 0xff ∷ []))
    ≡ (
      item (decimal true (negsuc 0) (1 ∷ 5 ∷ [])),
      reader_at
          (4 + length (append_decimal writer_init true (1 ∷ 5 ∷ []) (negsuc 0)).1.bytes)
          (0xff ∷ []),
    )
append_decimal-ReadsBack_example =
    append_decimal-ReadsBack true (1 ∷ 5 ∷ []) (negsuc 0) fifteen-IsSignificant refl 4 (0xff ∷ [])

abbrev held : List ℕ
held = encoding (string (104 ∷ 0 ∷ 105 ∷ [])) ++ 0x31 ∷ []

reader_next_view-reader_next_example :
    (v : List ℕ) × (reader_next_view (reader_at 4 held)
      ≡ (item v, reader_at (4 + length (encoding (string (104 ∷ 0 ∷ 105 ∷ [])))) (0x31 ∷ [])))
    × (v ++ 0x31 ∷ [] ≡ held)
    × (4 + length (encoding (string (104 ∷ 0 ∷ 105 ∷ []))) ≡ 4 + length v)
reader_next_view-reader_next_example =
    reader_next_view-reader_next (reader_at 4 held) (string (104 ∷ 0 ∷ 105 ∷ []))
      (reader_at (4 + length (encoding (string (104 ∷ 0 ∷ 105 ∷ [])))) (0x31 ∷ []))
      (append_element-reader_next (string (104 ∷ 0 ∷ 105 ∷ [])) tt 4 (0x31 ∷ []) (omega arith))

-- A string with a zero in it, a decimal and an integer
abbrev mixed : List Element
mixed = string (104 ∷ 0 ∷ 105 ∷ []) ∷ decimal true (negsuc 0) (1 ∷ 5 ∷ []) ∷ int (negsuc 299) ∷ []

mixed-IsCanonical : All IsCanonical mixed
mixed-IsCanonical = (tt, ((fifteen-IsSignificant, refl, refl), (omega arith, tt)))

view_count-encodings_example : view_count (encodings mixed) ≡ some 3
view_count-encodings_example = view_count-encodings mixed mixed-IsCanonical

view_at-encodings_example :
    view_at (encodings mixed) 1 ≡ item (encoding (decimal true (negsuc 0) (1 ∷ 5 ∷ [])))
view_at-encodings_example = view_at-encodings mixed 1 mixed-IsCanonical

-- -1.5 is above -15, and what follows does not matter.
append_decimal-signed_order_example :
    compare_bytes
      ((append_decimal writer_init true (1 ∷ 5 ∷ []) (negsuc 0)).1.bytes ++ 0x01 ∷ [])
      ((append_decimal writer_init true (1 ∷ 5 ∷ []) (pos 0)).1.bytes ++ [])
    ≡ or_else
        (signed_order true (scaled_digits (1 ∷ 5 ∷ []) 0) true (scaled_digits (1 ∷ 5 ∷ []) 1))
        (compare_bytes (0x01 ∷ []) [])
append_decimal-signed_order_example =
    append_decimal-signed_order true true (1 ∷ 5 ∷ []) (1 ∷ 5 ∷ []) (negsuc 0) (pos 0) 0 1
      (0x01 ∷ []) [] fifteen-IsSignificant fifteen-IsSignificant refl refl refl

append_decimal-sem_numbers_example :
    compare_bytes
      ((append_decimal writer_init true (1 ∷ 5 ∷ []) (negsuc 0)).1.bytes ++ 0x01 ∷ [])
      ((append_decimal writer_init true (1 ∷ 5 ∷ []) (pos 0)).1.bytes ++ [])
    ≡ or_else
        (sem_numbers (decimal true (negsuc 0) (1 ∷ 5 ∷ [])) (decimal true (pos 0) (1 ∷ 5 ∷ [])))
        (compare_bytes (0x01 ∷ []) [])
append_decimal-sem_numbers_example =
    append_decimal-sem_numbers true true (1 ∷ 5 ∷ []) (1 ∷ 5 ∷ []) (negsuc 0) (pos 0) (0x01 ∷ []) []
      fifteen-IsSignificant fifteen-IsSignificant refl refl
