-- ===== src/Examples.antt =====
-- Runs of the model of c/struple.c, and the theorems at concrete inputs.
mod Sort
mod Views
mod Maps
mod Orders
mod Meaning
mod JsonText
mod Ordered
use struple.Prelude.{
  ℕ, ◌+◌, ◌^◌, ◌<◌, ◌≤◌, ◌≡◌, refl, arith, List, [], ◌∷◌, ◌++◌, length, true, false, some,
  if◌then◌else◌, leb, zero,
}
use struple.Prelude.Int.{pos, negsuc}
use struple.Codes.{u64_mod, terminator, int64_max}
use struple.Bytes.{u64_to_be}
use struple.Bytes.BigEndian.{IsNormal, be_value, be_from, power_mono}
use struple.Writer.{Writer, writer_init, sw_reserve, sw_append}
use struple.Writer.Growth.{IsValid, sw_reserve_room, sw_append-IsValid}
use struple.Framing.{scan_framed}
use struple.Framing.Escape.{escaped, scan_framed-escaped}
use struple.Encode.Ints.{fits_fixed, append_big_int, append_int, append_uint, strip_zeros}
use struple.Encode.Ints.Range.{InFixedRange, fits_fixed_lem}
use struple.Encode.Scalars.{
  canonical64, canonical32, append_f64, append_f32, append_timestamp, append_uuid,
}
use struple.Reader.{int, bigint, f64, f32, timestamp, uuid, reader_at, Element, string}
use struple.Reader.Next.{item, reader_next, transcode}
use struple.RoundTrip.Magnitudes.{
  IsReadable, presented, append_big_int-ReadsBack, append_int-ReadsBack, append_uint-ReadsBack,
  negative_power_lost,
}
use struple.RoundTrip.Scalars.{
  one_nan_one_zero, append_f64-ReadsBack, append_f32-ReadsBack, append_timestamp-ReadsBack,
  append_uuid-ReadsBack,
}
use struple.RoundTrip.Elements.{IsCanonical, encoding, append_element-reader_next}
use struple.RoundTrip.Streams.{encodings, transcode-encodings}

-- 2 ^ 64 + 1, a magnitude beyond int64_t
abbrev nine_bytes : List ℕ
nine_bytes = 1 ∷ 0 ∷ 0 ∷ 0 ∷ 0 ∷ 0 ∷ 0 ∷ 0 ∷ 1 ∷ []

-- 2 ^ 72, whose negation is one of the numbers that the reader loses
abbrev lost : List ℕ
lost = 1 ∷ 0 ∷ 0 ∷ 0 ∷ 0 ∷ 0 ∷ 0 ∷ 0 ∷ 0 ∷ 0 ∷ []

nine_bytes_value : be_value nine_bytes ≡ 2 ^ 64 + 1
unfolding be_from
nine_bytes_value = refl

lost_value : be_value lost ≡ 256 ^ 9
unfolding be_from
lost_value = refl

nine_bytes-IsNormal : IsNormal nine_bytes
nine_bytes-IsNormal = ground arith

lost-IsNormal : IsNormal lost
lost-IsNormal = ground arith

nine_bytes-IsReadable : IsReadable true nine_bytes
nine_bytes-IsReadable n s lo hi e = omega (arith, e, nine_bytes_value, power_mono 9 n lo)

nine_bytes-IsCanonical : IsCanonical (bigint true nine_bytes)
nine_bytes-IsCanonical =
    (nine_bytes-IsNormal, omega arith, nine_bytes-IsReadable, rw nine_bytes_value refl)

append_element-reader_next_example :
    reader_next (reader_at 4 (encoding (bigint true nine_bytes) ++ 0x31 ∷ [])) ≡ (
      item (bigint true nine_bytes),
      reader_at (4 + length (encoding (bigint true nine_bytes))) (0x31 ∷ []),
    )
append_element-reader_next_example =
    append_element-reader_next (bigint true nine_bytes) nine_bytes-IsCanonical 4 (0x31 ∷ [])
      (omega arith)

negative_power_lost_example :
    reader_next (reader_at 0 ((append_big_int writer_init true lost).bytes ++ [])) ≡ (
      item (bigint true (0 ∷ [])),
      reader_at (0 + length (append_big_int writer_init true lost).bytes) [],
    )
negative_power_lost_example =
    negative_power_lost lost 9 lost-IsNormal (omega arith) (omega arith) lost_value 0 []

append_big_int-ReadsBack_example :
    reader_next (reader_at 0 ((append_big_int writer_init true (0 ∷ nine_bytes)).bytes ++ 7 ∷ []))
    ≡ (
      item (presented true (strip_zeros (0 ∷ nine_bytes))),
      reader_at (0 + length (append_big_int writer_init true (0 ∷ nine_bytes)).bytes) (7 ∷ []),
    )
unfolding be_from
append_big_int-ReadsBack_example =
    append_big_int-ReadsBack true (0 ∷ nine_bytes) (omega arith) (omega arith) nine_bytes-IsReadable
      0 (7 ∷ [])

append_uint-ReadsBack_example :
    reader_next (reader_at 0 ((append_uint writer_init (2 ^ 63)).bytes ++ [])) ≡ (
      item (
          if leb (2 ^ 63) int64_max then int (pos (2 ^ 63)) else bigint false (u64_to_be (2 ^ 63))),
      reader_at (0 + length (append_uint writer_init (2 ^ 63)).bytes) [],
    )
append_uint-ReadsBack_example = append_uint-ReadsBack (2 ^ 63) (omega arith) (omega arith) 0 []

-- -1.0
abbrev minus_one : ℕ
minus_one = 0xbff0000000000000

append_f64-ReadsBack_example :
    reader_next (reader_at 0 ((append_f64 writer_init minus_one).bytes ++ [])) ≡ (
      item (f64 (one_nan_one_zero minus_one)),
      reader_at (0 + length (append_f64 writer_init minus_one).bytes) [],
    )
append_f64-ReadsBack_example = append_f64-ReadsBack minus_one (omega arith) 0 []

fits_fixed_lem_example :
    (fits_fixed true nine_bytes ≡ true → InFixedRange true (be_value nine_bytes))
    × (InFixedRange true (be_value nine_bytes) → fits_fixed true nine_bytes ≡ true)
fits_fixed_lem_example = fits_fixed_lem true nine_bytes nine_bytes-IsNormal

-- A full buffer of three bytes
abbrev full_writer : Writer
full_writer = record { bytes = 1 ∷ 2 ∷ 3 ∷ []; cap = 3 }

full_writer-IsValid : IsValid full_writer
full_writer-IsValid = record { within = omega arith; small = omega arith }

sw_reserve_room_example :
    (3 + 100 ≤ (sw_reserve full_writer 100).cap)
    × ((sw_reserve full_writer 100).cap < u64_mod)
    × ((sw_reserve full_writer 100).bytes ≡ full_writer.bytes)
sw_reserve_room_example = sw_reserve_room full_writer full_writer-IsValid 100 (omega arith)

sw_append-IsValid_example : IsValid (sw_append full_writer (4 ∷ 5 ∷ []))
sw_append-IsValid_example =
    sw_append-IsValid full_writer (4 ∷ 5 ∷ []) full_writer-IsValid (omega arith)

-- A negative big integer, a string with a zero in it, and a double
abbrev three_elements : List Element
three_elements = bigint true nine_bytes ∷ string (104 ∷ 0 ∷ 105 ∷ []) ∷ f64 minus_one ∷ []

transcode-encodings_example :
    ((transcode (encodings three_elements) full_writer).0 ≡ true)
    × ((transcode (encodings three_elements) full_writer).1.bytes
        ≡ full_writer.bytes ++ encodings three_elements)
unfolding canonical64
transcode-encodings_example =
    transcode-encodings three_elements full_writer
      (nine_bytes-IsCanonical, (tt, ((omega arith, refl), tt)))
