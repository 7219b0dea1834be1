-- ===== src/RoundTrip/Elements.antt =====
-- Elements and streams of elements: `append_element` and `reader_next`, and the transcoder.
use struple.Prelude.{ℕ, ◌+◌, ◌<◌, ◌^◌, ◌≡◌, refl, ap, false, List, [], ◌∷◌, ◌++◌, length}
use struple.Prelude.Int.{ℤ, pos}
use struple.Codes.{u64_mod, string_code, bytes_code, array_code, map_code, set_code}
use struple.Bytes.BigEndian.{IsNormal}
use struple.Writer.{writer_init}
use struple.Writer.Appends.{Appends, Appends-sw_push}
use struple.Framing.Escape.{NotEscape}
use struple.Encode.Scalars.{canonical64, canonical32, append_nil, append_undefined, append_bool}
use struple.Encode.Containers.{append_string, append_bytes}
use struple.Encode.Appending.{
  write_framed-Appends, append_int-Appends, append_big_int-Appends, append_f64-Appends,
  append_f32-Appends, append_timestamp-Appends, append_uuid-Appends, append_decimal-Appends,
}
use struple.Reader.{
  Element, nil, undef, bool, int, bigint, f32, f64, decimal, timestamp, uuid, string, bytes, array,
  map, set, reader_at,
}
use struple.Reader.Next.{item, reader_next, append_element, as_i32}
use struple.Reader.Next.Fixed.{number}
use struple.RoundTrip.Magnitudes.{IsReadable, IsInt64, append_int-ReadsBack, normal-ReadsBack}
use struple.RoundTrip.Decimals.{IsSignificant, adjusted, append_decimal-ReadsBack, zero-ReadsBack}
use struple.Encode.Decimals.{beyond_int32, append_decimal}
use struple.RoundTrip.Framed.{write_framed-reader_next}
use struple.RoundTrip.Scalars.{
  canonical64-ReadsBack, append_f32-ReadsBack, append_timestamp-ReadsBack, append_uuid-ReadsBack,
  append_nil-ReadsBack, append_undefined-ReadsBack, append_bool-ReadsBack,
}

-- The elements that the reader can present, the lost negative powers left aside, and decimals whose
-- exponent is no int32_t.
abbrev pub IsCanonical : Element → Type 0
IsCanonical nil = Unit
IsCanonical undef = Unit
IsCanonical (bool v) = Unit
IsCanonical (int v) = IsInt64 v
IsCanonical (bigint negative mag) =
    IsNormal mag
    × (length mag < u64_mod)
    × IsReadable negative mag
    × (number negative mag ≡ bigint negative mag)
IsCanonical (f32 v) = (v < 2 ^ 32) × (canonical32 v ≡ v)
IsCanonical (f64 v) = (v < u64_mod) × (canonical64 v ≡ v)
IsCanonical (decimal negative exp []) = (negative ≡ false) × (exp ≡ pos 0)
IsCanonical (decimal negative exp (d ∷ ds)) =
    IsSignificant (d ∷ ds) × (beyond_int32 (adjusted (d ∷ ds) exp) ≡ false) × (as_i32 exp ≡ exp)
IsCanonical (timestamp v) = IsInt64 v
IsCanonical (uuid u) = length u ≡ 16
IsCanonical _ = Unit

-- The encoding of one element
abbrev pub encoding : Element → List ℕ
encoding e = (append_element writer_init e).bytes

-- An element that IsCanonical, and then bytes that do not begin with 0xff, is read back by reader_next
-- as itself, with the position directly behind its encoding. IsCanonical leaves out the lost negative
-- powers, zero-digit decimals other than plain zero, and decimals whose exponent is no int32_t; it
-- asks of a decimal's digits that they have no zero at either end, and of floats the one NaN and the
-- one zero.
pub append_element-reader_next :
    (e : Element)
    → IsCanonical e
    → (at : ℕ) (rest : List ℕ) → NotEscape rest
    → reader_next (reader_at at (encoding e ++ rest))
      ≡ (item e, reader_at (at + length (encoding e)) rest)
unfolding append_element append_string append_bytes
append_element-reader_next nil c at rest h = append_nil-ReadsBack at rest
append_element-reader_next undef c at rest h = append_undefined-ReadsBack at rest
append_element-reader_next (bool v) c at rest h = append_bool-ReadsBack v at rest
append_element-reader_next (int v) c at rest h = append_int-ReadsBack v c at rest
append_element-reader_next (bigint negative mag) c at rest h =
    rw c.3 at (normal-ReadsBack negative mag c.0 c.1 c.2 at rest)
append_element-reader_next (f32 v) c at rest h = rw c.1 at (append_f32-ReadsBack v c.0 at rest)
append_element-reader_next (f64 v) c at rest h = rw c.1 at (canonical64-ReadsBack v c.0 at rest)
append_element-reader_next (decimal negative exp []) (sign, scale) at rest h =
    rw (sign, scale) (zero-ReadsBack at rest)
append_element-reader_next (decimal negative exp (d ∷ ds)) c at rest h =
    rw (← ap (λ (x : ℤ). (append_decimal writer_init negative (d ∷ ds) x).1.bytes) c.2) at
      (append_decimal-ReadsBack negative (d ∷ ds) exp c.0 c.1 at rest)
append_element-reader_next (timestamp v) c at rest h = append_timestamp-ReadsBack v c at rest
append_element-reader_next (uuid u) c at rest h = append_uuid-ReadsBack u c at rest
append_element-reader_next (string s) c at rest h =
    write_framed-reader_next string_code s refl at rest h
append_element-reader_next (bytes b) c at rest h =
    write_framed-reader_next bytes_code b refl at rest h
append_element-reader_next (array b) c at rest h =
    write_framed-reader_next array_code b refl at rest h
append_element-reader_next (map b) c at rest h = write_framed-reader_next map_code b refl at rest h
append_element-reader_next (set b) c at rest h = write_framed-reader_next set_code b refl at rest h

pub append_element-Appends : (e : Element) → IsCanonical e → Appends (λ w. append_element w e)
unfolding append_element append_string append_bytes append_nil append_undefined append_bool
append_element-Appends nil c = Appends-sw_push _
append_element-Appends undef c = Appends-sw_push _
append_element-Appends (bool v) c = Appends-sw_push _
append_element-Appends (int v) c = append_int-Appends v
append_element-Appends (bigint negative mag) c = append_big_int-Appends negative mag
append_element-Appends (f32 v) c = append_f32-Appends v
append_element-Appends (f64 v) c = append_f64-Appends v
append_element-Appends (decimal negative exp digits) c =
    append_decimal-Appends negative digits (as_i32 exp)
append_element-Appends (timestamp v) c = append_timestamp-Appends v
append_element-Appends (uuid u) c = append_uuid-Appends u
append_element-Appends (string s) c = write_framed-Appends string_code s
append_element-Appends (bytes b) c = write_framed-Appends bytes_code b
append_element-Appends (array b) c = write_framed-Appends array_code b
append_element-Appends (map b) c = write_framed-Appends map_code b
append_element-Appends (set b) c = write_framed-Appends set_code b
