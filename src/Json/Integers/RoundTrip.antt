-- ===== src/Json/Integers/RoundTrip.antt =====
-- `struple_to_json` of an encoded integer, and `struple_from_json` of its text.
use struple.Prelude.{
  ℕ, zero, suc, ◌+◌, ◌/◌, ◌%◌, ◌≡◌, refl, ap, ◌∙◌, arith, List, [], ◌∷◌, ◌++◌, length, All,
  append-nil, Bool, true, false, ◌==◌, if◌then◌else◌, ==_false, Ordering, Bool-cases, inl, inr,
}
use struple.Prelude.Int.{ℤ, pos, negsuc}
use struple.Writer.{Writer, writer_init, writer_append}
use struple.Bytes.BigEndian.{be_value, IsNormal-IsBytes}
use struple.Writer.Contents.{bytes-sw_append}
use struple.Reader.{Element, int, bigint, reader_init, reader_at}
use struple.Reader.Next.{item, reader_next, append_element}
use struple.RoundTrip.Elements.{IsCanonical, encoding, append_element-reader_next}
use struple.Encode.Containers.{Entry}
use struple.Json.Parse.{sign}
use struple.Json.Encode.{encode_json, from_json, encode_int_text}
use struple.Json.Numbers.{jc, text_loop, unsigned_text, signed_text}
use struple.Json.Numbers.Integers.{encode_int_text-signed_text}
use struple.Json.Magnitude.Numerals.{IsDigitChar, IsNumeral, HasNoLeadingZero}
use struple.Json.Magnitude.Values.{magnitude_to_decimal-be_value}
use struple.Json.Magnitude.Encoded.{beyond_limit, minus_back, plain_back}
use struple.Json.Render.{render, to_json}
use struple.Json.Integers.{token, json_parse-token}

-- Digits, at least one
abbrev IsDigits : List ℕ → Type 0
IsDigits [] = ⊥
IsDigits (c ∷ cs) = All IsDigitChar (c ∷ cs)

numeral-IsDigits : (ds : List ℕ) → All IsDigitChar ds → HasNoLeadingZero ds → IsDigits ds
numeral-IsDigits [] h short = absurd short
numeral-IsDigits (c ∷ cs) h short = h

text_loop-IsDigits :
    (f n : ℕ) (behind : List ℕ) → All IsDigitChar behind → IsDigits (text_loop (suc f) n behind)
unfolding text_loop
text_loop-IsDigits zero n behind h = elim (Bool-cases (n / 10 == 0)) [
  | inl e ↦ rw e ((omega arith, omega arith), h)
  | inr e ↦ rw e ((omega arith, omega arith), h)
]
text_loop-IsDigits (suc g) n behind h = elim (Bool-cases (n / 10 == 0)) [
  | inl e ↦ rw e ((omega arith, omega arith), h)
  | inr e ↦
      rw e (text_loop-IsDigits g (n / 10) ((48 + n % 10) ∷ behind) ((omega arith, omega arith), h))
]

sign-digits : (ds : List ℕ) → IsDigits ds → sign ds ≡ ([], ds)
sign-digits [] h = refl
sign-digits (c ∷ cs) h = rw (==_false c 45 (λ e. absurd (omega (arith, e, h.0)))) refl

module _ (qsort : (Entry → Entry → Ordering) → List Entry → List Entry) (strtod : List ℕ → ℕ)
    (w : Writer) where
  from_json-token :
      (negative : Bool) (ds : List ℕ)
      → IsDigits ds
      → from_json qsort strtod (token negative ds) w ≡ (true, encode_int_text w (token negative ds))
  unfolding from_json encode_json
  from_json-token negative [] h = absurd h
  from_json-token negative (c ∷ cs) h = rw (from_json, json_parse-token strtod negative c cs h) refl

  from_json-signed_text :
      (v : ℤ) → from_json qsort strtod (signed_text v) w ≡ (true, encode_int_text w (signed_text v))
  from_json-signed_text (pos n) =
      from_json-token false (unsigned_text n) (text_loop-IsDigits 19 n [] tt)
  from_json-signed_text (negsuc n) =
      from_json-token true (unsigned_text (suc n)) (text_loop-IsDigits 19 (suc n) [] tt)

abbrev pub IsInteger : Element → Type 0
IsInteger (int v) = Unit
IsInteger (bigint negative mag) = Unit
IsInteger _ = ⊥

bytes-writer_append : (w : Writer) (text : List ℕ) → (writer_append w text).bytes ≡ w.bytes ++ text
unfolding writer_append
bytes-writer_append w text = bytes-sw_append w text

bytes-token :
    (negative : Bool) (ds : List ℕ)
    → (writer_append (if negative then jc writer_init 45 else writer_init) ds).bytes
      ≡ token negative ds
bytes-token true ds =
    bytes-writer_append (jc writer_init 45) ds
    ∙ ap (λ (p : List ℕ). p ++ ds) (bytes-writer_append writer_init (45 ∷ []))
bytes-token false ds = bytes-writer_append writer_init ds

reader_next-encoding :
    (e : Element)
    → IsCanonical e
    → reader_next (reader_init (encoding e)) ≡ (item e, reader_at (0 + length (encoding e)) [])
unfolding reader_init
reader_next-encoding e c = rw (append-nil (encoding e)) at (append_element-reader_next e c 0 [] tt)

module _ (qsort : (Entry → Entry → Ordering) → List Entry → List Entry) (strtod : List ℕ → ℕ)
    (format_e : ℕ → ℕ → List ℕ) (w : Writer) where
  abbrev ReadsSame : Element → Bool × Writer → Type 0
  ReadsSame e (done, out) =
      (done ≡ true) × (from_json qsort strtod out.bytes w ≡ (true, append_element w e))

  to_json-render :
      (e : Element)
      → IsCanonical e
      → to_json strtod format_e (encoding e) writer_init
        ≡ render strtod format_e (suc 256) writer_init e
  unfolding to_json
  to_json-render e c = rw (to_json, reader_next-encoding e c) refl

  int-ReadsSame :
      (levels : ℕ) (v : ℤ)
      → IsCanonical (int v)
      → ReadsSame (int v) (render strtod format_e (suc levels) writer_init (int v))
  unfolding render append_element
  int-ReadsSame levels v c = (
    refl,
    rw (bytes-writer_append writer_init (signed_text v)) (
        from_json-signed_text qsort strtod w v
        ∙ ap (λ (x : Writer). (true, x)) (encode_int_text-signed_text w v c)),
  )

  encoded_back :
      (negative : Bool) (mag ds : List ℕ)
      → IsCanonical (bigint negative mag)
      → IsNumeral (be_value mag) ds
      → IsDigits ds
      → encode_int_text w (token negative ds) ≡ append_element w (bigint negative mag)
  unfolding append_element
  encoded_back true mag ds c n h = minus_back w mag ds c.0 n (beyond_limit true mag c.3)
  encoded_back false mag ds c n h =
      plain_back w mag ds c.0 n (sign-digits ds h) (beyond_limit false mag c.3)

  bigint-ReadsSame :
      (levels : ℕ) (negative : Bool) (mag : List ℕ)
      → IsCanonical (bigint negative mag)
      → ReadsSame
          (bigint negative mag)
          (render strtod format_e (suc levels) writer_init (bigint negative mag))
  unfolding render
  bigint-ReadsSame levels negative mag c =
      let (ds, ends, n) = magnitude_to_decimal-be_value mag (IsNormal-IsBytes mag c.0) in
      let h : IsDigits ds = numeral-IsDigits ds n.digits n.short in
      rw ends (
        refl,
        rw (bytes-token negative ds) (
            from_json-token qsort strtod w negative ds h
            ∙ ap (λ (x : Writer). (true, x)) (encoded_back negative mag ds c n h)),
      )

-- For an integer element that IsCanonical, an int64_t or a big integer of any length that a uint64_t
-- holds, struple_to_json of its encoding into an empty writer succeeds, and struple_from_json of the
-- text that it writes appends to any writer what append_element writes for the element. It holds for
-- any functions in place of strtod, of the conversion to scientific text and of qsort; the negative
-- powers that the reader loses are left out by IsCanonical.
pub to_json-from_json :
    (qsort : (Entry → Entry → Ordering) → List Entry → List Entry) (strtod : List ℕ → ℕ)
    (format_e : ℕ → ℕ → List ℕ) (w : Writer) (e : Element)
    → IsCanonical e
    → IsInteger e
    → ((to_json strtod format_e (encoding e) writer_init).0 ≡ true)
      × (from_json qsort strtod (to_json strtod format_e (encoding e) writer_init).1.bytes w
          ≡ (true, append_element w e))
to_json-from_json qsort strtod format_e w (int v) c i =
    rw (to_json-render qsort strtod format_e w (int v) c)
      (int-ReadsSame qsort strtod format_e w 256 v c)
to_json-from_json qsort strtod format_e w (bigint negative mag) c i =
    rw (to_json-render qsort strtod format_e w (bigint negative mag) c)
      (bigint-ReadsSame qsort strtod format_e w 256 negative mag c)
to_json-from_json qsort strtod format_e w _ c i = absurd i
