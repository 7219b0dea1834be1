-- ===== src/Examples/JsonText.antt =====
-- The JSON codec of c/struple_json.c: runs, and the theorems at concrete inputs.
use struple.Prelude.{ℕ, ◌≡◌, refl, arith, ◌+◌, ◌^◌, List, [], ◌∷◌, ◌++◌, true, false, some, none}
use struple.Prelude.Int.{pos, negsuc}
use struple.Bytes.{IsBytes}
use struple.Bytes.BigEndian.{be_value, be_from}
use struple.Writer.{Writer, writer_init}
use struple.Json.Strings.{render_string, parse_string_raw}
use struple.Json.Strings.RoundTrip.{render_string-parse_string_raw}
use struple.Json.Magnitude.{decimal_to_magnitude, magnitude_to_decimal}
use struple.Json.Magnitude.Numerals.{IsNumeral}
use struple.Json.Magnitude.Values.{decimal_to_magnitude-text_value, magnitude_to_decimal-be_value}
use struple.Json.Encode.{text_value, from_json}
use struple.Json.Numbers.{render_decimal, write_ecma_digits}
use struple.Json.Integers.RoundTrip.{to_json-from_json}
use struple.Json.Render.{base64, to_json}
use struple.Json.Render.Base64.{from_base64, from_base64-base64}
use struple.Json.Parse.{json_parse}
use struple.Json.Value.{
  sj_int, sj_bool, sj_string, sj_array, sj_object, add_item, no_items, add_pair, no_pairs,
}
use struple.Examples.Sort.{insertion_sort}
use struple.Bytes.BigEndian.{power_mono}
use struple.Reader.{nil, array, bigint}
use struple.Reader.Next.{append_element}
use struple.RoundTrip.Elements.{IsCanonical, encoding}

-- {"a":[1,-2,true],"b":"x\n"}
abbrev sample : List ℕ
sample =
    123 ∷ 34 ∷ 97 ∷ 34 ∷ 58 ∷ 91 ∷ 49 ∷ 44 ∷ 45 ∷ 50 ∷ 44 ∷ 116 ∷ 114 ∷ 117 ∷ 101 ∷ 93 ∷ 44 ∷ 34
    ∷ 98 ∷ 34 ∷ 58 ∷ 34 ∷ 120 ∷ 92 ∷ 110 ∷ 34 ∷ 125 ∷ []

parsed :
    json_parse (λ s. 0) sample
    ≡ some (
        sj_object (
          add_pair
            (97 ∷ [])
            (sj_array (
              add_item
                (sj_int (49 ∷ []))
                (add_item (sj_int (45 ∷ 50 ∷ [])) (add_item (sj_bool true) no_items))))
            (add_pair (98 ∷ []) (sj_string (120 ∷ 10 ∷ [])) no_pairs)))
unfolding json_parse
parsed = refl

-- [[1],null] of the elements
rendered :
    (to_json
      (λ s. 0)
      (λ p f. [])
      (encoding (array (encoding (array (0x21 ∷ 1 ∷ [])) ++ encoding nil)))
      writer_init).1.bytes
    ≡ 91 ∷ 91 ∷ 49 ∷ 93 ∷ 44 ∷ 110 ∷ 117 ∷ 108 ∷ 108 ∷ 93 ∷ []
unfolding to_json struple.Reader.Next.reader_next struple.Reader.reader_init
    struple.Reader.Next.append_element struple.Framing.write_framed struple.Writer.sw_push
    struple.Encode.Scalars.append_nil struple.Reader.Next.read_payload
    struple.Reader.Next.read_framed struple.Reader.Ints.read_fixed_int struple.Reader.take_bytes
    struple.Reader.Ints.fixed_element struple.Bytes.be_to_u64 struple.Json.Numbers.text_loop
rendered = refl

-- A lone surrogate, a key twice, a sign without digits
refused :
    (json_parse (λ s. 0) (34 ∷ 92 ∷ 117 ∷ 100 ∷ 56 ∷ 48 ∷ 48 ∷ 34 ∷ []) ≡ none)
    × (json_parse (λ s. 0) (123 ∷ 34 ∷ 97 ∷ 34 ∷ 58 ∷ 49 ∷ 44 ∷ 34 ∷ 97 ∷ 34 ∷ 58 ∷ 50 ∷ 125 ∷ [])
        ≡ none)
    × (json_parse (λ s. 0) (45 ∷ 120 ∷ []) ≡ none)
unfolding json_parse
refused = (refl, refl, refl)

-- 1.5 from 15 * 10 ^ -1, 1e+60 from 1 * 10 ^ 60, 1e-7 from the digit 1
numbers :
    ((render_decimal writer_init false (negsuc 0) (1 ∷ 5 ∷ [])).bytes ≡ 49 ∷ 46 ∷ 53 ∷ [])
    × ((render_decimal writer_init false (pos 60) (1 ∷ [])).bytes ≡ 49 ∷ 101 ∷ 43 ∷ 54 ∷ 48 ∷ [])
    × ((write_ecma_digits writer_init (49 ∷ []) (negsuc 5)).bytes ≡ 49 ∷ 101 ∷ 45 ∷ 55 ∷ [])
unfolding render_decimal write_ecma_digits struple.Writer.writer_append
    struple.Json.Numbers.text_loop
numbers = (refl, refl, refl)

-- `"`, a control character and a letter
abbrev content : List ℕ
content = 34 ∷ 1 ∷ 97 ∷ []

render_string-parse_string_raw_example :
    (text : List ℕ) × ((render_string writer_init content).bytes ≡ [] ++ text)
    × (parse_string_raw (text ++ 44 ∷ []) ≡ some (content, 44 ∷ []))
render_string-parse_string_raw_example =
    render_string-parse_string_raw writer_init content (44 ∷ [])

from_base64-base64_example : from_base64 (base64 content) ≡ content
from_base64-base64_example =
    from_base64-base64 content (omega arith, (omega arith, (omega arith, tt)))

decimal_to_magnitude-text_value_example :
    (be_value (decimal_to_magnitude (54 ∷ 53 ∷ 53 ∷ 51 ∷ 55 ∷ []))
      ≡ text_value 0 (54 ∷ 53 ∷ 53 ∷ 51 ∷ 55 ∷ []))
    × IsBytes (decimal_to_magnitude (54 ∷ 53 ∷ 53 ∷ 51 ∷ 55 ∷ []))
decimal_to_magnitude-text_value_example =
    decimal_to_magnitude-text_value (54 ∷ 53 ∷ 53 ∷ 51 ∷ 55 ∷ []) (
      (omega arith, omega arith),
      (
        (omega arith, omega arith),
        (
          (omega arith, omega arith),
          ((omega arith, omega arith), ((omega arith, omega arith), tt)),
        ),
      ),
    )

magnitude_to_decimal-be_value_example :
    (text : List ℕ) × (magnitude_to_decimal content ≡ some text) × IsNumeral (be_value content) text
magnitude_to_decimal-be_value_example =
    magnitude_to_decimal-be_value content (omega arith, (omega arith, (omega arith, tt)))

-- The magnitude of a negative integer of nine bytes, which is no power of 256
abbrev huge : List ℕ
huge = 1 ∷ 0 ∷ 0 ∷ 0 ∷ 0 ∷ 0 ∷ 0 ∷ 0 ∷ 7 ∷ []

huge_value : be_value huge ≡ 2 ^ 64 + 7
unfolding be_from
huge_value = refl

huge-IsCanonical : IsCanonical (bigint true huge)
huge-IsCanonical = (
  ground arith,
  omega arith,
  λ n s lo hi e. omega (arith, e, huge_value, power_mono 9 n lo),
  rw huge_value refl,
)

to_json-from_json_example :
    ((to_json (λ s. 0) (λ p f. []) (encoding (bigint true huge)) writer_init).0 ≡ true)
    × (from_json insertion_sort
          (λ s. 0)
          (to_json (λ s. 0) (λ p f. []) (encoding (bigint true huge)) writer_init).1.bytes
          writer_init
        ≡ (true, append_element writer_init (bigint true huge)))
to_json-from_json_example =
    to_json-from_json insertion_sort (λ s. 0) (λ p f. []) writer_init (bigint true huge)
      huge-IsCanonical tt
