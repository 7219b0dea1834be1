-- ===== src/Json/Encode.antt =====
-- `struple_from_json` of c/struple_json.c: a value is written as elements. qsort sorts the entries of an
-- object; it and strtod are parameters. The tokens of integers are an optional sign and digits.
use struple.Prelude.{
  ℕ, ◌+◌, ◌-◌, ◌*◌, ◌^◌, Ordering, Bool, true, false, List, [], ◌∷◌, Option, none, some, leb, ltb,
  if◌then◌else◌,
}
use struple.Prelude.Int.{ℤ, pos, neg}
use struple.Writer.{Writer, writer_init}
use struple.Encode.Ints.{append_int, append_uint, append_big_int}
use struple.Encode.Scalars.{append_nil, append_bool, append_f64}
use struple.Encode.Containers.{append_string, append_array, append_map, Entry}
use struple.Json.Text.{c_string}
use struple.Json.Value.{
  Value, sj_null, sj_bool, sj_int, sj_float, sj_string, sj_array, sj_object, Items, no_items,
  add_item, Pairs, no_pairs, add_pair,
}
use struple.Json.Parse.{sign, is_empty, json_parse}
use struple.Json.Magnitude.{decimal_to_magnitude}

-- The number that decimal text is read as, behind `a`
unfoldable pub text_value : ℕ → List ℕ → ℕ
text_value a [] = a
text_value a (c ∷ cs) = text_value (a * 10 + (c - 48)) cs

-- strtoll and strtoull on a token, `none` where errno is ERANGE
unfoldable pub strtoll : List ℕ → Option ℤ
unfolding text_value
strtoll s =
    let (minus, ds) = sign s in
    let v = text_value 0 ds in
    if is_empty minus
    then (if ltb v (2 ^ 63) then some (pos v) else none)
    else if leb v (2 ^ 63)
    then some (neg v)
    else none

unfoldable pub strtoull : List ℕ → Option ℕ
unfolding text_value
strtoull s = let v = text_value 0 s in if ltb v (2 ^ 64) then some v else none

unfoldable pub encode_int_text : Writer → List ℕ → Writer
unfolding strtoll strtoull
encode_int_text w s =
    let (minus, ds) = sign s in
    elim (strtoll s) [
      | some v ↦ append_int w v
      | none ↦ elim (if is_empty minus then strtoull s else none) [
        | some n ↦ append_uint w n
        | none ↦ append_big_int w (if is_empty minus then false else true) (decimal_to_magnitude ds)
      ]
    ]

module _ (qsort : (Entry → Entry → Ordering) → List Entry → List Entry) where
  unfoldable mutual
    pub encode_json : Writer → Value → Writer
    encode_json w sj_null = append_nil w
    encode_json w (sj_bool b) = append_bool w b
    encode_json w (sj_int token) = encode_int_text w token
    encode_json w (sj_float f) = append_f64 w f
    encode_json w (sj_string s) = append_string w s
    encode_json w (sj_array vs) = append_array w (encode_items writer_init vs).bytes
    encode_json w (sj_object ps) = append_map qsort w (encode_pairs ps)

    pub encode_items : Writer → Items → Writer
    encode_items child no_items = child
    encode_items child (add_item v vs) = encode_items (encode_json child v) vs

    pub encode_pairs : Pairs → List Entry
    encode_pairs no_pairs = []
    encode_pairs (add_pair k v ps) =
        record {
          key = (append_string writer_init (c_string k)).bytes;
          value = (encode_json writer_init v).bytes;
        }
        ∷ encode_pairs ps

  -- The flag is the result 0; the writer is untouched where the text is refused.
  unfoldable pub from_json : (List ℕ → ℕ) → List ℕ → Writer → Bool × Writer
  unfolding json_parse
  from_json strtod text out = elim (json_parse strtod text) [
    | none ↦ (false, out)
    | some v ↦ (true, encode_json out v)
  ]
