-- ===== src/Json/Render.antt =====
-- `struple_to_json` of c/struple_json.c: an element as JSON text, with base64 for bytes. The flag of a
-- result is the result 0; text that was written before a failure stays.
pub mod Base64
use struple.Prelude.{
  ℕ, zero, suc, ◌+◌, ◌-◌, ◌*◌, ◌/◌, ◌%◌, Bool, true, false, Option, none, some, ◌||◌, List, [], ◌∷◌,
  length, take, ltb, ◌==◌, if◌then◌else◌, bit_or,
}
use struple.Writer.{Writer, writer_init, writer_append}
use struple.Floats.{widen}
use struple.Reader.{
  Element, nil, undef, bool, int, bigint, f32, f64, decimal, timestamp, uuid, string, bytes, array,
  map, set, Reader, reader_init,
}
use struple.Reader.Next.{Outcome, at_end, item, malformed, reader_next}
use struple.Semantic.Order.{max_depth}
use struple.Json.Strings.{hex_char, render_string}
use struple.Json.Magnitude.{magnitude_to_decimal}
use struple.Json.Numbers.{jc, signed_text, render_float, render_decimal}

-- T[n], "ABCDEFGHIJKLMNOPQRSTUVWXYZabcdefghijklmnopqrstuvwxyz0123456789+/"
unfoldable pub base64_char : ℕ → ℕ
base64_char n =
    if ltb n 26
    then 65 + n
    else if ltb n 52
    then 97 + (n - 26)
    else if ltb n 62
    then 48 + (n - 52)
    else if n == 62
    then 43
    else 47

abbrev pub joined : ℕ → ℕ → ℕ → ℕ
joined b0 b1 b2 = bit_or (bit_or (b0 * 65536) (b1 * 256)) b2

unfoldable pub base64 : List ℕ → List ℕ
base64 [] = []
base64 (b0 ∷ []) =
    let n = joined b0 0 0 in
    base64_char (n / 262144 % 64) ∷ base64_char (n / 4096 % 64) ∷ 61 ∷ 61 ∷ []
base64 (b0 ∷ b1 ∷ []) =
    let n = joined b0 b1 0 in
    base64_char (n / 262144 % 64)
    ∷ base64_char (n / 4096 % 64)
    ∷ base64_char (n / 64 % 64)
    ∷ 61
    ∷ []
base64 (b0 ∷ b1 ∷ b2 ∷ rest) =
    let n = joined b0 b1 b2 in
    base64_char (n / 262144 % 64)
    ∷ base64_char (n / 4096 % 64)
    ∷ base64_char (n / 64 % 64)
    ∷ base64_char (n % 64)
    ∷ base64 rest

-- The bytes from position `i` on, in hexadecimal with the dashes
unfoldable pub uuid_text : ℕ → List ℕ → List ℕ
uuid_text i [] = []
uuid_text i (b ∷ bs) =
    let rest = hex_char (b / 16) ∷ hex_char (b % 16) ∷ uuid_text (i + 1) bs in
    if i == 4 || i == 6 || i == 8 || i == 10 then 45 ∷ rest else rest

abbrev pub null_text : List ℕ
null_text = 110 ∷ 117 ∷ 108 ∷ 108 ∷ []

abbrev pub bool_text : Bool → List ℕ
bool_text true = 116 ∷ 114 ∷ 117 ∷ 101 ∷ []
bool_text false = 102 ∷ 97 ∷ 108 ∷ 115 ∷ 101 ∷ []

abbrev pub then_write : Bool × Writer → (Writer → Bool × Writer) → Bool × Writer
then_write (false, out) k = (false, out)
then_write (true, out) k = k out

-- `none` stands for a loop that does not end.
abbrev pub write_text : Writer → Option (List ℕ) → Bool × Writer
write_text out none = (false, out)
write_text out (some text) = (true, writer_append out text)

-- Elements of a container are written by `nested`, one level deeper. An element takes a byte, so the
-- length of the body is enough fuel.
module _ (nested : Writer → Element → Bool × Writer) where
  abbrev pub comma : Bool → Writer → Writer
  comma first out = if first then out else jc out 44

  unfoldable pub render_items : ℕ → Bool → Reader → Writer → Bool × Writer
  render_items zero first r out = (false, out)
  render_items (suc f) first r out =
      let (o, r') = reader_next r in
      elim o [
        | at_end ↦ (true, jc out 93)
        | malformed ↦ (false, out)
        | item e ↦ then_write (nested (comma first out) e) (λ w. render_items f false r' w)
      ]

  unfoldable pub render_array : Writer → List ℕ → Bool × Writer
  unfolding render_items
  render_array out body = render_items (suc (length body)) true (reader_init body) (jc out 91)

  -- A key that is no string is rendered by itself, and its text is written as a string.
  unfoldable pub render_key : Writer → Element → Bool × Writer
  unfolding render_string
  render_key out (string s) = (true, render_string out s)
  render_key out k =
      let (done, tmp) = nested writer_init k in
      if done then (true, render_string out tmp.bytes) else (false, out)

  unfoldable pub render_entries : ℕ → Bool → Reader → Writer → Bool × Writer
  unfolding render_key
  render_entries zero first r out = (false, out)
  render_entries (suc f) first r out =
      let (o, r') = reader_next r in
      let (v, r'') = reader_next r' in
      elim o [
        | at_end ↦ (true, jc out 125)
        | malformed ↦ (false, out)
        | item k ↦ then_write (render_key (comma first out) k) (λ w. elim v [
          | at_end ↦ (false, jc w 58)
          | malformed ↦ (false, jc w 58)
          | item e ↦ then_write (nested (jc w 58) e) (λ w'. render_entries f false r'' w')
        ])
      ]

  unfoldable pub render_map : Writer → List ℕ → Bool × Writer
  unfolding render_entries
  render_map out body = render_entries (suc (length body)) true (reader_init body) (jc out 123)

module _ (strtod : List ℕ → ℕ) (format_e : ℕ → ℕ → List ℕ) where
  -- The switch on the kind
  unfoldable pub render_kind : (Writer → Element → Bool × Writer) → Writer → Element → Bool × Writer
  unfolding render_array render_map render_string render_float render_decimal magnitude_to_decimal
      uuid_text base64
  render_kind nested out nil = (true, writer_append out null_text)
  render_kind nested out undef = (true, writer_append out null_text)
  render_kind nested out (bool b) = (true, writer_append out (bool_text b))
  render_kind nested out (int v) = (true, writer_append out (signed_text v))
  render_kind nested out (timestamp v) = (true, writer_append out (signed_text v))
  render_kind nested out (bigint negative mag) =
      write_text (if negative then jc out 45 else out) (magnitude_to_decimal mag)
  render_kind nested out (f32 f) = (true, render_float strtod format_e out (widen f))
  render_kind nested out (f64 f) = (true, render_float strtod format_e out f)
  render_kind nested out (decimal negative exp10 digs) =
      (true, render_decimal out negative exp10 digs)
  render_kind nested out (uuid b) = (true, render_string out (uuid_text 0 (take 16 b)))
  render_kind nested out (string s) = (true, render_string out s)
  render_kind nested out (bytes b) = (true, render_string out (base64 b))
  render_kind nested out (array body) = render_array nested out body
  render_kind nested out (set body) = render_array nested out body
  render_kind nested out (map body) = render_map nested out body

  -- With the levels of nesting that are left; none is left where depth is above the bound.
  unfoldable pub render : ℕ → Writer → Element → Bool × Writer
  unfolding render_kind
  render zero out e = (false, out)
  render (suc levels) out e = render_kind (render levels) out e

  unfoldable pub to_json : List ℕ → Writer → Bool × Writer
  unfolding render
  to_json buf out =
      let (o, r) = reader_next (reader_init buf) in
      elim o [
        | at_end ↦ (true, writer_append out null_text)
        | malformed ↦ (false, out)
        | item e ↦ render (max_depth + 1) out e
      ]
