-- ===== src/Json/Strings.antt =====
-- Strings in JSON text: `parse_string_raw` with its escapes, and `render_string`, of
-- c/struple_json.c.
pub mod Escapes
pub mod RoundTrip
use struple.Prelude.{
  ℕ, zero, suc, ◌+◌, ◌-◌, ◌*◌, ◌/◌, ◌%◌, ◌^◌, Bool, true, false, ◌||◌, ◌&&◌, List, [], ◌∷◌, ◌++◌,
  length, Option, none, some, ltb, leb, ◌==◌, if◌then◌else◌, bit_or,
}
use struple.Writer.{Writer, writer_append}
use struple.Json.Text.{◌>>=◌, quote, backslash, within}

unfoldable pub hex_digit : ℕ → Option ℕ
hex_digit c =
    if within 48 57 c
    then some (c - 48)
    else if within 97 102 c
    then some (c - 97 + 10)
    else if within 65 70 c
    then some (c - 65 + 10)
    else none

-- `v <<= 4; v |= digit` in an unsigned int
abbrev pub hex_step : ℕ → ℕ → ℕ
hex_step v d = bit_or (v * 16 % 2 ^ 32) d

unfoldable pub hex4 : List ℕ → Option (ℕ × List ℕ)
unfolding hex_digit
hex4 (a ∷ b ∷ c ∷ d ∷ rest) = do
  w ← hex_digit a
  x ← hex_digit b
  y ← hex_digit c
  z ← hex_digit d
  some (hex_step (hex_step (hex_step (hex_step 0 w) x) y) z, rest)
hex4 bs = none

unfoldable pub utf8_encode : ℕ → List ℕ
utf8_encode cp =
    if ltb cp 0x80
    then cp ∷ []
    else if ltb cp 0x800
    then bit_or 0xc0 (cp / 64) ∷ bit_or 0x80 (cp % 64) ∷ []
    else if ltb cp 0x10000
    then bit_or 0xe0 (cp / 4096) ∷ bit_or 0x80 (cp / 64 % 64) ∷ bit_or 0x80 (cp % 64) ∷ []
    else bit_or 0xf0 (cp / 262144)
      ∷ bit_or 0x80 (cp / 4096 % 64)
      ∷ bit_or 0x80 (cp / 64 % 64)
      ∷ bit_or 0x80 (cp % 64)
      ∷ []

-- The low surrogate that has to follow a high one, and the code point of both.
unfoldable pub low_surrogate : ℕ → List ℕ → Option (ℕ × List ℕ)
unfolding hex4
low_surrogate cp (b ∷ u ∷ rest) =
    if b == backslash && u == 117
    then (do
      (lo, rest') ← hex4 rest
      (if ltb lo 0xdc00 || ltb 0xdfff lo
          then none
          else some (0x10000 + (cp - 0xd800) * 1024 + (lo - 0xdc00), rest')))
    else none
low_surrogate cp rest = none

unfoldable pub code_point : List ℕ → Option (ℕ × List ℕ)
unfolding hex4 low_surrogate
code_point bs = do
  (cp, rest) ← hex4 bs
  (if within 0xd800 0xdbff cp
      then low_surrogate cp rest
      else if within 0xdc00 0xdfff cp
      then none
      else some (cp, rest))

unfoldable pub simple_escape : ℕ → Option ℕ
simple_escape e =
    if e == quote || e == backslash || e == 47
    then some e
    else if e == 110
    then some 10
    else if e == 116
    then some 9
    else if e == 114
    then some 13
    else if e == 98
    then some 8
    else if e == 102
    then some 12
    else none

-- What an escape stands for, behind its backslash, and the text behind it.
unfoldable pub escape : List ℕ → Option (List ℕ × List ℕ)
unfolding simple_escape code_point utf8_encode
escape [] = none
escape (e ∷ bs) =
    if e == 117
    then (do (cp, rest) ← code_point bs; some (utf8_encode cp, rest))
    else (do ch ← simple_escape e; some (ch ∷ [], bs))

abbrev pub string_step : ℕ → List ℕ → Option (List ℕ × List ℕ)
string_step c bs = if c == backslash then escape bs else some (c ∷ [], bs)

abbrev pub prepend : List ℕ → Option (List ℕ × List ℕ) → Option (List ℕ × List ℕ)
prepend out none = none
prepend out (some (s, rest)) = some (out ++ s, rest)

-- The loop behind the opening quote, with the rounds left. A round takes a byte at least.
unfoldable pub string_loop : ℕ → List ℕ → Option (List ℕ × List ℕ)
unfolding escape
string_loop zero bs = none
string_loop (suc f) [] = none
string_loop (suc f) (c ∷ bs) = elim (c == quote) [
  | true ↦ some ([], bs)
  | false ↦ elim (string_step c bs) [
    | none ↦ none
    | some (out, rest) ↦ prepend out (string_loop f rest)
  ]
]

-- The text begins with the opening quote.
unfoldable pub parse_string_raw : List ℕ → Option (List ℕ × List ℕ)
unfolding string_loop
parse_string_raw [] = none
parse_string_raw (q ∷ bs) = string_loop (suc (length bs)) bs

-- A digit of `%x`
abbrev pub hex_char : ℕ → ℕ
hex_char d = if ltb d 10 then 48 + d else 87 + d

-- `snprintf(u, sizeof u, "\\u%04x", c)`
abbrev pub unicode_escape : ℕ → List ℕ
unicode_escape c =
    backslash
    ∷ 117
    ∷ hex_char (c / 4096 % 16)
    ∷ hex_char (c / 256 % 16)
    ∷ hex_char (c / 16 % 16)
    ∷ hex_char (c % 16)
    ∷ []

unfoldable pub render_char : ℕ → List ℕ
render_char c =
    if c == quote || c == backslash
    then backslash ∷ c ∷ []
    else if c == 10
    then backslash ∷ 110 ∷ []
    else if c == 13
    then backslash ∷ 114 ∷ []
    else if c == 9
    then backslash ∷ 116 ∷ []
    else if c == 8
    then backslash ∷ 98 ∷ []
    else if c == 12
    then backslash ∷ 102 ∷ []
    else if ltb c 0x20
    then unicode_escape c
    else c ∷ []

unfoldable pub render_chars : Writer → List ℕ → Writer
unfolding render_char writer_append
render_chars out [] = out
render_chars out (c ∷ cs) = render_chars (writer_append out (render_char c)) cs

unfoldable pub render_string : Writer → List ℕ → Writer
unfolding render_chars
render_string out s = writer_append (render_chars (writer_append out (quote ∷ [])) s) (quote ∷ [])
