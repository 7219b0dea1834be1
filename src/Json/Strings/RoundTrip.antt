-- ===== src/Json/Strings/RoundTrip.antt =====
-- Strings written by `render_string` and read back by `parse_string_raw`.
use struple.Prelude.{
  ℕ, zero, suc, ◌≤◌, ◌<◌, ◌≡◌, refl, sym, ap, ◌∙◌, arith, List, [], ◌∷◌, ◌++◌, length, append_assoc,
  append-nil, length-append, some, ltb, ltb→lt, ◌==◌, ==_iff, true, false, Bool-cases, inl, inr,
}
use struple.Writer.{Writer, writer_append}
use struple.Writer.Contents.{bytes-sw_append}
use struple.Json.Text.{quote, backslash, within}
use struple.Json.Strings.{
  escape, simple_escape, code_point, utf8_encode, string_loop, prepend, parse_string_raw,
  render_char, render_chars, render_string,
}
use struple.Json.Strings.Escapes.{four_digits, hex4-four_digits}

-- One character, with the text behind it.
module _ (f : ℕ) (more : List ℕ) where
  abbrev IsRead : ℕ → Type 0
  IsRead c = string_loop (suc f) (render_char c ++ more) ≡ prepend (c ∷ []) (string_loop f more)

  named : (c k : ℕ) → (c == k) ≡ true → IsRead k → IsRead c
  named c k e h = rw ((==_iff c k).0 e) h

  string_loop-plain :
      (c : ℕ)
      → (c == quote) ≡ false
      → (c == backslash) ≡ false
      → string_loop (suc f) (c ∷ more) ≡ prepend (c ∷ []) (string_loop f more)
  unfolding string_loop
  string_loop-plain c q b = rw (string_loop, q, b) refl

  plain :
      (c : ℕ) → (c == quote) ≡ false → (c == backslash) ≡ false → render_char c ≡ c ∷ [] → IsRead c
  plain c q b h = ap (λ t. string_loop (suc f) (t ++ more)) h ∙ string_loop-plain c q b

  escape-four_digits :
      (c : ℕ) → c < 32 → escape (117 ∷ (four_digits c ++ more)) ≡ some (c ∷ [], more)
  unfolding escape code_point utf8_encode
  escape-four_digits c h =
      let low : ltb c 0x80 ≡ true = ground arith in
      let no_high : within 0xd800 0xdbff c ≡ false = ground arith in
      let no_low : within 0xdc00 0xdfff c ≡ false = ground arith in
      rw (hex4-four_digits c more (omega arith), no_high, no_low, low) refl

  string_loop-escape :
      (t : List ℕ) (c : ℕ)
      → escape t ≡ some (c ∷ [], more)
      → string_loop (suc f) (backslash ∷ t) ≡ prepend (c ∷ []) (string_loop f more)
  unfolding string_loop
  string_loop-escape t c h = rw (string_loop, h) refl

  control : (c : ℕ) → c < 32 → render_char c ≡ backslash ∷ 117 ∷ four_digits c → IsRead c
  control c h e =
      ap (λ t. string_loop (suc f) (t ++ more)) e
      ∙ string_loop-escape (117 ∷ (four_digits c ++ more)) c (escape-four_digits c h)

  render_char-IsRead : (c : ℕ) → IsRead c
  unfolding string_loop escape simple_escape render_char
  render_char-IsRead c = elim (Bool-cases (c == quote)) [
    | inl q ↦ named c quote q refl
    | inr q ↦ elim (Bool-cases (c == backslash)) [
      | inl b ↦ named c backslash b refl
      | inr b ↦ elim (Bool-cases (c == 10)) [
        | inl e ↦ named c 10 e refl
        | inr n ↦ elim (Bool-cases (c == 13)) [
          | inl e ↦ named c 13 e refl
          | inr r ↦ elim (Bool-cases (c == 9)) [
            | inl e ↦ named c 9 e refl
            | inr t ↦ elim (Bool-cases (c == 8)) [
              | inl e ↦ named c 8 e refl
              | inr v ↦ elim (Bool-cases (c == 12)) [
                | inl e ↦ named c 12 e refl
                | inr w ↦ elim (Bool-cases (ltb c 0x20)) [
                  | inl e ↦ control c (ltb→lt c 32 e) (rw (q, b, n, r, t, v, w, e) refl)
                  | inr e ↦ plain c q b (rw (q, b, n, r, t, v, w, e) refl)
                ]
              ]
            ]
          ]
        ]
      ]
    ]
  ]

-- The text of a string between its quotes
unfoldable escaped : List ℕ → List ℕ
escaped [] = []
escaped (c ∷ cs) = render_char c ++ escaped cs

bytes-render_chars :
    (out : Writer) (s : List ℕ) → (render_chars out s).bytes ≡ out.bytes ++ escaped s
unfolding render_chars writer_append escaped
bytes-render_chars out [] = sym (append-nil out.bytes)
bytes-render_chars out (c ∷ cs) =
    bytes-render_chars (writer_append out (render_char c)) cs
    ∙ rw (bytes-sw_append, append_assoc) refl

bytes-render_string :
    (out : Writer) (s : List ℕ)
    → (render_string out s).bytes ≡ out.bytes ++ quote ∷ (escaped s ++ quote ∷ [])
unfolding render_string writer_append
bytes-render_string out s =
    rw (bytes-sw_append, bytes-render_chars, bytes-sw_append, append_assoc, append_assoc) refl

prepend_char : (c : ℕ) (s rest : List ℕ) → prepend (c ∷ []) (some (s, rest)) ≡ some (c ∷ s, rest)
prepend_char c s rest = refl

string_loop-escaped :
    (f : ℕ) (s rest : List ℕ)
    → length s < f
    → string_loop f (escaped s ++ quote ∷ rest) ≡ some (s, rest)
unfolding string_loop escaped
string_loop-escaped zero s rest h = absurd (omega arith)
string_loop-escaped (suc f) [] rest h = refl
string_loop-escaped (suc f) (c ∷ cs) rest h =
    ap (string_loop (suc f)) (append_assoc (render_char c) (escaped cs) (quote ∷ rest))
    ∙ render_char-IsRead f (escaped cs ++ quote ∷ rest) c
    ∙ ap (prepend (c ∷ [])) (string_loop-escaped f cs rest (omega arith))

length-render_char : (c : ℕ) → 0 < length (render_char c)
unfolding render_char
length-render_char c = ground arith

length-escaped : (s : List ℕ) → length s ≤ length (escaped s)
unfolding escaped
length-escaped [] = omega arith
length-escaped (c ∷ cs) =
    omega
      (arith, length-append (render_char c) (escaped cs), length-render_char c, length-escaped cs)

-- For every byte string, render_string adds a text at the end of the writer, and parse_string_raw at
-- that text, with anything behind it, gives the byte string back and stops behind the text.
pub render_string-parse_string_raw :
    (out : Writer) (s rest : List ℕ)
    → (text : List ℕ) × ((render_string out s).bytes ≡ out.bytes ++ text)
      × (parse_string_raw (text ++ rest) ≡ some (s, rest))
unfolding parse_string_raw
render_string-parse_string_raw out s rest = (
  quote ∷ (escaped s ++ quote ∷ []),
  bytes-render_string out s,
  ap (λ t. parse_string_raw (quote ∷ t)) (append_assoc (escaped s) (quote ∷ []) rest)
      ∙ string_loop-escaped (suc (length (escaped s ++ quote ∷ rest))) s rest
          (omega (arith, length-append (escaped s) (quote ∷ rest), length-escaped s)),
)
