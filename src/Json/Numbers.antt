-- ===== src/Json/Numbers.antt =====
-- Numbers in JSON text: `write_ecma_digits`, `render_float` and `render_decimal` of c/struple_json.c.
-- strtod and the conversion `%.*e` of snprintf are parameters.
pub mod Integers
use struple.Prelude.{
  ℕ, zero, suc, ◌+◌, ◌-◌, ◌/◌, ◌%◌, Bool, true, false, ◌&&◌, not, List, [], ◌∷◌, length, take, drop,
  get_or, ltb, leb, ◌==◌, if◌then◌else◌,
}
use struple.Prelude.Int.{ℤ, pos, negsuc, pos_part, neg_part, neg, ltb_ℤ, ◌+ℤ◌, ◌-ℤ◌}
use struple.Floats.{fabs}
use struple.Writer.{Writer, writer_append}
use struple.Json.Parse.{isfinite}
use struple.Json.Encode.{text_value}

-- jc, and jw is writer_append
abbrev pub jc : Writer → ℕ → Writer
jc out c = writer_append out (c ∷ [])

-- `%llu`: the digits of a 64-bit number, of which there are at most 20
unfoldable pub text_loop : ℕ → ℕ → List ℕ → List ℕ
text_loop zero n behind = behind
text_loop (suc f) n behind =
    let digits = (48 + n % 10) ∷ behind in
    let more = text_loop f (n / 10) digits in if n / 10 == 0 then digits else more

abbrev pub unsigned_text : ℕ → List ℕ
unsigned_text n = text_loop 20 n []

-- `%lld`
abbrev pub signed_text : ℤ → List ℕ
signed_text (pos n) = unsigned_text n
signed_text (negsuc n) = 45 ∷ unsigned_text (suc n)

unfoldable pub push_zeros : ℕ → Writer → Writer
push_zeros zero out = out
push_zeros (suc n) out = push_zeros n (jc out 48)

-- `d[.ddd]e±` and the size of the exponent
unfoldable pub scientific : Writer → List ℕ → ℤ → Writer
scientific out digits e =
    let first = jc out (get_or digits 0 0) in
    let mantissa =
      if ltb 1 (length digits) then writer_append (jc first 46) (drop 1 digits) else first in
    let signed = jc (jc mantissa 101) (if ltb_ℤ e (pos 0) then 45 else 43) in
    writer_append signed (unsigned_text (pos_part e + neg_part e))

-- `n` is the number of digits before the point.
unfoldable pub write_ecma_digits : Writer → List ℕ → ℤ → Writer
unfolding push_zeros scientific
write_ecma_digits out digits n =
    let k = length digits in
    let before = pos_part n in
    if ltb_ℤ (pos 0) n && ltb_ℤ n (pos 22)
    then (if leb k before
        then push_zeros (before - k) (writer_append out digits)
        else writer_append (jc (writer_append out (take before digits)) 46) (drop before digits))
    else if ltb_ℤ n (pos 1) && ltb_ℤ (negsuc 5) n
    then writer_append (push_zeros (neg_part n) (writer_append out (48 ∷ 46 ∷ []))) digits
    else scientific out digits (n -ℤ pos 1)

-- What stands before the first `e` and behind it
unfoldable pub split_e : List ℕ → List ℕ × List ℕ
split_e [] = ([], [])
split_e (c ∷ cs) =
    let (before, behind) = split_e cs in if c == 101 then ([], cs) else (c ∷ before, behind)

-- The digits without the point
unfoldable pub significant : List ℕ → List ℕ
significant [] = []
significant (c ∷ cs) = let rest = significant cs in if c == 46 then rest else c ∷ rest

-- atoi of an exponent, which has a sign
unfoldable pub atoi : List ℕ → ℤ
unfolding text_value
atoi [] = pos 0
atoi (c ∷ cs) =
    if c == 45
    then neg (text_value 0 cs)
    else if c == 43
    then pos (text_value 0 cs)
    else pos (text_value 0 (c ∷ cs))

module _ (strtod : List ℕ → ℕ) (format_e : ℕ → ℕ → List ℕ) where
  -- The first precision whose text is read as `f`, with the rounds left; the text of the last round
  -- where none is.
  unfoldable pub shortest : ℕ → ℕ → ℕ → List ℕ
  shortest zero prec f = format_e prec f
  shortest (suc rounds) prec f =
      let longer = shortest rounds (prec + 1) f in
      if strtod (format_e prec f) == f then format_e prec f else longer

  abbrev write_scientific : Writer → List ℕ → Writer
  write_scientific out s =
      write_ecma_digits out (significant (split_e s).0) (atoi (split_e s).1 +ℤ pos 1)

  abbrev write_formatted : Writer → List ℕ → Writer
  write_formatted out [] = write_scientific out []
  write_formatted out (c ∷ cs) =
      if c == 45 then write_scientific (jc out 45) cs else write_scientific out (c ∷ cs)

  unfoldable pub render_float : Writer → ℕ → Writer
  unfolding shortest write_ecma_digits significant split_e atoi
  render_float out f =
      if not (isfinite f)
      then writer_append out (110 ∷ 117 ∷ 108 ∷ 108 ∷ [])
      else if fabs f == 0
      then jc out 48
      else write_formatted out (shortest 17 0 f)

unfoldable pub digit_chars : List ℕ → List ℕ
digit_chars [] = []
digit_chars (d ∷ ds) = (48 + d) ∷ digit_chars ds

-- The zeros that plain notation would need
abbrev pub plain_pad : ℕ → ℤ → ℕ
plain_pad k exp10 = if ltb_ℤ exp10 (pos 0) then neg_part (pos k +ℤ exp10) else pos_part exp10

-- The digits of a decimal that is not 0, C * 10 ^ exp10
unfoldable pub render_digits : Writer → List ℕ → ℤ → Writer
unfolding push_zeros scientific digit_chars
render_digits out digs exp10 =
    let k = length digs in
    let chars = digit_chars digs in
    let point = pos k +ℤ exp10 in
    if ltb 40 (plain_pad k exp10)
    then scientific out chars ((exp10 +ℤ pos k) -ℤ pos 1)
    else if not (ltb_ℤ exp10 (pos 0))
    then push_zeros (pos_part exp10) (writer_append out chars)
    else if ltb_ℤ (pos 0) point
    then writer_append (jc (writer_append out (take (pos_part point) chars)) 46)
        (drop (pos_part point) chars)
    else writer_append (push_zeros (neg_part point) (writer_append out (48 ∷ 46 ∷ []))) chars

unfoldable pub render_decimal : Writer → Bool → ℤ → List ℕ → Writer
unfolding render_digits
render_decimal out negative exp10 [] = jc out 48
render_decimal out negative exp10 (d ∷ ds) =
    render_digits (if negative then jc out 45 else out) (d ∷ ds) exp10
