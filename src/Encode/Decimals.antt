-- ===== src/Encode/Decimals.antt =====
-- Decimals: `struple_append_decimal` and the reader of decimal literals. The Boolean of a result is
-- true for the C result 0, and false for -1.
use struple.Prelude.{
  ℕ, ◌+◌, ◌-◌, ◌*◌, ◌%◌, Bool, true, false, ◌&&◌, ◌||◌, Option, none, some, List, [], ◌∷◌, ◌++◌,
  length, ltb, leb, ◌==◌, if◌then◌else◌,
}
use struple.Prelude.Int.{ℤ, pos, negsuc, ◌+ℤ◌, ltb_ℤ, neg}
use struple.Codes.{decimal_code, dec_sign_neg, dec_sign_zero, dec_sign_pos, terminator, int32_max}
use struple.Writer.{Writer, writer_init, sw_push}
use struple.Encode.Ints.{strip_zeros, push_all, append_int}

abbrev keep_digit : ℕ → List ℕ → List ℕ
keep_digit d [] = if d == 0 then [] else d ∷ []
keep_digit d (e ∷ es) = d ∷ e ∷ es

-- `while (end > 0 && sig[end - 1] == 0) end--;`
unfoldable pub drop_trailing : List ℕ → List ℕ
drop_trailing [] = []
drop_trailing (d ∷ ds) = keep_digit d (drop_trailing ds)

-- `(uint8_t)(hi * 10 + lo + 1)` for each pair of digits, the last one padded with 0
unfoldable pub push_pairs : List ℕ → Writer → Writer
push_pairs [] w = w
push_pairs (hi ∷ []) w = sw_push w ((hi * 10 + 0 + 1) % 256)
push_pairs (hi ∷ lo ∷ ds) w = push_pairs ds (sw_push w ((hi * 10 + lo + 1) % 256))

-- `x > INT32_MAX || x < INT32_MIN`
abbrev pub beyond_int32 : ℤ → Bool
beyond_int32 x = ltb_ℤ (pos int32_max) x || ltb_ℤ x (negsuc int32_max)

-- The exponent, the digit pairs and the terminator.
unfoldable pub decimal_tail : ℤ → List ℕ → Writer
decimal_tail adj_exp sig =
    sw_push (push_pairs (drop_trailing sig) (append_int writer_init adj_exp)) terminator

abbrev append_significant : Writer → Bool → List ℕ → ℤ → Bool × Writer
append_significant w negative [] exp = (true, sw_push (sw_push w decimal_code) dec_sign_zero)
append_significant w negative (d ∷ ds) exp =
    let adj_exp = pos (length (d ∷ ds)) +ℤ exp in
    if beyond_int32 adj_exp then (false, w) else (
      true,
      push_all negative (decimal_tail adj_exp (d ∷ ds)).bytes
          (sw_push (sw_push w decimal_code) (if negative then dec_sign_neg else dec_sign_pos)),
    )

unfoldable pub append_decimal : Writer → Bool → List ℕ → ℤ → Bool × Writer
append_decimal w negative digits exp = append_significant w negative (strip_zeros digits) exp

abbrev pub is_digit : ℕ → Bool
is_digit c = leb b'0' c && leb c b'9'

abbrev is_sign : ℕ → Bool
is_sign c = c == b'+' || c == b'-'

abbrev is_exp : ℕ → Bool
is_exp c = c == b'e' || c == b'E'

-- The variables of the coefficient loop, and the text that it has not read.
pub record Coefficient : Type 0 where
  pub digits : List ℕ
  pub exp : ℤ
  pub seen_point : Bool
  pub rest : List ℕ

-- `none` is the result -1.
unfoldable pub scan_coefficient : List ℕ → List ℕ → ℤ → Bool → Option Coefficient
scan_coefficient [] digits exp seen_point =
    some (record { digits = digits; exp = exp; seen_point = seen_point; rest = [] })
scan_coefficient (c ∷ cs) digits exp seen_point =
    let after_point = scan_coefficient cs digits exp true in
    let after_digit =
      scan_coefficient cs (digits ++ ((c - b'0') ∷ []))
        (if seen_point then exp +ℤ negsuc 0 else exp) seen_point in
    if c == b'.'
    then (if seen_point then none else after_point)
    else if is_exp c
    then some (record { digits = digits; exp = exp; seen_point = seen_point; rest = c ∷ cs })
    else if is_digit c
    then after_digit
    else none

-- The loop over the digits of the exponent; `none` is the result -1.
unfoldable pub scan_exponent : List ℕ → ℕ → Bool → Option ℕ
scan_exponent [] ev edig = if edig then some ev else none
scan_exponent (c ∷ cs) ev edig =
    let more = scan_exponent cs (ev * 10 + (c - b'0')) true in
    if is_digit c then (if ltb int32_max (ev * 10 + (c - b'0')) then none else more) else none

-- What stands behind `e`: a sign, or none, and digits.
unfoldable pub signed_exponent : List ℕ → Option ℤ
signed_exponent [] = none
signed_exponent (c ∷ cs) =
    if is_sign c
    then (elim (scan_exponent cs 0 false) [
      | none ↦ none
      | some ev ↦ some (if c == b'-' then neg ev else pos ev)
    ])
    else (elim (scan_exponent (c ∷ cs) 0 false) [ none ↦ none | some ev ↦ some (pos ev) ])

-- The text from the coefficient loop's end on is empty, or begins with `e` or `E`.
unfoldable pub exponent_part : List ℕ → Option ℤ
exponent_part [] = some (pos 0)
exponent_part (c ∷ cs) = signed_exponent cs

unfoldable pub append_parsed : Writer → Bool → List ℕ → Bool × Writer
append_parsed w negative text = elim (scan_coefficient text [] (pos 0) false) [
  | none ↦ (false, w)
  | some k ↦ if length k.digits == 0 then (false, w) else (elim (exponent_part k.rest) [
    | none ↦ (false, w)
    | some e ↦
        if beyond_int32 (k.exp +ℤ e)
        then (false, w)
        else append_decimal w negative k.digits (k.exp +ℤ e)
  ])
]

unfoldable pub append_decimal_string : Writer → List ℕ → Bool × Writer
append_decimal_string w [] = append_parsed w false []
append_decimal_string w (c ∷ cs) =
    if is_sign c then append_parsed w (c == b'-') cs else append_parsed w false (c ∷ cs)
