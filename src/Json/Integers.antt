-- ===== src/Json/Integers.antt =====
-- Integers through JSON: `struple_to_json` of an encoded integer, and `struple_from_json` of the text.
pub mod RoundTrip
use struple.Prelude.{
  ℕ, zero, suc, ◌+◌, ◌-◌, ◌^◌, ◌<◌, ◌≤◌, ◌≡◌, refl, sym, ap, ◌∙◌, arith, List, [], ◌∷◌, ◌++◌, All,
  append-nil, Bool, true, false, Option, none, some, ◌==◌, ◌||◌, if◌then◌else◌, ==_false, Ordering,
}
use struple.Semantic.Order.{max_depth}
use struple.Json.Text.{skip_ws, span_digits, is_digit, quote}
use struple.Json.Value.{Value, sj_int}
use struple.Json.Parse.{
  sign, fraction, exponent, is_empty, parse_number, value_of, parse_value, parse_array,
  parse_object, whole, json_parse,
}
use struple.Json.Magnitude.Numerals.{IsDigitChar}

-- The text of a number: a minus or nothing, and digits
abbrev pub token : Bool → List ℕ → List ℕ
token negative ds = if negative then 45 ∷ ds else ds

digits_only : (ds : List ℕ) → All IsDigitChar ds → span_digits ds ≡ (ds, [])
unfolding span_digits
digits_only [] h = refl
digits_only (c ∷ cs) ((lo, hi), h) =
    let digit : is_digit c ≡ true = ground arith in rw (digits_only cs h, digit) refl

no_blank : (c : ℕ) (cs : List ℕ) → 45 ≤ c → skip_ws (c ∷ cs) ≡ c ∷ cs
unfolding skip_ws
no_blank c cs h = ground arith

parse_digits :
    (strtod : List ℕ → ℕ) (c : ℕ) (cs : List ℕ)
    → All IsDigitChar (c ∷ cs)
    → parse_number strtod (c ∷ cs) ≡ some (sj_int (c ∷ cs), [])
unfolding parse_number fraction exponent
parse_digits strtod c cs h =
    rw (==_false c 45 (λ e. absurd (omega (arith, e, h.0))), digits_only (c ∷ cs) h) refl

parse_minus :
    (strtod : List ℕ → ℕ) (c : ℕ) (cs : List ℕ)
    → All IsDigitChar (c ∷ cs)
    → parse_number strtod (45 ∷ c ∷ cs) ≡ some (sj_int (45 ∷ c ∷ cs), [])
unfolding parse_number fraction exponent
parse_minus strtod c cs h = rw (digits_only (c ∷ cs) h) refl

pub parse_token :
    (strtod : List ℕ → ℕ) (negative : Bool) (c : ℕ) (cs : List ℕ)
    → All IsDigitChar (c ∷ cs)
    → parse_number strtod (token negative (c ∷ cs)) ≡ some (sj_int (token negative (c ∷ cs)), [])
parse_token strtod true c cs h = parse_minus strtod c cs h
parse_token strtod false c cs h = parse_digits strtod c cs h

-- A digit begins a number and nothing else.
value_of-digit :
    (strtod : List ℕ → ℕ) (array object : List ℕ → Option (Value × List ℕ)) (c : ℕ) (cs : List ℕ)
    → IsDigitChar c
    → value_of strtod array object (c ∷ cs) ≡ parse_number strtod (c ∷ cs)
unfolding value_of
value_of-digit strtod array object c cs (lo, hi) =
    let digit : (c == 45 || is_digit c) ≡ true = ground arith in
    rw
      (
        ==_false c 110 (λ e. absurd (omega (arith, e))),
        ==_false c 116 (λ e. absurd (omega (arith, e))),
        ==_false c 102 (λ e. absurd (omega (arith, e))),
        ==_false c quote (λ e. absurd (omega (arith, e))),
        ==_false c 91 (λ e. absurd (omega (arith, e))),
        ==_false c 123 (λ e. absurd (omega (arith, e))),
        digit,
      )
      refl

value_of-token :
    (strtod : List ℕ → ℕ) (array object : List ℕ → Option (Value × List ℕ)) (negative : Bool)
    (c : ℕ) (cs : List ℕ)
    → All IsDigitChar (c ∷ cs)
    → value_of strtod array object (skip_ws (token negative (c ∷ cs)))
      ≡ some (sj_int (token negative (c ∷ cs)), [])
value_of-token strtod array object true c cs h =
    rw (no_blank 45 (c ∷ cs) (omega arith)) (unfold value_of in parse_token strtod true c cs h)
value_of-token strtod array object false c cs h =
    rw (no_blank c cs (omega (arith, h.0)))
      (value_of-digit strtod array object c cs h.0 ∙ parse_token strtod false c cs h)

parse_value-token :
    (strtod : List ℕ → ℕ) (levels : ℕ) (negative : Bool) (c : ℕ) (cs : List ℕ)
    → All IsDigitChar (c ∷ cs)
    → parse_value strtod (suc levels) (token negative (c ∷ cs))
      ≡ some (sj_int (token negative (c ∷ cs)), [])
unfolding parse_value
parse_value-token strtod levels negative c cs h =
    value_of-token strtod (parse_array (parse_value strtod levels))
      (parse_object (parse_value strtod levels)) negative c cs h

whole_value : (strtod : List ℕ → ℕ) (v : Value) → whole strtod (some (v, [])) ≡ some v
unfolding skip_ws
whole_value strtod v = refl

pub json_parse-token :
    (strtod : List ℕ → ℕ) (negative : Bool) (c : ℕ) (cs : List ℕ)
    → All IsDigitChar (c ∷ cs)
    → json_parse strtod (token negative (c ∷ cs)) ≡ some (sj_int (token negative (c ∷ cs)))
unfolding json_parse
json_parse-token strtod negative c cs h =
    ap (whole strtod) (parse_value-token strtod 255 negative c cs h)
    ∙ whole_value strtod (sj_int (token negative (c ∷ cs)))
