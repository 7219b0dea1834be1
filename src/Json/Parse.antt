-- ===== src/Json/Parse.antt =====
-- The parser of c/struple_json.c. strtod is a parameter: the bits of the double that a decimal number
-- stands for. A parser gives a value and the text behind it, `none` is the result -1.
use struple.Prelude.{
  ℕ, zero, suc, Bool, true, false, ◌||◌, ◌&&◌, List, [], ◌∷◌, ◌++◌, length, Option, none, some,
  ◌==◌, if◌then◌else◌, not,
}
use struple.Floats.{isinf}
use struple.Encode.Scalars.{isnan64}
use struple.Semantic.Order.{max_depth}
use struple.Json.Text.{◌>>=◌, quote, is_digit, skip_ws, lit, span_digits, c_string, same_bytes}
use struple.Json.Strings.{parse_string_raw}
use struple.Json.Value.{
  Value, sj_null, sj_bool, sj_int, sj_float, sj_string, sj_array, sj_object, Items, no_items,
  add_item, Pairs, no_pairs, add_pair,
}

abbrev pub sign : List ℕ → List ℕ × List ℕ
sign [] = ([], [])
sign (c ∷ cs) = if c == 45 then (c ∷ [], cs) else ([], c ∷ cs)

abbrev pub exponent_sign : List ℕ → List ℕ × List ℕ
exponent_sign [] = ([], [])
exponent_sign (c ∷ cs) = if c == 43 || c == 45 then (c ∷ [], cs) else ([], c ∷ cs)

-- The point and its digits, or nothing.
unfoldable pub fraction : List ℕ → List ℕ × List ℕ
unfolding span_digits
fraction [] = ([], [])
fraction (c ∷ cs) = if c == 46 then (c ∷ (span_digits cs).0, (span_digits cs).1) else ([], c ∷ cs)

unfoldable pub exponent : List ℕ → List ℕ × List ℕ
unfolding span_digits
exponent [] = ([], [])
exponent (c ∷ cs) =
    let (s, behind) = exponent_sign cs in
    let (ds, rest) = span_digits behind in
    if c == 101 || c == 69 then (c ∷ s ++ ds, rest) else ([], c ∷ cs)

abbrev pub isfinite : ℕ → Bool
isfinite f = not (isnan64 f) && not (isinf f)

abbrev pub is_empty : List ℕ → Bool
is_empty [] = true
is_empty (c ∷ cs) = false

-- The double of a number with a point or an exponent
abbrev pub float_value : ℕ → Option Value
float_value d = if isfinite d then some (sj_float d) else none

module _ (strtod : List ℕ → ℕ) where
  -- The text begins with a sign or a digit.
  unfoldable pub parse_number : List ℕ → Option (Value × List ℕ)
  unfolding span_digits fraction exponent
  parse_number bs =
      let (s, from_int) = sign bs in
      let (ds, from_point) = span_digits from_int in
      let (frac, from_exponent) = fraction from_point in
      let (ex, rest) = exponent from_exponent in
      if is_empty ds
      then none
      else if is_empty (frac ++ ex)
      then some (sj_int (s ++ ds), rest)
      else (do v ← float_value (strtod (s ++ ds ++ frac ++ ex)); some (v, rest))

-- What follows a member of a container that `close` ends
pub data Separator : Type 0 where
  another : Separator
  closed : Separator
  wrong : Separator

unfoldable pub separator : ℕ → List ℕ → Separator × List ℕ
separator close [] = (wrong, [])
separator close (c ∷ cs) =
    if c == 44 then (another, cs) else if c == close then (closed, cs) else (wrong, cs)

abbrev pub begins_with : ℕ → List ℕ → Option (List ℕ)
begins_with c [] = none
begins_with c (b ∷ bs) = if b == c then some bs else none

abbrev pub then_item : Value → Option (Items × List ℕ) → Option (Items × List ℕ)
then_item v none = none
then_item v (some (vs, rest)) = some (add_item v vs, rest)

abbrev pub then_pair : List ℕ → Value → Option (Pairs × List ℕ) → Option (Pairs × List ℕ)
then_pair k v none = none
then_pair k v (some (ps, rest)) = some (add_pair k v ps, rest)

-- `strcmp(keys[k], key) == 0` for a key before
unfoldable pub is_duplicate : List (List ℕ) → List ℕ → Bool
unfolding same_bytes c_string
is_duplicate [] key = false
is_duplicate (k ∷ seen) key =
    let rest = is_duplicate seen key in
    if same_bytes (c_string k) (c_string key) then true else rest

-- The key of a member, and the text behind its colon
unfoldable pub member_key : List (List ℕ) → List ℕ → Option (List ℕ × List ℕ)
unfolding skip_ws parse_string_raw is_duplicate
member_key seen bs = do
  cs ← begins_with quote (skip_ws bs)
  (key, rest) ← parse_string_raw (quote ∷ cs)
  behind ← (if is_duplicate seen key then none else begins_with 58 (skip_ws rest))
  some (key, behind)

-- The members of containers one level deeper are read by `nested`. The rounds of a loop are bounded by
-- the text, since a member takes a byte at least.
module _ (nested : List ℕ → Option (Value × List ℕ)) where
  unfoldable pub items_loop : ℕ → List ℕ → Option (Items × List ℕ)
  unfolding separator
  items_loop zero bs = none
  items_loop (suc f) bs = elim (nested bs) [
    | none ↦ none
    | some (v, behind) ↦
        let (next, rest) = separator 93 (skip_ws behind) in
        elim next [
          | another ↦ then_item v (items_loop f rest)
          | closed ↦ some (add_item v no_items, rest)
          | wrong ↦ none
        ]
  ]

  unfoldable pub pairs_loop : ℕ → List (List ℕ) → List ℕ → Option (Pairs × List ℕ)
  unfolding separator member_key
  pairs_loop zero seen bs = none
  pairs_loop (suc f) seen bs = elim (member_key seen bs) [
    | none ↦ none
    | some (key, from_value) ↦ elim (nested from_value) [
      | none ↦ none
      | some (v, behind) ↦
          let (next, rest) = separator 125 (skip_ws behind) in
          elim next [
            | another ↦ then_pair key v (pairs_loop f (key ∷ seen) rest)
            | closed ↦ some (add_pair key v no_pairs, rest)
            | wrong ↦ none
          ]
    ]
  ]

  -- Both begin behind the bracket.
  unfoldable pub parse_array : List ℕ → Option (Value × List ℕ)
  unfolding items_loop
  parse_array bs = elim (begins_with 93 (skip_ws bs)) [
    | some rest ↦ some (sj_array no_items, rest)
    | none ↦ do (vs, rest) ← items_loop (suc (length bs)) (skip_ws bs); some (sj_array vs, rest)
  ]

  unfoldable pub parse_object : List ℕ → Option (Value × List ℕ)
  unfolding pairs_loop
  parse_object bs = elim (begins_with 125 (skip_ws bs)) [
    | some rest ↦ some (sj_object no_pairs, rest)
    | none ↦ do (ps, rest) ← pairs_loop (suc (length bs)) [] (skip_ws bs); some (sj_object ps, rest)
  ]

abbrev pub literal : List ℕ → Value → List ℕ → Option (Value × List ℕ)
literal s v bs = do rest ← lit s bs; some (v, rest)

module _ (strtod : List ℕ → ℕ) (array object : List ℕ → Option (Value × List ℕ)) where
  -- The dispatch on the first byte behind the blanks
  unfoldable pub value_of : List ℕ → Option (Value × List ℕ)
  unfolding parse_string_raw parse_number lit
  value_of [] = none
  value_of (c ∷ cs) =
      if c == 110
      then literal (110 ∷ 117 ∷ 108 ∷ 108 ∷ []) sj_null (c ∷ cs)
      else if c == 116
      then literal (116 ∷ 114 ∷ 117 ∷ 101 ∷ []) (sj_bool true) (c ∷ cs)
      else if c == 102
      then literal (102 ∷ 97 ∷ 108 ∷ 115 ∷ 101 ∷ []) (sj_bool false) (c ∷ cs)
      else if c == quote
      then (do (s, rest) ← parse_string_raw (c ∷ cs); some (sj_string s, rest))
      else if c == 91
      then array cs
      else if c == 123
      then object cs
      else if c == 45 || is_digit c
      then parse_number strtod (c ∷ cs)
      else none

module _ (strtod : List ℕ → ℕ) where
  -- With the levels of nesting that are left: a container at depth + 1 needs one.
  unfoldable pub parse_value : ℕ → List ℕ → Option (Value × List ℕ)
  unfolding value_of parse_array parse_object skip_ws
  parse_value zero bs = value_of strtod (λ r. none) (λ r. none) (skip_ws bs)
  parse_value (suc levels) bs =
      value_of strtod (parse_array (parse_value levels)) (parse_object (parse_value levels))
        (skip_ws bs)

  abbrev pub whole : Option (Value × List ℕ) → Option Value
  whole none = none
  whole (some (v, rest)) = elim (skip_ws rest) [ [] ↦ some v | c ∷ cs ↦ none ]

  unfoldable pub json_parse : List ℕ → Option Value
  unfolding parse_value
  json_parse text = whole (parse_value max_depth text)
