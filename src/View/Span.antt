-- ===== src/View/Span.antt =====
-- `element_span`: the length of the element at the front of the bytes, without decoding it.
use struple.Prelude.{
  ℕ, ◌+◌, ◌-◌, Bool, ◌||◌, Option, none, some, List, [], ◌∷◌, length, take, drop, ltb, ◌==◌,
  if◌then◌else◌,
}
use struple.Codes.{
  nil_code, undef_code, bool_false, bool_true, int_neg_big, int_zero, int_pos_big, float32, float64,
  decimal_code, timestamp_code, uuid_code, dec_sign_neg, dec_sign_zero, dec_sign_pos, is_fixed_neg,
  is_fixed_pos,
}
use struple.Encode.Ints.{flip_if}
use struple.Reader.Ints.{slot_width, length_loop}
use struple.Reader.Next.{Outcome, at_end, item, malformed, is_framed}

abbrev pub more : ℕ → Option ℕ → Option ℕ
more k none = none
more k (some n) = some (k + n)

-- `[m][n][magnitude]`: the bytes behind the type code
unfoldable pub big_span : Bool → List ℕ → Option ℕ
big_span neg [] = none
big_span neg (b ∷ bs) =
    let m = flip_if neg b in
    let n = length_loop neg 0 (take m bs) in
    if ltb 8 m
    then none
    else if ltb (length bs) m
    then none
    else if ltb (length bs - m) n
    then none
    else some (1 + m + n)

-- `while (p < len && buf[p] != term) p++;` and the terminator
unfoldable pub digits_span : ℕ → List ℕ → Option ℕ
digits_span term [] = none
digits_span term (b ∷ bs) =
    let rest = more 1 (digits_span term bs) in if b == term then some 1 else rest

-- The embedded exponent, and the digit region behind it.
unfoldable pub exponent_span : Bool → List ℕ → Option ℕ
exponent_span neg [] = none
exponent_span neg (b ∷ bs) =
    let tb = flip_if neg b in
    let term : ℕ = if neg then 0xff else 0x00 in
    if tb == int_zero
    then more 1 (digits_span term bs)
    else if is_fixed_neg tb || is_fixed_pos tb
    then more (1 + slot_width tb) (digits_span term (drop (slot_width tb) bs))
    else none

unfoldable pub decimal_span : List ℕ → Option ℕ
decimal_span [] = none
decimal_span (sign ∷ bs) =
    if sign == dec_sign_zero
    then some 1
    else if sign == dec_sign_neg || sign == dec_sign_pos
    then more 1 (exponent_span (sign == dec_sign_neg) bs)
    else none

-- The escaped content and its terminator.
unfoldable pub framed_span : List ℕ → Option ℕ
framed_span [] = none
framed_span (b ∷ []) = if b == 0x00 then some 1 else none
framed_span (b ∷ c ∷ bs) =
    let escaped = more 2 (framed_span bs) in
    let plain = more 1 (framed_span (c ∷ bs)) in
    if b == 0x00 then (if c == 0xff then escaped else some 1) else plain

unfoldable pub payload_span : ℕ → List ℕ → Option ℕ
payload_span t bs =
    if t == nil_code || t == undef_code || t == bool_false || t == bool_true || t == int_zero
    then some 0
    else if is_fixed_neg t || is_fixed_pos t
    then some (slot_width t)
    else if t == int_neg_big || t == int_pos_big
    then big_span (t == int_neg_big) bs
    else if t == float32
    then some 4
    else if t == float64 || t == timestamp_code
    then some 8
    else if t == decimal_code
    then decimal_span bs
    else if t == uuid_code
    then some 16
    else if is_framed t
    then framed_span bs
    else none

-- `p > len` is tested once, at the end.
abbrev pub checked : ℕ → Option ℕ → Outcome ℕ
checked len none = malformed
checked len (some n) = if ltb len (1 + n) then malformed else item (1 + n)

unfoldable pub element_span : List ℕ → Outcome ℕ
element_span [] = at_end
element_span (t ∷ bs) = checked (length (t ∷ bs)) (payload_span t bs)
