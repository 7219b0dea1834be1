-- ===== src/Json/Magnitude/Encoded.antt =====
-- `encode_int_text` on the decimal text of a magnitude beyond an int64_t.
use struple.Prelude.{
  ℕ, ◌+◌, ◌^◌, ◌<◌, ◌≡◌, refl, ◌∙◌, arith, List, [], ◌∷◌, Bool, true, false, some, none, ==_false,
  ltb, leb, leb-false, ltb→lt, lt→leb-false, le→ltb-false, if◌then◌else◌, Bool-cases, inl, inr,
}
use struple.Codes.{int64_max, u64_mod}
use struple.Bytes.{u64_to_be}
use struple.Bytes.BigEndian.{be_value, be_from, IsNormal, IsNormal-injective}
use struple.Bytes.Digits.{be_value-u64_to_be, u64_to_be-IsNormal}
use struple.Writer.{Writer}
use struple.Encode.Ints.{strip_zeros, append_uint, append_big_int}
use struple.Encode.Ints.Stripped.{
  be_value-strip_zeros, strip_zeros-IsStripped, strip_zeros-normal, IsStripped,
}
use struple.Reader.{bigint}
use struple.Reader.Next.Fixed.{number}
use struple.Json.Parse.{sign}
use struple.Json.Encode.{strtoll, strtoull, encode_int_text}
use struple.Json.Magnitude.{decimal_to_magnitude}
use struple.Json.Magnitude.Numerals.{IsNumeral}
use struple.Json.Magnitude.Values.{decimal_to_magnitude-text_value, normal_positive}

-- The bound that an int64_t leaves out, on each side
abbrev pub limit : Bool → ℕ
limit negative = if negative then int64_max + 1 else int64_max

pub beyond_limit :
    (negative : Bool) (mag : List ℕ)
    → number negative mag ≡ bigint negative mag
    → limit negative < be_value mag
beyond_limit false mag h = elim (Bool-cases (leb (be_value mag) int64_max)) [
  | inl e ↦ cc (rw e at h)
  | inr e ↦ leb-false (be_value mag) int64_max e
]
beyond_limit true mag h = elim (Bool-cases (leb (be_value mag) (int64_max + 1))) [
  | inl e ↦ cc (rw e at h)
  | inr e ↦ leb-false (be_value mag) (int64_max + 1) e
]

stripped_back : (p mag : List ℕ) → IsStripped p → IsNormal mag → be_value p ≡ be_value mag → p ≡ mag
unfolding be_from
stripped_back [] [] h k e = refl
stripped_back [] (b ∷ bs) h k e = absurd (omega (arith, normal_positive b bs k, e))
stripped_back (a ∷ p) mag h k e = IsNormal-injective (a ∷ p) mag h k e

word_back :
    (w : Writer) (mag : List ℕ)
    → IsNormal mag
    → be_value mag < u64_mod
    → append_uint w (be_value mag) ≡ append_big_int w false mag
unfolding append_uint append_big_int
word_back w [] normal small = absurd normal
word_back w (b ∷ bs) normal small =
    let above : 0 < be_value (b ∷ bs) = normal_positive b bs normal in
    let same : u64_to_be (be_value (b ∷ bs)) ≡ b ∷ bs =
      IsNormal-injective (u64_to_be (be_value (b ∷ bs))) (b ∷ bs)
        (u64_to_be-IsNormal (be_value (b ∷ bs)) above small) normal
        (be_value-u64_to_be (be_value (b ∷ bs)) above small) in
    rw
      (
        ==_false (be_value (b ∷ bs)) 0 (λ e. absurd (omega (arith, above, e))),
        strip_zeros-normal (b ∷ bs) normal,
        same,
      )
      refl

module _ (w : Writer) (mag ds : List ℕ) (normal : IsNormal mag)
    (numeral : IsNumeral (be_value mag) ds) where
  read_back : strip_zeros (decimal_to_magnitude ds) ≡ mag
  read_back =
      let (value, are_bytes) = decimal_to_magnitude-text_value ds numeral.digits in
      stripped_back (strip_zeros (decimal_to_magnitude ds)) mag
        (strip_zeros-IsStripped (decimal_to_magnitude ds) are_bytes) normal
        (be_value-strip_zeros (decimal_to_magnitude ds) ∙ value ∙ numeral.value)

  append_back :
      (negative : Bool)
      → append_big_int w negative (decimal_to_magnitude ds) ≡ append_big_int w negative mag
  unfolding append_big_int
  append_back negative = rw (read_back, strip_zeros-normal mag normal) refl

  pub minus_back :
      int64_max + 1 < be_value mag → encode_int_text w (45 ∷ ds) ≡ append_big_int w true mag
  unfolding encode_int_text strtoll
  minus_back beyond =
      rw (encode_int_text, numeral.value, lt→leb-false (be_value mag) (2 ^ 63) beyond)
        (append_back true)

  too_large : (sign ds ≡ ([], ds)) → int64_max < be_value mag → strtoll ds ≡ none
  unfolding strtoll
  too_large plain beyond =
      rw
        (
          strtoll,
          plain,
          numeral.value,
          le→ltb-false (be_value mag) (2 ^ 63) (omega (arith, beyond)),
        )
        refl

  pub plain_back :
      (sign ds ≡ ([], ds))
      → int64_max < be_value mag
      → encode_int_text w ds ≡ append_big_int w false mag
  unfolding encode_int_text strtoull
  plain_back plain beyond = elim (Bool-cases (ltb (be_value mag) (2 ^ 64))) [
    | inl e ↦
        let word : strtoull ds ≡ some (be_value mag) = rw (strtoull, numeral.value, e) refl in
        rw (encode_int_text, too_large plain beyond, plain, word)
          (word_back w mag normal (ltb→lt (be_value mag) (2 ^ 64) e))
    | inr e ↦
        let no_word : strtoull ds ≡ none = rw (strtoull, numeral.value, e) refl in
        rw (encode_int_text, too_large plain beyond, plain, no_word, plain) (append_back false)
  ]
