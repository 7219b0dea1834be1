-- ===== src/Json/Numbers/Integers.antt =====
-- Integers in JSON text: what `%lld` writes, encoded again.
use struple.Prelude.{
  ℕ, zero, suc, ◌+◌, ◌-◌, ◌/◌, ◌%◌, ◌^◌, ◌<◌, ◌≡◌, refl, ap, ◌∙◌, arith, List, [], ◌∷◌, some,
  Bool-cases, inl, inr, ==_iff, ==_false, lt→ltb, le→leb, ◌==◌,
}
use native.Mathlib.Nat.{pow-succ'}
use struple.Prelude.Int.{ℤ, pos, negsuc}
use struple.Writer.{Writer}
use struple.Encode.Ints.{append_int}
use struple.Json.Parse.{sign}
use struple.Json.Encode.{text_value, strtoll, encode_int_text}
use struple.Json.Numbers.{text_loop, unsigned_text, signed_text}

digit_char : (n : ℕ) → 48 + n % 10 - 48 ≡ n % 10
digit_char n = omega arith

-- With enough rounds the digits stand for the number, in front of what is behind.
text_value-text_loop :
    (f n : ℕ) (behind : List ℕ)
    → n < 10 ^ suc f
    → text_value 0 (text_loop (suc f) n behind) ≡ text_value n behind
unfolding text_loop text_value
text_value-text_loop zero n behind h =
    let small : n / 10 ≡ 0 = omega arith in
    rw ((==_iff (n / 10) 0).1 small) (ap (λ (v : ℕ). text_value v behind) (omega arith))
text_value-text_loop (suc g) n behind h = elim (Bool-cases (n / 10 == 0)) [
  | inl e ↦
      let small : n / 10 ≡ 0 = (==_iff (n / 10) 0).0 e in
      rw e (ap (λ (v : ℕ). text_value v behind) (omega arith))
  | inr e ↦ rw e (
      text_value-text_loop g (n / 10) ((48 + n % 10) ∷ behind) (omega (arith, pow-succ' 10 (suc g)))
      ∙ ap (λ (v : ℕ). text_value v behind) (omega arith))
]

sign_of_digit : (d : ℕ) (cs : List ℕ) → sign ((48 + d) ∷ cs) ≡ ([], (48 + d) ∷ cs)
sign_of_digit d cs = rw (==_false (48 + d) 45 (λ e. absurd (omega (arith, e)))) refl

sign-text_loop :
    (f n : ℕ) (behind : List ℕ)
    → sign (text_loop (suc f) n behind) ≡ ([], text_loop (suc f) n behind)
unfolding text_loop
sign-text_loop zero n behind = elim (Bool-cases (n / 10 == 0)) [
  | inl e ↦ rw e (sign_of_digit (n % 10) behind)
  | inr e ↦ rw e (sign_of_digit (n % 10) behind)
]
sign-text_loop (suc g) n behind = elim (Bool-cases (n / 10 == 0)) [
  | inl e ↦ rw e (sign_of_digit (n % 10) behind)
  | inr e ↦ rw e (sign-text_loop g (n / 10) ((48 + n % 10) ∷ behind))
]

-- int64_t
abbrev pub IsInt64 : ℤ → Type 0
IsInt64 (pos n) = n < 2 ^ 63
IsInt64 (negsuc n) = n < 2 ^ 63

strtoll-signed_text : (v : ℤ) → IsInt64 v → strtoll (signed_text v) ≡ some v
unfolding strtoll
strtoll-signed_text (pos n) h =
    let value : text_value 0 (unsigned_text n) ≡ n = text_value-text_loop 19 n [] (omega arith) in
    rw (sign-text_loop 19 n [], value, lt→ltb n (2 ^ 63) h) refl
strtoll-signed_text (negsuc n) h =
    let value : text_value 0 (unsigned_text (suc n)) ≡ suc n =
      text_value-text_loop 19 (suc n) [] (omega arith) in
    rw (value, le→leb (suc n) (2 ^ 63) h) (ground arith)

-- For every value of an int64_t, encode_int_text on the decimal text that render writes for it is
-- append_int of the value.
pub encode_int_text-signed_text :
    (w : Writer) (v : ℤ) → IsInt64 v → encode_int_text w (signed_text v) ≡ append_int w v
unfolding encode_int_text
encode_int_text-signed_text w v h = rw (encode_int_text, strtoll-signed_text v h) refl
