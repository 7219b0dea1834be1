-- ===== src/Json/Magnitude.antt =====
-- Decimal digits to a big-endian magnitude and back, of c/struple_json.c.
pub mod Numerals
pub mod Values
pub mod Encoded
use struple.Prelude.{
  ℕ, zero, suc, ◌+◌, ◌-◌, ◌*◌, ◌/◌, ◌%◌, List, [], ◌∷◌, length, reverse, Option, none, some, ◌==◌,
  if◌then◌else◌,
}
use struple.Encode.Ints.{strip_zeros}
use struple.Semantic.Digits.{multiply_loop, push_carry}
use struple.Json.Text.{is_digit}

-- A character that is no digit is skipped.
unfoldable pub magnitude_loop : List ℕ → List ℕ → List ℕ
unfolding multiply_loop push_carry
magnitude_loop buf [] = buf
magnitude_loop buf (c ∷ cs) =
    let (carry, out) = multiply_loop 10 (c - 48) buf in
    magnitude_loop (if is_digit c then push_carry 4 carry out else buf) cs

unfoldable pub decimal_to_magnitude : List ℕ → List ℕ
unfolding magnitude_loop
decimal_to_magnitude digits = magnitude_loop [] digits

-- The inner loop: work[start..len) divided by 10, from the remainder before, and the last remainder.
unfoldable pub divide_loop : ℕ → List ℕ → List ℕ × ℕ
divide_loop rem [] = ([], rem)
divide_loop rem (b ∷ bs) =
    let cur : ℕ = rem * 256 + b in
    let (out, last) = divide_loop (cur % 10) bs in (cur / 10 % 256 ∷ out, last)

abbrev pub cons_digit : ℕ → Option (List ℕ) → Option (List ℕ)
cons_digit c none = none
cons_digit c (some cs) = some (c ∷ cs)

-- The digits from the last to the first, with the rounds left. `work` is work[start..len), and the
-- loop has ended where it is empty; `none` where the rounds are used up before.
unfoldable pub decimal_loop : ℕ → List ℕ → Option (List ℕ)
unfolding divide_loop strip_zeros
decimal_loop f [] = some []
decimal_loop zero (b ∷ bs) = none
decimal_loop (suc f) (b ∷ bs) =
    let (out, rem) = divide_loop 0 (b ∷ bs) in
    cons_digit (48 + rem) (decimal_loop f (strip_zeros out))

abbrev pub turned : Option (List ℕ) → Option (List ℕ)
turned none = none
turned (some cs) = some (reverse cs)

-- A magnitude of n bytes has at most 3 * n decimal digits. `none` stands for a loop that goes on.
unfoldable pub magnitude_to_decimal : List ℕ → Option (List ℕ)
unfolding decimal_loop
magnitude_to_decimal [] = some (48 ∷ [])
magnitude_to_decimal (b ∷ bs) = turned (decimal_loop (3 * length (b ∷ bs)) (b ∷ bs))
