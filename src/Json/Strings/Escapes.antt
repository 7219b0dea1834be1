-- ===== src/Json/Strings/Escapes.antt =====
-- Hexadecimal escapes and surrogate pairs, read back by the parser of c/struple_json.c.
use struple.Prelude.{
  ℕ, ◌+◌, ◌-◌, ◌*◌, ◌/◌, ◌%◌, ◌^◌, ◌≤◌, ◌<◌, ◌≡◌, ap, arith, List, [], ◌∷◌, ◌++◌, some, ltb, true,
  false, ◌||◌,
}
use struple.Prelude.Bits.{bit_or_disjoint}
use struple.Json.Text.{backslash, within}
use struple.Json.Strings.{hex_digit, hex_step, hex4, hex_char, code_point, low_surrogate}

hex_digit-hex_char : (d : ℕ) → d < 16 → hex_digit (hex_char d) ≡ some d
unfolding hex_digit
hex_digit-hex_char d h = ground arith

hex_step_lem : (v d : ℕ) → v < 2 ^ 12 → d < 16 → hex_step v d ≡ v * 16 + d
hex_step_lem v d hv hd =
    let small : v * 16 % 2 ^ 32 ≡ v * 16 = omega arith in
    rw small (bit_or_disjoint 4 v (v * 16) d (omega arith) (omega arith))

-- The four hexadecimal digits of a number
abbrev pub four_digits : ℕ → List ℕ
four_digits c =
    hex_char (c / 4096 % 16)
    ∷ hex_char (c / 256 % 16)
    ∷ hex_char (c / 16 % 16)
    ∷ hex_char (c % 16)
    ∷ []

pub hex4-four_digits :
    (c : ℕ) (more : List ℕ) → c < 2 ^ 16 → hex4 (four_digits c ++ more) ≡ some (c, more)
unfolding hex4
hex4-four_digits c more h =
    let w = c / 4096 % 16 in
    let x = c / 256 % 16 in
    let y = c / 16 % 16 in
    let z = c % 16 in
    rw
      (
        hex_digit-hex_char w (omega arith),
        hex_digit-hex_char x (omega arith),
        hex_digit-hex_char y (omega arith),
        hex_digit-hex_char z (omega arith),
        hex_step_lem 0 w (omega arith) (omega arith),
        hex_step_lem (0 * 16 + w) x (omega arith) (omega arith),
        hex_step_lem ((0 * 16 + w) * 16 + x) y (omega arith) (omega arith),
        hex_step_lem (((0 * 16 + w) * 16 + x) * 16 + y) z (omega arith) (omega arith),
      )
      (ap (λ (v : ℕ). some (v, more)) (omega arith))

-- The halves of a code point beyond the first 2 ^ 16
abbrev pub high_half : ℕ → ℕ
high_half cp = 0xd800 + (cp - 0x10000) / 1024

abbrev pub low_half : ℕ → ℕ
low_half cp = 0xdc00 + (cp - 0x10000) % 1024

-- For a code point from 2 ^ 16 on and below 0x110000, the two hexadecimal escapes of its surrogate
-- halves are read as the code point, whatever is behind them.
pub code_point-surrogates :
    (cp : ℕ) (more : List ℕ)
    → 0x10000 ≤ cp
    → cp < 0x110000
    → code_point
        (four_digits (high_half cp) ++ backslash ∷ 117 ∷ (four_digits (low_half cp) ++ more))
      ≡ some (cp, more)
unfolding code_point low_surrogate
code_point-surrogates cp more lo hi =
    let is_high : within 0xd800 0xdbff (high_half cp) ≡ true = ground arith in
    let is_low : (ltb (low_half cp) 0xdc00 || ltb 0xdfff (low_half cp)) ≡ false = ground arith in
    rw
      (
        hex4-four_digits (high_half cp) (backslash ∷ 117 ∷ (four_digits (low_half cp) ++ more))
            (omega arith),
        is_high,
        hex4-four_digits (low_half cp) more (omega arith),
        is_low,
      )
      (ap (λ (v : ℕ). some (v, more)) (omega arith))
