-- ===== src/Json/Render/Base64.antt =====
-- The base64 of c/struple_json.c against a decoder of the format.
use struple.Prelude.{
  ℕ, ◌+◌, ◌-◌, ◌*◌, ◌/◌, ◌%◌, ◌<◌, ◌≡◌, refl, arith, List, [], ◌∷◌, ltb, ◌==◌, bit_or,
  if◌then◌else◌, false,
}
use struple.Prelude.Bits.{bit_or_disjoint}
use struple.Bytes.{IsBytes}
use struple.Json.Render.{base64, base64_char, joined}

-- The six bits of a character
unfoldable pub base64_value : ℕ → ℕ
base64_value c =
    if c == 43
    then 62
    else if c == 47
    then 63
    else if ltb c 58
    then c - 48 + 52
    else if ltb c 91
    then c - 65
    else c - 97 + 26

-- The bytes of a group of four characters, two of them or one at the padding
abbrev group_bytes : ℕ → ℕ → ℕ → ℕ → List ℕ → List ℕ
group_bytes v w x y rest = (v * 4 + w / 16) ∷ (w % 16 * 16 + x / 4) ∷ (x % 4 * 64 + y) ∷ rest

unfoldable pub from_base64 : List ℕ → List ℕ
from_base64 (a ∷ b ∷ c ∷ d ∷ rest) =
    let v = base64_value a in
    let w = base64_value b in
    let x = base64_value c in
    let y = base64_value d in
    let more = from_base64 rest in
    if c == 61
    then (v * 4 + w / 16) ∷ []
    else if d == 61
    then (v * 4 + w / 16) ∷ (w % 16 * 16 + x / 4) ∷ []
    else group_bytes v w x y more
from_base64 cs = []

base64_value-base64_char : (n : ℕ) → n < 64 → base64_value (base64_char n) ≡ n
unfolding base64_value base64_char
base64_value-base64_char n h = ground arith

sextet : (n : ℕ) → base64_value (base64_char (n % 64)) ≡ n % 64
sextet n = base64_value-base64_char (n % 64) (omega arith)

no_padding : (n : ℕ) → n < 64 → (base64_char n == 61) ≡ false
unfolding base64_char
no_padding n h = ground arith

module _ (b0 b1 b2 : ℕ) where
  third_char : (base64_char (joined b0 b1 b2 / 64 % 64) == 61) ≡ false
  third_char = no_padding (joined b0 b1 b2 / 64 % 64) (omega arith)

  fourth_char : (base64_char (joined b0 b1 b2 % 64) == 61) ≡ false
  fourth_char = no_padding (joined b0 b1 b2 % 64) (omega arith)

joined_lem : (b0 b1 b2 : ℕ) → b1 < 256 → b2 < 256 → joined b0 b1 b2 ≡ b0 * 65536 + b1 * 256 + b2
joined_lem b0 b1 b2 h1 h2 =
    let high : bit_or (b0 * 65536) (b1 * 256) ≡ b0 * 65536 + b1 * 256 =
      bit_or_disjoint 16 b0 (b0 * 65536) (b1 * 256) (omega arith) (omega arith) in
    rw high
      (bit_or_disjoint 8 (b0 * 256 + b1) (b0 * 65536 + b1 * 256) b2 (omega arith) (omega arith))

abbrev number : ℕ → ℕ → ℕ → ℕ
number b0 b1 b2 = b0 * 65536 + b1 * 256 + b2

module _ (b0 b1 b2 : ℕ) (h0 : b0 < 256) (h1 : b1 < 256) (h2 : b2 < 256) where
  first_byte : number b0 b1 b2 / 262144 % 64 * 4 + number b0 b1 b2 / 4096 % 64 / 16 ≡ b0
  first_byte = omega arith

  second_byte : number b0 b1 b2 / 4096 % 64 % 16 * 16 + number b0 b1 b2 / 64 % 64 / 4 ≡ b1
  second_byte = omega arith

  third_byte : number b0 b1 b2 / 64 % 64 % 4 * 64 + number b0 b1 b2 % 64 ≡ b2
  third_byte = omega arith

cons_eq : {x y : ℕ} {xs ys : List ℕ} → x ≡ y → xs ≡ ys → x ∷ xs ≡ y ∷ ys
cons_eq e h = cc (e, h)

-- For every byte string, a decoder of base64 with padding gives the bytes back that base64 has
-- encoded.
pub from_base64-base64 :
    (content : List ℕ) → IsBytes content → from_base64 (base64 content) ≡ content
unfolding base64 from_base64
from_base64-base64 [] h = refl
from_base64-base64 (b0 ∷ []) (h0, h) =
    let n = number b0 0 0 in
    rw (joined_lem b0 0 0 (omega arith) (omega arith), sextet (n / 262144), sextet (n / 4096))
      (cons_eq (first_byte b0 0 0 h0 (omega arith) (omega arith)) refl)
from_base64-base64 (b0 ∷ b1 ∷ []) (h0, h) =
    let n = number b0 b1 0 in
    rw
      (
        third_char b0 b1 0,
        joined_lem b0 b1 0 h.0 (omega arith),
        sextet (n / 262144),
        sextet (n / 4096),
        sextet (n / 64),
      )
      (cons_eq (first_byte b0 b1 0 h0 h.0 (omega arith))
        (cons_eq (second_byte b0 b1 0 h0 h.0 (omega arith)) refl))
from_base64-base64 (b0 ∷ b1 ∷ b2 ∷ rest) (h0, h) =
    let n = number b0 b1 b2 in
    rw
      (
        third_char b0 b1 b2,
        fourth_char b0 b1 b2,
        joined_lem b0 b1 b2 h.0 h.1.0,
        sextet (n / 262144),
        sextet (n / 4096),
        sextet (n / 64),
        sextet n,
      )
      (cons_eq (first_byte b0 b1 b2 h0 h.0 h.1.0) (
        cons_eq (second_byte b0 b1 b2 h0 h.0 h.1.0)
          (cons_eq (third_byte b0 b1 b2 h0 h.0 h.1.0) (from_base64-base64 rest h.1.1))))
