-- ===== src/Bytes.antt =====
-- Bytes, and the integer helpers of c/struple.c. A byte array is a list of numbers below 256, a
-- uint64_t is a number below 2 ^ 64, `x >> 8` is `x / 256` and `x & 0xff` is `x % 256`.
pub mod BigEndian
pub mod Digits
pub mod Negation
pub mod Words
use struple.Prelude.{
  ℕ, zero, suc, ◌+◌, ◌-◌, ◌*◌, ◌/◌, ◌%◌, ◌<◌, bit_or, List, [], ◌∷◌, reverse, All, ◌==◌,
  if◌then◌else◌,
}
use struple.Codes.{u64_mod}

abbrev pub IsByte : ℕ → Type 0
IsByte b = b < 256

abbrev pub IsBytes : List ℕ → Type 0
IsBytes = All IsByte

-- `(uint8_t)~b` of a byte `b`
abbrev pub flip : ℕ → ℕ
flip b = 255 - b

abbrev pub flip_all : List ℕ → List ℕ
flip_all [] = []
flip_all (b ∷ bs) = flip b ∷ flip_all bs

-- `v = (v << 8) | p[i]`, in 64 bits
be_to_u64_loop : ℕ → List ℕ → ℕ
be_to_u64_loop v [] = v
be_to_u64_loop v (b ∷ bs) = be_to_u64_loop (bit_or (v * 256 % u64_mod) b) bs

unfoldable pub be_to_u64 : List ℕ → ℕ
unfolding be_to_u64_loop
be_to_u64 p = be_to_u64_loop 0 p

-- `while (mag) { tmp[n++] = mag & 0xff; mag >>= 8; }`, with the rounds left.
u64_digits : ℕ → ℕ → List ℕ
u64_digits zero mag = []
u64_digits (suc f) mag =
    let rest = u64_digits f (mag / 256) in if mag == 0 then [] else (mag % 256) ∷ rest

-- Eight rounds shift a uint64_t out.
unfoldable pub u64_to_be : ℕ → List ℕ
unfolding u64_digits
u64_to_be mag = if mag == 0 then [] else reverse (u64_digits 8 mag)

byte_len_loop : ℕ → ℕ → ℕ → ℕ
byte_len_loop zero n x = n
byte_len_loop (suc f) n x =
    let rest = byte_len_loop f (n + 1) (x / 256) in if x == 0 then n else rest

unfoldable pub byte_len : ℕ → ℕ
unfolding byte_len_loop
byte_len x = byte_len_loop 8 0 x
