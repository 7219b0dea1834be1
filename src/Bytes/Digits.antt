-- ===== src/Bytes/Digits.antt =====
-- `u64_to_be` writes the magnitude of its argument.
use mathlib.Core.List.{reverse-cons}
use struple.Prelude.{
  ℕ, zero, suc, ◌+◌, ◌*◌, ◌/◌, ◌%◌, ◌≤◌, ◌<◌, ◌≡◌, refl, ap, ◌∙◌, arith, List, [], ◌∷◌, ◌++◌,
  reverse, length, length-append, All-append, ==_false, inl, inr, three_ways,
}
use struple.Codes.{u64_mod}
use struple.Bytes.{IsByte, IsBytes, u64_digits, u64_to_be, byte_len_loop, byte_len}
use struple.Bytes.BigEndian.{
  be_from, be_value, be_from-append, power, power-suc, IsNormal, IsNormal-of_power,
}

-- The digits of u64_to_be, lowest first.
abbrev le_value : List ℕ → ℕ
le_value [] = 0
le_value (d ∷ ds) = d + 256 * le_value ds

be_value-snoc : (xs : List ℕ) (d : ℕ) → be_value (xs ++ d ∷ []) ≡ be_value xs * 256 + d
be_value-snoc xs d = be_from-append 0 xs (d ∷ []) ∙ unfold be_from in refl

be_value-reverse : (ds : List ℕ) → be_value (reverse ds) ≡ le_value ds
be_value-reverse [] = unfold be_from in refl
be_value-reverse (d ∷ ds) =
    ap be_value (reverse-cons d ds)
    ∙ be_value-snoc (reverse ds) d
    ∙ omega (arith, be_value-reverse ds)

length-reverse_bytes : (ds : List ℕ) → length (reverse ds) ≡ length ds
length-reverse_bytes [] = refl
length-reverse_bytes (d ∷ ds) =
    ap length (reverse-cons d ds)
    ∙ omega (arith, length-append (reverse ds) (d ∷ []), length-reverse_bytes ds)

IsBytes-reverse : (ds : List ℕ) → IsBytes ds → IsBytes (reverse ds)
IsBytes-reverse [] h = h
IsBytes-reverse (d ∷ ds) (hd, h) =
    rw reverse-cons (All-append IsByte (reverse ds) (d ∷ []) (IsBytes-reverse ds h) (omega arith))

le_value-u64_digits : (f mag : ℕ) → mag < power f → le_value (u64_digits f mag) ≡ mag
unfolding u64_digits
le_value-u64_digits zero mag h = omega arith
le_value-u64_digits (suc f) mag h =
    ground (arith, le_value-u64_digits f (mag / 256) (omega (arith, power-suc f)))

IsBytes-u64_digits : (f mag : ℕ) → IsBytes (u64_digits f mag)
unfolding u64_digits
IsBytes-u64_digits zero mag = tt
IsBytes-u64_digits (suc f) mag = ground (arith, IsBytes-u64_digits f (mag / 256))

length-u64_digits : (f mag : ℕ) → length (u64_digits f mag) ≤ f
unfolding u64_digits
length-u64_digits zero mag = omega arith
length-u64_digits (suc f) mag = ground (arith, length-u64_digits f (mag / 256))

u64_digits-zero : (f : ℕ) → u64_digits f 0 ≡ []
unfolding u64_digits
u64_digits-zero zero = refl
u64_digits-zero (suc f) = refl

u64_digits-suc : (f m : ℕ) → u64_digits (suc f) (suc m) ≡ suc m % 256 ∷ u64_digits f (suc m / 256)
unfolding u64_digits
u64_digits-suc f m = ground arith

power-u64_digits :
    (f mag : ℕ) → 0 < mag → mag < power f → power (length (u64_digits f mag)) ≤ 256 * mag
power-u64_digits zero mag p h = absurd (omega arith)
power-u64_digits (suc f) zero p h = absurd (omega arith)
power-u64_digits (suc f) (suc m) p h = elim (three_ways 0 (suc m / 256)) [
  | inl more ↦ rw (u64_digits-suc f m) (
      omega (
        arith,
        power-suc f,
        power-suc (length (u64_digits f (suc m / 256))),
        power-u64_digits f (suc m / 256) more,
      ))
  | inr (inl last) ↦ rw (u64_digits-suc f m, ← last, u64_digits-zero f) (omega arith)
  | inr (inr less) ↦ absurd (omega arith)
]

-- For a uint64_t that is not 0: at most eight bytes, no leading zero, and the number itself.
module _ (mag : ℕ) (some_bit : 0 < mag) (small : mag < u64_mod) where
  u64_to_be-reverse : u64_to_be mag ≡ reverse (u64_digits 8 mag)
  unfolding u64_to_be
  u64_to_be-reverse = rw (==_false mag 0 (omega arith)) refl

  pub be_value-u64_to_be : be_value (u64_to_be mag) ≡ mag
  be_value-u64_to_be =
      rw u64_to_be-reverse
        (be_value-reverse (u64_digits 8 mag) ∙ le_value-u64_digits 8 mag (omega arith))

  pub length-u64_to_be : length (u64_to_be mag) ≤ 8
  length-u64_to_be =
      rw (u64_to_be-reverse, length-reverse_bytes (u64_digits 8 mag)) (length-u64_digits 8 mag)

  pub u64_to_be-IsNormal : IsNormal (u64_to_be mag)
  u64_to_be-IsNormal =
      IsNormal-of_power (u64_to_be mag)
        (rw u64_to_be-reverse (IsBytes-reverse _ (IsBytes-u64_digits 8 mag)))
        (rw be_value-u64_to_be (
          rw (u64_to_be-reverse, length-reverse_bytes (u64_digits 8 mag))
            (power-u64_digits 8 mag some_bit (omega arith))))

byte_len_loop-digits : (f n x : ℕ) → byte_len_loop f n x ≡ n + length (u64_digits f x)
unfolding byte_len_loop u64_digits
byte_len_loop-digits zero n x = omega arith
byte_len_loop-digits (suc f) n x = ground (arith, byte_len_loop-digits f (n + 1) (x / 256))

le_value-lt : (ds : List ℕ) → IsBytes ds → le_value ds < power (length ds)
le_value-lt [] h = omega arith
le_value-lt (d ∷ ds) (hd, h) = omega (arith, le_value-lt ds h, power-suc (length ds))

-- `byte_len` of a number that is not 0: one to eight, enough bytes to hold it, and none too many.
module _ (x : ℕ) (some_bit : 0 < x) (small : x < u64_mod) where
  byte_len-length : byte_len x ≡ length (u64_digits 8 x)
  unfolding byte_len
  byte_len-length = byte_len_loop-digits 8 0 x ∙ omega arith

  pub byte_len-le : byte_len x ≤ 8
  byte_len-le = rw byte_len-length (length-u64_digits 8 x)

  pub lt-byte_len : x < power (byte_len x)
  lt-byte_len = rw byte_len-length (
      omega (
        arith,
        le_value-lt (u64_digits 8 x) (IsBytes-u64_digits 8 x),
        le_value-u64_digits 8 x (omega arith),
      ))

  pub byte_len_minimal : power (byte_len x) ≤ 256 * x
  byte_len_minimal = rw byte_len-length (power-u64_digits 8 x some_bit (omega arith))

  pub byte_len_pos : 1 ≤ byte_len x
  byte_len_pos = one_at_least (byte_len x) lt-byte_len
    where
      one_at_least : (k : ℕ) → x < power k → 1 ≤ k
      one_at_least zero h = absurd (omega arith)
      one_at_least (suc k) h = omega arith
