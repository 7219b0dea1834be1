-- ===== src/Semantic/Digits.antt =====
-- Multiplication in the exact comparison of decimals of c/struple.c: decimal digits to a big-endian
-- magnitude, and products with small numbers and their powers.
use struple.Prelude.{
  ℕ, zero, suc, ◌+◌, ◌*◌, ◌/◌, ◌%◌, ◌^◌, ◌<◌, ◌≡◌, refl, sym, ap, ◌∙◌, arith, List, [], ◌∷◌, length,
  All, ◌==◌, ==_false, if◌then◌else◌,
}
use native.Mathlib.Nat.{pow-zero, pow-succ'}
use struple.Bytes.{IsBytes}
use struple.Bytes.BigEndian.{be_value, be_from, be_value-cons, power, power-suc}
use struple.Semantic.Shift.{split_byte}

-- The loop over the bytes from the last to the first, `v = byte * m + carry`: the last carry, and the
-- bytes. `carry` is the one that it begins with.
unfoldable pub multiply_loop : ℕ → ℕ → List ℕ → ℕ × List ℕ
multiply_loop m carry [] = (carry, [])
multiply_loop m carry (b ∷ bs) =
    let (c, out) = multiply_loop m carry bs in let v = b * m + c in (v / 256, (v % 256) ∷ out)

-- `while (carry)`, with the rounds left; four rounds shift an unsigned int out.
unfoldable pub push_carry : ℕ → ℕ → List ℕ → List ℕ
push_carry zero carry buf = buf
push_carry (suc f) carry buf =
    let more = push_carry f (carry / 256) ((carry % 256) ∷ buf) in if carry == 0 then buf else more

unfoldable pub digits_loop : List ℕ → List ℕ → List ℕ
unfolding multiply_loop push_carry
digits_loop buf [] = buf
digits_loop buf (d ∷ ds) =
    let (carry, out) = multiply_loop 10 d buf in digits_loop (push_carry 4 carry out) ds

unfoldable pub sem_dec_digits_to_mag : List ℕ → List ℕ
unfolding digits_loop
sem_dec_digits_to_mag digits = digits_loop [] digits

-- The buffer has four bytes of room in front, for four rounds of the carry.
unfoldable pub sem_mul_small : List ℕ → ℕ → List ℕ
unfolding multiply_loop push_carry
sem_mul_small mag m = let (carry, out) = multiply_loop m 0 mag in push_carry 4 carry out

unfoldable pub sem_mul_pow : List ℕ → ℕ → ℕ → List ℕ
unfolding sem_mul_small
sem_mul_pow mag base zero = mag
sem_mul_pow mag base (suc k) = sem_mul_pow (sem_mul_small mag base) base k

-- The number that decimal digits are read as, behind `a`
unfoldable pub decimal_from : ℕ → List ℕ → ℕ
decimal_from a [] = a
decimal_from a (d ∷ ds) = decimal_from (a * 10 + d) ds

abbrev pub IsDigit : ℕ → Type 0
IsDigit d = d < 10

record IsMultiplied (m d : ℕ) (p : List ℕ) (r : ℕ × List ℕ) : Type 0 where
  pub value : be_value p * m + d ≡ r.0 * power (length p) + be_value r.1
  pub same_length : length r.1 ≡ length p
  pub bytes : IsBytes r.1
  pub carry : r.0 < m

column : (m b p v d c w : ℕ) → v * m + d ≡ c * p + w → (b * p + v) * m + d ≡ (b * m + c) * p + w
column m b p v d c w h = grind arith

below : (m b c : ℕ) → b < 256 → c < m → b * m + c < 256 * m
below m b c hb hc = grind arith

multiply_loop-IsMultiplied :
    (m d : ℕ) (p : List ℕ) → d < m → IsBytes p → IsMultiplied m d p (multiply_loop m d p)
unfolding multiply_loop
multiply_loop-IsMultiplied m d [] hd h =
    unfold be_from in record { value = omega arith; same_length = refl; bytes = tt; carry = hd }
multiply_loop-IsMultiplied m d (b ∷ bs) hd (hb, h) =
    let s = multiply_loop-IsMultiplied m d bs hd h in
    let c : ℕ = (multiply_loop m d bs).0 in
    let out : List ℕ = (multiply_loop m d bs).1 in
    record {
      value =
          ap (λ (v : ℕ). v * m + d) (be_value-cons b bs)
          ∙ column m b (power (length bs)) (be_value bs) d c (be_value out) s.value
          ∙ split_byte (b * m + c) (power (length bs)) (be_value out)
          ∙ rw (power-suc, be_value-cons, s.same_length) refl;
      same_length = ap suc s.same_length;
      bytes = (omega arith, s.bytes);
      carry = omega (arith, below m b c hb s.carry);
    }

-- Enough rounds put the whole carry in front.
push_carry_lem :
    (f c : ℕ) (out : List ℕ)
    → c < power f
    → IsBytes out
    → (be_value (push_carry f c out) ≡ c * power (length out) + be_value out)
      × IsBytes (push_carry f c out)
unfolding push_carry
push_carry_lem zero c out hc h = let none : c ≡ 0 = omega arith in (rw none (omega arith), h)
push_carry_lem (suc f) zero out hc h = (omega arith, h)
push_carry_lem (suc f) (suc c) out hc h =
    let (value, are_bytes) =
      push_carry_lem f (suc c / 256) (suc c % 256 ∷ out) (omega (arith, power-suc f))
        (omega arith, h) in
    rw (==_false (suc c) 0 (λ e. cc e)) (
      value
          ∙ rw (power-suc, be_value-cons)
              (sym (split_byte (suc c) (power (length out)) (be_value out))),
      are_bytes,
    )

module _ (m d : ℕ) (p : List ℕ) (hd : d < m) (hm : m < 2 ^ 16) (h : IsBytes p) where
  -- One multiplication with its carry.
  pub multiplied :
      (be_value (push_carry 4 (multiply_loop m d p).0 (multiply_loop m d p).1) ≡ be_value p * m + d)
      × IsBytes (push_carry 4 (multiply_loop m d p).0 (multiply_loop m d p).1)
  multiplied =
      let s = multiply_loop-IsMultiplied m d p hd h in
      let (value, are_bytes) =
        push_carry_lem 4 (multiply_loop m d p).0 (multiply_loop m d p).1 (omega (arith, s.carry))
          s.bytes in
      (value ∙ rw s.same_length (sym s.value), are_bytes)

digits_loop_lem :
    (buf digits : List ℕ)
    → IsBytes buf
    → All IsDigit digits
    → (be_value (digits_loop buf digits) ≡ decimal_from (be_value buf) digits)
      × IsBytes (digits_loop buf digits)
unfolding digits_loop decimal_from
digits_loop_lem buf [] h hd = (refl, h)
digits_loop_lem buf (d ∷ ds) h (hd, hds) =
    let (value, are_bytes) = multiplied 10 d buf hd (omega arith) h in
    rw value at (
      digits_loop_lem (push_carry 4 (multiply_loop 10 d buf).0 (multiply_loop 10 d buf).1) ds
        are_bytes hds)

-- For decimal digits, each below 10, sem_dec_digits_to_mag gives bytes, and their big-endian number is
-- the one that the digits are read as.
pub sem_dec_digits_to_mag-decimal_from :
    (digits : List ℕ)
    → All IsDigit digits
    → (be_value (sem_dec_digits_to_mag digits) ≡ decimal_from 0 digits)
      × IsBytes (sem_dec_digits_to_mag digits)
unfolding sem_dec_digits_to_mag be_from
sem_dec_digits_to_mag-decimal_from digits h = digits_loop_lem [] digits tt h

-- For a magnitude of bytes and a base above 0 and below 2 ^ 16, sem_mul_pow gives bytes, and their
-- number is that of the magnitude times base ^ k.
pub be_value-sem_mul_pow :
    (mag : List ℕ) (base k : ℕ)
    → IsBytes mag
    → 0 < base
    → base < 2 ^ 16
    → (be_value (sem_mul_pow mag base k) ≡ be_value mag * base ^ k)
      × IsBytes (sem_mul_pow mag base k)
unfolding sem_mul_pow sem_mul_small
be_value-sem_mul_pow mag base zero h p s =
    let one : be_value mag ≡ be_value mag * base ^ 0 =
      omega (arith, ap (λ (t : ℕ). be_value mag * t) (pow-zero base)) in
    (one, h)
be_value-sem_mul_pow mag base (suc k) h p s =
    let (value, are_bytes) = multiplied base 0 mag p s h in
    let (rest, rest_bytes) = be_value-sem_mul_pow (sem_mul_small mag base) base k are_bytes p s in
    (
      rest
          ∙ ap (λ (v : ℕ). v * base ^ k) value
          ∙ regroup (be_value mag) base (base ^ k)
          ∙ ap (λ (v : ℕ). be_value mag * v) (sym (pow-succ' base k)),
      rest_bytes,
    )
  where
    regroup : (a b c : ℕ) → (a * b + 0) * c ≡ a * (b * c)
    regroup a b c = grind arith
