-- ===== src/Json/Magnitude/Values.antt =====
-- The numbers behind `decimal_to_magnitude` and `magnitude_to_decimal`.
use struple.Prelude.{
  ℕ, zero, suc, ◌+◌, ◌-◌, ◌*◌, ◌/◌, ◌%◌, ◌^◌, ◌<◌, ◌≡◌, refl, sym, ap, ◌∙◌, arith, List, [], ◌∷◌,
  ◌++◌, length, All, reverse, true, inl, some,
}
use struple.Bytes.{IsBytes}
use struple.Bytes.BigEndian.{
  be_value, be_from, be_value-cons, power, power-suc, be_value-lt, IsNormal, power-le_IsNormal,
  power_mono,
}
use struple.Encode.Ints.{strip_zeros}
use struple.Encode.Ints.Stripped.{be_value-strip_zeros, strip_zeros-IsStripped, IsStripped}
use struple.Semantic.Magnitudes.{IsStripped-IsBytes}
use struple.Prelude.Powers.{power256-le}
use native.Mathlib.Nat.{pow-succ'}
use mathlib.Core.List.{reverse-cons}
use mathlib.Core.Path.{subst}
use struple.Semantic.Digits.{multiply_loop, push_carry, multiplied}
use struple.Json.Magnitude.Numerals.{
  IsDigitChar, IsNumeral, IsFront, extended-IsNumeral, extended-IsFront,
}
use struple.Json.Text.{is_digit}
use struple.Json.Encode.{text_value}
use struple.Json.Magnitude.{
  magnitude_loop, decimal_to_magnitude, divide_loop, decimal_loop, turned, magnitude_to_decimal,
}

magnitude_loop-text_value :
    (buf cs : List ℕ)
    → IsBytes buf
    → All IsDigitChar cs
    → (be_value (magnitude_loop buf cs) ≡ text_value (be_value buf) cs)
      × IsBytes (magnitude_loop buf cs)
unfolding magnitude_loop text_value
magnitude_loop-text_value buf [] h hd = (refl, h)
magnitude_loop-text_value buf (c ∷ cs) h ((lo, hi), hds) =
    let digit : is_digit c ≡ true = ground arith in
    let (value, are_bytes) = multiplied 10 (c - 48) buf (omega arith) (omega arith) h in
    let (carry, out) = multiply_loop 10 (c - 48) buf in
    let s = magnitude_loop-text_value (push_carry 4 carry out) cs are_bytes hds in
    rw digit (rw value at s)

-- For text of decimal digits, decimal_to_magnitude gives bytes, and their big-endian number is the one
-- that the text is read as.
pub decimal_to_magnitude-text_value :
    (cs : List ℕ)
    → All IsDigitChar cs
    → (be_value (decimal_to_magnitude cs) ≡ text_value 0 cs) × IsBytes (decimal_to_magnitude cs)
unfolding decimal_to_magnitude be_from
decimal_to_magnitude-text_value cs h = magnitude_loop-text_value [] cs tt h

record IsDivided (rem : ℕ) (p : List ℕ) (r : List ℕ × ℕ) : Type 0 where
  pub value : rem * power (length p) + be_value p ≡ be_value r.0 * 10 + r.1
  pub same_length : length r.0 ≡ length p
  pub bytes : IsBytes r.0
  pub remainder : r.1 < 10

column : (q r p v w l : ℕ) → r * p + v ≡ w * 10 + l → (q * 10 + r) * p + v ≡ (q * p + w) * 10 + l
column q r p v w l h = grind arith

byte_in : (rem b p v : ℕ) → rem * (256 * p) + (b * p + v) ≡ (rem * 256 + b) * p + v
byte_in rem b p v = grind arith

divide_loop-IsDivided :
    (rem : ℕ) (p : List ℕ) → rem < 10 → IsBytes p → IsDivided rem p (divide_loop rem p)
unfolding divide_loop
divide_loop-IsDivided rem [] hr h =
    unfold be_from in record { value = omega arith; same_length = refl; bytes = tt; remainder = hr }
divide_loop-IsDivided rem (b ∷ bs) hr (hb, h) =
    let cur : ℕ = rem * 256 + b in
    let s = divide_loop-IsDivided (cur % 10) bs (omega arith) h in
    let out : List ℕ = (divide_loop (cur % 10) bs).0 in
    let last : ℕ = (divide_loop (cur % 10) bs).1 in
    let fits : cur / 10 % 256 ≡ cur / 10 = omega arith in
    let split : cur ≡ cur / 10 * 10 + cur % 10 = omega arith in
    let joined : be_value (cur / 10 % 256 ∷ out) ≡ cur / 10 * power (length bs) + be_value out =
      be_value-cons (cur / 10 % 256) out ∙ rw (fits, s.same_length) refl in
    record {
      value =
          rw (power-suc, be_value-cons b bs) (byte_in rem b (power (length bs)) (be_value bs))
          ∙ ap (λ (v : ℕ). v * power (length bs) + be_value bs) split
          ∙ column (cur / 10) (cur % 10) (power (length bs)) (be_value bs) (be_value out) last
              s.value
          ∙ ap (λ (v : ℕ). v * 10 + last) (sym joined);
      same_length = ap suc s.same_length;
      bytes = (omega arith, s.bytes);
      remainder = s.remainder;
    }

-- The loop ends, with the digits of the number from the last to the first.
record IsWritten (f : ℕ) (work : List ℕ) : Type 0 where
  pub text : List ℕ
  pub ends : decimal_loop f work ≡ some text
  pub front : IsFront (be_value work) (reverse text)

-- A round: the last digit, and the rounds for the quotient
record IsRound (f : ℕ) (work : List ℕ) : Type 0 where
  pub quotient : ℕ
  pub digit : ℕ
  pub text : List ℕ
  pub small : digit < 10
  pub whole : quotient * 10 + digit ≡ be_value work
  pub ends : decimal_loop (suc f) work ≡ some ((48 + digit) ∷ text)
  pub front : IsFront quotient (reverse text)

round :
    (f b : ℕ) (bs : List ℕ)
    → IsBytes (b ∷ bs)
    → be_value (b ∷ bs) < 10 ^ suc f
    → ((work : List ℕ) → IsBytes work → IsStripped work → be_value work < 10 ^ f → IsWritten f work)
    → IsRound f (b ∷ bs)
unfolding decimal_loop
round f b bs h lt further =
    let s = divide_loop-IsDivided 0 (b ∷ bs) (omega arith) h in
    let out : List ℕ = (divide_loop 0 (b ∷ bs)).0 in
    let rem : ℕ = (divide_loop 0 (b ∷ bs)).1 in
    let whole : be_value (b ∷ bs) ≡ be_value out * 10 + rem = omega (arith, s.value) in
    let stripped = strip_zeros-IsStripped out s.bytes in
    let rest =
      further (strip_zeros out) (IsStripped-IsBytes (strip_zeros out) stripped) stripped
        (omega (arith, whole, be_value-strip_zeros out, pow-succ' 10 f)) in
    record {
      quotient = be_value (strip_zeros out);
      digit = rem;
      text = rest.text;
      small = s.remainder;
      whole = omega (arith, whole, be_value-strip_zeros out);
      ends = rw rest.ends refl;
      front = rest.front;
    }

pub normal_positive : (b : ℕ) (bs : List ℕ) → IsNormal (b ∷ bs) → 0 < be_value (b ∷ bs)
normal_positive b bs h =
    omega (arith, power-le_IsNormal (b ∷ bs) h, power_mono 0 (suc (length bs)) (omega arith))

decimal_loop-IsWritten :
    (f : ℕ) (work : List ℕ)
    → IsBytes work
    → IsStripped work
    → be_value work < 10 ^ f
    → IsWritten f work
unfolding decimal_loop be_from
decimal_loop-IsWritten f [] h t lt = record {
  text = [];
  ends = refl;
  front = record { value = unfold text_value in refl; digits = tt; none_or = inl refl };
}
decimal_loop-IsWritten zero (b ∷ bs) h t lt = absurd (omega (arith, normal_positive b bs t))
decimal_loop-IsWritten (suc f) (b ∷ bs) h t lt =
    let r = round f b bs h lt (decimal_loop-IsWritten f) in
    record {
      text = (48 + r.digit) ∷ r.text;
      ends = r.ends;
      front = rw (reverse-cons (48 + r.digit) r.text) (
          rw r.whole at (
            extended-IsFront r.quotient r.digit (reverse r.text) r.small r.front
              (omega (arith, r.whole, normal_positive b bs t))));
    }

-- For a magnitude of bytes of any length, magnitude_to_decimal ends within its bound of three rounds
-- for each byte, and the text it gives is the decimal numeral of the big-endian number: it stands for
-- the number, it has digits only, at least one, and no 0 in front of others.
pub magnitude_to_decimal-be_value :
    (mag : List ℕ)
    → IsBytes mag
    → (text : List ℕ) × (magnitude_to_decimal mag ≡ some text) × IsNumeral (be_value mag) text
unfolding magnitude_to_decimal text_value be_from
magnitude_to_decimal-be_value [] h =
    (48 ∷ [], refl, record { value = refl; digits = ((omega arith, omega arith), tt); short = tt })
magnitude_to_decimal-be_value (b ∷ bs) h =
    let f : ℕ = 3 * length bs + 2 in
    let rounds : 3 * length (b ∷ bs) ≡ suc f = omega arith in
    let room : be_value (b ∷ bs) < 10 ^ suc f =
      subst (λ (k : ℕ). be_value (b ∷ bs) < 10 ^ k) rounds enough in
    let r = round f b bs h room (decimal_loop-IsWritten f) in
    (
      reverse ((48 + r.digit) ∷ r.text),
      ap (λ (k : ℕ). turned (decimal_loop k (b ∷ bs))) rounds ∙ ap turned r.ends,
      subst (λ (cs : List ℕ). IsNumeral (be_value (b ∷ bs)) cs)
          (sym (reverse-cons (48 + r.digit) r.text))
          (subst (λ (n : ℕ). IsNumeral n (reverse r.text ++ (48 + r.digit) ∷ [])) r.whole
            (extended-IsNumeral r.quotient r.digit (reverse r.text) r.small r.front)),
    )
  where
    enough : be_value (b ∷ bs) < 10 ^ (3 * length (b ∷ bs))
    enough = omega (arith, be_value-lt (b ∷ bs) h, power256-le (length (b ∷ bs)))
