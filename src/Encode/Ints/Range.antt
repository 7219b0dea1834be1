-- ===== src/Encode/Ints/Range.antt =====
-- `fits_fixed` is the range test of the i128 slots.
use struple.Prelude.{
  ℕ, zero, suc, ◌+◌, ◌*◌, ◌^◌, ◌≤◌, ◌<◌, ◌≡◌, refl, ◌∙◌, arith, List, [], ◌∷◌, length, Bool, true,
  false, inl, inr, three_ways,
}
use struple.Bytes.BigEndian.{
  be_value, be_value-cons, be_value-lt, be_from, power, power_mono, mul-le, IsNormal,
  power-le_IsNormal,
}
use struple.Encode.Ints.{all_zero, fits_fixed}

pub be_value-all_zero : (bs : List ℕ) → all_zero bs ≡ true → be_value bs ≡ 0
unfolding all_zero
be_value-all_zero [] h = unfold be_from in refl
be_value-all_zero (zero ∷ bs) h = omega (arith, be_value-cons 0 bs, be_value-all_zero bs h)
be_value-all_zero (suc b ∷ bs) h = ground arith

pub all_zero-of_value : (bs : List ℕ) → be_value bs ≡ 0 → all_zero bs ≡ true
unfolding all_zero
all_zero-of_value [] h = refl
all_zero-of_value (zero ∷ bs) h = all_zero-of_value bs (omega (arith, be_value-cons 0 bs))
all_zero-of_value (suc b ∷ bs) h = absurd (
    omega (
      arith,
      be_value-cons (suc b) bs,
      mul-le 1 (suc b) (power (length bs)),
      power_mono 0 (length bs) (omega arith),
    ))

-- |v| < 2 ^ 127, or -2 ^ 127
abbrev pub InFixedRange : Bool → ℕ → Type 0
InFixedRange false v = v < 2 ^ 127
InFixedRange true v = v ≤ 2 ^ 127

short :
    (b : ℕ) (bs : List ℕ) → IsNormal (b ∷ bs) → length (b ∷ bs) < 16 → be_value (b ∷ bs) < 2 ^ 127
short b bs h l =
    omega (arith, be_value-lt (b ∷ bs) (h.1, h.2), power_mono (length (b ∷ bs)) 15 (omega arith))

long :
    (b : ℕ) (bs : List ℕ) → IsNormal (b ∷ bs) → 16 < length (b ∷ bs) → 2 ^ 128 ≤ be_value (b ∷ bs)
long b bs h l =
    omega (arith, power-le_IsNormal (b ∷ bs) h, power_mono 17 (length (b ∷ bs)) (omega arith))

sixteen :
    (b : ℕ) (bs : List ℕ)
    → IsNormal (b ∷ bs)
    → 16 ≡ length (b ∷ bs)
    → (be_value (b ∷ bs) ≡ b * power 15 + be_value bs) × (be_value bs < power 15)
sixteen b bs h l =
    let tail : length bs ≡ 15 = omega arith in
    (be_value-cons b bs ∙ rw tail refl, rw tail at (be_value-lt bs h.2))

-- For a magnitude without leading zeros, the byte tests of fits_fixed hold exactly when its number is
-- below 2 ^ 127, or at most 2 ^ 127 for a negative one.
pub fits_fixed_lem :
    (negative : Bool) (mag : List ℕ)
    → IsNormal mag
    → (fits_fixed negative mag ≡ true → InFixedRange negative (be_value mag))
      × (InFixedRange negative (be_value mag) → fits_fixed negative mag ≡ true)
unfolding fits_fixed
fits_fixed_lem negative [] h = absurd h
fits_fixed_lem false (b ∷ bs) h = elim (three_ways 16 (length (b ∷ bs))) [
  | inl more ↦ ground (arith, long b bs h more)
  | inr (inl same) ↦ ground (arith, sixteen b bs h same)
  | inr (inr less) ↦ ground (arith, short b bs h less)
]
fits_fixed_lem true (b ∷ bs) h = elim (three_ways 16 (length (b ∷ bs))) [
  | inl more ↦ ground (arith, long b bs h more)
  | inr (inl same) ↦ ground (arith, sixteen b bs h same, be_value-all_zero bs, all_zero-of_value bs)
  | inr (inr less) ↦ ground (arith, short b bs h less)
]
