-- ===== src/View/Agreement/Decimals.antt =====
-- Decimals: the span against the read.
use struple.Prelude.{
  ℕ, suc, ◌+◌, ◌≡◌, refl, ap, arith, List, [], ◌∷◌, length, drop, Option, none, some, Bool, false,
  ◌==◌, ◌||◌, if◌then◌else◌, Bool-cases, inl, inr,
}
use struple.Prelude.Int.{ℤ, pos, ◌-ℤ◌}
use struple.Codes.{int_zero, dec_sign_zero, dec_sign_neg, dec_sign_pos, is_fixed_neg, is_fixed_pos}
use struple.Encode.Ints.{flip_if}
use struple.Reader.{Element, decimal, Reader, reader_at, Read, ◌>>=◌, lift, take_bytes, advance}
use struple.Reader.Ints.{slot_width}
use struple.Reader.Decimals.{
  read_decimal, read_decimal_digits, read_dec_exponent, take_region, unpack,
}
use struple.View.Span.{decimal_span, exponent_span, digits_span}
use struple.View.Agreement.Rules.{MovesBy, lift-MovesBy, then_map, chain, bind_then}
use struple.View.Agreement.Scans.{take_region-MovesBy}
use struple.View.Agreement.Payloads.{take_one, exponent_only, read_dec_exponent-MovesBy}

abbrev terminator : Bool → ℕ
terminator neg = if neg then 0xff else 0x00

abbrev digits_behind : Bool → List ℕ → ℕ → Option ℕ
digits_behind neg bs n = digits_span (terminator neg) (drop n bs)

exponent_span-chain :
    (neg : Bool) (bs : List ℕ)
    → chain (exponent_only neg bs) (digits_behind neg bs) ≡ exponent_span neg bs
unfolding exponent_span exponent_only
exponent_span-chain neg [] = refl
exponent_span-chain neg (b ∷ bs) = elim (Bool-cases (flip_if neg b == int_zero)) [
  | inl e ↦ rw e refl
  | inr e ↦ elim (Bool-cases (is_fixed_neg (flip_if neg b) || is_fixed_pos (flip_if neg b))) [
    | inl fixed ↦ rw (e, fixed, behind (slot_width (flip_if neg b))) refl
    | inr other ↦ rw (e, other) refl
  ]
]
  where
    behind : (n : ℕ) → drop (1 + n) (b ∷ bs) ≡ drop n bs
    behind n = ap (λ (k : ℕ). drop k (b ∷ bs)) one_more
      where
        one_more : 1 + n ≡ suc n
        one_more = omega arith

-- The digits, and the element that they make
abbrev digits_then : Bool → ℤ → Read Element
digits_then neg e = take_region (terminator neg) >>= λ packed.
    lift (unpack neg packed) >>= λ digs. lift (some (decimal neg (e -ℤ pos (length digs)) digs))

read_decimal_digits-MovesBy :
    (neg : Bool) (r : Reader) → MovesBy r (exponent_span neg r.rest) (read_decimal_digits neg r)
unfolding read_decimal_digits
read_decimal_digits-MovesBy neg r = rw (← exponent_span-chain neg r.rest) (
    bind_then (digits_then neg) r (exponent_only neg r.rest) (digits_behind neg r.rest)
      (read_dec_exponent neg r) (read_dec_exponent-MovesBy neg r)
      (λ e n.
        then_map (unpack neg) (λ digs. decimal neg (e -ℤ pos (length digs)) digs) (advance n r)
          (digits_behind neg r.rest n) (take_region (terminator neg) (advance n r))
          (take_region-MovesBy (terminator neg) (advance n r))))

decimal_at :
    (at : ℕ) (bs : List ℕ)
    → MovesBy (reader_at at bs) (decimal_span bs) (read_decimal (reader_at at bs))
unfolding decimal_span read_decimal
decimal_at at [] = unfold take_bytes in tt
decimal_at at (b ∷ bs) = elim (Bool-cases (b == dec_sign_zero)) [
  | inl e ↦ rw e (
      take_one _ at b bs (some 0) (
        rw e
          (lift-MovesBy {A = Element} (some (decimal false (pos 0) [])) (reader_at (at + 1) bs))))
  | inr e ↦ elim (Bool-cases (b == dec_sign_neg || b == dec_sign_pos)) [
    | inl signed ↦
        rw (e, signed)
          (take_one _ at b bs (exponent_span (b == dec_sign_neg) bs) (
            rw (e, signed)
              (read_decimal_digits-MovesBy (b == dec_sign_neg) (reader_at (at + 1) bs))))
    | inr other ↦ rw (e, other) (take_one _ at b bs none (rw (e, other) tt))
  ]
]

pub read_decimal-MovesBy : (r : Reader) → MovesBy r (decimal_span r.rest) (read_decimal r)
read_decimal-MovesBy r = decimal_at r.pos r.rest
