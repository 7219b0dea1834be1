-- ===== src/RoundTrip/Decimals/Written.antt =====
-- The bytes that `append_decimal` writes for significant digits.
use struple.Prelude.{
  ℕ, ◌-◌, ◌<◌, ◌≡◌, refl, ap, ◌∙◌, arith, List, [], ◌∷◌, ◌++◌, length, All, append_assoc, Bool,
  true, false, ==_false, if◌then◌else◌,
}
use struple.Prelude.Int.{ℤ, pos, ◌+ℤ◌}
use struple.Codes.{decimal_code, dec_sign_neg, dec_sign_pos, terminator}
use struple.Writer.{Writer, writer_init, sw_push}
use struple.Writer.Contents.{bytes-sw_push}
use struple.Encode.Ints.{strip_zeros, append_int, push_all}
use struple.Encode.Ints.Payload.{bytes-push_all}
use struple.Encode.Ints.Words.{flips}
use struple.Encode.Decimals.{append_decimal, decimal_tail, beyond_int32}
use struple.RoundTrip.Decimals.Pairs.{
  pairs, IsTrimmed, bytes-push_pairs, drop_trailing_lem, end_mark,
}
use struple.Semantic.Digits.{IsDigit}

-- The digits of a decimal: not empty, the first and the last of them not 0
abbrev pub IsSignificant : List ℕ → Type 0
IsSignificant [] = ⊥
IsSignificant (d ∷ ds) = (0 < d) × All IsDigit (d ∷ ds) × IsTrimmed (d ∷ ds)

-- The place value of the first digit
abbrev pub adjusted : List ℕ → ℤ → ℤ
adjusted digits exp = pos (length digits) +ℤ exp

abbrev pub sign_byte : Bool → ℕ
sign_byte negative = if negative then dec_sign_neg else dec_sign_pos

-- What append_decimal writes for significant digits
abbrev pub decimal_bytes : Bool → ℤ → List ℕ → List ℕ
decimal_bytes negative adj_exp digits =
    decimal_code
    ∷ sign_byte negative
    ∷ (flips negative (append_int writer_init adj_exp).bytes
        ++ (flips negative (pairs digits) ++ end_mark negative ∷ []))

flips-append :
    (negative : Bool) (p q : List ℕ)
    → flips negative (p ++ q) ≡ flips negative p ++ flips negative q
flips-append true [] q = refl
flips-append true (b ∷ bs) q = ap (λ (t : List ℕ). (255 - b) ∷ t) (flips-append true bs q)
flips-append false p q = refl

flips-end_mark : (negative : Bool) → flips negative (terminator ∷ []) ≡ end_mark negative ∷ []
flips-end_mark true = refl
flips-end_mark false = refl

bytes-decimal_tail :
    (adj_exp : ℤ) (digits : List ℕ)
    → All IsDigit digits
    → IsTrimmed digits
    → (decimal_tail adj_exp digits).bytes
      ≡ (append_int writer_init adj_exp).bytes ++ (pairs digits ++ terminator ∷ [])
unfolding decimal_tail
bytes-decimal_tail adj_exp digits h t =
    bytes-sw_push _ terminator
    ∙ rw (drop_trailing_lem digits t, bytes-push_pairs digits (append_int writer_init adj_exp) h)
        (append_assoc (append_int writer_init adj_exp).bytes (pairs digits) (terminator ∷ []))

pub flips_tail :
    (negative : Bool) (p q : List ℕ)
    → flips negative (p ++ (q ++ terminator ∷ []))
      ≡ flips negative p ++ (flips negative q ++ end_mark negative ∷ [])
flips_tail negative p q =
    flips-append negative p (q ++ terminator ∷ [])
    ∙ ap (λ (t : List ℕ). flips negative p ++ t)
        (flips-append negative q (terminator ∷ [])
          ∙ ap (λ (t : List ℕ). flips negative q ++ t) (flips-end_mark negative))

significant_lem : (digits : List ℕ) → IsSignificant digits → strip_zeros digits ≡ digits
unfolding strip_zeros
significant_lem [] h = absurd h
significant_lem (d ∷ ds) h = rw (==_false d 0 (omega (arith, h.0))) refl

appended :
    (w : Writer) (negative : Bool) (digits : List ℕ) (exp : ℤ)
    → IsSignificant digits
    → beyond_int32 (adjusted digits exp) ≡ false
    → append_decimal w negative digits exp ≡ (
      true,
      push_all negative
          (decimal_tail (adjusted digits exp) digits).bytes
          (sw_push (sw_push w decimal_code) (sign_byte negative)),
    )
unfolding append_decimal
appended w negative [] exp h small = absurd h
appended w negative (d ∷ ds) exp h small = rw (significant_lem (d ∷ ds) h, small) refl

pub bytes-append_decimal :
    (w : Writer) (negative : Bool) (digits : List ℕ) (exp : ℤ)
    → IsSignificant digits
    → beyond_int32 (adjusted digits exp) ≡ false
    → (append_decimal w negative digits exp).1.bytes
      ≡ w.bytes ++ decimal_bytes negative (adjusted digits exp) digits
bytes-append_decimal w negative [] exp h small = absurd h
bytes-append_decimal w negative (d ∷ ds) exp h small =
    let digits = d ∷ ds in
    let e = adjusted digits exp in
    ap (λ (r : Bool × Writer). r.1.bytes) (appended w negative digits exp h small)
    ∙ bytes-push_all negative (decimal_tail e digits).bytes
        (sw_push (sw_push w decimal_code) (sign_byte negative))
    ∙ rw
        (
          bytes-decimal_tail e digits h.1 h.2,
          flips_tail negative (append_int writer_init e).bytes (pairs digits),
          bytes-sw_push,
          bytes-sw_push,
        )
        (simp append_assoc)
