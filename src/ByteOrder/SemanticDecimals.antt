-- ===== src/ByteOrder/SemanticDecimals.antt =====
-- Byte order of what `append_decimal` writes, against `struple_semantic_order`'s comparison of decimals.
use struple.Prelude.{
  ℕ, ◌<◌, ◌≡◌, refl, sym, ap, ◌∙◌, arith, List, [], ◌∷◌, ◌++◌, Bool, true, false, Ordering,
}
use struple.Prelude.Int.{ℤ, pos, ◌+ℤ◌}
use struple.Compare.{compare_bytes, order_of}
use struple.Writer.{writer_init}
use struple.Encode.Decimals.{append_decimal, beyond_int32}
use struple.Reader.{decimal}
use struple.Semantic.Numbers.{or_else, flip_order, sign_of, sem_num_class}
use struple.Semantic.Base10.{
  B10, sem_num_to_b10, sem_b10_mag, sem_with_decimal, b10_b10, sem_is_exact,
}
use struple.Semantic.Digits.{
  decimal_from, sem_dec_digits_to_mag, sem_dec_digits_to_mag-decimal_from,
}
use struple.Semantic.Exact.{lift_of, sem_b10_mag-exact}
use struple.Semantic.Order.{sem_numbers}
use struple.Semantic.Flip.{order_of-flip}
use struple.RoundTrip.Decimals.{IsSignificant, adjusted, digits_of}
use struple.ByteOrder.Values.{scaled_digits, digits_positive}
use struple.ByteOrder.Decimals.{signed_order, append_decimal-signed_order}

abbrev b10_of : Bool → ℤ → List ℕ → B10
b10_of m d ds = record { sign = sign_of m; mag = sem_dec_digits_to_mag ds; exp10 = d }

same_place : (d e : ℤ) → d +ℤ pos (lift_of e d) ≡ e +ℤ pos (lift_of d e)
same_place d e = ground arith

some_value : (ds : List ℕ) → IsSignificant ds → 0 < decimal_from 0 ds
some_value [] h = absurd h
some_value (d ∷ ds) h = digits_positive d ds h.2

sem_b10_mag-scaled_digits :
    (m n : Bool) (ds es : List ℕ) (d e : ℤ)
    → IsSignificant ds
    → IsSignificant es
    → sem_b10_mag (b10_of m d ds) (b10_of n e es)
      ≡ order_of (scaled_digits ds (lift_of d e)) (scaled_digits es (lift_of e d))
sem_b10_mag-scaled_digits m n ds es d e hd he =
    let (x, xs) = sem_dec_digits_to_mag-decimal_from ds (digits_of ds hd) in
    let (y, ys) = sem_dec_digits_to_mag-decimal_from es (digits_of es he) in
    rw (x, y) at
      (sem_b10_mag-exact (b10_of m d ds) (b10_of n e es) xs ys (rw x (some_value ds hd))
        (rw y (some_value es he)))

b10_b10-signed_order :
    (m n : Bool) (ds es : List ℕ) (d e : ℤ)
    → IsSignificant ds
    → IsSignificant es
    → b10_b10 (b10_of m d ds) (b10_of n e es)
      ≡ signed_order m (scaled_digits ds (lift_of d e)) n (scaled_digits es (lift_of e d))
b10_b10-signed_order false false ds es d e hd he =
    sem_b10_mag-scaled_digits false false ds es d e hd he
b10_b10-signed_order true true ds es d e hd he =
    ap flip_order (sem_b10_mag-scaled_digits true true ds es d e hd he)
    ∙ sym (order_of-flip (scaled_digits ds (lift_of d e)) (scaled_digits es (lift_of e d)))
b10_b10-signed_order true false ds es d e hd he = refl
b10_b10-signed_order false true ds es d e hd he = refl

sem_numbers-b10_b10 :
    (m n : Bool) (ds es : List ℕ) (d e : ℤ)
    → IsSignificant ds
    → IsSignificant es
    → sem_numbers (decimal m d ds) (decimal n e es) ≡ b10_b10 (b10_of m d ds) (b10_of n e es)
unfolding sem_numbers sem_with_decimal sem_num_to_b10 sem_is_exact sem_num_class
sem_numbers-b10_b10 m n [] es d e hd he = absurd hd
sem_numbers-b10_b10 m n (x ∷ ds) [] d e hd he = absurd he
sem_numbers-b10_b10 m n (x ∷ ds) (y ∷ es) d e hd he = refl

-- For two decimals whose digits have no zero at either end and whose adjusted exponents are in an
-- int32_t: what append_decimal writes for them, each with any bytes behind it, is in byte order as
-- sem_numbers orders the decimals, and where it finds them equal as the bytes behind them.
pub append_decimal-sem_numbers :
    (m n : Bool) (ds es : List ℕ) (d e : ℤ) (r s : List ℕ)
    → IsSignificant ds
    → IsSignificant es
    → beyond_int32 (adjusted ds d) ≡ false
    → beyond_int32 (adjusted es e) ≡ false
    → compare_bytes
        ((append_decimal writer_init m ds d).1.bytes ++ r)
        ((append_decimal writer_init n es e).1.bytes ++ s)
      ≡ or_else (sem_numbers (decimal m d ds) (decimal n e es)) (compare_bytes r s)
append_decimal-sem_numbers m n ds es d e r s hd he small small' =
    append_decimal-signed_order m n ds es d e (lift_of d e) (lift_of e d) r s hd he small small'
      (same_place d e)
    ∙ ap (λ (o : Ordering). or_else o (compare_bytes r s))
        (sym (b10_b10-signed_order m n ds es d e hd he)
          ∙ sym (sem_numbers-b10_b10 m n ds es d e hd he))
