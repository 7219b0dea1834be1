-- ===== src/ByteOrder/Decimals.antt =====
-- Byte order of what `append_decimal` writes, against the order of the decimals.
use struple.Prelude.{
  ℕ, ◌<◌, ◌≤◌, ◌^◌, ◌≡◌, refl, sym, ap, ◌∙◌, arith, List, [], ◌∷◌, ◌++◌, length, All, All-append,
  Bool, true, false, Ordering,
}
use struple.Prelude.Int.{ℤ, pos, negsuc, ◌+ℤ◌}
use struple.Codes.{decimal_code, terminator}
use struple.Bytes.{IsByte, IsBytes}
use struple.Bytes.BigEndian.{be_value}
use struple.Bytes.Negation.{flip_all-IsBytes}
use struple.Encode.Ints.Stripped.{IsStripped}
use struple.Semantic.Magnitudes.{IsStripped-IsBytes}
use struple.RoundTrip.Ints.{at_most_16}
use struple.RoundTrip.Slots.{IsSlot, append_int-IsSlot}
use struple.Compare.{compare_bytes, order_of}
use struple.Compare.Order.{
  lexicographic, compare_bytes-lexicographic, compare_bytes-cons, compare_bytes-heads,
}
use struple.Writer.{writer_init}
use struple.Encode.Ints.{append_int}
use struple.Encode.Ints.Words.{flips}
use struple.Encode.Decimals.{append_decimal, beyond_int32}
use struple.Reader.{int}
use struple.Semantic.Numbers.{or_else}
use struple.RoundTrip.Magnitudes.{IsInt64, append_int-ReadsBack}
use struple.RoundTrip.Decimals.{
  IsSignificant, adjusted, sign_byte, bytes-append_decimal, digits_of, IsSignificant-IsTrimmed,
  flips_tail, beyond_int32-IsInt64,
}
use struple.RoundTrip.Decimals.Pairs.{pairs, pairs-IsPair, IsPair}
use struple.ByteOrder.Apart.{
  AreApart, AreApart-append, AreApart-flips, lexicographic-append, lexicographic-flips,
  ReadsBack-AreApart,
}
use struple.ByteOrder.Pairs.{pairs-lexicographic, pairs-AreApart}
use struple.ByteOrder.Values.{magnitude_order, scaled_digits, magnitude_order-scaled_digits}
use struple.ByteOrder.Ints.{append_int-sem_icmp}
use struple.Semantic.Digits.{IsDigit}

-- A negative one is below, and of two negative ones the one with the greater magnitude.
abbrev pub decimal_order : Bool → ℤ → List ℕ → Bool → ℤ → List ℕ → Ordering
decimal_order false a ds false b es = magnitude_order a ds b es
decimal_order true a ds true b es = magnitude_order b es a ds
decimal_order true a ds false b es = Ordering.lt
decimal_order false a ds true b es = Ordering.gt

-- The exponent, the pairs of digits and the terminator
abbrev tail_bytes : ℤ → List ℕ → List ℕ
tail_bytes a ds = (append_int writer_init a).bytes ++ (pairs ds ++ terminator ∷ [])

tails-AreApart :
    (a b : ℤ) (ds es : List ℕ)
    → IsInt64 a
    → IsInt64 b
    → All IsDigit ds
    → All IsDigit es
    → AreApart (tail_bytes a ds) (tail_bytes b es)
tails-AreApart a b ds es ha hb hd he =
    AreApart-append (append_int writer_init a).bytes (append_int writer_init b).bytes
      (pairs ds ++ terminator ∷ []) (pairs es ++ terminator ∷ [])
      (ReadsBack-AreApart _ _ (int a) (int b) (append_int-ReadsBack a ha)
        (append_int-ReadsBack b hb))
      (pairs-AreApart ds es hd he)

tails-lexicographic :
    (a b : ℤ) (ds es : List ℕ)
    → IsInt64 a
    → IsInt64 b
    → IsSignificant ds
    → IsSignificant es
    → lexicographic (tail_bytes a ds) (tail_bytes b es) ≡ magnitude_order a ds b es
tails-lexicographic a b ds es ha hb hd he =
    lexicographic-append (append_int writer_init a).bytes (append_int writer_init b).bytes
      (pairs ds ++ terminator ∷ []) (pairs es ++ terminator ∷ [])
      (ReadsBack-AreApart _ _ (int a) (int b) (append_int-ReadsBack a ha)
        (append_int-ReadsBack b hb))
    ∙ rw
        (
          ← compare_bytes-lexicographic (append_int writer_init a).bytes
              (append_int writer_init b).bytes,
          append_int-sem_icmp a b ha hb,
          pairs-lexicographic ds es (digits_of ds hd) (digits_of es he)
              (IsSignificant-IsTrimmed ds hd) (IsSignificant-IsTrimmed es he),
        )
        refl

short : (p : List ℕ) → IsStripped p → be_value p < 2 ^ 63 → length p ≤ 16
short [] h v = omega arith
short (b ∷ bs) h v = at_most_16 (b ∷ bs) h (omega arith)

slot-IsBytes : (v : ℤ) (slot : List ℕ) → IsInt64 v → IsSlot v slot → IsBytes slot
slot-IsBytes (pos n) slot h x = rw x.form (
  omega (arith, short x.payload x.stripped (omega (arith, x.value))),
  IsStripped-IsBytes x.payload x.stripped,
)
slot-IsBytes (negsuc n) slot h x = rw x.form (omega arith, flip_all-IsBytes x.payload)

IsPair-IsBytes : (p : List ℕ) → All IsPair p → IsBytes p
IsPair-IsBytes [] h = tt
IsPair-IsBytes (b ∷ p) (hb, h) = (omega arith, IsPair-IsBytes p h)

tail-IsBytes : (a : ℤ) (ds : List ℕ) → IsInt64 a → All IsDigit ds → IsBytes (tail_bytes a ds)
tail-IsBytes a ds ha hd =
    All-append IsByte (append_int writer_init a).bytes (pairs ds ++ terminator ∷ [])
      (slot-IsBytes a (append_int writer_init a).bytes ha (append_int-IsSlot a ha))
      (All-append IsByte (pairs ds) (terminator ∷ [])
        (IsPair-IsBytes (pairs ds) (pairs-IsPair ds hd)) (omega arith, tt))

written :
    (negative : Bool) (ds : List ℕ) (exp : ℤ) (rest : List ℕ)
    → IsSignificant ds
    → beyond_int32 (adjusted ds exp) ≡ false
    → (append_decimal writer_init negative ds exp).1.bytes ++ rest
      ≡ decimal_code
        ∷ sign_byte negative
        ∷ (flips negative (tail_bytes (adjusted ds exp) ds) ++ rest)
written negative ds exp rest h small =
    ap (λ (p : List ℕ). p ++ rest)
      (bytes-append_decimal writer_init negative ds exp h small
        ∙ ap (λ (p : List ℕ). decimal_code ∷ sign_byte negative ∷ p)
            (sym (flips_tail negative (append_int writer_init (adjusted ds exp)).bytes (pairs ds))))

module _ (a b : ℤ) (ds es : List ℕ) (ha : IsInt64 a) (hb : IsInt64 b) (hd : IsSignificant ds)
    (he : IsSignificant es) (r s : List ℕ) where
  apart : AreApart (tail_bytes a ds) (tail_bytes b es)
  apart = tails-AreApart a b ds es ha hb (digits_of ds hd) (digits_of es he)

  positive_tails :
      lexicographic (tail_bytes a ds ++ r) (tail_bytes b es ++ s)
      ≡ or_else (magnitude_order a ds b es) (lexicographic r s)
  positive_tails =
      lexicographic-append (tail_bytes a ds) (tail_bytes b es) r s apart
      ∙ rw (tails-lexicographic a b ds es ha hb hd he) refl

  negative_tails :
      lexicographic (flips true (tail_bytes a ds) ++ r) (flips true (tail_bytes b es) ++ s)
      ≡ or_else (magnitude_order b es a ds) (lexicographic r s)
  negative_tails =
      let first = tail-IsBytes a ds ha (digits_of ds hd) in
      let second = tail-IsBytes b es hb (digits_of es he) in
      lexicographic-append (flips true (tail_bytes a ds)) (flips true (tail_bytes b es)) r s
        (AreApart-flips (tail_bytes a ds) (tail_bytes b es) first second apart)
      ∙ rw
          (
            lexicographic-flips (tail_bytes a ds) (tail_bytes b es) first second apart,
            tails-lexicographic b a es ds hb ha he hd,
          )
          refl

  by_signs :
      (m n : Bool)
      → compare_bytes
          (decimal_code ∷ sign_byte m ∷ (flips m (tail_bytes a ds) ++ r))
          (decimal_code ∷ sign_byte n ∷ (flips n (tail_bytes b es) ++ s))
        ≡ or_else (decimal_order m a ds n b es) (compare_bytes r s)
  by_signs m n = rw (compare_bytes-cons, compare_bytes-lexicographic r s) (go m n)
    where
      go :
          (m n : Bool)
          → compare_bytes
              (sign_byte m ∷ (flips m (tail_bytes a ds) ++ r))
              (sign_byte n ∷ (flips n (tail_bytes b es) ++ s))
            ≡ or_else (decimal_order m a ds n b es) (lexicographic r s)
      go false false = rw (compare_bytes-cons, compare_bytes-lexicographic) positive_tails
      go true true = rw (compare_bytes-cons, compare_bytes-lexicographic) negative_tails
      go true false =
          (compare_bytes-heads 1 3 (flips true (tail_bytes a ds) ++ r) (tail_bytes b es ++ s)).0
            (omega arith)
      go false true =
          (compare_bytes-heads 3 1 (tail_bytes a ds ++ r) (flips true (tail_bytes b es) ++ s)).1
            (omega arith)

append_decimal-compare_bytes :
    (m n : Bool) (ds es : List ℕ) (d e : ℤ) (r s : List ℕ)
    → IsSignificant ds
    → IsSignificant es
    → beyond_int32 (adjusted ds d) ≡ false
    → beyond_int32 (adjusted es e) ≡ false
    → compare_bytes
        ((append_decimal writer_init m ds d).1.bytes ++ r)
        ((append_decimal writer_init n es e).1.bytes ++ s)
      ≡ or_else (decimal_order m (adjusted ds d) ds n (adjusted es e) es) (compare_bytes r s)
append_decimal-compare_bytes m n ds es d e r s hd he small small' =
    rw (written m ds d r hd small, written n es e s he small')
      (by_signs (adjusted ds d) (adjusted es e) ds es (beyond_int32-IsInt64 (adjusted ds d) small)
        (beyond_int32-IsInt64 (adjusted es e) small') hd he r s m n)

-- The order of two numbers with signs, neither of them 0
abbrev pub signed_order : Bool → ℕ → Bool → ℕ → Ordering
signed_order false x false y = order_of x y
signed_order true x true y = order_of y x
signed_order true x false y = Ordering.lt
signed_order false x true y = Ordering.gt

decimal_order-signed_order :
    (m n : Bool) (ds es : List ℕ) (d e : ℤ) (u v : ℕ)
    → IsSignificant ds
    → IsSignificant es
    → d +ℤ pos v ≡ e +ℤ pos u
    → decimal_order m (adjusted ds d) ds n (adjusted es e) es
      ≡ signed_order m (scaled_digits ds u) n (scaled_digits es v)
decimal_order-signed_order false false ds es d e u v hd he h =
    magnitude_order-scaled_digits ds es d e u v hd he h
decimal_order-signed_order true true ds es d e u v hd he h =
    magnitude_order-scaled_digits es ds e d v u he hd (sym h)
decimal_order-signed_order true false ds es d e u v hd he h = refl
decimal_order-signed_order false true ds es d e u v hd he h = refl

-- For two decimals whose digits have no zero at either end and whose adjusted exponents are in an
-- int32_t, and powers of ten u and v that make up the difference of their exponents: what
-- append_decimal writes for them, each with any bytes behind it, is in byte order as the signed
-- numbers are, the one of the digits times 10 ^ u and the other times 10 ^ v, and where these are
-- equal as the bytes behind them.
pub append_decimal-signed_order :
    (m n : Bool) (ds es : List ℕ) (d e : ℤ) (u v : ℕ) (r s : List ℕ)
    → IsSignificant ds
    → IsSignificant es
    → beyond_int32 (adjusted ds d) ≡ false
    → beyond_int32 (adjusted es e) ≡ false
    → d +ℤ pos v ≡ e +ℤ pos u
    → compare_bytes
        ((append_decimal writer_init m ds d).1.bytes ++ r)
        ((append_decimal writer_init n es e).1.bytes ++ s)
      ≡ or_else (signed_order m (scaled_digits ds u) n (scaled_digits es v)) (compare_bytes r s)
append_decimal-signed_order m n ds es d e u v r s hd he small small' h =
    append_decimal-compare_bytes m n ds es d e r s hd he small small'
    ∙ ap (λ (o : Ordering). or_else o (compare_bytes r s))
        (decimal_order-signed_order m n ds es d e u v hd he h)
