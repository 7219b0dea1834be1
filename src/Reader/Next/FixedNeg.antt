-- ===== src/Reader/Next/FixedNeg.antt =====
-- Reading back the fixed-width slots of negative integers.
use struple.Prelude.{
  ℕ, zero, suc, ◌+◌, ◌-◌, ◌*◌, ◌^◌, ◌≤◌, ◌<◌, ◌≡◌, ◌≢◌, ◌⊎◌, refl, sym, ap, ◌∙◌, arith, List, [],
  ◌∷◌, ◌++◌, length, true, false, leb, if◌then◌else◌, lt→ltb, le→ltb-false, le→leb, lt→leb-false,
  Bool-cases, inl, inr, three_ways, ◌==◌, ==_false,
}
use struple.Prelude.Int.{neg, negsuc}
use struple.Codes.{int_zero, int64_max}
use struple.Bytes.{IsBytes, be_to_u64, flip_all, u64_to_be}
use struple.Bytes.BigEndian.{
  be_value, be_value-cons, be_value-lt, be_from, power, power_mono, IsNormal, IsNormal-injective,
  power-le_IsNormal, be_to_u64-be_value, two-pow-eight_mul,
}
use struple.Bytes.Negation.{length-flip_all, flip_all-IsBytes}
use struple.Bytes.Digits.{be_value-u64_to_be, u64_to_be-IsNormal}
use struple.Reader.{Element, int, bigint, reader_at, sub64}
use struple.Reader.Ints.{bad_fixed, fixed_neg, fixed_element, negate_bytes, neg_word}
use struple.Encode.Ints.{trim_zeros}
use struple.Reader.Ints.Payload.{excess_total, trim_zeros-negate_bytes, trim_zeros-negate_zero}
use struple.Reader.Next.{item, reader_next}
use struple.Reader.Next.Fixed.{number, reader_next-slot}

-- `pv` is the magnitude less one, without leading zeros but with at least one byte.
pub record IsExcess (mag pv : List ℕ) : Type 0 where
  pub normal : IsNormal mag
  pub are_bytes : IsBytes pv
  pub one_less : be_value pv + 1 ≡ be_value mag
  pub shape : (pv ≡ 0 ∷ []) ⊎ IsNormal pv
  pub in_range : be_value mag ≤ 2 ^ 127
  pub at_most_16 : length pv ≤ 16

sub64-total : (a b m : ℕ) → b + m ≡ a → sub64 a b ≡ m
sub64-total a b m e = ground arith

-- `INT64_MIN` and `-(int64_t)m` are one number.
neg_branch : (m : ℕ) → (if m == int64_max + 1 then negsuc int64_max else neg m) ≡ neg m
neg_branch m = ground arith

neg_word-zero : (mag : List ℕ) → IsNormal mag → be_value mag ≡ 2 ^ 64 → neg_word 0 ≡ number true mag
unfolding neg_word
neg_word-zero mag h e = rw e (
    ap (bigint true) (
      IsNormal-injective (1 ∷ 0 ∷ 0 ∷ 0 ∷ 0 ∷ 0 ∷ 0 ∷ 0 ∷ 0 ∷ []) mag (omega arith) h
        (unfold be_from in sym e)))

-- Eight bytes, which stand for 2 ^ 64 less the magnitude.
neg_word-number :
    (mag : List ℕ) (raw : ℕ)
    → IsNormal mag
    → raw + be_value mag ≡ 2 ^ 64
    → neg_word raw ≡ number true mag
unfolding neg_word
neg_word-number mag zero h e = neg_word-zero mag h (omega arith)
neg_word-number mag (suc r) h e =
    let back : sub64 0 (suc r) ≡ be_value mag = ground arith in
    elim (Bool-cases (leb (be_value mag) (int64_max + 1))) [
      | inl small ↦
          rw (==_false (suc r) 0 (omega arith), back, small) (ap int (neg_branch (be_value mag)))
      | inr large ↦
          rw (==_false (suc r) 0 (omega arith), back, large)
            (ap (bigint true) (
              IsNormal-injective (u64_to_be (be_value mag)) mag
                (u64_to_be-IsNormal (be_value mag) (ground arith) (omega arith)) h
                (be_value-u64_to_be (be_value mag) (ground arith) (omega arith))))
    ]

module _ (mag pv : List ℕ) (x : IsExcess mag pv) where
  total : be_value (flip_all pv) + be_value mag ≡ power (length pv)
  total = excess_total (be_value mag) pv x.are_bytes x.one_less

  raw-eq : length pv ≤ 8 → 1 ≤ be_value mag → be_to_u64 (flip_all pv) ≡ be_value (flip_all pv)
  raw-eq h p =
      be_to_u64-be_value (flip_all pv) (flip_all-IsBytes pv)
        (omega (arith, total, power_mono (length pv) 8 h))

  fixed_neg-narrow : length pv < 8 → fixed_neg (length pv) (flip_all pv) ≡ number true mag
  unfolding fixed_neg
  fixed_neg-narrow h =
      let some_value : 1 ≤ be_value mag = omega (arith, x.one_less) in
      let small : be_value mag ≤ 2 ^ 63 =
        omega (arith, total, power_mono (length pv) 7 (omega arith)) in
      rw
        (
          le→leb (length pv) 8 (omega arith),
          lt→ltb (length pv) 8 h,
          raw-eq (omega arith) some_value,
          two-pow-eight_mul (length pv),
          sub64-total (power (length pv)) (be_value (flip_all pv)) (be_value mag) total,
          le→leb (be_value mag) (int64_max + 1) small,
        )
        refl

  fixed_neg-word : length pv ≡ 8 → fixed_neg (length pv) (flip_all pv) ≡ number true mag
  unfolding fixed_neg
  fixed_neg-word h =
      rw (h, raw-eq (omega arith) (omega (arith, x.one_less)))
        (neg_word-number mag (be_value (flip_all pv)) x.normal (omega (arith, total, ap power h)))

  module _ (h : 8 < length pv) where
    fixed_neg-wide_branch :
        fixed_neg (length pv) (flip_all pv) ≡ bigint true (trim_zeros (negate_bytes (flip_all pv)))
    unfolding fixed_neg
    fixed_neg-wide_branch = rw (lt→leb-false (length pv) 8 h) refl

    wide_value : 2 ^ 64 ≤ be_value mag
    wide_value = elim x.shape [
      | inl e ↦ absurd (omega (arith, ap length e))
      | inr normal ↦
          omega (arith, power-le_IsNormal pv normal, power_mono 9 (length pv) h, x.one_less)
    ]

    fixed_neg-wide :
        be_value mag < power (length pv) → fixed_neg (length pv) (flip_all pv) ≡ number true mag
    fixed_neg-wide less =
        fixed_neg-wide_branch
        ∙ rw
            (
              trim_zeros-negate_bytes mag pv x.normal x.are_bytes x.one_less less,
              lt→leb-false (be_value mag) (int64_max + 1) (omega (arith, wide_value)),
            )
            refl

    -- Nine bytes or more of 0: the magnitude 256 ^ n is read as 0.
    fixed_neg-lost :
        be_value mag ≡ power (length pv)
        → fixed_neg (length pv) (flip_all pv) ≡ bigint true (0 ∷ [])
    fixed_neg-lost e =
        fixed_neg-wide_branch
        ∙ ap (bigint true) (
            trim_zeros-negate_zero (flip_all pv) (flip_all-IsBytes pv)
              (omega (arith, length-flip_all pv)) (omega (arith, total)))

leading_byte :
    (mag : List ℕ) (b : ℕ) (bs : List ℕ) → IsExcess mag (b ∷ bs) → 1 < length (b ∷ bs) → 0 < b
leading_byte mag b bs x h = elim x.shape [
  | inl e ↦ absurd (omega (arith, ap length e))
  | inr normal ↦ normal.0
]

leading_byte-lt :
    (mag : List ℕ) (b : ℕ) (bs : List ℕ) → IsExcess mag (b ∷ bs) → length (b ∷ bs) ≡ 16 → b < 128
leading_byte-lt mag b bs x h =
    let tail : length bs ≡ 15 = omega arith in
    omega (arith, be_value-cons b bs, ap (λ (k : ℕ). b * power k) tail, x.one_less, x.in_range)

bad_fixed-neg :
    (mag pv : List ℕ) → IsExcess mag pv → bad_fixed false (length pv) (flip_all pv) ≡ false
unfolding bad_fixed
bad_fixed-neg mag [] x = refl
bad_fixed-neg mag (b ∷ bs) x =
    ground (arith, leading_byte mag b bs x, leading_byte-lt mag b bs x, x.are_bytes)

module _ (mag pv : List ℕ) (x : IsExcess mag pv) (some_byte : 1 ≤ length pv) where
  read_neg_slot :
      (at : ℕ) (rest : List ℕ) (e : Element)
      → fixed_neg (length pv) (flip_all pv) ≡ e
      → reader_next (reader_at at ((int_zero - length pv) ∷ flip_all pv ++ rest))
        ≡ (item e, reader_at (at + suc (length pv)) rest)
  unfolding fixed_element
  read_neg_slot at rest e h =
      let l = length-flip_all pv in
      let room = x.at_most_16 in
      let below = le→ltb-false int_zero (int_zero - length pv) (omega arith) in
      rw l at (
        reader_next-slot at (int_zero - length pv) (flip_all pv) rest e (omega arith) (omega arith)
          (omega arith) (rw below (omega (arith, l)))
          (rw (below, l, bad_fixed-neg mag pv x, h) refl))

  -- A negative slot is read back as its number, unless that is -256 ^ n for an n of nine or more.
  pub reader_next-fixed_neg :
      (at : ℕ) (rest : List ℕ)
      → (8 < length pv → be_value mag ≢ power (length pv))
      → reader_next (reader_at at ((int_zero - length pv) ∷ flip_all pv ++ rest))
        ≡ (item (number true mag), reader_at (at + suc (length pv)) rest)
  reader_next-fixed_neg at rest not_power =
      read_neg_slot at rest (number true mag) (elim (three_ways (length pv) 8) [
        | inl narrow ↦ fixed_neg-narrow mag pv x narrow
        | inr (inl word) ↦ fixed_neg-word mag pv x word
        | inr (inr wide) ↦
            fixed_neg-wide mag pv x wide
              (omega (arith, not_power wide, x.one_less, be_value-lt pv x.are_bytes))
      ])

  pub reader_next-lost :
      (at : ℕ) (rest : List ℕ)
      → 8 < length pv
      → be_value mag ≡ power (length pv)
      → reader_next (reader_at at ((int_zero - length pv) ∷ flip_all pv ++ rest))
        ≡ (item (bigint true (0 ∷ [])), reader_at (at + suc (length pv)) rest)
  reader_next-lost at rest wide e =
      read_neg_slot at rest (bigint true (0 ∷ [])) (fixed_neg-lost mag pv x wide e)
