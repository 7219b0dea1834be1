-- ===== src/RoundTrip/Magnitudes.antt =====
-- The integer encoders as a whole: `append_magnitude`, `append_big_int`, `append_uint`, `append_int`.
use struple.Prelude.{
  ℕ, zero, suc, ◌+◌, ◌^◌, ◌≤◌, ◌<◌, ◌≡◌, ◌≢◌, refl, sym, ap, ◌∙◌, arith, List, [], ◌∷◌, length,
  Bool, true, false, if◌then◌else◌, leb, le→leb, Bool-cases, inl, inr, ==_false, three_ways,
}
use struple.Prelude.Int.{ℤ, pos, negsuc}
use struple.Codes.{u64_mod, int64_max, int_zero}
use struple.Bytes.{IsBytes, u64_to_be}
use struple.Bytes.BigEndian.{be_value, power, power_mono, IsNormal, length_pos_IsNormal}
use struple.Bytes.Digits.{be_value-u64_to_be, length-u64_to_be, u64_to_be-IsNormal}
use struple.Writer.{writer_init}
use struple.Writer.Contents.{bytes-sw_push}
use struple.Encode.Ints.{
  fits_fixed, append_magnitude, append_big_int, append_int, append_uint, strip_zeros, magnitude,
}
use struple.Encode.Ints.Stripped.{
  be_value-strip_zeros, length-strip_zeros-le, IsStripped, strip_zeros-IsStripped,
  strip_zeros-normal,
}
use struple.Encode.Ints.Range.{fits_fixed_lem}
use struple.Encode.Ints.Emitted.{excess, bytes-append_big}
use struple.Reader.{Element, int, bigint}
use struple.Reader.Next.{reader_next, read_payload}
use struple.Reader.Next.Fixed.{number}
use struple.RoundTrip.Ints.{
  ReadsBack, number-big, append_big-ReadsBack, append_fixed_pos-ReadsBack,
  append_fixed_neg-ReadsBack, append_fixed_neg-lost, length-excess_power,
}

-- Not a negative power 256 ^ n for an n from 9 to 15.
abbrev pub IsReadable : Bool → List ℕ → Type 0
IsReadable negative mag = (n : ℕ) → negative ≡ true → 8 < n → n < 16 → be_value mag ≢ 256 ^ n

module _ (mag : List ℕ) (h : IsNormal mag) (small : length mag < u64_mod) where
  magnitude-big :
      (negative : Bool)
      → fits_fixed negative mag ≡ false
      → ReadsBack (append_magnitude writer_init negative mag).bytes (number negative mag)
  unfolding append_magnitude
  magnitude-big negative f =
      rw
        (
          f,
          bytes-append_big writer_init negative mag (length_pos_IsNormal mag h) small,
          number-big negative mag h f,
        )
        (append_big-ReadsBack negative mag h small f)

  narrow :
      be_value mag ≤ 2 ^ 127 → be_value mag ≡ power (length (excess mag)) → length (excess mag) < 16
  narrow v e = elim (three_ways 15 (length (excess mag))) [
    | inl more ↦ absurd (omega (arith, power_mono 16 (length (excess mag)) more))
    | inr (inl same) ↦ omega arith
    | inr (inr less) ↦ omega arith
  ]

  magnitude-fixed :
      (negative : Bool)
      → fits_fixed negative mag ≡ true
      → IsReadable negative mag
      → ReadsBack (append_magnitude writer_init negative mag).bytes (number negative mag)
  unfolding append_magnitude
  magnitude-fixed false f readable =
      rw f (append_fixed_pos-ReadsBack mag h ((fits_fixed_lem false mag h).0 f))
  magnitude-fixed true f readable =
      let v = (fits_fixed_lem true mag h).0 f in
      rw f (
        append_fixed_neg-ReadsBack mag h v
          (λ wide e. readable (length (excess mag)) refl wide (narrow v e) e))

  pub append_magnitude-ReadsBack :
      (negative : Bool)
      → IsReadable negative mag
      → ReadsBack (append_magnitude writer_init negative mag).bytes (number negative mag)
  append_magnitude-ReadsBack negative readable = elim (Bool-cases (fits_fixed negative mag)) [
    | inl f ↦ magnitude-fixed negative f readable
    | inr f ↦ magnitude-big negative f
  ]

zero_slot : ReadsBack (int_zero ∷ []) (int (pos 0))
unfolding reader_next read_payload
zero_slot at rest = refl

-- The element for a magnitude without leading zeros: 0 has no byte at all.
abbrev pub presented : Bool → List ℕ → Element
presented negative [] = int (pos 0)
presented negative (b ∷ bs) = number negative (b ∷ bs)

stripped-ReadsBack :
    (negative : Bool) (mag p : List ℕ)
    → strip_zeros mag ≡ p
    → IsStripped p
    → length p < u64_mod
    → IsReadable negative p
    → ReadsBack (append_big_int writer_init negative mag).bytes (presented negative p)
unfolding append_big_int
stripped-ReadsBack negative mag [] e h small readable =
    rw (e, bytes-sw_push writer_init int_zero) zero_slot
stripped-ReadsBack negative mag (b ∷ bs) e h small readable =
    rw e (append_magnitude-ReadsBack (b ∷ bs) h small negative readable)

-- A sign and a magnitude of bytes, of any length below 2 ^ 64 and with leading zeros or without, are
-- read back as the sign and the magnitude without leading zeros, as an int where an int64_t holds it,
-- unless the number is -256 ^ n for an n from 9 to 15.
pub append_big_int-ReadsBack :
    (negative : Bool) (mag : List ℕ)
    → IsBytes mag
    → length mag < u64_mod
    → IsReadable negative mag
    → ReadsBack
        (append_big_int writer_init negative mag).bytes
        (presented negative (strip_zeros mag))
append_big_int-ReadsBack negative mag h small readable =
    stripped-ReadsBack negative mag (strip_zeros mag) refl (strip_zeros-IsStripped mag h)
      (omega (arith, length-strip_zeros-le mag))
      (λ n s lo hi e. readable n s lo hi (sym (be_value-strip_zeros mag) ∙ e))

-- The same for a magnitude without leading zeros.
pub normal-ReadsBack :
    (negative : Bool) (mag : List ℕ)
    → IsNormal mag
    → length mag < u64_mod
    → IsReadable negative mag
    → ReadsBack (append_big_int writer_init negative mag).bytes (number negative mag)
normal-ReadsBack negative [] h small readable = absurd h
normal-ReadsBack negative (b ∷ bs) h small readable =
    stripped-ReadsBack negative (b ∷ bs) (b ∷ bs) (strip_zeros-normal (b ∷ bs) h) h small readable

-- The value range of an int64_t
abbrev pub IsInt64 : ℤ → Type 0
IsInt64 (pos n) = n < 2 ^ 63
IsInt64 (negsuc n) = n < 2 ^ 63

pub magnitude-pos : (n : ℕ) → n < 2 ^ 63 → magnitude (pos n) ≡ n
unfolding magnitude
magnitude-pos n h = omega arith

pub magnitude-negsuc : (n : ℕ) → n < 2 ^ 63 → magnitude (negsuc n) ≡ suc n
unfolding magnitude
magnitude-negsuc n h = omega arith

-- A magnitude of at most eight bytes.
word-ReadsBack :
    (negative : Bool) (m : ℕ)
    → 0 < m
    → m < u64_mod
    → ReadsBack
        (append_magnitude writer_init negative (u64_to_be m)).bytes
        (number negative (u64_to_be m))
word-ReadsBack negative m p small =
    let value = be_value-u64_to_be m p small in
    append_magnitude-ReadsBack (u64_to_be m) (u64_to_be-IsNormal m p small)
      (omega (arith, length-u64_to_be m p small)) negative
      (λ n s lo hi e. omega (arith, value, e, power_mono 8 n (omega arith)))

number-pos : (m : ℕ) → 0 < m → m < 2 ^ 63 → number false (u64_to_be m) ≡ int (pos m)
number-pos m p h = rw (be_value-u64_to_be m p (omega arith), le→leb m int64_max (omega arith)) refl

number-neg : (m : ℕ) → m < 2 ^ 63 → number true (u64_to_be (suc m)) ≡ int (negsuc m)
number-neg m h =
    rw
      (
        be_value-u64_to_be (suc m) (omega arith) (omega arith),
        le→leb (suc m) (int64_max + 1) (omega arith),
      )
      (ground arith)

-- Every int64_t that append_int writes is read back by reader_next as the same int.
pub append_int-ReadsBack : (v : ℤ) → IsInt64 v → ReadsBack (append_int writer_init v).bytes (int v)
unfolding append_int
append_int-ReadsBack (pos zero) h = rw (bytes-sw_push writer_init int_zero) zero_slot
append_int-ReadsBack (pos (suc n)) h =
    rw
      (
        ==_false (suc n) 0 (omega arith),
        magnitude-pos (suc n) h,
        ← number-pos (suc n) (omega arith) h,
      )
      (word-ReadsBack false (suc n) (omega arith) (omega arith))
append_int-ReadsBack (negsuc n) h =
    rw (magnitude-negsuc n h, ← number-neg n h)
      (word-ReadsBack true (suc n) (omega arith) (omega arith))

-- Every uint64_t above 0 is read back as an int where an int64_t holds it, and as a big integer of its
-- bytes without leading zeros where not.
pub append_uint-ReadsBack :
    (v : ℕ)
    → 0 < v
    → v < u64_mod
    → ReadsBack
        (append_uint writer_init v).bytes
        (if leb v int64_max then int (pos v) else bigint false (u64_to_be v))
unfolding append_uint
append_uint-ReadsBack v p small =
    rw (==_false v 0 (omega arith))
      (rw (be_value-u64_to_be v p small) at (word-ReadsBack false v p small))

-- The number -256 ^ n, for an n from 9 to 15, is written by append_big_int without error and read back
-- as a big integer of magnitude 0.
pub negative_power_lost :
    (mag : List ℕ) (n : ℕ)
    → IsNormal mag
    → 8 < n
    → n < 16
    → be_value mag ≡ 256 ^ n
    → ReadsBack (append_big_int writer_init true mag).bytes (bigint true (0 ∷ []))
unfolding append_big_int append_magnitude
negative_power_lost [] n h lo hi e = absurd h
negative_power_lost (b ∷ bs) n h lo hi e =
    let v : be_value (b ∷ bs) ≤ 2 ^ 127 = omega (arith, e, power_mono n 15 (omega arith)) in
    let l = length-excess_power (b ∷ bs) h n lo e v in
    rw (strip_zeros-normal (b ∷ bs) h, (fits_fixed_lem true (b ∷ bs) h).1 v)
      (append_fixed_neg-lost (b ∷ bs) h v (omega arith) (e ∙ ap power (sym l)))
