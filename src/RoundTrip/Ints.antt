-- ===== src/RoundTrip/Ints.antt =====
-- Integers: `reader_next` behind `append_magnitude`, `append_big_int`, `append_uint` and `append_int`.
use struple.Prelude.{
  ℕ, suc, ◌+◌, ◌*◌, ◌^◌, ◌≤◌, ◌<◌, ◌≡◌, ◌≢◌, sym, ap, arith, List, [], ◌∷◌, ◌++◌, length,
  length-append, append_assoc, Bool, true, false, inl, inr, three_ways, ◌⊎◌,
}
use struple.Codes.{u64_mod}
use struple.Bytes.{IsBytes, byte_len}
use struple.Bytes.BigEndian.{
  be_value, be_value-lt, power, power_mono, power-suc, IsNormal, IsNormal-IsBytes,
  power-le_IsNormal, length_pos_IsNormal,
}
use struple.Bytes.Negation.{length-flip_all}
use struple.Writer.{writer_init}
use struple.Encode.Ints.{fits_fixed, append_fixed_pos, append_fixed_neg, sub_one, trim_zeros}
use struple.Encode.Ints.Range.{fits_fixed_lem}
use struple.Encode.Ints.Emitted.{excess, big_bytes, bytes-append_fixed_pos, bytes-append_fixed_neg}
use struple.Encode.Ints.Payload.{
  sub_one-IsBytes, be_value-sub_one, length-sub_one, trim_zeros-IsBytes, be_value-trim_zeros,
  trim_zeros-IsNormal, trim_zeros-zero, length-trim_zeros-le,
}
use struple.Encode.Ints.Words.{flips}
use struple.Reader.{Element, bigint, reader_at}
use struple.Reader.Next.{item, reader_next}
use struple.Reader.Next.Fixed.{number, reader_next-fixed_pos}
use struple.Reader.Next.FixedNeg.{IsExcess, reader_next-fixed_neg, reader_next-lost}
use struple.Reader.Next.Big.{reader_next-big, header, length-header, length-flips}

-- `reader_next` takes exactly `p` from the input and returns `e`, wherever it stands and whatever follows.
abbrev pub ReadsBack : List ℕ → Element → Type 0
ReadsBack p e =
    (at : ℕ) (rest : List ℕ)
    → reader_next (reader_at at (p ++ rest)) ≡ (item e, reader_at (at + length p) rest)

pub at_most_16 : (mag : List ℕ) → IsNormal mag → be_value mag ≤ 2 ^ 127 → length mag ≤ 16
at_most_16 mag h v = elim (three_ways 16 (length mag)) [
  | inl more ↦ absurd (omega (arith, power-le_IsNormal mag h, power_mono 17 (length mag) more))
  | inr (inl same) ↦ omega arith
  | inr (inr less) ↦ omega arith
]

one_at_least : (mag : List ℕ) → IsNormal mag → 1 ≤ be_value mag
one_at_least mag h =
    omega (arith, power-le_IsNormal mag h, power_mono 1 (length mag) (length_pos_IsNormal mag h))

zero_or_IsNormal :
    (p : List ℕ) → IsBytes p → 1 ≤ length p → (trim_zeros p ≡ 0 ∷ []) ⊎ IsNormal (trim_zeros p)
zero_or_IsNormal [] h l = absurd (omega arith)
zero_or_IsNormal (b ∷ bs) h l = elim (three_ways 0 (be_value (b ∷ bs))) [
  | inl more ↦ inr (trim_zeros-IsNormal (b ∷ bs) h more)
  | inr (inl none_left) ↦ inl (trim_zeros-zero b bs (sym none_left))
  | inr (inr less) ↦ absurd (omega arith)
]

module _ (mag : List ℕ) (h : IsNormal mag) (v : be_value mag ≤ 2 ^ 127) where
  pub excess-IsExcess : IsExcess mag (excess mag)
  excess-IsExcess =
      let hb = IsNormal-IsBytes mag h in
      record {
        normal = h;
        are_bytes = trim_zeros-IsBytes (sub_one mag) (sub_one-IsBytes mag hb);
        one_less = omega (
          arith,
          be_value-trim_zeros (sub_one mag),
          be_value-sub_one mag hb (one_at_least mag h),
        );
        shape =
            zero_or_IsNormal (sub_one mag) (sub_one-IsBytes mag hb)
              (omega (arith, length-sub_one mag hb, length_pos_IsNormal mag h));
        in_range = v;
        at_most_16 =
            omega (
              arith,
              length-trim_zeros-le (sub_one mag),
              length-sub_one mag hb,
              at_most_16 mag h v,
            );
      }

  pub some_excess : 1 ≤ length (excess mag)
  some_excess = elim excess-IsExcess.shape [
    | inl e ↦ omega (arith, ap length e)
    | inr normal ↦ length_pos_IsNormal (excess mag) normal
  ]

-- Any magnitude beyond the slots is beyond int64_t too.
pub number-big :
    (negative : Bool) (mag : List ℕ)
    → IsNormal mag
    → fits_fixed negative mag ≡ false
    → number negative mag ≡ bigint negative mag
number-big true mag h f = ground (arith, (fits_fixed_lem true mag h).1)
number-big false mag h f = ground (arith, (fits_fixed_lem false mag h).1)

pub append_big-ReadsBack :
    (negative : Bool) (mag : List ℕ)
    → IsNormal mag
    → length mag < u64_mod
    → fits_fixed negative mag ≡ false
    → ReadsBack (big_bytes negative mag) (bigint negative mag)
append_big-ReadsBack negative mag h small f at rest =
    let front = header negative mag in
    let size : length (big_bytes negative mag) ≡ 2 + byte_len (length mag) + length mag = omega (
      arith,
      length-append front (flips negative mag),
      length-header negative mag,
      length-flips negative mag,
    ) in
    rw (size, append_assoc front (flips negative mag) rest)
      (reader_next-big negative mag h f small at rest)

pub append_fixed_pos-ReadsBack :
    (mag : List ℕ)
    → IsNormal mag
    → be_value mag < 2 ^ 127
    → ReadsBack (append_fixed_pos writer_init mag).bytes (number false mag)
append_fixed_pos-ReadsBack mag h v at rest =
    let l = at_most_16 mag h (omega arith) in
    rw (bytes-append_fixed_pos writer_init mag l) (reader_next-fixed_pos at mag rest h v l)

module _ (mag : List ℕ) (h : IsNormal mag) (v : be_value mag ≤ 2 ^ 127) where
  pub append_fixed_neg-ReadsBack :
      (8 < length (excess mag) → be_value mag ≢ power (length (excess mag)))
      → ReadsBack (append_fixed_neg writer_init mag).bytes (number true mag)
  append_fixed_neg-ReadsBack not_power at rest =
      let x = excess-IsExcess mag h v in
      rw (bytes-append_fixed_neg writer_init mag x.at_most_16, length-flip_all (excess mag))
        (reader_next-fixed_neg mag (excess mag) x (some_excess mag h v) at rest not_power)

  pub append_fixed_neg-lost :
      8 < length (excess mag)
      → be_value mag ≡ power (length (excess mag))
      → ReadsBack (append_fixed_neg writer_init mag).bytes (bigint true (0 ∷ []))
  append_fixed_neg-lost wide e at rest =
      let x = excess-IsExcess mag h v in
      rw (bytes-append_fixed_neg writer_init mag x.at_most_16, length-flip_all (excess mag))
        (reader_next-lost mag (excess mag) x (some_excess mag h v) at rest wide e)

module _ (mag : List ℕ) (h : IsNormal mag) (n : ℕ) (wide : 8 < n) (e : be_value mag ≡ 256 ^ n) where
  pub length-excess_power : be_value mag ≤ 2 ^ 127 → length (excess mag) ≡ n
  length-excess_power v =
      let x = excess-IsExcess mag h v in
      elim (three_ways (length (excess mag)) n) [
        | inl less ↦ absurd (
            omega (
              arith,
              be_value-lt (excess mag) x.are_bytes,
              power_mono (length (excess mag)) n (omega arith),
              power_mono (suc (length (excess mag))) n less,
              power-suc (length (excess mag)),
              x.one_less,
            ))
        | inr (inl same) ↦ same
        | inr (inr more) ↦ absurd (
            omega (
              arith,
              power_mono (suc n) (length (excess mag)) more,
              power-suc n,
              x.one_less,
              power_mono 1 n (omega arith),
              longer x.shape more,
            ))
      ]
    where
      longer :
          (excess mag ≡ 0 ∷ []) ⊎ IsNormal (excess mag)
          → n < length (excess mag)
          → power (length (excess mag)) ≤ 256 * be_value (excess mag)
      longer (inl one) more = absurd (omega (arith, ap length one))
      longer (inr normal) more = power-le_IsNormal (excess mag) normal
