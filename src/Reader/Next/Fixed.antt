-- ===== src/Reader/Next/Fixed.antt =====
-- Reading back the fixed-width integer slots.
use struple.Prelude.{
  ℕ, suc, ◌+◌, ◌-◌, ◌*◌, ◌^◌, ◌≤◌, ◌<◌, ◌≡◌, ◌≢◌, refl, ap, arith, List, [], ◌∷◌, ◌++◌, length,
  Bool, true, false, ltb, leb, if◌then◌else◌, some, lt→ltb, lt→leb-false, leb→le, leb-false,
  Bool-cases, inl, inr,
}
use struple.Prelude.Int.{pos, neg}
use struple.Codes.{int_zero, int64_max, u64_mod}
use struple.Bytes.BigEndian.{
  be_value, be_value-cons, be_value-lt, power, power_mono, IsNormal, IsNormal-IsBytes,
  power-le_IsNormal, length_pos_IsNormal, be_to_u64-be_value,
}
use struple.Encode.Ints.Range.{InFixedRange}
use struple.Reader.{Element, int, bigint, reader_at}
use struple.Reader.Steps.{take_bytes-append}
use struple.Reader.Ints.{bad_fixed, fixed_pos, fixed_element, read_fixed_int}
use struple.Reader.Next.{item, reader_next}
use struple.Reader.Next.Dispatch.{read_payload-fixed}

-- How an integer of this sign and magnitude is presented: as an int if it fits an int64_t.
abbrev pub number : Bool → List ℕ → Element
number false mag =
    if leb (be_value mag) int64_max then int (pos (be_value mag)) else bigint false mag
number true mag =
    if leb (be_value mag) (int64_max + 1) then int (neg (be_value mag)) else bigint true mag

-- A slot that holds `p`, and then `rest`.
pub reader_next-slot :
    (at t : ℕ) (p rest : List ℕ) (e : Element)
    → 0x10 ≤ t
    → t ≤ 0x30
    → t ≢ int_zero
    → (if ltb int_zero t then t - int_zero else int_zero - t) ≡ length p
    → fixed_element (ltb int_zero t) (length p) p ≡ some e
    → reader_next (reader_at at (t ∷ p ++ rest)) ≡ (item e, reader_at (at + length (t ∷ p)) rest)
unfolding reader_next read_fixed_int
reader_next-slot at t p rest e lo hi ne width good =
    rw (read_payload-fixed t lo hi ne, take_bytes-append (at + 1) _ p rest width, width, good)
      (ap (λ (k : ℕ). (item e, reader_at k rest)) (omega arith))

fixed_pos-number : (mag : List ℕ) → IsNormal mag → fixed_pos (length mag) mag ≡ number false mag
unfolding fixed_pos
fixed_pos-number mag h = elim (Bool-cases (leb (length mag) 8)) [
  | inl short ↦
      let fits : be_value mag < u64_mod = omega (
        arith,
        be_value-lt mag (IsNormal-IsBytes mag h),
        power_mono (length mag) 8 (leb→le _ _ short),
      ) in
      rw (short, be_to_u64-be_value mag (IsNormal-IsBytes mag h) fits) refl
  | inr long ↦
      let wide : 2 ^ 64 ≤ be_value mag =
        omega (arith, power-le_IsNormal mag h, power_mono 9 (length mag) (leb-false _ _ long)) in
      rw (long, lt→leb-false (be_value mag) int64_max (omega arith)) refl
]

bad_fixed-pos :
    (mag : List ℕ)
    → IsNormal mag
    → be_value mag < 2 ^ 127
    → length mag ≤ 16
    → bad_fixed true (length mag) mag ≡ false
unfolding bad_fixed
bad_fixed-pos [] h v l = absurd h
bad_fixed-pos (b ∷ bs) h v l = ground (arith, top16 b bs h v)
  where
    top16 :
        (b : ℕ) (bs : List ℕ)
        → IsNormal (b ∷ bs)
        → be_value (b ∷ bs) < 2 ^ 127
        → length (b ∷ bs) ≡ 16
        → b < 128
    top16 b bs h v l =
        let tail : length bs ≡ 15 = omega arith in
        omega (arith, be_value-cons b bs, ap (λ (k : ℕ). b * power k) tail)

-- A positive slot is read back as its number.
pub reader_next-fixed_pos :
    (at : ℕ) (mag rest : List ℕ)
    → IsNormal mag
    → InFixedRange false (be_value mag)
    → length mag ≤ 16
    → reader_next (reader_at at ((int_zero + length mag) ∷ mag ++ rest))
      ≡ (item (number false mag), reader_at (at + suc (length mag)) rest)
unfolding fixed_element
reader_next-fixed_pos at mag rest h v l =
    let some_byte = length_pos_IsNormal mag h in
    let above = lt→ltb int_zero (int_zero + length mag) (omega arith) in
    reader_next-slot at (int_zero + length mag) mag rest (number false mag) (omega arith)
      (omega arith) (omega arith) (rw above (omega arith))
      (rw (above, bad_fixed-pos mag h v l, fixed_pos-number mag h) refl)
