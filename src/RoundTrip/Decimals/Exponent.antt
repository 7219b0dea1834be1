-- ===== src/RoundTrip/Decimals/Exponent.antt =====
-- The exponent of a decimal: `read_dec_exponent` behind `append_int`, complemented or not.
use struple.Prelude.{
  ℕ, suc, ◌+◌, ◌-◌, ◌*◌, ◌^◌, ◌≤◌, ◌<◌, ◌≡◌, ◌≢◌, refl, sym, ap, ◌∙◌, arith, List, [], ◌∷◌, ◌++◌,
  length, Bool, true, false, some, ltb, lt→ltb, le→ltb-false, ==_false, ◌⊎◌, inl, inr, three_ways,
  if◌then◌else◌,
}
use struple.Prelude.Int.{ℤ, pos, negsuc, neg}
use struple.Codes.{int_zero}
use struple.Bytes.{IsBytes, flip, flip_all, be_to_u64}
use struple.Bytes.BigEndian.{
  be_value, be_from, be_value-lt, power, power_mono, IsNormal, power-le_IsNormal,
  be_to_u64-be_value, two-pow-eight_mul,
}
use struple.Bytes.Negation.{length-flip_all, flip_all-IsBytes, flip_all-flip_all, be_value-flip_all}
use struple.Writer.{writer_init}
use struple.Encode.Ints.{append_int, flip_if}
use struple.Encode.Ints.Words.{flips, flips-cons}
use struple.Encode.Ints.Stripped.{IsStripped}
use struple.Encode.Decimals.{beyond_int32}
use struple.Reader.{reader_at, sub64}
use struple.Reader.Steps.{take_bytes-append}
use struple.Reader.Ints.{slot_width}
use struple.Reader.Next.Big.{length-flips}
use struple.Reader.Decimals.{exponent_i64, fixed_code, read_exponent_payload, read_dec_exponent}
use struple.RoundTrip.Magnitudes.{IsInt64}
use struple.RoundTrip.Slots.{IsSlot, append_int-IsSlot}
use struple.Semantic.Magnitudes.{IsStripped-IsBytes}

flips-flips :
    (complement : Bool) (p : List ℕ)
    → IsBytes p
    → (if complement then flip_all (flips complement p) else flips complement p) ≡ p
flips-flips true p h = flip_all-flip_all p h
flips-flips false p h = refl

short_normal : (p : List ℕ) → IsNormal p → be_value p < 2 ^ 32 → length p < 8
short_normal p h v = elim (three_ways (length p) 8) [
  | inl less ↦ less
  | inr (inl e) ↦ absurd (omega (arith, power-le_IsNormal p h, ap power e))
  | inr (inr more) ↦
      absurd (omega (arith, power-le_IsNormal p h, power_mono 8 (length p) (omega arith)))
]

short_stripped : (p : List ℕ) → IsStripped p → be_value p < 2 ^ 32 → length p < 8
short_stripped [] h v = omega arith
short_stripped (b ∷ bs) h v = short_normal (b ∷ bs) h v

short_shape : (p : List ℕ) → (p ≡ 0 ∷ []) ⊎ IsNormal p → be_value p < 2 ^ 32 → length p < 8
short_shape p (inl e) v = omega (arith, ap length e)
short_shape p (inr h) v = short_normal p h v

-- At most eight bytes of payload stand for a number of 64 bits.
payload_value : (p : List ℕ) → IsBytes p → length p ≤ 8 → be_to_u64 p ≡ be_value p
payload_value p h l =
    be_to_u64-be_value p h (omega (arith, be_value-lt p h, power_mono (length p) 8 l))

exponent_upper :
    (p : List ℕ)
    → IsBytes p
    → length p < 8
    → be_value p < 2 ^ 31
    → exponent_i64 true (length p) p ≡ some (pos (be_value p))
unfolding exponent_i64
exponent_upper p h l v = rw (payload_value p h (omega arith)) (ground arith)

neg_complement : (w v p : ℕ) → w + v + 1 ≡ p → p < 2 ^ 64 → neg (sub64 p w) ≡ negsuc v
neg_complement w v p e h = ground arith

exponent_lower :
    (q : List ℕ)
    → IsBytes q
    → 1 ≤ length q
    → length q < 8
    → exponent_i64 false (length (flip_all q)) (flip_all q) ≡ some (negsuc (be_value q))
unfolding exponent_i64
exponent_lower q h some_byte l =
    let w = flip_all q in
    let n : length w ≡ length q = length-flip_all q in
    let whole : be_value w + be_value q + 1 ≡ 2 ^ (8 * length q) =
      be_value-flip_all q h ∙ sym (two-pow-eight_mul (length q)) in
    let fits : 2 ^ (8 * length q) < 2 ^ 64 =
      omega (arith, two-pow-eight_mul (length q), power_mono (length q) 7 (omega arith)) in
    rw
      (
        n,
        ==_false (length q) 16 (omega arith),
        le→ltb-false 8 (length q) (omega arith),
        lt→ltb (length q) 8 l,
        payload_value w (flip_all-IsBytes q) (omega (arith, n)),
      )
      (ap some (neg_complement (be_value w) (be_value q) (2 ^ (8 * length q)) whole fits))

flip_if-flip_if :
    (complement : Bool) (b : ℕ) → b < 256 → flip_if complement (flip_if complement b) ≡ b
flip_if-flip_if true b h = omega arith
flip_if-flip_if false b h = refl

payload_lem :
    (complement : Bool) (tb : ℕ) (p : List ℕ) (v : ℤ) (at : ℕ) (rest : List ℕ)
    → IsBytes p
    → slot_width tb ≡ length p
    → fixed_code tb ≡ some tb
    → exponent_i64 (ltb int_zero tb) (length p) p ≡ some v
    → beyond_int32 v ≡ false
    → read_exponent_payload complement tb (reader_at at (flips complement p ++ rest))
      ≡ (some v, reader_at (at + length p) rest)
unfolding read_exponent_payload
payload_lem complement tb p v at rest h width code number small =
    rw
      (
        code,
        width,
        take_bytes-append at (length p) (flips complement p) rest (sym (length-flips complement p)),
        flips-flips complement p h,
        number,
        small,
      )
      refl

-- The type code of a slot, and then its payload
exponent_at :
    (complement : Bool) (tb : ℕ) (p : List ℕ) (v : ℤ) (at : ℕ) (rest : List ℕ)
    → tb < 256
    → tb ≢ int_zero
    → IsBytes p
    → slot_width tb ≡ length p
    → fixed_code tb ≡ some tb
    → exponent_i64 (ltb int_zero tb) (length p) p ≡ some v
    → beyond_int32 v ≡ false
    → read_dec_exponent complement (reader_at at (flips complement (tb ∷ p) ++ rest))
      ≡ (some v, reader_at (at + suc (length p)) rest)
unfolding read_dec_exponent
exponent_at complement tb p v at rest byte ne h width code number small =
    rw
      (
        flips-cons complement tb p,
        take_bytes-append at 1 (flip_if complement tb ∷ []) (flips complement p ++ rest) refl,
        flip_if-flip_if complement tb byte,
        ==_false tb int_zero ne,
        payload_lem complement tb p v (at + 1) rest h width code number small,
      )
      (ap (λ (n : ℕ). (some v, reader_at n rest)) (omega arith))

zero_exponent :
    (complement : Bool) (at : ℕ) (rest : List ℕ)
    → read_dec_exponent complement (reader_at at (flips complement (int_zero ∷ []) ++ rest))
      ≡ (some (pos 0), reader_at (at + 1) rest)
unfolding read_dec_exponent
zero_exponent true at rest = rw (take_bytes-append at 1 (flip int_zero ∷ []) rest refl) refl
zero_exponent false at rest = rw (take_bytes-append at 1 (int_zero ∷ []) rest refl) refl

upper_code :
    (n : ℕ)
    → 1 ≤ n
    → n < 8
    → (slot_width (int_zero + n) ≡ n)
      × (fixed_code (int_zero + n) ≡ some (int_zero + n))
      × (ltb int_zero (int_zero + n) ≡ true)
upper_code n lo hi = (ground arith, ground arith, ground arith)

lower_code :
    (n : ℕ)
    → 1 ≤ n
    → n < 8
    → (slot_width (int_zero - n) ≡ n)
      × (fixed_code (int_zero - n) ≡ some (int_zero - n))
      × (ltb int_zero (int_zero - n) ≡ false)
lower_code n lo hi = (ground arith, ground arith, ground arith)

small_upper : (n : ℕ) → beyond_int32 (pos n) ≡ false → n < 2 ^ 31
small_upper n h = ground arith

small_lower : (n : ℕ) → beyond_int32 (negsuc n) ≡ false → n < 2 ^ 31
small_lower n h = ground arith

-- A slot that stands for `v` is read as `v`.
abbrev IsReadAs : Bool → ℤ → List ℕ → Type 0
IsReadAs complement v slot =
    (at : ℕ) (rest : List ℕ)
    → read_dec_exponent complement (reader_at at (flips complement slot ++ rest))
      ≡ (some v, reader_at (at + length slot) rest)

upper_payload :
    (complement : Bool) (p : List ℕ)
    → IsStripped p
    → beyond_int32 (pos (be_value p)) ≡ false
    → IsReadAs complement (pos (be_value p)) ((int_zero + length p) ∷ p)
unfolding be_from
upper_payload complement [] h small at rest = zero_exponent complement at rest
upper_payload complement (b ∷ bs) h small at rest =
    let p = b ∷ bs in
    let v = small_upper (be_value p) small in
    let short = short_stripped p h (omega (arith, v)) in
    let (width, code, positive) = upper_code (length p) (omega arith) short in
    let are_bytes = IsStripped-IsBytes p h in
    exponent_at complement (int_zero + length p) p (pos (be_value p)) at rest (omega (arith, short))
      (omega arith) are_bytes width code (rw positive (exponent_upper p are_bytes short v)) small

lower_payload :
    (complement : Bool) (q : List ℕ)
    → IsBytes q
    → 1 ≤ length q
    → (q ≡ 0 ∷ []) ⊎ IsNormal q
    → beyond_int32 (negsuc (be_value q)) ≡ false
    → IsReadAs complement (negsuc (be_value q)) ((int_zero - length q) ∷ flip_all q)
lower_payload complement q h some_byte shape small at rest =
    let p = flip_all q in
    let n : length p ≡ length q = length-flip_all q in
    let v = small_lower (be_value q) small in
    let short = short_shape q shape (omega (arith, v)) in
    let (width, code, negative) = lower_code (length q) some_byte short in
    exponent_at complement (int_zero - length q) p (negsuc (be_value q)) at rest (omega arith)
      (omega (arith, some_byte)) (flip_all-IsBytes q) (width ∙ sym n) code
      (rw negative (exponent_lower q h some_byte short)) small

slot-IsReadAs :
    (complement : Bool) (v : ℤ) (slot : List ℕ)
    → IsSlot v slot
    → beyond_int32 v ≡ false
    → IsReadAs complement v slot
slot-IsReadAs complement (pos n) slot x small at rest =
    rw (x.form, ← x.value)
      (upper_payload complement x.payload x.stripped (rw x.value small) at rest)
slot-IsReadAs complement (negsuc n) slot x small at rest =
    rw (x.form, ← x.value)
      (lower_payload complement x.payload x.are_bytes x.some_byte x.shape (rw x.value small) at
        rest)

-- t
pub read_dec_exponent-append_int :
    (complement : Bool) (v : ℤ)
    → IsInt64 v
    → beyond_int32 v ≡ false
    → IsReadAs complement v (append_int writer_init v).bytes
read_dec_exponent-append_int complement v h small =
    slot-IsReadAs complement v (append_int writer_init v).bytes (append_int-IsSlot v h) small
