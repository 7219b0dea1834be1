-- ===== src/RoundTrip/Slots.antt =====
-- The slots that `append_int` writes: a type code with the width, and the number in as many bytes.
use struple.Prelude.{
  ℕ, zero, suc, ◌+◌, ◌-◌, ◌^◌, ◌≤◌, ◌≡◌, refl, arith, List, [], ◌∷◌, length, true, false, ==_false,
  ◌⊎◌,
}
use struple.Prelude.Int.{ℤ, pos, negsuc}
use struple.Codes.{int_zero}
use struple.Bytes.{IsBytes, flip_all, u64_to_be}
use struple.Bytes.BigEndian.{be_value, be_from, IsNormal}
use struple.Bytes.Digits.{be_value-u64_to_be, length-u64_to_be, u64_to_be-IsNormal}
use struple.Writer.{writer_init}
use struple.Writer.Contents.{bytes-sw_push}
use struple.Encode.Ints.{append_int, append_magnitude}
use struple.Encode.Ints.Emitted.{excess, bytes-append_fixed_pos, bytes-append_fixed_neg}
use struple.Encode.Ints.Range.{fits_fixed_lem}
use struple.Encode.Ints.Stripped.{IsStripped}
use struple.RoundTrip.Ints.{excess-IsExcess, some_excess}
use struple.RoundTrip.Magnitudes.{IsInt64, magnitude-pos, magnitude-negsuc}

-- The slot of a number that is not negative, with its value in no more bytes than it needs
pub record IsUpper (n : ℕ) (slot : List ℕ) : Type 0 where
  pub payload : List ℕ
  pub form : slot ≡ (int_zero + length payload) ∷ payload
  pub stripped : IsStripped payload
  pub value : be_value payload ≡ n

-- The slot of -1 - n
pub record IsLower (n : ℕ) (slot : List ℕ) : Type 0 where
  pub payload : List ℕ
  pub form : slot ≡ (int_zero - length payload) ∷ flip_all payload
  pub are_bytes : IsBytes payload
  pub shape : (payload ≡ 0 ∷ []) ⊎ IsNormal payload
  pub some_byte : 1 ≤ length payload
  pub at_most_16 : length payload ≤ 16
  pub value : be_value payload ≡ n

abbrev pub IsSlot : ℤ → List ℕ → Type 0
IsSlot (pos n) slot = IsUpper n slot
IsSlot (negsuc n) slot = IsLower n slot

IsNormal-IsStripped : (p : List ℕ) → IsNormal p → IsStripped p
IsNormal-IsStripped [] h = absurd h
IsNormal-IsStripped (b ∷ bs) h = h

pub append_int-IsSlot : (v : ℤ) → IsInt64 v → IsSlot v (append_int writer_init v).bytes
unfolding append_int append_magnitude
append_int-IsSlot (pos zero) h = record {
  payload = [];
  form = bytes-sw_push writer_init int_zero;
  stripped = tt;
  value = unfold be_from in refl;
}
append_int-IsSlot (pos (suc n)) h =
    let mag = u64_to_be (suc n) in
    let normal = u64_to_be-IsNormal (suc n) (omega arith) (omega arith) in
    let value = be_value-u64_to_be (suc n) (omega arith) (omega arith) in
    let width = length-u64_to_be (suc n) (omega arith) (omega arith) in
    let fits = (fits_fixed_lem false mag normal).1 (omega (arith, value)) in
    record {
      payload = mag;
      form =
          rw (==_false (suc n) 0 (omega arith), magnitude-pos (suc n) h, fits)
            (bytes-append_fixed_pos writer_init mag (omega (arith, width)));
      stripped = IsNormal-IsStripped mag normal;
      value = value;
    }
append_int-IsSlot (negsuc n) h =
    let mag = u64_to_be (suc n) in
    let normal = u64_to_be-IsNormal (suc n) (omega arith) (omega arith) in
    let value = be_value-u64_to_be (suc n) (omega arith) (omega arith) in
    let range : be_value mag ≤ 2 ^ 127 = omega (arith, value) in
    let fits = (fits_fixed_lem true mag normal).1 range in
    let x = excess-IsExcess mag normal range in
    record {
      payload = excess mag;
      form = rw (magnitude-negsuc n h, fits) (bytes-append_fixed_neg writer_init mag x.at_most_16);
      are_bytes = x.are_bytes;
      shape = x.shape;
      some_byte = some_excess mag normal range;
      at_most_16 = x.at_most_16;
      value = omega (arith, x.one_less, value);
    }
