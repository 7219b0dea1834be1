-- ===== src/Encode/Ints/Emitted.antt =====
-- The bytes that the integer encoders write.
use struple.Prelude.{
  ℕ, ◌+◌, ◌-◌, ◌%◌, ◌≤◌, ◌<◌, ◌≡◌, ◌∙◌, arith, List, [], ◌∷◌, ◌++◌, length, Bool, true,
  append_assoc, if◌then◌else◌,
}
use struple.Codes.{int_zero, int_neg_big, int_pos_big}
use struple.Bytes.{flip_all}
use struple.Writer.{Writer}
use struple.Writer.Contents.{bytes-sw_push, bytes-sw_append}
use struple.Encode.Ints.{sub_one, trim_zeros, append_fixed_pos, append_fixed_neg}
use struple.Bytes.{byte_len}
use struple.Bytes.Digits.{byte_len_pos, byte_len-le}
use struple.Bytes.Words.{word_bytes}
use struple.Encode.Ints.{flip_if, append_big}
use struple.Encode.Ints.Payload.{bytes-push_all}
use struple.Encode.Ints.Words.{flips, bytes-push_word}
use struple.Prelude.{==_false}
use struple.Codes.{u64_mod}

-- The magnitude less one, as a negative slot holds it before the complement.
abbrev pub excess : List ℕ → List ℕ
excess mag = trim_zeros (sub_one mag)

pub bytes-append_fixed_pos :
    (w : Writer) (mag : List ℕ)
    → length mag ≤ 16
    → (append_fixed_pos w mag).bytes ≡ w.bytes ++ (int_zero + length mag) ∷ mag
unfolding append_fixed_pos
bytes-append_fixed_pos w mag h =
    let code : (int_zero + length mag) % 256 ≡ int_zero + length mag = omega arith in
    rw (bytes-sw_append, bytes-sw_push, code) (append_assoc w.bytes (_ ∷ []) mag)

pub bytes-append_fixed_neg :
    (w : Writer) (mag : List ℕ)
    → length (excess mag) ≤ 16
    → (append_fixed_neg w mag).bytes
      ≡ w.bytes ++ (int_zero - length (excess mag)) ∷ flip_all (excess mag)
unfolding append_fixed_neg
bytes-append_fixed_neg w mag h =
    let code : (int_zero + 256 - length (excess mag)) % 256 ≡ int_zero - length (excess mag) =
      omega arith in
    bytes-push_all true (excess mag) _
    ∙ rw (bytes-sw_push, code) (append_assoc w.bytes (_ ∷ []) (flip_all (excess mag)))

-- The bytes of an arbitrary-precision integer.
abbrev pub big_bytes : Bool → List ℕ → List ℕ
big_bytes negative mag =
    (if negative then int_neg_big else int_pos_big)
      ∷ flip_if negative (byte_len (length mag))
      ∷ flips negative (word_bytes (byte_len (length mag)) (length mag))
    ++ flips negative mag

pub bytes-append_big :
    (w : Writer) (negative : Bool) (mag : List ℕ)
    → 0 < length mag
    → length mag < u64_mod
    → (append_big w negative mag).bytes ≡ w.bytes ++ big_bytes negative mag
unfolding append_big
bytes-append_big w negative mag some_byte small =
    let le8 = byte_len-le (length mag) some_byte small in
    let ge1 = byte_len_pos (length mag) some_byte small in
    let as_byte : byte_len (length mag) % 256 ≡ byte_len (length mag) = omega (arith, le8) in
    bytes-push_all negative mag _
    ∙ rw
        (
          bytes-push_word,
          bytes-sw_push,
          bytes-sw_push,
          ==_false (byte_len (length mag)) 0 (omega (arith, ge1)),
          as_byte,
        )
        (simp append_assoc)
