-- ===== src/Encode/Appending.antt =====
-- Every encoder only adds to the end of the writer's contents.
use struple.Prelude.{
  ℕ, ◌+◌, ◌%◌, ◌≡◌, refl, Bool, true, false, not, List, [], ◌∷◌, ◌++◌, length, take, Bool-cases,
  inl, inr, if◌then◌else◌,
}
use struple.Prelude.Int.{ℤ, pos, ◌+ℤ◌}
use struple.Codes.{
  int_zero, float64, float32, timestamp_code, uuid_code, terminator, decimal_code, dec_sign_zero,
}
use struple.Bytes.{u64_to_be}
use struple.Writer.{sw_push}
use struple.Writer.Appends.{
  Appends, Appends-then, Appends-sw_push, Appends-sw_append, Appends-of_bytes, Appends-if,
  Appends-id,
}
use struple.Framing.{write_escaped, write_framed}
use struple.Framing.Escape.{escaped, bytes-write_escaped, bytes-write_framed}
use struple.Encode.Ints.{
  push_all, push_word, append_fixed_pos, append_fixed_neg, append_big, append_magnitude, append_int,
  append_big_int, fits_fixed, sub_one, trim_zeros, strip_zeros, is_zero, is_negative, magnitude,
}
use struple.Encode.Ints.Payload.{bytes-push_all}
use struple.Encode.Ints.Words.{bytes-push_word}
use struple.Encode.Decimals.{append_decimal, beyond_int32}
use struple.Encode.Scalars.{append_f64, append_f32, append_timestamp, append_uuid}

push_all-Appends : (negative : Bool) (p : List ℕ) → Appends (push_all negative p)
push_all-Appends negative p = Appends-of_bytes (push_all negative p) _ (bytes-push_all negative p)

push_word-Appends : (negative : Bool) (k x : ℕ) → Appends (push_word negative k x)
push_word-Appends negative k x =
    Appends-of_bytes (push_word negative k x) _ (bytes-push_word negative k x)

pub write_escaped-Appends : (p : List ℕ) → Appends (λ w. write_escaped w p)
write_escaped-Appends p =
    Appends-of_bytes (λ w. write_escaped w p) (escaped p) (λ w. bytes-write_escaped w p)

pub write_framed-Appends : (t : ℕ) (p : List ℕ) → Appends (λ w. write_framed w t p)
write_framed-Appends t p =
    Appends-of_bytes (λ w. write_framed w t p) (t ∷ (escaped p ++ terminator ∷ []))
      (λ w. bytes-write_framed w t p)

append_fixed_pos-Appends : (mag : List ℕ) → Appends (λ w. append_fixed_pos w mag)
unfolding append_fixed_pos
append_fixed_pos-Appends mag =
    Appends-then (Appends-sw_push ((int_zero + length mag) % 256)) (Appends-sw_append mag)

append_fixed_neg-Appends : (mag : List ℕ) → Appends (λ w. append_fixed_neg w mag)
unfolding append_fixed_neg
append_fixed_neg-Appends mag =
    Appends-then (Appends-sw_push _) (push_all-Appends true (trim_zeros (sub_one mag)))

append_big-Appends : (negative : Bool) (mag : List ℕ) → Appends (λ w. append_big w negative mag)
unfolding append_big
append_big-Appends negative mag =
    Appends-then
      (Appends-then (Appends-then (Appends-sw_push _) (Appends-sw_push _))
        (push_word-Appends negative _ (length mag)))
      (push_all-Appends negative mag)

pub append_magnitude-Appends :
    (negative : Bool) (mag : List ℕ) → Appends (λ w. append_magnitude w negative mag)
unfolding append_magnitude
append_magnitude-Appends negative mag =
    Appends-if (fits_fixed negative mag)
      (λ w. if not negative then append_fixed_pos w mag else append_fixed_neg w mag)
      (λ w. append_big w negative mag)
      (Appends-if (not negative) (λ w. append_fixed_pos w mag) (λ w. append_fixed_neg w mag)
        (append_fixed_pos-Appends mag) (append_fixed_neg-Appends mag))
      (append_big-Appends negative mag)

pub append_int-Appends : (v : ℤ) → Appends (λ w. append_int w v)
unfolding append_int
append_int-Appends v =
    Appends-if (is_zero v) (λ w. sw_push w int_zero)
      (λ w. append_magnitude w (is_negative v) (u64_to_be (magnitude v))) (Appends-sw_push int_zero)
      (append_magnitude-Appends (is_negative v) _)

append_stripped-Appends :
    (negative : Bool) (mag p : List ℕ)
    → strip_zeros mag ≡ p
    → Appends (λ w. append_big_int w negative mag)
unfolding append_big_int
append_stripped-Appends negative mag [] e = rw e (Appends-sw_push int_zero)
append_stripped-Appends negative mag (b ∷ bs) e = rw e (append_magnitude-Appends negative (b ∷ bs))

pub append_big_int-Appends :
    (negative : Bool) (mag : List ℕ) → Appends (λ w. append_big_int w negative mag)
append_big_int-Appends negative mag = append_stripped-Appends negative mag (strip_zeros mag) refl

pub append_f64-Appends : (v : ℕ) → Appends (λ w. append_f64 w v)
unfolding append_f64
append_f64-Appends v = Appends-then (Appends-sw_push float64) (push_word-Appends false 8 _)

pub append_f32-Appends : (v : ℕ) → Appends (λ w. append_f32 w v)
unfolding append_f32
append_f32-Appends v = Appends-then (Appends-sw_push float32) (push_word-Appends false 4 _)

pub append_timestamp-Appends : (v : ℤ) → Appends (λ w. append_timestamp w v)
unfolding append_timestamp
append_timestamp-Appends v =
    Appends-then (Appends-sw_push timestamp_code) (push_word-Appends false 8 _)

pub append_uuid-Appends : (u : List ℕ) → Appends (λ w. append_uuid w u)
unfolding append_uuid
append_uuid-Appends u = Appends-then (Appends-sw_push uuid_code) (Appends-sw_append (take 16 u))

append_significant-Appends :
    (negative : Bool) (digits : List ℕ) (exp : ℤ) (p : List ℕ)
    → strip_zeros digits ≡ p
    → Appends (λ w. (append_decimal w negative digits exp).1)
unfolding append_decimal
append_significant-Appends negative digits exp [] e =
    rw e (Appends-then (Appends-sw_push decimal_code) (Appends-sw_push dec_sign_zero))
append_significant-Appends negative digits exp (d ∷ ds) e =
    elim (Bool-cases (beyond_int32 (pos (length (d ∷ ds)) +ℤ exp))) [
      | inl far ↦ rw (e, far) Appends-id
      | inr near ↦
          rw (e, near)
            (Appends-then (Appends-then (Appends-sw_push decimal_code) (Appends-sw_push _))
              (push_all-Appends negative _))
    ]

pub append_decimal-Appends :
    (negative : Bool) (digits : List ℕ) (exp : ℤ)
    → Appends (λ w. (append_decimal w negative digits exp).1)
append_decimal-Appends negative digits exp =
    append_significant-Appends negative digits exp (strip_zeros digits) refl
