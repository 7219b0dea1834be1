-- ===== src/ByteOrder/Scalars.antt =====
-- Doubles and timestamps: byte order of their encodings.
use struple.Prelude.{
  ℕ, ◌+◌, ◌-◌, ◌%◌, ◌<◌, ◌≡◌, refl, sym, ◌∙◌, arith, ◌∷◌, bit_xor, ltb, ◌==◌, false, if◌then◌else◌,
}
use struple.Prelude.Int.{ℤ, pos, negsuc, ltb_ℤ}
use struple.Codes.{sign64, u64_mod, float64, timestamp_code}
use struple.Bytes.Words.{word_bytes, length-word_bytes, word_bytes-IsBytes, be_value-word_bytes}
use struple.Compare.{compare_bytes, order_of}
use struple.Compare.Order.{compare_bytes-cons, compare_bytes-be_value}
use struple.Writer.{writer_init}
use struple.Floats.{place}
use struple.Encode.Ints.{as_u64}
use struple.Encode.Scalars.{isnan64, canonical64, order64, append_f64, append_timestamp}
use struple.RoundTrip.Magnitudes.{IsInt64}
use struple.RoundTrip.Scalars.{bit_xor-sign64, order64-lt, canonical64-lt, bytes-word, stamp_word}
use struple.Semantic.{sem_icmp}
use struple.Semantic.Numbers.{sem_dcmp}

-- Two words of eight bytes behind one code.
compare_bytes-words :
    (t u v : ℕ)
    → u < u64_mod
    → v < u64_mod
    → compare_bytes (t ∷ word_bytes 8 u) (t ∷ word_bytes 8 v) ≡ order_of u v
compare_bytes-words t u v hu hv =
    compare_bytes-cons t (word_bytes 8 u) (word_bytes 8 v)
    ∙ compare_bytes-be_value (word_bytes 8 u) (word_bytes 8 v) (word_bytes-IsBytes 8 u)
        (word_bytes-IsBytes 8 v) (length-word_bytes 8 u ∙ sym (length-word_bytes 8 v))
    ∙ rw (be_value-word_bytes 8 u hu, be_value-word_bytes 8 v hv) refl

-- Where the word of a double stands
abbrev key : ℕ → ℕ
key f = if f % sign64 == 0 then sign64 else if ltb f sign64 then f + sign64 else u64_mod - 1 - f

order64-key : (f : ℕ) → f < u64_mod → isnan64 f ≡ false → order64 (canonical64 f) ≡ key f
unfolding order64 canonical64
order64-key f h n = rw n (ground (arith, bit_xor-sign64 f, bit_xor-sign64 0))

key-place : (x y : ℕ) → x < u64_mod → y < u64_mod → ltb (key x) (key y) ≡ ltb_ℤ (place x) (place y)
key-place x y hx hy = ground arith

-- For the bits of any two doubles that are no NaN, compare_bytes on what append_f64 writes for them is
-- the order of the doubles, with both zeros equal.
pub append_f64-sem_dcmp :
    (x y : ℕ)
    → x < u64_mod
    → y < u64_mod
    → isnan64 x ≡ false
    → isnan64 y ≡ false
    → compare_bytes (append_f64 writer_init x).bytes (append_f64 writer_init y).bytes ≡ sem_dcmp x y
unfolding append_f64 sem_dcmp
append_f64-sem_dcmp x y hx hy nx ny =
    rw (bytes-word, bytes-word)
      (compare_bytes-words float64 (order64 (canonical64 x)) (order64 (canonical64 y))
          (order64-lt (canonical64 x) (canonical64-lt x hx))
          (order64-lt (canonical64 y) (canonical64-lt y hy))
        ∙ rw
            (
              order64-key x hx nx,
              order64-key y hy ny,
              nx,
              ny,
              key-place x y hx hy,
              key-place y x hy hx,
            )
            refl)

stamp : ℤ → ℕ
stamp (pos n) = n + sign64
stamp (negsuc n) = sign64 - 1 - n

as_u64-stamp : (v : ℤ) → IsInt64 v → bit_xor (as_u64 v) sign64 ≡ stamp v
unfolding stamp
as_u64-stamp (pos n) h = ground (arith, bit_xor-sign64 (n % u64_mod))
as_u64-stamp (negsuc n) h = ground (arith, bit_xor-sign64 (u64_mod - 1 - n % u64_mod))

stamp-ltb : (a b : ℤ) → IsInt64 a → IsInt64 b → ltb (stamp a) (stamp b) ≡ ltb_ℤ a b
unfolding stamp
stamp-ltb (pos m) (pos n) ha hb = ground arith
stamp-ltb (pos m) (negsuc n) ha hb = ground arith
stamp-ltb (negsuc m) (pos n) ha hb = ground arith
stamp-ltb (negsuc m) (negsuc n) ha hb = ground arith

-- For any two values of an int64_t, compare_bytes on what append_timestamp writes for them is the
-- order of the values.
pub append_timestamp-sem_icmp :
    (a b : ℤ)
    → IsInt64 a
    → IsInt64 b
    → compare_bytes (append_timestamp writer_init a).bytes (append_timestamp writer_init b).bytes
      ≡ sem_icmp a b
unfolding append_timestamp sem_icmp
append_timestamp-sem_icmp a b ha hb =
    rw (bytes-word, bytes-word)
      (compare_bytes-words timestamp_code (bit_xor (as_u64 a) sign64) (bit_xor (as_u64 b) sign64)
          (stamp_word a ha) (stamp_word b hb)
        ∙ rw (as_u64-stamp a ha, as_u64-stamp b hb, stamp-ltb a b ha hb, stamp-ltb b a hb ha) refl)
