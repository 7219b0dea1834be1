-- ===== src/RoundTrip/Scalars.antt =====
-- nil, undefined, booleans, floats, timestamps and UUIDs: `reader_next` behind their encoders.
use struple.Prelude.{
  ℕ, suc, ◌+◌, ◌-◌, ◌%◌, ◌^◌, ◌<◌, bit_xor, ◌≡◌, refl, sym, ap, ◌∙◌, arith, List, [], ◌∷◌, ◌++◌,
  length, take, append-nil, Bool, true, false, ltb, if◌then◌else◌, some, take-append, ◌*◌, ◌/◌,
  ◌==◌, ◌&&◌,
}
use struple.Prelude.Bits.{bit_xor_sign64, bit_xor_sign32}
use struple.Prelude.Int.{ℤ, pos, negsuc}
use struple.Codes.{sign64, sign32, u64_mod}
use struple.Bytes.{be_to_u64}
use struple.Bytes.BigEndian.{be_to_u64-be_value}
use struple.Bytes.Words.{word_bytes, length-word_bytes, word_bytes-IsBytes, be_value-word_bytes}
use struple.Writer.{writer_init, sw_push}
use struple.Writer.Contents.{bytes-sw_push, bytes-sw_append}
use struple.Encode.Ints.{as_u64, push_word}
use struple.Encode.Ints.Words.{bytes-push_word}
use struple.Encode.Scalars.{
  canonical64, canonical32, order64, order32, append_f64, append_f32, append_timestamp, append_uuid,
  append_nil, append_undefined, append_bool,
}
use struple.Reader.{
  Element, Reader, nil, undef, bool, f64, f32, timestamp, uuid, reader_at, as_i64, take_bytes,
}
use struple.Reader.Steps.{take_bytes-append}
use struple.Reader.Next.{
  Outcome, item, reader_next, read_payload, read_f64, read_f32, read_timestamp, unorder64,
  unorder32,
}
use struple.RoundTrip.Ints.{ReadsBack}
use struple.RoundTrip.Magnitudes.{IsInt64}

pub bit_xor-sign64 :
    (x : ℕ) → x < u64_mod → bit_xor x sign64 ≡ (if ltb x sign64 then x + sign64 else x - sign64)
bit_xor-sign64 x h = ground (arith, bit_xor_sign64 x)

pub bit_xor-sign32 :
    (x : ℕ) → x < 2 ^ 32 → bit_xor x sign32 ≡ (if ltb x sign32 then x + sign32 else x - sign32)
bit_xor-sign32 x h = ground (arith, bit_xor_sign32 x)

-- The order transform of floats is undone by its inverse, and stays in the word.
pub unorder64-order64 : (x : ℕ) → x < u64_mod → unorder64 (order64 x) ≡ x
unfolding unorder64 order64
unorder64-order64 x h = ground (arith, bit_xor-sign64 x, bit_xor-sign64 (x + sign64))

pub order64-lt : (x : ℕ) → x < u64_mod → order64 x < u64_mod
unfolding order64
order64-lt x h = ground (arith, bit_xor-sign64 x)

pub unorder32-order32 : (x : ℕ) → x < 2 ^ 32 → unorder32 (order32 x) ≡ x
unfolding unorder32 order32
unorder32-order32 x h = ground (arith, bit_xor-sign32 x, bit_xor-sign32 (x + sign32))

pub order32-lt : (x : ℕ) → x < 2 ^ 32 → order32 x < 2 ^ 32
unfolding order32
order32-lt x h = ground (arith, bit_xor-sign32 x)

pub canonical64-lt : (x : ℕ) → x < u64_mod → canonical64 x < u64_mod
unfolding canonical64
canonical64-lt x h = ground arith

canonical32-lt : (x : ℕ) → x < 2 ^ 32 → canonical32 x < 2 ^ 32
unfolding canonical32
canonical32-lt x h = ground arith

-- A type code and then the `k` bytes of `u`.
pub bytes-word :
    (t k u : ℕ) → (push_word false k u (sw_push writer_init t)).bytes ≡ t ∷ word_bytes k u
bytes-word t k u = bytes-push_word false k u (sw_push writer_init t) ∙ rw bytes-sw_push refl

be_to_u64-word : (k u : ℕ) → u < 256 ^ k → u < u64_mod → be_to_u64 (word_bytes k u) ≡ u
be_to_u64-word k u h s =
    let value = be_value-word_bytes k u h in
    be_to_u64-be_value (word_bytes k u) (word_bytes-IsBytes k u) (omega (arith, value)) ∙ value

take_word :
    (at k u : ℕ) (rest : List ℕ)
    → take_bytes k (reader_at at (word_bytes k u ++ rest))
      ≡ (some (word_bytes k u), reader_at (at + k) rest)
take_word at k u rest = take_bytes-append at k (word_bytes k u) rest (sym (length-word_bytes k u))

-- The position behind a type code and `k` bytes.
arrive :
    (at k : ℕ) (u : ℕ) (rest : List ℕ) (e : Element)
    → ◌≡◌ {A = Outcome Element × Reader}
        (item e, reader_at (at + 1 + k) rest)
        (item e, reader_at (at + suc (length (word_bytes k u))) rest)
arrive at k u rest e =
    ap (λ (j : ℕ). (item e, reader_at j rest)) (omega (arith, length-word_bytes k u))

-- What is read back of a double, by the fields of IEEE 754: an exponent of ones with a fraction is a
-- NaN, and no bit but the sign is a zero.
abbrev pub one_nan_one_zero : ℕ → ℕ
one_nan_one_zero v =
    let exponent = v / 2 ^ 52 % 2 ^ 11 in
    let fraction = v % 2 ^ 52 in
    if exponent == 2 ^ 11 - 1 && ltb 0 fraction
    then 2047 * 2 ^ 52 + 2 ^ 51
    else if exponent == 0 && fraction == 0
    then 0
    else v

canonical64-one_nan_one_zero : (v : ℕ) → canonical64 v ≡ one_nan_one_zero v
unfolding canonical64
canonical64-one_nan_one_zero v = ground arith

pub canonical64-ReadsBack :
    (v : ℕ) → v < u64_mod → ReadsBack (append_f64 writer_init v).bytes (f64 (canonical64 v))
unfolding append_f64 reader_next read_payload read_f64
canonical64-ReadsBack v h at rest =
    let c = canonical64-lt v h in
    let u = order64 (canonical64 v) in
    let s = order64-lt (canonical64 v) c in
    rw
      (
        bytes-word,
        take_word (at + 1) 8 u rest,
        be_to_u64-word 8 u s s,
        unorder64-order64 (canonical64 v) c,
      )
      (arrive at 8 u rest (f64 (canonical64 v)))

-- The bits of a double, any uint64_t, are read back as one_nan_one_zero says by the fields of IEEE
-- 754: a value whose exponent field is all ones and whose fraction is not 0, a NaN, as the one quiet
-- NaN 0x7ff8000000000000, either zero as +0.0, and all else unchanged.
pub append_f64-ReadsBack :
    (v : ℕ) → v < u64_mod → ReadsBack (append_f64 writer_init v).bytes (f64 (one_nan_one_zero v))
append_f64-ReadsBack v h = rw (← canonical64-one_nan_one_zero v) (canonical64-ReadsBack v h)

-- The bits of a float are read back with every NaN as the one quiet NaN, -0.0 as +0.0 and all else
-- unchanged.
pub append_f32-ReadsBack :
    (v : ℕ) → v < 2 ^ 32 → ReadsBack (append_f32 writer_init v).bytes (f32 (canonical32 v))
unfolding append_f32 reader_next read_payload read_f32
append_f32-ReadsBack v h at rest =
    let c = canonical32-lt v h in
    let u = order32 (canonical32 v) in
    let s = order32-lt (canonical32 v) c in
    rw
      (
        bytes-word,
        take_word (at + 1) 4 u rest,
        be_to_u64-word 4 u s (omega (arith, s)),
        unorder32-order32 (canonical32 v) c,
      )
      (arrive at 4 u rest (f32 (canonical32 v)))

-- The sign bit is flipped on the way out and on the way in.
pub stamp_word : (v : ℤ) → IsInt64 v → bit_xor (as_u64 v) sign64 < u64_mod
stamp_word (pos n) h = ground (arith, bit_xor-sign64 (n % u64_mod))
stamp_word (negsuc n) h = ground (arith, bit_xor-sign64 (u64_mod - 1 - n % u64_mod))

stamp_back : (v : ℤ) → IsInt64 v → as_i64 (bit_xor (bit_xor (as_u64 v) sign64) sign64) ≡ v
stamp_back (pos n) h =
    let e : n % u64_mod ≡ n = omega arith in
    rw (e, bit_xor-sign64 n (omega arith)) (ground (arith, bit_xor-sign64 (n + sign64)))
stamp_back (negsuc n) h =
    let e : u64_mod - 1 - n % u64_mod ≡ u64_mod - 1 - n = omega arith in
    rw (e, bit_xor-sign64 (u64_mod - 1 - n) (omega arith))
      (ground (arith, bit_xor-sign64 (u64_mod - 1 - n - sign64)))

-- Every int64_t that append_timestamp writes is read back by reader_next as the same timestamp.
pub append_timestamp-ReadsBack :
    (v : ℤ) → IsInt64 v → ReadsBack (append_timestamp writer_init v).bytes (timestamp v)
unfolding append_timestamp reader_next read_payload read_timestamp
append_timestamp-ReadsBack v h at rest =
    let u = bit_xor (as_u64 v) sign64 in
    let s = stamp_word v h in
    rw (bytes-word, take_word (at + 1) 8 u rest, be_to_u64-word 8 u s s, stamp_back v h)
      (arrive at 8 u rest (timestamp v))

-- A UUID of sixteen bytes is read back unchanged.
pub append_uuid-ReadsBack :
    (u : List ℕ) → length u ≡ 16 → ReadsBack (append_uuid writer_init u).bytes (uuid u)
unfolding append_uuid reader_next read_payload
append_uuid-ReadsBack u h at rest =
    rw (bytes-sw_append, bytes-sw_push, all_sixteen, take_bytes-append (at + 1) 16 u rest (sym h))
      (ap (λ (k : ℕ). (item (uuid u), reader_at k rest)) (omega (arith, h)))
  where
    all_sixteen : take 16 u ≡ u
    all_sixteen = rw (append-nil, h) at (take-append u [])

pub append_nil-ReadsBack : ReadsBack (append_nil writer_init).bytes nil
unfolding append_nil reader_next read_payload
append_nil-ReadsBack at rest = rw bytes-sw_push refl

pub append_undefined-ReadsBack : ReadsBack (append_undefined writer_init).bytes undef
unfolding append_undefined reader_next read_payload
append_undefined-ReadsBack at rest = rw bytes-sw_push refl

pub append_bool-ReadsBack : (v : Bool) → ReadsBack (append_bool writer_init v).bytes (bool v)
unfolding append_bool reader_next read_payload
append_bool-ReadsBack true at rest = rw bytes-sw_push refl
append_bool-ReadsBack false at rest = rw bytes-sw_push refl
