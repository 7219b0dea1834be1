-- ===== src/Reader/Next.antt =====
-- `struple_reader_next`, and the transcoder that drives it.
pub mod Dispatch
pub mod Fixed
pub mod FixedNeg
pub mod Big
use struple.Prelude.{
  ℕ, zero, suc, ◌+◌, ◌-◌, ◌%◌, ◌^◌, ◌||◌, bit_xor, Bool, true, false, Option, none, some, List, [],
  ◌∷◌, length, ltb, leb, ◌==◌, if◌then◌else◌,
}
use struple.Prelude.Int.{ℤ, pos, negsuc}
use struple.Codes.{
  nil_code, undef_code, bool_false, bool_true, int_neg_big, int_zero, int_pos_big, float32, float64,
  decimal_code, timestamp_code, uuid_code, string_code, bytes_code, array_code, map_code, set_code,
  sign64, sign32, u64_mod, is_fixed_neg, is_fixed_pos,
}
use struple.Bytes.{be_to_u64}
use struple.Writer.{Writer}
use struple.Framing.{scan_framed, unescape, write_framed}
use struple.Encode.Ints.{as_u64, append_int, append_big_int}
use struple.Encode.Scalars.{
  append_nil, append_undefined, append_bool, append_f32, append_f64, append_timestamp, append_uuid,
}
use struple.Encode.Decimals.{append_decimal}
use struple.Encode.Containers.{append_string, append_bytes}
use struple.Reader.{
  Element, nil, undef, bool, int, bigint, f32, f64, decimal, timestamp, uuid, string, bytes, array,
  map, set, Reader, Read, ◌>>=◌, lift, take_bytes, advance, as_i64, reader_init,
}
use struple.Reader.Ints.{read_fixed_int, read_big_int}
use struple.Reader.Decimals.{read_decimal}

-- `(bits & SIGN64) ? (bits ^ SIGN64) : ~bits`
unfoldable pub unorder64 : ℕ → ℕ
unorder64 bits = if leb sign64 bits then bit_xor bits sign64 else u64_mod - 1 - bits

unfoldable pub unorder32 : ℕ → ℕ
unorder32 bits = if leb sign32 bits then bit_xor bits sign32 else 2 ^ 32 - 1 - bits

unfoldable pub read_f64 : Read Element
read_f64 = do p ← take_bytes 8; lift (some (f64 (unorder64 (be_to_u64 p))))

unfoldable pub read_f32 : Read Element
read_f32 = do p ← take_bytes 4; lift (some (f32 (unorder32 (be_to_u64 p))))

unfoldable pub read_timestamp : Read Element
read_timestamp = do
  p ← take_bytes 8
  lift (some (timestamp (as_i64 (bit_xor (be_to_u64 p) sign64))))

abbrev pub framed_region : Reader → Option (List ℕ × List ℕ) → Option (List ℕ) × Reader
framed_region r none = (none, r)
framed_region r (some (framed, rest)) =
    (some framed, record { pos = r.pos + (length framed + 1); rest = rest })

unfoldable pub take_framed : Read (List ℕ)
unfolding scan_framed
take_framed r = framed_region r (scan_framed r.rest)

-- The element that a framed type code makes of the unescaped content.
abbrev pub framed_kind : ℕ → List ℕ → Element
framed_kind t u =
    if t == string_code
    then string u
    else if t == bytes_code
    then bytes u
    else if t == array_code
    then array u
    else if t == map_code
    then map u
    else set u

unfoldable pub read_framed : ℕ → Read Element
unfolding take_framed unescape
read_framed t = do framed ← take_framed; lift (some (framed_kind t (unescape framed)))

abbrev pub is_framed : ℕ → Bool
is_framed t =
    t == string_code || t == bytes_code || t == array_code || t == map_code || t == set_code

-- The switch on the type byte `t`, which has been read.
unfoldable pub read_payload : ℕ → Read Element
read_payload t =
    if t == nil_code
    then lift (some nil)
    else if t == undef_code
    then lift (some undef)
    else if t == bool_false
    then lift (some (bool false))
    else if t == bool_true
    then lift (some (bool true))
    else if t == int_zero
    then lift (some (int (pos 0)))
    else if t == int_neg_big || t == int_pos_big
    then read_big_int t
    else if t == float32
    then read_f32
    else if t == float64
    then read_f64
    else if t == decimal_code
    then read_decimal
    else if t == timestamp_code
    then read_timestamp
    else if t == uuid_code
    then (do p ← take_bytes 16; lift (some (uuid p)))
    else if is_framed t
    then read_framed t
    else if is_fixed_neg t || is_fixed_pos t
    then read_fixed_int t
    else lift none

-- The C results 0, 1 with an element, and -1.
pub data Outcome {ℓ} (A : Type ℓ) : Type ℓ where
  at_end : Outcome A
  item : A → Outcome A
  malformed : Outcome A

abbrev pub outcome {ℓ} : {A : Type ℓ} → Option A × Reader → Outcome A × Reader
outcome (none, r) = (malformed, r)
outcome (some a, r) = (item a, r)

abbrev pub next_from : List ℕ → Reader → Outcome Element × Reader
next_from [] r = (at_end, r)
next_from (t ∷ ts) r = outcome (read_payload t (advance 1 r))

unfoldable pub reader_next : Reader → Outcome Element × Reader
reader_next r = next_from r.rest r

-- `(int32_t)v` of an int64_t
abbrev pub as_i32 : ℤ → ℤ
as_i32 v = let u : ℕ = as_u64 v % 2 ^ 32 in if ltb u sign32 then pos u else negsuc (2 ^ 32 - 1 - u)

unfoldable pub append_element : Writer → Element → Writer
append_element w nil = append_nil w
append_element w undef = append_undefined w
append_element w (bool v) = append_bool w v
append_element w (int v) = append_int w v
append_element w (bigint negative mag) = append_big_int w negative mag
append_element w (f32 v) = append_f32 w v
append_element w (f64 v) = append_f64 w v
append_element w (decimal negative exp digits) = (append_decimal w negative digits (as_i32 exp)).1
append_element w (timestamp v) = append_timestamp w v
append_element w (uuid u) = append_uuid w u
append_element w (string s) = append_string w s
append_element w (bytes b) = append_bytes w b
append_element w (array c) = write_framed w array_code c
append_element w (map c) = write_framed w map_code c
append_element w (set c) = write_framed w set_code c

-- The loop of `struple_transcode`, with the rounds left. The Boolean is true for the result 0.
unfoldable pub transcode_loop : ℕ → Reader → Writer → Bool × Writer
transcode_loop zero r out = (false, out)
transcode_loop (suc f) r out =
    let (o, r') = reader_next r in
    elim o [
      | at_end ↦ (true, out)
      | malformed ↦ (false, out)
      | item e ↦ transcode_loop f r' (append_element out e)
    ]

-- An element takes a byte at least.
unfoldable pub transcode : List ℕ → Writer → Bool × Writer
transcode buf out = transcode_loop (suc (length buf)) (reader_init buf) out
