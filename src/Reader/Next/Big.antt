-- ===== src/Reader/Next/Big.antt =====
-- Reading back the arbitrary-precision integers.
use struple.Prelude.{
  ℕ, suc, ◌+◌, ◌-◌, ◌*◌, ◌%◌, ◌<◌, ◌≡◌, refl, sym, ap, ◌∙◌, arith, List, [], ◌∷◌, ◌++◌, length,
  bit_or, Bool, true, false, if◌then◌else◌, some, le→ltb-false, ◌==◌, ==_refl,
}
use struple.Prelude.Bits.{bit_or_byte}
use struple.Codes.{int_neg_big, int_pos_big, u64_mod}
use struple.Bytes.{IsBytes, flip_all, byte_len}
use struple.Bytes.BigEndian.{be_from, be_from-le, IsNormal, IsNormal-IsBytes, length_pos_IsNormal}
use struple.Bytes.Negation.{flip_all-flip_all, length-flip_all}
use struple.Bytes.Words.{word_bytes, length-word_bytes, word_bytes-IsBytes, be_value-word_bytes}
use struple.Bytes.Digits.{byte_len-le, lt-byte_len}
use struple.Encode.Ints.{fits_fixed, all_zero, flip_if}
use struple.Encode.Ints.Words.{flips}
use struple.Reader.{bigint, reader_at}
use struple.Reader.Steps.{take_bytes-append}
use struple.Reader.Ints.{
  stored_zero, fits_fixed_stored, length_loop, bad_big, big_element, read_big_int,
}
use struple.Reader.Next.{item, reader_next}
use struple.Reader.Next.Dispatch.{read_payload-big}

flip_twice : (negative : Bool) (b : ℕ) → b < 256 → flip_if negative (flip_if negative b) ≡ b
flip_twice true b h = omega arith
flip_twice false b h = refl

flips_twice : (negative : Bool) (p : List ℕ) → IsBytes p → flips negative (flips negative p) ≡ p
flips_twice true p h = flip_all-flip_all p h
flips_twice false p h = refl

pub length-flips : (negative : Bool) (p : List ℕ) → length (flips negative p) ≡ length p
length-flips true p = length-flip_all p
length-flips false p = refl

-- `fits_fixed_stored` of the stored magnitude is `fits_fixed` of the magnitude.
stored_zero-flips :
    (negative : Bool) (p : List ℕ)
    → IsBytes p
    → stored_zero negative (flips negative p) ≡ all_zero p
unfolding stored_zero all_zero
stored_zero-flips true [] h = refl
stored_zero-flips false [] h = refl
stored_zero-flips true (b ∷ bs) (hb, h) = ground (arith, stored_zero-flips true bs h)
stored_zero-flips false (b ∷ bs) (hb, h) = ground (arith, stored_zero-flips false bs h)

pub fits_fixed_stored-flips :
    (negative : Bool) (p : List ℕ)
    → IsBytes p
    → fits_fixed_stored negative (flips negative p) ≡ fits_fixed negative p
unfolding fits_fixed_stored fits_fixed
fits_fixed_stored-flips true [] h = refl
fits_fixed_stored-flips false [] h = refl
fits_fixed_stored-flips true (b ∷ bs) (hb, h) =
    rw (length-flip_all bs) (ground (arith, stored_zero-flips true bs h))
fits_fixed_stored-flips false (b ∷ bs) (hb, h) = ground (arith, stored_zero-flips false bs h)

length_loop-be_from :
    (negative : Bool) (v : ℕ) (p : List ℕ)
    → IsBytes p
    → be_from v p < u64_mod
    → length_loop negative v (flips negative p) ≡ be_from v p
unfolding length_loop be_from
length_loop-be_from true v [] h lt = refl
length_loop-be_from false v [] h lt = refl
length_loop-be_from true v (b ∷ bs) (hb, h) lt =
    let fits : v * 256 + b < u64_mod = omega (arith, be_from-le (v * 256 + b) bs) in
    let whole : v * 256 % u64_mod ≡ v * 256 = omega arith in
    let back : 255 - (255 - b) ≡ b = omega arith in
    let bs' = flip_all bs in
    ap (λ (k : ℕ). length_loop true (bit_or k (255 - (255 - b))) bs') whole
    ∙ ap (λ (k : ℕ). length_loop true (bit_or (v * 256) k) bs') back
    ∙ ap (λ (k : ℕ). length_loop true k bs') (bit_or_byte v b hb)
    ∙ length_loop-be_from true (v * 256 + b) bs h lt
length_loop-be_from false v (b ∷ bs) (hb, h) lt =
    let fits : v * 256 + b < u64_mod = omega (arith, be_from-le (v * 256 + b) bs) in
    let whole : v * 256 % u64_mod ≡ v * 256 = omega arith in
    ap (λ (k : ℕ). length_loop false (bit_or k b) bs) whole
    ∙ ap (λ (k : ℕ). length_loop false k bs) (bit_or_byte v b hb)
    ∙ length_loop-be_from false (v * 256 + b) bs h lt

-- A canonical big integer passes the checks.
bad_big-canonical :
    (negative : Bool) (mag : List ℕ)
    → IsNormal mag
    → fits_fixed negative mag ≡ false
    → bad_big negative (byte_len (length mag)) (length mag) (flips negative mag) ≡ false
unfolding bad_big
bad_big-canonical negative [] h f = absurd h
bad_big-canonical true (b ∷ bs) h f =
    rw (fits_fixed_stored-flips true (b ∷ bs) (h.1, h.2), f, ==_refl (byte_len (suc (length bs))))
      (ground arith)
bad_big-canonical false (b ∷ bs) h f =
    rw (fits_fixed_stored-flips false (b ∷ bs) (h.1, h.2), f, ==_refl (byte_len (suc (length bs))))
      (ground arith)

code_sign :
    (negative : Bool) → ((if negative then int_neg_big else int_pos_big) == int_neg_big) ≡ negative
code_sign true = refl
code_sign false = refl

abbrev pub header : Bool → List ℕ → List ℕ
header negative mag = flips negative (word_bytes (byte_len (length mag)) (length mag))

pub length-header :
    (negative : Bool) (mag : List ℕ) → byte_len (length mag) ≡ length (header negative mag)
length-header negative mag = sym (
    length-flips negative (word_bytes (byte_len (length mag)) (length mag))
    ∙ length-word_bytes (byte_len (length mag)) (length mag))

module _ (negative : Bool) (mag : List ℕ) (h : IsNormal mag) (f : fits_fixed negative mag ≡ false)
    (addressable : length mag < u64_mod) where
  some_byte : 0 < length mag
  some_byte = length_pos_IsNormal mag h

  header-value : length_loop negative 0 (header negative mag) ≡ length mag
  header-value =
      let value =
        be_value-word_bytes (byte_len (length mag)) (length mag)
          (lt-byte_len (length mag) some_byte addressable) in
      length_loop-be_from negative 0 (word_bytes (byte_len (length mag)) (length mag))
        (word_bytes-IsBytes (byte_len (length mag)) (length mag)) (omega (arith, value))
      ∙ value

  abbrev mark : ℕ
  mark = flip_if negative (byte_len (length mag))

  read_big_int-canonical :
      (at : ℕ) (rest : List ℕ)
      → read_big_int
          (if negative then int_neg_big else int_pos_big)
          (reader_at at ((mark ∷ []) ++ (header negative mag ++ (flips negative mag ++ rest))))
        ≡ (some (bigint negative mag), reader_at (at + 1 + byte_len (length mag) + length mag) rest)
  unfolding read_big_int big_element
  read_big_int-canonical at rest =
      let le8 = byte_len-le (length mag) some_byte addressable in
      rw
        (
          code_sign negative,
          take_bytes-append at 1 (mark ∷ []) _ refl,
          flip_twice negative (byte_len (length mag)) (omega (arith, le8)),
          le→ltb-false 8 (byte_len (length mag)) le8,
          take_bytes-append (at + 1) _ (header negative mag) _ (length-header negative mag),
          header-value,
          take_bytes-append (at + 1 + byte_len (length mag)) (length mag) (flips negative mag) rest
              (sym (length-flips negative mag)),
          bad_big-canonical negative mag h f,
        )
        (ap
          (λ (m : List ℕ). (
            some (bigint negative m),
            reader_at (at + 1 + byte_len (length mag) + length mag) rest,
          ))
          (flips_twice negative mag (IsNormal-IsBytes mag h)))

  -- An arbitrary-precision integer is read back as its sign and its magnitude.
  pub reader_next-big :
      (at : ℕ) (rest : List ℕ)
      → reader_next (
          reader_at at (
            (if negative then int_neg_big else int_pos_big) ∷ mark ∷ header negative mag
            ++ (flips negative mag ++ rest)))
        ≡ (
          item (bigint negative mag),
          reader_at (at + (2 + byte_len (length mag) + length mag)) rest,
        )
  unfolding reader_next
  reader_next-big at rest =
      rw (read_payload-big negative, read_big_int-canonical (at + 1) rest)
        (ap (λ (k : ℕ). (item (bigint negative mag), reader_at k rest)) (omega arith))
