-- ===== src/Encode/Ints/Stripped.antt =====
-- Magnitudes without their leading zeros.
use struple.Prelude.{ℕ, zero, suc, ◌≤◌, ◌≡◌, refl, ap, arith, List, [], ◌∷◌, length}
use struple.Bytes.{IsBytes}
use struple.Bytes.BigEndian.{be_value, be_value-cons, IsNormal}
use struple.Encode.Ints.{strip_zeros}

pub be_value-strip_zeros : (p : List ℕ) → be_value (strip_zeros p) ≡ be_value p
unfolding strip_zeros
be_value-strip_zeros [] = refl
be_value-strip_zeros (zero ∷ bs) = omega (arith, be_value-strip_zeros bs, be_value-cons 0 bs)
be_value-strip_zeros (suc b ∷ bs) = ap be_value (kept b bs)
  where
    kept : (b : ℕ) (bs : List ℕ) → strip_zeros (suc b ∷ bs) ≡ suc b ∷ bs
    kept b bs = ground arith

pub length-strip_zeros-le : (p : List ℕ) → length (strip_zeros p) ≤ length p
unfolding strip_zeros
length-strip_zeros-le [] = omega arith
length-strip_zeros-le (b ∷ bs) = ground (arith, length-strip_zeros-le bs)

-- Empty, or without a leading zero
abbrev pub IsStripped : List ℕ → Type 0
IsStripped [] = Unit
IsStripped (b ∷ bs) = IsNormal (b ∷ bs)

pub strip_zeros-IsStripped : (p : List ℕ) → IsBytes p → IsStripped (strip_zeros p)
unfolding strip_zeros
strip_zeros-IsStripped [] h = tt
strip_zeros-IsStripped (zero ∷ bs) (hb, h) = strip_zeros-IsStripped bs h
strip_zeros-IsStripped (suc b ∷ bs) (hb, h) = ground arith

pub strip_zeros-normal : (p : List ℕ) → IsNormal p → strip_zeros p ≡ p
unfolding strip_zeros
strip_zeros-normal [] h = refl
strip_zeros-normal (b ∷ bs) h = ground arith
