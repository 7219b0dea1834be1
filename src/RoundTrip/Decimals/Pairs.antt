-- ===== src/RoundTrip/Decimals/Pairs.antt =====
-- The base-100 bytes of a decimal: `push_pairs`, the scan for their terminator, and `unpack`.
use struple.Prelude.{
  ℕ, ◌+◌, ◌-◌, ◌*◌, ◌/◌, ◌%◌, ◌≤◌, ◌<◌, ◌≡◌, refl, sym, ap, ◌∙◌, arith, List, [], ◌∷◌, ◌++◌, All,
  append-nil, append_assoc, Bool, true, false, some, ltb, ◌==◌, ==_false, Bool-cases, inl, inr,
  if◌then◌else◌,
}
use struple.Writer.{Writer, sw_push}
use struple.Writer.Contents.{bytes-sw_push}
use struple.Encode.Ints.{flip_if}
use struple.Encode.Ints.Words.{flips, flips-cons}
use struple.Encode.Decimals.{push_pairs, drop_trailing}
use struple.Reader.Decimals.{scan_until, unpack, pair_of, prepend}
use struple.Semantic.Digits.{IsDigit}

-- The bytes of digits, two in each
unfoldable pub pairs : List ℕ → List ℕ
pairs [] = []
pairs (hi ∷ []) = (hi * 10 + 1) ∷ []
pairs (hi ∷ lo ∷ ds) = (hi * 10 + lo + 1) ∷ pairs ds

-- The last digit is not 0.
abbrev pub IsTrimmed : List ℕ → Type 0
IsTrimmed [] = Unit
IsTrimmed (d ∷ []) = 0 < d
IsTrimmed (d ∷ e ∷ es) = IsTrimmed (e ∷ es)

pub bytes-push_pairs :
    (ds : List ℕ) (w : Writer) → All IsDigit ds → (push_pairs ds w).bytes ≡ w.bytes ++ pairs ds
unfolding push_pairs pairs
bytes-push_pairs [] w h = sym (append-nil w.bytes)
bytes-push_pairs (hi ∷ []) w (a, h) =
    let small : (hi * 10 + 0 + 1) % 256 ≡ hi * 10 + 1 = omega arith in
    rw (bytes-sw_push, small) refl
bytes-push_pairs (hi ∷ lo ∷ ds) w (a, h) =
    let small : (hi * 10 + lo + 1) % 256 ≡ hi * 10 + lo + 1 = omega (arith, h.0) in
    bytes-push_pairs ds (sw_push w ((hi * 10 + lo + 1) % 256)) h.1
    ∙ rw (bytes-sw_push, small) (append_assoc w.bytes ((hi * 10 + lo + 1) ∷ []) (pairs ds))

pub drop_trailing_lem : (ds : List ℕ) → IsTrimmed ds → drop_trailing ds ≡ ds
unfolding drop_trailing
drop_trailing_lem [] h = refl
drop_trailing_lem (d ∷ []) h = rw (==_false d 0 (omega arith)) refl
drop_trailing_lem (d ∷ e ∷ es) h = rw (drop_trailing_lem (e ∷ es) h) refl

-- The bytes of pairs are from 1 to 100, so neither 0x00 nor, complemented, 0xff.
abbrev pub IsPair : ℕ → Type 0
IsPair b = (1 ≤ b) × (b ≤ 100)

pub pairs-IsPair : (ds : List ℕ) → All IsDigit ds → All IsPair (pairs ds)
unfolding pairs
pairs-IsPair [] h = tt
pairs-IsPair (hi ∷ []) (a, h) = ((omega arith, omega arith), tt)
pairs-IsPair (hi ∷ lo ∷ ds) (a, h) = ((omega arith, omega (arith, h.0)), pairs-IsPair ds h.1)

-- 0x00, complemented under a negative sign
abbrev pub end_mark : Bool → ℕ
end_mark negative = if negative then 0xff else 0x00

pub scan_until-flips :
    (negative : Bool) (p rest : List ℕ)
    → All IsPair p
    → scan_until (end_mark negative) (flips negative p ++ end_mark negative ∷ rest)
      ≡ some (flips negative p, rest)
unfolding scan_until
scan_until-flips true [] rest h = refl
scan_until-flips false [] rest h = refl
scan_until-flips true (b ∷ bs) rest (hb, h) =
    rw (==_false (255 - b) 255 (omega arith), scan_until-flips true bs rest h) refl
scan_until-flips false (b ∷ bs) rest (hb, h) =
    rw (==_false b 0 (omega arith), scan_until-flips false bs rest h) refl

pair_of-flip : (negative : Bool) (b : ℕ) → IsPair b → pair_of negative (flip_if negative b) ≡ b - 1
pair_of-flip true b h = omega arith
pair_of-flip false b h = omega arith

-- What `unpack` makes of a byte of two digits, in front of what it makes of the others
module _ (negative : Bool) (hi lo : ℕ) (a : hi < 10) (c : lo < 10) where
  pair : pair_of negative (flip_if negative (hi * 10 + lo + 1)) ≡ hi * 10 + lo
  pair = pair_of-flip negative (hi * 10 + lo + 1) (omega arith, omega arith) ∙ omega arith

  high : (hi * 10 + lo) / 10 ≡ hi
  high = omega arith

  low : (hi * 10 + lo) % 10 ≡ lo
  low = omega arith

  in_range : ltb 99 (hi * 10 + lo) ≡ false
  in_range = ground arith

  last_byte :
      unpack negative (flip_if negative (hi * 10 + lo + 1) ∷ [])
      ≡ some (if lo == 0 then hi ∷ [] else hi ∷ lo ∷ [])
  unfolding unpack
  last_byte = elim (Bool-cases (lo == 0)) [
    | inl e ↦ rw (pair, in_range, high, low, e) refl
    | inr e ↦ rw (pair, in_range, high, low, e) refl
  ]

  byte_before :
      (b : ℕ) (bs ds : List ℕ)
      → unpack negative (b ∷ bs) ≡ some ds
      → unpack negative (flip_if negative (hi * 10 + lo + 1) ∷ b ∷ bs) ≡ some (hi ∷ lo ∷ ds)
  unfolding unpack
  byte_before b bs ds h = rw (pair, in_range, high, low) (ap (prepend (hi ∷ lo ∷ [])) h)

flips-nil : (negative : Bool) → flips negative [] ≡ []
flips-nil true = refl
flips-nil false = refl

pub unpack-pairs :
    (negative : Bool) (ds : List ℕ)
    → All IsDigit ds
    → IsTrimmed ds
    → unpack negative (flips negative (pairs ds)) ≡ some ds
unfolding pairs
unpack-pairs true [] h t = unfold unpack in refl
unpack-pairs false [] h t = unfold unpack in refl
unpack-pairs negative (d ∷ []) (a, h) t =
    let padded : d * 10 + 0 + 1 ≡ d * 10 + 1 = omega arith in
    rw (flips-cons negative (d * 10 + 1) [], flips-nil)
      (rw padded at (last_byte negative d 0 a (omega arith)))
unpack-pairs negative (d ∷ e ∷ []) (a, h) t =
    rw (flips-cons negative (d * 10 + e + 1) [], flips-nil)
      (last_byte negative d e a h.0 ∙ rw (==_false e 0 (omega arith)) refl)
unpack-pairs negative (d ∷ e ∷ x ∷ []) (a, h) t =
    rw
      (
        flips-cons negative (d * 10 + e + 1) ((x * 10 + 1) ∷ []),
        flips-cons negative (x * 10 + 1) [],
      )
      (byte_before negative d e a h.0 (flip_if negative (x * 10 + 1)) (flips negative []) (x ∷ [])
        (rw (flips-cons negative (x * 10 + 1) []) at (unpack-pairs negative (x ∷ []) h.1 t)))
unpack-pairs negative (d ∷ e ∷ x ∷ y ∷ ds) (a, h) t =
    let b : ℕ = x * 10 + y + 1 in
    rw (flips-cons negative (d * 10 + e + 1) (b ∷ pairs ds), flips-cons negative b (pairs ds))
      (byte_before negative d e a h.0 (flip_if negative b) (flips negative (pairs ds)) (x ∷ y ∷ ds)
        (rw (flips-cons negative b (pairs ds)) at (unpack-pairs negative (x ∷ y ∷ ds) h.1 t)))
