-- ===== src/View/Agreement/Payloads.antt =====
-- Integers with a length header, and decimals: their spans against their reads.
use struple.Prelude.{
  ℕ, suc, ◌+◌, ◌-◌, ◌≤◌, ◌≡◌, ap, ◌∙◌, arith, List, [], ◌∷◌, length, take, Option, none, some, Bool,
  true, false, ltb, le→ltb-false, ◌==◌, ◌||◌, if◌then◌else◌, Bool-cases, inl, inr,
}
use struple.Prelude.Int.{ℤ, pos}
use struple.Codes.{int_neg_big, int_pos_big, int_zero, is_fixed_neg, is_fixed_pos}
use struple.Encode.Ints.{flip_if}
use struple.Reader.{Reader, reader_at, Read, ◌>>=◌, lift, take_bytes}
use struple.Reader.Ints.{read_big_int, length_loop, slot_width, read_fixed_int}
use struple.Reader.Decimals.{read_dec_exponent, read_exponent_payload}
use struple.View.Span.{more, big_span}
use struple.View.Agreement.Rules.{MovesBy, lift-MovesBy, take_then, respan}

pub read_fixed_int-MovesBy :
    (t : ℕ) (r : Reader) → MovesBy r (some (slot_width t)) (read_fixed_int t r)
unfolding read_fixed_int
read_fixed_int-MovesBy t r =
    respan r (more (slot_width t) (some 0)) (some (slot_width t)) (read_fixed_int t r) whole
      (take_then (slot_width t) (λ p. lift _) r (some 0) (λ fits. lift-MovesBy _ _))
  where
    whole :
        (n : ℕ)
        → more (slot_width t) (some 0) ≡ some n
        → n ≤ length r.rest
        → some (slot_width t) ≡ some n
    whole n e fits = ap some (omega arith) ∙ e

-- The span of a big integer where every part is there
abbrev behind_header : Bool → ℕ → List ℕ → Option ℕ
behind_header neg b bs =
    let m = flip_if neg b in more m (more (length_loop neg 0 (take m bs)) (some 0))

abbrev parts : ℕ → ℕ → Option ℕ
parts m n = more 1 (more m (more n (some 0)))

big_fits :
    (neg : Bool) (b : ℕ) (bs : List ℕ) (k : ℕ)
    → ltb 8 (flip_if neg b) ≡ false
    → parts (flip_if neg b) (length_loop neg 0 (take (flip_if neg b) bs)) ≡ some k
    → k ≤ suc (length bs)
    → big_span neg (b ∷ bs) ≡ some k
unfolding big_span
big_fits neg b bs k small e fits =
    let m = flip_if neg b in
    let n = length_loop neg 0 (take m bs) in
    let total : 1 + (m + (n + 0)) ≡ k = cc e in
    rw
      (
        small,
        le→ltb-false (length bs) m (omega (arith, total)),
        le→ltb-false (length bs - m) n (omega (arith, total)),
      )
      (ap some (omega (arith, total)))

pub take_one {ℓ} :
    {A : Type ℓ} (f : List ℕ → Read A) (at : ℕ) (b : ℕ) (bs : List ℕ) (t : Option ℕ)
    → MovesBy (reader_at (at + 1) bs) t (f (b ∷ []) (reader_at (at + 1) bs))
    → MovesBy (reader_at at (b ∷ bs)) (more 1 t) ((take_bytes 1 >>= f) (reader_at at (b ∷ bs)))
take_one f at b bs t h = take_then 1 f (reader_at at (b ∷ bs)) t (λ fits. h)

big_parts :
    (neg : Bool) (b : ℕ) (bs : List ℕ) (at : ℕ)
    → ltb 8 (flip_if neg b) ≡ false
    → MovesBy
        (reader_at at (b ∷ bs))
        (parts (flip_if neg b) (length_loop neg 0 (take (flip_if neg b) bs)))
        (read_big_int (if neg then int_neg_big else int_pos_big) (reader_at at (b ∷ bs)))
unfolding read_big_int
big_parts true b bs at small =
    take_one _ at b bs (behind_header true b bs)
      (rw small (take_then _ _ _ _ (λ fits. take_then _ _ _ _ (λ fits'. lift-MovesBy _ _))))
big_parts false b bs at small =
    take_one _ at b bs (behind_header false b bs)
      (rw small (take_then _ _ _ _ (λ fits. take_then _ _ _ _ (λ fits'. lift-MovesBy _ _))))

too_long :
    (neg : Bool) (b : ℕ) (bs : List ℕ) (at : ℕ)
    → ltb 8 (flip_if neg b) ≡ true
    → MovesBy
        (reader_at at (b ∷ bs))
        none
        (read_big_int (if neg then int_neg_big else int_pos_big) (reader_at at (b ∷ bs)))
unfolding read_big_int
too_long true b bs at long = take_one _ at b bs none (rw long tt)
too_long false b bs at long = take_one _ at b bs none (rw long tt)

nothing_left :
    (neg : Bool) (at : ℕ) (s : Option ℕ)
    → MovesBy
        (reader_at at [])
        s
        (read_big_int (if neg then int_neg_big else int_pos_big) (reader_at at []))
unfolding read_big_int take_bytes
nothing_left true at s = tt
nothing_left false at s = tt

big_at :
    (neg : Bool) (at : ℕ) (bs : List ℕ)
    → MovesBy
        (reader_at at bs)
        (big_span neg bs)
        (read_big_int (if neg then int_neg_big else int_pos_big) (reader_at at bs))
big_at neg at [] = nothing_left neg at (big_span neg [])
big_at neg at (b ∷ bs) = elim (Bool-cases (ltb 8 (flip_if neg b))) [
  | inl long ↦
      respan (reader_at at (b ∷ bs)) none (big_span neg (b ∷ bs))
        (read_big_int (if neg then int_neg_big else int_pos_big) (reader_at at (b ∷ bs)))
        (λ k e fits. absurd (cc e)) (too_long neg b bs at long)
  | inr small ↦
      respan (reader_at at (b ∷ bs))
        (parts (flip_if neg b) (length_loop neg 0 (take (flip_if neg b) bs)))
        (big_span neg (b ∷ bs))
        (read_big_int (if neg then int_neg_big else int_pos_big) (reader_at at (b ∷ bs)))
        (λ k e fits. big_fits neg b bs k small e fits) (big_parts neg b bs at small)
]

pub read_big_int-MovesBy :
    (neg : Bool) (r : Reader)
    → MovesBy r (big_span neg r.rest) (read_big_int (if neg then int_neg_big else int_pos_big) r)
read_big_int-MovesBy neg r = big_at neg r.pos r.rest

unfoldable pub exponent_only : Bool → List ℕ → Option ℕ
exponent_only neg [] = none
exponent_only neg (b ∷ bs) =
    let tb = flip_if neg b in
    if tb == int_zero
    then some 1
    else if is_fixed_neg tb || is_fixed_pos tb
    then some (1 + slot_width tb)
    else none

exponent_payload :
    (neg : Bool) (tb : ℕ) (r : Reader)
    → (is_fixed_neg tb || is_fixed_pos tb) ≡ true
    → MovesBy r (more (slot_width tb) (some 0)) (read_exponent_payload neg tb r)
unfolding read_exponent_payload
exponent_payload neg tb r fixed = rw fixed (take_then _ _ _ (some 0) (λ fits. lift-MovesBy _ _))

no_payload :
    (neg : Bool) (tb : ℕ) (r : Reader)
    → (is_fixed_neg tb || is_fixed_pos tb) ≡ false
    → MovesBy r none (read_exponent_payload neg tb r)
unfolding read_exponent_payload
no_payload neg tb r other = rw other tt

fixed_at :
    (neg : Bool) (at b : ℕ) (bs : List ℕ)
    → (flip_if neg b == int_zero) ≡ false
    → (is_fixed_neg (flip_if neg b) || is_fixed_pos (flip_if neg b)) ≡ true
    → MovesBy
        (reader_at at (b ∷ bs))
        (more 1 (more (slot_width (flip_if neg b)) (some 0)))
        (read_dec_exponent neg (reader_at at (b ∷ bs)))
unfolding read_dec_exponent
fixed_at neg at b bs e fixed =
    take_one _ at b bs (more (slot_width (flip_if neg b)) (some 0))
      (rw e (exponent_payload neg (flip_if neg b) (reader_at (at + 1) bs) fixed))

exponent_at :
    (neg : Bool) (at : ℕ) (bs : List ℕ)
    → MovesBy (reader_at at bs) (exponent_only neg bs) (read_dec_exponent neg (reader_at at bs))
unfolding read_dec_exponent exponent_only
exponent_at neg at [] = unfold take_bytes in tt
exponent_at neg at (b ∷ bs) = elim (Bool-cases (flip_if neg b == int_zero)) [
  | inl e ↦ rw e (
      take_one _ at b bs (some 0)
        (rw e (lift-MovesBy {A = ℤ} (some (pos 0)) (reader_at (at + 1) bs))))
  | inr e ↦ elim (Bool-cases (is_fixed_neg (flip_if neg b) || is_fixed_pos (flip_if neg b))) [
    | inl fixed ↦
        rw (e, fixed)
          (respan (reader_at at (b ∷ bs)) (more 1 (more (slot_width (flip_if neg b)) (some 0)))
            (some (1 + slot_width (flip_if neg b))) (read_dec_exponent neg (reader_at at (b ∷ bs)))
            (λ n s fits. ap some (omega arith) ∙ s) (fixed_at neg at b bs e fixed))
    | inr other ↦
        rw (e, other)
          (take_one _ at b bs none
            (rw e (no_payload neg (flip_if neg b) (reader_at (at + 1) bs) other)))
  ]
]

pub read_dec_exponent-MovesBy :
    (neg : Bool) (r : Reader) → MovesBy r (exponent_only neg r.rest) (read_dec_exponent neg r)
read_dec_exponent-MovesBy neg r = exponent_at neg r.pos r.rest
