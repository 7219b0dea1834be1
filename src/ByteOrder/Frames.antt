-- ===== src/ByteOrder/Frames.antt =====
-- Strings, byte strings and containers: byte order of frames, and of what follows equal ones.
use struple.Prelude.{
  ℕ, zero, suc, ◌<◌, ◌≡◌, refl, ap, ◌∙◌, arith, List, [], ◌∷◌, ◌++◌, Ordering, append_assoc, inl,
  inr, three_ways, lt→ltb, le→ltb-false, ltb, ◌==◌, true, false, ==_false,
}
use struple.Codes.{terminator}
use struple.Compare.{compare_bytes}
use struple.Compare.Order.{lexicographic, compare_bytes-lexicographic, compare_bytes-cons}
use struple.Writer.{writer_init}
use struple.Framing.{write_framed}
use struple.Framing.Escape.{escaped, bytes-write_framed}
use struple.Semantic.Numbers.{or_else}

-- What may follow an element: nothing, or a type code, which is below 0xff
abbrev pub StartsBelow : List ℕ → Type 0
StartsBelow [] = Unit
StartsBelow (b ∷ bs) = b < 0xff

below_escape : (r c : List ℕ) → StartsBelow r → lexicographic r (0xff ∷ c) ≡ Ordering.lt
unfolding lexicographic
below_escape [] c h = refl
below_escape (b ∷ bs) c h = rw (lt→ltb b 0xff h) refl

above_escape : (r c : List ℕ) → StartsBelow r → lexicographic (0xff ∷ c) r ≡ Ordering.gt
unfolding lexicographic
above_escape [] c h = refl
above_escape (b ∷ bs) c h = rw (le→ltb-false 0xff b (omega arith), lt→ltb b 0xff h) refl

nonzero : (x : ℕ) → (suc x == 0) ≡ false
nonzero x = ==_false (suc x) 0 (omega arith)

zero_below : (x : ℕ) → ltb 0 (suc x) ≡ true
zero_below x = lt→ltb 0 (suc x) (omega arith)

not_below : (x : ℕ) → ltb (suc x) 0 ≡ false
not_below x = le→ltb-false (suc x) 0 (omega arith)

module _ (r s : List ℕ) (hr : StartsBelow r) (hs : StartsBelow s) where
  escaped-lexicographic :
      (a b : List ℕ)
      → lexicographic (escaped a ++ 0 ∷ r) (escaped b ++ 0 ∷ s)
        ≡ or_else (lexicographic a b) (lexicographic r s)
  unfolding lexicographic escaped
  escaped-lexicographic [] [] = refl
  escaped-lexicographic [] (zero ∷ b) = below_escape r (escaped b ++ 0 ∷ s) hr
  escaped-lexicographic [] (suc y ∷ b) = rw (nonzero y, zero_below y) refl
  escaped-lexicographic (zero ∷ a) [] = above_escape s (escaped a ++ 0 ∷ r) hs
  escaped-lexicographic (suc x ∷ a) [] = rw (nonzero x, not_below x, zero_below x) refl
  escaped-lexicographic (zero ∷ a) (zero ∷ b) = escaped-lexicographic a b
  escaped-lexicographic (zero ∷ a) (suc y ∷ b) = rw (nonzero y, zero_below y) refl
  escaped-lexicographic (suc x ∷ a) (zero ∷ b) = rw (nonzero x, not_below x, zero_below x) refl
  escaped-lexicographic (suc x ∷ a) (suc y ∷ b) = elim (three_ways (suc x) (suc y)) [
    | inl less ↦ rw (nonzero x, nonzero y, lt→ltb (suc x) (suc y) less) refl
    | inr (inl e) ↦
        rw
          (
            nonzero x,
            nonzero y,
            le→ltb-false (suc x) (suc y) (omega (arith, e)),
            le→ltb-false (suc y) (suc x) (omega (arith, e)),
          )
          (escaped-lexicographic a b)
    | inr (inr more) ↦
        rw
          (
            nonzero x,
            nonzero y,
            le→ltb-false (suc x) (suc y) (omega arith),
            lt→ltb (suc y) (suc x) more,
          )
          refl
  ]

framed :
    (t : ℕ) (a r : List ℕ)
    → (write_framed writer_init t a).bytes ++ r ≡ t ∷ (escaped a ++ terminator ∷ r)
framed t a r =
    rw (bytes-write_framed writer_init t a)
      (ap (λ (bs : List ℕ). t ∷ bs) (append_assoc (escaped a) (terminator ∷ []) r))

-- Two frames of one type code, each followed by nothing or by bytes that begin below 0xff, are in byte
-- order as their contents are, and where these are equal as what follows.
pub write_framed-compare_bytes :
    (t : ℕ) (a b r s : List ℕ)
    → StartsBelow r
    → StartsBelow s
    → compare_bytes
        ((write_framed writer_init t a).bytes ++ r)
        ((write_framed writer_init t b).bytes ++ s)
      ≡ or_else (compare_bytes a b) (compare_bytes r s)
write_framed-compare_bytes t a b r s hr hs =
    rw (framed t a r, framed t b s)
      (compare_bytes-cons t (escaped a ++ terminator ∷ r) (escaped b ++ terminator ∷ s)
        ∙ compare_bytes-lexicographic (escaped a ++ terminator ∷ r) (escaped b ++ terminator ∷ s)
        ∙ escaped-lexicographic r s hr hs a b
        ∙ rw (compare_bytes-lexicographic a b, compare_bytes-lexicographic r s) refl)
