-- ===== src/ByteOrder/Pairs.antt =====
-- Byte order of the base-100 bytes of decimals and their terminator, against the order of the digits.
use struple.Prelude.{
  ℕ, zero, suc, ◌+◌, ◌*◌, ◌<◌, ◌≡◌, refl, ◌∙◌, arith, List, [], ◌∷◌, ◌++◌, All, Ordering, inl, inr,
  three_ways, lt→ltb, le→ltb-false,
}
use struple.Codes.{terminator}
use struple.Compare.Order.{lexicographic}
use struple.RoundTrip.Decimals.Pairs.{pairs, IsTrimmed}
use struple.Semantic.Digits.{IsDigit}
use struple.ByteOrder.Apart.{AreApart}

-- Two pairs of digits and what follows them
pair_order :
    (d f e g : ℕ) (p q x y : List ℕ)
    → f < 10
    → g < 10
    → lexicographic p q ≡ lexicographic x y
    → lexicographic ((d * 10 + f + 1) ∷ p) ((e * 10 + g + 1) ∷ q)
      ≡ lexicographic (d ∷ f ∷ x) (e ∷ g ∷ y)
unfolding lexicographic
pair_order d f e g p q x y hf hg rest = elim (three_ways d e) [
  | inl less ↦ rw (lt→ltb d e less, lt→ltb (d * 10 + f + 1) (e * 10 + g + 1) (omega arith)) refl
  | inr (inl same) ↦ elim (three_ways f g) [
    | inl lower ↦
        rw
          (
            le→ltb-false d e (omega (arith, same)),
            le→ltb-false e d (omega (arith, same)),
            lt→ltb f g lower,
            lt→ltb (d * 10 + f + 1) (e * 10 + g + 1) (omega (arith, same)),
          )
          refl
    | inr (inl same') ↦
        rw
          (
            le→ltb-false d e (omega (arith, same)),
            le→ltb-false e d (omega (arith, same)),
            le→ltb-false f g (omega (arith, same')),
            le→ltb-false g f (omega (arith, same')),
            le→ltb-false (d * 10 + f + 1) (e * 10 + g + 1) (omega (arith, same, same')),
            le→ltb-false (e * 10 + g + 1) (d * 10 + f + 1) (omega (arith, same, same')),
          )
          rest
    | inr (inr higher) ↦
        rw
          (
            le→ltb-false d e (omega (arith, same)),
            le→ltb-false e d (omega (arith, same)),
            le→ltb-false f g (omega arith),
            lt→ltb g f higher,
            le→ltb-false (d * 10 + f + 1) (e * 10 + g + 1) (omega (arith, same)),
            lt→ltb (e * 10 + g + 1) (d * 10 + f + 1) (omega (arith, same)),
          )
          refl
  ]
  | inr (inr more) ↦
      rw
        (
          le→ltb-false d e (omega arith),
          lt→ltb e d more,
          le→ltb-false (d * 10 + f + 1) (e * 10 + g + 1) (omega arith),
          lt→ltb (e * 10 + g + 1) (d * 10 + f + 1) (omega arith),
        )
        refl
]

same_tail :
    (d e : ℕ) (x y x' y' : List ℕ)
    → lexicographic x y ≡ lexicographic x' y'
    → lexicographic (d ∷ x) (e ∷ y) ≡ lexicographic (d ∷ x') (e ∷ y')
unfolding lexicographic
same_tail d e x y x' y' h = rw h refl

-- A digit 0 that is put behind the last one
padded_below :
    (f : ℕ) (es : List ℕ) → IsTrimmed (f ∷ es) → lexicographic (0 ∷ []) (f ∷ es) ≡ Ordering.lt
unfolding lexicographic
padded_below zero [] t = absurd (omega arith)
padded_below zero (x ∷ es) t = refl
padded_below (suc f) es t = rw (lt→ltb 0 (suc f) (omega arith)) refl

padded_above :
    (f : ℕ) (es : List ℕ) → IsTrimmed (f ∷ es) → lexicographic (f ∷ es) (0 ∷ []) ≡ Ordering.gt
unfolding lexicographic
padded_above zero [] t = absurd (omega arith)
padded_above zero (x ∷ es) t = refl
padded_above (suc f) es t =
    rw (le→ltb-false (suc f) 0 (omega arith), lt→ltb 0 (suc f) (omega arith)) refl

behind_pair : (d f : ℕ) (ds : List ℕ) → IsTrimmed (d ∷ f ∷ ds) → IsTrimmed ds
behind_pair d f [] t = tt
behind_pair d f (x ∷ ds) t = t

padded_byte : (d : ℕ) → d * 10 + 0 + 1 ≡ d * 10 + 1
padded_byte d = omega arith

-- The bytes and their terminator are in the order of the digits.
pub pairs-lexicographic :
    (ds es : List ℕ)
    → All IsDigit ds
    → All IsDigit es
    → IsTrimmed ds
    → IsTrimmed es
    → lexicographic (pairs ds ++ terminator ∷ []) (pairs es ++ terminator ∷ [])
      ≡ lexicographic ds es
unfolding pairs
pairs-lexicographic [] [] hd he td te = unfold lexicographic in refl
pairs-lexicographic [] (e ∷ []) hd he td te =
    unfold lexicographic in rw (lt→ltb 0 (e * 10 + 1) (omega arith)) refl
pairs-lexicographic [] (e ∷ g ∷ es) hd he td te =
    unfold lexicographic in rw (lt→ltb 0 (e * 10 + g + 1) (omega arith)) refl
pairs-lexicographic (d ∷ []) [] hd he td te =
    unfold lexicographic in
    rw (le→ltb-false (d * 10 + 1) 0 (omega arith), lt→ltb 0 (d * 10 + 1) (omega arith)) refl
pairs-lexicographic (d ∷ f ∷ ds) [] hd he td te =
    unfold lexicographic in
    rw (le→ltb-false (d * 10 + f + 1) 0 (omega arith), lt→ltb 0 (d * 10 + f + 1) (omega arith)) refl
pairs-lexicographic (d ∷ []) (e ∷ []) hd he td te =
    rw (padded_byte d, padded_byte e) at
      (pair_order d 0 e 0 (0 ∷ []) (0 ∷ []) [] [] (omega arith) (omega arith)
        (unfold lexicographic in refl))
    ∙ same_tail d e (0 ∷ []) (0 ∷ []) [] [] (unfold lexicographic in refl)
pairs-lexicographic (d ∷ []) (e ∷ g ∷ es) hd (he, (hg, hes)) td te =
    rw (padded_byte d) at (
      pair_order d 0 e g (0 ∷ []) (pairs es ++ terminator ∷ []) [] es (omega arith) hg
        (pairs-lexicographic [] es tt hes tt (behind_pair e g es te)))
    ∙ same_tail d e (0 ∷ []) (g ∷ es) [] (g ∷ es)
        (padded_below g es te ∙ unfold lexicographic in refl)
pairs-lexicographic (d ∷ f ∷ ds) (e ∷ []) (hd, (hf, hds)) he td te =
    rw (padded_byte e) at (
      pair_order d f e 0 (pairs ds ++ terminator ∷ []) (0 ∷ []) ds [] hf (omega arith)
        (pairs-lexicographic ds [] hds tt (behind_pair d f ds td) tt))
    ∙ same_tail d e (f ∷ ds) (0 ∷ []) (f ∷ ds) []
        (padded_above f ds td ∙ unfold lexicographic in refl)
pairs-lexicographic (d ∷ f ∷ ds) (e ∷ g ∷ es) (hd, (hf, hds)) (he, (hg, hes)) td te =
    pair_order d f e g (pairs ds ++ terminator ∷ []) (pairs es ++ terminator ∷ []) ds es hf hg
      (pairs-lexicographic ds es hds hes (behind_pair d f ds td) (behind_pair e g es te))

pub pairs-AreApart :
    (ds es : List ℕ)
    → All IsDigit ds
    → All IsDigit es
    → AreApart (pairs ds ++ terminator ∷ []) (pairs es ++ terminator ∷ [])
unfolding pairs
pairs-AreApart [] [] hd he = λ e. tt
pairs-AreApart [] (e ∷ []) hd he = λ same. absurd (omega (arith, same))
pairs-AreApart [] (e ∷ g ∷ es) hd he = λ same. absurd (omega (arith, same))
pairs-AreApart (d ∷ []) [] hd he = λ same. absurd (omega (arith, same))
pairs-AreApart (d ∷ f ∷ ds) [] hd he = λ same. absurd (omega (arith, same))
pairs-AreApart (d ∷ []) (e ∷ []) hd he = λ same. λ end. tt
pairs-AreApart (d ∷ []) (e ∷ g ∷ es) hd he = λ same. pairs-AreApart [] es tt he.1.1
pairs-AreApart (d ∷ f ∷ ds) (e ∷ []) hd he = λ same. pairs-AreApart ds [] hd.1.1 tt
pairs-AreApart (d ∷ f ∷ ds) (e ∷ g ∷ es) hd he = λ same. pairs-AreApart ds es hd.1.1 he.1.1
