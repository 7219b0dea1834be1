-- ===== src/ByteOrder/Apart.antt =====
-- Encodings of which none is a proper prefix of another: byte order with what follows, and complemented.
use struple.Prelude.{
  ℕ, ◌-◌, ◌≡◌, refl, sym, ap, ◌∙◌, arith, List, [], ◌∷◌, ◌++◌, append-nil, append_assoc, inl, inr,
  three_ways, lt→ltb, le→ltb-false, true,
}
use struple.Bytes.{IsBytes}
use struple.Compare.Order.{lexicographic}
use struple.Encode.Ints.Words.{flips}
use struple.Reader.{Element, Reader}
use struple.Reader.Next.{Outcome}
use struple.RoundTrip.Ints.{ReadsBack}
use struple.Semantic.Numbers.{or_else}

-- Neither list ends where the other goes on.
abbrev pub AreApart : List ℕ → List ℕ → Type 0
AreApart [] [] = Unit
AreApart [] (y ∷ q) = ⊥
AreApart (x ∷ p) [] = ⊥
AreApart (x ∷ p) (y ∷ q) = x ≡ y → AreApart p q

pub lexicographic-append :
    (p q x y : List ℕ)
    → AreApart p q
    → lexicographic (p ++ x) (q ++ y) ≡ or_else (lexicographic p q) (lexicographic x y)
unfolding lexicographic
lexicographic-append [] [] x y h = refl
lexicographic-append [] (b ∷ q) x y h = absurd h
lexicographic-append (a ∷ p) [] x y h = absurd h
lexicographic-append (a ∷ p) (b ∷ q) x y h = elim (three_ways a b) [
  | inl less ↦ rw (lt→ltb a b less) refl
  | inr (inl e) ↦ rw (e, le→ltb-false b b (omega arith)) (lexicographic-append p q x y (h e))
  | inr (inr more) ↦ rw (le→ltb-false a b (omega arith), lt→ltb b a more) refl
]

-- Complements are in the opposite order.
pub lexicographic-flips :
    (p q : List ℕ)
    → IsBytes p
    → IsBytes q
    → AreApart p q
    → lexicographic (flips true p) (flips true q) ≡ lexicographic q p
unfolding lexicographic
lexicographic-flips [] [] hp hq h = refl
lexicographic-flips [] (b ∷ q) hp hq h = absurd h
lexicographic-flips (a ∷ p) [] hp hq h = absurd h
lexicographic-flips (a ∷ p) (b ∷ q) (ha, hp) (hb, hq) h = elim (three_ways a b) [
  | inl less ↦
      rw
        (
          le→ltb-false (255 - a) (255 - b) (omega arith),
          lt→ltb (255 - b) (255 - a) (omega arith),
          le→ltb-false b a (omega arith),
          lt→ltb a b less,
        )
        refl
  | inr (inl e) ↦
      rw (e, le→ltb-false (255 - b) (255 - b) (omega arith), le→ltb-false b b (omega arith))
        (lexicographic-flips p q hp hq (h e))
  | inr (inr more) ↦ rw (lt→ltb (255 - a) (255 - b) (omega arith), lt→ltb b a more) refl
]

pub AreApart-flips :
    (p q : List ℕ) → IsBytes p → IsBytes q → AreApart p q → AreApart (flips true p) (flips true q)
AreApart-flips [] [] hp hq h = tt
AreApart-flips [] (b ∷ q) hp hq h = absurd h
AreApart-flips (a ∷ p) [] hp hq h = absurd h
AreApart-flips (a ∷ p) (b ∷ q) (ha, hp) (hb, hq) h =
    λ e. AreApart-flips p q hp hq (h (omega (arith, e)))

pub AreApart-append : (p q x y : List ℕ) → AreApart p q → AreApart x y → AreApart (p ++ x) (q ++ y)
AreApart-append [] [] x y h k = k
AreApart-append [] (b ∷ q) x y h k = absurd h
AreApart-append (a ∷ p) [] x y h k = absurd h
AreApart-append (a ∷ p) (b ∷ q) x y h k = λ e. AreApart-append p q x y (h e) k

-- The reader takes the same bytes from the same input.
goes_on : (p t : List ℕ) (b : ℕ) (e f : Element) → ReadsBack p e → ReadsBack (p ++ b ∷ t) f → ⊥
goes_on p t b e f hp hq =
    let shorter = ap (λ (q : Outcome Element × Reader). q.1.rest) (hp 0 (b ∷ t)) in
    let longer = ap (λ (q : Outcome Element × Reader). q.1.rest) (hq 0 []) in
    cc (sym shorter ∙ rw (append-nil (p ++ b ∷ t)) at longer)

both_go_on :
    (e f : Element) (front p q : List ℕ)
    → ReadsBack (front ++ p) e
    → ReadsBack (front ++ q) f
    → AreApart p q
both_go_on e f front [] [] hp hq = tt
both_go_on e f front [] (b ∷ q) hp hq = goes_on front q b e f (rw (append-nil front) at hp) hq
both_go_on e f front (a ∷ p) [] hp hq = goes_on front p a f e (rw (append-nil front) at hq) hp
both_go_on e f front (a ∷ p) (b ∷ q) hp hq = λ same.
    both_go_on e f (front ++ (a ∷ [])) p q (rw (append_assoc front (a ∷ []) p) hp)
      (rw (append_assoc front (a ∷ []) q, same) hq)

-- Two encodings that are read back are apart.
pub ReadsBack-AreApart :
    (p q : List ℕ) (e f : Element) → ReadsBack p e → ReadsBack q f → AreApart p q
ReadsBack-AreApart p q e f hp hq = both_go_on e f [] p q hp hq
