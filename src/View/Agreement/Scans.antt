-- ===== src/View/Agreement/Scans.antt =====
-- The scans for a terminator: in a decimal, and in a frame.
use struple.Prelude.{
  ℕ, suc, ◌+◌, ◌≤◌, ◌≡◌, refl, ap, ◌∙◌, arith, List, [], ◌∷◌, length, drop, Option, none, some,
  ◌==◌, Bool-cases, inl, inr,
}
use struple.Framing.{scan_framed, cons_framed}
use struple.Reader.{Reader}
use struple.Reader.Decimals.{scan_until, cons_digits, take_region, region}
use struple.Reader.Next.{take_framed, framed_region}
use struple.View.Span.{more, digits_span, framed_span}
use struple.View.Agreement.Rules.{MovesBy}

-- What a scan finds, and the span that goes with it.
abbrev Found : List ℕ → Option ℕ → Option (List ℕ × List ℕ) → Type 0
Found bs s none = Unit
Found bs s (some (front, rest)) =
    (s ≡ some (length front + 1))
    × (rest ≡ drop (length front + 1) bs)
    × (length front + 1 ≤ length bs)

cons_digits-Found :
    (b : ℕ) (bs : List ℕ) (s : Option ℕ) (o : Option (List ℕ × List ℕ))
    → Found bs s o
    → Found (b ∷ bs) (more 1 s) (cons_digits b o)
cons_digits-Found b bs s none h = tt
cons_digits-Found b bs s (some (front, rest)) (span, behind, fits) =
    (rw span (ap some (omega arith)), behind ∙ next, omega arith)
  where
    next : drop (length front + 1) bs ≡ drop (suc (length front) + 1) (b ∷ bs)
    next = ap (λ (n : ℕ). drop n (b ∷ bs)) (turned (length front))
      where
        turned : (n : ℕ) → suc (n + 1) ≡ suc n + 1
        turned n = omega arith

cons_framed-Found :
    (b : ℕ) (bs : List ℕ) (s : Option ℕ) (o : Option (List ℕ × List ℕ))
    → Found bs s o
    → Found (b ∷ bs) (more 1 s) (cons_framed b o)
cons_framed-Found b bs s none h = tt
cons_framed-Found b bs s (some (front, rest)) h = cons_digits-Found b bs s (some (front, rest)) h

scan_until-Found : (term : ℕ) (bs : List ℕ) → Found bs (digits_span term bs) (scan_until term bs)
unfolding scan_until digits_span
scan_until-Found term [] = tt
scan_until-Found term (b ∷ bs) = elim (Bool-cases (b == term)) [
  | inl e ↦ rw e (refl, refl, omega arith)
  | inr e ↦
      rw e (
        cons_digits-Found b bs (digits_span term bs) (scan_until term bs)
          (scan_until-Found term bs))
]

scan_framed-Found : (bs : List ℕ) → Found bs (framed_span bs) (scan_framed bs)
unfolding scan_framed framed_span
scan_framed-Found [] = tt
scan_framed-Found (b ∷ []) = elim (Bool-cases (b == 0)) [
  | inl e ↦ rw e (refl, refl, omega arith)
  | inr e ↦ rw e tt
]
scan_framed-Found (b ∷ c ∷ bs) =
    let inner = cons_framed-Found c bs (framed_span bs) (scan_framed bs) (scan_framed-Found bs) in
    let escaped =
      cons_framed-Found b (c ∷ bs) (more 1 (framed_span bs)) (cons_framed c (scan_framed bs))
        inner in
    let plain =
      cons_framed-Found b (c ∷ bs) (framed_span (c ∷ bs)) (scan_framed (c ∷ bs))
        (scan_framed-Found (c ∷ bs)) in
    elim (Bool-cases (b == 0)) [
      | inl e ↦ elim (Bool-cases (c == 0xff)) [
        | inl f ↦ rw (e, f) (rw (twice (framed_span bs)) at escaped)
        | inr f ↦ rw (e, f) (refl, refl, omega arith)
      ]
      | inr e ↦ rw e plain
    ]
  where
    twice : (s : Option ℕ) → more 1 (more 1 s) ≡ more 2 s
    twice none = refl
    twice (some n) = ap some (omega arith)

pub take_region-MovesBy :
    (term : ℕ) (r : Reader) → MovesBy r (digits_span term r.rest) (take_region term r)
unfolding take_region
take_region-MovesBy term r = go (scan_until term r.rest) (scan_until-Found term r.rest)
  where
    go :
        (o : Option (List ℕ × List ℕ))
        → Found r.rest (digits_span term r.rest) o
        → MovesBy r (digits_span term r.rest) (region r o)
    go none h = tt
    go (some ([], rest)) h = tt
    go (some (b ∷ bs, rest)) (span, behind, fits) =
        (length (b ∷ bs) + 1, span, rw behind refl, fits)

pub take_framed-MovesBy : (r : Reader) → MovesBy r (framed_span r.rest) (take_framed r)
unfolding take_framed
take_framed-MovesBy r = go (scan_framed r.rest) (scan_framed-Found r.rest)
  where
    go :
        (o : Option (List ℕ × List ℕ))
        → Found r.rest (framed_span r.rest) o
        → MovesBy r (framed_span r.rest) (framed_region r o)
    go none h = tt
    go (some (front, rest)) (span, behind, fits) = (length front + 1, span, rw behind refl, fits)
