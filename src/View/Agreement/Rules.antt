-- ===== src/View/Agreement/Rules.antt =====
-- Reads that move the position by a given span, and rules for building them.
use struple.Prelude.{
  ℕ, ◌+◌, ◌≤◌, ◌≡◌, refl, ◌∙◌, arith, List, length, length-drop, take, Option, none, some, leb,
  leb→le, Bool-cases, Option-cases, inl, inr,
}
use struple.Reader.{Reader, Read, ◌>>=◌, then_read, lift, take_bytes, advance}
use struple.View.Span.{more}
use struple.View.Split.{drop-drop}

-- `q` is the result of a read at `r`: if it is a success, it has moved by `s`.
abbrev pub MovesBy {ℓ} : {A : Type ℓ} → Reader → Option ℕ → Option A × Reader → Type 0
MovesBy r s (none, r') = Unit
MovesBy r s (some a, r') = (n : ℕ) × (s ≡ some n) × (r' ≡ advance n r) × (n ≤ length r.rest)

pub advance-advance : (n k : ℕ) (r : Reader) → advance k (advance n r) ≡ advance (n + k) r
advance-advance n k r =
    let behind : r.pos + n + k ≡ r.pos + (n + k) = omega arith in
    rw (behind, drop-drop k n r.rest) refl

pub shifted {ℓ} :
    {A : Type ℓ} (n : ℕ) (r : Reader) (t : Option ℕ) (q : Option A × Reader)
    → n ≤ length r.rest
    → MovesBy (advance n r) t q
    → MovesBy r (more n t) q
shifted n r t (none, r') fits h = tt
shifted n r t (some a, r') fits (k, span, moved, rest) =
    (n + k, rw span refl, moved ∙ advance-advance n k r, omega (arith, length-drop n r.rest))

pub lift-MovesBy {ℓ} : {A : Type ℓ} (o : Option A) (r : Reader) → MovesBy r (some 0) (lift o r)
lift-MovesBy none r = tt
lift-MovesBy (some a) r = (0, refl, rw (right r.pos) refl, omega arith)
  where
    right : (n : ℕ) → n + 0 ≡ n
    right n = omega arith

pub take_then {ℓ} :
    {A : Type ℓ} (n : ℕ) (f : List ℕ → Read A) (r : Reader) (t : Option ℕ)
    → (n ≤ length r.rest → MovesBy (advance n r) t (f (take n r.rest) (advance n r)))
    → MovesBy r (more n t) ((take_bytes n >>= f) r)
unfolding take_bytes
take_then n f r t h = elim (Bool-cases (leb n (length r.rest))) [
  | inl e ↦
      let fits = leb→le n (length r.rest) e in
      rw e (shifted n r t (f (take n r.rest) (advance n r)) fits (h fits))
  | inr e ↦ rw e tt
]

-- A result that is only looked at
pub then_lift {ℓ κ} :
    {A : Type ℓ} {B : Type κ} (g : A → Option B) (r : Reader) (s : Option ℕ) (q : Option A × Reader)
    → MovesBy r s q
    → MovesBy r s (then_read q (λ a. lift (g a)))
then_lift g r s (none, r') h = tt
then_lift g r s (some a, r') h = elim (Option-cases (g a)) [ inl e ↦ rw e tt | inr (b, e) ↦ rw e h ]

pub then_map {ℓ κ μ} :
    {A : Type ℓ} {B : Type κ} {C : Type μ} (g : A → Option B) (h : B → C) (r : Reader)
    (s : Option ℕ) (q : Option A × Reader)
    → MovesBy r s q
    → MovesBy r s (then_read q (λ a. lift (g a) >>= λ b. lift (some (h b))))
then_map g h r s (none, r') moves = tt
then_map g h r s (some a, r') moves = elim (Option-cases (g a)) [
  | inl e ↦ rw e tt
  | inr (b, e) ↦ rw e moves
]

-- The span of two reads, the second of which may depend on where the first has ended
abbrev pub chain : Option ℕ → (ℕ → Option ℕ) → Option ℕ
chain none t = none
chain (some n) t = more n (t n)

pub bind_then {ℓ κ} :
    {A : Type ℓ} {B : Type κ} (f : A → Read B) (r : Reader) (s : Option ℕ) (t : ℕ → Option ℕ)
    (q : Option A × Reader)
    → MovesBy r s q
    → ((a : A) (n : ℕ) → MovesBy (advance n r) (t n) (f a (advance n r)))
    → MovesBy r (chain s t) (then_read q f)
bind_then f r s t (none, r') h k = tt
bind_then f r s t (some a, r') (n, span, moved, fits) k =
    rw (span, moved) (shifted n r (t n) (f a (advance n r)) fits (k a n))

-- Another span that is the same wherever the first fits.
pub respan {ℓ} :
    {A : Type ℓ} (r : Reader) (s t : Option ℕ) (q : Option A × Reader)
    → ((n : ℕ) → s ≡ some n → n ≤ length r.rest → t ≡ some n)
    → MovesBy r s q
    → MovesBy r t q
respan r s t (none, r') same h = tt
respan r s t (some a, r') same (n, span, moved, fits) = (n, same n span fits, moved, fits)
