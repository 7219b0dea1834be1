-- ===== src/Bytes/Negation.antt =====
-- Complement, decrement and negation of byte lists, against their numbers.
use struple.Prelude.{ℕ, suc, ◌+◌, ◌-◌, ◌*◌, ◌≡◌, refl, ap, arith, List, [], ◌∷◌, length}
use struple.Bytes.{IsBytes, flip_all}
use struple.Bytes.BigEndian.{be_value, be_value-cons, be_from, power, power-suc}

pub length-flip_all : (p : List ℕ) → length (flip_all p) ≡ length p
length-flip_all [] = refl
length-flip_all (b ∷ bs) = ap suc (length-flip_all bs)

pub flip_all-IsBytes : (p : List ℕ) → IsBytes (flip_all p)
flip_all-IsBytes [] = tt
flip_all-IsBytes (b ∷ bs) = (omega arith, flip_all-IsBytes bs)

pub flip_all-flip_all : (p : List ℕ) → IsBytes p → flip_all (flip_all p) ≡ p
flip_all-flip_all [] h = refl
flip_all-flip_all (b ∷ bs) (hb, h) =
    let e : 255 - (255 - b) ≡ b = omega arith in rw (e, flip_all-flip_all bs h) refl

-- The complement of n bytes is 256 ^ n - 1 less their number.
pub be_value-flip_all :
    (p : List ℕ) → IsBytes p → be_value (flip_all p) + be_value p + 1 ≡ power (length p)
be_value-flip_all [] h = unfold be_from in refl
be_value-flip_all (b ∷ bs) (hb, h) =
    let whole : 255 - b + b ≡ 255 = omega arith in
    omega (
      arith,
      be_value-cons (255 - b) (flip_all bs),
      be_value-cons b bs,
      ap power (length-flip_all bs),
      ap (λ (t : ℕ). (255 - b) * power t) (length-flip_all bs),
      ap (λ (t : ℕ). t * power (length bs)) whole,
      power-suc (length bs),
      be_value-flip_all bs h,
    )
