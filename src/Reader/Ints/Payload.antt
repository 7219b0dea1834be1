-- ===== src/Reader/Ints/Payload.antt =====
-- The byte loops of the integer reader against the numbers that the lists stand for.
use struple.Prelude.{
  ℕ, zero, suc, ◌+◌, ◌-◌, ◌*◌, ◌/◌, ◌%◌, ◌≤◌, ◌<◌, ◌≡◌, refl, ap, ◌∙◌, arith, List, [], ◌∷◌, length,
}
use struple.Bytes.{IsBytes, flip_all}
use struple.Bytes.BigEndian.{
  be_value, be_value-cons, be_value-lt, be_from, power, power-suc, IsNormal, IsNormal-injective,
}
use struple.Bytes.Negation.{flip_all-IsBytes, be_value-flip_all, length-flip_all}
use struple.Encode.Ints.{trim_zeros}
use struple.Encode.Ints.Payload.{be_value-trim_zeros, trim_zeros-zero, trim_zeros-IsNormal}
use struple.Reader.Ints.{carry_into, negate_loop, negate_bytes}

-- What the loop keeps: the two's complement, with the carry as the digit above the list.
record Negated (bs : List ℕ) (r : List ℕ × ℕ) : Type 0 where
  same_length : length r.0 ≡ length bs
  are_bytes : IsBytes r.0
  carry_small : r.1 ≤ 1
  total : be_value r.0 + r.1 * power (length bs) + be_value bs ≡ power (length bs)

Negated-carry_into :
    (b : ℕ) (bs : List ℕ) (s : List ℕ) (carry : ℕ)
    → b < 256
    → Negated bs (s, carry)
    → Negated (b ∷ bs) (carry_into b (s, carry))
Negated-carry_into b bs s carry hb d =
    let split : (255 - b + carry) % 256 + 256 * ((255 - b + carry) / 256) + b ≡ 255 + carry =
      omega (arith, d.carry_small) in
    record {
      same_length = omega (arith, d.same_length);
      are_bytes = (omega arith, d.are_bytes);
      carry_small = omega (arith, d.carry_small);
      total = omega (
        arith,
        be_value-cons ((255 - b + carry) % 256) s,
        be_value-cons b bs,
        power-suc (length bs),
        d.total,
        ap (λ (t : ℕ). (255 - b + carry) % 256 * power t) d.same_length,
        ap (λ (t : ℕ). t * power (length bs)) split,
        ap (λ (t : ℕ). (255 - b + carry) / 256 * t) (power-suc (length bs)),
      );
    }

negate_loop-Negated : (p : List ℕ) → IsBytes p → Negated p (negate_loop p)
unfolding negate_loop
negate_loop-Negated [] h =
    unfold be_from in
    record { same_length = refl; are_bytes = tt; carry_small = omega arith; total = refl }
negate_loop-Negated (b ∷ bs) (hb, h) =
    Negated-carry_into b bs (negate_loop bs).0 (negate_loop bs).1 hb (negate_loop-Negated bs h)

no_carry :
    (p : List ℕ) (r : List ℕ × ℕ)
    → 0 < be_value p
    → Negated p r
    → be_value r.0 + be_value p ≡ power (length p)
no_carry p (s, zero) pos d = omega (arith, d.total)
no_carry p (s, suc zero) pos d = absurd (omega (arith, d.total))
no_carry p (s, suc (suc c)) pos d = absurd (omega (arith, d.carry_small))

module _ (p : List ℕ) (h : IsBytes p) where
  pub negate_bytes-IsBytes : IsBytes (negate_bytes p)
  unfolding negate_bytes
  negate_bytes-IsBytes = (negate_loop-Negated p h).are_bytes

  -- Negating n bytes whose number v is not 0 gives 256 ^ n - v.
  pub be_value-negate_bytes :
      0 < be_value p → be_value (negate_bytes p) + be_value p ≡ power (length p)
  unfolding negate_bytes
  be_value-negate_bytes pos = no_carry p (negate_loop p) pos (negate_loop-Negated p h)

-- A negative slot holds the complement of the magnitude less one. Its number and that of the
-- magnitude add up to 256 ^ n.
module _ (mag : ℕ) (pv : List ℕ) (h : IsBytes pv) (e : be_value pv + 1 ≡ mag) where
  pub excess_total : be_value (flip_all pv) + mag ≡ power (length pv)
  excess_total = omega (arith, be_value-flip_all pv h)

-- Reading it back gives the magnitude, unless that is 256 ^ n.
pub trim_zeros-negate_bytes :
    (mag pv : List ℕ)
    → IsNormal mag
    → IsBytes pv
    → be_value pv + 1 ≡ be_value mag
    → be_value mag < power (length pv)
    → trim_zeros (negate_bytes (flip_all pv)) ≡ mag
trim_zeros-negate_bytes mag pv normal h e less =
    let hp = flip_all-IsBytes pv in
    let total = excess_total (be_value mag) pv h e in
    let value = be_value-negate_bytes (flip_all pv) hp (omega (arith, total)) in
    let back : be_value (negate_bytes (flip_all pv)) ≡ be_value mag =
      omega (arith, value, total, ap power (length-flip_all pv)) in
    IsNormal-injective (trim_zeros (negate_bytes (flip_all pv))) mag
      (trim_zeros-IsNormal _ (negate_bytes-IsBytes (flip_all pv) hp) (omega (arith, back, e)))
      normal (be_value-trim_zeros (negate_bytes (flip_all pv)) ∙ back)

all_carried : (p : List ℕ) (r : List ℕ × ℕ) → be_value p ≡ 0 → Negated p r → be_value r.0 ≡ 0
all_carried p (s, zero) e d =
    absurd (omega (arith, d.total, be_value-lt s d.are_bytes, ap power d.same_length))
all_carried p (s, suc zero) e d = omega (arith, d.total)
all_carried p (s, suc (suc c)) e d = absurd (omega (arith, d.carry_small))

trim_zeros-same_length :
    (s p : List ℕ) → length s ≡ length p → 1 ≤ length p → be_value s ≡ 0 → trim_zeros s ≡ 0 ∷ []
trim_zeros-same_length [] p l h e = absurd (omega arith)
trim_zeros-same_length (b ∷ bs) p l h e = trim_zeros-zero b bs e

-- The carry out of the first byte is lost: n zeros, which stand for 256 ^ n, become 0.
pub trim_zeros-negate_zero :
    (p : List ℕ) → IsBytes p → 1 ≤ length p → be_value p ≡ 0 → trim_zeros (negate_bytes p) ≡ 0 ∷ []
unfolding negate_bytes
trim_zeros-negate_zero p h l e =
    let d = negate_loop-Negated p h in
    trim_zeros-same_length (negate_loop p).0 p d.same_length l (all_carried p (negate_loop p) e d)
