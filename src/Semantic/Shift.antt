-- ===== src/Semantic/Shift.antt =====
-- `sem_shl` multiplies by a power of two, and `sem_mag_scaled` compares exactly.
use native.Mathlib.Nat.{two-pow-succ}
use struple.Prelude.{
  ℕ, zero, suc, ◌+◌, ◌*◌, ◌/◌, ◌%◌, ◌^◌, ◌<◌, ◌≡◌, refl, sym, ap, ◌∙◌, arith, List, [], ◌∷◌, ◌++◌,
  length, All-append,
}
use struple.Prelude.Bits.{bit_or_disjoint}
use struple.Prelude.Int.{ℤ, pos, negsuc}
use struple.Codes.{u64_mod}
use struple.Bytes.{IsByte, IsBytes}
use struple.Bytes.BigEndian.{be_value, be_from, be_value-cons, be_from-append, power, power-suc}
use struple.Bytes.Words.{word_bytes-IsBytes, be_value-word_bytes}
use struple.Semantic.{shl_loop, sem_shl, zeros, sem_mag_scaled, mantissa_bytes}
use struple.Semantic.Magnitudes.{two_power, two_power_pos, scaled, sem_cmp_mag-be_value}

-- One byte more in front of what was shifted.
column : (b k p v c w : ℕ) → v * k ≡ c * p + w → (b * p + v) * k ≡ (b * k + c) * p + w
column b k p v c w h = grind arith

below : (b k c : ℕ) → b < 256 → c < k → b * k + c < 256 * k
below b k c hb hc = grind arith

pub split_byte : (u p w : ℕ) → u * p + w ≡ u / 256 * (256 * p) + (u % 256 * p + w)
split_byte u p w = parts u (u / 256) (u % 256) p w (omega arith)
  where
    parts : (u d m p w : ℕ) → u ≡ d * 256 + m → u * p + w ≡ d * (256 * p) + (m * p + w)
    parts u d m p w e = rw e (spread d m p w)
      where
        spread : (d m p w : ℕ) → (d * 256 + m) * p + w ≡ d * (256 * p) + (m * p + w)
        spread d m p w = grind arith

-- What the loop over `p` with a shift of `k` gives.
record IsShifted (k : ℕ) (p : List ℕ) (r : ℕ × List ℕ) : Type 0 where
  pub value : be_value p * 2 ^ k ≡ r.0 * power (length p) + be_value r.1
  pub same_length : length r.1 ≡ length p
  pub bytes : IsBytes r.1
  pub carry : r.0 < 2 ^ k

shl_loop-IsShifted : (k : ℕ) (p : List ℕ) → k < 8 → IsBytes p → IsShifted k p (shl_loop k p)
unfolding shl_loop
shl_loop-IsShifted k [] small h =
    unfold be_from in
    record { value = omega arith; same_length = refl; bytes = tt; carry = two_power_pos k }
shl_loop-IsShifted k (b ∷ bs) small (hb, h) =
    let s = shl_loop-IsShifted k bs small h in
    let c : ℕ = (shl_loop k bs).0 in
    let out : List ℕ = (shl_loop k bs).1 in
    let u : ℕ = b * 2 ^ k + c in
    rw (bit_or_disjoint k b (b * 2 ^ k) c refl s.carry) (record {
      value =
          ap (λ (v : ℕ). v * 2 ^ k) (be_value-cons b bs)
          ∙ column b (2 ^ k) (power (length bs)) (be_value bs) c (be_value out) s.value
          ∙ split_byte u (power (length bs)) (be_value out)
          ∙ rw (power-suc, be_value-cons, s.same_length) refl;
      same_length = ap suc s.same_length;
      bytes = (omega arith, s.bytes);
      carry = omega (arith, below b (2 ^ k) c hb s.carry);
    })

zeros-IsBytes : (n : ℕ) → IsBytes (zeros n)
zeros-IsBytes zero = tt
zeros-IsBytes (suc n) = (omega arith, zeros-IsBytes n)

be_from-zeros : (a n : ℕ) → be_from a (zeros n) ≡ a * power n
unfolding be_from
be_from-zeros a zero = omega arith
be_from-zeros a (suc n) =
    be_from-zeros (a * 256 + 0) n ∙ shifted a (power n) ∙ ap (λ (t : ℕ). a * t) (sym (power-suc n))
  where
    shifted : (a p : ℕ) → (a * 256 + 0) * p ≡ a * (256 * p)
    shifted a p = grind arith

-- 2 ^ bits, by whole bytes and the bits that are left
two_power-bytes : (r q : ℕ) → 2 ^ (r + 8 * q) ≡ 2 ^ r * power q
two_power-bytes r zero = omega (arith, ap (λ (t : ℕ). 2 ^ t) (rest r))
  where
    rest : (r : ℕ) → r + 8 * 0 ≡ r
    rest r = omega arith
two_power-bytes r (suc q) =
    ap (λ (t : ℕ). 2 ^ t) (more r q)
    ∙ eight (r + 8 * q)
    ∙ rw (two_power-bytes r q, power-suc q) (turn (2 ^ r) (power q))
  where
    more : (r q : ℕ) → r + 8 * suc q ≡ suc (suc (suc (suc (suc (suc (suc (suc (r + 8 * q))))))))
    more r q = omega arith

    eight : (n : ℕ) → 2 ^ (suc (suc (suc (suc (suc (suc (suc (suc n)))))))) ≡ 256 * 2 ^ n
    eight n = omega (
      arith,
      two-pow-succ n,
      two-pow-succ (suc n),
      two-pow-succ (suc (suc n)),
      two-pow-succ (suc (suc (suc n))),
      two-pow-succ (suc (suc (suc (suc n)))),
      two-pow-succ (suc (suc (suc (suc (suc n))))),
      two-pow-succ (suc (suc (suc (suc (suc (suc n)))))),
      two-pow-succ (suc (suc (suc (suc (suc (suc (suc n))))))),
    )

    turn : (a b : ℕ) → 256 * (a * b) ≡ a * (256 * b)
    turn a b = grind arith

be_value-zeros : (p : List ℕ) (n : ℕ) → be_value (p ++ zeros n) ≡ be_value p * power n
be_value-zeros p n = be_from-append 0 p (zeros n) ∙ be_from-zeros (be_value p) n

-- sem_shl of bytes gives bytes, and multiplies their number by 2 ^ bits, for any count of bits.
pub be_value-sem_shl :
    (src : List ℕ) (bits : ℕ)
    → IsBytes src
    → (be_value (sem_shl src bits) ≡ be_value src * 2 ^ bits) × IsBytes (sem_shl src bits)
unfolding sem_shl
be_value-sem_shl src bits h =
    let s = shl_loop-IsShifted (bits % 8) src (omega arith) h in
    let c : ℕ = (shl_loop (bits % 8) src).0 in
    let out : List ℕ = (shl_loop (bits % 8) src).1 in
    let a_byte : c < 256 = omega (arith, s.carry, two_power (bits % 8) 7 (omega arith)) in
    let whole : c % 256 ≡ c = omega arith in
    let count : bits % 8 + 8 * (bits / 8) ≡ bits = omega arith in
    rw whole (
      be_value-zeros (c ∷ out) (bits / 8)
          ∙ ap (λ (v : ℕ). v * power (bits / 8))
              (be_value-cons c out ∙ rw s.same_length (sym s.value))
          ∙ regroup (be_value src) (2 ^ (bits % 8)) (power (bits / 8))
          ∙ ap (λ (v : ℕ). be_value src * v)
              (sym (two_power-bytes (bits % 8) (bits / 8)) ∙ ap (λ (t : ℕ). 2 ^ t) count),
      (a_byte, All-append IsByte out (zeros (bits / 8)) s.bytes (zeros-IsBytes (bits / 8))),
    )
  where
    regroup : (a b c : ℕ) → a * b * c ≡ a * (b * c)
    regroup a b c = grind arith

-- For a magnitude of bytes and a mantissa below 2 ^ 64, sem_mag_scaled is the exact order of the
-- number of the magnitude against mant * 2 ^ exp, for a negative exponent with both sides multiplied
-- by its power of two.
pub sem_mag_scaled-exact :
    (mag : List ℕ) (mant : ℕ) (exp : ℤ)
    → IsBytes mag
    → mant < u64_mod
    → sem_mag_scaled mag mant exp ≡ scaled (be_value mag) mant exp
unfolding sem_mag_scaled
sem_mag_scaled-exact mag mant (pos e) h hm =
    let (value, are_bytes) = be_value-sem_shl (mantissa_bytes mant) e (word_bytes-IsBytes 8 mant) in
    rw
      (
        sem_cmp_mag-be_value mag (sem_shl (mantissa_bytes mant) e) h are_bytes,
        value,
        be_value-word_bytes 8 mant hm,
      )
      refl
sem_mag_scaled-exact mag mant (negsuc k) h hm =
    let (value, are_bytes) = be_value-sem_shl mag (suc k) h in
    rw
      (
        sem_cmp_mag-be_value (sem_shl mag (suc k)) (mantissa_bytes mant) are_bytes
            (word_bytes-IsBytes 8 mant),
        value,
        be_value-word_bytes 8 mant hm,
      )
      refl
