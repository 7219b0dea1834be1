-- ===== src/Encode/Ints/Payload.antt =====
-- The byte loops of `append_magnitude` against the numbers that the lists stand for.
use struple.Prelude.{
  ℕ, zero, suc, ◌+◌, ◌*◌, ◌%◌, ◌≤◌, ◌<◌, ◌≡◌, refl, sym, ap, ◌∙◌, arith, List, [], ◌∷◌, ◌++◌,
  length, Bool, ==_false, true, false, Bool-cases, inl, inr, ◌==◌, if◌then◌else◌, append_assoc,
  append-nil,
}
use struple.Bytes.{IsBytes, flip, flip_all}
use struple.Bytes.BigEndian.{
  be_value, be_value-cons, be_value-lt, be_from, power, power-suc, mul-le, IsNormal, power_mono,
}
use struple.Writer.{Writer, sw_push}
use struple.Writer.Contents.{bytes-sw_push}
use struple.Encode.Ints.{borrow, sub_one_loop, sub_one, trim_zeros, push_all}

abbrev borrowed : Bool → ℕ → ℕ
borrowed going n = if going then power n else 0

-- What the loop keeps: the length, bytes, and the number less one, modulo 256 ^ n.
record Decremented (bs : List ℕ) (r : List ℕ × Bool) : Type 0 where
  same_length : length r.0 ≡ length bs
  are_bytes : IsBytes r.0
  less_one : be_value r.0 + 1 ≡ be_value bs + borrowed r.1 (length bs)

Decremented-borrow :
    (b : ℕ) (bs : List ℕ) (r : List ℕ × Bool)
    → b < 256
    → Decremented bs r
    → Decremented (b ∷ bs) (borrow b r)
Decremented-borrow b bs (s, false) hb d = record {
  same_length = omega (arith, d.same_length);
  are_bytes = (hb, d.are_bytes);
  less_one = omega (
    arith,
    be_value-cons b s,
    be_value-cons b bs,
    d.less_one,
    ap (λ (t : ℕ). b * power t) d.same_length,
  );
}
Decremented-borrow zero bs (s, true) hb d = record {
  same_length = omega (arith, d.same_length);
  are_bytes = (omega arith, d.are_bytes);
  less_one = omega (
    arith,
    be_value-cons 255 s,
    be_value-cons 0 bs,
    d.less_one,
    ap power d.same_length,
    power-suc (length bs),
  );
}
Decremented-borrow (suc b) bs (s, true) hb d =
    let e : (suc b + 255) % 256 ≡ b = omega arith in
    rw (e, ==_false (suc b) 0 (omega arith))
      (record {
        same_length = omega (arith, d.same_length);
        are_bytes = (omega arith, d.are_bytes);
        less_one = omega (
          arith,
          be_value-cons b s,
          be_value-cons (suc b) bs,
          d.less_one,
          ap (λ (t : ℕ). b * power t) d.same_length,
          power-suc (length bs),
        );
      })

sub_one_loop-Decremented : (p : List ℕ) → IsBytes p → Decremented p (sub_one_loop p)
unfolding sub_one_loop
sub_one_loop-Decremented [] h =
    unfold be_from in record { same_length = refl; are_bytes = tt; less_one = refl }
sub_one_loop-Decremented (b ∷ bs) (hb, h) =
    Decremented-borrow b bs (sub_one_loop bs) hb (sub_one_loop-Decremented bs h)

-- Decrementing a number that is not 0 does not borrow past the first byte.
sub_one-of_loop :
    (p : List ℕ) (r : List ℕ × Bool)
    → 0 < be_value p
    → Decremented p r
    → be_value r.0 + 1 ≡ be_value p
sub_one-of_loop p (s, false) h d = omega (arith, d.less_one)
sub_one-of_loop p (s, true) h d =
    absurd (omega (arith, d.less_one, be_value-lt s d.are_bytes, ap power d.same_length))

module _ (p : List ℕ) (h : IsBytes p) where
  pub sub_one-IsBytes : IsBytes (sub_one p)
  unfolding sub_one
  sub_one-IsBytes = (sub_one_loop-Decremented p h).are_bytes

  pub length-sub_one : length (sub_one p) ≡ length p
  unfolding sub_one
  length-sub_one = (sub_one_loop-Decremented p h).same_length

  pub be_value-sub_one : 0 < be_value p → be_value (sub_one p) + 1 ≡ be_value p
  unfolding sub_one
  be_value-sub_one pos = sub_one-of_loop p (sub_one_loop p) pos (sub_one_loop-Decremented p h)

be_value_leading_zero : (bs : List ℕ) → be_value (0 ∷ bs) ≡ be_value bs
be_value_leading_zero bs = omega (arith, be_value-cons 0 bs)

pub be_value-trim_zeros : (p : List ℕ) → be_value (trim_zeros p) ≡ be_value p
unfolding trim_zeros
be_value-trim_zeros [] = refl
be_value-trim_zeros (b ∷ []) = refl
be_value-trim_zeros (zero ∷ c ∷ bs) =
    be_value-trim_zeros (c ∷ bs) ∙ sym (be_value_leading_zero (c ∷ bs))
be_value-trim_zeros (suc b ∷ c ∷ bs) = ap be_value (trimmed b c bs)
  where
    trimmed : (b c : ℕ) (bs : List ℕ) → trim_zeros (suc b ∷ c ∷ bs) ≡ suc b ∷ c ∷ bs
    trimmed b c bs = ground arith

pub trim_zeros-IsBytes : (p : List ℕ) → IsBytes p → IsBytes (trim_zeros p)
unfolding trim_zeros
trim_zeros-IsBytes [] h = h
trim_zeros-IsBytes (b ∷ []) h = h
trim_zeros-IsBytes (b ∷ c ∷ bs) (hb, h) = elim (Bool-cases (b == 0)) [
  | inl e ↦ rw e (trim_zeros-IsBytes (c ∷ bs) h)
  | inr e ↦ rw e (hb, h)
]

pub length-trim_zeros-le : (p : List ℕ) → length (trim_zeros p) ≤ length p
unfolding trim_zeros
length-trim_zeros-le [] = omega arith
length-trim_zeros-le (b ∷ []) = omega arith
length-trim_zeros-le (b ∷ c ∷ bs) = elim (Bool-cases (b == 0)) [
  | inl e ↦ rw e (omega (arith, length-trim_zeros-le (c ∷ bs)))
  | inr e ↦ rw e (omega arith)
]

-- A byte list that is not all zeros is trimmed to a magnitude without a leading zero.
pub trim_zeros-IsNormal : (p : List ℕ) → IsBytes p → 0 < be_value p → IsNormal (trim_zeros p)
unfolding trim_zeros
trim_zeros-IsNormal [] h pos = unfold be_from in absurd (omega arith)
trim_zeros-IsNormal (zero ∷ []) h pos = unfold be_from in absurd (omega arith)
trim_zeros-IsNormal (suc b ∷ []) h pos = (omega arith, h.0, tt)
trim_zeros-IsNormal (zero ∷ c ∷ bs) (hb, h) pos =
    trim_zeros-IsNormal (c ∷ bs) h (omega (arith, be_value_leading_zero (c ∷ bs)))
trim_zeros-IsNormal (suc b ∷ c ∷ bs) (hb, h) pos =
    rw (==_false (suc b) 0 (omega arith)) (omega arith, hb, h)

pub bytes-push_all :
    (negative : Bool) (p : List ℕ) (w : Writer)
    → (push_all negative p w).bytes ≡ w.bytes ++ (if negative then flip_all p else p)
unfolding push_all
bytes-push_all true [] w = sym (append-nil w.bytes)
bytes-push_all false [] w = sym (append-nil w.bytes)
bytes-push_all true (b ∷ bs) w =
    bytes-push_all true bs (sw_push w (flip b))
    ∙ rw bytes-sw_push (append_assoc w.bytes (flip b ∷ []) (flip_all bs))
bytes-push_all false (b ∷ bs) w =
    bytes-push_all false bs (sw_push w b) ∙ rw bytes-sw_push (append_assoc w.bytes (b ∷ []) bs)

-- What is trimmed to a single 0 stands for 0.
pub trim_zeros-zero : (b : ℕ) (bs : List ℕ) → be_value (b ∷ bs) ≡ 0 → trim_zeros (b ∷ bs) ≡ 0 ∷ []
unfolding trim_zeros
trim_zeros-zero zero [] e = refl
trim_zeros-zero zero (c ∷ bs) e = trim_zeros-zero c bs (sym (be_value_leading_zero (c ∷ bs)) ∙ e)
trim_zeros-zero (suc b) bs e = absurd (
    omega (
      arith,
      be_value-cons (suc b) bs,
      mul-le 1 (suc b) (power (length bs)),
      power_mono 0 (length bs) (omega arith),
    ))
