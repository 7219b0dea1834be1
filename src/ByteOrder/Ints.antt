-- ===== src/ByteOrder/Ints.antt =====
-- Integers in slots of a fixed width: byte order of their encodings. The code of a slot grows with its
-- width above 0 and falls with it below 0, where the payload is complemented.
use struple.Prelude.{
  ℕ, ◌+◌, ◌-◌, ◌≤◌, ◌<◌, ◌≡◌, refl, sym, ap, ◌∙◌, arith, List, [], ◌∷◌, length, Ordering, ◌⊎◌, inl,
  inr, three_ways,
}
use struple.Prelude.Int.{ℤ, pos, negsuc}
use struple.Codes.{int_zero}
use struple.Bytes.{IsBytes, flip_all}
use struple.Bytes.BigEndian.{be_value, IsNormal, length-le_IsNormal, power}
use struple.Bytes.Negation.{length-flip_all, flip_all-IsBytes, be_value-flip_all}
use struple.Compare.{compare_bytes, order_of}
use struple.Compare.Order.{
  compare_bytes-cons, compare_bytes-be_value, compare_bytes-heads, order_of-lt, order_of-gt,
}
use struple.Writer.{writer_init}
use struple.Encode.Ints.{append_int}
use struple.Encode.Ints.Stripped.{IsStripped}
use struple.RoundTrip.Magnitudes.{IsInt64}
use struple.Semantic.{sem_icmp}
use struple.Semantic.Magnitudes.{IsStripped-IsBytes}
use struple.RoundTrip.Slots.{IsLower, IsSlot, append_int-IsSlot}

below_normal :
    (p q : List ℕ) → IsBytes p → IsNormal q → length p < length q → be_value p < be_value q
below_normal p q hp hq l = elim (three_ways (be_value p) (be_value q)) [
  | inl less ↦ less
  | inr (inl e) ↦ absurd (omega (arith, length-le_IsNormal q p hq hp (omega (arith, e))))
  | inr (inr more) ↦ absurd (omega (arith, length-le_IsNormal q p hq hp (omega (arith, more))))
]

below_stripped :
    (p q : List ℕ) → IsStripped p → IsStripped q → length p < length q → be_value p < be_value q
below_stripped p [] hp hq l = absurd (omega arith)
below_stripped p (b ∷ bs) hp hq l = below_normal p (b ∷ bs) (IsStripped-IsBytes p hp) hq l

below_shape :
    (p q : List ℕ)
    → IsBytes p
    → 1 ≤ length p
    → (q ≡ 0 ∷ []) ⊎ IsNormal q
    → length p < length q
    → be_value p < be_value q
below_shape p q hp some (inl e) l = absurd (omega (arith, ap length e))
below_shape p q hp some (inr hq) l = below_normal p q hp hq l

icmp_upper : (m n : ℕ) → sem_icmp (pos m) (pos n) ≡ order_of m n
unfolding sem_icmp
icmp_upper m n = ground arith

icmp_lower : (m n : ℕ) → sem_icmp (negsuc m) (negsuc n) ≡ order_of n m
unfolding sem_icmp
icmp_lower m n = ground arith

icmp_down : (m n : ℕ) → sem_icmp (pos m) (negsuc n) ≡ Ordering.gt
unfolding sem_icmp
icmp_down m n = ground arith

icmp_up : (m n : ℕ) → sem_icmp (negsuc m) (pos n) ≡ Ordering.lt
unfolding sem_icmp
icmp_up m n = ground arith

complement_order : (x y m n w : ℕ) → x + m + 1 ≡ w → y + n + 1 ≡ w → order_of x y ≡ order_of n m
complement_order x y m n w hx hy = ground arith

-- Two payloads of one length behind one code
same_width :
    (c : ℕ) (p q : List ℕ)
    → IsBytes p
    → IsBytes q
    → length p ≡ length q
    → compare_bytes (c ∷ p) (c ∷ q) ≡ order_of (be_value p) (be_value q)
same_width c p q hp hq l = compare_bytes-cons c p q ∙ compare_bytes-be_value p q hp hq l

upper_payloads :
    (p q : List ℕ)
    → IsStripped p
    → IsStripped q
    → compare_bytes ((int_zero + length p) ∷ p) ((int_zero + length q) ∷ q)
      ≡ order_of (be_value p) (be_value q)
upper_payloads p q hp hq = elim (three_ways (length p) (length q)) [
  | inl less ↦
      (compare_bytes-heads (int_zero + length p) (int_zero + length q) p q).0 (omega arith)
      ∙ sym (order_of-lt (be_value p) (be_value q) (below_stripped p q hp hq less))
  | inr (inl e) ↦
      ap (λ (n : ℕ). compare_bytes ((int_zero + n) ∷ p) ((int_zero + length q) ∷ q)) e
      ∙ same_width (int_zero + length q) p q (IsStripped-IsBytes p hp) (IsStripped-IsBytes q hq) e
  | inr (inr more) ↦
      (compare_bytes-heads (int_zero + length p) (int_zero + length q) p q).1 (omega arith)
      ∙ sym (order_of-gt (be_value p) (be_value q) (below_stripped q p hq hp more))
]

module _ (m n : ℕ) (bs cs : List ℕ) (x : IsLower m bs) (y : IsLower n cs) where
  abbrev p : List ℕ
  p = x.payload

  abbrev q : List ℕ
  q = y.payload

  lower_payloads :
      compare_bytes ((int_zero - length p) ∷ flip_all p) ((int_zero - length q) ∷ flip_all q)
      ≡ order_of (be_value q) (be_value p)
  lower_payloads =
      let px = x.at_most_16 in
      let qy = y.at_most_16 in
      elim (three_ways (length p) (length q)) [
        | inl less ↦
            (compare_bytes-heads (int_zero - length p) (int_zero - length q) (flip_all p)
                (flip_all q)).1
              (omega arith)
            ∙ sym (
                order_of-gt (be_value q) (be_value p)
                  (below_shape p q x.are_bytes x.some_byte y.shape less))
        | inr (inl e) ↦
            ap
              (λ (k : ℕ).
                compare_bytes ((int_zero - k) ∷ flip_all p) ((int_zero - length q) ∷ flip_all q))
              e
            ∙ same_width (int_zero - length q) (flip_all p) (flip_all q) (flip_all-IsBytes p)
                (flip_all-IsBytes q) (length-flip_all p ∙ e ∙ sym (length-flip_all q))
            ∙ complement_order (be_value (flip_all p)) (be_value (flip_all q)) (be_value p)
                (be_value q) (power (length q)) (be_value-flip_all p x.are_bytes ∙ ap power e)
                (be_value-flip_all q y.are_bytes)
        | inr (inr more) ↦
            (compare_bytes-heads (int_zero - length p) (int_zero - length q) (flip_all p)
                (flip_all q)).0
              (omega arith)
            ∙ sym (
                order_of-lt (be_value q) (be_value p)
                  (below_shape q p y.are_bytes y.some_byte x.shape more))
      ]

slots-sem_icmp :
    (a b : ℤ) (bs cs : List ℕ) → IsSlot a bs → IsSlot b cs → compare_bytes bs cs ≡ sem_icmp a b
slots-sem_icmp (pos m) (pos n) bs cs x y =
    rw (x.form, y.form, icmp_upper)
      (upper_payloads x.payload y.payload x.stripped y.stripped ∙ rw (x.value, y.value) refl)
slots-sem_icmp (negsuc m) (negsuc n) bs cs x y =
    rw (x.form, y.form, icmp_lower) (lower_payloads m n bs cs x y ∙ rw (x.value, y.value) refl)
slots-sem_icmp (pos m) (negsuc n) bs cs x y =
    rw (x.form, y.form, icmp_down)
      ((compare_bytes-heads (int_zero + length x.payload) (int_zero - length y.payload) x.payload
          (flip_all y.payload)).1
        (omega (arith, y.some_byte)))
slots-sem_icmp (negsuc m) (pos n) bs cs x y =
    rw (x.form, y.form, icmp_up)
      ((compare_bytes-heads (int_zero - length x.payload) (int_zero + length y.payload)
          (flip_all x.payload) y.payload).0
        (omega (arith, x.some_byte)))

-- For any two values of an int64_t, compare_bytes on what append_int writes for them is the order of
-- the values.
pub append_int-sem_icmp :
    (a b : ℤ)
    → IsInt64 a
    → IsInt64 b
    → compare_bytes (append_int writer_init a).bytes (append_int writer_init b).bytes ≡ sem_icmp a b
append_int-sem_icmp a b ha hb =
    slots-sem_icmp a b (append_int writer_init a).bytes (append_int writer_init b).bytes
      (append_int-IsSlot a ha) (append_int-IsSlot b hb)
