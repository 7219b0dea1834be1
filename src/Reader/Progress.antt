-- ===== src/Reader/Progress.antt =====
-- How reads move the position: never backwards, and never past the end of the buffer.
use struple.Prelude.{
  ℕ, ◌+◌, ◌≤◌, ◌<◌, ◌≡◌, refl, ap, arith, List, [], ◌∷◌, length, length-drop, drop, get_or, Option,
  none, some, Bool, true, false, ◌==◌, ◌||◌, if◌then◌else◌, Bool-cases, inl, inr,
}
use struple.Prelude.Int.{pos, ◌-ℤ◌}
use struple.Codes.{
  nil_code, undef_code, bool_false, bool_true, int_neg_big, int_pos_big, float32, float64,
  decimal_code, timestamp_code, uuid_code, is_fixed_neg, is_fixed_pos, int_zero, dec_sign_zero,
  dec_sign_neg, dec_sign_pos,
}
use struple.Encode.Ints.{flip_if}
use struple.Framing.{scan_framed, cons_framed}
use struple.Reader.{
  Element, nil, undef, bool, int, uuid, decimal, Reader, Read, ◌>>=◌, then_read, lift, take_bytes,
  advance,
}
use struple.Reader.Ints.{read_fixed_int, read_big_int}
use struple.Reader.Decimals.{
  read_exponent_payload, read_dec_exponent, unpack, scan_until, cons_digits, region, take_region,
  read_decimal_digits, read_decimal,
}
use struple.Reader.Next.{
  item, outcome, read_f32, read_f64, read_timestamp, take_framed, framed_region, read_framed,
  read_payload, next_from, reader_next, is_framed,
}

-- `r'` stands at `r` or behind it in the same buffer.
pub record Behind (r r' : Reader) : Type 0 where
  pub whole : r'.pos + length r'.rest ≡ r.pos + length r.rest
  pub onward : r.pos ≤ r'.pos

pub record Keeps {ℓ} {A : Type ℓ} (m : Read A) : Type ℓ where
  pub at : (r : Reader) → Behind r (m r).1

Behind-refl : (r : Reader) → Behind r r
Behind-refl r = omega arith

pub lift-Keeps {ℓ} : {A : Type ℓ} (o : Option A) → Keeps (lift o)
lift-Keeps o = record { at = Behind-refl }

Behind-trans : {r s t : Reader} → Behind r s → Behind s t → Behind r t
Behind-trans h k = omega arith

pub bind-Keeps {ℓ κ} :
    {A : Type ℓ} {B : Type κ} (m : Read A) (f : A → Read B)
    → Keeps m
    → ((a : A) → Keeps (f a))
    → Keeps (m >>= f)
bind-Keeps {A} m f hm hf = record { at = λ r. go r (m r) (hm.at r) }
  where
    go : (r : Reader) (q : Option A × Reader) → Behind r q.1 → Behind r (then_read q f).1
    go r (none, r') h = h
    go r (some a, r') h = Behind-trans h ((hf a).at r')

pub take_bytes-Keeps : (n : ℕ) → Keeps (take_bytes n)
unfolding take_bytes
take_bytes-Keeps n = record { at = λ r. ground (arith, length-drop n r.rest) }

pub if-Keeps {ℓ} :
    {A : Type ℓ} (b : Bool) (m n : Read A) → Keeps m → Keeps n → Keeps (if b then m else n)
if-Keeps true m n hm hn = hm
if-Keeps false m n hm hn = hn

-- A scan splits its input at the terminator.
abbrev SplitsAt : List ℕ → Option (List ℕ × List ℕ) → Type 0
SplitsAt bs none = Unit
SplitsAt bs (some (front, rest)) = length front + 1 + length rest ≡ length bs

cons_digits-SplitsAt :
    (b : ℕ) (bs : List ℕ) (o : Option (List ℕ × List ℕ))
    → SplitsAt bs o
    → SplitsAt (b ∷ bs) (cons_digits b o)
cons_digits-SplitsAt b bs none h = tt
cons_digits-SplitsAt b bs (some (front, rest)) h = omega arith

scan_until-SplitsAt : (term : ℕ) (bs : List ℕ) → SplitsAt bs (scan_until term bs)
unfolding scan_until
scan_until-SplitsAt term [] = tt
scan_until-SplitsAt term (b ∷ bs) = elim (Bool-cases (b == term)) [
  | inl e ↦ rw e (omega arith)
  | inr e ↦ rw e (cons_digits-SplitsAt b bs (scan_until term bs) (scan_until-SplitsAt term bs))
]

cons_framed-SplitsAt :
    (b : ℕ) (bs : List ℕ) (o : Option (List ℕ × List ℕ))
    → SplitsAt bs o
    → SplitsAt (b ∷ bs) (cons_framed b o)
cons_framed-SplitsAt b bs none h = tt
cons_framed-SplitsAt b bs (some (front, rest)) h = omega arith

scan_framed-SplitsAt : (bs : List ℕ) → SplitsAt bs (scan_framed bs)
unfolding scan_framed
scan_framed-SplitsAt [] = tt
scan_framed-SplitsAt (b ∷ []) = elim (Bool-cases (b == 0)) [
  | inl e ↦ rw e (omega arith)
  | inr e ↦ rw e tt
]
scan_framed-SplitsAt (b ∷ c ∷ bs) =
    let inner = cons_framed-SplitsAt c bs (scan_framed bs) (scan_framed-SplitsAt bs) in
    let escaped = cons_framed-SplitsAt b (c ∷ bs) (cons_framed c (scan_framed bs)) inner in
    let plain =
      cons_framed-SplitsAt b (c ∷ bs) (scan_framed (c ∷ bs)) (scan_framed-SplitsAt (c ∷ bs)) in
    elim (Bool-cases (b == 0)) [
      | inl e ↦ elim (Bool-cases (c == 0xff)) [
        | inl f ↦ rw (e, f) escaped
        | inr f ↦ rw (e, f) (omega arith)
      ]
      | inr e ↦ rw e plain
    ]

take_region-Keeps : (term : ℕ) → Keeps (take_region term)
unfolding take_region
take_region-Keeps term = record {
  at = λ r. go r (scan_until term r.rest) (scan_until-SplitsAt term r.rest);
}
  where
    go : (r : Reader) (o : Option (List ℕ × List ℕ)) → SplitsAt r.rest o → Behind r (region r o).1
    go r none h = Behind-refl r
    go r (some ([], rest)) h = Behind-refl r
    go r (some (b ∷ bs, rest)) h = omega arith

take_framed-Keeps : Keeps take_framed
unfolding take_framed
take_framed-Keeps = record { at = λ r. go r (scan_framed r.rest) (scan_framed-SplitsAt r.rest) }
  where
    go :
        (r : Reader) (o : Option (List ℕ × List ℕ))
        → SplitsAt r.rest o
        → Behind r (framed_region r o).1
    go r none h = Behind-refl r
    go r (some (front, rest)) h = omega arith

read_fixed_int-Keeps : (t : ℕ) → Keeps (read_fixed_int t)
unfolding read_fixed_int
read_fixed_int-Keeps t = bind-Keeps _ _ (take_bytes-Keeps _) (λ p. lift-Keeps _)

read_big_int-Keeps : (t : ℕ) → Keeps (read_big_int t)
unfolding read_big_int
read_big_int-Keeps t = bind-Keeps _ _ (take_bytes-Keeps 1) (λ p. bind-Keeps _ _ (lift-Keeps _) (λ m.
    bind-Keeps _ _ (take_bytes-Keeps m)
      (λ nb. bind-Keeps _ _ (take_bytes-Keeps _) (λ mag. lift-Keeps _))))

read_f64-Keeps : Keeps read_f64
unfolding read_f64
read_f64-Keeps = bind-Keeps _ _ (take_bytes-Keeps 8) (λ p. lift-Keeps _)

read_f32-Keeps : Keeps read_f32
unfolding read_f32
read_f32-Keeps = bind-Keeps _ _ (take_bytes-Keeps 4) (λ p. lift-Keeps _)

read_timestamp-Keeps : Keeps read_timestamp
unfolding read_timestamp
read_timestamp-Keeps = bind-Keeps _ _ (take_bytes-Keeps 8) (λ p. lift-Keeps _)

read_framed-Keeps : (t : ℕ) → Keeps (read_framed t)
unfolding read_framed
read_framed-Keeps t = bind-Keeps _ _ take_framed-Keeps (λ p. lift-Keeps _)

read_exponent_payload-Keeps :
    (complement : Bool) (t : ℕ) → Keeps (read_exponent_payload complement t)
unfolding read_exponent_payload
read_exponent_payload-Keeps complement t =
    bind-Keeps _ _ (lift-Keeps _) (λ c. bind-Keeps _ _ (take_bytes-Keeps _) (λ raw. lift-Keeps _))

read_dec_exponent-Keeps : (complement : Bool) → Keeps (read_dec_exponent complement)
unfolding read_dec_exponent
read_dec_exponent-Keeps complement = bind-Keeps _ _ (take_bytes-Keeps 1) (λ p.
    if-Keeps (flip_if complement (get_or p 0 0) == int_zero) (lift (some (pos 0)))
      (read_exponent_payload complement (flip_if complement (get_or p 0 0))) (lift-Keeps _)
      (read_exponent_payload-Keeps complement _))

read_decimal_digits-Keeps : (negative : Bool) → Keeps (read_decimal_digits negative)
unfolding read_decimal_digits
read_decimal_digits-Keeps negative = bind-Keeps _ _ (read_dec_exponent-Keeps negative) (λ e.
    bind-Keeps _ _ (take_region-Keeps _) (λ packed.
      bind-Keeps (lift (unpack negative packed)) _ (lift-Keeps (unpack negative packed))
        (λ digs. lift-Keeps (some (decimal negative (e -ℤ pos (length digs)) digs)))))

read_decimal-Keeps : Keeps read_decimal
unfolding read_decimal
read_decimal-Keeps = bind-Keeps _ _ (take_bytes-Keeps 1) (λ p.
    if-Keeps (get_or p 0 0 == dec_sign_zero) (lift (some (decimal false (pos 0) []))) _
      (lift-Keeps _)
      (if-Keeps (get_or p 0 0 == dec_sign_neg || get_or p 0 0 == dec_sign_pos)
        (read_decimal_digits (get_or p 0 0 == dec_sign_neg)) (lift none)
        (read_decimal_digits-Keeps _) (lift-Keeps _)))

read_payload-Keeps : (t : ℕ) → Keeps (read_payload t)
unfolding read_payload
read_payload-Keeps t = if-Keeps (t == nil_code) (lift (some nil)) _ (lift-Keeps _) (
    if-Keeps (t == undef_code) (lift (some undef)) _ (lift-Keeps _) (
      if-Keeps (t == bool_false) (lift (some (bool false))) _ (lift-Keeps _) (
        if-Keeps (t == bool_true) (lift (some (bool true))) _ (lift-Keeps _) (
          if-Keeps (t == int_zero) (lift (some (int (pos 0)))) _ (lift-Keeps _) (
            if-Keeps (t == int_neg_big || t == int_pos_big) (read_big_int t) _
              (read_big_int-Keeps t)
              (if-Keeps (t == float32) read_f32 _ (read_f32-Keeps) (
                if-Keeps (t == float64) read_f64 _ (read_f64-Keeps) (
                  if-Keeps (t == decimal_code) read_decimal _ (read_decimal-Keeps) (
                    if-Keeps (t == timestamp_code) read_timestamp _ (read_timestamp-Keeps) (
                      if-Keeps (t == uuid_code) (take_bytes 16 >>= λ p. lift (some (uuid p))) _
                        (bind-Keeps _ _ (take_bytes-Keeps 16) (λ p. lift-Keeps (some (uuid p))))
                        (if-Keeps (is_framed t) (read_framed t) _ (read_framed-Keeps t) (
                          if-Keeps (is_fixed_neg t || is_fixed_pos t) (read_fixed_int t) _
                            (read_fixed_int-Keeps t) (lift-Keeps none)))))))))))))

by_outcome : (q : Option Element × Reader) → (outcome q).1 ≡ q.1
by_outcome (none, r) = refl
by_outcome (some a, r) = refl

one : (r : Reader) (t : ℕ) (ts : List ℕ) → r.rest ≡ t ∷ ts → Behind r (advance 1 r)
one r t ts e = rw e (omega arith)

-- On any bytes, malformed ones included, reader_next does not move the position back, and position and
-- bytes left still add up to the same end: it never goes past the end of the buffer.
pub reader_next-Behind : (r : Reader) → Behind r (reader_next r).1
unfolding reader_next
reader_next-Behind r = go r r.rest refl
  where
    go : (r : Reader) (bs : List ℕ) → r.rest ≡ bs → Behind r (next_from bs r).1
    go r [] e = Behind-refl r
    go r (t ∷ ts) e =
        let h = (read_payload-Keeps t).at (advance 1 r) in
        rw (by_outcome (read_payload t (advance 1 r))) (Behind-trans (one r t ts e) h)

-- An element takes a byte at least.
pub reader_next_progress :
    (r : Reader) (e : Element)
    → (reader_next r).0 ≡ item e
    → length (reader_next r).1.rest < length r.rest
unfolding reader_next
reader_next_progress r e h = strict r r.rest refl h
  where
    strict :
        (r : Reader) (bs : List ℕ)
        → r.rest ≡ bs
        → (next_from bs r).0 ≡ item e
        → length (next_from bs r).1.rest < length bs
    strict r [] eq h = cc h
    strict r (t ∷ ts) eq h =
        let b = (read_payload-Keeps t).at (advance 1 r) in
        let size : length (drop 1 r.rest) ≡ length ts = ap (λ (p : List ℕ). length (drop 1 p)) eq in
        rw (by_outcome (read_payload t (advance 1 r))) (omega (arith, b.whole, b.onward, size))
