-- ===== src/Writer/Growth.antt =====
-- The capacity covers the contents.
use struple.Prelude.{
  ℕ, zero, suc, ◌+◌, ◌*◌, ◌%◌, ◌^◌, ◌≤◌, ◌<◌, ◌≡◌, refl, ap, arith, List, [], ◌∷◌, length,
  length-append, ltb, ltb→lt, ltb-false, Bool-cases, inl, inr, ◌==◌, if◌then◌else◌,
}
use native.Mathlib.Nat.{two-pow-succ}
use struple.Codes.{u64_mod}
use struple.Writer.{Writer, grow, sw_reserve, sw_push, sw_append}

pub record IsValid (w : Writer) : Type 0 where
  pub within : length w.bytes ≤ w.cap
  pub small : w.cap < u64_mod

-- With `f` rounds left a capacity that `f` doublings carry past `need` ends at or above it.
grow-covers :
    (f need cap : ℕ)
    → 0 < cap
    → cap < u64_mod
    → need ≤ 2 ^ 63
    → need ≤ cap * 2 ^ f
    → (need ≤ grow f need cap) × (grow f need cap < u64_mod)
unfolding grow
grow-covers zero need cap p s h e = omega arith
grow-covers (suc f) need cap p s h e = elim (Bool-cases (ltb cap need)) [
  | inl less ↦
      let small : cap < need = ltb→lt cap need less in
      let whole : cap * 2 % u64_mod ≡ cap * 2 = omega arith in
      rw (less, whole)
        (grow-covers f need (cap * 2) (omega arith) (omega arith) h
          (omega (arith, ap (λ (t : ℕ). cap * t) (two-pow-succ f))))
  | inr done ↦ let enough : need ≤ cap = ltb-false cap need done in rw done (omega arith)
]

start_cap :
    (cap : ℕ)
    → cap < u64_mod
    → (0 < (if cap == 0 then 64 else cap)) × ((if cap == 0 then 64 else cap) < u64_mod)
start_cap cap h = ground arith

module _ (w : Writer) (v : IsValid w) (extra : ℕ) (fits : length w.bytes + extra ≤ 2 ^ 63) where
  -- For a valid writer and a need of at most 2 ^ 63 bytes, sw_reserve ends with a capacity that holds
  -- the contents and the bytes asked for and does not wrap, and leaves the contents unchanged.
  pub sw_reserve_room :
      (length w.bytes + extra ≤ (sw_reserve w extra).cap)
      × ((sw_reserve w extra).cap < u64_mod)
      × ((sw_reserve w extra).bytes ≡ w.bytes)
  unfolding sw_reserve
  sw_reserve_room =
      let whole : (length w.bytes + extra) % u64_mod ≡ length w.bytes + extra = omega arith in
      rw whole (elim (Bool-cases (ltb w.cap (length w.bytes + extra))) [
        | inl full ↦
            let start : ℕ = if w.cap == 0 then 64 else w.cap in
            let (p, s) = start_cap w.cap v.small in
            let (a, b) =
              grow-covers 64 (length w.bytes + extra) start p s fits (omega (arith, p)) in
            rw full (a, b, refl)
        | inr room ↦ rw room (ltb-false _ _ room, v.small, refl)
      ])

-- Appending bytes to a valid writer, up to 2 ^ 63 bytes in all, leaves it valid: the contents are
-- within the capacity.
pub sw_append-IsValid :
    (w : Writer) (p : List ℕ)
    → IsValid w
    → length w.bytes + length p ≤ 2 ^ 63
    → IsValid (sw_append w p)
unfolding sw_append
sw_append-IsValid w p v fits =
    let (room, small, same) = sw_reserve_room w v (length p) fits in
    record { within = rw (same, length-append w.bytes p) room; small = small }

pub sw_push-IsValid :
    (w : Writer) (b : ℕ) → IsValid w → length w.bytes + 1 ≤ 2 ^ 63 → IsValid (sw_push w b)
unfolding sw_push
sw_push-IsValid w b v fits =
    let (room, small, same) = sw_reserve_room w v 1 fits in
    record { within = rw (same, length-append w.bytes (b ∷ [])) room; small = small }
