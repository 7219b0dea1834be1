-- ===== src/Writer/Contents.antt =====
-- What the writer's operations do to its contents, whatever its capacity.
use struple.Prelude.{◌≡◌, refl, ◌++◌, List, [], ◌∷◌, ℕ, ltb, ◌+◌, ◌%◌, length, Bool-cases, inl, inr}
use struple.Codes.{u64_mod}
use struple.Writer.{Writer, sw_reserve, sw_push, sw_append}

pub bytes-sw_reserve : (w : Writer) (n : ℕ) → (sw_reserve w n).bytes ≡ w.bytes
unfolding sw_reserve
bytes-sw_reserve w n = elim (Bool-cases (ltb w.cap ((length w.bytes + n) % u64_mod))) [
  | inl e ↦ rw e refl
  | inr e ↦ rw e refl
]

pub bytes-sw_push : (w : Writer) (b : ℕ) → (sw_push w b).bytes ≡ w.bytes ++ b ∷ []
unfolding sw_push
bytes-sw_push w b = rw (bytes-sw_reserve w 1) refl

pub bytes-sw_append : (w : Writer) (p : List ℕ) → (sw_append w p).bytes ≡ w.bytes ++ p
unfolding sw_append
bytes-sw_append w p = rw (bytes-sw_reserve w (length p)) refl

pub ruleset writer_laws = (bytes-sw_push, bytes-sw_append)
