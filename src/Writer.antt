-- ===== src/Writer.antt =====
-- The growing buffer of c/struple.c. `bytes` are data[0..len), and `cap` is the size of the
-- allocation. realloc is taken to succeed, as the source does not test it.
pub mod Contents
pub mod Growth
pub mod Appends
use struple.Prelude.{
  ℕ, zero, suc, ◌+◌, ◌*◌, ◌%◌, List, [], ◌∷◌, ◌++◌, length, ltb, ◌==◌, if◌then◌else◌,
}
use struple.Codes.{u64_mod}

pub record Writer : Type 0 where
  pub bytes : List ℕ
  pub cap : ℕ

abbrev pub writer_init : Writer
writer_init = record { bytes = []; cap = 0 }

unfoldable pub writer_free : Writer → Writer
writer_free w = record w { bytes = []; cap = 0 }

unfoldable pub writer_reset : Writer → Writer
writer_reset w = record w { bytes = [] }

-- `while (cap < need) cap *= 2;` in a size_t, with the rounds left
unfoldable pub grow : ℕ → ℕ → ℕ → ℕ
grow zero need cap = cap
grow (suc f) need cap =
    let rest = grow f need (cap * 2 % u64_mod) in if ltb cap need then rest else cap

-- A capacity of at least 1 doubles past any size that is at most 2 ^ 63 in 63 rounds.
unfoldable pub sw_reserve : Writer → ℕ → Writer
unfolding grow
sw_reserve w extra =
    let need = (length w.bytes + extra) % u64_mod in
    if ltb w.cap need then record w { cap = grow 64 need (if w.cap == 0 then 64 else w.cap) } else w

unfoldable pub sw_push : Writer → ℕ → Writer
unfolding sw_reserve
sw_push w b = let r = sw_reserve w 1 in record r { bytes = r.bytes ++ (b ∷ []) }

unfoldable pub sw_append : Writer → List ℕ → Writer
unfolding sw_reserve
sw_append w p = let r = sw_reserve w (length p) in record r { bytes = r.bytes ++ p }

unfoldable pub writer_append : Writer → List ℕ → Writer
unfolding sw_append
writer_append w p = sw_append w p
