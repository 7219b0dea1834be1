-- ===== src/Reader/Next/Dispatch.antt =====
-- The switch of `struple_reader_next`, type code by type code.
use struple.Prelude.{ℕ, ◌≤◌, ◌≡◌, ◌≢◌, refl, arith, Bool, true, false, if◌then◌else◌}
use struple.Codes.{int_zero, int_neg_big, int_pos_big}
use struple.Reader.Ints.{read_fixed_int, read_big_int}
use struple.Reader.Next.{read_payload, is_framed, read_framed}

pub read_payload-fixed :
    (t : ℕ) → 0x10 ≤ t → t ≤ 0x30 → t ≢ int_zero → read_payload t ≡ read_fixed_int t
unfolding read_payload
read_payload-fixed t lo hi ne = ground arith

pub read_payload-framed : (t : ℕ) → is_framed t ≡ true → read_payload t ≡ read_framed t
unfolding read_payload
read_payload-framed t h = ground arith

pub read_payload-big :
    (negative : Bool)
    → read_payload (if negative then int_neg_big else int_pos_big)
      ≡ read_big_int (if negative then int_neg_big else int_pos_big)
unfolding read_payload
read_payload-big true = refl
read_payload-big false = refl
