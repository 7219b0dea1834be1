-- ===== src/Reader/Steps.antt =====
-- `take` on input that is long enough, and the bytes of a slot.
use struple.Prelude.{
  ℕ, ◌+◌, ◌≡◌, refl, arith, List, ◌++◌, length, length-append, take-append, drop-append, some,
  le→leb,
}
use struple.Reader.{reader_at, take_bytes}

pub take_bytes-append :
    (p n : ℕ) (xs rest : List ℕ)
    → n ≡ length xs
    → take_bytes n (reader_at p (xs ++ rest)) ≡ (some xs, reader_at (p + n) rest)
unfolding take_bytes
take_bytes-append p n xs rest e =
    rw
      (
        le→leb n (length (xs ++ rest)) (omega (arith, length-append xs rest)),
        e,
        take-append xs rest,
        drop-append xs rest,
      )
      refl
