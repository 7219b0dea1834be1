-- ===== src/Reader.antt =====
-- The reader of c/struple.c: the elements, the reader's state, and reads as a monad. A reader holds the
-- position and the bytes from there on, buf[pos..len). An element holds its bytes, which in C stay
-- in the scratch buffer until the next read; allocations are taken to succeed.
pub mod Ints
pub mod Decimals
pub mod Next
pub mod Steps
pub mod Progress
pub mod Rounds
use struple.Prelude.{
  ℕ, zero, suc, ◌+◌, ◌-◌, Bool, Option, none, some, List, [], ◌∷◌, length, take, drop, leb, ltb,
  if◌then◌else◌,
}
use struple.Prelude.Int.{ℤ, pos, negsuc}
use struple.Codes.{u64_mod, int64_max}

-- struple_element, a constructor for each struple_kind with the fields that belong to it. Floats
-- are bit patterns.
pub data Element : Type 0 where
  nil undef : Element
  bool : Bool → Element
  int : ℤ → Element
  bigint : Bool → List ℕ → Element
  f32 f64 : ℕ → Element
  decimal : Bool → ℤ → List ℕ → Element
  timestamp : ℤ → Element
  uuid string bytes array map set : List ℕ → Element

pub record Reader : Type 0 where
  pub pos : ℕ
  pub rest : List ℕ

unfoldable pub reader_init : List ℕ → Reader
reader_init buf = record { pos = 0; rest = buf }

abbrev pub reader_at : ℕ → List ℕ → Reader
reader_at p bs = record { pos = p; rest = bs }

-- `pos += n`
abbrev pub advance : ℕ → Reader → Reader
advance n r = record { pos = r.pos + n; rest = drop n r.rest }

-- `none` is the result -1; the reader keeps the position that it has reached.
abbrev pub Read {ℓ} : Type ℓ → Type ℓ
Read A = Reader → Option A × Reader

abbrev pub then_read {ℓ κ} :
    {A : Type ℓ} {B : Type κ} → Option A × Reader → (A → Read B) → Option B × Reader
then_read (none, r) f = (none, r)
then_read (some a, r) f = f a r

infixl 5 ◌>>=◌
abbrev pub ◌>>=◌ {ℓ κ} : {A : Type ℓ} {B : Type κ} → Read A → (A → Read B) → Read B
◌>>=◌ m f r = then_read (m r) f

abbrev pub lift {ℓ} : {A : Type ℓ} → Option A → Read A
lift o r = (o, r)

-- `n > len - pos` is tested, and not `pos + n > len`, which could wrap.
unfoldable pub take_bytes : ℕ → Read (List ℕ)
take_bytes n r = if leb n (length r.rest) then (some (take n r.rest), advance n r) else (none, r)

-- a - b in 64 bits
abbrev pub sub64 : ℕ → ℕ → ℕ
sub64 a b = let d : ℕ = a + u64_mod - b in if ltb d u64_mod then d else d - u64_mod

-- `(int64_t)raw`
abbrev pub as_i64 : ℕ → ℤ
as_i64 raw = if leb raw int64_max then pos raw else negsuc (u64_mod - 1 - raw)
