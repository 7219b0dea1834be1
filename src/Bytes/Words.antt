-- ===== src/Bytes/Words.antt =====
-- The big-endian bytes of a number, a fixed count of them.
use native.Mathlib.Nat.{div-div-eq-div-mul}
use struple.Prelude.{
  ℕ, zero, suc, ◌+◌, ◌*◌, ◌/◌, ◌%◌, ◌<◌, ◌≡◌, refl, ap, ◌∙◌, arith, List, [], ◌∷◌, ◌++◌, length,
}
use struple.Bytes.{IsBytes}
use struple.Bytes.BigEndian.{be_value, be_from, be_from-append, power, power-suc}

-- `(x >> (8 * i)) & 0xff` for i from k - 1 down to 0
unfoldable pub word_bytes : ℕ → ℕ → List ℕ
word_bytes zero x = []
word_bytes (suc i) x = (x / power i % 256) ∷ word_bytes i x

pub length-word_bytes : (k x : ℕ) → length (word_bytes k x) ≡ k
unfolding word_bytes
length-word_bytes zero x = refl
length-word_bytes (suc i) x = ap suc (length-word_bytes i x)

pub word_bytes-IsBytes : (k x : ℕ) → IsBytes (word_bytes k x)
unfolding word_bytes
word_bytes-IsBytes zero x = tt
word_bytes-IsBytes (suc i) x = (omega arith, word_bytes-IsBytes i x)

shifted : (i x : ℕ) → x / power (suc i) ≡ x / 256 / power i
shifted i x = rw (power-suc i, div-div-eq-div-mul) refl

-- The last byte is the lowest.
word_bytes-snoc : (i x : ℕ) → word_bytes (suc i) x ≡ word_bytes i (x / 256) ++ (x % 256) ∷ []
unfolding word_bytes
word_bytes-snoc zero x = ap (λ (b : ℕ). b % 256 ∷ []) (omega arith)
word_bytes-snoc (suc i) x = rw (shifted i x, word_bytes-snoc i x) refl

be_value-snoc : (xs : List ℕ) (d : ℕ) → be_value (xs ++ d ∷ []) ≡ be_value xs * 256 + d
be_value-snoc xs d = be_from-append 0 xs (d ∷ []) ∙ unfold be_from in refl

-- Enough bytes hold the number.
pub be_value-word_bytes : (k x : ℕ) → x < power k → be_value (word_bytes k x) ≡ x
be_value-word_bytes zero x h = unfold be_from word_bytes in omega arith
be_value-word_bytes (suc i) x h =
    ap be_value (word_bytes-snoc i x)
    ∙ be_value-snoc (word_bytes i (x / 256)) (x % 256)
    ∙ omega (arith, be_value-word_bytes i (x / 256) (omega (arith, power-suc i)))
