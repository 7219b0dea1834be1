-- ===== src/Encode/Ints/Words.antt =====
-- `byte_len`, and the loops that write and read back a word byte by byte.
use struple.Prelude.{
  ℕ, zero, suc, ◌*◌, ◌/◌, ◌%◌, ◌^◌, ◌≡◌, refl, sym, ◌∙◌, List, [], ◌∷◌, ◌++◌, append_assoc,
  append-nil, Bool, true, false, if◌then◌else◌,
}
use struple.Bytes.{flip_all}
use struple.Bytes.BigEndian.{two-pow-eight_mul}
use struple.Bytes.Words.{word_bytes}
use struple.Writer.{Writer, sw_push}
use struple.Writer.Contents.{bytes-sw_push}
use struple.Encode.Ints.{push_word, flip_if}

-- `flip_all` under a condition
abbrev pub flips : Bool → List ℕ → List ℕ
flips negative p = if negative then flip_all p else p

pub flips-cons :
    (negative : Bool) (b : ℕ) (bs : List ℕ)
    → flips negative (b ∷ bs) ≡ flip_if negative b ∷ flips negative bs
flips-cons true b bs = refl
flips-cons false b bs = refl

pub bytes-push_word :
    (negative : Bool) (k x : ℕ) (w : Writer)
    → (push_word negative k x w).bytes ≡ w.bytes ++ flips negative (word_bytes k x)
unfolding push_word word_bytes
bytes-push_word true zero x w = sym (append-nil w.bytes)
bytes-push_word false zero x w = sym (append-nil w.bytes)
bytes-push_word negative (suc i) x w =
    bytes-push_word negative i x (sw_push w (flip_if negative (x / 2 ^ (8 * i) % 256)))
    ∙ rw (bytes-sw_push, two-pow-eight_mul i, flips-cons)
        (append_assoc w.bytes (_ ∷ []) (flips negative (word_bytes i x)))
