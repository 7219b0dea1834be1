-- ===== src/Json/Text.antt =====
-- What the parser and the renderer of c/struple_json.c share: characters, and chains of steps that may
-- fail. Text is a list of bytes. The position p->i of a parser is the text from there on.
use struple.Prelude.{
  ℕ, Bool, true, false, ◌||◌, ◌&&◌, List, [], ◌∷◌, Option, none, some, leb, ◌==◌, if◌then◌else◌,
}

infixl 5 ◌>>=◌
abbrev pub ◌>>=◌ {ℓ κ} : {A : Type ℓ} {B : Type κ} → Option A → (A → Option B) → Option B
none >>= f = none
some a >>= f = f a

abbrev pub quote : ℕ
quote = 34

abbrev pub backslash : ℕ
backslash = 92

abbrev pub within : ℕ → ℕ → ℕ → Bool
within lo hi c = leb lo c && leb c hi

abbrev pub is_digit : ℕ → Bool
is_digit c = within 48 57 c

-- `unfoldable`, as the loop stays shut in proofs about what follows the blanks.
unfoldable pub skip_ws : List ℕ → List ℕ
skip_ws [] = []
skip_ws (c ∷ cs) =
    let rest = skip_ws cs in if c == 32 || c == 9 || c == 10 || c == 13 then rest else c ∷ cs

-- The text behind `s`, where the text begins with `s`.
unfoldable pub lit : List ℕ → List ℕ → Option (List ℕ)
lit [] bs = some bs
lit (c ∷ s) [] = none
lit (c ∷ s) (b ∷ bs) = let rest = lit s bs in if c == b then rest else none

-- The digits at the front, and what follows them.
unfoldable pub span_digits : List ℕ → List ℕ × List ℕ
span_digits [] = ([], [])
span_digits (c ∷ cs) =
    let (ds, rest) = span_digits cs in if is_digit c then (c ∷ ds, rest) else ([], c ∷ cs)

-- The C string in an array of char: what stands before the first NUL.
unfoldable pub c_string : List ℕ → List ℕ
c_string [] = []
c_string (c ∷ cs) = let rest = c_string cs in if c == 0 then [] else c ∷ rest

-- `memcmp(…) == 0` of two arrays of one length, `strcmp(…) == 0` of two C strings
unfoldable pub same_bytes : List ℕ → List ℕ → Bool
same_bytes [] [] = true
same_bytes [] (y ∷ ys) = false
same_bytes (x ∷ xs) [] = false
same_bytes (x ∷ xs) (y ∷ ys) = let rest = same_bytes xs ys in if x == y then rest else false
