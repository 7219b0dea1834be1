-- ===== src/Framing.antt =====
-- Framed content of c/struple.c: 0x00 inside the content is written 0x00 0xff, and a bare 0x00 ends it.
pub mod Escape
use struple.Prelude.{ℕ, List, [], ◌∷◌, ◌++◌, Option, none, some, ◌==◌, if◌then◌else◌}
use struple.Codes.{terminator}
use struple.Writer.{Writer, sw_push, sw_append}

-- `run` is content[start..i): the bytes since the last 0x00, which one memcpy adds.
escape_loop : Writer → List ℕ → List ℕ → Writer
escape_loop w [] [] = w
escape_loop w (r ∷ run) [] = sw_append w (r ∷ run)
escape_loop w run (b ∷ bs) =
    let at_zero = escape_loop (sw_append (sw_append w run) (0x00 ∷ 0xff ∷ [])) [] bs in
    let going_on = escape_loop w (run ++ (b ∷ [])) bs in if b == 0x00 then at_zero else going_on

unfoldable pub write_escaped : Writer → List ℕ → Writer
unfolding escape_loop
write_escaped w content = escape_loop w [] content

unfoldable pub write_framed : Writer → ℕ → List ℕ → Writer
unfolding write_escaped
write_framed w type_code content = sw_push (write_escaped (sw_push w type_code) content) terminator

abbrev pub cons_framed : ℕ → Option (List ℕ × List ℕ) → Option (List ℕ × List ℕ)
cons_framed b none = none
cons_framed b (some (framed, rest)) = some (b ∷ framed, rest)

-- The scan of `take_framed`: the bytes before the terminator, still escaped, and those after it.
unfoldable pub scan_framed : List ℕ → Option (List ℕ × List ℕ)
scan_framed [] = none
scan_framed (b ∷ []) = if b == 0x00 then some ([], []) else none
scan_framed (b ∷ c ∷ bs) =
    let escaped = cons_framed b (cons_framed c (scan_framed bs)) in
    let plain = cons_framed b (scan_framed (c ∷ bs)) in
    if b == 0x00 then (if c == 0xff then escaped else some ([], c ∷ bs)) else plain

-- The second loop of `unescape_to_scratch`: the byte after a 0x00 is skipped.
unfoldable pub unescape : List ℕ → List ℕ
unescape [] = []
unescape (b ∷ []) = b ∷ []
unescape (b ∷ c ∷ bs) =
    let escaped = b ∷ unescape bs in
    let plain = b ∷ unescape (c ∷ bs) in if b == 0x00 then escaped else plain
