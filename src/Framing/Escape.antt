-- ===== src/Framing/Escape.antt =====
-- What `write_escaped` writes, in plain terms, and its inverse.
use struple.Prelude.{
  ℕ, zero, suc, ◌≡◌, ◌≢◌, refl, sym, ap, ◌∙◌, List, [], ◌∷◌, ◌++◌, append-nil, append_assoc, some,
  Bool-cases, inl, inr, ◌==◌, if◌then◌else◌, ==_false,
}
use struple.Writer.{Writer, sw_push, sw_append}
use struple.Writer.Contents.{bytes-sw_push, bytes-sw_append}
use struple.Framing.{escape_loop, write_escaped, write_framed, scan_framed, unescape, cons_framed}
use struple.Codes.{terminator}

-- Each 0x00 is followed by 0xff.
unfoldable pub escaped : List ℕ → List ℕ
escaped [] = []
escaped (b ∷ bs) = let rest = escaped bs in if b == 0 then 0 ∷ 0xff ∷ rest else b ∷ rest

pub escaped-append : (xs ys : List ℕ) → escaped (xs ++ ys) ≡ escaped xs ++ escaped ys
unfolding escaped
escaped-append [] ys = refl
escaped-append (x ∷ xs) ys = elim (Bool-cases (x == 0)) [
  | inl e ↦ rw e (ap (λ (r : List ℕ). 0 ∷ 0xff ∷ r) (escaped-append xs ys))
  | inr e ↦ rw e (ap (λ (r : List ℕ). x ∷ r) (escaped-append xs ys))
]

bytes-escape_loop :
    (w : Writer) (run bs : List ℕ) → (escape_loop w run bs).bytes ≡ w.bytes ++ (run ++ escaped bs)
unfolding escape_loop escaped
bytes-escape_loop w [] [] = sym (append-nil w.bytes)
bytes-escape_loop w (r ∷ run) [] = rw (bytes-sw_append, append-nil) refl
bytes-escape_loop w run (b ∷ bs) = elim (Bool-cases (b == 0)) [
  | inl e ↦ rw e (
      bytes-escape_loop (sw_append (sw_append w run) (0 ∷ 0xff ∷ [])) [] bs
      ∙ rw (bytes-sw_append, bytes-sw_append) (simp append_assoc))
  | inr e ↦ rw e (bytes-escape_loop w (run ++ b ∷ []) bs ∙ simp append_assoc)
]

pub bytes-write_escaped :
    (w : Writer) (content : List ℕ) → (write_escaped w content).bytes ≡ w.bytes ++ escaped content
unfolding write_escaped
bytes-write_escaped w content = bytes-escape_loop w [] content

-- A frame: the type code, the escaped content and the terminator.
pub bytes-write_framed :
    (w : Writer) (t : ℕ) (content : List ℕ)
    → (write_framed w t content).bytes ≡ w.bytes ++ t ∷ (escaped content ++ terminator ∷ [])
unfolding write_framed
bytes-write_framed w t content =
    bytes-sw_push (write_escaped (sw_push w t) content) terminator
    ∙ rw (bytes-write_escaped, bytes-sw_push) (simp append_assoc)

scan_framed-plain :
    (b : ℕ) (bs : List ℕ) → b ≢ 0 → scan_framed (b ∷ bs) ≡ cons_framed b (scan_framed bs)
unfolding scan_framed
scan_framed-plain b [] h = rw (==_false b 0 h) refl
scan_framed-plain b (c ∷ bs) h = rw (==_false b 0 h) refl

scan_framed-escape :
    (bs : List ℕ) → scan_framed (0 ∷ 0xff ∷ bs) ≡ cons_framed 0 (cons_framed 0xff (scan_framed bs))
unfolding scan_framed
scan_framed-escape bs = refl

-- What follows the frame does not begin with 0xff, so that its terminator is no escape.
abbrev pub NotEscape : List ℕ → Type 0
NotEscape [] = Unit
NotEscape (b ∷ bs) = b ≢ 0xff

-- Where escaped content and a terminator are followed by bytes that do not begin with 0xff,
-- scan_framed stops at that terminator and nowhere before.
pub scan_framed-escaped :
    (content rest : List ℕ)
    → NotEscape rest
    → scan_framed (escaped content ++ terminator ∷ rest) ≡ some (escaped content, rest)
unfolding escaped
scan_framed-escaped [] [] h = unfold scan_framed in refl
scan_framed-escaped [] (b ∷ bs) h = unfold scan_framed in rw (==_false b 0xff h) refl
scan_framed-escaped (zero ∷ bs) rest h =
    scan_framed-escape (escaped bs ++ terminator ∷ rest)
    ∙ ap (λ r. cons_framed 0 (cons_framed 0xff r)) (scan_framed-escaped bs rest h)
scan_framed-escaped (suc b ∷ bs) rest h = rw (==_false (suc b) 0 (λ e. cc e)) (
    scan_framed-plain (suc b) (escaped bs ++ terminator ∷ rest) (λ e. cc e)
    ∙ ap (cons_framed (suc b)) (scan_framed-escaped bs rest h))

unescape-plain : (b : ℕ) (bs : List ℕ) → b ≢ 0 → unescape (b ∷ bs) ≡ b ∷ unescape bs
unfolding unescape
unescape-plain b [] h = refl
unescape-plain b (c ∷ bs) h = rw (==_false b 0 h) refl

unescape-escape : (bs : List ℕ) → unescape (0 ∷ 0xff ∷ bs) ≡ 0 ∷ unescape bs
unfolding unescape
unescape-escape bs = refl

pub unescape-escaped : (content : List ℕ) → unescape (escaped content) ≡ content
unfolding escaped
unescape-escaped [] = unfold unescape in refl
unescape-escaped (zero ∷ bs) = unescape-escape (escaped bs) ∙ ap (λ r. 0 ∷ r) (unescape-escaped bs)
unescape-escaped (suc b ∷ bs) =
    rw (==_false (suc b) 0 (λ e. cc e))
      (unescape-plain (suc b) (escaped bs) (λ e. cc e) ∙ ap (λ r. suc b ∷ r) (unescape-escaped bs))
