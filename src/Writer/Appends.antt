-- ===== src/Writer/Appends.antt =====
-- Operations that only add to the end of the writer's contents, and rules for building them.
use struple.Prelude.{
  ℕ, ◌≡◌, refl, sym, ap, ◌∙◌, Bool, true, false, List, ◌++◌, append-nil, append_assoc,
  if◌then◌else◌,
}
use struple.Writer.{Writer, writer_init, sw_push, sw_append}
use struple.Writer.Contents.{bytes-sw_push, bytes-sw_append}

-- What `f` adds does not depend on what stands in the buffer, nor on its capacity.
pub record Appends (f : Writer → Writer) : Type 0 where
  pub at : (w : Writer) → (f w).bytes ≡ w.bytes ++ (f writer_init).bytes

pub Appends-id : Appends (λ w. w)
Appends-id = record { at = λ w. sym (append-nil w.bytes) }

pub Appends-then : {f g : Writer → Writer} → Appends f → Appends g → Appends (λ w. g (f w))
Appends-then {f} {g} hf hg = record {
  at = λ w.
      hg.at (f w)
      ∙ rw (hf.at w) (
          append_assoc w.bytes (f writer_init).bytes (g writer_init).bytes
          ∙ ap (λ (p : List ℕ). w.bytes ++ p) (sym (hg.at (f writer_init))));
}

pub Appends-sw_push : (b : ℕ) → Appends (λ w. sw_push w b)
Appends-sw_push b = record { at = λ w. rw (bytes-sw_push, bytes-sw_push) refl }

pub Appends-sw_append : (p : List ℕ) → Appends (λ w. sw_append w p)
Appends-sw_append p = record { at = λ w. rw (bytes-sw_append, bytes-sw_append) refl }

-- An operation that adds the same list wherever it is applied.
pub Appends-of_bytes :
    (f : Writer → Writer) (p : List ℕ) → ((w : Writer) → (f w).bytes ≡ w.bytes ++ p) → Appends f
Appends-of_bytes f p h = record {
  at = λ w. h w ∙ ap (λ (q : List ℕ). w.bytes ++ q) (sym (h writer_init));
}

pub Appends-if :
    (b : Bool) (f g : Writer → Writer)
    → Appends f
    → Appends g
    → Appends (λ w. if b then f w else g w)
Appends-if true f g hf hg = hf
Appends-if false f g hf hg = hg
