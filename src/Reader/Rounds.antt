-- ===== src/Reader/Rounds.antt =====
-- The loops over a reader end by their tests: more rounds than bytes change nothing.
use struple.Prelude.{ℕ, zero, suc, ◌<◌, ◌≡◌, refl, sym, ◌∙◌, arith, List, length, Bool, true, false}
use struple.Writer.{Writer}
use struple.Reader.{Element, Reader, reader_init}
use struple.Reader.Next.{
  Outcome, at_end, item, malformed, reader_next, append_element, transcode_loop, transcode,
}
use struple.Reader.Progress.{reader_next_progress}

-- A round of the transcoder on what the reader presents.
abbrev round : Outcome Element → Writer → (Element → Bool × Writer) → Bool × Writer
round at_end out next = (true, out)
round malformed out next = (false, out)
round (item e) out next = next e

transcode_loop-round :
    (f : ℕ) (r : Reader) (out : Writer)
    → transcode_loop (suc f) r out
      ≡ round (reader_next r).0 out (λ e. transcode_loop f (reader_next r).1 (append_element out e))
unfolding transcode_loop
transcode_loop-round f r out = by_outcome (reader_next r).0
  where
    by_outcome :
        (o : Outcome Element)
        → (elim o [
          | at_end ↦ (true, out)
          | malformed ↦ (false, out)
          | item e ↦ transcode_loop f (reader_next r).1 (append_element out e)
        ])
          ≡ round o out (λ e. transcode_loop f (reader_next r).1 (append_element out e))
    by_outcome at_end = refl
    by_outcome malformed = refl
    by_outcome (item e) = refl

same_round :
    (o : Outcome Element) (out : Writer) (next next' : Element → Bool × Writer)
    → ((e : Element) → o ≡ item e → next e ≡ next' e)
    → round o out next ≡ round o out next'
same_round at_end out next next' h = refl
same_round malformed out next next' h = refl
same_round (item e) out next next' h = h e refl

pub transcode_loop_rounds :
    (f g : ℕ) (r : Reader) (out : Writer)
    → length r.rest < f
    → length r.rest < g
    → transcode_loop f r out ≡ transcode_loop g r out
transcode_loop_rounds zero g r out hf hg = absurd (omega arith)
transcode_loop_rounds (suc f) zero r out hf hg = absurd (omega arith)
transcode_loop_rounds (suc f) (suc g) r out hf hg =
    transcode_loop-round f r out
    ∙ same_round (reader_next r).0 out _ _ (λ e eq.
      let less = reader_next_progress r e eq in
      transcode_loop_rounds f g (reader_next r).1 (append_element out e) (omega arith)
        (omega arith))
    ∙ sym (transcode_loop-round g r out)

-- On any bytes, malformed ones included, the loop of transcode ends by its own tests: any number of
-- rounds above the number of bytes gives the result of transcode.
pub transcode-transcode_loop :
    (buf : List ℕ) (out : Writer) (f : ℕ)
    → length buf < f
    → transcode_loop f (reader_init buf) out ≡ transcode buf out
unfolding transcode reader_init
transcode-transcode_loop buf out f h =
    transcode_loop_rounds f (suc (length buf)) (reader_init buf) out h (omega arith)
