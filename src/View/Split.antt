-- ===== src/View/Split.antt =====
-- `struple_view_take` and `struple_view_nth_rest` share a view between them.
use struple.Prelude.{
  ℕ, zero, suc, ◌+◌, ◌≡◌, refl, ap, ◌∙◌, arith, List, [], ◌∷◌, ◌++◌, drop, take-append-drop,
}
use struple.Reader.{Reader, reader_init, advance}
use struple.Reader.Next.{Outcome, at_end, item, malformed}
use struple.View.Span.{element_span}
use struple.View.{view_of, reader_next_view, reader_skip, skip_loop, view_take, view_nth_rest}

pub drop-drop : (n m : ℕ) (v : List ℕ) → drop n (drop m v) ≡ drop (m + n) v
drop-drop n zero v = ap (λ (k : ℕ). drop k v) (omega arith)
drop-drop zero (suc m) [] = rw (zero_right m) refl
  where
    zero_right : (m : ℕ) → suc m + 0 ≡ suc m
    zero_right m = omega arith
drop-drop (suc n) (suc m) [] = rw (both n m) refl
  where
    both : (n m : ℕ) → suc m + suc n ≡ suc (m + suc n)
    both n m = omega arith
drop-drop n (suc m) (b ∷ v) = rw (front m n) (drop-drop n m v)
  where
    front : (m n : ℕ) → suc m + n ≡ suc (m + n)
    front m n = omega arith

-- What `skip_loop` does with the result of a skip.
abbrev after_skip : ℕ → Outcome (List ℕ) × Reader → Reader
after_skip n (at_end, r) = r
after_skip n (malformed, r) = r
after_skip n (item v, r) = skip_loop n r

skip_loop-after_skip :
    (n : ℕ) (r : Reader) (q : Outcome (List ℕ) × Reader)
    → reader_skip r ≡ q
    → skip_loop (suc n) r ≡ after_skip n q
unfolding skip_loop
skip_loop-after_skip n r q e = by_outcome (reader_skip r) ∙ ap (after_skip n) e
  where
    by_outcome :
        (q : Outcome (List ℕ) × Reader)
        → (elim q.0 [ at_end ↦ q.1 | malformed ↦ q.1 | item v ↦ skip_loop n q.1 ]) ≡ after_skip n q
    by_outcome (at_end, r) = refl
    by_outcome (malformed, r) = refl
    by_outcome (item v, r) = refl

skip_loop-rest :
    (v : List ℕ) (n : ℕ) (r : Reader)
    → r.rest ≡ drop r.pos v
    → (skip_loop n r).rest ≡ drop (skip_loop n r).pos v
unfolding reader_skip reader_next_view
skip_loop-rest v zero r h = unfold skip_loop in h
skip_loop-rest v (suc n) r h = go (element_span r.rest) refl (skip_loop-rest v n)
  where
    go :
        (o : Outcome ℕ)
        → element_span r.rest ≡ o
        → ((r' : Reader)
            → r'.rest ≡ drop r'.pos v
            → (skip_loop n r').rest ≡ drop (skip_loop n r').pos v)
        → (skip_loop (suc n) r).rest ≡ drop (skip_loop (suc n) r).pos v
    go at_end e further = rw (skip_loop-after_skip n r (at_end, r) (ap (view_of r) e)) h
    go malformed e further = rw (skip_loop-after_skip n r (malformed, r) (ap (view_of r) e)) h
    go (item span) e further =
        rw (skip_loop-after_skip n r (view_of r (item span)) (ap (view_of r) e))
          (further (advance span r) (ap (drop span) h ∙ drop-drop span r.pos v))

-- For any bytes, well-formed or not, and any count, view_take and view_nth_rest split the view: the
-- one followed by the other is the view.
pub view_take-view_nth_rest : (v : List ℕ) (n : ℕ) → view_take v n ++ view_nth_rest v n ≡ v
unfolding view_take view_nth_rest reader_init
view_take-view_nth_rest v n =
    let r = skip_loop n (reader_init v) in
    rw (skip_loop-rest v n (reader_init v) refl) (take-append-drop r.pos v)
