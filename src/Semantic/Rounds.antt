-- ===== src/Semantic/Rounds.antt =====
-- The loop of the semantic order ends by its tests: more rounds than bytes change nothing.
use struple.Prelude.{ℕ, zero, suc, ◌+◌, ◌<◌, ◌≡◌, refl, ap, arith, List, length, Ordering, Option}
use struple.Reader.{Element, Reader, reader_init}
use struple.Reader.Next.{Outcome, at_end, item, malformed, reader_next}
use struple.Reader.Progress.{reader_next_progress}
use struple.Semantic.Order.{sem_round, next_round, sem_loop, sem_elements, sem_order_impl}

same_round :
    (elements : Element → Element → Option Ordering) (rest rest' : Option Ordering)
    (oa ob : Outcome Element)
    → ((e : Element) → oa ≡ item e → rest ≡ rest')
    → sem_round elements rest oa ob ≡ sem_round elements rest' oa ob
same_round elements rest rest' malformed ob h = refl
same_round elements rest rest' at_end malformed h = refl
same_round elements rest rest' at_end at_end h = refl
same_round elements rest rest' at_end (item b) h = refl
same_round elements rest rest' (item a) malformed h = refl
same_round elements rest rest' (item a) at_end h = refl
same_round elements rest rest' (item a) (item b) h =
    ap (λ (o : Option Ordering). next_round (elements a b) o) (h a refl)

sem_loop_rounds :
    (elements : Element → Element → Option Ordering) (f g : ℕ) (ra rb : Reader)
    → length ra.rest < f
    → length ra.rest < g
    → sem_loop elements f ra rb ≡ sem_loop elements g ra rb
unfolding sem_loop
sem_loop_rounds elements zero g ra rb hf hg = absurd (omega arith)
sem_loop_rounds elements (suc f) zero ra rb hf hg = absurd (omega arith)
sem_loop_rounds elements (suc f) (suc g) ra rb hf hg =
    same_round elements _ _ (reader_next ra).0 (reader_next rb).0 (λ e eq.
      let less = reader_next_progress ra e eq in
      sem_loop_rounds elements f g (reader_next ra).1 (reader_next rb).1 (omega arith)
        (omega arith))

pub sem_order_impl-sem_loop :
    (levels : ℕ) (a b : List ℕ) (f : ℕ)
    → length a < f
    → sem_order_impl (suc levels) a b
      ≡ sem_loop (sem_elements (sem_order_impl levels)) f (reader_init a) (reader_init b)
unfolding sem_order_impl reader_init
sem_order_impl-sem_loop levels a b f h =
    sem_loop_rounds (sem_elements (sem_order_impl levels)) (suc (length a + length b)) f
      (reader_init a) (reader_init b) (omega arith) h
