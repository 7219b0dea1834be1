-- ===== src/Encode/Canonical/Sets.antt =====
-- `struple_append_set` writes a set, whatever the order and the repetitions of the elements it is given.
use struple.Prelude.{ℕ, ◌≡◌, sym, ap, ◌∙◌, List, [], ◌∷◌, ◌++◌, append_assoc, append-nil, Ordering}
use mathlib.Core.List.Permᴰ
use struple.Codes.{set_code}
use struple.Writer.{Writer, sw_push}
use struple.Framing.{write_escaped, write_framed}
use struple.Framing.Escape.{escaped, escaped-append, bytes-write_escaped}
use struple.Compare.{cmp_bytes}
use struple.Encode.Containers.{write_elements, write_distinct, append_set}
use struple.Encode.Canonical.{framed_bytes}
use struple.Encode.Sorting.{Sorts, cmp_bytes-IsConsistent}
use struple.Encode.Sorting.Rearranged.{permuted-Memᴰ}
use struple.Encode.Sorting.Strict.{IsStrict, Within, IsStrict-unique, compare_bytes_asym}
use struple.Encode.Canonical.Distinct.{
  kept, distinct_from, distinct, Below, distinct-IsStrict, distinct-Within, Within-distinct,
}

unfoldable pub joined : List (List ℕ) → List ℕ
joined [] = []
joined (e ∷ es) = e ++ joined es

bytes-write_elements :
    (last : List ℕ) (es : List (List ℕ)) (w : Writer)
    → (write_elements last es w).bytes ≡ w.bytes ++ escaped (joined (distinct_from last es))
unfolding write_elements joined escaped
bytes-write_elements last [] w = sym (append-nil w.bytes)
bytes-write_elements last (e ∷ es) w = go (cmp_bytes last e) (bytes-write_elements e es)
  where
    written :
        (x : List ℕ) (w : Writer)
        → (write_escaped w x).bytes ++ escaped (joined (distinct_from e es))
          ≡ w.bytes ++ escaped (x ++ joined (distinct_from e es))
    written x w =
        rw (bytes-write_escaped w x, escaped-append x (joined (distinct_from e es)))
          (simp append_assoc)

    go :
        (o : Ordering)
        → ((w' : Writer)
            → (write_elements e es w').bytes ≡ w'.bytes ++ escaped (joined (distinct_from e es)))
        → (write_elements e es (elim o [ Ordering.eq ↦ w | _ ↦ write_escaped w e ])).bytes
          ≡ w.bytes ++ escaped (joined (kept o e (distinct_from e es)))
    go Ordering.eq behind = behind w
    go Ordering.lt behind = behind (write_escaped w e) ∙ written e w
    go Ordering.gt behind = behind (write_escaped w e) ∙ written e w

bytes-write_distinct :
    (es : List (List ℕ)) (w : Writer)
    → (write_distinct es w).bytes ≡ w.bytes ++ escaped (joined (distinct es))
unfolding joined escaped
bytes-write_distinct [] w = sym (append-nil w.bytes)
bytes-write_distinct (e ∷ es) w =
    bytes-write_elements e es (write_escaped w e)
    ∙ rw (bytes-write_escaped w e, escaped-append e (joined (distinct_from e es)))
        (simp append_assoc)

module _ (qsort : (List ℕ → List ℕ → Ordering) → List (List ℕ) → List (List ℕ)) where
  -- A set is the frame of its sorted elements, each written once.
  pub append_set-write_framed :
      (w : Writer) (elems : List (List ℕ))
      → (append_set qsort w elems).bytes
        ≡ (write_framed w set_code (joined (distinct (qsort cmp_bytes elems)))).bytes
  unfolding append_set
  append_set-write_framed w elems =
      framed_bytes set_code w (write_distinct (qsort cmp_bytes elems) (sw_push w set_code))
        (joined (distinct (qsort cmp_bytes elems)))
        (bytes-write_distinct (qsort cmp_bytes elems) (sw_push w set_code))

  module _ (sorts : Sorts qsort) where
    pub members-IsStrict : (xs : List (List ℕ)) → IsStrict Below (distinct (qsort cmp_bytes xs))
    members-IsStrict xs =
        distinct-IsStrict (qsort cmp_bytes xs) (sorts.orders cmp_bytes cmp_bytes-IsConsistent xs)

    pub members-Within : (xs : List (List ℕ)) → Within (distinct (qsort cmp_bytes xs)) xs
    members-Within xs z m =
        permuted-Memᴰ (Permᴰ.symm (sorts.permutes cmp_bytes xs))
          (distinct-Within (qsort cmp_bytes xs) z m)

    pub Within-members : (xs : List (List ℕ)) → Within xs (distinct (qsort cmp_bytes xs))
    Within-members xs z m =
        Within-distinct (qsort cmp_bytes xs) z (permuted-Memᴰ (sorts.permutes cmp_bytes xs) m)

    -- For a qsort that rearranges and orders: append_set writes the same bytes for two lists with the
    -- same members, in any order and with any repetitions.
    pub append_set-canonical :
        (w : Writer) (xs ys : List (List ℕ))
        → Within xs ys
        → Within ys xs
        → (append_set qsort w xs).bytes ≡ (append_set qsort w ys).bytes
    append_set-canonical w xs ys there back =
        append_set-write_framed w xs
        ∙ ap (λ (es : List (List ℕ)). (write_framed w set_code (joined es)).bytes) same
        ∙ sym (append_set-write_framed w ys)
      where
        same : distinct (qsort cmp_bytes xs) ≡ distinct (qsort cmp_bytes ys)
        same =
            IsStrict-unique Below compare_bytes_asym (distinct (qsort cmp_bytes xs))
              (distinct (qsort cmp_bytes ys)) (members-IsStrict xs) (members-IsStrict ys)
              (λ z m. Within-members ys z (there z (members-Within xs z m)))
              (λ z m. Within-members xs z (back z (members-Within ys z m)))
