-- ===== src/CollList/Find.antt =====
-- engines/default/coll_list.c: the walk of `do_list_elem_find` from either end of the chain.
use arcus_memcached.Prelude.{
  ℕ, zero, suc, ◌+◌, ◌-◌, ◌/◌, ◌≡◌, refl, ap, ◌∙◌, List, [], ◌∷◌, ◌++◌, reverse, some, append-nil,
  append_assoc, reverse-cons, reverse-append, reverse-reverse, length, length-append,
  length-reverse, arith, leb, Bool-cases, inl, inr,
}
use arcus_memcached.CollList.{
  Elem, ListMeta, next, prev, at_first, at_last, walk_next, walk_prev, do_list_elem_find,
}

next-at_first :
    (b : List Elem) (x : Elem) (a : List Elem) → next (some (b, x, a)) ≡ at_first (x ∷ b) a
next-at_first b x [] = refl
next-at_first b x (y ∷ a) = refl

prev-at_last :
    (b : List Elem) (x : Elem) (a : List Elem) → prev (some (b, x, a)) ≡ at_last b (x ∷ a)
prev-at_last [] x a = refl
prev-at_last (y ∷ b) x a = refl

walk_next-none : (n : ℕ) (b : List Elem) → walk_next n (at_first b []) ≡ at_first b []
unfolding walk_next
walk_next-none zero b = refl
walk_next-none (suc n) b = walk_next-none n b

walk_prev-none : (n : ℕ) (a : List Elem) → walk_prev n (at_last [] a) ≡ at_last [] a
unfolding walk_prev
walk_prev-none zero a = refl
walk_prev-none (suc n) a = walk_prev-none n a

walk_next-split :
    (p : List Elem) (b xs : List Elem)
    → walk_next (length p) (at_first b (p ++ xs)) ≡ at_first (reverse p ++ b) xs
unfolding walk_next
walk_next-split [] b xs = refl
walk_next-split (x ∷ p) b xs =
    ap (walk_next (length p)) (next-at_first b x (p ++ xs))
    ∙ (walk_next-split p (x ∷ b) xs ∙ ap (λ t. at_first t xs) (rw (reverse-cons, append_assoc)))

walk_prev-split :
    (p : List Elem) (b a : List Elem)
    → walk_prev (length p) (at_last (p ++ b) a) ≡ at_last b (reverse p ++ a)
unfolding walk_prev
walk_prev-split [] b a = refl
walk_prev-split (x ∷ p) b a =
    ap (walk_prev (length p)) (prev-at_last (p ++ b) x a)
    ∙ (walk_prev-split p b (x ∷ a) ∙ ap (at_last b) (rw (reverse-cons, append_assoc)))

-- Whichever end the walk starts from, the pointer of `do_list_elem_find` at an index below the
-- count stands at the element with so many elements before it in the chain.
pub do_list_elem_find-split :
    (info : ListMeta) (p : List Elem) (x : Elem) (s : List Elem)
    → info.elems ≡ p ++ (x ∷ s)
    → info.ccnt ≡ length info.elems
    → do_list_elem_find info (length p) ≡ some (reverse p, x, s)
unfolding do_list_elem_find
do_list_elem_find-split info p x s e c = elim (Bool-cases (leb (length p) (info.ccnt / 2))) [
  | inl near ↦ rw (near, e, walk_next-split p [] (x ∷ s), append-nil)
  | inr far ↦ rw (far, rounds, e, backwards, walk_prev-split, reverse-reverse, append-nil)
]
  where
    counted : info.ccnt ≡ length p + suc (length s)
    counted = c ∙ (rw e (length-append p (x ∷ s)))

    rounds : info.ccnt - 1 - length p ≡ length (reverse s)
    rounds = omega (arith, counted, length-reverse s)

    backwards : reverse (p ++ (x ∷ s)) ≡ reverse s ++ (x ∷ reverse p)
    backwards = rw (reverse-append, reverse-cons, append_assoc)
