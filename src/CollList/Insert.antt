-- ===== src/CollList/Insert.antt =====
-- engines/default/coll_list.c: `do_list_elem_link`, and the trimming of `do_list_elem_insert`.
use arcus_memcached.Prelude.{
  ℕ, zero, suc, ◌+◌, ◌≤◌, ◌≡◌, refl, ap, List, [], ◌∷◌, ◌++◌, reverse, reverse-reverse, length,
  arith, leb, Bool-cases, suc-==-zero, suc-sub-one, inl, inr, insert_at, take_all, drop_all,
  split_at, length-insert_at, some,
}
use arcus_memcached.CollList.{Elem, ListMeta, do_list_elem_find, do_list_elem_link, behind}
use arcus_memcached.CollList.Find.{do_list_elem_find-split}
use arcus_memcached.CollList.Valid.{IsValid, total}

module _ (space : ℕ → ℕ) where
  cut_at :
      (p : List Elem) (x e : Elem) (s : List Elem)
      → p ++ (x ∷ e ∷ s) ≡ insert_at (suc (length p)) e (p ++ (x ∷ s))
  cut_at [] x e s = refl
  cut_at (y ∷ p) x e s = ap (λ t. y ∷ t) (cut_at p x e s)

  -- Linking puts the element in before the index, and leaves the order of the others.
  pub do_list_elem_link-elems :
      (info : ListMeta) (index : ℕ) (e : Elem)
      → IsValid space info
      → index ≤ info.ccnt
      → (do_list_elem_link space info index e).elems ≡ insert_at index e info.elems
  unfolding do_list_elem_link
  do_list_elem_link-elems info zero e v h = refl
  do_list_elem_link-elems info (suc i) e v h = elim (Bool-cases (leb info.ccnt (suc i))) [
    | inl at_end ↦ rw (
      suc-==-zero,
      at_end,
      take_all (suc i) info.elems (ground (arith, v.counted)),
      drop_all (suc i) info.elems (ground (arith, v.counted)),
    )
    | inr inside ↦
        let (p, x, s, eq, n) = split_at i info.elems (ground (arith, v.counted)) in
        let found : do_list_elem_find info i ≡ some (reverse p, x, s) =
          rw (← n) (do_list_elem_find-split info p x s eq v.counted) in
        rw (suc-==-zero, inside, suc-sub-one, found, behind, reverse-reverse, eq, ← n)
          (cut_at p x e s)
  ]

  total-insert_at :
      (k : ℕ) (e : Elem) (xs : List Elem)
      → total space (insert_at k e xs) ≡ total space xs + space e.nbytes
  unfolding total
  total-insert_at zero e xs = omega arith
  total-insert_at (suc k) e [] = omega arith
  total-insert_at (suc k) e (y ∷ xs) = omega (arith, total-insert_at k e xs)

  pub do_list_elem_link-IsValid :
      (info : ListMeta) (index : ℕ) (e : Elem)
      → IsValid space info
      → index ≤ info.ccnt
      → IsValid space (do_list_elem_link space info index e)
  unfolding do_list_elem_link
  do_list_elem_link-IsValid info index e v h =
      let eq = do_list_elem_link-elems info index e v h in
      record {
        counted = rw eq (omega (arith, v.counted, length-insert_at index e info.elems));
        spaced = rw eq (omega (arith, v.spaced, total-insert_at index e info.elems));
        referenced = v.referenced;
      }
