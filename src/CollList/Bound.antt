-- ===== src/CollList/Bound.antt =====
-- engines/default/coll_list.c: `do_list_elem_insert` keeps a list within its maximum count, and a
-- refused insertion leaves no trace.
use arcus_memcached.Prelude.{ℕ, ◌≡◌, Bool, false, arith, ℤ}
use arcus_memcached.CollList.{Elem, ListMeta, is_success, do_list_elem_insert}

module _ (space : ℕ → ℕ) where
  -- A refused insertion returns the list as it was.
  pub do_list_elem_insert-refused :
      (max_list_size : ℕ) (sticky_full : Bool) (info : ListMeta) (index : ℤ) (e : Elem)
      → is_success (do_list_elem_insert space max_list_size sticky_full info index e).0 ≡ false
      → (do_list_elem_insert space max_list_size sticky_full info index e).1 ≡ info
  unfolding do_list_elem_insert
  do_list_elem_insert-refused max_list_size sticky_full info index e h = ground arith
