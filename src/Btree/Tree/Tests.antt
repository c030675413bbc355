-- ===== src/Btree/Tree/Tests.antt =====
-- engines/default/coll_btree.c: runs of the search of a small tree, and the theorem at it.
use arcus_memcached.Prelude.{ℕ, ◌≡◌, refl, false, some, List, [], ◌∷◌, arith}
use arcus_memcached.CollList.{ErrorCode}
use arcus_memcached.Btree.{uint64, bkey_comp, uint64_comp}
use arcus_memcached.Search.{search_loop}
use arcus_memcached.Btree.Tree.{
  BtreeElem, Node, leaf, index, nil, cons, do_btree_get_first_elem, separator,
  do_btree_get_first_leaf, first_leaf_at, do_btree_find_leaf, do_btree_find_insposi,
}
use arcus_memcached.Btree.Tree.Shape.{All, Increasing, elems_of, Full}
use arcus_memcached.Btree.Tree.Leaf.{place}
use arcus_memcached.Btree.Tree.Place.{Placed, do_btree_find_insposi-Placed}

abbrev elem : ℕ → BtreeElem
elem k = record { bkey = uint64 k; eflag = []; value = [] }

abbrev tree : Node
tree = index (
    cons (leaf (elem 1 ∷ elem 3 ∷ []))
      (cons (leaf (elem 5 ∷ elem 7 ∷ [])) (cons (leaf (elem 9 ∷ [])) nil)))

tree-Full : Full tree
unfolding Full
tree-Full = (omega arith, (omega arith, (omega arith, (omega arith, tt))))

tree-Increasing : Increasing false (elems_of tree)
unfolding Increasing elems_of All bkey_comp uint64_comp
tree-Increasing = (
  refl,
  (refl, (refl, (refl, (refl, tt)))),
  (
    refl,
    (refl, (refl, (refl, tt))),
    (refl, (refl, (refl, tt)), (refl, (refl, tt), (refl, tt, tt))),
  ),
)

do_btree_find_insposi-Placed_example :
    (r : ErrorCode × List ℕ × ℕ) × (do_btree_find_insposi (uint64 6) tree ≡ some r)
    × Placed (uint64 6) tree (r.0) (place tree (r.1) (r.2))
do_btree_find_insposi-Placed_example =
    do_btree_find_insposi-Placed (uint64 6) tree tree-Full tree-Increasing

place_run :
    (do_btree_find_insposi (uint64 6) tree ≡ some (ErrorCode.success, 1 ∷ [], 1))
    × (do_btree_find_insposi (uint64 0) tree ≡ some (ErrorCode.success, 0 ∷ [], 0))
    × (do_btree_find_insposi (uint64 7) tree ≡ some (ErrorCode.elem_eexists, 1 ∷ [], 1))
    × (do_btree_find_insposi (uint64 9) tree ≡ some (ErrorCode.elem_eexists, 2 ∷ [], 0))
unfolding do_btree_find_insposi do_btree_find_leaf separator first_leaf_at do_btree_get_first_leaf
    do_btree_get_first_elem search_loop bkey_comp uint64_comp
place_run = (refl, refl, refl, refl)
