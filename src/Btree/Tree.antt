-- ===== src/Btree/Tree.antt =====
-- engines/default/coll_btree.c: the tree, and the search for a key in it.
mod Shape
mod Leaf
mod Reach
mod Cut
mod Place
mod Tests
use arcus_memcached.Prelude.{
  ℕ, zero, suc, ◌+◌, ◌-◌, ◌⊎◌, inl, inr, Option, none, some, List, [], ◌∷◌, length, get_elem?, ℤ,
  pos, negsuc,
}
use arcus_memcached.CollList.{ErrorCode}
use arcus_memcached.Btree.{Bkey, bkey_comp}
use arcus_memcached.Search.{search_loop}

-- `btree_elem_item`, with the key, the flag and the value that `data` holds.
pub record BtreeElem : Type 0 where
  pub bkey : Bkey
  pub eflag : List ℕ
  pub value : List ℕ

-- `btree_leaf_node` and `btree_indx_node`: the elements of a leaf, where `ndepth` is 0, or the nodes below.
-- `used_count` is their number.
mutual
  pub data Node : Type 0 where
    leaf : List BtreeElem → Node
    index : Nodes → Node

  pub data Nodes : Type 0 where
    nil : Nodes
    cons : Node → Nodes → Nodes

abbrev pub used_count : Nodes → ℕ
used_count nil = 0
used_count (cons n ns) = suc (used_count ns)

-- `do_btree_get_first_elem`
pub do_btree_get_first_elem : Node → Option BtreeElem
do_btree_get_first_elem (leaf elems) = get_elem? elems 0
do_btree_get_first_elem (index nil) = none
do_btree_get_first_elem (index (cons n ns)) = do_btree_get_first_elem n

-- The separator of the node at an index, and the comparison with it.
pub separator : Nodes → ℕ → Option BtreeElem
unfolding do_btree_get_first_elem
separator nil i = none
separator (cons n ns) zero = do_btree_get_first_elem n
separator (cons n ns) (suc i) = separator ns i

abbrev pub comp_with : Bkey → Option BtreeElem → ℤ
comp_with bkey none = pos 1
comp_with bkey (some elem) = bkey_comp bkey elem.bkey

-- A leaf on the way down: `indx` of the path from the root on, the elements of the leaf, and `found_elem`.
pub record Found : Type 0 where
  pub path : List ℕ
  pub elems : List BtreeElem
  pub found_elem : Option BtreeElem

abbrev pub below : ℕ → Option Found → Option Found
below indx none = none
below indx (some r) = some (record r { path = indx ∷ r.path })

-- `do_btree_get_first_leaf`, with the path down to it
pub do_btree_get_first_leaf : Node → Option Found
do_btree_get_first_leaf (leaf elems) = some (record { path = []; elems = elems; found_elem = none })
do_btree_get_first_leaf (index nil) = none
do_btree_get_first_leaf (index (cons n ns)) = below 0 (do_btree_get_first_leaf n)

pub first_leaf_at : Nodes → ℕ → Option Found
unfolding do_btree_get_first_leaf
first_leaf_at nil i = none
first_leaf_at (cons n ns) zero = do_btree_get_first_leaf n
first_leaf_at (cons n ns) (suc i) = first_leaf_at ns i

abbrev pub with_elem : Option BtreeElem → Option Found → Option Found
with_elem elem none = none
with_elem elem (some r) = some (record r { found_elem = elem })

-- `do_btree_find_leaf`; an index node has a node below it, and the search of its separators starts at 1.
mutual
  unfolding separator first_leaf_at

  pub do_btree_find_leaf : Bkey → Node → Option Found
  do_btree_find_leaf bkey (leaf elems) =
      some (record { path = []; elems = elems; found_elem = none })
  do_btree_find_leaf bkey (index nodes) =
      elim (search_loop (λ mid. comp_with bkey (separator nodes mid)) (suc (used_count nodes)) 1
        (used_count nodes)) [
          | none ↦ none
          | some (inl mid) ↦ with_elem (separator nodes mid) (below mid (first_leaf_at nodes mid))
          | some (inr left) ↦ below (left - 1) (find_leaf_at bkey nodes (left - 1))
        ]

  pub find_leaf_at : Bkey → Nodes → ℕ → Option Found
  find_leaf_at bkey nil i = none
  find_leaf_at bkey (cons n ns) zero = do_btree_find_leaf bkey n
  find_leaf_at bkey (cons n ns) (suc i) = find_leaf_at bkey ns i

-- `do_btree_find_insposi`: the code, the path to the leaf, and `indx` in it
pub do_btree_find_insposi : Bkey → Node → Option (ErrorCode × List ℕ × ℕ)
unfolding do_btree_find_leaf
do_btree_find_insposi bkey root = elim (do_btree_find_leaf bkey root) [
  | none ↦ none
  | some r ↦ elim r.found_elem [
    | some elem ↦ some (ErrorCode.elem_eexists, r.path, 0)
    | none ↦
        let used = length r.elems in
        elim (search_loop (λ mid. comp_with bkey (get_elem? r.elems mid)) (suc used) 0 used) [
          | none ↦ none
          | some (inl mid) ↦ some (ErrorCode.elem_eexists, r.path, mid)
          | some (inr left) ↦ some (ErrorCode.success, r.path, left)
        ]
  ]
]
