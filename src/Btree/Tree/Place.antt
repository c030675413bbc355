-- ===== src/Btree/Tree/Place.antt =====
-- engines/default/coll_btree.c: the place that `do_btree_find_insposi` finds.
use arcus_memcached.Prelude.{
  ℕ, suc, ◌≡◌, ◌⊎◌, inl, inr, refl, sym, ap, ◌∙◌, subst, true, false, Option, none, some, List,
  ◌++◌, append_assoc, length, get_elem?, take, drop, take-append-drop, pos, arith,
}
use arcus_memcached.CollList.{ErrorCode}
use arcus_memcached.Btree.{Bkey, bkey_comp}
use arcus_memcached.Btree.Order.{is_binary, bkey_comp-zero}
use arcus_memcached.Search.{search_loop, Located, search-Located}
use arcus_memcached.Btree.Tree.{BtreeElem, Node, comp_with, do_btree_find_insposi}
use arcus_memcached.Btree.Tree.Shape.{
  All, All-append, Increasing, Increasing-left, Increasing-right, less, greater, elems_of, Full,
}
use arcus_memcached.Btree.Tree.Leaf.{place, Sides, Reached}
use arcus_memcached.Btree.Tree.Reach.{find_leaf-Reach}
use arcus_memcached.Btree.Tree.Cut.{
  get-split, elems-InOrder, take-less, drop-greater, get-append, kind_of,
}

-- What a place is, by the code that came with it: the place of the key, with all lesser elements before it and
-- all greater ones behind it, or that of an element with the key.
unfoldable pub Placed : Bkey → Node → ErrorCode → List BtreeElem × List BtreeElem → Type 0
Placed bkey root ErrorCode.success (pre, post) =
    (pre ++ post ≡ elems_of root) × All (less bkey) pre × All (greater bkey) post
Placed bkey root ErrorCode.elem_eexists (pre, post) =
    (pre ++ post ≡ elems_of root)
    × ((e : BtreeElem) × (get_elem? post 0 ≡ some e) × (e.bkey ≡ bkey))
Placed bkey root _ (pre, post) = true ≡ false

module _ (bkey : Bkey) (root : Node) (s : Increasing (is_binary bkey) (elems_of root)) where
  -- Both sides of a cut of a leaf that was reached are all the elements.
  joined :
      (pre post elems : List BtreeElem) (i : ℕ)
      → elems_of root ≡ pre ++ (elems ++ post)
      → (pre ++ take i elems) ++ (drop i elems ++ post) ≡ elems_of root
  joined pre post elems i w =
      append_assoc pre (take i elems) (drop i elems ++ post)
      ∙ ap (λ t. pre ++ t)
          (sym (append_assoc (take i elems) (drop i elems) post)
            ∙ ap (λ t. t ++ post) (take-append-drop i elems))
      ∙ sym w

  -- An element of the leaf that compares as equal.
  equal_at :
      (pre post elems : List BtreeElem) (i : ℕ) (e : BtreeElem)
      → elems_of root ≡ pre ++ (elems ++ post)
      → get_elem? (drop i elems) 0 ≡ some e
      → bkey_comp bkey e.bkey ≡ pos 0
      → Placed bkey root ErrorCode.elem_eexists (pre ++ take i elems, drop i elems ++ post)
  unfolding Placed
  equal_at pre post elems i e w q c =
      let j = joined pre post elems i w in
      let h = get-append (drop i elems) post e q in
      let k =
        kind_of (is_binary bkey) (drop i elems ++ post) e
          (Increasing-right (is_binary bkey) (pre ++ take i elems) (drop i elems ++ post)
            (subst (Increasing (is_binary bkey)) (sym j) s))
          h in
      (j, (e, h, sym (bkey_comp-zero bkey e.bkey (sym k) c)))

  PlacedAt : Option (ErrorCode × List ℕ × ℕ) → Type 0
  PlacedAt o =
      (r : ErrorCode × List ℕ × ℕ) × (o ≡ some r) × Placed bkey root (r.0) (place root (r.1) (r.2))

  by_leaf :
      (path : List ℕ) (elems : List BtreeElem) (found_elem : Option BtreeElem)
      → Reached bkey (place root path) (elems_of root) elems found_elem
      → PlacedAt (elim found_elem [
        | some elem ↦ some (ErrorCode.elem_eexists, path, 0)
        | none ↦
            elim (search_loop
              (λ mid. comp_with bkey (get_elem? elems mid))
              (suc (length elems))
              0
              (length elems)) [
                | none ↦ none
                | some (inl mid) ↦ some (ErrorCode.elem_eexists, path, mid)
                | some (inr left) ↦ some (ErrorCode.success, path, left)
              ]
      ])
  unfolding Sides PlacedAt Located Placed
  by_leaf path elems (some e) k =
      let (c, q) = k.sides in
      (
        (ErrorCode.elem_eexists, path, 0),
        refl,
        subst (Placed bkey root ErrorCode.elem_eexists) (sym (k.cuts 0))
            (equal_at k.pre k.post elems 0 e k.whole q c),
      )
  by_leaf path elems none k =
      by_search
        (search_loop (λ mid. comp_with bkey (get_elem? elems mid)) (suc (length elems)) 0
          (length elems))
        (search-Located (λ i. comp_with bkey (get_elem? elems i)) 0 (length elems)
          (elems-InOrder bkey elems inner) (omega arith))
    where
      inner : Increasing (is_binary bkey) elems
      inner = Increasing-left (is_binary bkey) elems k.post (
          Increasing-right (is_binary bkey) k.pre (elems ++ k.post)
            (subst (Increasing (is_binary bkey)) k.whole s))

      by_search :
          (o : Option (ℕ ⊎ ℕ))
          → Located (λ i. comp_with bkey (get_elem? elems i)) 0 (length elems) o
          → PlacedAt (elim o [
            | none ↦ none
            | some (inl mid) ↦ some (ErrorCode.elem_eexists, path, mid)
            | some (inr left) ↦ some (ErrorCode.success, path, left)
          ])
      by_search none l = absurd (ground arith)
      by_search (some (inl mid)) (z, l, c) =
          let (e, q, w, d) = get-split elems mid l in
          (
            (ErrorCode.elem_eexists, path, mid),
            refl,
            subst (Placed bkey root ErrorCode.elem_eexists) (sym (k.cuts mid)) (
                equal_at k.pre k.post elems mid e k.whole (ap (λ t. get_elem? t 0) d)
                  (ap (comp_with bkey) (sym q) ∙ c)),
          )
      by_search (some (inr left)) (z, l, p, n) =
          let (a, b) = k.sides in
          (
            (ErrorCode.success, path, left),
            refl,
            subst (Placed bkey root ErrorCode.success) (sym (k.cuts left)) (
              joined k.pre k.post elems left k.whole,
              All-append (less bkey) k.pre (take left elems) a
                  (take-less bkey elems inner elems left (λ i x y. p i (omega arith) x)),
              All-append (greater bkey) (drop left elems) k.post
                  (drop-greater bkey elems inner elems left n) b,
            ),
          )

  found : Full root → PlacedAt (do_btree_find_insposi bkey root)
  unfolding do_btree_find_insposi PlacedAt
  found f =
      let (r, q, k) = find_leaf-Reach bkey root f s in
      subst
        (λ o. PlacedAt (elim o [
          | none ↦ none
          | some r ↦ elim r.found_elem [
            | some elem ↦ some (ErrorCode.elem_eexists, r.path, 0)
            | none ↦
                let used = length r.elems in
                elim (search_loop (λ mid. comp_with bkey (get_elem? r.elems mid)) (suc used) 0
                  used) [
                    | none ↦ none
                    | some (inl mid) ↦ some (ErrorCode.elem_eexists, r.path, mid)
                    | some (inr left) ↦ some (ErrorCode.success, r.path, left)
                  ]
          ]
        ]))
        (sym q) (by_leaf r.path r.elems r.found_elem k)

-- In a tree without empty nodes, whose keys are of the kind of the key that is sought and increase, the search
-- for the place of an insertion ends, and finds the place: that of an element with the key, or the one before
-- which all keys are less and behind which all are greater.
pub do_btree_find_insposi-Placed :
    (bkey : Bkey) (root : Node)
    → Full root
    → Increasing (is_binary bkey) (elems_of root)
    → (r : ErrorCode × List ℕ × ℕ) × (do_btree_find_insposi bkey root ≡ some r)
      × Placed bkey root (r.0) (place root (r.1) (r.2))
unfolding PlacedAt
do_btree_find_insposi-Placed bkey root f s = found bkey root s f
