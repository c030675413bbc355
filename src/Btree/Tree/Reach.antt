-- ===== src/Btree/Tree/Reach.antt =====
-- engines/default/coll_btree.c: the leaf that `do_btree_find_leaf` reaches, for every tree.
use arcus_memcached.Prelude.{
  ℕ, zero, suc, ◌-◌, ◌<◌, ◌≤◌, ◌≡◌, ◌⊎◌, inl, inr, refl, sym, ap, ap₂, ◌∙◌, subst, true, Option,
  none, some, List, [], ◌∷◌, append-nil, take, drop, ltb, pos, arith, Bool-cases,
}
use arcus_memcached.Btree.{Bkey, bkey_comp}
use arcus_memcached.Btree.Order.{is_binary}
use arcus_memcached.Search.{search_loop, is_neg, is_pos, Located, search-Located}
use arcus_memcached.Btree.Tree.{
  BtreeElem, Node, Nodes, leaf, index, nil, cons, used_count, do_btree_get_first_elem, separator,
  comp_with, Found, below, with_elem, do_btree_get_first_leaf, first_leaf_at, do_btree_find_leaf,
  find_leaf_at,
}
use arcus_memcached.Btree.Tree.Shape.{
  All, All-left, All-right, Increasing, Increasing-left, Increasing-right, less, greater, elems_of,
  elems_all, Full, FullAll, before, from, separator-Heads,
}
use arcus_memcached.Btree.Tree.Leaf.{
  place, place_at, Sides, Reached, more_behind, more_before, from-zero, greater_from, less_up_to,
  separators-InOrder,
}

module _ (bkey : Bkey) where
  -- A result is there, and is a leaf that is known to be the right one.
  abbrev pub Reach :
      (List ℕ → ℕ → List BtreeElem × List BtreeElem) → List BtreeElem → Option Found → Type 0
  Reach cut all o = (r : Found) × (o ≡ some r) × Reached bkey (cut r.path) all r.elems r.found_elem

  abbrev ReachFirst :
      (List ℕ → ℕ → List BtreeElem × List BtreeElem)
      → List BtreeElem
      → BtreeElem
      → Option Found
      → Type 0
  ReachFirst cut all e o =
      (r : Found) × (o ≡ some r) × Reached bkey (cut r.path) all r.elems (some e)

  at_leaf :
      (elems : List BtreeElem) (path : List ℕ) (o : Option BtreeElem)
      → Sides bkey [] [] elems o
      → Reached bkey (place (leaf elems) path) elems elems o
  unfolding place
  at_leaf elems path o s = record {
    pre = [];
    post = [];
    cuts = λ indx. ap (λ t. (take indx elems, t)) (sym (append-nil (drop indx elems)));
    whole = sym (append-nil elems);
    sides = s;
  }

  mutual
    unfolding do_btree_get_first_leaf do_btree_get_first_elem separator first_leaf_at Sides place
        elems_of Full

    first_leaf-Reach :
        (n : Node) (e : BtreeElem)
        → bkey_comp bkey e.bkey ≡ pos 0
        → do_btree_get_first_elem n ≡ some e
        → ReachFirst (place n) (elems_of n) e (do_btree_get_first_leaf n)
    first_leaf-Reach (leaf elems) e h q = (
      record { path = []; elems = elems; found_elem = none },
      refl,
      at_leaf elems [] (some e) (h, q),
    )
    first_leaf-Reach (index nil) e h q = absurd (ground arith)
    first_leaf-Reach (index (cons n ns)) e h q =
        let (r, a, b) = first_leaf-Reach n e h q in
        (
          record r { path = 0 ∷ r.path },
          ap (below 0) a,
          more_behind bkey (place n r.path) (elems_of n) r.elems (elems_all ns) (some e) b
              (inr (e, refl)),
        )

    first_leaf_at-Reach :
        (ns : Nodes) (i : ℕ) (e : BtreeElem)
        → bkey_comp bkey e.bkey ≡ pos 0
        → separator ns i ≡ some e
        → ReachFirst (place_at ns i) (elems_all ns) e (first_leaf_at ns i)
    first_leaf_at-Reach nil i e h q = absurd (ground arith)
    first_leaf_at-Reach (cons n ns) zero e h q =
        let (r, a, b) = first_leaf-Reach n e h q in
        (
          r,
          a,
          more_behind bkey (place n r.path) (elems_of n) r.elems (elems_all ns) (some e) b
              (inr (e, refl)),
        )
    first_leaf_at-Reach (cons n ns) (suc i) e h q =
        let (r, a, b) = first_leaf_at-Reach ns i e h q in
        (
          r,
          a,
          more_before bkey (place_at ns i r.path) (elems_all ns) r.elems (elems_of n) (some e) b
              (inr (e, refl)),
        )

  none_before : (ns : Nodes) → All (less bkey) (before ns 0)
  unfolding before All
  none_before nil = tt
  none_before (cons n ns) = tt

  none_from : (ns : Nodes) (i : ℕ) → used_count ns ≤ i → All (greater bkey) (from ns i)
  unfolding from All
  none_from nil i h = tt
  none_from (cons n ns) zero h = absurd (omega arith)
  none_from (cons n ns) (suc i) h = none_from ns i (omega arith)

  -- What the search of the separators of an index node leads to.
  by_place :
      (ns : Nodes)
      → FullAll ns
      → Increasing (is_binary bkey) (elems_all ns)
      → 0 < used_count ns
      → ((i : ℕ)
          → i < used_count ns
          → All (less bkey) (before ns i)
          → All (greater bkey) (from ns (suc i))
          → Reach (place_at ns i) (elems_all ns) (find_leaf_at bkey ns i))
      → (o : Option (ℕ ⊎ ℕ)) → Located (λ i. comp_with bkey (separator ns i)) 1 (used_count ns) o
      → Reach (place (index ns)) (elems_all ns) (elim o [
        | none ↦ none
        | some (inl mid) ↦ with_elem (separator ns mid) (below mid (first_leaf_at ns mid))
        | some (inr left) ↦ below (left - 1) (find_leaf_at bkey ns (left - 1))
      ])
  unfolding Located place
  by_place ns f s p go none l = absurd (ground arith)
  by_place ns f s p go (some (inl mid)) (a, b, c) =
      let (e, rest, q, w) = separator-Heads ns mid f b in
      let (r, h, k) = first_leaf_at-Reach ns mid e (ap (comp_with bkey) (sym q) ∙ c) q in
      (
        record r { path = mid ∷ r.path; found_elem = some e },
        ap₂ (λ x y. with_elem x (below mid y)) q h,
        k,
      )
  by_place ns f s p go (some (inr left)) (a, b, c, d) =
      let (r, h, k) =
        go (left - 1) (omega arith)
          (less_side (left - 1) (omega arith) (λ i. c (left - 1) i (omega arith)))
          (greater_side (suc (left - 1)) (λ i. d (suc (left - 1)) (omega arith) i)) in
      (record r { path = (left - 1) ∷ r.path }, ap (below (left - 1)) h, k)
    where
      less_side :
          (i : ℕ)
          → i < used_count ns
          → (1 ≤ i → is_pos (comp_with bkey (separator ns i)) ≡ true)
          → All (less bkey) (before ns i)
      less_side zero h g = none_before ns
      less_side (suc i) h g = less_up_to bkey ns f s (suc i) h (g (omega arith))

      greater_side :
          (i : ℕ)
          → (i < used_count ns → is_neg (comp_with bkey (separator ns i)) ≡ true)
          → All (greater bkey) (from ns i)
      greater_side i g = elim (Bool-cases (ltb i (used_count ns))) [
        | inl h ↦ greater_from bkey ns f s i (ground arith) (g (ground arith))
        | inr h ↦ none_from ns i (ground arith)
      ]

  mutual
    unfolding do_btree_find_leaf Sides place elems_of Full before from All Located

    pub find_leaf-Reach :
        (n : Node)
        → Full n
        → Increasing (is_binary bkey) (elems_of n)
        → Reach (place n) (elems_of n) (do_btree_find_leaf bkey n)
    find_leaf-Reach (leaf elems) f s = (
      record { path = []; elems = elems; found_elem = none },
      refl,
      at_leaf elems [] none (tt, tt),
    )
    find_leaf-Reach (index ns) (p, f) s =
        by_place ns f s p (λ i. find_leaf_at-Reach ns i f s)
          (search_loop (λ mid. comp_with bkey (separator ns mid)) (suc (used_count ns)) 1
            (used_count ns))
          (search-Located (λ i. comp_with bkey (separator ns i)) 1 (used_count ns)
            (separators-InOrder bkey ns f s 1) (omega arith))

    find_leaf_at-Reach :
        (ns : Nodes) (i : ℕ)
        → FullAll ns
        → Increasing (is_binary bkey) (elems_all ns)
        → i < used_count ns
        → All (less bkey) (before ns i)
        → All (greater bkey) (from ns (suc i))
        → Reach (place_at ns i) (elems_all ns) (find_leaf_at bkey ns i)
    find_leaf_at-Reach nil i f s h a b = absurd (omega arith)
    find_leaf_at-Reach (cons n ns) zero (f, g) s h a b =
        let (r, q, k) =
          find_leaf-Reach n f (Increasing-left (is_binary bkey) (elems_of n) (elems_all ns) s) in
        (
          r,
          q,
          more_behind bkey (place n r.path) (elems_of n) r.elems (elems_all ns) r.found_elem k
              (inl (subst (All (greater bkey)) (sym (from-zero bkey ns)) b)),
        )
    find_leaf_at-Reach (cons n ns) (suc i) (f, g) s h a b =
        let (r, q, k) =
          find_leaf_at-Reach ns i g
            (Increasing-right (is_binary bkey) (elems_of n) (elems_all ns) s) (omega arith)
            (All-right (less bkey) (elems_of n) (before ns i) a) b in
        (
          r,
          q,
          more_before bkey (place_at ns i r.path) (elems_all ns) r.elems (elems_of n) r.found_elem k
              (inl (All-left (less bkey) (elems_of n) (before ns i) a)),
        )
