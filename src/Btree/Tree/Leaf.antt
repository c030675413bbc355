-- ===== src/Btree/Tree/Leaf.antt =====
-- engines/default/coll_btree.c: what `do_btree_find_leaf` reaches.
use arcus_memcached.Prelude.{
  ℕ, zero, suc, ◌<◌, ◌≤◌, ◌≡◌, ◌⊎◌, inl, inr, refl, sym, ap, ap₂, ◌∙◌, subst, Bool, true, Option,
  none, some, List, [], ◌∷◌, ◌++◌, append_assoc, get_elem?, take, drop, pos, arith,
}
use arcus_memcached.Btree.{Bkey, bkey_comp}
use arcus_memcached.Btree.Order.{is_binary}
use arcus_memcached.Search.{is_neg, is_pos, InOrder}
use arcus_memcached.Btree.Tree.{
  BtreeElem, Node, Nodes, leaf, index, nil, cons, used_count, separator, comp_with,
}
use arcus_memcached.Btree.Tree.Shape.{
  All, All-append, All-left, All-right, Increasing, Increasing-right, less, greater, greater_behind,
  less_before, elems_of, elems_all, FullAll, before, from, before-from,
  do_btree_get_first_elem-Heads, separator-Heads,
}

-- The elements before and behind the place that a path and an index in its leaf tell.
unfoldable mutual
  unfolding elems_of

  pub place : Node → List ℕ → ℕ → List BtreeElem × List BtreeElem
  place (leaf elems) path indx = (take indx elems, drop indx elems)
  place (index ns) [] indx = ([], elems_all ns)
  place (index ns) (i ∷ path) indx = place_at ns i path indx

  pub place_at : Nodes → ℕ → List ℕ → ℕ → List BtreeElem × List BtreeElem
  place_at nil i path indx = ([], [])
  place_at (cons n ns) zero path indx = let r = place n path indx in (r.0, r.1 ++ elems_all ns)
  place_at (cons n ns) (suc i) path indx =
      let r = place_at ns i path indx in (elems_of n ++ r.0, r.1)

module _ (bkey : Bkey) where
  -- What is known of the elements on both sides of a leaf, by what was found on the way.
  unfoldable pub Sides :
      List BtreeElem → List BtreeElem → List BtreeElem → Option BtreeElem → Type 0
  Sides pre post elems none = All (less bkey) pre × All (greater bkey) post
  Sides pre post elems (some e) = (bkey_comp bkey e.bkey ≡ pos 0) × (get_elem? elems 0 ≡ some e)

  pub record Reached (cut : ℕ → List BtreeElem × List BtreeElem) (all elems : List BtreeElem)
      (found_elem : Option BtreeElem) : Type 0 where
    pub pre : List BtreeElem
    pub post : List BtreeElem
    pub cuts : (indx : ℕ) → cut indx ≡ (pre ++ take indx elems, drop indx elems ++ post)
    pub whole : all ≡ pre ++ (elems ++ post)
    pub sides : Sides pre post elems found_elem

  abbrev Wider : (BtreeElem → Bool) → List BtreeElem → Option BtreeElem → Type 0
  Wider p es o = All p es ⊎ (e : BtreeElem) × (o ≡ some e)

  Sides-behind :
      (pre post elems rest : List BtreeElem) (o : Option BtreeElem)
      → Sides pre post elems o
      → Wider (greater bkey) rest o
      → Sides pre (post ++ rest) elems o
  unfolding Sides
  Sides-behind pre post elems rest none (a, b) (inl g) =
      (a, All-append (greater bkey) post rest b g)
  Sides-behind pre post elems rest none s (inr (e, q)) = absurd (ground arith)
  Sides-behind pre post elems rest (some e) s h = s

  Sides-before :
      (pre post elems first : List BtreeElem) (o : Option BtreeElem)
      → Sides pre post elems o
      → Wider (less bkey) first o
      → Sides (first ++ pre) post elems o
  unfolding Sides
  Sides-before pre post elems first none (a, b) (inl g) = (All-append (less bkey) first pre g a, b)
  Sides-before pre post elems first none s (inr (e, q)) = absurd (ground arith)
  Sides-before pre post elems first (some e) s h = s

  -- With more elements behind, or before.
  pub more_behind :
      (cut : ℕ → List BtreeElem × List BtreeElem) (all elems rest : List BtreeElem)
      (o : Option BtreeElem)
      → Reached cut all elems o
      → Wider (greater bkey) rest o
      → Reached (λ indx. ((cut indx).0, (cut indx).1 ++ rest)) (all ++ rest) elems o
  more_behind cut all elems rest o r h = record {
    pre = r.pre;
    post = r.post ++ rest;
    cuts = λ indx.
        ap₂ (λ a b. (a, b)) (ap (λ p. p.0) (r.cuts indx))
          (ap (λ p. p.1 ++ rest) (r.cuts indx) ∙ append_assoc (drop indx elems) r.post rest);
    whole =
        ap (λ t. t ++ rest) r.whole
        ∙ append_assoc r.pre (elems ++ r.post) rest
        ∙ ap (λ t. r.pre ++ t) (append_assoc elems r.post rest);
    sides = Sides-behind r.pre r.post elems rest o r.sides h;
  }

  pub more_before :
      (cut : ℕ → List BtreeElem × List BtreeElem) (all elems first : List BtreeElem)
      (o : Option BtreeElem)
      → Reached cut all elems o
      → Wider (less bkey) first o
      → Reached (λ indx. (first ++ (cut indx).0, (cut indx).1)) (first ++ all) elems o
  more_before cut all elems first o r h = record {
    pre = first ++ r.pre;
    post = r.post;
    cuts = λ indx.
        ap₂ (λ a b. (a, b))
          (ap (λ p. first ++ p.0) (r.cuts indx) ∙ sym (append_assoc first r.pre (take indx elems)))
          (ap (λ p. p.1) (r.cuts indx));
    whole = ap (λ t. first ++ t) r.whole ∙ sym (append_assoc first r.pre (elems ++ r.post));
    sides = Sides-before r.pre r.post elems first o r.sides h;
  }

  -- The separators from 1 on stand in order.
  before-separator :
      (ns : Nodes) (i j : ℕ) (e : BtreeElem) (p : BtreeElem → Bool)
      → FullAll ns
      → i < j
      → j < used_count ns
      → separator ns i ≡ some e
      → All p (before ns j)
      → p e ≡ true
  unfolding before separator FullAll All
  before-separator nil i j e p f h l q a = absurd (omega arith)
  before-separator (cons n ns) i zero e p f h l q a = absurd (omega arith)
  before-separator (cons n ns) (suc i) (suc j) e p (f, g) h l q a =
      before-separator ns i j e p g (omega arith) (omega arith) q
        (All-right p (elems_of n) (before ns j) a)
  before-separator (cons n ns) zero (suc j) e p (f, g) h l q a =
      let (x, rest, b, c) = do_btree_get_first_elem-Heads n f in
      at_head e x rest (sym q ∙ b) (subst (All p) c (All-left p (elems_of n) (before ns j) a))
    where
      at_head :
          (e x : BtreeElem) (rest : List BtreeElem)
          → some e ≡ some x
          → All p (x ∷ rest)
          → p e ≡ true
      at_head e x rest h (k, a) =
          subst (λ y. p y ≡ true) (ap (λ o. elim o [ none ↦ x | some z ↦ z ]) (sym h)) k

  pub from-zero : (ns : Nodes) → elems_all ns ≡ from ns 0
  unfolding from elems_all
  from-zero nil = refl
  from-zero (cons n ns) = refl

  from-later :
      (ns : Nodes) (i j : ℕ) (p : BtreeElem → Bool) → i ≤ j → All p (from ns i) → All p (from ns j)
  unfolding from All
  from-later nil i j p h a = a
  from-later (cons n ns) zero zero p h a = a
  from-later (cons n ns) zero (suc j) p h a =
      from-later ns 0 j p (omega arith)
        (subst (All p) (from-zero ns) (All-right p (elems_of n) (elems_all ns) a))
  from-later (cons n ns) (suc i) zero p h a = absurd (omega arith)
  from-later (cons n ns) (suc i) (suc j) p h a = from-later ns i j p (omega arith) a

  Increasing-from :
      (ns : Nodes) (i : ℕ)
      → Increasing (is_binary bkey) (elems_all ns)
      → Increasing (is_binary bkey) (from ns i)
  Increasing-from ns i s =
      Increasing-right (is_binary bkey) (before ns i) (from ns i)
        (subst (Increasing (is_binary bkey)) (sym (before-from ns i)) s)

  module _ (ns : Nodes) (f : FullAll ns) (s : Increasing (is_binary bkey) (elems_all ns)) where
    -- A separator that is greater, or less, than the key.
    pub greater_from :
        (i : ℕ)
        → i < used_count ns
        → is_neg (comp_with bkey (separator ns i)) ≡ true
        → All (greater bkey) (from ns i)
    greater_from i l g =
        let (e, rest, q, c) = separator-Heads ns i f l in
        subst (All (greater bkey)) (sym c) (
          greater_behind bkey e rest
            (subst (Increasing (is_binary bkey)) c (Increasing-from ns i s))
            (ap (λ o. is_neg (comp_with bkey o)) (sym q) ∙ g))

    pub less_up_to :
        (i : ℕ)
        → i < used_count ns
        → is_pos (comp_with bkey (separator ns i)) ≡ true
        → All (less bkey) (before ns i)
    less_up_to i l g =
        let (e, rest, q, c) = separator-Heads ns i f l in
        less_before bkey (before ns i) e rest
          (subst (Increasing (is_binary bkey))
            (sym (before-from ns i) ∙ ap (λ t. before ns i ++ t) c) s)
          (ap (λ o. is_pos (comp_with bkey o)) (sym q) ∙ g)

    pub separators-InOrder :
        (first : ℕ) → InOrder (λ i. comp_with bkey (separator ns i)) first (used_count ns)
    unfolding All
    separators-InOrder first = record {
      after = λ i j z h l g.
          let (e, rest, q, c) = separator-Heads ns j f l in
          let (k, a) =
            subst (All (greater bkey)) c
              (from-later ns i j (greater bkey) (omega arith) (greater_from i (omega arith) g)) in
          ap (λ o. is_neg (comp_with bkey o)) q ∙ k;
      before = λ i j z h l g.
          let (e, rest, q, c) = separator-Heads ns i f (omega arith) in
          ap (λ o. is_pos (comp_with bkey o)) q
          ∙ before-separator ns i j e (less bkey) f h l q (less_up_to j l g);
    }
