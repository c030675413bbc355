-- ===== src/Btree/Tree/Cut.antt =====
-- engines/default/coll_btree.c: the search of a leaf, and the elements on both sides of an index.
use arcus_memcached.Prelude.{
  ℕ, zero, suc, ◌<◌, ◌≤◌, ◌≡◌, refl, sym, ap, ◌∙◌, subst, Bool, true, none, some, List, [], ◌∷◌,
  ◌++◌, length, get_elem?, take, drop, arith,
}
use arcus_memcached.Btree.{Bkey}
use arcus_memcached.Btree.Order.{is_binary}
use arcus_memcached.Search.{is_neg, is_pos, InOrder}
use arcus_memcached.Btree.Tree.{BtreeElem, comp_with}
use arcus_memcached.Btree.Tree.Shape.{
  All, Increasing, Increasing-right, less, greater, greater_behind, less_before,
}

pub get-split :
    (es : List BtreeElem) (i : ℕ)
    → i < length es
    → (e : BtreeElem) × (get_elem? es i ≡ some e)
      × (es ≡ take i es ++ (e ∷ drop (suc i) es))
      × (drop i es ≡ e ∷ drop (suc i) es)
get-split [] i h = absurd (omega arith)
get-split (e ∷ es) zero h = (e, refl, refl, refl)
get-split (e ∷ es) (suc i) h =
    let (x, q, s, d) = get-split es i (omega arith) in (x, q, ap (λ t. e ∷ t) s, d)

All-drop :
    (p : BtreeElem → Bool) (es : List BtreeElem) (i j : ℕ) (e : BtreeElem)
    → All p (drop i es)
    → i ≤ j
    → get_elem? es j ≡ some e
    → p e ≡ true
unfolding All
All-drop p [] i j e a h q = absurd (ground arith)
All-drop p (x ∷ es) zero zero e (k, a) h q =
    subst (λ y. p y ≡ true) (ap (λ o. elim o [ none ↦ x | some z ↦ z ]) q) k
All-drop p (x ∷ es) zero (suc j) e (k, a) h q = All-drop p es 0 j e a (omega arith) q
All-drop p (x ∷ es) (suc i) zero e a h q = absurd (omega arith)
All-drop p (x ∷ es) (suc i) (suc j) e a h q = All-drop p es i j e a (omega arith) q

All-take :
    (p : BtreeElem → Bool) (es : List BtreeElem) (i j : ℕ) (e : BtreeElem)
    → All p (take j es)
    → i < j
    → get_elem? es i ≡ some e
    → p e ≡ true
unfolding All
All-take p [] i j e a h q = absurd (ground arith)
All-take p (x ∷ es) i zero e a h q = absurd (omega arith)
All-take p (x ∷ es) zero (suc j) e (k, a) h q =
    subst (λ y. p y ≡ true) (ap (λ o. elim o [ none ↦ x | some z ↦ z ]) q) k
All-take p (x ∷ es) (suc i) (suc j) e (k, a) h q = All-take p es i j e a (omega arith) q

module _ (bkey : Bkey) (elems : List BtreeElem) (s : Increasing (is_binary bkey) elems) where
  greater-drop :
      (i : ℕ)
      → i < length elems
      → is_neg (comp_with bkey (get_elem? elems i)) ≡ true
      → All (greater bkey) (drop i elems)
  greater-drop i l g =
      let (e, q, w, d) = get-split elems i l in
      subst (All (greater bkey)) (sym d) (
        greater_behind bkey e (drop (suc i) elems)
          (Increasing-right (is_binary bkey) (take i elems) (e ∷ drop (suc i) elems)
            (subst (Increasing (is_binary bkey)) w s))
          (ap (λ o. is_neg (comp_with bkey o)) (sym q) ∙ g))

  less_take :
      (i : ℕ)
      → i < length elems
      → is_pos (comp_with bkey (get_elem? elems i)) ≡ true
      → All (less bkey) (take i elems)
  less_take i l g =
      let (e, q, w, d) = get-split elems i l in
      less_before bkey (take i elems) e (drop (suc i) elems)
        (subst (Increasing (is_binary bkey)) w s) (ap (λ o. is_pos (comp_with bkey o)) (sym q) ∙ g)

  pub elems-InOrder : InOrder (λ i. comp_with bkey (get_elem? elems i)) 0 (length elems)
  elems-InOrder = record {
    after = λ i j z h l g.
        let (e, q, w, d) = get-split elems j l in
        ap (λ o. is_neg (comp_with bkey o)) q
        ∙ All-drop (greater bkey) elems i j e (greater-drop i (omega arith) g) (omega arith) q;
    before = λ i j z h l g.
        let (e, q, w, d) = get-split elems i (omega arith) in
        ap (λ o. is_pos (comp_with bkey o)) q
        ∙ All-take (less bkey) elems i j e (less_take j l g) h q;
  }

  -- The elements before the place where the search of a leaf ends, and those behind it.
  pub take-less :
      (xs : List BtreeElem) (left : ℕ)
      → ((i : ℕ) → i < left → i < length xs → is_pos (comp_with bkey (get_elem? xs i)) ≡ true)
      → All (less bkey) (take left xs)
  unfolding All
  take-less xs zero h = tt
  take-less [] (suc left) h = tt
  take-less (x ∷ xs) (suc left) h = (
    h 0 (omega arith) (omega arith),
    take-less xs left (λ i a b. h (suc i) (omega arith) (omega arith)),
  )

  pub drop-greater :
      (xs : List BtreeElem) (left : ℕ)
      → ((i : ℕ) → left ≤ i → i < length xs → is_neg (comp_with bkey (get_elem? xs i)) ≡ true)
      → All (greater bkey) (drop left xs)
  unfolding All
  drop-greater [] zero h = tt
  drop-greater [] (suc left) h = tt
  drop-greater (x ∷ xs) zero h = (
    h 0 (omega arith) (omega arith),
    drop-greater xs 0 (λ i a b. h (suc i) (omega arith) (omega arith)),
  )
  drop-greater (x ∷ xs) (suc left) h =
      drop-greater xs left (λ i a b. h (suc i) (omega arith) (omega arith))

pub get-append :
    (xs ys : List BtreeElem) (e : BtreeElem)
    → get_elem? xs 0 ≡ some e
    → get_elem? (xs ++ ys) 0 ≡ some e
get-append [] ys e h = absurd (ground arith)
get-append (x ∷ xs) ys e h = h

pub kind_of :
    (kind : Bool) (xs : List BtreeElem) (e : BtreeElem)
    → Increasing kind xs
    → get_elem? xs 0 ≡ some e
    → is_binary e.bkey ≡ kind
unfolding Increasing
kind_of kind [] e s h = absurd (ground arith)
kind_of kind (x ∷ xs) e (k, a, s) h =
    subst (λ y. is_binary y.bkey ≡ kind) (ap (λ o. elim o [ none ↦ x | some z ↦ z ]) h) k
