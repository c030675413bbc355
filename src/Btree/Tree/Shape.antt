-- ===== src/Btree/Tree/Shape.antt =====
-- engines/default/coll_btree.c: the elements of a tree in the order of its keys, and the places between them.
use arcus_memcached.Prelude.{
  ℕ, zero, suc, ◌<◌, ◌≡◌, refl, sym, ap, ◌∙◌, Bool, true, Option, some, List, [], ◌∷◌, ◌++◌,
  append_assoc, length, ℤ, arith,
}
use arcus_memcached.Btree.{Bkey, bkey_comp, lt}
use arcus_memcached.Btree.Order.{holds, opposite, is_binary, bkey_comp-swap, bkey_comp_trans}
use arcus_memcached.Btree.Tree.{
  BtreeElem, Node, Nodes, leaf, index, nil, cons, used_count, do_btree_get_first_elem, separator,
}
use arcus_memcached.Search.{is_neg, is_pos}

unfoldable pub All : (BtreeElem → Bool) → List BtreeElem → Type 0
All p [] = Unit
All p (e ∷ es) = (p e ≡ true) × All p es

pub All-append :
    (p : BtreeElem → Bool) (xs ys : List BtreeElem) → All p xs → All p ys → All p (xs ++ ys)
unfolding All
All-append p [] ys a b = b
All-append p (x ∷ xs) ys (h, a) b = (h, All-append p xs ys a b)

pub All-left : (p : BtreeElem → Bool) (xs ys : List BtreeElem) → All p (xs ++ ys) → All p xs
unfolding All
All-left p [] ys a = tt
All-left p (x ∷ xs) ys (h, a) = (h, All-left p xs ys a)

pub All-right : (p : BtreeElem → Bool) (xs ys : List BtreeElem) → All p (xs ++ ys) → All p ys
unfolding All
All-right p [] ys a = a
All-right p (x ∷ xs) ys (h, a) = All-right p xs ys a

-- The keys are of one kind and increase.
unfoldable pub Increasing : Bool → List BtreeElem → Type 0
Increasing kind [] = Unit
Increasing kind (e ∷ es) =
    (is_binary e.bkey ≡ kind)
    × All (λ x. holds lt (bkey_comp e.bkey x.bkey)) es
    × Increasing kind es

pub Increasing-right :
    (kind : Bool) (xs ys : List BtreeElem) → Increasing kind (xs ++ ys) → Increasing kind ys
unfolding Increasing
Increasing-right kind [] ys s = s
Increasing-right kind (x ∷ xs) ys (k, a, s) = Increasing-right kind xs ys s

pub Increasing-left :
    (kind : Bool) (xs ys : List BtreeElem) → Increasing kind (xs ++ ys) → Increasing kind xs
unfolding Increasing
Increasing-left kind [] ys s = tt
Increasing-left kind (x ∷ xs) ys (k, a, s) = (k, All-left _ xs ys a, Increasing-left kind xs ys s)

-- The elements with a key that is less, or greater, than the one that is sought.
abbrev pub less : Bkey → BtreeElem → Bool
less bkey e = is_pos (bkey_comp bkey e.bkey)

abbrev pub greater : Bkey → BtreeElem → Bool
greater bkey e = is_neg (bkey_comp bkey e.bkey)

neg_holds : (c : ℤ) → is_neg c ≡ holds lt c
neg_holds c = ground arith

opposite_holds : (c d : ℤ) → d ≡ opposite c → is_pos c ≡ holds lt d
opposite_holds c d h = ground arith

less-holds : (bkey : Bkey) (e : BtreeElem) → less bkey e ≡ holds lt (bkey_comp e.bkey bkey)
less-holds bkey e =
    opposite_holds (bkey_comp bkey e.bkey) (bkey_comp e.bkey bkey) (bkey_comp-swap bkey e.bkey)

module _ (bkey : Bkey) where
  -- Behind a greater key all are greater, before a less one all are less.
  pub greater_behind :
      (e : BtreeElem) (ys : List BtreeElem)
      → Increasing (is_binary bkey) (e ∷ ys)
      → greater bkey e ≡ true
      → All (greater bkey) (e ∷ ys)
  unfolding Increasing All
  greater_behind e ys (k, a, s) g = (g, behind ys a s)
    where
      behind :
          (ys : List BtreeElem)
          → All (λ x. holds lt (bkey_comp e.bkey x.bkey)) ys
          → Increasing (is_binary bkey) ys
          → All (greater bkey) ys
      behind [] a s = tt
      behind (y ∷ ys) (h, a) (l, b, s) = (
        neg_holds (bkey_comp bkey y.bkey)
            ∙ bkey_comp_trans bkey e.bkey y.bkey (sym k) (k ∙ sym l)
                (sym (neg_holds (bkey_comp bkey e.bkey)) ∙ g) h,
        behind ys a s,
      )

  pub less_before :
      (xs : List BtreeElem) (e : BtreeElem) (ys : List BtreeElem)
      → Increasing (is_binary bkey) (xs ++ (e ∷ ys))
      → less bkey e ≡ true
      → All (less bkey) xs
  unfolding Increasing All
  less_before [] e ys s g = tt
  less_before (x ∷ xs) e ys (k, a, s) g =
      let (lt_e, rest) = All-right _ xs (e ∷ ys) a in
      let (l, b, s') = Increasing-right (is_binary bkey) xs (e ∷ ys) s in
      (
        less-holds bkey x
            ∙ bkey_comp_trans x.bkey e.bkey bkey (k ∙ sym l) l lt_e (sym (less-holds bkey e) ∙ g),
        less_before xs e ys s g,
      )

unfoldable mutual
  pub elems_of : Node → List BtreeElem
  elems_of (leaf elems) = elems
  elems_of (index nodes) = elems_all nodes

  pub elems_all : Nodes → List BtreeElem
  elems_all nil = []
  elems_all (cons n ns) = elems_of n ++ elems_all ns

-- No node is empty.
unfoldable mutual
  pub Full : Node → Type 0
  Full (leaf elems) = 0 < length elems
  Full (index nodes) = (0 < used_count nodes) × FullAll nodes

  pub FullAll : Nodes → Type 0
  FullAll nil = Unit
  FullAll (cons n ns) = Full n × FullAll ns

-- The elements of the nodes before an index, and of those from it on.
unfoldable pub before : Nodes → ℕ → List BtreeElem
before nil i = []
before (cons n ns) zero = []
before (cons n ns) (suc i) = elems_of n ++ before ns i

unfoldable pub from : Nodes → ℕ → List BtreeElem
from nil i = []
from (cons n ns) zero = elems_of n ++ elems_all ns
from (cons n ns) (suc i) = from ns i

pub before-from : (ns : Nodes) (i : ℕ) → before ns i ++ from ns i ≡ elems_all ns
unfolding before from elems_all
before-from nil i = refl
before-from (cons n ns) zero = refl
before-from (cons n ns) (suc i) =
    append_assoc (elems_of n) (before ns i) (from ns i)
    ∙ ap (λ t. elems_of n ++ t) (before-from ns i)

-- The first element of a node stands at the head of its elements.
abbrev pub Heads : Option BtreeElem → List BtreeElem → Type 0
Heads o es = (e : BtreeElem) × (rest : List BtreeElem) × (o ≡ some e) × (es ≡ e ∷ rest)

pub do_btree_get_first_elem-Heads :
    (n : Node) → Full n → Heads (do_btree_get_first_elem n) (elems_of n)
unfolding do_btree_get_first_elem Full elems_of
do_btree_get_first_elem-Heads (leaf []) f = absurd (omega arith)
do_btree_get_first_elem-Heads (leaf (e ∷ es)) f = (e, es, refl, refl)
do_btree_get_first_elem-Heads (index nil) (p, f) = absurd (omega arith)
do_btree_get_first_elem-Heads (index (cons n ns)) (p, (f, g)) =
    let (e, rest, a, b) = do_btree_get_first_elem-Heads n f in
    (e, rest ++ elems_all ns, a, ap (λ t. t ++ elems_all ns) b)

pub separator-Heads :
    (ns : Nodes) (i : ℕ) → FullAll ns → i < used_count ns → Heads (separator ns i) (from ns i)
unfolding separator FullAll from
separator-Heads nil i f h = absurd (omega arith)
separator-Heads (cons n ns) zero (f, g) h =
    let (e, rest, a, b) = do_btree_get_first_elem-Heads n f in
    (e, rest ++ elems_all ns, a, ap (λ t. t ++ elems_all ns) b)
separator-Heads (cons n ns) (suc i) (f, g) h = separator-Heads ns i g (omega arith)
