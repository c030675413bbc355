-- ===== src/CollSet/Spread.antt =====
-- engines/default/coll_set.c: a new node that takes over the elements of a full chain.
use arcus_memcached.Prelude.{
  ℕ, zero, suc, ◌+◌, ◌<◌, ◌≡◌, refl, sym, ap, ◌∙◌, Bool, true, List, [], ◌∷◌, length, arith,
}
use arcus_memcached.CollSet.{
  SetElem, HashNode, Slots, hash_node, nil, chain, child, hashtab_size, get_hashidx, no_child,
  is_leaf_node, empty_slots, do_set_node_alloc, push_slot, push_node, spread,
}
use arcus_memcached.CollSet.Valid.{
  one, tally, tally-append, anything, length-tally, elems_node, elems_slots, elsewhere_self,
  ValidNode, ValidSlots, get_hashidx-small,
}

-- What a slot array is after one more element.
record Pushed (d j : ℕ) (e : SetElem) (slots slots' : Slots) : Type 0 where
  valid : ValidSlots d j slots'
  leaf : no_child slots' ≡ true
  more : (p : SetElem → Bool) → tally p (elems_slots slots') ≡ tally p (elems_slots slots) + one p e

push_slot-Pushed :
    (d j i : ℕ) (e : SetElem) (slots : Slots)
    → ValidSlots d j slots
    → no_child slots ≡ true
    → get_hashidx e.hval d ≡ j + i
    → j + i < hashtab_size
    → Pushed d j e slots (push_slot e slots i)
unfolding push_slot no_child elems_slots ValidSlots tally
push_slot-Pushed d j i e nil v l h lt = absurd (omega arith)
push_slot-Pushed d j i e (child node slots) v l h lt = absurd (ground arith)
push_slot-Pushed d j zero e (chain cnt elems slots) (v, w, x) l h lt = record {
  valid = (omega arith, omega (arith, elsewhere_self d j e (omega arith)), x);
  leaf = l;
  more = λ p. omega arith;
}
push_slot-Pushed d j (suc i) e (chain cnt elems slots) (v, w, x) l h lt =
    let r = push_slot-Pushed d (suc j) i e slots x l (omega arith) (omega arith) in
    record {
      valid = (v, w, r.valid);
      leaf = r.leaf;
      more = λ p. omega (
        arith,
        r.more p,
        tally-append p elems (elems_slots slots),
        tally-append p elems (elems_slots (push_slot e slots i)),
      );
    }

empty_slots-Valid :
    (n d j : ℕ)
    → j + n ≡ hashtab_size
    → ValidSlots d j (empty_slots n)
      × (no_child (empty_slots n) ≡ true)
      × (elems_slots (empty_slots n) ≡ [])
unfolding empty_slots no_child elems_slots ValidSlots tally
empty_slots-Valid zero d j h = (omega arith, refl, refl)
empty_slots-Valid (suc n) d j h =
    let (v, l, e) = empty_slots-Valid n d (suc j) (omega arith) in ((refl, refl, v), l, e)

-- What a leaf node is after it took over a list of elements.
pub record Spreads (d : ℕ) (elems : List SetElem) (node node' : HashNode) : Type 0 where
  pub valid : ValidNode d node'
  pub leaf : is_leaf_node node' ≡ true
  pub more :
      (p : SetElem → Bool) → tally p (elems_node node') ≡ tally p (elems_node node) + tally p elems

pub push_node-Spreads :
    (d : ℕ) (e : SetElem) (node : HashNode)
    → ValidNode d node
    → is_leaf_node node ≡ true
    → Spreads d (e ∷ []) node (push_node e node)
unfolding push_node is_leaf_node ValidNode elems_node tally
push_node-Spreads d e (hash_node hdepth tot slots) (h, t, v) l =
    let i = get_hashidx e.hval hdepth in
    let small = get_hashidx-small e.hval hdepth in
    let r =
      push_slot-Pushed d 0 i e slots v l (ap (get_hashidx e.hval) (sym h) ∙ from_zero i)
        (omega (arith, small)) in
    record {
      valid = (
        h,
        omega (
          arith,
          t,
          r.more anything,
          length-tally (elems_slots slots),
          length-tally (elems_slots (push_slot e slots i)),
        ),
        r.valid,
      );
      leaf = r.leaf;
      more = λ p. omega (arith, r.more p);
    }
  where
    from_zero : (i : ℕ) → i ≡ 0 + i
    from_zero i = omega arith

pub spread-Spreads :
    (d : ℕ) (elems : List SetElem) (node : HashNode)
    → ValidNode d node
    → is_leaf_node node ≡ true
    → Spreads d elems node (spread elems node)
unfolding spread tally
spread-Spreads d [] node v l = record { valid = v; leaf = l; more = λ p. omega arith }
spread-Spreads d (e ∷ elems) node v l =
    let r = push_node-Spreads d e node v l in
    let s = spread-Spreads d elems (push_node e node) r.valid r.leaf in
    record { valid = s.valid; leaf = s.leaf; more = λ p. omega (arith, r.more p, s.more p) }

-- A new node is empty.
pub do_set_node_alloc-Valid :
    (d : ℕ)
    → ValidNode d (do_set_node_alloc d)
      × (is_leaf_node (do_set_node_alloc d) ≡ true)
      × (elems_node (do_set_node_alloc d) ≡ [])
unfolding do_set_node_alloc is_leaf_node ValidNode elems_node
do_set_node_alloc-Valid d =
    let (v, l, e) = empty_slots-Valid hashtab_size d 0 refl in ((refl, ap length (sym e), v), l, e)
