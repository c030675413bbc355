-- ===== src/CollSet/Delete/Collapse.antt =====
-- engines/default/coll_set.c: the chain that takes the place of a leaf node.
use arcus_memcached.Prelude.{
  ℕ, suc, ◌+◌, ◌≡◌, refl, Bool, true, List, [], ◌∷◌, ◌++◌, length, ltb, arith, if_cases,
}
use arcus_memcached.CollSet.{
  SetElem, HashNode, Slots, hash_node, nil, chain, child, no_child, is_leaf_node,
}
use arcus_memcached.CollSet.Valid.{
  tally, tally-append, anything, length-tally, elems_node, elems_slots, elsewhere, ValidNode,
  ValidSlots,
}
use arcus_memcached.CollSet.Delete.{push_all, gather, unlinked_child}

tally-push_all :
    (p : SetElem → Bool) (elems head : List SetElem)
    → tally p (push_all elems head) ≡ tally p head + tally p elems
unfolding push_all tally
tally-push_all p [] head = omega arith
tally-push_all p (e ∷ elems) head = omega (arith, tally-push_all p elems (e ∷ head))

-- What the loop over the slots has gathered.
record Gathered (slots : Slots) (fcnt : ℕ) (head : List SetElem) (r : ℕ × List SetElem)
    : Type 0 where
  count : r.0 ≡ fcnt + length (elems_slots slots)
  more : (p : SetElem → Bool) → tally p (r.1) ≡ tally p head + tally p (elems_slots slots)

no_elems : (p : SetElem → Bool) (elems : List SetElem) → length elems ≡ 0 → tally p elems ≡ 0
unfolding tally
no_elems p [] h = refl
no_elems p (e ∷ elems) h = absurd (omega arith)

gather-Gathered :
    (d j : ℕ) (slots : Slots) (fcnt : ℕ) (head : List SetElem)
    → ValidSlots d j slots
    → no_child slots ≡ true
    → Gathered slots fcnt head (gather slots fcnt head)
unfolding gather ValidSlots no_child elems_slots tally
gather-Gathered d j nil fcnt head v l = record { count = omega arith; more = λ p. omega arith }
gather-Gathered d j (child node slots) fcnt head v l = absurd (ground arith)
gather-Gathered d j (chain cnt elems slots) fcnt head (v, w, x) l =
    if_cases (Gathered (chain cnt elems slots) fcnt head) (ltb 0 cnt) _ _
      (λ h.
        let r = gather-Gathered d (suc j) slots (fcnt + cnt) (push_all elems head) x l in
        record {
          count = omega (
            arith,
            r.count,
            length-tally elems,
            length-tally (elems_slots slots),
            length-tally (elems ++ elems_slots slots),
            tally-append anything elems (elems_slots slots),
          );
          more = λ p. omega (
            arith,
            r.more p,
            tally-push_all p elems head,
            tally-append p elems (elems_slots slots),
          );
        })
      (λ h.
        let r = gather-Gathered d (suc j) slots fcnt head x l in
        record {
          count = ground (
            arith,
            r.count,
            length-tally elems,
            length-tally (elems_slots slots),
            length-tally (elems ++ elems_slots slots),
            tally-append anything elems (elems_slots slots),
          );
          more = λ p. ground (
            arith,
            r.more p,
            no_elems p elems (ground arith),
            tally-append p elems (elems_slots slots),
          );
        })

-- What a slot holds after the collapse of its node.
pub record Collapsed (d j : ℕ) (node : HashNode) (slots slots' : Slots) : Type 0 where
  pub valid : ValidSlots d j slots'
  pub more :
      (p : SetElem → Bool)
      → tally p (elems_slots slots') ≡ tally p (elems_node node) + tally p (elems_slots slots)

pub unlinked_child-Collapsed :
    (d j : ℕ) (node : HashNode) (slots : Slots)
    → ValidNode (suc d) node
    → is_leaf_node node ≡ true
    → tally (elsewhere d j) (elems_node node) ≡ 0
    → ValidSlots d (suc j) slots
    → Collapsed d j node slots (unlinked_child node slots)
unfolding unlinked_child ValidNode ValidSlots elems_node is_leaf_node tally
unlinked_child-Collapsed d j (hash_node hdepth tot node_slots) slots (h, t, v) l w x =
    let r = gather-Gathered (suc d) 0 node_slots 0 [] v l in
    record {
      valid = (
        omega (
          arith,
          r.count,
          r.more anything,
          length-tally (elems_slots node_slots),
          length-tally ((gather node_slots 0 []).1),
        ),
        omega (arith, r.more (elsewhere d j)),
        x,
      );
      more = λ p.
          omega (arith, r.more p, tally-append p ((gather node_slots 0 []).1) (elems_slots slots));
    }
