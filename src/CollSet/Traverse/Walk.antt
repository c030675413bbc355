-- ===== src/CollSet/Traverse/Walk.antt =====
-- engines/default/coll_set.c: what a deleting `do_set_elem_traverse_dfs` leaves of the tree.
use arcus_memcached.Prelude.{
  ℕ, suc, ◌+◌, ◌-◌, ◌≡◌, refl, sym, ap, ◌∙◌, Bool, true, false, List, [], ◌∷◌, ◌++◌, length,
  length-append, ltb, if◌then◌else◌, arith, if_cases, Bool-cases, inl, inr,
}
use arcus_memcached.CollList.{reached}
use arcus_memcached.CollSet.{SetElem, HashNode, Slots, hash_node, nil, chain, child, SetMeta}
use arcus_memcached.CollSet.Valid.{
  tally, tally-append, anything, length-tally, elems_node, elems_slots, elsewhere, ValidNode,
  ValidSlots,
}
use arcus_memcached.CollSet.Insert.{do_set_space_decr}
use arcus_memcached.CollSet.Delete.{collapses}
use arcus_memcached.CollSet.Delete.Collapse.{unlinked_child-Collapsed}
use arcus_memcached.CollSet.Traverse.{
  Walked, walk_chain, walk_slot, walk_child, walk_node, walk_slots,
}
use arcus_memcached.CollSet.Traverse.Chain.{quota, quota-stop, quota-more, Taken, walk_chain-Taken}

-- A list that is a part of another passes no test more often.
part-zero :
    (p : SetElem → Bool) (xs ys zs : List SetElem)
    → tally p xs + tally p ys ≡ tally p zs
    → tally p zs ≡ 0
    → tally p xs ≡ 0
part-zero p xs ys zs h z = omega arith

module _ (node_space : ℕ) (space : ℕ → ℕ) where
  pub record SlotsTaken (d j count fcnt : ℕ) (slots : Slots) (info : SetMeta) (r : Walked Slots)
      : Type 0 where
    pub taken : Taken count fcnt (elems_slots slots) info r.visited (elems_slots r.result) r.info
    pub valid : ValidSlots d j r.result

  pub record NodeTaken (d count fcnt : ℕ) (node : HashNode) (info : SetMeta) (r : Walked HashNode)
      : Type 0 where
    pub taken : Taken count fcnt (elems_node node) info r.visited (elems_node r.result) r.info
    pub valid : ValidNode d r.result

  -- A slot that is a chain.
  record SlotTaken (d j count fcnt cnt : ℕ) (elems : List SetElem) (info : SetMeta)
      (r : Walked (ℕ × List SetElem)) : Type 0 where
    taken : Taken count fcnt elems info r.visited (r.result.1) r.info
    hcnt : r.result.0 ≡ length (r.result.1)

  walk_slot-SlotTaken :
      (d j count cnt : ℕ) (info : SetMeta) (elems : List SetElem) (fcnt : ℕ)
      → cnt ≡ length elems
      → reached count fcnt ≡ false
      → SlotTaken d j count fcnt cnt elems info
          (walk_slot node_space space true false count info cnt elems fcnt)
  unfolding walk_slot tally
  walk_slot-SlotTaken d j count cnt info elems fcnt v h =
      let t = walk_chain-Taken node_space space count info elems fcnt h in
      let r = walk_chain node_space space true false count info elems fcnt in
      if_cases {A = Walked (ℕ × List SetElem)} (SlotTaken d j count fcnt cnt elems info) (ltb 0 cnt)
        _ _
        (λ g. record {
          taken = t;
          hcnt = omega (
            arith,
            t.split anything,
            length-tally r.result,
            length-tally r.visited,
            length-tally elems,
          );
        })
        (λ g. none_taken elems v g)
    where
      none_taken :
          (elems : List SetElem)
          → cnt ≡ length elems
          → ltb 0 cnt ≡ false
          → SlotTaken d j count fcnt cnt elems info
              (record { info = info; visited = []; result = (cnt, elems) })
      none_taken [] v g = record {
        taken = record {
          split = λ p. omega arith;
          amount = ground arith;
          ccnt = omega arith;
          mcnt = refl;
        };
        hcnt = v;
      }
      none_taken (e ∷ elems) v g = absurd (ground arith)

  -- The slots so far, and the slots after them.
  Taken-append :
      (count fcnt : ℕ) (xs ys out out' left left' : List SetElem) (info i i' : SetMeta)
      → reached count fcnt ≡ false
      → Taken count fcnt xs info out left i
      → reached count (fcnt + length out) ≡ false
      → Taken count (fcnt + length out) ys i out' left' i'
      → Taken count fcnt (xs ++ ys) info (out ++ out') (left ++ left') i'
  Taken-append count fcnt xs ys out out' left left' info i i' h t g u = record {
    split = λ p. omega (
      arith,
      t.split p,
      u.split p,
      tally-append p xs ys,
      tally-append p out out',
      tally-append p left left',
    );
    amount =
        length-append out out'
        ∙ quota-more count fcnt (length xs) (length ys) (length out) (length out') h t.amount g
            u.amount
        ∙ ap (quota count fcnt) (sym (length-append xs ys));
    ccnt = omega (arith, t.ccnt, u.ccnt, length-append out out');
    mcnt = u.mcnt ∙ t.mcnt;
  }

  Taken-stop :
      (count fcnt : ℕ) (xs ys out left : List SetElem) (info i : SetMeta)
      → Taken count fcnt xs info out left i
      → reached count (fcnt + length out) ≡ true
      → Taken count fcnt (xs ++ ys) info out (left ++ ys) i
  Taken-stop count fcnt xs ys out left info i t g = record {
    split = λ p. omega (arith, t.split p, tally-append p xs ys, tally-append p left ys);
    amount =
        quota-stop count fcnt (length xs) (length ys) (length out) t.amount g
        ∙ ap (quota count fcnt) (sym (length-append xs ys));
    ccnt = t.ccnt;
    mcnt = t.mcnt;
  }

  -- Another order of what is left, and meta information that differs in the space.
  Taken-as :
      (count fcnt : ℕ) (xs out left left' : List SetElem) (info i i' : SetMeta)
      → ((p : SetElem → Bool) → tally p left' ≡ tally p left)
      → (i'.ccnt ≡ i.ccnt) × (i'.mcnt ≡ i.mcnt)
      → Taken count fcnt xs info out left i
      → Taken count fcnt xs info out left' i'
  Taken-as count fcnt xs out left left' info i i' e (c, m) t = record {
    split = λ p. omega (arith, e p, t.split p);
    amount = t.amount;
    ccnt = c ∙ t.ccnt;
    mcnt = m ∙ t.mcnt;
  }

  -- What stands in the slot of a child node after its traversal.
  record ChildLeft (d j : ℕ) (node : HashNode) (slots : Slots) (info : SetMeta) (r : Walked Slots)
      : Type 0 where
    valid : ValidSlots d j r.result
    same :
        (p : SetElem → Bool)
        → tally p (elems_slots r.result) ≡ tally p (elems_node node ++ elems_slots slots)
    counts : (r.info.ccnt ≡ info.ccnt) × (r.info.mcnt ≡ info.mcnt)

  walk_child-ChildLeft :
      (d j : ℕ) (r : Walked HashNode) (slots : Slots)
      → ValidNode (suc d) r.result
      → tally (elsewhere d j) (elems_node r.result) ≡ 0
      → ValidSlots d (suc j) slots
      → ChildLeft d j r.result slots r.info (walk_child node_space space true false r slots)
  unfolding walk_child do_set_space_decr ValidSlots elems_slots
  walk_child-ChildLeft d j r slots v w x = elim (Bool-cases (collapses r.result)) [
    | inl h ↦
        let c = unlinked_child-Collapsed d j r.result slots v (ground arith) w x in
        rw (h) (record {
          valid = c.valid;
          same = λ p.
              omega (arith, c.more p, tally-append p (elems_node r.result) (elems_slots slots));
          counts = (refl, refl);
        })
    | inr h ↦ rw (h) (record { valid = (w, v, x); same = λ p. refl; counts = (refl, refl) })
  ]

  below_count :
      (count fcnt : ℕ)
      → reached count fcnt ≡ false
      → reached (if ltb 0 count then count - fcnt else 0) 0 ≡ false
  below_count count fcnt h = ground arith

  quota-below :
      (count fcnt n : ℕ)
      → reached count fcnt ≡ false
      → quota (if ltb 0 count then count - fcnt else 0) 0 n ≡ quota count fcnt n
  quota-below count fcnt n h = ground arith

  -- The count that a child node is given is what is left of that of its parent.
  Taken-below :
      (count fcnt : ℕ) (xs out left : List SetElem) (info i : SetMeta)
      → reached count fcnt ≡ false
      → Taken (if ltb 0 count then count - fcnt else 0) 0 xs info out left i
      → Taken count fcnt xs info out left i
  Taken-below count fcnt xs out left info i h t = record {
    split = t.split;
    amount = t.amount ∙ quota-below count fcnt (length xs) h;
    ccnt = t.ccnt;
    mcnt = t.mcnt;
  }

  mutual
    unfolding walk_node walk_child ValidNode elems_node tally

    pub walk_node-NodeTaken :
        (d count : ℕ) (info : SetMeta) (node : HashNode)
        → ValidNode d node
        → reached count 0 ≡ false
        → NodeTaken d count 0 node info (walk_node node_space space true false count info node)
    walk_node-NodeTaken d count info (hash_node hdepth tot slots) (h, t, v) g =
        let r = walk_slots node_space space true false count info slots 0 in
        let k = walk_slots-SlotsTaken d 0 count info slots 0 v g in
        record {
          taken = k.taken;
          valid = (
            h,
            omega (
              arith,
              t,
              k.taken.split anything,
              length-tally r.visited,
              length-tally (elems_slots slots),
              length-tally (elems_slots r.result),
            ),
            k.valid,
          );
        }

    walk_slots-SlotsTaken :
        (d j count : ℕ) (info : SetMeta) (slots : Slots) (fcnt : ℕ)
        → ValidSlots d j slots
        → reached count fcnt ≡ false
        → SlotsTaken d j count fcnt slots info
            (walk_slots node_space space true false count info slots fcnt)
    walk_slots-SlotsTaken d j count info nil fcnt v g = record {
      taken = record { split = λ p. refl; amount = ground arith; ccnt = omega arith; mcnt = refl };
      valid = v;
    }
    walk_slots-SlotsTaken d j count info (chain cnt elems slots) fcnt (v, w, x) g =
        let here = walk_slot node_space space true false count info cnt elems fcnt in
        let k = walk_slot-SlotTaken d j count cnt info elems fcnt v g in
        let fcnt' = fcnt + length here.visited in
        let rest = walk_slots node_space space true false count here.info slots fcnt' in
        let apart =
          part-zero (elsewhere d j) (here.result.1) here.visited elems
            (k.taken.split (elsewhere d j)) w in
        if_cases {A = Walked Slots} (SlotsTaken d j count fcnt (chain cnt elems slots) info)
          (reached count fcnt') _ _
          (λ h. record {
            taken =
                Taken-stop count fcnt elems (elems_slots slots) here.visited (here.result.1) info
                  here.info k.taken h;
            valid = (k.hcnt, apart, x);
          })
          (λ h.
            let m = walk_slots-SlotsTaken d (suc j) count here.info slots fcnt' x h in
            record {
              taken =
                  Taken-append count fcnt elems (elems_slots slots) here.visited rest.visited
                    (here.result.1) (elems_slots rest.result) info here.info rest.info g k.taken h
                    m.taken;
              valid = (k.hcnt, apart, m.valid);
            })
    walk_slots-SlotsTaken d j count info (child node slots) fcnt (w, v, x) g =
        let limit = if ltb 0 count then count - fcnt else 0 in
        let below = walk_node node_space space true false limit info node in
        let k = walk_node-NodeTaken (suc d) limit info node v (below_count count fcnt g) in
        let t =
          Taken-below count fcnt (elems_node node) below.visited (elems_node below.result) info
            below.info g k.taken in
        let apart =
          part-zero (elsewhere d j) (elems_node below.result) below.visited (elems_node node)
            (t.split (elsewhere d j)) w in
        let here = walk_child node_space space true false below slots in
        let l = walk_child-ChildLeft d j below slots k.valid apart x in
        let fcnt' = fcnt + length here.visited in
        let rest = walk_slots node_space space true false count here.info slots fcnt' in
        let ys = elems_slots slots in
        let bs = elems_node below.result in
        if_cases {A = Walked Slots} (SlotsTaken d j count fcnt (child node slots) info)
          (reached count fcnt') _ _
          (λ h. record {
            taken =
                Taken-as count fcnt (elems_node node ++ ys) here.visited (bs ++ ys)
                  (elems_slots here.result) info below.info here.info l.same l.counts
                  (Taken-stop count fcnt (elems_node node) ys below.visited bs info below.info t h);
            valid = l.valid;
          })
          (λ h.
            let m = walk_slots-SlotsTaken d (suc j) count here.info slots fcnt' x h in
            let l' = walk_child-ChildLeft d j below rest.result k.valid apart m.valid in
            let t' =
              Taken-as count fcnt (elems_node node) below.visited bs bs info below.info here.info
                (λ p. refl) l.counts t in
            record {
              taken =
                  Taken-as count fcnt (elems_node node ++ ys) (here.visited ++ rest.visited)
                    (bs ++ elems_slots rest.result)
                    (elems_slots (walk_child node_space space true false below rest.result).result)
                    info rest.info rest.info l'.same (refl, refl)
                    (Taken-append count fcnt (elems_node node) ys here.visited rest.visited bs
                      (elems_slots rest.result) info here.info rest.info g t' h m.taken);
              valid = l'.valid;
            })
