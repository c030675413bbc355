-- ===== src/CollSet/Delete/Outcome.antt =====
-- engines/default/coll_set.c: what `do_set_elem_traverse_delete` does to the tree.
use arcus_memcached.Prelude.{
  ℕ, zero, suc, ◌+◌, ◌-◌, ◌<◌, ◌≡◌, refl, sym, ap, ap₂, subst, ◌∙◌, true, ◌&&◌, Option, none, some,
  List, length, if◌then◌else◌, pos, negsuc, arith, Bool-cases, inl, inr,
}
use arcus_memcached.CollList.{ErrorCode, is_success}
use arcus_memcached.CollSet.{
  SetElem, HashNode, Slots, hash_node, nil, chain, child, SetMeta, hashtab_size, get_hashidx,
}
use arcus_memcached.CollSet.Find.{find_node, find_slot}
use arcus_memcached.CollSet.Valid.{
  tally, tally-append, anything, length-tally, elems_node, elems_slots, elsewhere, ValidNode,
  ValidSlots, get_hashidx-small, from_zero,
}
use arcus_memcached.CollSet.Shallow.{ShallowNode, ShallowSlots, signed_hashidx-get_hashidx}
use arcus_memcached.CollSet.Member.{is_some}
use arcus_memcached.CollSet.Insert.{do_set_space_decr}
use arcus_memcached.CollSet.Delete.{Deleted, collapses, after_child, delete_node, delete_slot}
use arcus_memcached.CollSet.Delete.Collapse.{unlinked_child-Collapsed}
use arcus_memcached.CollSet.Delete.Chain.{
  one_of, Unlinked, SlotRemoval, NodeRemoval, delete_chain-Removal,
}

module _ (node_space : ℕ) (space : ℕ → ℕ) (hval : ℕ) (val : List ℕ) where
  success_found :
      (found : Option SetElem)
      → is_success (if is_some found then ErrorCode.success else ErrorCode.elem_enoent)
        ≡ is_some found
  success_found none = refl
  success_found (some x) = refl

  do_set_space_decr-Unlinked :
      (found : Option SetElem) (info r : SetMeta)
      → is_some found ≡ true
      → Unlinked info found r
      → Unlinked info found (do_set_space_decr node_space r)
  unfolding do_set_space_decr
  do_set_space_decr-Unlinked none info r h u = absurd (ground arith)
  do_set_space_decr-Unlinked (some x) info r h u = u

  after_child-Removal :
      (d j : ℕ) (info : SetMeta) (node : HashNode) (slots : Slots) (r : Deleted HashNode)
      → ValidSlots d j (child node slots)
      → NodeRemoval node_space space hval val (suc d) info node r
      → SlotRemoval node_space space hval val d j 0 info
          (child node slots)
          (after_child node_space space r slots)
  unfolding after_child SlotRemoval find_slot ValidSlots elems_slots
  after_child-Removal d j info node slots r (w, v, x) (m, n) =
      let found = find_node hval val node in
      let code = ap is_success m.code ∙ success_found found in
      elim (Bool-cases (is_success r.ret && collapses r.result)) [
        | inl h ↦
            let c =
              unlinked_child-Collapsed d j r.result slots n (ground arith)
                (omega (arith, m.less (elsewhere d j))) x in
            rw (h) (
              record {
                code = m.code;
                less = λ p. omega (
                  arith,
                  m.less p,
                  c.more p,
                  tally-append p (elems_node node) (elems_slots slots),
                );
                effect =
                    do_set_space_decr-Unlinked found info r.info (ground (arith, code)) m.effect;
                unchanged = λ u. absurd (ground (arith, code, u));
              },
              c.valid,
            )
        | inr h ↦ rw (h) (
          record {
            code = m.code;
            less = λ p. omega (
              arith,
              m.less p,
              tally-append p (elems_node node) (elems_slots slots),
              tally-append p (elems_node r.result) (elems_slots slots),
            );
            effect = m.effect;
            unchanged = λ u. ap (λ n. child n slots) (m.unchanged u);
          },
          (omega (arith, m.less (elsewhere d j)), n, x),
        )
      ]

  counted :
      (found : Option SetElem) (ret : ErrorCode) (tot : ℕ) (slots slots' : Slots)
      → tot ≡ length (elems_slots slots)
      → is_success ret ≡ is_some found
      → tally anything (elems_slots slots') + one_of anything found
        ≡ tally anything (elems_slots slots)
      → (if is_success ret then tot - 1 else tot) ≡ length (elems_slots slots')
  counted none ret tot slots slots' t s m =
      ground (arith, s, length-tally (elems_slots slots), length-tally (elems_slots slots'))
  counted (some x) ret tot slots slots' t s m =
      ground (arith, s, length-tally (elems_slots slots), length-tally (elems_slots slots'))

  mutual
    unfolding delete_node find_node ShallowNode ValidNode elems_node SlotRemoval

    pub delete_node-Removal :
        (d : ℕ) (info : SetMeta) (node : HashNode)
        → ValidNode d node
        → ShallowNode node
        → NodeRemoval node_space space hval val d info node
            (delete_node node_space space info hval val node)
    delete_node-Removal d info (hash_node hdepth tot slots) (h, t, v) (k, l) =
        let i = get_hashidx hval hdepth in
        let r = delete_slot node_space space info hval val slots i in
        let (m, n) =
          delete_slot-Removal hdepth 0 i info slots (subst (λ x. ValidSlots x 0 slots) (sym h) v) l
            (from_zero i) (omega (arith, get_hashidx-small hval hdepth)) in
        let code = ap is_success m.code ∙ success_found (find_slot hval val slots i) in
        subst
          (λ z. NodeRemoval node_space space hval val d info (hash_node hdepth tot slots) (elim z [
            | negsuc n ↦ record {
              ret = ErrorCode.einval;
              info = info;
              result = hash_node hdepth tot slots;
            }
            | pos i ↦
                let r = delete_slot node_space space info hval val slots i in
                record {
                  ret = r.ret;
                  info = r.info;
                  result = hash_node hdepth (if is_success r.ret then tot - 1 else tot) r.result;
                }
          ]))
          (sym (signed_hashidx-get_hashidx hval hdepth k))
          (
            record {
              code = m.code;
              less = m.less;
              effect = m.effect;
              unchanged = λ u.
                  ap₂ (λ b x. hash_node hdepth (if b then tot - 1 else tot) x) (code ∙ u)
                    (m.unchanged u);
            },
            (
              h,
              counted (find_slot hval val slots i) r.ret tot slots r.result t code
                  (m.less anything),
              subst (λ x. ValidSlots x 0 r.result) h n,
            ),
          )

    delete_slot-Removal :
        (d j i : ℕ) (info : SetMeta) (slots : Slots)
        → ValidSlots d j slots
        → ShallowSlots slots
        → get_hashidx hval d ≡ j + i
        → j + i < hashtab_size
        → SlotRemoval node_space space hval val d j i info slots
            (delete_slot node_space space info hval val slots i)
    delete_slot-Removal d j i info nil v l h lt = absurd (omega arith)
    delete_slot-Removal d j zero info (chain cnt elems slots) v l h lt =
        delete_chain-Removal node_space space hval val d j cnt info elems slots v
    delete_slot-Removal d j zero info (child node slots) (w, v, x) (l, y) h lt =
        after_child-Removal d j info node slots (delete_node node_space space info hval val node)
          (w, v, x) (delete_node-Removal (suc d) info node v l)
    delete_slot-Removal d j (suc i) info (chain cnt elems slots) (v, w, x) l h lt =
        let r = delete_slot node_space space info hval val slots i in
        let (m, n) = delete_slot-Removal d (suc j) i info slots x l (omega arith) (omega arith) in
        (
          record {
            code = m.code;
            less = λ p. omega (
              arith,
              m.less p,
              tally-append p elems (elems_slots slots),
              tally-append p elems (elems_slots r.result),
            );
            effect = m.effect;
            unchanged = λ u. ap (chain cnt elems) (m.unchanged u);
          },
          (v, w, n),
        )
    delete_slot-Removal d j (suc i) info (child node slots) (w, v, x) (l, y) h lt =
        let r = delete_slot node_space space info hval val slots i in
        let (m, n) = delete_slot-Removal d (suc j) i info slots x y (omega arith) (omega arith) in
        (
          record {
            code = m.code;
            less = λ p. omega (
              arith,
              m.less p,
              tally-append p (elems_node node) (elems_slots slots),
              tally-append p (elems_node node) (elems_slots r.result),
            );
            effect = m.effect;
            unchanged = λ u. ap (child node) (m.unchanged u);
          },
          (w, v, n),
        )
