-- ===== src/CollSet/Traverse/Drop.antt =====
-- engines/default/coll_set.c: the outcome of `do_set_elem_delete`.
use arcus_memcached.Prelude.{
  ℕ, ◌-◌, ◌≡◌, refl, ap, ◌∙◌, subst, min, true, false, Option, none, some, List, length, ltb, ◌==◌,
  if◌then◌else◌, arith,
}
use arcus_memcached.CollSet.{HashNode, SetMeta, tot_elem_cnt}
use arcus_memcached.CollSet.Valid.{tally, anything, length-tally, elems_node}
use arcus_memcached.CollSet.Member.{
  is_some, root_elems, has_value, is_stale, SetTree, SetValid, member,
}
use arcus_memcached.CollSet.Insert.{do_set_root_unlink}
use arcus_memcached.CollSet.Delete.Root.{Settled, root_after-Settled}
use arcus_memcached.CollSet.Traverse.{Walked, walk_node, do_set_elem_delete}
use arcus_memcached.CollSet.Traverse.Walk.{NodeTaken, walk_node-NodeTaken}

-- What dropping `count` elements has done, where 0 stands for all.
pub record Dropped (info : SetMeta) (count fcnt : ℕ) (r : SetMeta) : Type 0 where
  pub valid : SetValid r
  pub amount : fcnt ≡ (if count == 0 then info.ccnt else min count info.ccnt)
  pub ccnt : r.ccnt ≡ info.ccnt - fcnt
  pub mcnt : r.mcnt ≡ info.mcnt
  pub still : (val : List ℕ) → member r val ≡ true → member info val ≡ true

module _ (node_space : ℕ) (space : ℕ → ℕ) (info : SetMeta) (count : ℕ) (s : SetValid info) where
  walked-Dropped :
      (root : HashNode) (r : Walked HashNode)
      → info.root ≡ some root
      → SetTree (some root) info.ccnt
      → NodeTaken node_space space 0 count 0 root info r
      → let info' = record (r.info) { root = some r.result } in
        Dropped info count
          (length r.visited)
          (if tot_elem_cnt r.result == 0 then do_set_root_unlink node_space info' else info')
  walked-Dropped root r h t k =
      let info' = record (r.info) { root = some r.result } in
      let final : SetMeta =
        if tot_elem_cnt r.result == 0 then do_set_root_unlink node_space info' else info' in
      let l = length-tally (elems_node root) in
      let l' = length-tally (elems_node r.result) in
      let tree : SetTree (some r.result) r.info.ccnt = record {
        valid = k.valid;
        counted =
            omega (
              arith,
              k.taken.ccnt,
              k.taken.split anything,
              length-tally r.visited,
              l,
              l',
              t.counted,
            );
        fresh = omega (arith, k.taken.split is_stale, t.fresh);
        unique = λ v. omega (arith, k.taken.split (has_value v), t.unique v);
      } in
      let w : Settled r.result r.info final = root_after-Settled node_space r.info r.result tree in
      let (c, m, hd, fr) = w.counts in
      record {
        valid = w.valid;
        amount = ground (arith, k.taken.amount, t.counted);
        ccnt = c ∙ k.taken.ccnt;
        mcnt = m ∙ k.taken.mcnt;
        still = λ v q. ground (
          arith,
          q,
          w.elems (has_value v),
          k.taken.split (has_value v),
          ap (λ x. ltb 0 (tally (has_value v) (root_elems x))) h,
        );
      }

  dropped :
      Dropped info count
        (do_set_elem_delete node_space space info count).0
        (do_set_elem_delete node_space space info count).1
  unfolding do_set_elem_delete
  dropped = at_root info.root refl
    where
      at_root :
          (root : Option HashNode)
          → info.root ≡ root
          → let r : ℕ × SetMeta = elim root [
            | none ↦ (0, info)
            | some root ↦
                let r = walk_node node_space space true false count info root in
                let info' = record (r.info) { root = some r.result } in
                (
                  length r.visited,
                  if tot_elem_cnt r.result == 0 then do_set_root_unlink node_space info' else info',
                )
          ] in
            Dropped info count (r.0) (r.1)
      at_root none h = record {
        valid = s;
        amount = ground (arith, s.rooted, ap is_some h);
        ccnt = omega arith;
        mcnt = refl;
        still = λ v q. q;
      }
      at_root (some root) h =
          let t : SetTree (some root) info.ccnt = subst (λ x. SetTree x info.ccnt) h s.tree in
          walked-Dropped root (walk_node node_space space true false count info root) h t
            (walk_node-NodeTaken node_space space 0 count info root t.valid (ground arith))

-- Dropping a count of elements from a valid set takes as many, or all where the count is 0 or beyond them, returns
-- how many went, and leaves a valid set whose values were there before.
pub do_set_elem_delete-Dropped :
    (node_space : ℕ) (space : ℕ → ℕ) (info : SetMeta) (count : ℕ)
    → SetValid info
    → let r = do_set_elem_delete node_space space info count in Dropped info count (r.0) (r.1)
do_set_elem_delete-Dropped = dropped
