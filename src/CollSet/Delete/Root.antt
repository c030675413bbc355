-- ===== src/CollSet/Delete/Root.antt =====
-- engines/default/coll_set.c: the root after a deletion, which goes when no element is left.
use arcus_memcached.Prelude.{
  ℕ, ◌≡◌, refl, sym, ap, Bool, none, some, List, [], ◌∷◌, length, ◌==◌, if◌then◌else◌, arith,
  if_cases,
}
use arcus_memcached.CollSet.{SetElem, HashNode, hash_node, SetMeta, tot_elem_cnt}
use arcus_memcached.CollSet.Valid.{tally, elems_node, ValidNode}
use arcus_memcached.CollSet.Member.{root_elems, SetTree, SetValid}
use arcus_memcached.CollSet.Insert.{do_set_space_decr, do_set_root_unlink}

-- Meta information that differs in the tree and its space only.
abbrev pub SameButSpace : SetMeta → SetMeta → Type 0
SameButSpace i r = (r.ccnt ≡ i.ccnt) × (r.mcnt ≡ i.mcnt) × (r.held ≡ i.held) × (r.freed ≡ i.freed)

-- The meta information once the root is a valid node, or is gone.
pub record Settled (node : HashNode) (i : SetMeta) (r : SetMeta) : Type 0 where
  pub valid : SetValid r
  pub elems : (p : SetElem → Bool) → tally p (root_elems r.root) ≡ tally p (elems_node node)
  pub counts : SameButSpace i r

tot_elem_cnt-length :
    (d : ℕ) (node : HashNode) → ValidNode d node → tot_elem_cnt node ≡ length (elems_node node)
unfolding tot_elem_cnt ValidNode elems_node
tot_elem_cnt-length d (hash_node hdepth tot slots) (h, t, v) = t

no_elem : (elems : List SetElem) → length elems ≡ 0 → elems ≡ []
no_elem [] h = refl
no_elem (e ∷ elems) h = absurd (omega arith)

empty-SetTree : (ccnt : ℕ) → ccnt ≡ 0 → SetTree none ccnt
unfolding tally
empty-SetTree ccnt h = record { valid = tt; counted = h; fresh = refl; unique = λ v. omega arith }

module _ (node_space : ℕ) where
  pub root_after-Settled :
      (i : SetMeta) (node : HashNode)
      → SetTree (some node) i.ccnt
      → let info' = record i { root = some node } in
        Settled node i
          (if tot_elem_cnt node == 0 then do_set_root_unlink node_space info' else info')
  unfolding do_set_root_unlink do_set_space_decr tally
  root_after-Settled i node tree =
      let tot = tot_elem_cnt-length 0 node tree.valid in
      if_cases (Settled node i) (tot_elem_cnt node == 0) _ _
        (λ h. record {
          valid = record {
            tree = empty-SetTree i.ccnt (ground (arith, tot, tree.counted));
            rooted = ground (arith, tot, tree.counted);
          };
          elems = λ p. ap (tally p) (sym (no_elem (elems_node node) (ground (arith, tot))));
          counts = (refl, refl, refl, refl);
        })
        (λ h. record {
          valid = record { tree = tree; rooted = ground (arith, tot, tree.counted) };
          elems = λ p. refl;
          counts = (refl, refl, refl, refl);
        })
