-- ===== src/CollSet/Traverse.antt =====
-- engines/default/coll_set.c: the depth-first traversal, and `do_set_elem_delete`, which drops elements by it.
pub mod Chain
pub mod Walk
pub mod Drop
use arcus_memcached.Prelude.{
  ℕ, zero, suc, ◌+◌, ◌-◌, Bool, true, false, ◌&&◌, Option, none, some, List, [], ◌∷◌, ◌++◌, length,
  ltb, ◌==◌, if◌then◌else◌,
}
use arcus_memcached.CollList.{reached}
use arcus_memcached.CollSet.{
  SetElem, HashNode, Slots, hash_node, nil, chain, child, SetMeta, tot_elem_cnt,
}
use arcus_memcached.CollSet.Insert.{do_set_space_decr, do_set_root_unlink}
use arcus_memcached.CollSet.Delete.{collapses, unlinked_child, do_set_elem_unlink}

-- What a traversal has visited, and what it leaves.
pub record Walked (N : Type 0) : Type 0 where
  pub info : SetMeta
  pub visited : List SetElem
  pub result : N

-- `elem->refcount++`, where there is an `elem_array`
abbrev pub visit : Bool → SetElem → SetElem
visit array e = if array then record e { refcount = e.refcount + 1 } else e

module _ (node_space : ℕ) (space : ℕ → ℕ) (delete array : Bool) where
  -- The loop over a chain. `array` says whether there is an `elem_array`.
  pub walk_chain : ℕ → SetMeta → List SetElem → ℕ → Walked (List SetElem)
  walk_chain count info [] fcnt = record { info = info; visited = []; result = [] }
  walk_chain count info (e ∷ elems) fcnt =
      let x = visit array e in
      let info' = if delete then do_set_elem_unlink space info x else info in
      let rest = walk_chain count info' elems (fcnt + 1) in
      if reached count (fcnt + 1)
      then record { info = info'; visited = x ∷ []; result = if delete then elems else x ∷ elems }
      else record {
        info = rest.info;
        visited = x ∷ rest.visited;
        result = if delete then rest.result else x ∷ rest.result;
      }

  -- A slot that is a chain.
  pub walk_slot : ℕ → SetMeta → ℕ → List SetElem → ℕ → Walked (ℕ × List SetElem)
  unfolding walk_chain
  walk_slot count info cnt elems fcnt =
      let r = walk_chain count info elems fcnt in
      if ltb 0 cnt
      then record {
        info = r.info;
        visited = r.visited;
        result = (if delete then cnt - length r.visited else cnt, r.result);
      }
      else record { info = info; visited = []; result = (cnt, elems) }

  -- What follows the traversal of a child node.
  pub walk_child : Walked HashNode → Slots → Walked Slots
  unfolding do_set_space_decr unlinked_child
  walk_child r slots =
      let gone = delete && collapses r.result in
      record {
        info = if gone then do_set_space_decr node_space r.info else r.info;
        visited = r.visited;
        result = if gone then unlinked_child r.result slots else child r.result slots;
      }

  -- `do_set_elem_traverse_dfs`, and its loop over the slots
  mutual
    unfolding walk_slot walk_child

    pub walk_node : ℕ → SetMeta → HashNode → Walked HashNode
    walk_node count info (hash_node hdepth tot slots) =
        let r = walk_slots count info slots 0 in
        record {
          info = r.info;
          visited = r.visited;
          result = hash_node hdepth (if delete then tot - length r.visited else tot) r.result;
        }

    pub walk_slots : ℕ → SetMeta → Slots → ℕ → Walked Slots
    walk_slots count info nil fcnt = record { info = info; visited = []; result = nil }
    walk_slots count info (chain cnt elems slots) fcnt =
        let here = walk_slot count info cnt elems fcnt in
        let fcnt' = fcnt + length here.visited in
        let rest = walk_slots count here.info slots fcnt' in
        if reached count fcnt'
        then record {
          info = here.info;
          visited = here.visited;
          result = chain (here.result.0) (here.result.1) slots;
        }
        else record {
          info = rest.info;
          visited = here.visited ++ rest.visited;
          result = chain (here.result.0) (here.result.1) rest.result;
        }
    walk_slots count info (child node slots) fcnt =
        let below = walk_node (if ltb 0 count then count - fcnt else 0) info node in
        let here = walk_child below slots in
        let fcnt' = fcnt + length here.visited in
        let rest = walk_slots count here.info slots fcnt' in
        if reached count fcnt' then here else record {
          info = rest.info;
          visited = here.visited ++ rest.visited;
          result = (walk_child below rest.result).result;
        }

module _ (node_space : ℕ) (space : ℕ → ℕ) where
  -- `do_set_elem_delete`: the count of the elements that it dropped, and the set without them.
  pub do_set_elem_delete : SetMeta → ℕ → ℕ × SetMeta
  unfolding walk_node do_set_root_unlink
  do_set_elem_delete info count = elim info.root [
    | none ↦ (0, info)
    | some root ↦
        let r = walk_node node_space space true false count info root in
        let info' = record (r.info) { root = some r.result } in
        (
          length r.visited,
          if tot_elem_cnt r.result == 0 then do_set_root_unlink node_space info' else info',
        )
  ]
