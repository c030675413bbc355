-- ===== src/CollSet/Delete.antt =====
-- engines/default/coll_set.c: the deletion of a value, and the collapse of the nodes that it empties.
pub mod Collapse
pub mod Root
pub mod Chain
pub mod Outcome
pub mod Value
use arcus_memcached.Prelude.{
  ℕ, zero, suc, ◌+◌, ◌-◌, ◌/◌, Bool, true, false, ◌&&◌, Option, none, some, List, [], ◌∷◌, length,
  ltb, ◌==◌, if◌then◌else◌, pos, negsuc,
}
use arcus_memcached.CollList.{ErrorCode, is_success}
use arcus_memcached.CollSet.{
  SetElem, HashNode, Slots, hash_node, nil, chain, child, SetMeta, max_hashchain_size,
  signed_hashidx, set_hash_eq, tot_elem_cnt, is_leaf_node,
}
use arcus_memcached.CollSet.Insert.{do_set_space_decr, do_set_root_unlink}
use arcus_memcached.Genhash.{genhash_string_hash}

-- The inner loop of `do_set_node_unlink`: the elements of a chain, each put in front of `head`.
unfoldable pub push_all : List SetElem → List SetElem → List SetElem
push_all [] head = head
push_all (e ∷ elems) head = push_all elems (e ∷ head)

-- The loop of `do_set_node_unlink` over the slots: `fcnt` and `head`.
unfoldable pub gather : Slots → ℕ → List SetElem → ℕ × List SetElem
unfolding push_all
gather nil fcnt head = (fcnt, head)
gather (chain cnt elems slots) fcnt head =
    let rest = gather slots (fcnt + cnt) (push_all elems head) in
    let rest' = gather slots fcnt head in if ltb 0 cnt then rest else rest'
gather (child node slots) fcnt head = gather slots fcnt head

-- The chain that takes the place of a child node: `par_node->htab[par_hidx]` and `hcnt[par_hidx]`.
unfoldable pub unlinked_child : HashNode → Slots → Slots
unfolding gather
unlinked_child (hash_node hdepth tot node_slots) slots =
    let r = gather node_slots 0 [] in chain (r.0) (r.1) slots

-- `child_node->tot_elem_cnt < (SET_MAX_HASHCHAIN_SIZE/2) && is_leaf_node(child_node)`
abbrev pub collapses : HashNode → Bool
collapses node = ltb (tot_elem_cnt node) (max_hashchain_size / 2) && is_leaf_node node

-- What a deletion leaves of a node or of a slot array, with the meta information.
pub record Deleted (N : Type 0) : Type 0 where
  pub ret : ErrorCode
  pub info : SetMeta
  pub result : N

-- The search for the element, and the chain without it.
unfoldable pub remove_chain_elem : ℕ → List ℕ → List SetElem → Option (SetElem × List SetElem)
unfolding set_hash_eq
remove_chain_elem hval val [] = none
remove_chain_elem hval val (e ∷ elems) =
    let rest = remove_chain_elem hval val elems in
    if set_hash_eq hval val e
    then some (e, elems)
    else elim rest [ none ↦ none | some (x, es) ↦ some (x, e ∷ es) ]

-- What `do_set_elem_unlink` does to the meta information.
module _ (space : ℕ → ℕ) where
  unfoldable pub do_set_elem_unlink : SetMeta → SetElem → SetMeta
  do_set_elem_unlink info e = record info {
    ccnt = info.ccnt - 1;
    stotal = if ltb 0 info.stotal then info.stotal - space (length e.value) else info.stotal;
    held = if e.refcount == 0 then info.held else e ∷ info.held;
    freed = if e.refcount == 0 then e.addr ∷ info.freed else info.freed;
  }

module _ (node_space : ℕ) (space : ℕ → ℕ) where
  -- The slot of the hash, where it is a chain.
  unfoldable pub delete_chain : SetMeta → ℕ → List ℕ → ℕ → List SetElem → Slots → Deleted Slots
  unfolding remove_chain_elem do_set_elem_unlink
  delete_chain info hval val cnt elems slots =
      let missing : Deleted Slots = record {
        ret = ErrorCode.elem_enoent;
        info = info;
        result = chain cnt elems slots;
      } in
      if ltb 0 cnt
      then elim (remove_chain_elem hval val elems) [
        | none ↦ missing
        | some (e, es) ↦ record {
          ret = ErrorCode.success;
          info = do_set_elem_unlink space info e;
          result = chain (cnt - 1) es slots;
        }
      ]
      else missing

  -- What follows the deletion in a child node.
  unfoldable pub after_child : Deleted HashNode → Slots → Deleted Slots
  unfolding do_set_space_decr unlinked_child
  after_child r slots = record {
    ret = r.ret;
    info =
        if is_success r.ret && collapses r.result
        then do_set_space_decr node_space r.info
        else r.info;
    result =
        if is_success r.ret && collapses r.result
        then unlinked_child r.result slots
        else child r.result slots;
  }

  -- `do_set_elem_traverse_delete`. The code never returns `einval`: it stands for a read outside the slots of a node.
  unfoldable mutual
    unfolding delete_chain after_child signed_hashidx

    pub delete_node : SetMeta → ℕ → List ℕ → HashNode → Deleted HashNode
    delete_node info hval val (hash_node hdepth tot slots) = elim (signed_hashidx hval hdepth) [
      | negsuc n ↦ record {
        ret = ErrorCode.einval;
        info = info;
        result = hash_node hdepth tot slots;
      }
      | pos i ↦
          let r = delete_slot info hval val slots i in
          record {
            ret = r.ret;
            info = r.info;
            result = hash_node hdepth (if is_success r.ret then tot - 1 else tot) r.result;
          }
    ]

    pub delete_slot : SetMeta → ℕ → List ℕ → Slots → ℕ → Deleted Slots
    delete_slot info hval val nil i = record { ret = ErrorCode.einval; info = info; result = nil }
    delete_slot info hval val (chain cnt elems slots) zero =
        delete_chain info hval val cnt elems slots
    delete_slot info hval val (child node slots) zero =
        after_child (delete_node info hval val node) slots
    delete_slot info hval val (chain cnt elems slots) (suc i) =
        let r = delete_slot info hval val slots i in
        record { ret = r.ret; info = r.info; result = chain cnt elems r.result }
    delete_slot info hval val (child node slots) (suc i) =
        let r = delete_slot info hval val slots i in
        record { ret = r.ret; info = r.info; result = child node r.result }

  -- `do_set_elem_delete_with_value`
  unfoldable pub do_set_elem_delete_with_value : SetMeta → List ℕ → ErrorCode × SetMeta
  unfolding delete_node do_set_root_unlink
  do_set_elem_delete_with_value info val = elim info.root [
    | none ↦ (ErrorCode.elem_enoent, info)
    | some root ↦
        let r = delete_node info (genhash_string_hash val) val root in
        let info' = record (r.info) { root = some r.result } in
        (
          r.ret,
          if is_success r.ret && (tot_elem_cnt r.result == 0)
              then do_set_root_unlink node_space info'
              else info',
        )
  ]
