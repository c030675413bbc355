-- ===== src/CollSet/Insert.antt =====
-- engines/default/coll_set.c: `do_set_elem_insert`, and the linking of nodes and elements in the meta information.
pub mod Below
pub mod Outcome
use arcus_memcached.Prelude.{
  ℕ, zero, suc, ◌+◌, ◌-◌, Bool, true, false, ◌&&◌, ◌||◌, not, Option, none, some, List, [], ◌∷◌,
  length, ltb, leb, if◌then◌else◌, ℤ, pos, negsuc,
}
use arcus_memcached.CollList.{ErrorCode, is_success, real_mcnt}
use arcus_memcached.CollSet.{SetElem, HashNode, SetMeta, do_set_node_alloc, link_node}
use arcus_memcached.Genhash.{genhash_string_hash}

-- `do_set_real_maxcount`, given `config->max_set_size`
unfoldable pub do_set_real_maxcount : ℕ → ℤ → ℤ
do_set_real_maxcount max_set_size (negsuc n) = negsuc 0
do_set_real_maxcount max_set_size (pos zero) = pos 4000
do_set_real_maxcount max_set_size (pos (suc n)) =
    if ltb max_set_size (suc n) then pos max_set_size else pos (suc n)

-- `elem->hval = genhash_string_hash(elem->value, elem->nbytes)`
abbrev pub hashed : SetElem → SetElem
hashed e = record e { hval = genhash_string_hash e.value }

-- The parts over `node_space`, which is `slabs_space_size(sizeof(set_hash_node))`.
module _ (node_space : ℕ) where
  -- `do_set_node_link` without a parent
  unfoldable pub do_set_root_link : SetMeta → HashNode → SetMeta
  do_set_root_link info node = record info { root = some node; stotal = info.stotal + node_space }

  -- What `do_set_node_unlink` does to the meta information.
  unfoldable pub do_set_space_decr : SetMeta → SetMeta
  do_set_space_decr info = record info {
    stotal = if ltb 0 info.stotal then info.stotal - node_space else info.stotal;
  }

  -- `do_set_node_unlink` without a parent
  unfoldable pub do_set_root_unlink : SetMeta → SetMeta
  unfolding do_set_space_decr
  do_set_root_unlink info = do_set_space_decr (record info { root = none })

-- Those also over `space`, which takes `nbytes` to `slabs_space_size(do_set_elem_ntotal(elem))`.
module _ (node_space : ℕ) (space : ℕ → ℕ) where
  -- `do_set_elem_link` below the root
  unfoldable pub do_set_elem_link : Bool → SetMeta → SetElem → HashNode → ErrorCode × SetMeta
  unfolding link_node
  do_set_elem_link given info e root =
      let r = link_node given (hashed e) root in
      (
        r.ret,
        record info {
          root = some r.result;
          ccnt = if is_success r.ret then info.ccnt + 1 else info.ccnt;
          stotal =
              if is_success r.ret
              then info.stotal + (if r.split then node_space else 0) + space (length e.value)
              else info.stotal;
        },
      )

  -- `do_set_elem_insert`, given `config->max_set_size`, whether the item is sticky and the sticky memory
  -- overflows, and whether there is memory for a root and for a new node below it
  unfoldable pub do_set_elem_insert :
      ℕ → Bool → Bool → Bool → SetMeta → SetElem → ErrorCode × SetMeta
  unfolding do_set_root_link do_set_root_unlink do_set_elem_link
  do_set_elem_insert max_set_size sticky_full given_root given info e =
      if sticky_full
      then (ErrorCode.enomem, info)
      else if leb (real_mcnt max_set_size info.mcnt) info.ccnt
      then (ErrorCode.eoverflow, info)
      else elim info.root [
        | some root ↦ do_set_elem_link given info e root
        | none ↦
            let root = do_set_node_alloc 0 in
            let r = do_set_elem_link given (do_set_root_link node_space info root) e root in
            if given_root
            then (if is_success (r.0) then r else (r.0, do_set_root_unlink node_space (r.1)))
            else (ErrorCode.enomem, info)
      ]
