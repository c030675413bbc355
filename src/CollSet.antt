-- ===== src/CollSet.antt =====
-- engines/default/coll_set.c: the set collection, a tree of hash nodes with chains of elements.
mod Valid
mod Spread
mod Link
mod Find
pub mod Shallow
pub mod Member
pub mod Insert
pub mod Delete
pub mod Traverse
pub mod Run
mod Tests
use arcus_memcached.Prelude.{
  ℕ, zero, suc, ◌+◌, ◌-◌, ◌*◌, ◌/◌, ◌%◌, ◌^◌, Bool, true, false, ◌&&◌, ◌||◌, not, Option, none,
  some, List, [], ◌∷◌, ◌++◌, length, ltb, leb, ◌==◌, if◌then◌else◌, same_bytes, ℤ, pos, negsuc,
}
use arcus_memcached.CollList.{ErrorCode, is_success}
use arcus_memcached.Genhash.{genhash_string_hash}

-- `set_elem_item`; `nbytes` is the length of the value, and the chain holds the elements that `next` links.
pub record SetElem : Type 0 where
  pub addr : ℕ
  pub refcount : ℕ
  pub hval : ℕ
  pub value : List ℕ

-- `set_hash_node`: its depth, its element count, and the 16 slots. A slot is a chain with its count `hcnt`,
-- or a child node, where `hcnt` is -1.
mutual
  pub data HashNode : Type 0 where
    hash_node : ℕ → ℕ → Slots → HashNode

  pub data Slots : Type 0 where
    nil : Slots
    chain : ℕ → List SetElem → Slots → Slots
    child : HashNode → Slots → Slots

-- `set_meta_info`, with the unlinked elements that readers still refer to, and the addresses given back to the
-- allocator by `do_set_elem_free`.
pub record SetMeta : Type 0 where
  pub mcnt : ℤ
  pub ccnt : ℕ
  pub stotal : ℕ
  pub root : Option HashNode
  pub held : List SetElem
  pub freed : List ℕ

-- `SET_HASHTAB_SIZE` and `SET_MAX_HASHCHAIN_SIZE`
abbrev pub hashtab_size : ℕ
hashtab_size = 16

abbrev pub max_hashchain_size : ℕ
max_hashchain_size = 64

-- `SET_GET_HASHIDX` of a `uint32_t`, at a depth that the 32 bits of the hash have, which is at most 7
pub get_hashidx : ℕ → ℕ → ℕ
get_hashidx hval hdepth = hval / hashtab_size ^ hdepth % hashtab_size

-- `SET_GET_HASHIDX` of an `int`: in a node of depth 7 the shift to the right keeps the sign of a hash with its top bit
-- set, so the indexes from 8 to 15 are those from -8 to -1.
pub signed_hashidx : ℕ → ℕ → ℤ
unfolding get_hashidx
signed_hashidx hval hdepth =
    if hdepth == 7 && leb (2 ^ 31) hval
    then negsuc (15 - get_hashidx hval hdepth)
    else pos (get_hashidx hval hdepth)

-- `set_hash_eq`
pub set_hash_eq : ℕ → List ℕ → SetElem → Bool
set_hash_eq hval val e = hval == e.hval && same_bytes val e.value

-- `node->tot_elem_cnt`
pub tot_elem_cnt : HashNode → ℕ
tot_elem_cnt (hash_node hdepth tot slots) = tot

-- The loop of `is_leaf_node`.
pub no_child : Slots → Bool
no_child nil = true
no_child (chain cnt elems slots) = no_child slots
no_child (child node slots) = false

-- `is_leaf_node`
pub is_leaf_node : HashNode → Bool
unfolding no_child
is_leaf_node (hash_node hdepth tot slots) = no_child slots

empty_slots : ℕ → Slots
empty_slots zero = nil
empty_slots (suc n) = chain 0 [] (empty_slots n)

-- `do_set_node_alloc`, given memory
pub do_set_node_alloc : ℕ → HashNode
unfolding empty_slots
do_set_node_alloc hdepth = hash_node hdepth 0 (empty_slots hashtab_size)

-- An element in front of the chain of a slot: `elem->next = htab[hidx]; htab[hidx] = elem; hcnt[hidx] += 1`.
pub push_slot : SetElem → Slots → ℕ → Slots
push_slot e nil i = nil
push_slot e (chain cnt elems slots) zero = chain (cnt + 1) (e ∷ elems) slots
push_slot e (child node slots) zero = child node slots
push_slot e (chain cnt elems slots) (suc i) = chain cnt elems (push_slot e slots i)
push_slot e (child node slots) (suc i) = child node (push_slot e slots i)

pub push_node : SetElem → HashNode → HashNode
unfolding push_slot get_hashidx
push_node e (hash_node hdepth tot slots) =
    hash_node hdepth (tot + 1) (push_slot e slots (get_hashidx e.hval hdepth))

-- The loop of `do_set_node_link`: the elements of the parent's chain, from its head on.
pub spread : List SetElem → HashNode → HashNode
unfolding push_node
spread [] node = node
spread (e ∷ elems) node = spread elems (push_node e node)

-- The loop over the chain in `do_set_elem_link` and `do_set_elem_find`.
pub find_chain_elem : ℕ → List ℕ → List SetElem → Option SetElem
unfolding set_hash_eq
find_chain_elem hval val [] = none
find_chain_elem hval val (e ∷ elems) =
    if set_hash_eq hval val e then some e else find_chain_elem hval val elems

-- The way down of `do_set_elem_find`, and its search; `none` means that it reads outside the slots of a node.
mutual
  unfolding find_chain_elem signed_hashidx

  pub search_node : ℕ → List ℕ → HashNode → Option (Option SetElem)
  search_node hval val (hash_node hdepth tot slots) = elim (signed_hashidx hval hdepth) [
    | pos i ↦ search_slot hval val slots i
    | negsuc n ↦ none
  ]

  pub search_slot : ℕ → List ℕ → Slots → ℕ → Option (Option SetElem)
  search_slot hval val nil i = none
  search_slot hval val (chain cnt elems slots) zero = some (find_chain_elem hval val elems)
  search_slot hval val (child node slots) zero = search_node hval val node
  search_slot hval val (chain cnt elems slots) (suc i) = search_slot hval val slots i
  search_slot hval val (child node slots) (suc i) = search_slot hval val slots i

-- `do_set_elem_find`
pub do_set_elem_find : SetMeta → List ℕ → Option (Option SetElem)
unfolding search_node
do_set_elem_find info val = elim info.root [
  | none ↦ some none
  | some node ↦ search_node (genhash_string_hash val) val node
]

-- What `do_set_elem_link` returns, and whether it has linked a new node.
pub record Linked (N : Type 0) : Type 0 where
  pub ret : ErrorCode
  pub split : Bool
  pub result : N

abbrev pub refused : {N : Type 0} → ErrorCode → N → Linked N
refused ret n = record { ret = ret; split = false; result = n }

-- The slot that the element belongs to: an equal element, a full chain that a new node takes over, or the
-- head of the chain. `given` says whether `do_set_node_alloc` has memory.
pub link_chain : Bool → ℕ → SetElem → ℕ → List SetElem → Slots → Linked Slots
unfolding spread
link_chain given hdepth e cnt elems slots = elim (find_chain_elem e.hval e.value elems) [
  | some found ↦ refused ErrorCode.elem_eexists (chain cnt elems slots)
  | none ↦
      if leb max_hashchain_size cnt
      then (if given
          then record {
            ret = ErrorCode.success;
            split = true;
            result = child (push_node e (spread elems (do_set_node_alloc (suc hdepth)))) slots;
          }
          else refused ErrorCode.enomem (chain cnt elems slots))
      else record {
        ret = ErrorCode.success;
        split = false;
        result = chain (cnt + 1) (e ∷ elems) slots;
      }
]

-- The way down of `do_set_elem_link`, with the counts of the nodes on it.
mutual
  unfolding link_chain get_hashidx

  pub link_node : Bool → SetElem → HashNode → Linked HashNode
  link_node given e (hash_node hdepth tot slots) =
      let r = link_slot given hdepth e slots (get_hashidx e.hval hdepth) in
      record {
        ret = r.ret;
        split = r.split;
        result = hash_node hdepth (if is_success r.ret then tot + 1 else tot) r.result;
      }

  pub link_slot : Bool → ℕ → SetElem → Slots → ℕ → Linked Slots
  link_slot given hdepth e nil i = refused ErrorCode.einval nil
  link_slot given hdepth e (chain cnt elems slots) zero = link_chain given hdepth e cnt elems slots
  link_slot given hdepth e (child node slots) zero =
      let r = link_node given e node in
      record { ret = r.ret; split = r.split; result = child r.result slots }
  link_slot given hdepth e (chain cnt elems slots) (suc i) =
      let r = link_slot given hdepth e slots i in
      record { ret = r.ret; split = r.split; result = chain cnt elems r.result }
  link_slot given hdepth e (child node slots) (suc i) =
      let r = link_slot given hdepth e slots i in
      record { ret = r.ret; split = r.split; result = child node r.result }
