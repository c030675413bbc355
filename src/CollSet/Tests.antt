-- ===== src/CollSet/Tests.antt =====
-- engines/default/coll_set.c: runs of the set operations, and the theorems at concrete sets.
use arcus_memcached.Prelude.{
  ℕ, ◌+◌, ◌≡◌, arith, refl, Bool, true, false, none, List, [], ◌∷◌, pos, negsuc, some, ◌-◌, ◌^◌,
}
use arcus_memcached.CollList.{ErrorCode, real_mcnt}
use arcus_memcached.CollSet.{
  SetElem, SetMeta, do_set_elem_find, link_node, link_chain, push_node, push_slot, spread,
  get_hashidx, signed_hashidx, search_node, set_hash_eq, do_set_node_alloc, find_chain_elem,
  empty_slots, tot_elem_cnt,
}
use arcus_memcached.CollSet.Valid.{tally}
use arcus_memcached.Genhash.{genhash_string_hash}
use arcus_memcached.CollSet.Shallow.{ShallowNode, ShallowRoot}
use arcus_memcached.CollSet.Member.{SetValid, member, looked_up}
use arcus_memcached.CollSet.Insert.{
  do_set_real_maxcount, do_set_root_link, do_set_elem_link, do_set_space_decr, do_set_root_unlink,
  do_set_elem_insert,
}
use arcus_memcached.CollSet.Insert.Below.{Inserted}
use arcus_memcached.CollSet.Insert.Outcome.{
  do_set_elem_insert-Inserted, do_set_elem_insert-SetValid,
}
use arcus_memcached.CollSet.Delete.{
  delete_node, delete_chain, after_child, remove_chain_elem, do_set_elem_unlink,
  do_set_elem_delete_with_value,
}
use arcus_memcached.CollSet.Delete.Value.{Removed, do_set_elem_delete_with_value-Removed}
use arcus_memcached.CollSet.Traverse.{do_set_elem_delete}
use arcus_memcached.CollSet.Traverse.Drop.{Dropped, do_set_elem_delete-Dropped}
use arcus_memcached.CollSet.Run.{
  SetOp, insert, delete, run, values_after, ShallowRun, Holds, run-Holds,
}

abbrev space : ℕ → ℕ
space n = n + 32

abbrev empty : SetMeta
empty = record { mcnt = pos 3; ccnt = 0; stotal = 0; root = none; held = []; freed = [] }

abbrev elem : ℕ → SetElem
elem a = record { addr = a; refcount = 0; hval = 0; value = a ∷ [] }

empty-SetValid : SetValid empty
unfolding tally
empty-SetValid = record {
  tree = record { valid = tt; counted = refl; fresh = refl; unique = λ val. omega arith };
  rooted = refl;
}

-- A set of one value.
abbrev single : SetMeta
single = (do_set_elem_insert 100 space 50000 false true true empty (elem 65)).1

single-SetValid : SetValid single
single-SetValid =
    do_set_elem_insert-SetValid 100 space 50000 false true true empty (elem 65) empty-SetValid

single-ShallowRoot : ShallowRoot single.root
unfolding do_set_elem_insert do_set_root_link do_set_elem_link do_set_space_decr do_set_root_unlink
    link_node link_chain push_node push_slot spread get_hashidx set_hash_eq do_set_node_alloc
    find_chain_elem empty_slots genhash_string_hash ShallowNode
single-ShallowRoot = (omega arith, tt)

-- A set of two values.
abbrev pair : SetMeta
pair = (do_set_elem_insert 100 space 50000 false true true single (elem 66)).1

pair-ShallowRoot : ShallowRoot pair.root
unfolding do_set_elem_insert do_set_root_link do_set_elem_link do_set_space_decr do_set_root_unlink
    link_node link_chain push_node push_slot spread get_hashidx set_hash_eq do_set_node_alloc
    find_chain_elem empty_slots genhash_string_hash ShallowNode
pair-ShallowRoot = (omega arith, tt)

do_set_elem_insert-Inserted_example :
    let r = do_set_elem_insert 100 space 50000 false true true single (elem 66) in
    Inserted (real_mcnt 50000 single.mcnt) false single (66 ∷ []) (r.0) (r.1)
    × ((v : List ℕ) → looked_up (r.1) v ≡ some (member (r.1) v))
do_set_elem_insert-Inserted_example =
    do_set_elem_insert-Inserted 100 space 50000 false true true single (elem 66) single-SetValid
      pair-ShallowRoot

do_set_elem_delete_with_value-Removed_example :
    let r = do_set_elem_delete_with_value 100 space single (65 ∷ []) in
    Removed single (65 ∷ []) (r.0) (r.1)
do_set_elem_delete_with_value-Removed_example =
    do_set_elem_delete_with_value-Removed 100 space single (65 ∷ []) single-SetValid
      single-ShallowRoot

do_set_elem_delete-Dropped_example :
    let r = do_set_elem_delete 100 space single 1 in Dropped single 1 (r.0) (r.1)
do_set_elem_delete-Dropped_example = do_set_elem_delete-Dropped 100 space single 1 single-SetValid

abbrev nothing : List ℕ → Bool
nothing val = false

empty-Holds : Holds 100 space 50000 nothing empty
unfolding do_set_elem_find tally
empty-Holds = record { valid = empty-SetValid; members = λ val. refl; finds = λ val. refl }

abbrev some_ops : List SetOp
some_ops =
    insert false true true (elem 65) ∷ insert false true true (elem 66) ∷ delete (65 ∷ []) ∷ []

some_ops-ShallowRun : ShallowRun 100 space 50000 empty some_ops
unfolding do_set_elem_insert do_set_root_link do_set_elem_link do_set_space_decr do_set_root_unlink
    link_node link_chain push_node push_slot spread get_hashidx set_hash_eq do_set_node_alloc
    find_chain_elem empty_slots genhash_string_hash ShallowNode ShallowRun delete_node delete_chain
    after_child remove_chain_elem do_set_elem_unlink signed_hashidx do_set_elem_delete_with_value
    tot_elem_cnt
some_ops-ShallowRun = (tt, ((omega arith, tt), ((omega arith, tt), (omega arith, tt))))

run-Holds_example :
    Holds 100 space 50000
      (values_after 100 space 50000 empty nothing some_ops)
      (run 100 space 50000 empty some_ops)
run-Holds_example = run-Holds 100 space 50000 nothing empty some_ops some_ops-ShallowRun empty-Holds

do_set_real_maxcount_run :
    (do_set_real_maxcount 50000 (pos 0) ≡ pos 4000)
    × (do_set_real_maxcount 50000 (pos 60000) ≡ pos 50000)
unfolding do_set_real_maxcount
do_set_real_maxcount_run = (refl, refl)

-- The codes of an insertion, of the same again, and of one that overflows; then a deletion, and the same again.
code_run :
    (single.ccnt ≡ 1)
    × (single.stotal ≡ 133)
    × ((do_set_elem_insert 100 space 50000 false true true single (elem 65)).0
        ≡ ErrorCode.elem_eexists)
    × ((do_set_elem_insert 100 space 1 false true true (record single { mcnt = pos 1 }) (elem 66)).0
        ≡ ErrorCode.eoverflow)
    × ((do_set_elem_delete_with_value 100 space single (66 ∷ [])).0 ≡ ErrorCode.elem_enoent)
    × ((do_set_elem_delete_with_value 100 space single (65 ∷ [])).1
        ≡ record empty { freed = 65 ∷ [] })
unfolding do_set_elem_insert do_set_root_link do_set_elem_link do_set_space_decr do_set_root_unlink
    link_node link_chain push_node push_slot spread get_hashidx set_hash_eq do_set_node_alloc
    find_chain_elem empty_slots genhash_string_hash delete_node delete_chain after_child
    remove_chain_elem do_set_elem_unlink do_set_elem_delete_with_value tot_elem_cnt signed_hashidx
code_run = (refl, refl, refl, refl, refl, refl)

-- The index of a hash with its top bit set, at depth 7 and 6, and the search that it misleads.
sign_run :
    (get_hashidx (2 ^ 32 - 1) 7 ≡ 15)
    × (signed_hashidx (2 ^ 32 - 1) 7 ≡ negsuc 0)
    × (signed_hashidx (2 ^ 31) 7 ≡ negsuc 7)
    × (signed_hashidx (2 ^ 31 - 1) 7 ≡ pos 7)
    × (signed_hashidx (2 ^ 32 - 1) 6 ≡ pos 15)
    × (search_node (2 ^ 32 - 1) (65 ∷ []) (do_set_node_alloc 7) ≡ none)
    × (search_node (2 ^ 32 - 1) (65 ∷ []) (do_set_node_alloc 6) ≡ some none)
unfolding signed_hashidx get_hashidx search_node do_set_node_alloc empty_slots find_chain_elem
sign_run = (refl, refl, refl, refl, refl, refl, refl)
