-- ===== src/Btree/Tests.antt =====
-- engines/default/coll_btree.c: runs on small keys and flags, and the theorems at concrete inputs.
use arcus_memcached.Prelude.{
  ◌-◌, inr, none, some, ◌≡◌, refl, true, false, [], ◌∷◌, length, pos, negsuc, arith,
}
use arcus_memcached.Btree.{
  uint64, binary, eq, lt, le, and, EflagFilter, binary_comp, uint64_comp, bkey_comp, bkey_is,
  padded, diff_loop, binary_diff, decr_loop, binary_decr, all_equal, binary_iseq, compare_loop,
  binary_bitwise_op, do_btree_elem_filter,
}
use arcus_memcached.Btree.Order.{holds, bkey_is-holds, bkey_comp_trans}
use arcus_memcached.Btree.Diff.{value, Bytes, binary_diff-value}
use arcus_memcached.Btree.Filter.{passes, FilterValid, do_btree_elem_filter-passes}

bkey_is-holds_example :
    bkey_is le (binary (1 ∷ 2 ∷ [])) (binary (1 ∷ []))
    ≡ holds le (bkey_comp (binary (1 ∷ 2 ∷ [])) (binary (1 ∷ [])))
bkey_is-holds_example = bkey_is-holds le (binary (1 ∷ 2 ∷ [])) (binary (1 ∷ []))

bkey_comp_trans_example : holds lt (bkey_comp (binary (1 ∷ [])) (binary (2 ∷ []))) ≡ true
unfolding bkey_comp binary_comp
bkey_comp_trans_example =
    bkey_comp_trans (binary (1 ∷ [])) (binary (1 ∷ 9 ∷ [])) (binary (2 ∷ [])) refl refl refl refl

binary_diff-value_example :
    let r = binary_diff (2 ∷ 1 ∷ []) (1 ∷ []) 2 in
    (length r ≡ 2) × (value r ≡ value (padded 2 (2 ∷ 1 ∷ [])) - value (padded 2 (1 ∷ [])))
unfolding Bytes binary_comp
binary_diff-value_example =
    binary_diff-value (2 ∷ 1 ∷ []) (1 ∷ []) 2 (omega arith, (omega arith, tt)) (omega arith, tt)
      (omega arith) (omega arith) refl

-- The second byte, and whether it has the lowest bit and no other of the low four
abbrev low_bit : EflagFilter
low_bit = record {
  bitwval = 15 ∷ [];
  compval = 1 ∷ 2 ∷ [];
  ncompval = 1;
  compvcnt = 2;
  offset = 1;
  bitwop = and;
  compop = eq;
}

low_bit-FilterValid : FilterValid low_bit
low_bit-FilterValid = record {
  mask = inr refl;
  values = refl;
  nonempty = omega arith;
  fits = omega arith;
  counted = omega arith;
  op = refl;
}

do_btree_elem_filter-passes_example :
    do_btree_elem_filter (7 ∷ 34 ∷ []) low_bit ≡ some (passes (7 ∷ 34 ∷ []) low_bit)
do_btree_elem_filter-passes_example =
    do_btree_elem_filter-passes (7 ∷ 34 ∷ []) low_bit low_bit-FilterValid

-- A mask of one byte for values of two
abbrev short_mask : EflagFilter
short_mask = record low_bit { ncompval = 2; compvcnt = 1; offset = 0 }

key_run :
    (binary_diff (2 ∷ 0 ∷ []) (1 ∷ 1 ∷ []) 2 ≡ 0 ∷ 255 ∷ [])
    × (binary_decr (1 ∷ 0 ∷ []) ≡ 0 ∷ 255 ∷ [])
    × (bkey_comp (binary (1 ∷ [])) (binary (1 ∷ 0 ∷ [])) ≡ negsuc 0)
    × (bkey_comp (uint64 7) (uint64 3) ≡ pos 1)
    × (do_btree_elem_filter (7 ∷ 34 ∷ []) low_bit ≡ some true)
    × (do_btree_elem_filter (7 ∷ 36 ∷ []) low_bit ≡ some false)
    × (do_btree_elem_filter (7 ∷ 36 ∷ []) short_mask ≡ none)
unfolding binary_diff diff_loop binary_decr decr_loop bkey_comp uint64_comp binary_comp
    do_btree_elem_filter compare_loop binary_iseq all_equal binary_bitwise_op
key_run = (refl, refl, refl, refl, refl, refl, refl)
