-- ===== src/Cluster.antt =====
-- cluster_config.c: the node that a key belongs to, on the ring of hash points.
mod Ring
mod Names
mod Tests
use arcus_memcached.Prelude.{
  ℕ, zero, suc, ◌+◌, ◌-◌, ◌⊎◌, inl, inr, Bool, true, false, Option, none, some, List, [], ◌∷◌,
  length, get_elem?, ltb, ◌==◌, if◌then◌else◌, ℤ, pos, negsuc,
}
use arcus_memcached.Btree.{binary_comp}
use arcus_memcached.Search.{search_loop}

-- `struct cont_item`
pub record ContItem : Type 0 where
  pub hpoint : ℕ
  pub nindex : ℕ
  pub sindex : ℕ
  pub sstate : ℕ

-- The part of `struct cluster_config` that a lookup reads; the continuum has `num_conts` items.
pub record ClusterConfig : Type 0 where
  pub self_id : ℕ
  pub continuum : List ContItem
  pub is_valid : Bool

-- `continuum[i]->hpoint`
abbrev pub hpoint_at : List ContItem → ℕ → ℕ
hpoint_at continuum i = elim (get_elem? continuum i) [ none ↦ 0 | some c ↦ c.hpoint ]

-- The comparisons of the loop of `do_continuum_find`.
pub hpoint_comp : ℕ → List ContItem → ℕ → ℤ
hpoint_comp hvalue continuum i =
    if hvalue == hpoint_at continuum i
    then pos 0
    else if ltb hvalue (hpoint_at continuum i)
    then negsuc 0
    else pos 1

-- `while (mid > 0 && continuum[mid-1]->hpoint == hvalue) mid -= 1`
pub first_equal : ℕ → List ContItem → ℕ → ℕ
first_equal hvalue continuum zero = zero
first_equal hvalue continuum (suc mid) =
    let rest = first_equal hvalue continuum mid in
    if hpoint_at continuum mid == hvalue then rest else suc mid

-- `do_continuum_find`; `none` is a read outside of the continuum
pub do_continuum_find : List ContItem → ℕ → Option ContItem
unfolding hpoint_comp first_equal
do_continuum_find continuum hvalue =
    let num_conts = length continuum in
    elim (search_loop (hpoint_comp hvalue continuum) (suc num_conts) 0 num_conts) [
      | none ↦ none
      | some (inl mid) ↦ get_elem? continuum (first_equal hvalue continuum mid)
      | some (inr left) ↦ get_elem? continuum (if ltb left num_conts then left else 0)
    ]

-- `cluster_config_key_is_mine`, given `hash_ketama`: `mine`, `key_id` and `self_id`, or `none` for -1
pub cluster_config_key_is_mine : (List ℕ → ℕ) → ClusterConfig → List ℕ → Option (Bool × ℕ × ℕ)
unfolding do_continuum_find
cluster_config_key_is_mine hash_ketama config key =
    if config.is_valid
    then elim (do_continuum_find config.continuum (hash_ketama key)) [
      | none ↦ none
      | some item ↦ some (item.nindex == config.self_id, item.nindex, config.self_id)
    ]
    else none

-- `array[i]->ndname`, without the null byte at its end
abbrev pub name_at : List (List ℕ) → ℕ → List ℕ
name_at array i = elim (get_elem? array i) [ none ↦ [] | some name ↦ name ]

-- `do_nodearray_find` on the names of the nodes; `none` is -1. `strcmp` compares as `BINARY_COMP` does.
pub do_nodearray_find : List (List ℕ) → List ℕ → Option ℕ
do_nodearray_find array node_name =
    let count = length array in
    elim (search_loop (λ mid. binary_comp node_name (name_at array mid)) (suc count) 0 count) [
      | none ↦ none
      | some (inl mid) ↦ some mid
      | some (inr left) ↦ none
    ]
