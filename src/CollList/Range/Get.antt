-- ===== src/CollList/Range/Get.antt =====
-- engines/default/coll_list.c: `list_elem_get` over a range of indices.
use arcus_memcached.Prelude.{
  ℕ, ◌+◌, ◌≡◌, Bool, ◌&&◌, some, leb, ◌==◌, if◌then◌else◌, List, map, reverse, take, drop,
}
use arcus_memcached.CollList.{Elem, ListMeta, success, retain}
use arcus_memcached.CollList.Valid.{IsValid, SameSettings}
use arcus_memcached.CollList.Range.{span, GetResult}

module _ (space : ℕ → ℕ) where
  -- `n` elements from the index `i` on, in the direction asked for.
  abbrev pub slice : Bool → ℕ → ℕ → List Elem → List Elem
  slice forward i n xs = if forward then take n (drop i xs) else take n (reverse (take (i + 1) xs))

  abbrev SpanGot : ListMeta → Bool → ℕ → ℕ → ListMeta × List Elem → Type 0
  SpanGot info forward i n r =
      (r.1 ≡ map retain (slice forward i n info.elems))
      × (r.0.freed ≡ info.freed)
      × SameSettings info r.0
      × IsValid space r.0

  -- What a successful read of the indices from `f` to `t` hands out and leaves.
  pub record RangeGot (info : ListMeta) (f t : ℕ) (drop_if_empty : Bool) (r : GetResult)
      : Type 0 where
    pub ret : r.ret ≡ success
    pub elem_array : r.elem_array ≡ map retain (slice (leb f t) f (span f t).1 info.elems)
    pub freed : r.info.freed ≡ info.freed
    pub dropped : r.dropped ≡ some ((r.info.ccnt == 0) && drop_if_empty)
    pub unlinked : r.unlinked ≡ (r.info.ccnt == 0) && drop_if_empty
    pub settings : SameSettings info r.info
    pub valid : IsValid space r.info
