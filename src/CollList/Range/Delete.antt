-- ===== src/CollList/Range/Delete.antt =====
-- engines/default/coll_list.c: `list_elem_delete` and `list_elem_get` over a range of indices.
use arcus_memcached.Prelude.{
  ℕ, suc, ◌+◌, ◌-◌, ◌≤◌, ◌<◌, ◌≡◌, ◌∙◌, refl, sym, ap, ap₂, subst, Bool, true, ◌&&◌, some, arith,
  leb, ltb, ◌==◌, if◌then◌else◌, ℤ, List, ◌∷◌, ◌++◌, length, take, drop, take-append,
  drop-append_add, split_at, length-append, min,
}
use arcus_memcached.CollList.{Elem, ListMeta, success, do_list_elem_delete}
use arcus_memcached.CollList.Valid.{IsValid, SameSettings}
use arcus_memcached.CollList.Delete.{do_list_elem_delete-Deleted}
use arcus_memcached.CollList.Range.Bounds.{InBounds, adjust_list_range-InBounds}
use arcus_memcached.CollList.Range.{span, DeleteResult, adjust_list_range, list_elem_delete}

ltb-zero-suc : (n : ℕ) → ltb 0 (suc n) ≡ true
ltb-zero-suc n = ground arith

pub in_bounds :
    (ccnt : ℕ) (a b : ℤ) (f t : ℕ)
    → adjust_list_range ccnt a b ≡ some (f, t)
    → (f < ccnt) × (t < ccnt)
in_bounds ccnt a b f t e = subst (InBounds ccnt) e (adjust_list_range-InBounds ccnt a b)

module _ (space : ℕ → ℕ) where
  -- What a successful deletion of the indices from `lo` on, `n` of them, reports and leaves.
  pub record RangeDeleted (info : ListMeta) (lo n : ℕ) (drop_if_empty : Bool) (r : DeleteResult)
      : Type 0 where
    pub ret : r.ret ≡ success
    pub del_count : r.del_count ≡ some n
    pub elems : r.info.elems ≡ take lo info.elems ++ drop (lo + n) info.elems
    pub dropped : r.dropped ≡ some ((r.info.ccnt == 0) && drop_if_empty)
    pub unlinked : r.unlinked ≡ (r.info.ccnt == 0) && drop_if_empty
    pub settings : SameSettings info r.info
    pub valid : IsValid space r.info

  abbrev SpanDeleted : ListMeta → ℕ → ℕ → ListMeta × ℕ → Type 0
  SpanDeleted info lo n r =
      (r.0.elems ≡ take lo info.elems ++ drop (lo + n) info.elems)
      × (r.1 ≡ n)
      × SameSettings info r.0
      × IsValid space r.0

  delete_span :
      (info : ListMeta) (p : List Elem) (x : Elem) (s : List Elem) (n : ℕ)
      → info.elems ≡ p ++ (x ∷ s)
      → IsValid space info
      → length p + suc n ≤ info.ccnt
      → SpanDeleted info (length p) (suc n) (do_list_elem_delete space info (length p) (suc n))
  delete_span info p x s n e v h =
      let d = do_list_elem_delete-Deleted space info p x s (suc n) e v in
      let m : min (suc n) (length (x ∷ s)) ≡ suc n =
        omega (arith, v.counted, ap length e, length-append p (x ∷ s)) in
      let before : take (length p) info.elems ≡ p =
        ap (take (length p)) e ∙ take-append p (x ∷ s) (length p) refl in
      let after : drop (length p + suc n) info.elems ≡ drop (suc n) (x ∷ s) =
        ap (drop (length p + suc n)) e
        ∙ drop-append_add p (x ∷ s) (suc n) (length p + suc n) refl in
      (d.0 ∙ ap₂ ◌++◌ (sym before) (ap (λ k. drop k (x ∷ s)) m ∙ sym after), d.1 ∙ m, d.2, d.3)

  delete_inside :
      (info : ListMeta) (lo n : ℕ)
      → IsValid space info
      → lo + suc n ≤ info.ccnt
      → SpanDeleted info lo (suc n) (do_list_elem_delete space info lo (suc n))
  delete_inside info lo n v h =
      let (p, x, s, e, l) = split_at lo info.elems (omega (arith, v.counted)) in
      subst (λ j. SpanDeleted info j (suc n) (do_list_elem_delete space info j (suc n))) l
        (delete_span info p x s n e v (omega (arith, l)))

  -- The lower end of a range, and how many indices it holds.
  abbrev pub low : ℕ → ℕ → ℕ
  low f t = (span f t).0

  abbrev pub wide : ℕ → ℕ → ℕ
  wide f t = (span f t).1

  pub span_bounds :
      (f t ccnt : ℕ)
      → f < ccnt
      → t < ccnt
      → (lo : ℕ) × (n : ℕ) × (span f t ≡ (lo, suc n)) × (lo + suc n ≤ ccnt)
  span_bounds f t ccnt hf ht =
      (if leb f t then f else t, if leb f t then t - f else f - t, ground arith, ground arith)

  delete_at :
      (info : ListMeta) (a b : ℤ) (drop_if_empty : Bool) (f t lo n : ℕ)
      → IsValid space info
      → adjust_list_range info.ccnt a b ≡ some (f, t)
      → span f t ≡ (lo, suc n)
      → lo + suc n ≤ info.ccnt
      → RangeDeleted info lo (suc n) drop_if_empty (list_elem_delete space info a b drop_if_empty)
  unfolding list_elem_delete
  delete_at info a b drop_if_empty f t lo n v found e fits =
      let d = delete_inside info lo n v fits in
      rw (found, e, d.1, ltb-zero-suc, list_elem_delete)
        (record {
          ret = refl;
          del_count = refl;
          elems = d.0;
          dropped = refl;
          unlinked = refl;
          settings = d.2;
          valid = d.3;
        })

  -- `list_elem_delete` of a range that `adjust_list_range` places in the list succeeds: it takes out
  -- exactly the elements of the range, counts them, and unlinks the item where it is left empty and
  -- the caller asked for that.
  pub list_elem_delete-RangeDeleted :
      (info : ListMeta) (from_index to_index : ℤ) (drop_if_empty : Bool) (f t : ℕ)
      → IsValid space info
      → adjust_list_range info.ccnt from_index to_index ≡ some (f, t)
      → RangeDeleted info
          (low f t)
          (wide f t)
          drop_if_empty
          (list_elem_delete space info from_index to_index drop_if_empty)
  list_elem_delete-RangeDeleted info from_index to_index drop_if_empty f t v found =
      let bounds = in_bounds info.ccnt from_index to_index f t found in
      let (lo, n, e, fits) = span_bounds f t info.ccnt bounds.0 bounds.1 in
      let r = delete_at info from_index to_index drop_if_empty f t lo n v found e fits in
      subst
        (λ q.
          RangeDeleted info q.0 q.1 drop_if_empty
            (list_elem_delete space info from_index to_index drop_if_empty))
        (sym e) r
