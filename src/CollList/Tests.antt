-- ===== src/CollList/Tests.antt =====
-- engines/default/coll_list.c: runs of the list operations, and the theorems at concrete lists.
use arcus_memcached.Prelude.{ℕ, ◌+◌, ◌≡◌, refl, true, false, some, [], ◌∷◌, pos, negsuc, arith}
use arcus_memcached.CollList.{
  Elem, ListMeta, OvflAction, ebadvalue, do_list_real_maxcount, do_list_elem_find,
  do_list_elem_delete, do_list_elem_get, do_list_elem_link,
}
use arcus_memcached.CollList.Valid.{IsValid, total, SameSettings}
use arcus_memcached.CollList.Find.{do_list_elem_find-split}
use arcus_memcached.CollList.Delete.{do_list_elem_delete-Deleted}
use arcus_memcached.CollList.Insert.{do_list_elem_link-elems}
use arcus_memcached.CollList.Get.{Got, do_list_elem_get-Got}
use arcus_memcached.CollList.Attr.{AttrId, ItemAttr, Bounded, list_coll_setattr}
use arcus_memcached.CollList.Attr.Bounded.{list_coll_setattr-Bounded}
use arcus_memcached.CollList.Range.{adjust_list_range, list_elem_delete}
use arcus_memcached.CollList.Range.Delete.{RangeDeleted, list_elem_delete-RangeDeleted}

abbrev space : ℕ → ℕ
space n = n + 32

abbrev elem : ℕ → Elem
elem a = record { addr = a; refcount = 0; nbytes = 4; value = a ∷ [] }

abbrev three : ListMeta
three = record {
  mcnt = pos 3;
  ccnt = 3;
  ovflact = OvflAction.tail_trim;
  sticky = false;
  readable = true;
  stotal = 108;
  elems = elem 1 ∷ elem 2 ∷ elem 3 ∷ [];
  held = [];
  freed = [];
}

three-IsValid : IsValid space three
unfolding total
three-IsValid = record { counted = refl; spaced = refl; referenced = tt }

do_list_elem_find-split_example :
    do_list_elem_find three 2 ≡ some (elem 2 ∷ elem 1 ∷ [], elem 3, [])
do_list_elem_find-split_example =
    do_list_elem_find-split three (elem 1 ∷ elem 2 ∷ []) (elem 3) [] refl refl

do_list_elem_delete-Deleted_example :
    let r = do_list_elem_delete space three 1 1 in
    (r.0.elems ≡ elem 1 ∷ elem 3 ∷ []) × (r.1 ≡ 1) × SameSettings three r.0 × IsValid space r.0
do_list_elem_delete-Deleted_example =
    do_list_elem_delete-Deleted space three (elem 1 ∷ []) (elem 2) (elem 3 ∷ []) 1 refl
      three-IsValid

do_list_elem_link-elems_example :
    (do_list_elem_link space three 2 (elem 9)).elems ≡ elem 1 ∷ elem 2 ∷ elem 9 ∷ elem 3 ∷ []
do_list_elem_link-elems_example =
    do_list_elem_link-elems space three 2 (elem 9) three-IsValid (omega arith)

do_list_elem_get-Got_example :
    Got space three
      (elem 3 ∷ [])
      (elem 2 ∷ elem 1 ∷ [])
      (do_list_elem_get space three 1 2 false true)
do_list_elem_get-Got_example =
    do_list_elem_get-Got space three (elem 1 ∷ []) (elem 2) (elem 3 ∷ []) 1 false true refl
      three-IsValid

-- Negative indices count from the end: -2 to 9 is 1 to 2.
range_runs : adjust_list_range 3 (negsuc 1) (pos 9) ≡ some (1, 2)
unfolding adjust_list_range
range_runs = refl

list_elem_delete-RangeDeleted_example :
    RangeDeleted space three 1 2 true (list_elem_delete space three (negsuc 1) (pos 9) true)
list_elem_delete-RangeDeleted_example =
    list_elem_delete-RangeDeleted space three (negsuc 1) (pos 9) true 1 2 three-IsValid range_runs

abbrev attr : ItemAttr
attr = record {
  attr_count = 0;
  attr_maxcount = pos 2;
  attr_ovflaction = OvflAction.error;
  attr_readable = 1;
}

-- A maximum count below the count is refused.
setattr_runs :
    list_coll_setattr 50 three attr (AttrId.ovflaction ∷ AttrId.maxcount ∷ []) ≡ (ebadvalue, three)
unfolding list_coll_setattr do_list_real_maxcount
setattr_runs = refl

list_coll_setattr-Bounded_example :
    Bounded 50 (list_coll_setattr 50 three attr (AttrId.ovflaction ∷ AttrId.readable ∷ [])).1
list_coll_setattr-Bounded_example =
    list_coll_setattr-Bounded 50 three attr (AttrId.ovflaction ∷ AttrId.readable ∷ []) (omega arith)
      (omega arith)
