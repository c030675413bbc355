-- ===== src/CollList/Range.antt =====
-- engines/default/coll_list.c: `adjust_list_range`, and the range operations of the list interface
-- on the item that `do_list_item_find` found.
pub mod Bounds
pub mod Delete
pub mod Get
use arcus_memcached.Prelude.{
  ℕ, zero, suc, ◌+◌, ◌-◌, Bool, true, false, ◌&&◌, Option, none, some, List, [], leb, ltb, ◌==◌,
  if◌then◌else◌, ℤ, pos, negsuc,
}
use arcus_memcached.CollList.{
  Elem, ListMeta, ErrorCode, success, elem_enoent, unreadable, enomem, do_list_elem_delete,
  do_list_elem_get,
}

-- `if (index < 0) index += info->ccnt`
abbrev pub from_end : ℕ → ℤ → ℤ
from_end ccnt (pos i) = pos i
from_end ccnt (negsuc n) = if leb (suc n) ccnt then pos (ccnt - suc n) else negsuc (n - ccnt)

-- The clamp of `from_index`, which finds a range wholly out of the list.
abbrev pub adjust_from : ℕ → ℤ → ℤ → Option ℕ
adjust_from ccnt (negsuc m) (negsuc n) = none
adjust_from ccnt (negsuc m) (pos t) = some 0
adjust_from ccnt (pos f) (negsuc n) = some (if leb ccnt f then ccnt - 1 else f)
adjust_from ccnt (pos f) (pos t) =
    if leb ccnt f then (if leb ccnt t then none else some (ccnt - 1)) else some f

abbrev pub adjust_to : ℕ → ℤ → ℕ
adjust_to ccnt (negsuc n) = 0
adjust_to ccnt (pos t) = if leb ccnt t then ccnt - 1 else t

-- `adjust_list_range`; `none` is its -1.
unfoldable pub adjust_list_range : ℕ → ℤ → ℤ → Option (ℕ × ℕ)
adjust_list_range ccnt from_index to_index =
    if ccnt == 0
    then none
    else elim (adjust_from ccnt (from_end ccnt from_index) (from_end ccnt to_index)) [
      | none ↦ none
      | some f ↦ some (f, adjust_to ccnt (from_end ccnt to_index))
    ]

-- The index at which a deletion starts, and its count.
abbrev pub span : ℕ → ℕ → ℕ × ℕ
span f t = if leb f t then (f, t - f + 1) else (t, f - t + 1)

-- What `list_elem_delete` reports and leaves. `dropped` is `none` where the code does not write it;
-- `unlinked` says whether the item was unlinked from the cache.
pub record DeleteResult : Type 0 where
  pub ret : ErrorCode
  pub del_count : Option ℕ
  pub dropped : Option Bool
  pub unlinked : Bool
  pub info : ListMeta

pub record GetResult : Type 0 where
  pub ret : ErrorCode
  pub elem_array : List Elem
  pub dropped : Option Bool
  pub unlinked : Bool
  pub info : ListMeta

module _ (space : ℕ → ℕ) where
  -- `list_elem_delete` behind a successful `do_list_item_find`
  pub list_elem_delete : ListMeta → ℤ → ℤ → Bool → DeleteResult
  list_elem_delete info from_index to_index drop_if_empty =
      elim (adjust_list_range info.ccnt from_index to_index) [
        | none ↦ record {
          ret = elem_enoent;
          del_count = none;
          dropped = none;
          unlinked = false;
          info = info;
        }
        | some (f, t) ↦
            let (info', n) = do_list_elem_delete space info (span f t).0 (span f t).1 in
            let gone = info'.ccnt == 0 && drop_if_empty in
            if ltb 0 n
            then record {
              ret = success;
              del_count = some n;
              dropped = some gone;
              unlinked = gone;
              info = info';
            }
            else record {
              ret = elem_enoent;
              del_count = some n;
              dropped = none;
              unlinked = false;
              info = info';
            }
      ]

  -- `list_elem_get` behind a successful `do_list_item_find`; `room` says whether `malloc` gives the array.
  pub list_elem_get : Bool → ListMeta → ℤ → ℤ → Bool → Bool → GetResult
  list_elem_get room info from_index to_index delete drop_if_empty =
      let refuse = λ (code : ErrorCode).
        let r : GetResult = record {
          ret = code;
          elem_array = [];
          dropped = none;
          unlinked = false;
          info = info;
        } in
        r in
      if info.readable
      then elim (adjust_list_range info.ccnt from_index to_index) [
        | none ↦ refuse elem_enoent
        | some (f, t) ↦
            let (info', array) = do_list_elem_get space info f (span f t).1 (leb f t) delete in
            let gone = info'.ccnt == 0 && drop_if_empty in
            if room
            then record {
              ret = success;
              elem_array = array;
              dropped = some gone;
              unlinked = gone;
              info = info';
            }
            else refuse enomem
      ]
      else refuse unreadable
