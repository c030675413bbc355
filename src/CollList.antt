-- ===== src/CollList.antt =====
-- engines/default/coll_list.c: the list collection, over its doubly linked chain of elements.
mod Find
mod Valid
mod Delete
mod Insert
mod Trim
mod Get
mod Attr
mod Bound
mod Tests
pub mod Range
pub mod Whole
use arcus_memcached.Prelude.{
  ℕ, zero, suc, ◌+◌, ◌-◌, ◌/◌, ◌%◌, ◌^◌, Bool, true, false, ◌&&◌, ◌||◌, Option, none, some, List,
  [], ◌∷◌, ◌++◌, reverse, ltb, leb, ◌==◌, if◌then◌else◌, ℤ, pos, negsuc,
}

-- `ENGINE_ERROR_CODE`, the codes that the list functions return.
pub data ErrorCode : Type 0 where
  success key_enoent key_eexists enomem ebadtype eoverflow elem_enoent elem_eexists : ErrorCode
  eindexoor unreadable ebadattr ebadvalue einval : ErrorCode

abbrev pub is_success : ErrorCode → Bool
is_success success = true
is_success _ = false

-- `ENGINE_OVFL_ACTION`; 0 stands for an action that is not given.
pub data OvflAction : Type 0 where
  unset error head_trim tail_trim smallest_trim largest_trim : OvflAction
  smallest_silent_trim largest_silent_trim : OvflAction

-- `list_elem_item`. The links are the element's place in the chain; `addr` is its address.
pub record Elem : Type 0 where
  pub addr : ℕ
  pub refcount : ℕ
  pub nbytes : ℕ
  pub value : List ℕ

-- `list_meta_info`, with the chain from `head` to `tail`, the unlinked elements that readers still
-- refer to, and the addresses given back to the allocator by `do_list_elem_free`.
pub record ListMeta : Type 0 where
  pub mcnt : ℤ
  pub ccnt : ℕ
  pub ovflact : OvflAction
  pub sticky : Bool
  pub readable : Bool
  pub stotal : ℕ
  pub elems : List Elem
  pub held : List Elem
  pub freed : List ℕ

-- A pointer into the chain: the elements before it (nearest first), it, and those after it.
-- `none` is NULL.
abbrev pub Cursor : Type 0
Cursor = Option (List Elem × Elem × List Elem)

abbrev pub next : Cursor → Cursor
next none = none
next (some (b, x, [])) = none
next (some (b, x, y ∷ a)) = some (x ∷ b, y, a)

abbrev pub prev : Cursor → Cursor
prev none = none
prev (some ([], x, a)) = none
prev (some (y ∷ b, x, a)) = some (b, y, x ∷ a)

-- The pointer to the first element of a list, with those before it.
abbrev pub at_first : List Elem → List Elem → Cursor
at_first b [] = none
at_first b (x ∷ a) = some (b, x, a)

-- The pointer to the last of the elements `b` (nearest first), with those after it.
abbrev pub at_last : List Elem → List Elem → Cursor
at_last [] a = none
at_last (x ∷ b) a = some (b, x, a)

-- `for (i = 0; i < n && elem != NULL; i++) elem = elem->next`
walk_next : ℕ → Cursor → Cursor
walk_next zero c = c
walk_next (suc n) c = walk_next n (next c)

-- `for (i = ccnt-1; i > index && elem != NULL; i--) elem = elem->prev`, by its rounds
walk_prev : ℕ → Cursor → Cursor
walk_prev zero c = c
walk_prev (suc n) c = walk_prev n (prev c)

-- `do_list_elem_find`: from the nearer end. The assertions keep `index` in `[0, ccnt)`, except at 0.
pub do_list_elem_find : ListMeta → ℕ → Cursor
unfolding walk_next walk_prev
do_list_elem_find info index =
    if leb index (info.ccnt / 2)
    then walk_next index (at_first [] info.elems)
    else walk_prev (info.ccnt - 1 - index) (at_last (reverse info.elems) [])

-- `do_list_real_maxcount`, given `config->max_list_size`
pub do_list_real_maxcount : ℕ → ℤ → ℤ
do_list_real_maxcount max_list_size (negsuc n) = negsuc 0
do_list_real_maxcount max_list_size (pos zero) = pos 4000
do_list_real_maxcount max_list_size (pos (suc n)) =
    if ltb max_list_size (suc n) then pos max_list_size else pos (suc n)

-- `info->mcnt > 0 ? info->mcnt : config->max_list_size`
abbrev pub real_mcnt : ℕ → ℤ → ℕ
real_mcnt max_list_size (negsuc n) = max_list_size
real_mcnt max_list_size (pos zero) = max_list_size
real_mcnt max_list_size (pos (suc n)) = suc n

-- `prev = do_list_elem_find(info, index-1)`, and the new element linked behind it.
behind : Elem → Cursor → List Elem
behind elem none = elem ∷ []
behind elem (some (b, p, a)) = reverse b ++ (p ∷ elem ∷ a)

-- Where a deleting loop goes on: `count > 0 && fcnt >= count` stops it.
abbrev pub reached : ℕ → ℕ → Bool
reached count fcnt = ltb 0 count && leb count fcnt

-- `elem->refcount++`
abbrev pub retain : Elem → Elem
retain x = record x { refcount = x.refcount + 1 }

abbrev pub is_head_trim : OvflAction → Bool
is_head_trim OvflAction.head_trim = true
is_head_trim _ = false

abbrev pub is_error : OvflAction → Bool
is_error OvflAction.error = true
is_error _ = false

-- The check of the index against the count. `real_mcnt` is unsigned: `real_mcnt-1` wraps at 0.
pub index_oor : ℕ → ℕ → ℤ → Bool
index_oor real ccnt (pos i) = ltb ccnt i || ltb ((real + 2 ^ 32 - 1) % 2 ^ 32) i
index_oor real ccnt (negsuc n) = ltb (ccnt + 1) (suc n) || ltb real (suc n)

-- `index += ccnt+1`, and 0 where that is still negative.
abbrev pub from_signed : ℕ → ℤ → ℕ
from_signed ccnt (pos i) = i
from_signed ccnt (negsuc n) = ccnt + 1 - suc n

-- The parts over `space`, which takes `nbytes` to `slabs_space_size(do_list_elem_ntotal(elem))`.
module _ (space : ℕ → ℕ) where
  -- `do_list_elem_link`
  pub do_list_elem_link : ListMeta → ℕ → Elem → ListMeta
  unfolding behind
  do_list_elem_link info index elem = record info {
    elems =
        if index == 0
        then elem ∷ info.elems
        else if leb info.ccnt index
        then info.elems ++ (elem ∷ [])
        else behind elem (do_list_elem_find info (index - 1));
    ccnt = info.ccnt + 1;
    stotal = info.stotal + space elem.nbytes;
  }

  -- `do_list_elem_unlink` of the element between `b` (nearest first) and `a`, with
  -- `do_list_elem_free` where nobody refers to it.
  pub do_list_elem_unlink : ListMeta → List Elem → Elem → List Elem → ListMeta
  do_list_elem_unlink info b x a = record info {
    elems = reverse b ++ a;
    ccnt = info.ccnt - 1;
    stotal = if ltb 0 info.stotal then info.stotal - space x.nbytes else info.stotal;
    held = if x.refcount == 0 then info.held else x ∷ info.held;
    freed = if x.refcount == 0 then x.addr ∷ info.freed else info.freed;
  }

  -- The loop of `do_list_elem_delete`; the list is the chain from `elem` on.
  pub delete_loop : ListMeta → List Elem → List Elem → ℕ → ℕ → ListMeta × ℕ
  unfolding do_list_elem_unlink
  delete_loop info b [] count fcnt = (info, fcnt)
  delete_loop info b (x ∷ a) count fcnt =
      let info' = do_list_elem_unlink info b x a in
      let rest = delete_loop info' b a count (fcnt + 1) in
      if reached count (fcnt + 1) then (info', fcnt + 1) else rest

  -- `do_list_elem_delete`: the state, and how many elements went.
  pub do_list_elem_delete : ListMeta → ℕ → ℕ → ListMeta × ℕ
  unfolding delete_loop do_list_elem_find
  do_list_elem_delete info index count = elim (do_list_elem_find info index) [
    | none ↦ (info, 0)
    | some (b, x, a) ↦ delete_loop info b (x ∷ a) count 0
  ]

  -- The loop of `do_list_elem_get`, forwards and backwards: the chain from `elem` on in the
  -- direction of the walk, and what lies behind it. The list collects `elem_array`.
  pub get_next_loop : Bool → ListMeta → List Elem → List Elem → ℕ → ℕ → ListMeta × List Elem
  unfolding do_list_elem_unlink
  get_next_loop delete info b [] count fcnt = (info, [])
  get_next_loop delete info b (x ∷ a) count fcnt =
      let kept = record info { elems = reverse b ++ (retain x ∷ a) } in
      let info' = if delete then do_list_elem_unlink kept b (retain x) a else kept in
      let rest =
        get_next_loop delete info' (if delete then b else retain x ∷ b) a count (fcnt + 1) in
      if reached count (fcnt + 1) then (info', retain x ∷ []) else (rest.0, retain x ∷ rest.1)

  pub get_prev_loop : Bool → ListMeta → List Elem → List Elem → ℕ → ℕ → ListMeta × List Elem
  unfolding do_list_elem_unlink
  get_prev_loop delete info [] a count fcnt = (info, [])
  get_prev_loop delete info (x ∷ b) a count fcnt =
      let kept = record info { elems = reverse b ++ (retain x ∷ a) } in
      let info' = if delete then do_list_elem_unlink kept b (retain x) a else kept in
      let rest =
        get_prev_loop delete info' b (if delete then a else retain x ∷ a) count (fcnt + 1) in
      if reached count (fcnt + 1) then (info', retain x ∷ []) else (rest.0, retain x ∷ rest.1)

  -- `do_list_elem_get`
  pub do_list_elem_get : ListMeta → ℕ → ℕ → Bool → Bool → ListMeta × List Elem
  unfolding get_next_loop get_prev_loop do_list_elem_find
  do_list_elem_get info index count forward delete = elim (do_list_elem_find info index) [
    | none ↦ (info, [])
    | some (b, x, a) ↦
        if forward
        then get_next_loop delete info b (x ∷ a) count 0
        else get_prev_loop delete info (x ∷ b) a count 0
  ]

  -- The trim of `do_list_elem_insert`, with the index that it leaves.
  pub make_room : ListMeta → ℤ → ListMeta × ℤ
  unfolding do_list_elem_delete
  make_room info (pos zero) = ((do_list_elem_delete info (info.ccnt - 1) 1).0, pos zero)
  make_room info (negsuc zero) = ((do_list_elem_delete info 0 1).0, negsuc zero)
  make_room info (pos (suc i)) =
      if is_head_trim info.ovflact
      then ((do_list_elem_delete info 0 1).0, pos i)
      else ((do_list_elem_delete info (info.ccnt - 1) 1).0, pos (suc i))
  make_room info (negsuc (suc n)) =
      if is_head_trim info.ovflact
      then ((do_list_elem_delete info 0 1).0, negsuc (suc n))
      else ((do_list_elem_delete info (info.ccnt - 1) 1).0, negsuc n)

  -- `do_list_elem_insert`, given `config->max_list_size`, and whether the item is sticky
  -- and the sticky memory is used up.
  pub do_list_elem_insert : ℕ → Bool → ListMeta → ℤ → Elem → ErrorCode × ListMeta
  unfolding make_room index_oor
  do_list_elem_insert max_list_size sticky_full info index elem =
      let real = real_mcnt max_list_size info.mcnt in
      let (info', index') = if leb real info.ccnt then make_room info index else (info, index) in
      if index_oor real info.ccnt index
      then (eindexoor, info)
      else if sticky_full
      then (enomem, info)
      else if is_error info.ovflact && leb real info.ccnt
      then (eoverflow, info)
      else (success, do_list_elem_link info' (from_signed info'.ccnt index') elem)
