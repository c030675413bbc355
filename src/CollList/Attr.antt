-- ===== src/CollList/Attr.antt =====
-- engines/default/coll_list.c: the attributes of a list, and the meta information of a new one.
pub mod Bounded
use arcus_memcached.Prelude.{
  ℕ, zero, suc, ◌+◌, ◌≤◌, ◌<◌, ◌≡◌, ◌≢◌, refl, Bool, true, false, ◌&&◌, ◌||◌, List, [], ◌∷◌, arith,
  ltb, leb, ◌==◌, if◌then◌else◌, ℤ, pos, negsuc, Bool-cases, inl, inr,
}
use arcus_memcached.CollList.{
  ListMeta, OvflAction, ErrorCode, success, is_success, ebadattr, ebadvalue, do_list_real_maxcount,
  real_mcnt,
}
use arcus_memcached.CollList.Valid.{IsValid}

-- `ENGINE_ITEM_ATTR`
pub data AttrId : Type 0 where
  type flags expiretime count maxcount ovflaction : AttrId
  readable maxbkeyrange minbkey maxbkey trimmed : AttrId

-- The fields of `item_attr` that the list functions read and write.
pub record ItemAttr : Type 0 where
  pub attr_count : ℕ
  pub attr_maxcount : ℤ
  pub attr_ovflaction : OvflAction
  pub attr_readable : ℕ

-- The meta information that `do_list_item_alloc` writes; `sticky` is `IS_STICKY_EXPTIME(exptime)`.
pub init_meta : ℕ → Bool → ItemAttr → ListMeta
init_meta max_list_size sticky attr = record {
  mcnt = do_list_real_maxcount max_list_size attr.attr_maxcount;
  ccnt = 0;
  ovflact = elim attr.attr_ovflaction [ OvflAction.unset ↦ OvflAction.tail_trim | given ↦ given ];
  sticky = sticky;
  readable = attr.attr_readable == 1;
  stotal = 0;
  elems = [];
  held = [];
  freed = [];
}

abbrev is_list_action : OvflAction → Bool
is_list_action OvflAction.error = true
is_list_action OvflAction.head_trim = true
is_list_action OvflAction.tail_trim = true
is_list_action _ = false

-- `attrp->maxcount > 0 && attrp->maxcount < info->ccnt`
abbrev too_small : ℤ → ℕ → Bool
too_small (pos n) ccnt = ltb 0 n && ltb n ccnt
too_small (negsuc n) ccnt = false

-- One round of the check in `list_coll_setattr`: the code, and the attribute values after it.
check_attr : ℕ → ListMeta → ItemAttr → AttrId → ErrorCode × ItemAttr
check_attr max_list_size info attr AttrId.maxcount =
    let m = do_list_real_maxcount max_list_size attr.attr_maxcount in
    (if too_small m info.ccnt then ebadvalue else success, record attr { attr_maxcount = m })
check_attr max_list_size info attr AttrId.ovflaction =
    (if is_list_action attr.attr_ovflaction then success else ebadvalue, attr)
check_attr max_list_size info attr AttrId.readable =
    (if attr.attr_readable == 1 then success else ebadvalue, attr)
check_attr max_list_size info attr _ = (success, attr)

pub check_attrs : ℕ → ListMeta → ItemAttr → List AttrId → ErrorCode × ItemAttr
unfolding check_attr
check_attrs max_list_size info attr [] = (success, attr)
check_attrs max_list_size info attr (i ∷ is) =
    let (code, attr') = check_attr max_list_size info attr i in
    let rest = check_attrs max_list_size info attr' is in
    if is_success code then rest else (code, attr')

apply_attr : ListMeta → ItemAttr → AttrId → ListMeta
apply_attr info attr AttrId.maxcount = record info { mcnt = attr.attr_maxcount }
apply_attr info attr AttrId.ovflaction = record info { ovflact = attr.attr_ovflaction }
apply_attr info attr AttrId.readable = record info { readable = true }
apply_attr info attr _ = info

pub apply_attrs : ListMeta → ItemAttr → List AttrId → ListMeta
unfolding apply_attr
apply_attrs info attr [] = info
apply_attrs info attr (i ∷ is) = apply_attrs (apply_attr info attr i) attr is

-- `list_coll_setattr`
unfoldable pub list_coll_setattr : ℕ → ListMeta → ItemAttr → List AttrId → ErrorCode × ListMeta
unfolding check_attrs apply_attrs
list_coll_setattr max_list_size info attr ids =
    let (code, attr') = check_attrs max_list_size info attr ids in
    if is_success code then (success, apply_attrs info attr' ids) else (code, info)

abbrev has_no_list_attr : AttrId → Bool
has_no_list_attr AttrId.maxbkeyrange = true
has_no_list_attr AttrId.trimmed = true
has_no_list_attr _ = false

any_attr : (AttrId → Bool) → List AttrId → Bool
any_attr p [] = false
any_attr p (i ∷ is) = p i || any_attr p is

-- `list_coll_getattr`
pub list_coll_getattr : ℕ → ListMeta → ItemAttr → List AttrId → ErrorCode × ItemAttr
unfolding any_attr
list_coll_getattr max_list_size info attr ids =
    if any_attr has_no_list_attr ids then (ebadattr, attr) else (
      success,
      record {
        attr_count = info.ccnt;
        attr_maxcount = elim info.mcnt [
          | pos n ↦ (if ltb 0 n then pos n else pos max_list_size)
          | negsuc n ↦ pos max_list_size
        ];
        attr_ovflaction = info.ovflact;
        attr_readable = if info.readable then 1 else 0;
      },
    )

-- A list holds no more elements than its maximum count allows.
abbrev pub Bounded : ℕ → ListMeta → Type 0
Bounded max_list_size info = info.ccnt ≤ real_mcnt max_list_size info.mcnt

-- The values that the check leaves may be applied.
abbrev Fits : ℕ → ℕ → ℤ → Type 0
Fits max_list_size ccnt m = ccnt ≤ real_mcnt max_list_size m

maxcount-Fits :
    (max_list_size : ℕ) (info : ListMeta) (m : ℤ)
    → info.ccnt ≤ max_list_size
    → too_small (do_list_real_maxcount max_list_size m) info.ccnt ≡ false
    → Fits max_list_size info.ccnt (do_list_real_maxcount max_list_size m)
unfolding do_list_real_maxcount
maxcount-Fits max_list_size info (pos zero) h e = ground arith
maxcount-Fits max_list_size info (pos (suc n)) h e = ground arith
maxcount-Fits max_list_size info (negsuc n) h e = ground arith
