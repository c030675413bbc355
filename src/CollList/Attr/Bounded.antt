-- ===== src/CollList/Attr/Bounded.antt =====
-- engines/default/coll_list.c: `list_coll_setattr` and `do_list_elem_insert` keep the count within the
-- maximum count.
use arcus_memcached.Prelude.{
  ℕ, ◌≤◌, ◌≡◌, ◌⊎◌, Bool, true, false, List, [], ◌∷◌, arith, Bool-cases, inl, inr,
}
use arcus_memcached.CollList.{ListMeta, is_success, do_list_real_maxcount}
use arcus_memcached.CollList.Attr.{
  AttrId, ItemAttr, Bounded, Fits, maxcount-Fits, check_attr, check_attrs, apply_attrs,
  list_coll_setattr,
}

abbrev IsMaxcount : AttrId → Type 0
IsMaxcount AttrId.maxcount = Unit
IsMaxcount _ = ⊥

clash : {P : Type 0} {b : Bool} → b ≡ false → b ≡ true → P
clash p q = cc

-- The maximum count is among the attributes.
abbrev pub HasMaxcount : List AttrId → Type 0
HasMaxcount [] = ⊥
HasMaxcount (i ∷ is) = IsMaxcount i ⊎ HasMaxcount is

module _ (max_list_size : ℕ) (info : ListMeta) (small : info.ccnt ≤ max_list_size) where
  abbrev FitsIn : ItemAttr → Type 0
  FitsIn attr = Fits max_list_size info.ccnt attr.attr_maxcount

  check_attr-FitsIn :
      (i : AttrId) (attr : ItemAttr)
      → IsMaxcount i ⊎ FitsIn attr
      → is_success (check_attr max_list_size info attr i).0 ≡ true
      → FitsIn (check_attr max_list_size info attr i).1
  unfolding check_attr
  check_attr-FitsIn AttrId.maxcount attr h e =
      let m = do_list_real_maxcount max_list_size attr.attr_maxcount in
      maxcount-Fits max_list_size info attr.attr_maxcount small (ground arith)
  check_attr-FitsIn i attr (inl h) e = absurd h
  check_attr-FitsIn i attr (inr h) e = h

  sort_out :
      (i : AttrId) (is : List AttrId) (attr : ItemAttr)
      → HasMaxcount (i ∷ is) ⊎ FitsIn attr
      → HasMaxcount is ⊎ (IsMaxcount i ⊎ FitsIn attr)
  sort_out i is attr (inl (inl h)) = inr (inl h)
  sort_out i is attr (inl (inr h)) = inl h
  sort_out i is attr (inr h) = inr (inr h)

  advance :
      (i : AttrId) (is : List AttrId) (attr : ItemAttr)
      → HasMaxcount is ⊎ (IsMaxcount i ⊎ FitsIn attr)
      → is_success (check_attr max_list_size info attr i).0 ≡ true
      → HasMaxcount is ⊎ FitsIn (check_attr max_list_size info attr i).1
  advance i is attr (inl h) e = inl h
  advance i is attr (inr h) e = inr (check_attr-FitsIn i attr h e)

  -- What the check establishes of the maximum count, if it is among the attributes.
  check_attrs-FitsIn :
      (ids : List AttrId) (attr : ItemAttr)
      → HasMaxcount ids ⊎ FitsIn attr
      → is_success (check_attrs max_list_size info attr ids).0 ≡ true
      → FitsIn (check_attrs max_list_size info attr ids).1
  unfolding check_attrs
  check_attrs-FitsIn [] attr (inl h) e = absurd h
  check_attrs-FitsIn [] attr (inr h) e = h
  check_attrs-FitsIn (i ∷ is) attr h e =
      elim (Bool-cases (is_success (check_attr max_list_size info attr i).0)) [
        | inl good ↦
            rw good (
              check_attrs-FitsIn is _ (advance i is attr (sort_out i is attr h) good)
                (rw good at e))
        | inr bad ↦ clash bad (rw bad at e)
      ]

apply_attrs-Bounded :
    (max_list_size : ℕ) (ids : List AttrId) (info : ListMeta) (attr : ItemAttr)
    → (HasMaxcount ids → Fits max_list_size info.ccnt attr.attr_maxcount)
    → Bounded max_list_size info
    → Bounded max_list_size (apply_attrs info attr ids)
unfolding apply_attrs
apply_attrs-Bounded max_list_size [] info attr f b = b
apply_attrs-Bounded max_list_size (AttrId.maxcount ∷ is) info attr f b =
    apply_attrs-Bounded max_list_size is (record info { mcnt = attr.attr_maxcount }) attr
      (λ h. f (inl tt)) (f (inl tt))
apply_attrs-Bounded max_list_size (AttrId.ovflaction ∷ is) info attr f b =
    apply_attrs-Bounded max_list_size is (record info { ovflact = attr.attr_ovflaction }) attr
      (λ h. f (inr h)) b
apply_attrs-Bounded max_list_size (AttrId.readable ∷ is) info attr f b =
    apply_attrs-Bounded max_list_size is (record info { readable = true }) attr (λ h. f (inr h)) b
apply_attrs-Bounded max_list_size (i ∷ is) info attr f b =
    apply_attrs-Bounded max_list_size is info attr (λ h. f (inr h)) b

-- `list_coll_setattr` never leaves the count above the maximum count.
pub list_coll_setattr-Bounded :
    (max_list_size : ℕ) (info : ListMeta) (attr : ItemAttr) (ids : List AttrId)
    → info.ccnt ≤ max_list_size
    → Bounded max_list_size info
    → Bounded max_list_size (list_coll_setattr max_list_size info attr ids).1
unfolding list_coll_setattr
list_coll_setattr-Bounded max_list_size info attr ids small b =
    elim (Bool-cases (is_success (check_attrs max_list_size info attr ids).0)) [
      | inl good ↦ rw good (
          apply_attrs-Bounded max_list_size ids info _
            (λ h. check_attrs-FitsIn max_list_size info small ids attr (inl h) good) b)
      | inr bad ↦ rw bad b
    ]

-- `list_coll_setattr` is all or nothing: where it refuses any attribute, the list is as it was.
pub list_coll_setattr-refused :
    (max_list_size : ℕ) (info : ListMeta) (attr : ItemAttr) (ids : List AttrId)
    → is_success (list_coll_setattr max_list_size info attr ids).0 ≡ false
    → (list_coll_setattr max_list_size info attr ids).1 ≡ info
unfolding list_coll_setattr
list_coll_setattr-refused max_list_size info attr ids h = ground arith
