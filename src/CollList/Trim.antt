-- ===== src/CollList/Trim.antt =====
-- engines/default/coll_list.c: `do_list_elem_insert` against insertion followed by one trim.
use arcus_memcached.Prelude.{
  ℕ, zero, suc, ◌+◌, ◌≤◌, ◌<◌, ◌≡◌, Bool, true, false, List, take, drop, leb, if◌then◌else◌,
  insert_at, ℤ, pos, negsuc,
}
use arcus_memcached.CollList.{
  Elem, ListMeta, ErrorCode, success, OvflAction, is_head_trim, from_signed,
}
use arcus_memcached.CollList.Valid.{IsValid, SameSettings}

-- Whether a full list gives up its head for an element at this index: the end opposite to an
-- insertion at an end, else the end that the overflow action names.
abbrev pub drops_head : OvflAction → ℤ → Bool
drops_head act (pos zero) = false
drops_head act (negsuc zero) = true
drops_head act (pos (suc i)) = is_head_trim act
drops_head act (negsuc (suc n)) = is_head_trim act

-- `n` elements of a list that has one more.
abbrev pub trim : Bool → ℕ → List Elem → List Elem
trim true n xs = drop 1 xs
trim false n xs = take n xs

abbrev InRange : ℕ → ℕ → ℤ → Type 0
InRange real ccnt (pos i) = i < real
InRange real ccnt (negsuc n) = (suc n ≤ real) × (n ≤ ccnt)

module _ (space : ℕ → ℕ) where
  -- Deleting the head or the tail of a chain.
  pub record Room (info r : ListMeta) (rest : List Elem) : Type 0 where
    pub elems : r.elems ≡ rest
    pub counted : r.ccnt + 1 ≡ info.ccnt
    pub settings : SameSettings info r
    pub valid : IsValid space r

  -- What the trim of `do_list_elem_insert` prepares for an index in range.
  pub record Ready (info : ListMeta) (index : ℤ) (e : Elem) (r : ListMeta × ℤ) : Type 0 where
    pub counted : r.0.ccnt + 1 ≡ info.ccnt
    pub below : from_signed r.0.ccnt r.1 ≤ r.0.ccnt
    pub settings : SameSettings info r.0
    pub valid : IsValid space r.0
    pub result :
        insert_at (from_signed r.0.ccnt r.1) e r.0.elems
        ≡ trim
            (drops_head info.ovflact index)
            info.ccnt
            (insert_at (from_signed info.ccnt index) e info.elems)

  -- What an insertion that is accepted does to the chain: the element goes in at its position, and a
  -- full list then gives up one element, at the end that `drops_head` says.
  abbrev pub inserted : ℕ → ListMeta → ℤ → Elem → List Elem
  inserted real info index e =
      let grown = insert_at (from_signed info.ccnt index) e info.elems in
      if leb real info.ccnt then trim (drops_head info.ovflact index) info.ccnt grown else grown

  pub record Inserted (real : ℕ) (info : ListMeta) (index : ℤ) (e : Elem) (r : ErrorCode × ListMeta)
      : Type 0 where
    pub code : r.0 ≡ success
    pub elems : r.1.elems ≡ inserted real info index e
    pub settings : SameSettings info r.1
    pub valid : IsValid space r.1
