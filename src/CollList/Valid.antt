-- ===== src/CollList/Valid.antt =====
-- engines/default/coll_list.c: what stays true of a list's meta information.
use arcus_memcached.Prelude.{
  ℕ, ◌+◌, ◌<◌, ◌≡◌, refl, ap, ◌∙◌, List, [], ◌∷◌, ◌++◌, reverse, length, length-append, arith,
}
use arcus_memcached.CollList.{Elem, ListMeta, do_list_elem_unlink}

-- Every element of a list is referred to by someone.
abbrev pub AllReferenced : List Elem → Type 0
AllReferenced [] = Unit
AllReferenced (x ∷ xs) = (0 < x.refcount) × AllReferenced xs

-- What the list operations on elements leave as it was.
pub record SameSettings (i j : ListMeta) : Type 0 where
  pub mcnt : j.mcnt ≡ i.mcnt
  pub ovflact : j.ovflact ≡ i.ovflact
  pub sticky : j.sticky ≡ i.sticky
  pub readable : j.readable ≡ i.readable

pub SameSettings-refl : (i : ListMeta) → SameSettings i i
SameSettings-refl i = record { mcnt = refl; ovflact = refl; sticky = refl; readable = refl }

pub SameSettings-trans : {i j k : ListMeta} → SameSettings i j → SameSettings j k → SameSettings i k
SameSettings-trans p q = record {
  mcnt = q.mcnt ∙ p.mcnt;
  ovflact = q.ovflact ∙ p.ovflact;
  sticky = q.sticky ∙ p.sticky;
  readable = q.readable ∙ p.readable;
}

module _ (space : ℕ → ℕ) where
  -- The space that a chain takes.
  unfoldable pub total : List Elem → ℕ
  total [] = 0
  total (x ∷ xs) = space x.nbytes + total xs

  pub total-append : (xs ys : List Elem) → total (xs ++ ys) ≡ total xs + total ys
  unfolding total
  total-append [] ys = omega arith
  total-append (x ∷ xs) ys = omega (arith, total-append xs ys)

  -- The counters tell the chain, and every unlinked element that is kept has a reader.
  pub record IsValid (info : ListMeta) : Type 0 where
    pub counted : info.ccnt ≡ length info.elems
    pub spaced : info.stotal ≡ total info.elems
    pub referenced : AllReferenced info.held

  pub unlink-IsValid :
      (info : ListMeta) (b : List Elem) (x : Elem) (a : List Elem)
      → info.elems ≡ reverse b ++ (x ∷ a)
      → IsValid info
      → IsValid (do_list_elem_unlink space info b x a)
  unfolding do_list_elem_unlink total
  unlink-IsValid info b x a e v = ground (
    arith,
    v.counted,
    v.spaced,
    v.referenced,
    ap length e,
    ap total e,
    length-append (reverse b) (x ∷ a),
    total-append (reverse b) (x ∷ a),
    length-append (reverse b) a,
    total-append (reverse b) a,
  )

  -- Unlinking takes out that element, and leaves the settings.
  pub unlink-elems :
      (info : ListMeta) (b : List Elem) (x : Elem) (a : List Elem)
      → let r = do_list_elem_unlink space info b x a in
        (r.elems ≡ reverse b ++ a) × SameSettings info r
  unfolding do_list_elem_unlink
  unlink-elems info b x a = (refl, ground arith)
