-- ===== src/CollList/Delete.antt =====
-- engines/default/coll_list.c: what `do_list_elem_delete` takes out of the chain.
use arcus_memcached.Prelude.{
  ℕ, zero, suc, ◌+◌, ◌≡◌, ap, ◌∙◌, true, false, List, [], ◌∷◌, ◌++◌, reverse, reverse-reverse,
  length, drop, drop-min, arith, min,
}
use arcus_memcached.CollList.{
  Elem, ListMeta, reached, do_list_elem_unlink, delete_loop, do_list_elem_delete,
}
use arcus_memcached.CollList.Find.{do_list_elem_find-split}
use arcus_memcached.CollList.Valid.{
  IsValid, SameSettings, SameSettings-refl, SameSettings-trans, unlink-elems, unlink-IsValid,
}

module _ (space : ℕ → ℕ) where
  -- What the loop leaves, started at `xs` behind `b` with `fcnt` deleted and `n` more to go.
  pub record Deleted (info : ListMeta) (b xs : List Elem) (n fcnt : ℕ) (r : ListMeta × ℕ)
      : Type 0 where
    pub elems : r.0.elems ≡ reverse b ++ drop n xs
    pub count : r.1 ≡ fcnt + min n (length xs)
    pub settings : SameSettings info r.0
    pub valid : IsValid space r.0

  pub reached_last : (count fcnt : ℕ) → count ≡ fcnt + 1 → reached count (fcnt + 1) ≡ true
  reached_last count fcnt h = ground arith

  pub reached_more :
      (count fcnt n : ℕ) → count ≡ fcnt + suc (suc n) → reached count (fcnt + 1) ≡ false
  reached_more count fcnt n h = ground arith

  delete_loop-Deleted :
      (xs : List Elem) (info : ListMeta) (b : List Elem) (n count fcnt : ℕ)
      → count ≡ fcnt + suc n
      → info.elems ≡ reverse b ++ xs
      → IsValid space info
      → Deleted info b xs (suc n) fcnt (delete_loop space info b xs count fcnt)
  unfolding delete_loop
  delete_loop-Deleted [] info b n count fcnt h e v = record {
    elems = e;
    count = omega arith;
    settings = SameSettings-refl info;
    valid = v;
  }
  delete_loop-Deleted (x ∷ a) info b zero count fcnt h e v =
      let u = unlink-elems space info b x a in
      rw (reached_last count fcnt h) (record {
        elems = u.0;
        count = omega arith;
        settings = u.1;
        valid = unlink-IsValid space info b x a e v;
      })
  delete_loop-Deleted (x ∷ a) info b (suc n) count fcnt h e v =
      let u = unlink-elems space info b x a in
      let ih =
        delete_loop-Deleted a (do_list_elem_unlink space info b x a) b n count (fcnt + 1)
          (omega arith) u.0 (unlink-IsValid space info b x a e v) in
      rw (reached_more count fcnt n h) (record {
        elems = ih.elems;
        count = omega (arith, ih.count);
        settings = SameSettings-trans u.1 ih.settings;
        valid = ih.valid;
      })

  -- With a count of zero the loop runs to the end of the chain.
  delete_loop-all :
      (xs : List Elem) (info : ListMeta) (b : List Elem) (fcnt : ℕ)
      → info.elems ≡ reverse b ++ xs
      → IsValid space info
      → Deleted info b xs (length xs) fcnt (delete_loop space info b xs 0 fcnt)
  unfolding delete_loop
  delete_loop-all [] info b fcnt e v = record {
    elems = e;
    count = omega arith;
    settings = SameSettings-refl info;
    valid = v;
  }
  delete_loop-all (x ∷ a) info b fcnt e v =
      let u = unlink-elems space info b x a in
      let ih =
        delete_loop-all a (do_list_elem_unlink space info b x a) b (fcnt + 1) u.0
          (unlink-IsValid space info b x a e v) in
      record {
        elems = ih.elems;
        count = omega (arith, ih.count);
        settings = SameSettings-trans u.1 ih.settings;
        valid = ih.valid;
      }

  -- How many elements a call with this count takes from `rest` of them.
  abbrev pub taken : ℕ → ℕ → ℕ
  taken zero rest = rest
  taken (suc n) rest = min (suc n) rest

  -- `do_list_elem_delete` at the index of an element deletes from there on, up to the end or to the
  -- count where that is not zero; it says how many went, and keeps the counters right.
  pub do_list_elem_delete-Deleted :
      (info : ListMeta) (p : List Elem) (x : Elem) (s : List Elem) (count : ℕ)
      → info.elems ≡ p ++ (x ∷ s)
      → IsValid space info
      → let r = do_list_elem_delete space info (length p) count in
        let n = taken count (length (x ∷ s)) in
        (r.0.elems ≡ p ++ drop n (x ∷ s)) × (r.1 ≡ n) × SameSettings info r.0 × IsValid space r.0
  unfolding do_list_elem_delete
  do_list_elem_delete-Deleted info p x s zero e v =
      let d = delete_loop-all (x ∷ s) info (reverse p) 0 (rw reverse-reverse e) v in
      rw (do_list_elem_find-split info p x s e v.counted, do_list_elem_delete)
        (
          d.elems ∙ ap (λ q. q ++ drop (length (x ∷ s)) (x ∷ s)) (reverse-reverse p),
          omega (arith, d.count),
          d.settings,
          d.valid,
        )
  do_list_elem_delete-Deleted info p x s (suc n) e v =
      let d =
        delete_loop-Deleted (x ∷ s) info (reverse p) n (suc n) 0 (omega arith)
          (rw reverse-reverse e) v in
      rw (do_list_elem_find-split info p x s e v.counted, do_list_elem_delete)
        (
          d.elems
              ∙ ap (λ q. q ++ drop (suc n) (x ∷ s)) (reverse-reverse p)
              ∙ ap (λ q. p ++ q) (drop-min (suc n) (x ∷ s)),
          omega (arith, d.count),
          d.settings,
          d.valid,
        )
