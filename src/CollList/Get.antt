-- ===== src/CollList/Get.antt =====
-- engines/default/coll_list.c: what `do_list_elem_get` hands out, in either direction.
use arcus_memcached.Prelude.{
  ℕ, zero, suc, ◌+◌, ◌≡◌, refl, sym, ap, ◌∙◌, Bool, true, false, List, [], ◌∷◌, ◌++◌, map, reverse,
  reverse-reverse, reverse-cons, append_assoc, length, take, drop, arith, length-append,
}
use arcus_memcached.CollList.{
  Elem, ListMeta, retain, do_list_elem_unlink, get_next_loop, get_prev_loop, do_list_elem_get,
}
use arcus_memcached.CollList.Find.{do_list_elem_find-split}
use arcus_memcached.CollList.Valid.{
  IsValid, SameSettings, SameSettings-refl, SameSettings-trans, unlink-IsValid, total, total-append,
}
use arcus_memcached.CollList.Delete.{reached_last, reached_more}

module _ (space : ℕ → ℕ) where
  -- The outcome of a reading loop: the chain that it leaves, the elements that it hands out, each with
  -- one more reader, and no element freed.
  pub record Got (info : ListMeta) (chain found : List Elem) (r : ListMeta × List Elem)
      : Type 0 where
    pub elems : r.0.elems ≡ chain
    pub array : r.1 ≡ map retain found
    pub freed : r.0.freed ≡ info.freed
    pub settings : SameSettings info r.0
    pub valid : IsValid space r.0

  -- One round of the loop on the element `x` between `b` and `a`.
  abbrev kept : ListMeta → List Elem → Elem → List Elem → ListMeta
  kept info b x a = record info { elems = reverse b ++ (retain x ∷ a) }

  kept-IsValid :
      (info : ListMeta) (b : List Elem) (x : Elem) (a : List Elem)
      → info.elems ≡ reverse b ++ (x ∷ a)
      → IsValid space info
      → IsValid space (kept info b x a)
  unfolding total
  kept-IsValid info b x a e v = ground (
    arith,
    v.counted,
    v.spaced,
    v.referenced,
    ap length e,
    ap (total space) e,
    length-append (reverse b) (x ∷ a),
    total-append space (reverse b) (x ∷ a),
    length-append (reverse b) (retain x ∷ a),
    total-append space (reverse b) (retain x ∷ a),
  )

  abbrev cut : ListMeta → List Elem → Elem → List Elem → ListMeta
  cut info b x a = do_list_elem_unlink space (kept info b x a) b (retain x) a

  cut-IsValid :
      (info : ListMeta) (b : List Elem) (x : Elem) (a : List Elem)
      → info.elems ≡ reverse b ++ (x ∷ a)
      → IsValid space info
      → IsValid space (cut info b x a)
  cut-IsValid info b x a e v =
      unlink-IsValid space (kept info b x a) b (retain x) a refl (kept-IsValid info b x a e v)

  -- An element with a reader is not freed.
  cut-freed :
      (info : ListMeta) (b : List Elem) (x : Elem) (a : List Elem)
      → (cut info b x a).freed ≡ info.freed
  unfolding do_list_elem_unlink
  cut-freed info b x a = ground arith

  cut-settings :
      (info : ListMeta) (b : List Elem) (x : Elem) (a : List Elem)
      → SameSettings info (cut info b x a)
  unfolding do_list_elem_unlink
  cut-settings info b x a = ground arith

  behind_it :
      (p : List Elem) (x : Elem) (s : List Elem) → p ++ (x ∷ s) ≡ reverse (reverse p) ++ (x ∷ s)
  behind_it p x s = rw reverse-reverse

  kept-settings :
      (info : ListMeta) (b : List Elem) (x : Elem) (a : List Elem)
      → SameSettings info (kept info b x a)
  kept-settings info b x a = ground arith

  back : (b : List Elem) (x : Elem) (a : List Elem) → reverse (x ∷ b) ++ a ≡ reverse b ++ (x ∷ a)
  back b x a = rw (reverse-cons, append_assoc)

  start : (p : List Elem) (x : Elem) (s : List Elem) → p ++ (x ∷ s) ≡ reverse (x ∷ reverse p) ++ s
  start p x s = rw (reverse-cons, reverse-reverse, append_assoc)

  get_next_loop-delete :
      (xs : List Elem) (info : ListMeta) (b : List Elem) (n count fcnt : ℕ)
      → count ≡ fcnt + suc n
      → info.elems ≡ reverse b ++ xs
      → IsValid space info
      → Got info
          (reverse b ++ drop (suc n) xs)
          (take (suc n) xs)
          (get_next_loop space true info b xs count fcnt)
  unfolding get_next_loop
  get_next_loop-delete [] info b n count fcnt h e v = record {
    elems = e;
    array = refl;
    freed = refl;
    settings = SameSettings-refl info;
    valid = v;
  }
  get_next_loop-delete (x ∷ a) info b zero count fcnt h e v =
      rw (reached_last space count fcnt h) (record {
        elems = refl;
        array = refl;
        freed = cut-freed info b x a;
        settings = cut-settings info b x a;
        valid = cut-IsValid info b x a e v;
      })
  get_next_loop-delete (x ∷ a) info b (suc n) count fcnt h e v =
      let ih =
        get_next_loop-delete a (cut info b x a) b n count (fcnt + 1) (omega arith) refl
          (cut-IsValid info b x a e v) in
      rw (reached_more space count fcnt n h) (record {
        elems = ih.elems;
        array = ap (λ t. retain x ∷ t) ih.array;
        freed = ih.freed ∙ cut-freed info b x a;
        settings = SameSettings-trans (cut-settings info b x a) ih.settings;
        valid = ih.valid;
      })

  get_next_loop-keep :
      (xs : List Elem) (info : ListMeta) (b : List Elem) (n count fcnt : ℕ)
      → count ≡ fcnt + suc n
      → info.elems ≡ reverse b ++ xs
      → IsValid space info
      → Got info
          (reverse b ++ (map retain (take (suc n) xs) ++ drop (suc n) xs))
          (take (suc n) xs)
          (get_next_loop space false info b xs count fcnt)
  unfolding get_next_loop
  get_next_loop-keep [] info b n count fcnt h e v = record {
    elems = e;
    array = refl;
    freed = refl;
    settings = SameSettings-refl info;
    valid = v;
  }
  get_next_loop-keep (x ∷ a) info b zero count fcnt h e v =
      rw (reached_last space count fcnt h) (record {
        elems = refl;
        array = refl;
        freed = refl;
        settings = kept-settings info b x a;
        valid = kept-IsValid info b x a e v;
      })
  get_next_loop-keep (x ∷ a) info b (suc n) count fcnt h e v =
      let ih =
        get_next_loop-keep a (kept info b x a) (retain x ∷ b) n count (fcnt + 1) (omega arith)
          (rw (reverse-cons, append_assoc)) (kept-IsValid info b x a e v) in
      rw (reached_more space count fcnt n h) (record {
        elems = ih.elems ∙ rw (reverse-cons, append_assoc) refl;
        array = ap (λ t. retain x ∷ t) ih.array;
        freed = ih.freed;
        settings = SameSettings-trans (kept-settings info b x a) ih.settings;
        valid = ih.valid;
      })

  get_prev_loop-delete :
      (xs : List Elem) (info : ListMeta) (a : List Elem) (n count fcnt : ℕ)
      → count ≡ fcnt + suc n
      → info.elems ≡ reverse xs ++ a
      → IsValid space info
      → Got info
          (reverse (drop (suc n) xs) ++ a)
          (take (suc n) xs)
          (get_prev_loop space true info xs a count fcnt)
  unfolding get_prev_loop
  get_prev_loop-delete [] info a n count fcnt h e v = record {
    elems = e;
    array = refl;
    freed = refl;
    settings = SameSettings-refl info;
    valid = v;
  }
  get_prev_loop-delete (x ∷ b) info a zero count fcnt h e v =
      rw (reached_last space count fcnt h) (record {
        elems = refl;
        array = refl;
        freed = cut-freed info b x a;
        settings = cut-settings info b x a;
        valid = cut-IsValid info b x a (e ∙ back b x a) v;
      })
  get_prev_loop-delete (x ∷ b) info a (suc n) count fcnt h e v =
      let ih =
        get_prev_loop-delete b (cut info b x a) a n count (fcnt + 1) (omega arith) refl
          (cut-IsValid info b x a (e ∙ back b x a) v) in
      rw (reached_more space count fcnt n h) (record {
        elems = ih.elems;
        array = ap (λ t. retain x ∷ t) ih.array;
        freed = ih.freed ∙ cut-freed info b x a;
        settings = SameSettings-trans (cut-settings info b x a) ih.settings;
        valid = ih.valid;
      })

  get_prev_loop-keep :
      (xs : List Elem) (info : ListMeta) (a : List Elem) (n count fcnt : ℕ)
      → count ≡ fcnt + suc n
      → info.elems ≡ reverse xs ++ a
      → IsValid space info
      → Got info
          (reverse (map retain (take (suc n) xs) ++ drop (suc n) xs) ++ a)
          (take (suc n) xs)
          (get_prev_loop space false info xs a count fcnt)
  unfolding get_prev_loop
  get_prev_loop-keep [] info a n count fcnt h e v = record {
    elems = e;
    array = refl;
    freed = refl;
    settings = SameSettings-refl info;
    valid = v;
  }
  get_prev_loop-keep (x ∷ b) info a zero count fcnt h e v =
      rw (reached_last space count fcnt h) (record {
        elems = sym (back b (retain x) a);
        array = refl;
        freed = refl;
        settings = kept-settings info b x a;
        valid = kept-IsValid info b x a (e ∙ back b x a) v;
      })
  get_prev_loop-keep (x ∷ b) info a (suc n) count fcnt h e v =
      let ih =
        get_prev_loop-keep b (kept info b x a) (retain x ∷ a) n count (fcnt + 1) (omega arith) refl
          (kept-IsValid info b x a (e ∙ back b x a) v) in
      rw (reached_more space count fcnt n h) (record {
        elems = ih.elems ∙ sym (back (map retain (take (suc n) b) ++ drop (suc n) b) (retain x) a);
        array = ap (λ t. retain x ∷ t) ih.array;
        freed = ih.freed;
        settings = SameSettings-trans (kept-settings info b x a) ih.settings;
        valid = ih.valid;
      })

  -- What a call at an element with `p` before it and `s` after it hands out, in the order of the walk.
  abbrev pub window : Bool → List Elem → Elem → List Elem → ℕ → List Elem
  window true p x s n = take n (x ∷ s)
  window false p x s n = take n (x ∷ reverse p)

  -- The chain that it leaves: without those elements, or with one more reader of each.
  abbrev pub left_by : Bool → Bool → List Elem → Elem → List Elem → ℕ → List Elem
  left_by true true p x s n = p ++ drop n (x ∷ s)
  left_by true false p x s n = p ++ (map retain (take n (x ∷ s)) ++ drop n (x ∷ s))
  left_by false true p x s n = reverse (drop n (x ∷ reverse p)) ++ s
  left_by false false p x s n =
      reverse (map retain (take n (x ∷ reverse p)) ++ drop n (x ∷ reverse p)) ++ s

  -- `do_list_elem_get` with a positive count, at the index of an element, hands out that element and
  -- those next to it in the direction asked for, up to the count or the end of the chain; a deleting
  -- call takes them out of the chain and frees none.
  pub do_list_elem_get-Got :
      (info : ListMeta) (p : List Elem) (x : Elem) (s : List Elem) (n : ℕ) (forward delete : Bool)
      → info.elems ≡ p ++ (x ∷ s)
      → IsValid space info
      → Got info
          (left_by forward delete p x s (suc n))
          (window forward p x s (suc n))
          (do_list_elem_get space info (length p) (suc n) forward delete)
  unfolding do_list_elem_get
  do_list_elem_get-Got info p x s n true true e v =
      let g =
        get_next_loop-delete (x ∷ s) info (reverse p) n (suc n) 0 (omega arith)
          (e ∙ behind_it p x s) v in
      rw (do_list_elem_find-split info p x s e v.counted, do_list_elem_get)
        (record {
          elems = g.elems ∙ ap (λ q. q ++ drop (suc n) (x ∷ s)) (reverse-reverse p);
          array = g.array;
          freed = g.freed;
          settings = g.settings;
          valid = g.valid;
        })
  do_list_elem_get-Got info p x s n true false e v =
      let g =
        get_next_loop-keep (x ∷ s) info (reverse p) n (suc n) 0 (omega arith) (e ∙ behind_it p x s)
          v in
      rw (do_list_elem_find-split info p x s e v.counted, do_list_elem_get)
        (record {
          elems =
              g.elems
              ∙ ap (λ q. q ++ (map retain (take (suc n) (x ∷ s)) ++ drop (suc n) (x ∷ s)))
                  (reverse-reverse p);
          array = g.array;
          freed = g.freed;
          settings = g.settings;
          valid = g.valid;
        })
  do_list_elem_get-Got info p x s n false true e v =
      rw (do_list_elem_find-split info p x s e v.counted, do_list_elem_get)
        (get_prev_loop-delete (x ∷ reverse p) info s n (suc n) 0 (omega arith) (e ∙ start p x s) v)
  do_list_elem_get-Got info p x s n false false e v =
      rw (do_list_elem_find-split info p x s e v.counted, do_list_elem_get)
        (get_prev_loop-keep (x ∷ reverse p) info s n (suc n) 0 (omega arith) (e ∙ start p x s) v)
