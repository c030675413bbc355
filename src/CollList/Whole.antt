-- ===== src/CollList/Whole.antt =====
-- engines/default/coll_list.c: the functions by which the rest of the engine reads and deletes a whole list.
use arcus_memcached.Prelude.{
  ℕ, ◌≡◌, refl, ap, ◌∙◌, none, some, List, [], ◌∷◌, ◌++◌, map, reverse, arith,
}
use arcus_memcached.CollList.{
  Elem, ListMeta, Cursor, retain, at_first, do_list_elem_find, do_list_elem_delete,
}

-- `list_elem_delete_with_count`
pub list_elem_delete_with_count : (ℕ → ℕ) → ListMeta → ℕ → ListMeta × ℕ
list_elem_delete_with_count space info count = do_list_elem_delete space info 0 count

-- The loop of `list_elem_get_all` from an element on: the chain and the array after it.
pub get_all_loop : List Elem → List Elem × List Elem
get_all_loop [] = ([], [])
get_all_loop (x ∷ a) = let (chain, array) = get_all_loop a in (retain x ∷ chain, retain x ∷ array)

-- From the pointer that the loop starts at.
abbrev get_all_from : ListMeta → Cursor → ListMeta × List Elem
get_all_from info none = (info, [])
get_all_from info (some (b, x, a)) =
    let r = get_all_loop (x ∷ a) in (record info { elems = reverse b ++ r.0 }, r.1)

-- `list_elem_get_all`: the list and `elem_array` after it.
pub list_elem_get_all : ListMeta → ListMeta × List Elem
list_elem_get_all info = get_all_from info (do_list_elem_find info 0)

get_all_loop-map : (c : List Elem) → get_all_loop c ≡ (map retain c, map retain c)
unfolding get_all_loop
get_all_loop-map [] = refl
get_all_loop-map (x ∷ a) =
    ap (λ (r : List Elem × List Elem). (retain x ∷ r.0, retain x ∷ r.1)) (get_all_loop-map a)

abbrev paired : ListMeta → List Elem → ListMeta × List Elem
paired info array = (info, array)

get_all_from-map :
    (info : ListMeta) (c : List Elem)
    → info.elems ≡ c
    → get_all_from info (at_first [] c) ≡ (record info { elems = map retain c }, map retain c)
get_all_from-map info [] e = ap (λ (l : List Elem). paired (record info { elems = l }) []) e
get_all_from-map info (x ∷ a) e =
    ap (λ (r : List Elem × List Elem). paired (record info { elems = r.0 }) r.1)
      (get_all_loop-map (x ∷ a))

find-first : (info : ListMeta) → do_list_elem_find info 0 ≡ at_first [] info.elems
unfolding do_list_elem_find
find-first info = ground arith

-- `list_elem_get_all` gives every element in order, each with one more reference, and changes nothing else.
pub list_elem_get_all-map :
    (info : ListMeta)
    → list_elem_get_all info
      ≡ (record info { elems = map retain info.elems }, map retain info.elems)
unfolding list_elem_get_all
list_elem_get_all-map info =
    ap (get_all_from info) (find-first info) ∙ get_all_from-map info info.elems refl
