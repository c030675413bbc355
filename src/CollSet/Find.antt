-- ===== src/CollSet/Find.antt =====
-- engines/default/coll_set.c: the search of the tree.
use arcus_memcached.Prelude.{
  ℕ, zero, suc, ◌+◌, ◌<◌, ◌≤◌, ◌≡◌, refl, sym, ap, subst, Bool, true, false, not, Option, none,
  some, List, [], ◌∷◌, ◌++◌, ◌==◌, if_cases, arith,
}
use arcus_memcached.CollSet.{
  SetElem, HashNode, Slots, hash_node, nil, chain, child, hashtab_size, get_hashidx, set_hash_eq,
  nil, chain, child, find_chain_elem,
}
use arcus_memcached.CollSet.Valid.{
  one, tally, tally-append, elems_node, elems_slots, elsewhere, ValidNode, ValidSlots,
  get_hashidx-small, from_zero,
}

-- The element that the search of `do_set_elem_link` comes to, which takes the index of a `uint32_t`.
unfoldable mutual
  unfolding find_chain_elem get_hashidx

  pub find_node : ℕ → List ℕ → HashNode → Option SetElem
  find_node hval val (hash_node hdepth tot slots) =
      find_slot hval val slots (get_hashidx hval hdepth)

  pub find_slot : ℕ → List ℕ → Slots → ℕ → Option SetElem
  find_slot hval val nil i = none
  find_slot hval val (chain cnt elems slots) zero = find_chain_elem hval val elems
  find_slot hval val (child node slots) zero = find_node hval val node
  find_slot hval val (chain cnt elems slots) (suc i) = find_slot hval val slots i
  find_slot hval val (child node slots) (suc i) = find_slot hval val slots i

-- What a search has found in a list of elements: none equals the value, or an element of the list does.
unfoldable pub FoundIn : ℕ → List ℕ → Option SetElem → List SetElem → Type 0
FoundIn hval val none elems = tally (set_hash_eq hval val) elems ≡ 0
FoundIn hval val (some x) elems =
    (set_hash_eq hval val x ≡ true) × ((p : SetElem → Bool) → one p x ≤ tally p elems)

tally-imp :
    (p q : SetElem → Bool)
    → ((e : SetElem) → p e ≡ true → q e ≡ true)
    → (elems : List SetElem) → tally q elems ≡ 0
    → tally p elems ≡ 0
unfolding tally
tally-imp p q h [] z = refl
tally-imp p q h (e ∷ elems) z = ground (arith, h e, tally-imp p q h elems)

set_hash_eq-hval :
    (hval : ℕ) (val : List ℕ) (e : SetElem) → set_hash_eq hval val e ≡ true → hval ≡ e.hval
unfolding set_hash_eq
set_hash_eq-hval hval val e h = ground arith

find_chain_elem-FoundIn :
    (hval : ℕ) (val : List ℕ) (elems : List SetElem)
    → FoundIn hval val (find_chain_elem hval val elems) elems
unfolding find_chain_elem FoundIn tally
find_chain_elem-FoundIn hval val [] = refl
find_chain_elem-FoundIn hval val (e ∷ elems) =
    if_cases (λ o. FoundIn hval val o (e ∷ elems)) (set_hash_eq hval val e) (some e)
      (find_chain_elem hval val elems) (λ h. (h, λ p. omega arith))
      (λ h.
        one_more e elems (find_chain_elem hval val elems) h
          (find_chain_elem-FoundIn hval val elems))
  where
    one_more :
        (e : SetElem) (elems : List SetElem) (o : Option SetElem)
        → set_hash_eq hval val e ≡ false
        → FoundIn hval val o elems
        → FoundIn hval val o (e ∷ elems)
    one_more e elems none h f = ground (arith, f)
    one_more e elems (some x) h (k, f) = (k, λ p. omega (arith, f p))

-- A slot that is not the one of the hash holds no equal element.
no_match :
    (d j hval : ℕ) (val : List ℕ) (elems : List SetElem)
    → (get_hashidx hval d == j) ≡ false
    → tally (elsewhere d j) elems ≡ 0
    → tally (set_hash_eq hval val) elems ≡ 0
no_match d j hval val elems n =
    tally-imp (set_hash_eq hval val) (elsewhere d j)
      (λ e f. apart d j hval e n (set_hash_eq-hval hval val e f)) elems
  where
    apart :
        (d j hval : ℕ) (e : SetElem)
        → (get_hashidx hval d == j) ≡ false
        → hval ≡ e.hval
        → not (get_hashidx e.hval d == j) ≡ true
    apart d j hval e n f = ground (arith, ap (λ x. get_hashidx x d) f)

no_match_beyond :
    (d j hval : ℕ) (val : List ℕ) (slots : Slots)
    → ValidSlots d j slots
    → get_hashidx hval d < j
    → tally (set_hash_eq hval val) (elems_slots slots) ≡ 0
unfolding ValidSlots elems_slots tally
no_match_beyond d j hval val nil v h = refl
no_match_beyond d j hval val (chain cnt elems slots) (v, w, x) h = omega (
  arith,
  no_match d j hval val elems (ground arith) w,
  no_match_beyond d (suc j) hval val slots x (omega arith),
  tally-append (set_hash_eq hval val) elems (elems_slots slots),
)
no_match_beyond d j hval val (child node slots) (w, v, x) h = omega (
  arith,
  no_match d j hval val (elems_node node) (ground arith) w,
  no_match_beyond d (suc j) hval val slots x (omega arith),
  tally-append (set_hash_eq hval val) (elems_node node) (elems_slots slots),
)

-- A search of one part is a search of the whole, if no equal element is in the other part.
FoundIn-left :
    (hval : ℕ) (val : List ℕ) (o : Option SetElem) (xs ys : List SetElem)
    → FoundIn hval val o xs
    → tally (set_hash_eq hval val) ys ≡ 0
    → FoundIn hval val o (xs ++ ys)
unfolding FoundIn
FoundIn-left hval val none xs ys f h = omega (arith, tally-append (set_hash_eq hval val) xs ys)
FoundIn-left hval val (some x) xs ys (e, f) h = (e, λ p. omega (arith, f p, tally-append p xs ys))

FoundIn-right :
    (hval : ℕ) (val : List ℕ) (o : Option SetElem) (xs ys : List SetElem)
    → FoundIn hval val o ys
    → tally (set_hash_eq hval val) xs ≡ 0
    → FoundIn hval val o (xs ++ ys)
unfolding FoundIn
FoundIn-right hval val none xs ys f h = omega (arith, tally-append (set_hash_eq hval val) xs ys)
FoundIn-right hval val (some x) xs ys (e, f) h = (e, λ p. omega (arith, f p, tally-append p xs ys))

mutual
  unfolding find_node ValidNode elems_node

  pub find_node-FoundIn :
      (d hval : ℕ) (val : List ℕ) (node : HashNode)
      → ValidNode d node
      → FoundIn hval val (find_node hval val node) (elems_node node)
  find_node-FoundIn d hval val (hash_node hdepth tot slots) (h, t, v) =
      find_slot-FoundIn hdepth 0 (get_hashidx hval hdepth) hval val slots
        (subst (λ x. ValidSlots x 0 slots) (sym h) v) (from_zero (get_hashidx hval hdepth))
        (omega (arith, get_hashidx-small hval hdepth))

  find_slot-FoundIn :
      (d j i hval : ℕ) (val : List ℕ) (slots : Slots)
      → ValidSlots d j slots
      → get_hashidx hval d ≡ j + i
      → j + i < hashtab_size
      → FoundIn hval val (find_slot hval val slots i) (elems_slots slots)
  find_slot-FoundIn d j i hval val nil v h lt = absurd (omega arith)
  find_slot-FoundIn d j zero hval val (chain cnt elems slots) (v, w, x) h lt =
      FoundIn-left hval val _ elems (elems_slots slots) (find_chain_elem-FoundIn hval val elems)
        (no_match_beyond d (suc j) hval val slots x (omega arith))
  find_slot-FoundIn d j zero hval val (child node slots) (w, v, x) h lt =
      FoundIn-left hval val _ (elems_node node) (elems_slots slots)
        (find_node-FoundIn (suc d) hval val node v)
        (no_match_beyond d (suc j) hval val slots x (omega arith))
  find_slot-FoundIn d j (suc i) hval val (chain cnt elems slots) (v, w, x) h lt =
      FoundIn-right hval val _ elems (elems_slots slots)
        (find_slot-FoundIn d (suc j) i hval val slots x (omega arith) (omega arith))
        (no_match d j hval val elems (ground arith) w)
  find_slot-FoundIn d j (suc i) hval val (child node slots) (w, v, x) h lt =
      FoundIn-right hval val _ (elems_node node) (elems_slots slots)
        (find_slot-FoundIn d (suc j) i hval val slots x (omega arith) (omega arith))
        (no_match d j hval val (elems_node node) (ground arith) w)
