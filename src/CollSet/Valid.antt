-- ===== src/CollSet/Valid.antt =====
-- engines/default/coll_set.c: the elements of a hash tree, and the shape of the tree.
use arcus_memcached.Prelude.{
  ℕ, suc, ◌+◌, ◌<◌, ◌≡◌, refl, Bool, true, not, List, [], ◌∷◌, ◌++◌, length, ◌==◌, if◌then◌else◌,
  arith,
}
use arcus_memcached.CollSet.{
  SetElem, HashNode, Slots, hash_node, nil, chain, child, hashtab_size, get_hashidx,
}

-- How many elements of a list pass a test: the list as a multiset, when taken for every test.
abbrev pub one : (SetElem → Bool) → SetElem → ℕ
one p e = if p e then 1 else 0

unfoldable pub tally : (SetElem → Bool) → List SetElem → ℕ
tally p [] = 0
tally p (e ∷ es) = one p e + tally p es

pub tally-append :
    (p : SetElem → Bool) (xs ys : List SetElem) → tally p (xs ++ ys) ≡ tally p xs + tally p ys
unfolding tally
tally-append p [] ys = omega arith
tally-append p (e ∷ es) ys = omega (arith, tally-append p es ys)

abbrev pub anything : SetElem → Bool
anything e = true

pub length-tally : (es : List SetElem) → length es ≡ tally anything es
unfolding tally
length-tally [] = refl
length-tally (e ∷ es) = omega (arith, length-tally es)

-- The elements in the order of the slots and chains.
unfoldable mutual
  pub elems_node : HashNode → List SetElem
  elems_node (hash_node hdepth tot slots) = elems_slots slots

  pub elems_slots : Slots → List SetElem
  elems_slots nil = []
  elems_slots (chain cnt elems slots) = elems ++ elems_slots slots
  elems_slots (child node slots) = elems_node node ++ elems_slots slots

-- The elements whose hash belongs to another slot of a node.
abbrev pub elsewhere : ℕ → ℕ → SetElem → Bool
elsewhere d i e = not (get_hashidx e.hval d == i)

-- A node stands at its depth, its counts are those of the elements below it, and each element is in the slot
-- that its hash selects.
unfoldable mutual
  pub ValidNode : ℕ → HashNode → Type 0
  ValidNode d (hash_node hdepth tot slots) =
      (hdepth ≡ d) × (tot ≡ length (elems_slots slots)) × ValidSlots d 0 slots

  pub ValidSlots : ℕ → ℕ → Slots → Type 0
  ValidSlots d i nil = i ≡ hashtab_size
  ValidSlots d i (chain cnt elems slots) =
      (cnt ≡ length elems) × (tally (elsewhere d i) elems ≡ 0) × ValidSlots d (suc i) slots
  ValidSlots d i (child node slots) =
      (tally (elsewhere d i) (elems_node node) ≡ 0)
      × ValidNode (suc d) node
      × ValidSlots d (suc i) slots

pub elsewhere_self : (d i : ℕ) (e : SetElem) → get_hashidx e.hval d ≡ i → one (elsewhere d i) e ≡ 0
elsewhere_self d i e h = ground arith

pub get_hashidx-small : (h d : ℕ) → get_hashidx h d < hashtab_size
unfolding get_hashidx
get_hashidx-small h d = omega arith

pub from_zero : (i : ℕ) → i ≡ 0 + i
from_zero i = omega arith
