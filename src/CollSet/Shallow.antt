-- ===== src/CollSet/Shallow.antt =====
-- engines/default/coll_set.c: the trees in which an index of a hash has no sign.
use arcus_memcached.Prelude.{
  ℕ, zero, suc, ◌+◌, ◌<◌, ◌≡◌, refl, sym, subst, Option, none, some, List, ◌==◌, false, pos, negsuc,
  arith,
}
use arcus_memcached.CollSet.{
  HashNode, Slots, hash_node, nil, chain, child, hashtab_size, get_hashidx, signed_hashidx,
  search_node, search_slot,
}
use arcus_memcached.CollSet.Valid.{ValidNode, ValidSlots, get_hashidx-small}
use arcus_memcached.CollSet.Find.{find_node, find_slot}

-- The depth of every node is less than 7. A deeper one takes more than 64 elements whose hashes agree in 28 bits.
unfoldable mutual
  pub ShallowNode : HashNode → Type 0
  ShallowNode (hash_node hdepth tot slots) = (hdepth < 7) × ShallowSlots slots

  pub ShallowSlots : Slots → Type 0
  ShallowSlots nil = Unit
  ShallowSlots (chain cnt elems slots) = ShallowSlots slots
  ShallowSlots (child node slots) = ShallowNode node × ShallowSlots slots

abbrev pub ShallowRoot : Option HashNode → Type 0
ShallowRoot none = Unit
ShallowRoot (some node) = ShallowNode node

pub signed_hashidx-get_hashidx :
    (hval hdepth : ℕ) → hdepth < 7 → signed_hashidx hval hdepth ≡ pos (get_hashidx hval hdepth)
unfolding signed_hashidx
signed_hashidx-get_hashidx hval hdepth h = rw (not_seven hdepth h) refl
  where
    not_seven : (d : ℕ) → d < 7 → (d == 7) ≡ false
    not_seven d h = ground arith

mutual
  unfolding search_node find_node ValidNode ShallowNode

  pub search_node-find_node :
      (d hval : ℕ) (val : List ℕ) (node : HashNode)
      → ValidNode d node
      → ShallowNode node
      → search_node hval val node ≡ some (find_node hval val node)
  search_node-find_node d hval val (hash_node hdepth tot slots) (h, t, v) (k, l) =
      subst
        (λ z.
          elim z [ pos i ↦ search_slot hval val slots i | negsuc n ↦ none ]
          ≡ some (find_slot hval val slots (get_hashidx hval hdepth)))
        (sym (signed_hashidx-get_hashidx hval hdepth k))
        (search_slot-find_slot hdepth 0 (get_hashidx hval hdepth) hval val slots
          (subst (λ x. ValidSlots x 0 slots) (sym h) v) l
          (omega (arith, get_hashidx-small hval hdepth)))

  search_slot-find_slot :
      (d j i hval : ℕ) (val : List ℕ) (slots : Slots)
      → ValidSlots d j slots
      → ShallowSlots slots
      → j + i < hashtab_size
      → search_slot hval val slots i ≡ some (find_slot hval val slots i)
  search_slot-find_slot d j i hval val nil v l lt = absurd (omega arith)
  search_slot-find_slot d j zero hval val (chain cnt elems slots) v l lt = refl
  search_slot-find_slot d j zero hval val (child node slots) (w, v, x) (l, m) lt =
      search_node-find_node (suc d) hval val node v l
  search_slot-find_slot d j (suc i) hval val (chain cnt elems slots) (v, w, x) l lt =
      search_slot-find_slot d (suc j) i hval val slots x l (omega arith)
  search_slot-find_slot d j (suc i) hval val (child node slots) (w, v, x) (l, m) lt =
      search_slot-find_slot d (suc j) i hval val slots x m (omega arith)
