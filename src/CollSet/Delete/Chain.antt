-- ===== src/CollSet/Delete/Chain.antt =====
-- engines/default/coll_set.c: a deletion from a chain.
use arcus_memcached.Prelude.{
  ℕ, ◌+◌, ◌-◌, ◌≡◌, refl, ap, subst, Bool, true, false, Option, none, some, List, [], ◌∷◌, ltb,
  ◌==◌, if◌then◌else◌, arith, if_cases, Bool-cases, Option-cases, inl, inr,
}
use arcus_memcached.CollList.{ErrorCode}
use arcus_memcached.CollSet.{SetElem, HashNode, Slots, chain, SetMeta, set_hash_eq, find_chain_elem}
use arcus_memcached.CollSet.Find.{find_node, find_slot}
use arcus_memcached.CollSet.Valid.{
  one, tally, tally-append, anything, length-tally, elems_node, elems_slots, elsewhere, ValidNode,
  ValidSlots,
}
use arcus_memcached.CollSet.Member.{is_some}
use arcus_memcached.CollSet.Delete.{Deleted, remove_chain_elem, do_set_elem_unlink, delete_chain}

-- How often a found element passes a test.
abbrev pub one_of : (SetElem → Bool) → Option SetElem → ℕ
one_of p none = 0
one_of p (some x) = one p x

-- What the deletion of an element does to the meta information, the space aside: the element is freed, or
-- is left to its readers.
abbrev pub Unlinked : SetMeta → Option SetElem → SetMeta → Type 0
Unlinked info none info' = info' ≡ info
Unlinked info (some x) info' =
    (info'.ccnt ≡ info.ccnt - 1)
    × (info'.mcnt ≡ info.mcnt)
    × (info'.held ≡ (if x.refcount == 0 then info.held else x ∷ info.held))
    × (info'.freed ≡ (if x.refcount == 0 then x.addr ∷ info.freed else info.freed))

-- A deletion of what the search finds.
pub record Removal {N : Type 0} (elems_of : N → List SetElem) (found : Option SetElem)
    (info : SetMeta) (n : N) (r : Deleted N) : Type 0 where
  pub code : r.ret ≡ (if is_some found then ErrorCode.success else ErrorCode.elem_enoent)
  pub less :
      (p : SetElem → Bool) → tally p (elems_of r.result) + one_of p found ≡ tally p (elems_of n)
  pub effect : Unlinked info found r.info
  pub unchanged : is_some found ≡ false → r.result ≡ n

-- The chain without the element that the search finds.
abbrev Without : Option SetElem → List SetElem → Option (SetElem × List SetElem) → Type 0
Without none elems r = r ≡ none
Without (some x) elems r =
    (es : List SetElem) × (r ≡ some (x, es))
    × ((p : SetElem → Bool) → tally p es + one p x ≡ tally p elems)

remove_chain_elem-Without :
    (hval : ℕ) (val : List ℕ) (elems : List SetElem)
    → Without (find_chain_elem hval val elems) elems (remove_chain_elem hval val elems)
unfolding find_chain_elem remove_chain_elem tally
remove_chain_elem-Without hval val [] = refl
remove_chain_elem-Without hval val (e ∷ elems) = elim (Bool-cases (set_hash_eq hval val e)) [
  | inl h ↦ rw (h) ((elems, refl, λ p. omega arith))
  | inr h ↦ rw (h) (
      further (find_chain_elem hval val elems) e elems (remove_chain_elem hval val elems)
        (remove_chain_elem-Without hval val elems))
]
  where
    further :
        (o : Option SetElem) (e : SetElem) (elems : List SetElem)
        (r : Option (SetElem × List SetElem))
        → Without o elems r
        → Without o (e ∷ elems) (elim r [ none ↦ none | some (x, es) ↦ some (x, e ∷ es) ])
    further none e elems r w = ap (λ r. elim r [ none ↦ none | some (x, es) ↦ some (x, e ∷ es) ]) w
    further (some x) e elems r (es, q, t) = (
      e ∷ es,
      ap (λ r. elim r [ none ↦ none | some (x, es) ↦ some (x, e ∷ es) ]) q,
      λ p. omega (arith, t p),
    )

module _ (node_space : ℕ) (space : ℕ → ℕ) (hval : ℕ) (val : List ℕ) where
  -- A slot array after a deletion behind its slot `i`, and a node.
  unfoldable pub SlotRemoval : ℕ → ℕ → ℕ → SetMeta → Slots → Deleted Slots → Type 0
  SlotRemoval d j i info slots r =
      Removal elems_slots (find_slot hval val slots i) info slots r × ValidSlots d j r.result

  abbrev pub NodeRemoval : ℕ → SetMeta → HashNode → Deleted HashNode → Type 0
  NodeRemoval d info node r =
      Removal elems_node (find_node hval val node) info node r × ValidNode d r.result

  pub delete_chain-Removal :
      (d j cnt : ℕ) (info : SetMeta) (elems : List SetElem) (slots : Slots)
      → ValidSlots d j (chain cnt elems slots)
      → SlotRemoval d j 0 info
          (chain cnt elems slots)
          (delete_chain node_space space info hval val cnt elems slots)
  unfolding delete_chain do_set_elem_unlink SlotRemoval find_slot ValidSlots elems_slots
  delete_chain-Removal d j cnt info elems slots (v, w, x) =
      elim (Option-cases (find_chain_elem hval val elems)) [
        | inl f ↦
            rw (f, at_found f)
              (if_cases
                (λ r.
                  Removal elems_slots none info (chain cnt elems slots) r × ValidSlots d j r.result)
                (ltb 0 cnt) _ _ missed missed)
        | inr (e, f) ↦
            let (es, q, t) = at_found f in
            rw (f, q, positive e es t)
              (
                record {
                  code = refl;
                  less = λ p. omega (
                    arith,
                    t p,
                    tally-append p es (elems_slots slots),
                    tally-append p elems (elems_slots slots),
                  );
                  effect = freed info e;
                  unchanged = λ u. absurd (ground arith);
                },
                (
                  omega (arith, t anything, length-tally es, length-tally elems),
                  omega (arith, t (elsewhere d j)),
                  x,
                ),
              )
      ]
    where
      at_found :
          {o : Option SetElem}
          → find_chain_elem hval val elems ≡ o
          → Without o elems (remove_chain_elem hval val elems)
      at_found f =
          subst (λ o. Without o elems (remove_chain_elem hval val elems)) f
            (remove_chain_elem-Without hval val elems)

      missed :
          {P : Type 0}
          → P
          → Removal elems_slots none info
              (chain cnt elems slots)
              (record { ret = ErrorCode.elem_enoent; info = info; result = chain cnt elems slots })
            × ValidSlots d j (chain cnt elems slots)
      missed h = (
        record { code = refl; less = λ p. omega arith; effect = refl; unchanged = λ u. refl },
        (v, w, x),
      )

      positive :
          (e : SetElem) (es : List SetElem)
          → ((p : SetElem → Bool) → tally p es + one p e ≡ tally p elems)
          → ltb 0 cnt ≡ true
      positive e es t = ground (arith, t anything, length-tally elems)

      freed :
          (info : SetMeta) (e : SetElem) → Unlinked info (some e) (do_set_elem_unlink space info e)
      freed info e = (refl, refl, refl, refl)
