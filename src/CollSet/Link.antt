-- ===== src/CollSet/Link.antt =====
-- engines/default/coll_set.c: `do_set_elem_link` on the tree.
use arcus_memcached.Prelude.{
  ℕ, zero, suc, ◌+◌, ◌<◌, ◌≡◌, ◌⊎◌, inl, inr, refl, sym, ap, ap₂, subst, Bool, false, Option, none,
  some, List, [], ◌∷◌, length, if◌then◌else◌, leb, arith, Bool-cases, Option-cases,
}
use arcus_memcached.CollList.{ErrorCode, is_success}
use arcus_memcached.CollSet.{
  SetElem, HashNode, Slots, hash_node, nil, chain, child, hashtab_size, max_hashchain_size,
  get_hashidx, do_set_node_alloc, push_node, spread, find_chain_elem, Linked, link_chain, link_node,
  link_slot,
}
use arcus_memcached.CollSet.Find.{find_node, find_slot}
use arcus_memcached.CollSet.Valid.{
  one, tally, tally-append, anything, length-tally, elems_node, elems_slots, elsewhere,
  elsewhere_self, ValidNode, ValidSlots, get_hashidx-small, from_zero,
}
use arcus_memcached.CollSet.Spread.{push_node-Spreads, spread-Spreads, do_set_node_alloc-Valid}

-- What a link of the element returns, by what the search finds.
abbrev pub Answer : Bool → Option SetElem → ErrorCode → Type 0
Answer given (some found) ret = ret ≡ ErrorCode.elem_eexists
Answer given none ret = (ret ≡ ErrorCode.success) ⊎ ((ret ≡ ErrorCode.enomem) × (given ≡ false))

-- The element count of an answer: only a success adds the element.
abbrev pub added : ErrorCode → (SetElem → Bool) → SetElem → ℕ
added ret p e = if is_success ret then one p e else 0

module _ (given : Bool) (e : SetElem) where
  record SlotLinked (d j i : ℕ) (slots : Slots) (r : Linked Slots) : Type 0 where
    valid : ValidSlots d j r.result
    more :
        (p : SetElem → Bool)
        → tally p (elems_slots r.result) ≡ tally p (elems_slots slots) + added r.ret p e
    answer : Answer given (find_slot e.hval e.value slots i) r.ret
    unchanged : is_success r.ret ≡ false → r.result ≡ slots

  pub record NodeLinked (d : ℕ) (node : HashNode) (r : Linked HashNode) : Type 0 where
    pub valid : ValidNode d r.result
    pub more :
        (p : SetElem → Bool)
        → tally p (elems_node r.result) ≡ tally p (elems_node node) + added r.ret p e
    pub answer : Answer given (find_node e.hval e.value node) r.ret
    pub unchanged : is_success r.ret ≡ false → r.result ≡ node

  link_chain-SlotLinked :
      (d j cnt : ℕ) (elems : List SetElem) (slots : Slots)
      → ValidSlots d j (chain cnt elems slots)
      → get_hashidx e.hval d ≡ j
      → SlotLinked d j 0 (chain cnt elems slots) (link_chain given d e cnt elems slots)
  unfolding link_chain ValidSlots elems_slots tally find_slot
  link_chain-SlotLinked d j cnt elems slots (v, w, x) h =
      elim (Option-cases (find_chain_elem e.hval e.value elems)) [
        | inr (found, f) ↦
            rw (f, link_chain)
              (record {
                valid = (v, w, x);
                more = λ p. omega arith;
                answer = rw (f) refl;
                unchanged = λ u. refl;
              })
        | inl f ↦ elim (Bool-cases (leb max_hashchain_size cnt)) [
          | inr g ↦
              rw (f, g, link_chain)
                (record {
                  valid = (omega arith, omega (arith, elsewhere_self d j e h), x);
                  more = λ p. omega arith;
                  answer = rw (f) (inl refl);
                  unchanged = λ u. absurd (ground arith);
                })
          | inl g ↦ elim (Bool-cases given) [
            | inr k ↦
                rw (f, g, k, link_chain)
                  (record {
                    valid = (v, w, x);
                    more = λ p. omega arith;
                    answer = rw (f) (inr (refl, refl));
                    unchanged = λ u. refl;
                  })
            | inl k ↦
                let (nv, nl, ne) = do_set_node_alloc-Valid (suc d) in
                let s = spread-Spreads (suc d) elems (do_set_node_alloc (suc d)) nv nl in
                let t =
                  push_node-Spreads (suc d) e (spread elems (do_set_node_alloc (suc d))) s.valid
                    s.leaf in
                let whole = λ (p : SetElem → Bool).
                  joined p elems (do_set_node_alloc (suc d)) _ _ ne (s.more p) (t.more p) in
                rw (f, g, k, link_chain)
                  (record {
                    valid =
                        (omega (arith, whole (elsewhere d j), elsewhere_self d j e h), t.valid, x);
                    more = λ p. omega (
                      arith,
                      whole p,
                      tally-append p elems (elems_slots slots),
                      tally-append p
                          (elems_node (push_node e (spread elems (do_set_node_alloc (suc d)))))
                          (elems_slots slots),
                    );
                    answer = rw (f) (inl refl);
                    unchanged = λ u. absurd (ground arith);
                  })
          ]
        ]
      ]
    where
      joined :
          (p : SetElem → Bool) (elems : List SetElem) (new : HashNode) (a b : ℕ)
          → elems_node new ≡ []
          → a ≡ tally p (elems_node new) + tally p elems
          → b ≡ a + tally p (e ∷ [])
          → b ≡ tally p elems + one p e
      joined p elems new a b e1 e2 e3 = omega (arith, ap (tally p) e1)

  not_added : (ret : ErrorCode) (p : SetElem → Bool) → one p e ≡ 0 → added ret p e ≡ 0
  not_added ret p h = ground arith

  counted :
      (ret : ErrorCode) (tot : ℕ) (slots slots' : Slots)
      → tot ≡ length (elems_slots slots)
      → tally anything (elems_slots slots')
        ≡ tally anything (elems_slots slots) + added ret anything e
      → (if is_success ret then tot + 1 else tot) ≡ length (elems_slots slots')
  counted ret tot slots slots' t m =
      ground (arith, length-tally (elems_slots slots), length-tally (elems_slots slots'))

  -- The way down to the slot of the element.
  mutual
    unfolding link_node ValidNode elems_node find_node

    pub link_node-NodeLinked :
        (d : ℕ) (node : HashNode) → ValidNode d node → NodeLinked d node (link_node given e node)
    link_node-NodeLinked d (hash_node hdepth tot slots) (h, t, v) =
        let i = get_hashidx e.hval hdepth in
        let l = link_slot given hdepth e slots i in
        let r =
          link_slot-SlotLinked hdepth 0 i slots (subst (λ x. ValidSlots x 0 slots) (sym h) v)
            (from_zero i) (omega (arith, get_hashidx-small e.hval hdepth)) in
        record {
          valid = (
            h,
            counted l.ret tot slots l.result t (r.more anything),
            subst (λ x. ValidSlots x 0 l.result) h r.valid,
          );
          more = r.more;
          answer = r.answer;
          unchanged =
              λ u. ap₂ (λ b x. hash_node hdepth (if b then tot + 1 else tot) x) u (r.unchanged u);
        }

    link_slot-SlotLinked :
        (d j i : ℕ) (slots : Slots)
        → ValidSlots d j slots
        → get_hashidx e.hval d ≡ j + i
        → j + i < hashtab_size
        → SlotLinked d j i slots (link_slot given d e slots i)
    link_slot-SlotLinked d j i nil v h lt = absurd (omega arith)
    link_slot-SlotLinked d j zero (chain cnt elems slots) v h lt =
        link_chain-SlotLinked d j cnt elems slots v (omega arith)
    link_slot-SlotLinked d j zero (child node slots) (w, x, v) h lt =
        let r = link_node-NodeLinked (suc d) node x in
        record {
          valid = (
            omega (
              arith,
              r.more (elsewhere d j),
              not_added (link_node given e node).ret (elsewhere d j)
                  (elsewhere_self d j e (omega arith)),
            ),
            r.valid,
            v,
          );
          more = λ p. omega (
            arith,
            r.more p,
            tally-append p (elems_node node) (elems_slots slots),
            tally-append p (elems_node (link_node given e node).result) (elems_slots slots),
          );
          answer = r.answer;
          unchanged = λ u. ap (λ n. child n slots) (r.unchanged u);
        }
    link_slot-SlotLinked d j (suc i) (chain cnt elems slots) (v, w, x) h lt =
        let r = link_slot-SlotLinked d (suc j) i slots x (omega arith) (omega arith) in
        record {
          valid = (v, w, r.valid);
          more = λ p. omega (
            arith,
            r.more p,
            tally-append p elems (elems_slots slots),
            tally-append p elems (elems_slots (link_slot given d e slots i).result),
          );
          answer = r.answer;
          unchanged = λ u. ap (chain cnt elems) (r.unchanged u);
        }
    link_slot-SlotLinked d j (suc i) (child node slots) (w, x, v) h lt =
        let r = link_slot-SlotLinked d (suc j) i slots v (omega arith) (omega arith) in
        record {
          valid = (w, x, r.valid);
          more = λ p. omega (
            arith,
            r.more p,
            tally-append p (elems_node node) (elems_slots slots),
            tally-append p (elems_node node) (elems_slots (link_slot given d e slots i).result),
          );
          answer = r.answer;
          unchanged = λ u. ap (child node) (r.unchanged u);
        }
