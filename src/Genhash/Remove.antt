-- ===== src/Genhash/Remove.antt =====
-- genhash.c: deleting entries, and counting them.
use arcus_memcached.Prelude.{
  ℕ, zero, suc, ◌+◌, ◌<◌, ◌≡◌, refl, ap, ◌∙◌, true, false, some, List, ◌∷◌, arith, ◌==◌,
  if◌then◌else◌, Bool-cases, inl, inr, min,
}
use arcus_memcached.Genhash.{
  Genhash, dup_key, dup_value, slot, chain_of, genhash_store, delete_entry, genhash_delete,
  genhash_delete_all, gone, genhash_size_for_key,
}
use arcus_memcached.Genhash.Chain.{count, iter_key-count, count_congr, count-delete_entry}
use arcus_memcached.Genhash.Table.{
  IsValid, with_chain, with_chain-IsValid, chain_of-with_chain, slot_congr,
}

module _ {K V : Type 0} where
  -- `genhash_size_for_key` counts the entries of the key's chain that answer to it.
  pub genhash_size_for_key-count :
      (h : Genhash K V) (k : K) → genhash_size_for_key h k ≡ count h.ops k (chain_of h k)
  unfolding genhash_size_for_key
  genhash_size_for_key-count h k = iter_key-count h.ops k (chain_of h k) 0 ∙ omega arith

  size-with_chain :
      (h : Genhash K V) (k q : K) (c : List (K × V))
      → IsValid h
      → genhash_size_for_key (with_chain h k c) q
        ≡ count h.ops q (if slot h k == slot h q then c else chain_of h q)
  size-with_chain h k q c v =
      genhash_size_for_key-count (with_chain h k c) q
      ∙ ap (count h.ops q) (chain_of-with_chain h k q c v)

  -- Storing adds one entry for the keys that answer to the stored one.
  pub size_for_key-store :
      (h : Genhash K V) (k q : K) (v : V)
      → IsValid h
      → genhash_size_for_key (genhash_store h k v) q
        ≡ (if h.ops.hasheq q k then 1 else 0) + genhash_size_for_key h q
  unfolding genhash_store count
  size_for_key-store h k q v valid =
      let c = (dup_key h.ops k, dup_value h.ops v) ∷ chain_of h k in
      ground (
        arith,
        size-with_chain h k q c valid,
        genhash_size_for_key-count h q,
        slot_congr h q k valid,
        valid.lawful.eq-dup_key q k,
      )

  genhash_delete-table :
      (h : Genhash K V) (k : K)
      → (genhash_delete h k).0 ≡ with_chain h k (delete_entry h.ops k (chain_of h k)).1
  unfolding genhash_delete
  genhash_delete-table h k = refl

  genhash_delete-count :
      (h : Genhash K V) (k : K)
      → (genhash_delete h k).1 ≡ gone (delete_entry h.ops k (chain_of h k)).0
  unfolding genhash_delete
  genhash_delete-count h k = refl

  genhash_delete-IsValid : (h : Genhash K V) (k : K) → IsValid h → IsValid (genhash_delete h k).0
  genhash_delete-IsValid h k v = rw (genhash_delete-table h k) (with_chain-IsValid k _ v)

  -- `genhash_delete` says 1 exactly when the key has an entry, and takes one entry from the keys that
  -- answer to it and none from the others.
  pub size_for_key-delete :
      (h : Genhash K V) (k q : K)
      → IsValid h
      → let r = genhash_delete h k in
        (r.1 ≡ min 1 (genhash_size_for_key h k))
        × (genhash_size_for_key r.0 q + (if h.ops.hasheq q k then r.1 else 0)
            ≡ genhash_size_for_key h q)
        × IsValid r.0
  size_for_key-delete h k q v =
      let d = delete_entry h.ops k (chain_of h k) in
      let c = count-delete_entry h.ops v.lawful k q (chain_of h k) in
      let s = size-with_chain h k q d.1 v in
      let n = genhash_size_for_key-count h k in
      let m = genhash_size_for_key-count h q in
      let same = slot_congr h q k v in
      rw (genhash_delete-table h k, genhash_delete-count h k)
        (omega (arith, c.1, n), ground (arith, c, s, m, same), with_chain-IsValid k _ v)

  -- What `genhash_delete_all` leaves and says.
  pub record Cleared (h : Genhash K V) (k : K) (rv : ℕ) (r : Genhash K V × ℕ) : Type 0 where
    pub valid : IsValid r.0
    pub ops : r.0.ops ≡ h.ops
    pub number : r.1 ≡ rv + genhash_size_for_key h k
    pub left :
        (q : K)
        → genhash_size_for_key r.0 q ≡ (if h.ops.hasheq q k then 0 else genhash_size_for_key h q)

  genhash_delete-ops : (h : Genhash K V) (k : K) → (genhash_delete h k).0.ops ≡ h.ops
  unfolding genhash_delete
  genhash_delete-ops h k = refl

  size_congr :
      (h : Genhash K V) (q k : K)
      → IsValid h
      → h.ops.hasheq q k ≡ true
      → genhash_size_for_key h q ≡ genhash_size_for_key h k
  size_congr h q k v e = ground (
    arith,
    genhash_size_for_key-count h q,
    genhash_size_for_key-count h k,
    slot_congr h q k v e,
    count_congr h.ops v.lawful q k (chain_of h q) e,
  )

  module _ {h : Genhash K V} (k : K) (v : IsValid h) where
    one_less :
        ((genhash_delete h k).1 == 1) ≡ true
        → genhash_size_for_key (genhash_delete h k).0 k + 1 ≡ genhash_size_for_key h k
    one_less more = ground (arith, size_for_key-delete h k k v, v.lawful.eq_refl k)

    again :
        {rv : ℕ} {r : Genhash K V × ℕ}
        → ((genhash_delete h k).1 == 1) ≡ true
        → Cleared (genhash_delete h k).0 k (rv + 1) r
        → Cleared h k rv r
    again more c = record {
      valid = c.valid;
      ops = c.ops ∙ genhash_delete-ops h k;
      number = omega (arith, c.number, one_less more);
      left = λ q. ground (
        arith,
        c.left q,
        size_for_key-delete h k q v,
        ap (λ o. o.hasheq q k) (genhash_delete-ops h k),
      );
    }

    finished :
        (rv : ℕ)
        → ((genhash_delete h k).1 == 1) ≡ false
        → Cleared h k rv ((genhash_delete h k).0, rv)
    finished rv done =
        let d = size_for_key-delete h k k v in
        record {
          valid = d.2;
          ops = genhash_delete-ops h k;
          number = ground (arith, d.0);
          left = λ q. ground (arith, d.0, size_for_key-delete h k q v, size_congr h q k v);
        }

  -- With fuel for one round more than the key has entries, `genhash_delete_all` ends; it has deleted and
  -- counted every entry of the key, and none of a key that does not answer to it.
  pub genhash_delete_all-Cleared :
      (fuel : ℕ) (h : Genhash K V) (k : K) (rv : ℕ)
      → IsValid h
      → genhash_size_for_key h k < fuel
      → (r : Genhash K V × ℕ) × (genhash_delete_all fuel h k rv ≡ some r) × Cleared h k rv r
  unfolding genhash_delete_all
  genhash_delete_all-Cleared zero h k rv v lt = absurd (omega arith)
  genhash_delete_all-Cleared (suc fuel) h k rv v lt =
      let h' = (genhash_delete h k).0 in
      let d = size_for_key-delete h k k v in
      elim (Bool-cases ((genhash_delete h k).1 == 1)) [
        | inl more ↦
            let (r, run, c) =
              genhash_delete_all-Cleared fuel h' k (rv + 1) d.2
                (omega (arith, one_less k v more)) in
            (r, rw more run, again k v more c)
        | inr done ↦ ((h', rv), rw done, finished k v rv done)
      ]
