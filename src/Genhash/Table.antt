-- ===== src/Genhash/Table.antt =====
-- genhash.c: the table as a map from keys to their newest value.
use arcus_memcached.Prelude.{
  ℕ, zero, suc, ◌%◌, ◌<◌, ◌≡◌, refl, ap, ◌∙◌, true, Option, none, some, List, [], ◌∷◌, arith,
  length, length-set, get_or, set, ◌==◌, if◌then◌else◌, Option-cases, inl, inr, ==_iff,
}
use arcus_memcached.Genhash.{
  Genhash, UpdateType, modification, new, dup_key, dup_value, slot, chain_of, genhash_store,
  find_entry, value_of, genhash_find_entry, genhash_find, assign, genhash_update,
}
use arcus_memcached.Genhash.Chain.{IsLawful, find_entry-assign}

get_or-set {ℓ} :
    {A : Type ℓ} (xs : List A) (i j : ℕ) (v d : A)
    → i < length xs
    → get_or (set xs i v) j d ≡ (if i == j then v else get_or xs j d)
get_or-set [] i j v d h = absurd (omega arith)
get_or-set (x ∷ xs) zero zero v d h = refl
get_or-set (x ∷ xs) zero (suc j) v d h = ground arith
get_or-set (x ∷ xs) (suc i) zero v d h = ground arith
get_or-set (x ∷ xs) (suc i) (suc j) v d h = ground (arith, get_or-set xs i j v d)

-- What an update says of the key: that it was there, or that it is new.
abbrev pub update_type : {V : Type 0} → Option V → UpdateType
update_type none = new
update_type (some w) = modification

module _ {K V : Type 0} where
  -- The bucket array has its size, and there is a bucket.
  pub record IsValid (h : Genhash K V) : Type 0 where
    pub lawful : IsLawful h.ops
    pub width : length h.buckets ≡ h.size
    pub roomy : 0 < h.size

  -- The table with the chain of `k` replaced.
  abbrev pub with_chain : Genhash K V → K → List (K × V) → Genhash K V
  with_chain h k c = record h { buckets = set h.buckets (slot h k) c }

  pub with_chain-IsValid :
      {h : Genhash K V} (k : K) (c : List (K × V)) → IsValid h → IsValid (with_chain h k c)
  with_chain-IsValid {h} k c v = record {
    lawful = v.lawful;
    width = length-set h.buckets (slot h k) c ∙ v.width;
    roomy = v.roomy;
  }

  -- A replaced chain is seen by the keys of its bucket.
  pub chain_of-with_chain :
      (h : Genhash K V) (k q : K) (c : List (K × V))
      → IsValid h
      → chain_of (with_chain h k c) q ≡ (if slot h k == slot h q then c else chain_of h q)
  unfolding slot
  chain_of-with_chain h k q c v =
      get_or-set h.buckets (h.ops.hashfunc k % h.size) (h.ops.hashfunc q % h.size) c []
        (in_range h k v)
    where
      in_range :
          (h : Genhash K V) (k : K) → IsValid h → h.ops.hashfunc k % h.size < length h.buckets
      in_range h k v = omega (arith, v.width, v.roomy)

  -- Keys that answer to each other share a bucket.
  pub slot_congr :
      (h : Genhash K V) (q k : K)
      → IsValid h
      → h.ops.hasheq q k ≡ true
      → (slot h k == slot h q) ≡ true
  unfolding slot
  slot_congr h q k v e = rw (v.lawful.hash-eq q k e) ((==_iff _ _).1 refl)

  pub genhash_find_lem :
      (h : Genhash K V) (q : K) → genhash_find h q ≡ value_of (find_entry h.ops q (chain_of h q))
  unfolding genhash_find genhash_find_entry
  genhash_find_lem h q = refl

  pub find-with_chain :
      (h : Genhash K V) (k q : K) (c : List (K × V))
      → IsValid h
      → genhash_find (with_chain h k c) q
        ≡ value_of (find_entry h.ops q (if slot h k == slot h q then c else chain_of h q))
  find-with_chain h k q c v =
      genhash_find_lem (with_chain h k c) q
      ∙ ap (λ d. value_of (find_entry h.ops q d)) (chain_of-with_chain h k q c v)

  -- `genhash_store` puts a copy of the value in front: the stored key finds it, and every key that does
  -- not answer to the stored one finds what it found before.
  pub genhash_find-store :
      (h : Genhash K V) (k q : K) (v : V)
      → IsValid h
      → genhash_find (genhash_store h k v) q
        ≡ (if h.ops.hasheq q k then some (dup_value h.ops v) else genhash_find h q)
  unfolding genhash_store find_entry
  genhash_find-store h k q v valid =
      let c = (dup_key h.ops k, dup_value h.ops v) ∷ chain_of h k in
      ground (
        arith,
        find-with_chain h k q c valid,
        genhash_find_lem h q,
        slot_congr h q k valid,
        valid.lawful.eq-dup_key q k,
      )

  genhash_update-new :
      (h : Genhash K V) (k : K) (v : V)
      → find_entry h.ops k (chain_of h k) ≡ none
      → genhash_update h k v ≡ (genhash_store h k v, new)
  unfolding genhash_update genhash_find_entry
  genhash_update-new h k v e = rw (e, genhash_update)

  genhash_update-modification :
      (h : Genhash K V) (k : K) (v : V) (old : K × V)
      → find_entry h.ops k (chain_of h k) ≡ some old
      → genhash_update h k v
        ≡ (with_chain h k (assign h.ops k (λ _. dup_value h.ops v) (chain_of h k)), modification)
  unfolding genhash_update genhash_find_entry
  genhash_update-modification h k v old e = rw (e, genhash_update)

  -- After `genhash_update` the updated key finds a copy of the new value, and every key that does not
  -- answer to it what it found before; the result says whether the key was there.
  pub genhash_find-update :
      (h : Genhash K V) (k q : K) (v : V)
      → IsValid h
      → (genhash_find (genhash_update h k v).0 q
          ≡ (if h.ops.hasheq q k then some (dup_value h.ops v) else genhash_find h q))
        × ((genhash_update h k v).1 ≡ update_type (genhash_find h k))
  genhash_find-update h k q v valid = elim (Option-cases (find_entry h.ops k (chain_of h k))) [
    | inl e ↦
        rw (genhash_update-new h k v e)
          (genhash_find-store h k q v valid, ground (arith, genhash_find_lem h k))
    | inr (old, e) ↦
        let c = assign h.ops k (λ _. dup_value h.ops v) (chain_of h k) in
        rw (genhash_update-modification h k v old e) (
          ground (
            arith,
            find-with_chain h k q c valid,
            genhash_find_lem h q,
            slot_congr h q k valid,
            find_entry-assign h.ops valid.lawful k q (λ _. dup_value h.ops v) (chain_of h k) old e,
          ),
          ground (arith, genhash_find_lem h k),
        )
  ]
