-- ===== src/Genhash/Chain.antt =====
-- genhash.c: one chain, and how many of its entries answer to a key.
use arcus_memcached.Prelude.{
  ℕ, ◌+◌, ◌≡◌, refl, true, none, some, List, [], ◌∷◌, arith, if◌then◌else◌, min,
}
use arcus_memcached.Genhash.{
  HashOps, dup_key, find_entry, assign, delete_entry, iter_key, count_entries, gone,
}

module _ {K V : Type 0} where
  -- What a hash table asks of its operations: `hasheq` is an equivalence that `hashfunc` respects, and a
  -- copied key answers as the key that it copies.
  pub record IsLawful (ops : HashOps K V) : Type 0 where
    pub eq_refl : (a : K) → ops.hasheq a a ≡ true
    pub eq_symm : (a b : K) → ops.hasheq a b ≡ ops.hasheq b a
    pub eq_trans :
        (a b c : K) → ops.hasheq a b ≡ true → ops.hasheq b c ≡ true → ops.hasheq a c ≡ true
    pub hash-eq : (a b : K) → ops.hasheq a b ≡ true → ops.hashfunc a ≡ ops.hashfunc b
    pub eq-dup_key : (a b : K) → ops.hasheq a (dup_key ops b) ≡ ops.hasheq a b

  module _ (ops : HashOps K V) where
    -- The entries of a chain that answer to a key.
    unfoldable pub count : K → List (K × V) → ℕ
    count q [] = 0
    count q (p ∷ ps) = (if ops.hasheq q p.0 then 1 else 0) + count q ps

    pub iter_key-count :
        (q : K) (c : List (K × V)) (s : ℕ) → iter_key ops q count_entries c s ≡ s + count q c
    unfolding iter_key count
    iter_key-count q [] s = omega arith
    iter_key-count q (p ∷ ps) s =
        ground (arith, iter_key-count q ps (if ops.hasheq q p.0 then s + 1 else s))

    pub count-find_entry : (q : K) (c : List (K × V)) → (find_entry ops q c ≡ none → count q c ≡ 0)
    unfolding find_entry count
    count-find_entry q [] e = refl
    count-find_entry q (p ∷ ps) e = ground (arith, count-find_entry q ps)

    module _ (lawful : IsLawful ops) where
      pub same_answer : (a b c : K) → ops.hasheq a b ≡ true → ops.hasheq a c ≡ ops.hasheq b c
      same_answer a b c e =
          ground (arith, lawful.eq_symm a b, lawful.eq_trans a b c, lawful.eq_trans b a c)

      pub count_congr : (q k : K) (c : List (K × V)) → ops.hasheq q k ≡ true → count q c ≡ count k c
      unfolding count
      count_congr q k [] e = refl
      count_congr q k (p ∷ ps) e = ground (arith, count_congr q k ps e, same_answer q k p.0 e)

      -- Assigning leaves the keys, so a key finds the new value at the assigned key, else its old one.
      pub find_entry-assign :
          (k q : K) (f : V → V) (c : List (K × V)) (old : K × V)
          → find_entry ops k c ≡ some old
          → find_entry ops q (assign ops k f c)
            ≡ (if ops.hasheq q k then some (old.0, f old.1) else find_entry ops q c)
      unfolding find_entry assign
      find_entry-assign k q f [] old h = cc
      find_entry-assign k q f (p ∷ ps) old h = ground (
        arith,
        find_entry-assign k q f ps old,
        same_answer q k p.0,
        lawful.eq_symm q k,
        lawful.eq_symm k p.0,
        lawful.eq_trans q p.0 k,
      )

      pub count-assign :
          (k q : K) (f : V → V) (c : List (K × V)) → count q (assign ops k f c) ≡ count q c
      unfolding count assign
      count-assign k q f [] = refl
      count-assign k q f (p ∷ ps) = ground (arith, count-assign k q f ps)

      -- Deleting takes one entry of the key, if it has one, and none of another key.
      pub count-delete_entry :
          (k q : K) (c : List (K × V))
          → let r = delete_entry ops k c in
            (count q r.1 + (if ops.hasheq q k then gone r.0 else 0) ≡ count q c)
            × (gone r.0 ≡ min 1 (count k c))
      unfolding count delete_entry
      count-delete_entry k q [] = (ground arith, refl)
      count-delete_entry k q (p ∷ ps) =
          let ih = count-delete_entry k q ps in
          ground (
            arith,
            ih.0,
            ih.1,
            same_answer q k p.0,
            lawful.eq_symm k p.0,
            lawful.eq_symm q k,
            lawful.eq_trans q p.0 k,
          )
