-- ===== src/Assoc/Redistribute.antt =====
-- engines/default/assoc.c: the rounds of `redistribute`, and the places that the chains move to.
use arcus_memcached.Prelude.{
  ℕ, zero, suc, ◌-◌, ◌/◌, ◌%◌, ◌<◌, ◌≡◌, refl, sym, ap, ◌∙◌, subst, Bool, true, false, ◌&&◌, Option,
  [], ltb, leb, ltb→lt, leb→le, ◌==◌, if◌then◌else◌, arith, Bool-cases, inl, inr,
}
use native.Mathlib.Nat.{mod-lt}
use arcus_memcached.Assoc.{
  Item, Assoc, cur_hash_tabidx, bucket_of, redistribute_chain, redistribute_loop, next_bucket,
  redistribute,
}
use arcus_memcached.Assoc.Chain.{hits}
use arcus_memcached.Assoc.Map.{
  IsShaped, list_of, Holds, bucket_moves, cur_expanding, relocate, redistribute_chain-Holds,
}

-- The sizes are right, and an expansion stands at a table that it has yet to split.
pub record IsValid (a : Assoc) : Type 0 where
  pub shaped : IsShaped a
  pub at_table : a.expanding ≡ true → a.exp_tabidx < a.prevsize

-- When the last bucket is done, the index points to the table of the new size.
bucket_done :
    (a : Assoc) (hash : ℕ)
    → a.expanding ≡ true
    → leb a.prevsize a.exp_tabidx ≡ true
    → ltb 0 a.exp_bucket ≡ false
    → hash / a.hashsize % a.prevsize < a.prevsize
    → cur_hash_tabidx a hash (bucket_of a hash) ≡ hash / a.hashsize % a.rootsize
unfolding cur_hash_tabidx
bucket_done a hash e e1 e2 small = ground arith

redistribute_chain-IsShaped : (a : Assoc) → IsShaped a → IsShaped (redistribute_chain a)
unfolding redistribute_chain
redistribute_chain-IsShaped a s = record {
  buckets = s.buckets;
  power = s.power;
  roots = s.roots;
  doubled = s.doubled;
  at_bucket = s.at_bucket;
}

redistribute_chain-expanding :
    (a : Assoc)
    → ((redistribute_chain a).expanding ≡ a.expanding)
      × ((redistribute_chain a).prevsize ≡ a.prevsize)
unfolding redistribute_chain
redistribute_chain-expanding a = (refl, refl)

module _ (p : Item → Bool) (hash : ℕ) (mine : (it : Item) → p it ≡ true → it.khash ≡ hash)
    (o : Option Item) where
  abbrev pub Kept : Assoc → Type 0
  Kept a = IsValid a × Holds p hash o a

  -- The tables are as they were, and so is the place that the index points to.
  pub stays :
      (a b : Assoc)
      → b.roottable ≡ a.roottable
      → bucket_of a hash ≡ bucket_of b hash
      → cur_hash_tabidx a hash (bucket_of a hash) ≡ cur_hash_tabidx b hash (bucket_of b hash)
      → Holds p hash o a
      → Holds p hash o b
  unfolding Holds
  stays a b e1 e2 e3 h t c =
      let j = cur_hash_tabidx b hash (bucket_of b hash) in
      ap (λ r. hits p (r t c)) e1
      ∙ relocate p hash mine o a j e3 h t c
      ∙ ap (λ x. if j == t && x == c then list_of o else []) e2

  next_bucket-Kept :
      (a : Assoc)
      → IsShaped a
      → a.expanding ≡ true
      → 0 < a.prevsize
      → Holds p hash o a
      → Kept (next_bucket a)
  unfolding next_bucket cur_hash_tabidx
  next_bucket-Kept a s e pos h =
      let old = hash / a.hashsize % a.prevsize in
      let root = hash / a.hashsize % a.rootsize in
      let small = mod-lt (hash / a.hashsize) pos in
      let b = record a { exp_tabidx = 0; exp_bucket = a.exp_bucket - 1 } in
      let c = record a { exp_tabidx = 0; expanding = false } in
      elim (Bool-cases (leb a.prevsize a.exp_tabidx)) [
        | inr e1 ↦ rw (e1) (record { shaped = s; at_table = λ f. ground arith }, h)
        | inl e1 ↦ elim (Bool-cases (ltb 0 a.exp_bucket)) [
          | inl e2 ↦
              rw (e1, e2)
                (
                  record {
                    shaped = record {
                      buckets = s.buckets;
                      power = s.power;
                      roots = s.roots;
                      doubled = s.doubled;
                      at_bucket = λ f. ground (arith, s.at_bucket e);
                    };
                    at_table = λ f. pos;
                  },
                  stays a b refl refl
                      (cur_expanding a hash e
                        ∙ sym (
                            bucket_moves old root a.prevsize a.exp_bucket (bucket_of a hash)
                              a.exp_tabidx small (leb→le a.prevsize a.exp_tabidx e1)
                              (ltb→lt 0 a.exp_bucket e2))
                        ∙ sym (cur_expanding b hash e))
                      h,
                )
          | inr e2 ↦
              rw (e1, e2)
                (
                  record {
                    shaped = record {
                      buckets = s.buckets;
                      power = s.power;
                      roots = s.roots;
                      doubled = λ f. ground arith;
                      at_bucket = λ f. ground arith;
                    };
                    at_table = λ f. ground arith;
                  },
                  stays a c refl refl (bucket_done a hash e e1 e2 small) h,
                )
        ]
      ]

  redistribute_loop-Kept :
      (n : ℕ) (a : Assoc)
      → IsShaped a
      → a.expanding ≡ true
      → a.exp_tabidx < a.prevsize
      → Holds p hash o a
      → Kept (next_bucket (redistribute_loop n a))
  unfolding redistribute_loop
  redistribute_loop-Kept zero a s e lt h = next_bucket-Kept a s e (pos lt) h
    where
      pos : {i m : ℕ} → i < m → 0 < m
      pos lt = omega arith
  redistribute_loop-Kept (suc n) a s e lt h =
      let a' = redistribute_chain a in
      let e' = (redistribute_chain-expanding a).0 ∙ e in
      let lt' = subst (λ m. a.exp_tabidx < m) (sym (redistribute_chain-expanding a).1) lt in
      let s' = redistribute_chain-IsShaped a s in
      let h' = redistribute_chain-Holds p hash mine o a s e lt h in
      elim (Bool-cases (leb a'.prevsize a'.exp_tabidx)) [
        | inl e1 ↦ rw (e1) (next_bucket-Kept a' s' e' (pos lt') h')
        | inr e1 ↦ rw (e1) (redistribute_loop-Kept n a' s' e' (below a' e1) h')
      ]
    where
      pos : {i m : ℕ} → i < m → 0 < m
      pos lt = omega arith

      below : (a : Assoc) → leb a.prevsize a.exp_tabidx ≡ false → a.exp_tabidx < a.prevsize
      below a e = ground arith

  pub redistribute-Kept :
      (a : Assoc) → IsValid a → a.expanding ≡ true → Holds p hash o a → Kept (redistribute a)
  unfolding redistribute
  redistribute-Kept a v e h = redistribute_loop-Kept 4 a v.shaped e (v.at_table e) h
