-- ===== src/Assoc/Expand.antt =====
-- engines/default/assoc.c: the insertion into a chain, and the start of an expansion.
use arcus_memcached.Prelude.{
  ℕ, ◌+◌, ◌-◌, ◌*◌, ◌/◌, ◌%◌, ◌^◌, ◌<◌, ◌≡◌, refl, sym, ap, ◌∙◌, subst, Bool, true, false, ◌&&◌,
  not, Option, none, some, List, [], ◌∷◌, ltb, leb, ◌==◌, if◌then◌else◌, arith, Bool-cases, inl,
  inr,
}
use native.Mathlib.Nat.{mod-lt, pow-suc}
use native.Mathlib.Numerals.{add-one}
use arcus_memcached.Assoc.{Item, Assoc, cur_hash_tabidx, bucket_of, assoc_expand, link_item}
use arcus_memcached.Assoc.Chain.{hits}
use arcus_memcached.Assoc.Map.{
  IsShaped, list_of, Holds, expand_starts, cur_expanding, relocate, hits-update,
}
use arcus_memcached.Assoc.Redistribute.{IsValid, Kept, stays}

-- The item in front of its chain is what the queries that it answers to see.
place_new :
    (fits : Bool) (it : Item) (j b j' b' t c : ℕ) (o : Option Item) (here there : List Item)
    → (fits ≡ true → j ≡ j')
    → (fits ≡ true → b ≡ b')
    → (fits ≡ true → o ≡ none)
    → here ≡ (if j' == j && b' == b then list_of o else [])
    → there ≡ (if j' == t && b' == c then list_of o else [])
    → (if j == t && b == c then (if fits then it ∷ here else here) else there)
      ≡ (if j' == t && b' == c then list_of (if fits then some it else o) else [])
unfolding list_of
place_new fits it j b j' b' t c o here there h1 h2 h3 h4 h5 = ground arith

cur_settled :
    (a : Assoc) (hash : ℕ)
    → a.expanding ≡ false
    → cur_hash_tabidx a hash (bucket_of a hash) ≡ hash / a.hashsize % a.rootsize
unfolding cur_hash_tabidx
cur_settled a hash e = rw (e) refl

-- The table that `assoc_expand` leaves when it has memory.
abbrev doubled : Assoc → ℕ → ℕ → Assoc
doubled a w l = record a {
  roottabsz = w;
  roottable = λ t c. if leb a.rootsize t && ltb t (a.rootsize * 2) then [] else a.roottable t c;
  rootpower = a.rootpower + 1;
  prevsize = a.rootsize;
  rootsize = 2 ^ (a.rootpower + 1);
  hash_expansion_limit = l;
  expanding = true;
  exp_bucket = a.hashsize - 1;
  exp_tabidx = 0;
}

pow_next : (n : ℕ) → 2 ^ (n + 1) ≡ 2 ^ n + 2 ^ n
pow_next n = simp (add-one, pow-suc) (omega arith)

-- New tables are empty, and nothing stood there.
clear_new :
    (p : Item → Bool) (size j bucket t c : ℕ) (l : List Item) (old : List Item)
    → j < size
    → hits p old ≡ (if j == t && bucket == c then l else [])
    → hits p (if leb size t && ltb t (size * 2) then [] else old)
      ≡ (if j == t && bucket == c then l else [])
unfolding hits
clear_new p size j bucket t c l old h e = ground arith

module _ (p : Item → Bool) (hash : ℕ) (mine : (it : Item) → p it ≡ true → it.khash ≡ hash)
    (o : Option Item) where
  pub link_item-Kept :
      (a : Assoc) (it : Item)
      → IsValid a
      → (p it ≡ true → o ≡ none)
      → Holds p hash o a
      → (p it ≡ true → it.khash ≡ hash)
      → Holds p hash (if p it then some it else o) (link_item a it it.khash)
  unfolding link_item Holds hits cur_hash_tabidx
  link_item-Kept a it v fresh h e t c =
      let at = λ (x : ℕ). cur_hash_tabidx a x (bucket_of a x) in
      let k = it.khash in
      hits-update p hash mine o a.roottable (at k) (bucket_of a k)
        (it ∷ a.roottable (at k) (bucket_of a k)) t c
      ∙ place_new (p it) it (at k) (bucket_of a k) (at hash) (bucket_of a hash) t c o
          (hits p (a.roottable (at k) (bucket_of a k))) (hits p (a.roottable t c))
          (λ f. ap at (e f)) (λ f. ap (bucket_of a) (e f)) fresh (h (at k) (bucket_of a k)) (h t c)

  grown_wide-Kept :
      (a : Assoc) (w : ℕ) → Kept p hash mine o a → Kept p hash mine o (record a { roottabsz = w })
  unfolding cur_hash_tabidx
  grown_wide-Kept a w (v, h) = (
    record {
      shaped = record {
        buckets = v.shaped.buckets;
        power = v.shaped.power;
        roots = v.shaped.roots;
        doubled = v.shaped.doubled;
        at_bucket = v.shaped.at_bucket;
      };
      at_table = v.at_table;
    },
    stays p hash mine o a (record a { roottabsz = w }) refl refl refl h,
  )

  doubled-Kept :
      (a : Assoc) (w l : ℕ)
      → IsValid a
      → a.expanding ≡ false
      → Holds p hash o a
      → Kept p hash mine o (doubled a w l)
  unfolding Holds
  doubled-Kept a w l v e h =
      let b = doubled a w l in
      let root = hash / a.hashsize % a.rootsize in
      let bucket = bucket_of a hash in
      let old =
        expand_starts root (hash / a.hashsize % b.rootsize) a.hashsize bucket
          (mod-lt hash v.shaped.buckets) in
      let size = twice a v.shaped in
      (
        record {
          shaped = record {
            buckets = v.shaped.buckets;
            power = refl;
            roots = subst (λ m. 0 < m) size (more a v.shaped);
            doubled = λ f. size;
            at_bucket = λ f. last a v.shaped;
          };
          at_table = λ f. v.shaped.roots;
        },
        λ t c.
            clear_new p a.rootsize root bucket t c (list_of o) (a.roottable t c)
              (mod-lt (hash / a.hashsize) v.shaped.roots)
              (relocate p hash mine o a root (cur_settled a hash e) h t c)
            ∙ ap (λ x. if x == t && bucket == c then list_of o else [])
                (old ∙ sym (cur_expanding b hash refl)),
      )
    where
      twice : (a : Assoc) → IsShaped a → a.rootsize + a.rootsize ≡ 2 ^ (a.rootpower + 1)
      twice a s = ground (arith, s.power, pow_next a.rootpower)

      more : (a : Assoc) → IsShaped a → 0 < a.rootsize + a.rootsize
      more a s = omega (arith, s.roots)

      last : (a : Assoc) → IsShaped a → a.hashsize - 1 < a.hashsize
      last a s = omega (arith, s.buckets)

  pub assoc_expand-Kept :
      (grown given : Bool) (a : Assoc)
      → IsValid a
      → a.expanding ≡ false
      → Holds p hash o a
      → Kept p hash mine o (assoc_expand grown given a)
  unfolding assoc_expand
  assoc_expand-Kept grown given a v e h =
      let short = ltb a.roottabsz (a.rootsize * 2) in
      elim (Bool-cases (short && not grown)) [
        | inl e1 ↦ rw (e1) (v, h)
        | inr e1 ↦ elim (Bool-cases given) [
          | inr e2 ↦
              rw (e1, e2)
                (grown_wide-Kept a (if short then a.roottabsz * 2 else a.roottabsz) (v, h))
          | inl e2 ↦
              rw (e1, e2)
                (doubled-Kept a (if short then a.roottabsz * 2 else a.roottabsz)
                  (if ltb (a.rootpower + 1) 15
                    then a.hashsize * 2 ^ (a.rootpower + 1) * 3 / 2
                    else 0)
                  v e h)
        ]
      ]
