-- ===== src/Assoc/Map.antt =====
-- engines/default/assoc.c: where the chain of a hash stands, while a chain is split.
use arcus_memcached.Prelude.{
  ℕ, ◌+◌, ◌-◌, ◌/◌, ◌%◌, ◌^◌, ◌≤◌, ◌<◌, ◌≡◌, refl, sym, ap, ap₂, ◌∙◌, subst, Bool, true, false,
  ◌&&◌, not, Option, none, some, List, [], ◌∷◌, ltb, ◌==◌, if◌then◌else◌, arith, Bool-cases, ltb→lt,
  ◌⊎◌, inl, inr,
}
use native.Mathlib.Nat.{mod-mod_of_dvd, dvd-add, dvd_refl, mod-lt, mod-eq_of_lt, mod-eq-sub-mod}
use arcus_memcached.Assoc.{
  Item, Assoc, cur_hash_tabidx, update, bucket_of, split_loop, redistribute_chain,
}
use arcus_memcached.Assoc.Chain.{hits, rev_onto, split_loop-stay, split_loop-moved}

-- The sizes: a table has buckets, and an expansion doubles the tables and stands at one of their chains.
pub record IsShaped (a : Assoc) : Type 0 where
  pub buckets : 0 < a.hashsize
  pub power : a.rootsize ≡ 2 ^ a.rootpower
  pub roots : 0 < a.rootsize
  pub doubled : a.expanding ≡ true → a.prevsize + a.prevsize ≡ a.rootsize
  pub at_bucket : a.expanding ≡ true → a.exp_bucket < a.hashsize

unfoldable pub list_of : Option Item → List Item
list_of none = []
list_of (some it) = it ∷ []

-- The chain that the hash belongs to holds what `o` says of the query, and no other chain has a part of it.
unfoldable pub Holds : (Item → Bool) → ℕ → Option Item → Assoc → Type 0
Holds p hash o a =
    (t b : ℕ)
    → hits p (a.roottable t b) ≡ (
        if cur_hash_tabidx a hash (bucket_of a hash) == t && bucket_of a hash == b
        then list_of o
        else [])

rev_onto-list_of : (o : Option Item) → rev_onto (list_of o) [] ≡ list_of o
unfolding rev_onto list_of
rev_onto-list_of none = refl
rev_onto-list_of (some it) = refl

-- A table index of twice as many tables is the old one, or that many further.
mod_double : (x m : ℕ) → 0 < m → (x % (m + m) ≡ x % m) ⊎ (x % (m + m) ≡ x % m + m)
mod_double x m h =
    let y = x % (m + m) in
    let twice = mod-mod_of_dvd m x (dvd-add m (dvd_refl m) (dvd_refl m)) in
    let small = mod-lt x (double m h) in
    elim (Bool-cases (ltb y m)) [
      | inl e ↦ inl (sym (mod-eq_of_lt (ltb→lt y m e)) ∙ twice)
      | inr e ↦ inr (upper y m (x % m) e small (sym twice))
    ]
  where
    double : (m : ℕ) → 0 < m → 0 < m + m
    double m h = omega arith

    upper : (y m r : ℕ) → ltb y m ≡ false → y < m + m → r ≡ y % m → y ≡ r + m
    upper y m r e small s =
        let back = mod-eq-sub-mod (above y m e) in
        let rest = mod-eq_of_lt (less y m e small) in join y m r e (s ∙ back ∙ rest)
      where
        above : (y m : ℕ) → ltb y m ≡ false → m ≤ y
        above y m e = ground arith

        less : (y m : ℕ) → ltb y m ≡ false → y < m + m → y - m < m
        less y m e small = ground arith

        join : (y m r : ℕ) → ltb y m ≡ false → r ≡ y - m → y ≡ r + m
        join y m r e s = ground arith

-- The index that `cur_hash_tabidx` gives during an expansion.
abbrev pub index_at : ℕ → ℕ → ℕ → ℕ → ℕ → ℕ
index_at old root bucket eb ti =
    if ltb bucket eb then old else if ltb eb bucket then root else if ltb old ti then root else old

-- Splitting the chain of table `i` and bucket `eb` moves its content to where the index now points.
chain_moves :
    (old root prev i eb bucket t c : ℕ) (l here there : List Item)
    → i < prev
    → old < prev
    → (root ≡ old) ⊎ (root ≡ old + prev)
    → rev_onto l [] ≡ l
    → here ≡ (if index_at old root bucket eb i == i && bucket == eb then l else [])
    → there ≡ (if index_at old root bucket eb i == t && bucket == c then l else [])
    → (if i == t && eb == c
        then (if root == i then here else [])
        else (if root == t && eb == c && not (root == i) then rev_onto here there else there))
      ≡ (if index_at old root bucket eb (i + 1) == t && bucket == c then l else [])
unfolding rev_onto
chain_moves old root prev i eb bucket t c l here there h1 h2 h3 h4 h5 h6 = ground arith

-- The end of a bucket: the index points to the same table, for every bucket.
pub bucket_moves :
    (old root prev eb bucket ti : ℕ)
    → old < prev
    → prev ≤ ti
    → 0 < eb
    → index_at old root bucket (eb - 1) 0 ≡ index_at old root bucket eb ti
bucket_moves old root prev eb bucket ti h1 h2 h3 = ground arith

pub bucket_ends :
    (old root prev bucket ti : ℕ) → old < prev → prev ≤ ti → root ≡ index_at old root bucket 0 ti
bucket_ends old root prev bucket ti h1 h2 = ground arith

pub expand_starts :
    (old root size bucket : ℕ) → bucket < size → old ≡ index_at old root bucket (size - 1) 0
expand_starts old root size bucket h = ground arith

pub cur_expanding :
    (a : Assoc) (h : ℕ)
    → a.expanding ≡ true
    → cur_hash_tabidx a h (bucket_of a h)
      ≡ index_at
          (h / a.hashsize % a.prevsize)
          (h / a.hashsize % a.rootsize)
          (bucket_of a h)
          a.exp_bucket
          a.exp_tabidx
unfolding cur_hash_tabidx
cur_expanding a h e = rw (e) refl

module _ (p : Item → Bool) (hash : ℕ) (mine : (it : Item) → p it ≡ true → it.khash ≡ hash)
    (o : Option Item) where
  home :
      (a : Assoc) (it : Item)
      → p it ≡ true
      → it.khash / a.hashsize % a.rootsize ≡ hash / a.hashsize % a.rootsize
  home a it h = ap (λ x. x / a.hashsize % a.rootsize) (mine it h)

  split :
      (a : Assoc)
      → IsShaped a
      → a.expanding ≡ true
      → 0 < a.prevsize
      → (hash / a.hashsize % a.rootsize ≡ hash / a.hashsize % a.prevsize)
        ⊎ (hash / a.hashsize % a.rootsize ≡ hash / a.hashsize % a.prevsize + a.prevsize)
  split a s e lt =
      subst
        (λ m.
          (hash / a.hashsize % m ≡ hash / a.hashsize % a.prevsize)
          ⊎ (hash / a.hashsize % m ≡ hash / a.hashsize % a.prevsize + a.prevsize))
        (s.doubled e) (mod_double (hash / a.hashsize) a.prevsize lt)

  -- Where the index points, the chain holds the item, by another name of the index.
  pub relocate :
      (a : Assoc) (j : ℕ)
      → cur_hash_tabidx a hash (bucket_of a hash) ≡ j
      → Holds p hash o a
      → (t b : ℕ)
      → hits p (a.roottable t b) ≡ (if j == t && bucket_of a hash == b then list_of o else [])
  unfolding Holds
  relocate a j e h t b =
      h t b ∙ ap (λ x. if x == t && bucket_of a hash == b then list_of o else []) e

  pub hits-update :
      (rt : ℕ → ℕ → List Item) (t b : ℕ) (c : List Item) (t' b' : ℕ)
      → hits p (update rt t b c t' b')
        ≡ (if t == t' && b == b' then hits p c else hits p (rt t' b'))
  hits-update rt t b c t' b' = ground arith

  pub redistribute_chain-Holds :
      (a : Assoc)
      → IsShaped a
      → a.expanding ≡ true
      → a.exp_tabidx < a.prevsize
      → Holds p hash o a
      → Holds p hash o (redistribute_chain a)
  unfolding redistribute_chain Holds
  redistribute_chain-Holds a s e lt h t c =
      let i = a.exp_tabidx in
      let b = a.exp_bucket in
      let old = hash / a.hashsize % a.prevsize in
      let root = hash / a.hashsize % a.rootsize in
      let r = split_loop a.hashsize a.rootsize i b a.roottable (a.roottable i b) in
      let stay =
        split_loop-stay a.hashsize a.rootsize i b p root (home a) (a.roottable i b) a.roottable in
      let moved =
        split_loop-moved a.hashsize a.rootsize i b p root (home a) (a.roottable i b) a.roottable t
          c in
      let now = relocate a (index_at old root (bucket_of a hash) b i) (cur_expanding a hash e) h in
      let moves =
        chain_moves old root a.prevsize i b (bucket_of a hash) t c (list_of o)
          (hits p (a.roottable i b)) (hits p (a.roottable t c)) lt
          (mod-lt (hash / a.hashsize) (lt_pos a lt)) (split a s e (lt_pos a lt))
          (rev_onto-list_of o) (now i b) (now t c) in
      hits-update r.0 i b r.1 t c
      ∙ ap₂ (λ x y. if i == t && b == c then x else y) stay moved
      ∙ moves
      ∙ ap (λ x. if x == t && bucket_of a hash == c then list_of o else [])
          (sym (cur_expanding (redistribute_chain a) hash e))
    where
      lt_pos : (a : Assoc) → a.exp_tabidx < a.prevsize → 0 < a.prevsize
      lt_pos a lt = omega arith
