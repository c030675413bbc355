-- ===== src/Assoc/Chain.antt =====
-- engines/default/assoc.c: the items of a chain that a query asks for, and the loop that splits a chain.
use arcus_memcached.Prelude.{
  ℕ, ◌/◌, ◌%◌, ◌≡◌, refl, Bool, true, ◌&&◌, not, Option, none, some, List, [], ◌∷◌, ◌==◌,
  if◌then◌else◌, arith,
}
use arcus_memcached.Assoc.{Item, matches, find_chain, update, split_loop}

-- The items that pass a test, in order.
unfoldable pub hits : (Item → Bool) → List Item → List Item
hits p [] = []
hits p (it ∷ rest) = if p it then it ∷ hits p rest else hits p rest

-- The items of the first list, moved one by one to the front of the second.
unfoldable pub rev_onto : List Item → List Item → List Item
rev_onto [] ys = ys
rev_onto (it ∷ rest) ys = rev_onto rest (it ∷ ys)

abbrev pub first : List Item → Option Item
first [] = none
first (it ∷ rest) = some it

pub find_chain-hits : (p : Item → Bool) (c : List Item) → find_chain p c ≡ first (hits p c)
unfolding find_chain hits
find_chain-hits p [] = refl
find_chain-hits p (it ∷ rest) = ground (arith, find_chain-hits p rest)

-- A query finds an item only by its hash.
pub matches-hash :
    (hash : ℕ) (key : List ℕ) (it : Item) → matches hash key it ≡ true → it.khash ≡ hash
unfolding matches
matches-hash hash key it e = ground arith

module _ (hashsize rootsize i b : ℕ) (p : Item → Bool) (r : ℕ)
    (home : (it : Item) → p it ≡ true → it.khash / hashsize % rootsize ≡ r) where
  -- The items that stay are those asked for, if their table is the one that is split, else none.
  pub split_loop-stay :
      (xs : List Item) (rt : ℕ → ℕ → List Item)
      → hits p (split_loop hashsize rootsize i b rt xs).1 ≡ (if r == i then hits p xs else [])
  unfolding split_loop hits
  split_loop-stay [] rt = ground arith
  split_loop-stay (it ∷ rest) rt =
      let tabidx = it.khash / hashsize % rootsize in
      ground (
        arith,
        home it,
        split_loop-stay rest (if tabidx == i then rt else update rt tabidx b (it ∷ rt tabidx b)),
      )

  -- The tables gain the items that are asked for in the bucket that they belong to.
  pub split_loop-moved :
      (xs : List Item) (rt : ℕ → ℕ → List Item) (t c : ℕ)
      → hits p ((split_loop hashsize rootsize i b rt xs).0 t c) ≡ (
          if r == t && b == c && not (r == i)
          then rev_onto (hits p xs) (hits p (rt t c))
          else hits p (rt t c))
  unfolding split_loop hits rev_onto
  split_loop-moved [] rt t c = ground arith
  split_loop-moved (it ∷ rest) rt t c =
      let tabidx = it.khash / hashsize % rootsize in
      ground (
        arith,
        home it,
        split_loop-moved rest (if tabidx == i then rt else update rt tabidx b (it ∷ rt tabidx b)) t
            c,
      )
