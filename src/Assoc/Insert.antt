-- ===== src/Assoc/Insert.antt =====
-- engines/default/assoc.c: the table as a map from hashes and keys to items.
use arcus_memcached.Prelude.{
  same_bytes-≡, ℕ, ◌≡◌, refl, sym, ap, ap₂, ◌∙◌, Bool, true, ◌&&◌, not, Option, none, some, List,
  [], ltb, ◌==◌, if◌then◌else◌, arith, if_cases,
}
use arcus_memcached.Assoc.{
  Item, Assoc, assoc_init, cur_hash_tabidx, bucket_of, matches, assoc_find, link_item, assoc_insert,
  redistribute, assoc_expand,
}
use arcus_memcached.Assoc.Chain.{hits, first, find_chain-hits, matches-hash}
use arcus_memcached.Assoc.Map.{list_of, Holds}
use arcus_memcached.Assoc.Redistribute.{IsValid, Kept, redistribute-Kept}
use arcus_memcached.Assoc.Expand.{link_item-Kept, assoc_expand-Kept}

-- The table as a map: what each hash and key finds. Of the chains, only the one that the hash and the
-- state of the expansion point to holds the item, and it holds it once.
pub record Represents (m : ℕ → List ℕ → Option Item) (a : Assoc) : Type 0 where
  pub valid : IsValid a
  pub holds : (hash : ℕ) (key : List ℕ) → Holds (matches hash key) hash (m hash key) a

-- The map with an item put in.
abbrev pub put : (ℕ → List ℕ → Option Item) → Item → ℕ → List ℕ → Option Item
put m it hash key = if matches hash key it then some it else m hash key

link_item-IsValid : (a : Assoc) (it : Item) (hash : ℕ) → IsValid a → IsValid (link_item a it hash)
unfolding link_item
link_item-IsValid a it hash v = record {
  shaped = record {
    buckets = v.shaped.buckets;
    power = v.shaped.power;
    roots = v.shaped.roots;
    doubled = v.shaped.doubled;
    at_bucket = v.shaped.at_bucket;
  };
  at_table = v.at_table;
}

assoc_insert-Kept :
    (p : Item → Bool) (hash : ℕ) (mine : (it : Item) → p it ≡ true → it.khash ≡ hash)
    (o : Option Item) (grown given : Bool) (a : Assoc) (it : Item)
    → IsValid a
    → (p it ≡ true → o ≡ none)
    → Holds p hash o a
    → Kept p hash mine (if p it then some it else o) (assoc_insert grown given a it it.khash)
unfolding assoc_insert
assoc_insert-Kept p hash mine o grown given a it v fresh h =
    let a' = link_item a it it.khash in
    let o' = if p it then some it else o in
    let v' = link_item-IsValid a it it.khash v in
    let h' = link_item-Kept p hash mine o a it v fresh h (mine it) in
    let P = Kept p hash mine o' in
    let settled = not (a'.hash_expansion_limit == 0) && ltb a'.hash_expansion_limit a'.hash_items in
    if_cases P a'.expanding _ _
      (λ e.
        if_cases P (a'.infotable a'.exp_bucket == 0) (redistribute a') a'
          (λ _. redistribute-Kept p hash mine o' a' v' e h') (λ _. (v', h')))
      (λ e.
        if_cases P settled (assoc_expand grown given a') a'
          (λ _. assoc_expand-Kept p hash mine o' grown given a' v' e h') (λ _. (v', h')))

matches-key : (hash : ℕ) (key : List ℕ) (it : Item) → matches hash key it ≡ true → key ≡ it.key
unfolding matches
matches-key hash key it e = same_bytes-≡ key it.key (ground arith)

first_here : (t b : ℕ) (o : Option Item) → first (if t == t && b == b then list_of o else []) ≡ o
unfolding list_of
first_here t b none = ground arith
first_here t b (some it) = ground arith

-- `assoc_find` finds the item of the map, and NULL where the map has none.
pub assoc_find-Represents :
    (m : ℕ → List ℕ → Option Item) (a : Assoc) (key : List ℕ) (hash : ℕ)
    → Represents m a
    → assoc_find a key hash ≡ m hash key
unfolding assoc_find Holds
assoc_find-Represents m a key hash r =
    let p = matches hash key in
    let bucket = bucket_of a hash in
    let t = cur_hash_tabidx a hash bucket in
    find_chain-hits p (a.roottable t bucket)
    ∙ ap first (r.holds hash key t bucket)
    ∙ first_here t bucket (m hash key)

-- The new table, whose one table of 2 ^ 16 buckets has empty chains, is the empty map.
pub assoc_init-Represents : Represents (λ hash key. none) assoc_init
unfolding assoc_init Holds hits list_of
assoc_init-Represents = record {
  valid = record {
    shaped = record {
      buckets = ground arith;
      power = refl;
      roots = ground arith;
      doubled = λ f. ground arith;
      at_bucket = λ f. ground arith;
    };
    at_table = λ f. ground arith;
  };
  holds = λ hash key t b. ground arith;
}

-- `assoc_insert` of an item whose key is not in the table puts it into the map and changes nothing else.
pub assoc_insert-Represents :
    (m : ℕ → List ℕ → Option Item) (grown given : Bool) (a : Assoc) (it : Item)
    → Represents m a
    → m it.khash it.key ≡ none
    → Represents (put m it) (assoc_insert grown given a it it.khash)
assoc_insert-Represents m grown given a it r fresh =
    let kept = λ (hash : ℕ) (key : List ℕ).
      assoc_insert-Kept (matches hash key) hash (matches-hash hash key) (m hash key) grown given a
        it r.valid
        (λ e. ap₂ m (sym (matches-hash hash key it e)) (matches-key hash key it e) ∙ fresh)
        (r.holds hash key) in
    record { valid = (kept 0 []).0; holds = λ hash key. (kept hash key).1 }

-- A call of `redistribute` during an expansion moves items, and no query sees it.
pub redistribute-Represents :
    (m : ℕ → List ℕ → Option Item) (a : Assoc)
    → a.expanding ≡ true
    → Represents m a
    → Represents m (redistribute a)
redistribute-Represents m a e r =
    let kept = λ (hash : ℕ) (key : List ℕ).
      redistribute-Kept (matches hash key) hash (matches-hash hash key) (m hash key) a r.valid e
        (r.holds hash key) in
    record { valid = (kept 0 []).0; holds = λ hash key. (kept hash key).1 }
