-- ===== src/Assoc.antt =====
-- engines/default/assoc.c: the item table, a hash table of `rootsize` tables of `hashsize` buckets,
-- which doubles the number of tables and moves the items a few chains at a time.
mod Chain
mod Map
mod Redistribute
mod Expand
pub mod Insert
mod Tests
use arcus_memcached.Prelude.{
  same_bytes, ℕ, zero, suc, ◌+◌, ◌-◌, ◌*◌, ◌/◌, ◌%◌, ◌^◌, Bool, true, false, ◌&&◌, ◌||◌, not,
  Option, none, some, List, [], ◌∷◌, ltb, leb, ◌==◌, if◌then◌else◌,
}

-- `hash_item`: what the table reads of an item. The chain holds the items that `h_next` links.
pub record Item : Type 0 where
  pub khash : ℕ
  pub key : List ℕ
  pub value : ℕ

-- `struct assoc`. A mask is its size less one, so `& mask` is `% size`; `>> hashpower` is `/ hashsize`.
-- `roottable t b` is the chain of bucket `b` in table `t`, `infotable b` the references to bucket `b`.
pub record Assoc : Type 0 where
  pub hashsize : ℕ
  pub rootpower : ℕ
  pub rootsize : ℕ
  pub roottabsz : ℕ
  pub prevsize : ℕ
  pub expanding : Bool
  pub exp_bucket : ℕ
  pub exp_tabidx : ℕ
  pub hash_items : ℕ
  pub hash_expansion_limit : ℕ
  pub roottable : ℕ → ℕ → List Item
  pub infotable : ℕ → ℕ

-- `assoc_init`, with memory for its tables.
pub assoc_init : Assoc
assoc_init = record {
  hashsize = 2 ^ 16;
  rootpower = 0;
  rootsize = 1;
  roottabsz = 512;
  prevsize = 0;
  expanding = false;
  exp_bucket = 0;
  exp_tabidx = 0;
  hash_items = 0;
  hash_expansion_limit = 2 ^ 16 * 1 * 3 / 2;
  roottable = λ t b. [];
  infotable = λ b. 0;
}

-- `CUR_HASH_TABIDX`
pub cur_hash_tabidx : Assoc → ℕ → ℕ → ℕ
cur_hash_tabidx a hash bucket =
    let old = hash / a.hashsize % a.prevsize in
    let root = hash / a.hashsize % a.rootsize in
    if a.expanding
    then (if ltb bucket a.exp_bucket
        then old
        else if ltb a.exp_bucket bucket
        then root
        else if ltb old a.exp_tabidx
        then root
        else old)
    else root

-- `GET_HASH_BUCKET(hash, assocp->hashmask)`
abbrev pub bucket_of : Assoc → ℕ → ℕ
bucket_of a hash = hash % a.hashsize

-- The test of the loop in `assoc_find`.
pub matches : ℕ → List ℕ → Item → Bool
matches hash key it = it.khash == hash && same_bytes key it.key

pub find_chain : (Item → Bool) → List Item → Option Item
find_chain p [] = none
find_chain p (it ∷ rest) = if p it then some it else find_chain p rest

-- `assoc_find`
pub assoc_find : Assoc → List ℕ → ℕ → Option Item
unfolding find_chain
assoc_find a key hash =
    let bucket = bucket_of a hash in
    find_chain (matches hash key) (a.roottable (cur_hash_tabidx a hash bucket) bucket)

-- A write of one chain.
abbrev pub update : (ℕ → ℕ → List Item) → ℕ → ℕ → List Item → ℕ → ℕ → List Item
update rt t b c t' b' = if t == t' && b == b' then c else rt t' b'

-- The loop of `redistribute` over the chain of table `i` and bucket `b`: the tables after the items that
-- belong elsewhere have moved, and the items that stay.
pub split_loop : ℕ → ℕ → ℕ → ℕ → (ℕ → ℕ → List Item) → List Item → (ℕ → ℕ → List Item) × List Item
split_loop hashsize rootsize i b rt [] = (rt, [])
split_loop hashsize rootsize i b rt (it ∷ rest) =
    let tabidx = it.khash / hashsize % rootsize in
    let stays = tabidx == i in
    let r =
      split_loop hashsize rootsize i b (if stays then rt else update rt tabidx b (it ∷ rt tabidx b))
        rest in
    (r.0, if stays then it ∷ r.1 else r.1)

-- One round of `redistribute`.
pub redistribute_chain : Assoc → Assoc
unfolding split_loop
redistribute_chain a =
    let i = a.exp_tabidx in
    let b = a.exp_bucket in
    let (rt, stay) = split_loop a.hashsize a.rootsize i b a.roottable (a.roottable i b) in
    record a { roottable = update rt i b stay; exp_tabidx = i + 1 }

-- The rounds of `redistribute`, until the bucket is done.
pub redistribute_loop : ℕ → Assoc → Assoc
redistribute_loop zero a = a
redistribute_loop (suc n) a =
    let a' = redistribute_chain a in
    let rest = redistribute_loop n a' in if leb a'.prevsize a'.exp_tabidx then a' else rest

-- The end of `redistribute`: the next bucket, in backward order, or the end of the expansion.
pub next_bucket : Assoc → Assoc
next_bucket a =
    if leb a.prevsize a.exp_tabidx
    then (if ltb 0 a.exp_bucket
        then record a { exp_tabidx = 0; exp_bucket = a.exp_bucket - 1 }
        else record a { exp_tabidx = 0; expanding = false })
    else a

-- `redistribute`
pub redistribute : Assoc → Assoc
unfolding redistribute_loop next_bucket
redistribute a = next_bucket (redistribute_loop 4 a)

-- `assoc_expand`; the two flags say whether `realloc` of the root table and `calloc` give memory.
pub assoc_expand : Bool → Bool → Assoc → Assoc
assoc_expand grown given a =
    let short = ltb a.roottabsz (a.rootsize * 2) in
    let roottabsz = if short then a.roottabsz * 2 else a.roottabsz in
    if short && not grown
    then a
    else if given
    then record a {
      roottabsz = roottabsz;
      roottable = λ t b. if leb a.rootsize t && ltb t (a.rootsize * 2) then [] else a.roottable t b;
      rootpower = a.rootpower + 1;
      prevsize = a.rootsize;
      rootsize = 2 ^ (a.rootpower + 1);
      hash_expansion_limit =
          if ltb (a.rootpower + 1) 15 then a.hashsize * 2 ^ (a.rootpower + 1) * 3 / 2 else 0;
      expanding = true;
      exp_bucket = a.hashsize - 1;
      exp_tabidx = 0;
    }
    else record a { roottabsz = roottabsz }

-- The first half of `assoc_insert`: the item in front of its chain.
pub link_item : Assoc → Item → ℕ → Assoc
link_item a it hash =
    let bucket = bucket_of a hash in
    let tabidx = cur_hash_tabidx a hash bucket in
    record a {
      roottable = update a.roottable tabidx bucket (it ∷ a.roottable tabidx bucket);
      hash_items = a.hash_items + 1;
    }

-- `assoc_insert`
pub assoc_insert : Bool → Bool → Assoc → Item → ℕ → Assoc
assoc_insert grown given a it hash =
    let a' = link_item a it hash in
    if a'.expanding
    then (if a'.infotable a'.exp_bucket == 0 then redistribute a' else a')
    else if not (a'.hash_expansion_limit == 0) && ltb a'.hash_expansion_limit a'.hash_items
    then assoc_expand grown given a'
    else a'

-- The chain without the item that `_hashitem_before` stops at, and with another item in its place.
pub unlink_chain : List ℕ → List Item → List Item
unlink_chain key [] = []
unlink_chain key (it ∷ rest) = if same_bytes key it.key then rest else it ∷ unlink_chain key rest

pub replace_chain : List ℕ → Item → List Item → List Item
replace_chain key new [] = new ∷ []
replace_chain key new (it ∷ rest) =
    if same_bytes key it.key then new ∷ rest else it ∷ replace_chain key new rest

-- `assoc_delete` of a key that is in the table
pub assoc_delete : Assoc → List ℕ → ℕ → Assoc
unfolding unlink_chain
assoc_delete a key hash =
    let bucket = bucket_of a hash in
    let tabidx = cur_hash_tabidx a hash bucket in
    record a {
      roottable = update a.roottable tabidx bucket (unlink_chain key (a.roottable tabidx bucket));
      hash_items = a.hash_items - 1;
    }

-- `assoc_replace` of an item that is in the table
pub assoc_replace : Assoc → Item → Item → Assoc
unfolding replace_chain
assoc_replace a old new =
    let bucket = bucket_of a old.khash in
    let tabidx = cur_hash_tabidx a old.khash bucket in
    record a {
      roottable =
          update a.roottable tabidx bucket (replace_chain old.key new (a.roottable tabidx bucket));
    }
