-- ===== src/Mblck/Account.antt =====
-- mc_util.c: the chain and the counts of a pool of memory blocks.
use arcus_memcached.Prelude.{
  ℕ, zero, suc, ◌+◌, ◌-◌, ◌≤◌, min, ◌≡◌, refl, sym, ap, ◌∙◌, subst, Option, none, some, List, [],
  ◌∷◌, ◌++◌, append_assoc, length, length-append, arith,
}
use arcus_memcached.Mblck.{Pool, Blist, append_blck, grow_loop, cut_chain, last_of, take_blcks}

-- The free count is the length of the chain, and the tail its last block.
pub record IsValid (pool : Pool) : Type 0 where
  pub count : length pool.chain ≡ pool.free_cnt
  pub end : pool.tail ≡ last_of pool.chain

last_of-snoc : (c : List ℕ) (b : ℕ) → last_of (c ++ b ∷ []) ≡ some b
unfolding last_of
last_of-snoc [] b = refl
last_of-snoc (x ∷ []) b = refl
last_of-snoc (x ∷ y ∷ c) b = last_of-snoc (y ∷ c) b

-- A chain with no last block is empty.
pub last_of-none : (c : List ℕ) → last_of c ≡ none → c ≡ []
unfolding last_of
last_of-none [] e = refl
last_of-none (x ∷ []) e = ground arith
last_of-none (x ∷ y ∷ c) e = ground (arith, last_of-none (y ∷ c) e)

pub last_of-append : (c d : List ℕ) (b : ℕ) → last_of (c ++ b ∷ d) ≡ last_of (b ∷ d)
unfolding last_of
last_of-append [] d b = refl
last_of-append (x ∷ []) d b = refl
last_of-append (x ∷ y ∷ c) d b = last_of-append (y ∷ c) d b

append_blck-chain :
    (pool : Pool) (b : ℕ)
    → pool.tail ≡ last_of pool.chain
    → (append_blck pool b).chain ≡ pool.chain ++ b ∷ []
unfolding append_blck
append_blck-chain pool b e = ground (arith, last_of-none pool.chain)

append_blck-tail :
    (pool : Pool) (b : ℕ)
    → pool.tail ≡ last_of pool.chain
    → (append_blck pool b).tail ≡ last_of (append_blck pool b).chain
unfolding append_blck
append_blck-tail pool b e =
    sym (ap last_of (append_blck-chain pool b e) ∙ last_of-snoc pool.chain b)

one_longer : (c : List ℕ) (b k : ℕ) → length (c ++ b ∷ []) + k ≡ length c + (k + 1)
one_longer c b k = omega (arith, length-append c (b ∷ []))

counted :
    (n : ℕ) (mem : List ℕ) (k : ℕ) → k ≡ min n (length mem) → k + 1 ≡ min (suc n) (suc (length mem))
counted n mem k e = ground arith

-- The loop moves blocks from the allocator to the end of the chain, until it has enough or there are none.
pub record Grown (n : ℕ) (mem : List ℕ) (pool : Pool) (r : Pool × List ℕ × ℕ) : Type 0 where
  pub chain_mem : r.0.chain ++ r.1 ≡ pool.chain ++ mem
  pub tail_last : r.0.tail ≡ last_of r.0.chain
  pub longer : length r.0.chain ≡ length pool.chain + r.2
  pub moved : r.2 ≡ min n (length mem)
  pub same_free : r.0.free_cnt ≡ pool.free_cnt
  pub same_used : r.0.used_cnt ≡ pool.used_cnt
  pub same_body : r.0.body_len ≡ pool.body_len

pub grow_loop-Grown :
    (n : ℕ) (mem : List ℕ) (pool : Pool)
    → pool.tail ≡ last_of pool.chain
    → Grown n mem pool (grow_loop n mem pool)
unfolding grow_loop append_blck
grow_loop-Grown zero mem pool e = record {
  chain_mem = refl;
  tail_last = e;
  longer = omega arith;
  moved = omega arith;
  same_free = refl;
  same_used = refl;
  same_body = refl;
}
grow_loop-Grown (suc n) [] pool e = record {
  chain_mem = refl;
  tail_last = e;
  longer = omega arith;
  moved = ground arith;
  same_free = refl;
  same_used = refl;
  same_body = refl;
}
grow_loop-Grown (suc n) (b ∷ mem) pool e =
    let r = grow_loop-Grown n mem (append_blck pool b) (append_blck-tail pool b e) in
    let c = append_blck-chain pool b e in
    record {
      chain_mem = r.chain_mem ∙ ap (λ x. x ++ mem) c ∙ append_assoc pool.chain (b ∷ []) mem;
      tail_last = r.tail_last;
      longer =
          r.longer
          ∙ ap (λ x. length x + (grow_loop n mem (append_blck pool b)).2) c
          ∙ one_longer pool.chain b (grow_loop n mem (append_blck pool b)).2;
      moved = counted n mem (grow_loop n mem (append_blck pool b)).2 r.moved;
      same_free = r.same_free;
      same_used = r.same_used;
      same_body = r.same_body;
    }

-- What `mblck_list_alloc` of `n` blocks does when it succeeds: the list has the first blocks of the chain
-- and the pool the others.
cut_chain-append : (n : ℕ) (c : List ℕ) → (cut_chain n c).0 ++ (cut_chain n c).1 ≡ c
unfolding cut_chain
cut_chain-append zero c = refl
cut_chain-append (suc n) [] = refl
cut_chain-append (suc n) (b ∷ c) = ap (λ x. b ∷ x) (cut_chain-append n c)

length-cut_chain : (n : ℕ) (c : List ℕ) → n ≤ length c → length (cut_chain n c).0 ≡ n
unfolding cut_chain
length-cut_chain zero c h = refl
length-cut_chain (suc n) [] h = absurd (omega arith)
length-cut_chain (suc n) (b ∷ c) h = ground (arith, length-cut_chain n c)

-- A list of the pool: its count is the length of its chain, its tail the last block, and its items fit.
pub record IsList (list : Blist) : Type 0 where
  pub count : length list.chain ≡ list.blck_cnt
  pub end : list.tail ≡ last_of list.chain

-- The list and the pool after an allocation of `n` blocks from the blocks `chain`.
pub record Taken (n : ℕ) (chain : List ℕ) (used : ℕ) (pool : Pool) (list : Blist) : Type 0 where
  pub valid : IsValid pool
  pub is_list : IsList list
  pub conserved : list.chain ++ pool.chain ≡ chain
  pub wanted : list.blck_cnt ≡ n
  pub used_more : pool.used_cnt ≡ used + n

tail_behind :
    (front back c : List ℕ) (t : Option ℕ)
    → t ≡ last_of c
    → front ++ back ≡ c
    → (elim back [ [] ↦ none | b ∷ bs ↦ t ]) ≡ last_of back
unfolding last_of
tail_behind front [] c t e f = refl
tail_behind front (b ∷ bs) c t e f = e ∙ sym (ap last_of f) ∙ last_of-append front bs b

length_behind :
    (n k : ℕ) (front back c : List ℕ)
    → front ++ back ≡ c
    → length front ≡ n
    → length c ≡ k
    → length back ≡ k - n
length_behind n k front back c e f g = omega (arith, ap length e, length-append front back)

pub take_blcks-Taken :
    (pool : Pool) (n item_len item_cnt : ℕ)
    → IsValid pool
    → n ≤ pool.free_cnt
    → Taken n pool.chain pool.used_cnt
        (take_blcks pool n item_len item_cnt).0
        (take_blcks pool n item_len item_cnt).1
unfolding take_blcks
take_blcks-Taken pool n item_len item_cnt v h =
    let front = (cut_chain n pool.chain).0 in
    let back = (cut_chain n pool.chain).1 in
    let whole = cut_chain-append n pool.chain in
    let len = length-cut_chain n pool.chain (subst (λ k. n ≤ k) (sym v.count) h) in
    record {
      valid = record {
        count = length_behind n pool.free_cnt front back pool.chain whole len v.count;
        end = tail_behind front back pool.chain pool.tail v.end whole;
      };
      is_list = record { count = len; end = refl };
      conserved = whole;
      wanted = refl;
      used_more = refl;
    }
