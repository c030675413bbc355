-- ===== src/Mblck.antt =====
-- mc_util.c: the pools of memory blocks and the block lists that are taken from them.
mod Account
pub mod Alloc
mod Tests
use arcus_memcached.Prelude.{
  ℕ, zero, suc, ◌+◌, ◌-◌, ◌*◌, ◌/◌, ◌%◌, ◌^◌, Bool, true, false, ◌||◌, not, Option, none, some,
  List, [], ◌∷◌, ◌++◌, length, get_or, ltb, ◌==◌, if◌then◌else◌,
}

-- `mblck_pool_t`: the chain of its free blocks from `head`, by their addresses, and the pointer to the last.
pub record Pool : Type 0 where
  pub chain : List ℕ
  pub tail : Option ℕ
  pub blck_len : ℕ
  pub body_len : ℕ
  pub used_cnt : ℕ
  pub free_cnt : ℕ

-- `mblck_list_t`: `pool` says whether the pointer is set.
pub record Blist : Type 0 where
  pub pool : Bool
  pub chain : List ℕ
  pub tail : Option ℕ
  pub blck_cnt : ℕ
  pub body_len : ℕ
  pub item_cnt : ℕ
  pub item_len : ℕ

-- `do_mblck_pool_init`, with a pointer of eight bytes.
pub do_mblck_pool_init : ℕ → Pool
do_mblck_pool_init blck_len = record {
  chain = [];
  tail = none;
  blck_len = blck_len;
  body_len = (blck_len + 2 ^ 32 - 8) % 2 ^ 32;
  used_cnt = 0;
  free_cnt = 0;
}

-- A block at the end of the chain: `if (pool->tail) pool->tail->next = blck_ptr; else pool->head = blck_ptr`.
pub append_blck : Pool → ℕ → Pool
append_blck pool blck = record pool {
  chain = elim pool.tail [ none ↦ blck ∷ [] | some last ↦ pool.chain ++ blck ∷ [] ];
  tail = some blck;
}

-- The loop of `do_mblck_pool_grow`. `mem` are the blocks that `malloc` gives, one after the other; after
-- them it gives NULL. The result is the pool, the memory that is left and the count.
pub grow_loop : ℕ → List ℕ → Pool → Pool × List ℕ × ℕ
unfolding append_blck
grow_loop zero mem pool = (pool, mem, 0)
grow_loop (suc n) [] pool = (pool, [], 0)
grow_loop (suc n) (blck ∷ mem) pool =
    let (pool', mem', count) = grow_loop n mem (append_blck pool blck) in (pool', mem', count + 1)

-- `do_mblck_pool_grow`
pub do_mblck_pool_grow : List ℕ → Pool → ℕ → Pool × List ℕ × ℕ
unfolding grow_loop
do_mblck_pool_grow mem pool blck_cnt =
    let (pool', mem', count) = grow_loop blck_cnt mem pool in
    (record pool' { free_cnt = pool'.free_cnt + count }, mem', count)

-- `do_mblck_pool_final`: the pool, and the blocks that it gives back.
pub do_mblck_pool_final : Pool → Pool × List ℕ
do_mblck_pool_final pool =
    (record pool { chain = []; tail = none; blck_len = 0; body_len = 0; free_cnt = 0 }, pool.chain)

-- `mblck_pool_create`: whether it returns 0, the pool, and the memory that is left.
pub mblck_pool_create : List ℕ → ℕ → ℕ → Bool × Pool × List ℕ
unfolding do_mblck_pool_grow do_mblck_pool_init do_mblck_pool_final
mblck_pool_create mem blck_len blck_cnt =
    let (pool, mem', count) = do_mblck_pool_grow mem (do_mblck_pool_init blck_len) blck_cnt in
    let (gone, back) = do_mblck_pool_final pool in
    if ltb count blck_cnt then (false, gone, back ++ mem') else (true, pool, mem')

-- `mblck_pool_destroy` of a pool with no used block
pub mblck_pool_destroy : Pool → Pool × List ℕ
mblck_pool_destroy pool = do_mblck_pool_final pool

-- The walk of `mblck_list_alloc` along the chain: the first blocks, and those behind them.
pub cut_chain : ℕ → List ℕ → List ℕ × List ℕ
cut_chain zero chain = ([], chain)
cut_chain (suc n) [] = ([], [])
cut_chain (suc n) (blck ∷ chain) = let (front, back) = cut_chain n chain in (blck ∷ front, back)

-- The last block of a chain.
pub last_of : List ℕ → Option ℕ
last_of [] = none
last_of (blck ∷ []) = some blck
last_of (blck ∷ next ∷ chain) = last_of (next ∷ chain)

-- `nitems_per_blck = body_len / item_len` and `((item_cnt-1) / nitems_per_blck) + 1`, with the wraps of `uint32_t`;
-- `none` where one of them divides by zero.
pub blcks_needed : Pool → ℕ → ℕ → Option ℕ
blcks_needed pool item_len item_cnt =
    let nitems_per_blck = pool.body_len / item_len in
    if item_len == 0 || nitems_per_blck == 0
    then none
    else some (((item_cnt + 2 ^ 32 - 1) % 2 ^ 32 / nitems_per_blck + 1) % 2 ^ 32)

-- The rest of `mblck_list_alloc`, when the pool has the blocks.
pub take_blcks : Pool → ℕ → ℕ → ℕ → Pool × Blist
take_blcks pool blck_cnt item_len item_cnt =
    let (front, back) = cut_chain blck_cnt pool.chain in
    (
      record pool {
        chain = back;
        tail = elim back [ [] ↦ none | b ∷ bs ↦ pool.tail ];
        used_cnt = pool.used_cnt + blck_cnt;
        free_cnt = pool.free_cnt - blck_cnt;
      },
      record {
        pool = true;
        chain = front;
        tail = last_of front;
        blck_cnt = blck_cnt;
        body_len = pool.body_len / item_len * item_len;
        item_cnt = item_cnt;
        item_len = item_len;
      },
    )

-- `mblck_list_alloc` of one block or more: the pool, the list unless it returns -1, and the memory that is left.
pub alloc_blcks : List ℕ → Pool → ℕ → ℕ → ℕ → Pool × Option Blist × List ℕ
alloc_blcks mem pool blck_cnt item_len item_cnt =
    let need_cnt = blck_cnt - pool.free_cnt in
    let (grown, mem', count) = do_mblck_pool_grow mem pool need_cnt in
    let (p, l) = take_blcks pool blck_cnt item_len item_cnt in
    let (p', l') = take_blcks grown blck_cnt item_len item_cnt in
    if ltb pool.free_cnt blck_cnt
    then (if ltb count need_cnt then (grown, none, mem') else (p', some l', mem'))
    else (p, some l, mem)

-- `mblck_list_alloc`; `none` where it divides by zero or reads through NULL. Where the count has wrapped to 0, the
-- list takes the first block all the same: `list->blck_cnt` starts at 1.
pub mblck_list_alloc : List ℕ → Pool → ℕ → ℕ → Option (Pool × Option Blist × List ℕ)
mblck_list_alloc mem pool item_len item_cnt = elim (blcks_needed pool item_len item_cnt) [
  | none ↦ none
  | some zero ↦
      let (p, l) = take_blcks pool 1 item_len item_cnt in
      elim pool.chain [ [] ↦ none | b ∷ bs ↦ some (p, some l, mem) ]
  | some (suc n) ↦ some (alloc_blcks mem pool (suc n) item_len item_cnt)
]

-- `mblck_list_merge`: the two lists after it.
pub mblck_list_merge : Blist → Blist → Blist × Blist
mblck_list_merge pri add = (
  record pri {
    chain = pri.chain ++ add.chain;
    tail = add.tail;
    blck_cnt = pri.blck_cnt + add.blck_cnt;
  },
  record add { chain = []; tail = none; blck_cnt = 0 },
)

-- `mblck_list_free`: the pool and the list after it.
pub mblck_list_free : Pool → Blist → Pool × Blist
mblck_list_free pool list =
    if ltb 0 list.blck_cnt
    then (
      record pool {
        chain = list.chain ++ pool.chain;
        tail = elim pool.tail [ none ↦ list.tail | some last ↦ some last ];
        used_cnt = pool.used_cnt - list.blck_cnt;
        free_cnt = pool.free_cnt + list.blck_cnt;
      },
      record list { pool = false; chain = []; tail = none; blck_cnt = 0 },
    )
    else (pool, record list { pool = false })

-- The walk of `check_sblock_tail_string` to the block before the last.
walk_blcks : ℕ → List (List ℕ) → List ℕ
walk_blcks n [] = []
walk_blcks zero (b ∷ bs) = b
walk_blcks (suc n) (b ∷ bs) = walk_blcks n bs

-- `check_sblock_tail_string` of the bodies of the blocks: whether the string ends with "\r\n".
pub check_sblock_tail_string : List (List ℕ) → ℕ → ℕ → Bool
unfolding walk_blcks
check_sblock_tail_string bodies bodylen len =
    let numblks = length bodies in
    let lastlen = if ltb 0 (len % bodylen) then len % bodylen else bodylen in
    let tailblk = walk_blcks (numblks - 1) bodies in
    let before = walk_blcks (numblks - 2) bodies in
    let last = lastlen - 1 in
    if get_or tailblk last 0 == 10
    then (if last == 0
        then get_or before (bodylen - 1) 0 == 13
        else get_or tailblk (last - 1) 0 == 13)
    else false
