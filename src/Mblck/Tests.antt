-- ===== src/Mblck/Tests.antt =====
-- mc_util.c: tests of the memory blocks, and the theorems at concrete inputs.
use arcus_memcached.Prelude.{none, false}
use arcus_memcached.Mblck.{check_sblock_tail_string}
use arcus_memcached.Prelude.{◌≡◌, refl, true, some, [], ◌∷◌}
use arcus_memcached.Mblck.{Pool, Blist, last_of, blcks_needed, mblck_list_free, mblck_pool_create}
use arcus_memcached.Mblck.Account.{IsValid, IsList}
use arcus_memcached.Mblck.Alloc.{Freed, mblck_list_free-Freed}

-- A pool of one block of 92 bytes, and memory for two more.
abbrev one_blck : Pool
one_blck = record {
  chain = 7 ∷ [];
  tail = some 7;
  blck_len = 100;
  body_len = 92;
  used_cnt = 2;
  free_cnt = 1;
}

abbrev two_blcks : Blist
two_blcks = record {
  pool = true;
  chain = 5 ∷ 6 ∷ [];
  tail = some 6;
  blck_cnt = 2;
  body_len = 90;
  item_cnt = 12;
  item_len = 15;
}

one_blck-IsValid : IsValid one_blck
unfolding last_of
one_blck-IsValid = record { count = refl; end = refl }

two_blcks-IsList : IsList two_blcks
unfolding last_of
two_blcks-IsList = record { count = refl; end = refl }

created : mblck_pool_create (1 ∷ 2 ∷ 3 ∷ []) 100 2 ≡ (
  true,
  record {
    chain = 1 ∷ 2 ∷ [];
    tail = some 2;
    blck_len = 100;
    body_len = 92;
    used_cnt = 0;
    free_cnt = 2;
  },
  3 ∷ [],
)
unfolding mblck_pool_create
created = refl

-- No item of a length that leaves one to a block wraps the count to 0; items longer than the body divide by zero.
counts :
    (blcks_needed one_blck 20 9 ≡ some 3)
    × (blcks_needed one_blck 92 0 ≡ some 0)
    × (blcks_needed one_blck 93 1 ≡ none)
    × (blcks_needed one_blck 0 1 ≡ none)
unfolding blcks_needed
counts = (refl, refl, refl, refl)

mblck_list_free-Freed_example : Freed one_blck two_blcks (mblck_list_free one_blck two_blcks)
mblck_list_free-Freed_example =
    mblck_list_free-Freed one_blck two_blcks one_blck-IsValid two_blcks-IsList

-- "ab\r\n" in blocks of three bytes
tail_found :
    (check_sblock_tail_string ((97 ∷ 98 ∷ 13 ∷ []) ∷ (10 ∷ 0 ∷ 0 ∷ []) ∷ []) 3 4 ≡ true)
    × (check_sblock_tail_string ((97 ∷ 98 ∷ 99 ∷ []) ∷ (10 ∷ 0 ∷ 0 ∷ []) ∷ []) 3 4 ≡ false)
unfolding check_sblock_tail_string
tail_found = (refl, refl)
