-- ===== src/Genhash/Tests.antt =====
-- genhash.c: a table of three buckets whose keys compare by their remainder.
use arcus_memcached.Prelude.{ℕ, ◌+◌, ◌%◌, ◌≡◌, refl, some, none, [], ◌∷◌, ◌==◌, arith}
use arcus_memcached.Genhash.{
  HashOps, Genhash, dup_key, dup_value, genhash_store, genhash_find_entry, genhash_find,
  genhash_update, genhash_delete, genhash_delete_all, genhash_size_for_key, genhash_size, slot,
}
use arcus_memcached.Genhash.Table.{IsValid, update_type, genhash_find-store, genhash_find-update}
use arcus_memcached.Genhash.Remove.{Cleared, genhash_delete_all-Cleared}

abbrev by_remainder : HashOps ℕ ℕ
by_remainder = record {
  hashfunc = λ k. k % 100;
  hasheq = λ a b. a % 100 == b % 100;
  dup_key_op = none;
  dup_value_op = none;
}

abbrev table : Genhash ℕ ℕ
table = record {
  ops = by_remainder;
  size = 3;
  buckets = [] ∷ ((4, 40) ∷ (7, 70) ∷ (4, 44) ∷ []) ∷ [] ∷ [];
}

table-IsValid : IsValid table
unfolding dup_key
table-IsValid = record {
  lawful = record {
    eq_refl = λ a. ground arith;
    eq_symm = λ a b. ground arith;
    eq_trans = λ a b c h k. ground arith;
    hash-eq = λ a b h. ground arith;
    eq-dup_key = λ a b. refl;
  };
  width = refl;
  roomy = omega arith;
}

run : Unit {0}
unfolding genhash_store genhash_find genhash_find_entry genhash_update genhash_delete
    genhash_delete_all genhash_size_for_key genhash_size dup_key dup_value slot
run = tt

-- The newest of two entries of one key is found, and deleting it brings the older one back.
find_runs : genhash_find (genhash_store table 7 71) 107 ≡ some 71
unfolding run
find_runs = refl

size_runs : genhash_size table + genhash_size_for_key table 104 ≡ 5
unfolding run
size_runs = refl

genhash_find-store_example : genhash_find (genhash_store table 7 71) 107 ≡ some 71
unfolding run
genhash_find-store_example = genhash_find-store table 7 107 71 table-IsValid

genhash_find-update_example :
    (genhash_find (genhash_update table 204 9).0 4 ≡ some 9)
    × ((genhash_update table 204 9).1 ≡ update_type (genhash_find table 204))
unfolding run
genhash_find-update_example = genhash_find-update table 204 4 9 table-IsValid

genhash_delete_all-Cleared_example :
    (r : Genhash ℕ ℕ × ℕ) × (genhash_delete_all 3 table 4 0 ≡ some r) × Cleared table 4 0 r
unfolding run
genhash_delete_all-Cleared_example =
    genhash_delete_all-Cleared 3 table 4 0 table-IsValid (omega arith)
