-- ===== src/Btree/Order.antt =====
-- engines/default/coll_btree.c: the order of the keys.
use arcus_memcached.Prelude.{
  ℕ, zero, suc, ◌≡◌, refl, ap, Bool, true, false, List, [], ◌∷◌, ℤ, pos, negsuc, arith,
}
use arcus_memcached.Btree.{
  Bkey, uint64, binary, CompareOp, eq, ne, lt, le, gt, ge, uint64_comp, uint64_compare_op,
  binary_comp, all_equal, some_differ, binary_iseq, binary_isne, binary_islt, binary_isle,
  binary_isgt, binary_isge, binary_compare_op, bkey_comp, bkey_is,
}

-- What a comparison operation says of a result that is -1, 0 or 1.
abbrev pub holds : CompareOp → ℤ → Bool
holds eq (pos zero) = true
holds eq _ = false
holds ne (pos zero) = false
holds ne _ = true
holds lt (negsuc n) = true
holds lt (pos n) = false
holds le (negsuc n) = true
holds le (pos zero) = true
holds le (pos (suc n)) = false
holds gt (pos (suc n)) = true
holds gt _ = false
holds ge (negsuc n) = false
holds ge (pos n) = true

uint64_compare_op-holds :
    (op : CompareOp) (a b : ℕ) → uint64_compare_op op a b ≡ holds op (uint64_comp a b)
unfolding uint64_compare_op uint64_comp
uint64_compare_op-holds op a b = ground arith

pub binary_compare_op-holds :
    (op : CompareOp) (v w : List ℕ) → binary_compare_op op v w ≡ holds op (binary_comp v w)
unfolding binary_compare_op binary_comp binary_iseq binary_isne binary_islt binary_isle binary_isgt
    binary_isge all_equal some_differ
binary_compare_op-holds op [] [] = ground arith
binary_compare_op-holds op [] (y ∷ ys) = ground arith
binary_compare_op-holds op (x ∷ xs) [] = ground arith
binary_compare_op-holds op (x ∷ xs) (y ∷ ys) = ground (arith, binary_compare_op-holds op xs ys)

-- On keys of every kind, the macro of a comparison says what the three-way comparison says.
pub bkey_is-holds : (op : CompareOp) (k1 k2 : Bkey) → bkey_is op k1 k2 ≡ holds op (bkey_comp k1 k2)
unfolding bkey_is bkey_comp
bkey_is-holds op (uint64 v1) (uint64 v2) = uint64_compare_op-holds op v1 v2
bkey_is-holds op (uint64 v1) (binary v2) = binary_compare_op-holds op [] v2
bkey_is-holds op (binary v1) (uint64 v2) = binary_compare_op-holds op v1 []
bkey_is-holds op (binary v1) (binary v2) = binary_compare_op-holds op v1 v2

abbrev pub opposite : ℤ → ℤ
opposite (negsuc n) = pos 1
opposite (pos zero) = pos 0
opposite (pos (suc n)) = negsuc 0

abbrev pub is_binary : Bkey → Bool
is_binary (uint64 v) = false
is_binary (binary v) = true

pub binary_comp-swap : (v w : List ℕ) → binary_comp w v ≡ opposite (binary_comp v w)
unfolding binary_comp
binary_comp-swap [] [] = refl
binary_comp-swap [] (y ∷ ys) = refl
binary_comp-swap (x ∷ xs) [] = refl
binary_comp-swap (x ∷ xs) (y ∷ ys) = ground (arith, binary_comp-swap xs ys)

-- Two keys compare the other way round with the opposite result.
pub bkey_comp-swap : (k1 k2 : Bkey) → bkey_comp k2 k1 ≡ opposite (bkey_comp k1 k2)
unfolding bkey_comp uint64_comp
bkey_comp-swap (uint64 v1) (uint64 v2) = ground arith
bkey_comp-swap (uint64 v1) (binary v2) = binary_comp-swap [] v2
bkey_comp-swap (binary v1) (uint64 v2) = binary_comp-swap v1 []
bkey_comp-swap (binary v1) (binary v2) = binary_comp-swap v1 v2

pub binary_comp-zero : (v w : List ℕ) → binary_comp v w ≡ pos 0 → v ≡ w
unfolding binary_comp
binary_comp-zero [] [] h = refl
binary_comp-zero [] (y ∷ ys) h = absurd (ground arith)
binary_comp-zero (x ∷ xs) [] h = absurd (ground arith)
binary_comp-zero (x ∷ xs) (y ∷ ys) h = ground (arith, binary_comp-zero xs ys)

-- Two keys of one kind that compare as equal are equal.
pub bkey_comp-zero :
    (k1 k2 : Bkey) → is_binary k1 ≡ is_binary k2 → bkey_comp k1 k2 ≡ pos 0 → k1 ≡ k2
unfolding bkey_comp uint64_comp
bkey_comp-zero (uint64 v1) (uint64 v2) k h = ground arith
bkey_comp-zero (uint64 v1) (binary v2) k h = absurd (ground arith)
bkey_comp-zero (binary v1) (uint64 v2) k h = absurd (ground arith)
bkey_comp-zero (binary v1) (binary v2) k h = ap binary (binary_comp-zero v1 v2 h)

pub binary_comp_trans :
    (u v w : List ℕ)
    → holds lt (binary_comp u v) ≡ true
    → holds lt (binary_comp v w) ≡ true
    → holds lt (binary_comp u w) ≡ true
unfolding binary_comp
binary_comp_trans [] [] w h k = k
binary_comp_trans [] (y ∷ ys) [] h k = ground arith
binary_comp_trans [] (y ∷ ys) (z ∷ zs) h k = refl
binary_comp_trans (x ∷ xs) [] w h k = absurd (ground arith)
binary_comp_trans (x ∷ xs) (y ∷ ys) [] h k = absurd (ground arith)
binary_comp_trans (x ∷ xs) (y ∷ ys) (z ∷ zs) h k = ground (arith, binary_comp_trans xs ys zs)

-- Of three keys of one kind, if the first is less than the second, and that is less than the third, the first is
-- less than the third.
pub bkey_comp_trans :
    (k1 k2 k3 : Bkey)
    → is_binary k1 ≡ is_binary k2
    → is_binary k2 ≡ is_binary k3
    → holds lt (bkey_comp k1 k2) ≡ true
    → holds lt (bkey_comp k2 k3) ≡ true
    → holds lt (bkey_comp k1 k3) ≡ true
unfolding bkey_comp uint64_comp
bkey_comp_trans (uint64 a) (uint64 b) (uint64 c) e f h k = ground arith
bkey_comp_trans (binary u) (binary v) (binary w) e f h k = binary_comp_trans u v w h k
bkey_comp_trans (uint64 a) (binary v) k3 e f h k = absurd (ground arith)
bkey_comp_trans (binary u) (uint64 b) k3 e f h k = absurd (ground arith)
bkey_comp_trans (uint64 a) (uint64 b) (binary w) e f h k = absurd (ground arith)
bkey_comp_trans (binary u) (binary v) (uint64 c) e f h k = absurd (ground arith)
