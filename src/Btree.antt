-- ===== src/Btree.antt =====
-- engines/default/coll_btree.c: the keys of b+tree elements and the filter on element flags.
pub mod Order
pub mod Tree
mod Diff
mod Filter
mod Tests
use arcus_memcached.Prelude.{
  ℕ, zero, suc, ◌+◌, ◌-◌, ◌*◌, ◌^◌, Bool, true, false, ◌&&◌, ◌||◌, not, Option, none, some, List,
  [], ◌∷◌, ◌++◌, length, take, drop, replicate, ltb, leb, ◌==◌, if◌then◌else◌, ℤ, pos, negsuc,
}
use Prim.Native.Nat.{bit_and, bit_or, bit_xor}

-- A bkey: a 64-bit number, where its length `nbkey` is 0, or a binary of one byte and more.
pub data Bkey : Type 0 where
  uint64 : ℕ → Bkey
  binary : List ℕ → Bkey

-- `ENGINE_COMPARE_OP`
pub data CompareOp : Type 0 where
  eq ne lt le gt ge : CompareOp

-- `ENGINE_BITWISE_OP`
pub data BitwiseOp : Type 0 where
  and or xor : BitwiseOp

-- `UINT64_COMP`; the results are -1, 0 and 1.
pub uint64_comp : ℕ → ℕ → ℤ
uint64_comp v1 v2 = if v1 == v2 then pos 0 else if ltb v1 v2 then negsuc 0 else pos 1

-- `UINT64_COMPARE_OP`, with `UINT64_ISEQ` to `UINT64_ISGE`
pub uint64_compare_op : CompareOp → ℕ → ℕ → Bool
uint64_compare_op eq v1 v2 = v1 == v2
uint64_compare_op ne v1 v2 = not (v1 == v2)
uint64_compare_op lt v1 v2 = ltb v1 v2
uint64_compare_op le v1 v2 = leb v1 v2
uint64_compare_op gt v1 v2 = ltb v2 v1
uint64_compare_op ge v1 v2 = leb v2 v1

-- `BINARY_COMP`: the loop over the bytes that both have, then the lengths.
unfoldable pub binary_comp : List ℕ → List ℕ → ℤ
binary_comp [] [] = pos 0
binary_comp [] (y ∷ ys) = negsuc 0
binary_comp (x ∷ xs) [] = pos 1
binary_comp (x ∷ xs) (y ∷ ys) =
    let rest = binary_comp xs ys in if x == y then rest else if ltb x y then negsuc 0 else pos 1

-- The loops of `BINARY_ISEQ` and `BINARY_ISNE`, over strings of one length.
all_equal : List ℕ → List ℕ → Bool
all_equal (x ∷ xs) (y ∷ ys) = let rest = all_equal xs ys in if not (x == y) then false else rest
all_equal _ _ = true

some_differ : List ℕ → List ℕ → Bool
some_differ (x ∷ xs) (y ∷ ys) = let rest = some_differ xs ys in if not (x == y) then true else rest
some_differ _ _ = false

-- `BINARY_ISEQ` and `BINARY_ISNE`
pub binary_iseq : List ℕ → List ℕ → Bool
unfolding all_equal
binary_iseq v1 v2 = if not (length v1 == length v2) then false else all_equal v1 v2

pub binary_isne : List ℕ → List ℕ → Bool
unfolding some_differ
binary_isne v1 v2 = if not (length v1 == length v2) then true else some_differ v1 v2

-- `BINARY_ISLT`, `BINARY_ISLE`, `BINARY_ISGT` and `BINARY_ISGE`
pub binary_islt : List ℕ → List ℕ → Bool
binary_islt (x ∷ xs) (y ∷ ys) = let rest = binary_islt xs ys in if x == y then rest else ltb x y
binary_islt v1 v2 = ltb (length v1) (length v2)

pub binary_isle : List ℕ → List ℕ → Bool
binary_isle (x ∷ xs) (y ∷ ys) = let rest = binary_isle xs ys in if x == y then rest else ltb x y
binary_isle v1 v2 = leb (length v1) (length v2)

pub binary_isgt : List ℕ → List ℕ → Bool
binary_isgt (x ∷ xs) (y ∷ ys) = let rest = binary_isgt xs ys in if x == y then rest else ltb y x
binary_isgt v1 v2 = ltb (length v2) (length v1)

pub binary_isge : List ℕ → List ℕ → Bool
binary_isge (x ∷ xs) (y ∷ ys) = let rest = binary_isge xs ys in if x == y then rest else ltb y x
binary_isge v1 v2 = leb (length v2) (length v1)

-- `BINARY_COMPARE_OP`
pub binary_compare_op : CompareOp → List ℕ → List ℕ → Bool
unfolding binary_iseq binary_isne binary_islt binary_isle binary_isgt binary_isge
binary_compare_op eq v1 v2 = binary_iseq v1 v2
binary_compare_op ne v1 v2 = binary_isne v1 v2
binary_compare_op lt v1 v2 = binary_islt v1 v2
binary_compare_op le v1 v2 = binary_isle v1 v2
binary_compare_op gt v1 v2 = binary_isgt v1 v2
binary_compare_op ge v1 v2 = binary_isge v1 v2

-- The bytes of a key, as the comparisons of binaries take them.
abbrev pub key_bytes : Bkey → List ℕ
key_bytes (uint64 v) = []
key_bytes (binary v) = v

-- `BKEY_COMP`, and the macros `BKEY_ISEQ` to `BKEY_ISGE`
pub bkey_comp : Bkey → Bkey → ℤ
unfolding uint64_comp binary_comp
bkey_comp (uint64 v1) (uint64 v2) = uint64_comp v1 v2
bkey_comp k1 k2 = binary_comp (key_bytes k1) (key_bytes k2)

pub bkey_is : CompareOp → Bkey → Bkey → Bool
unfolding uint64_compare_op binary_compare_op
bkey_is op (uint64 v1) (uint64 v2) = uint64_compare_op op v1 v2
bkey_is op k1 k2 = binary_compare_op op (key_bytes k1) (key_bytes k2)

-- `BINARY_BITWISE_OP`, with `BINARY_AND`, `BINARY_OR` and `BINARY_XOR`, over strings of one length
abbrev pub bitwise : BitwiseOp → ℕ → ℕ → ℕ
bitwise and x y = bit_and x y
bitwise or x y = bit_or x y
bitwise xor x y = bit_xor x y

pub binary_bitwise_op : BitwiseOp → List ℕ → List ℕ → List ℕ
binary_bitwise_op op (x ∷ xs) (y ∷ ys) = bitwise op x y ∷ binary_bitwise_op op xs ys
binary_bitwise_op op _ _ = []

-- The loop of `BINARY_DIFF`, from the last byte on: the difference, and `subtraction`.
pub diff_loop : List ℕ → List ℕ → List ℕ × Bool
diff_loop (x ∷ xs) (y ∷ ys) =
    let (rest, subtraction) = diff_loop xs ys in
    if not subtraction
    then (if leb y x then ((x - y) ∷ rest, false) else ((255 - y + x + 1) ∷ rest, true))
    else (if ltb y x then ((x - y - 1) ∷ rest, false) else ((255 - y + x) ∷ rest, true))
diff_loop _ _ = ([], false)

-- A binary, with zeros behind it up to a length.
abbrev pub padded : ℕ → List ℕ → List ℕ
padded n v = if ltb (length v) n then v ++ replicate (n - length v) 0 else v

-- `BINARY_DIFF`
pub binary_diff : List ℕ → List ℕ → ℕ → List ℕ
unfolding diff_loop
binary_diff v1 v2 n = (diff_loop (take n (padded n v1)) (take n (padded n v2))).0

-- The loop of `BINARY_DECR`, from the last byte on, and whether it still has to subtract.
pub decr_loop : List ℕ → List ℕ × Bool
decr_loop [] = ([], true)
decr_loop (x ∷ xs) =
    let (rest, more) = decr_loop xs in
    if not more
    then (x ∷ rest, false)
    else if ltb 0 x
    then ((x - 1) ∷ rest, false)
    else (255 ∷ rest, true)

-- `BINARY_DECR`
pub binary_decr : List ℕ → List ℕ
unfolding decr_loop
binary_decr v = (decr_loop v).0

-- `eflag_filter`: `bitwval` and `compval` have the lengths `nbitwval` and `ncompval * compvcnt`.
pub record EflagFilter : Type 0 where
  pub bitwval : List ℕ
  pub compval : List ℕ
  pub ncompval : ℕ
  pub compvcnt : ℕ
  pub offset : ℕ
  pub bitwop : BitwiseOp
  pub compop : CompareOp

abbrev pub is_eq : CompareOp → Bool
is_eq eq = true
is_eq _ = false

abbrev pub is_ne : CompareOp → Bool
is_ne ne = true
is_ne _ = false

-- The loop over the compare values: whether one of them equals the operand.
pub compare_loop : ℕ → ℕ → List ℕ → List ℕ → Bool
unfolding binary_iseq
compare_loop zero ncompval operand compval = false
compare_loop (suc n) ncompval operand compval =
    let rest = compare_loop n ncompval operand (drop ncompval compval) in
    if binary_iseq (take ncompval operand) (take ncompval compval) then true else rest

-- `MAX_EFLAG_LENG`, the length of `result`
abbrev pub max_eflag_leng : ℕ
max_eflag_leng = 31

-- `do_btree_elem_filter` on the flag of an element; `none` where the code writes behind the end of `result`, or
-- compares bytes of it that it has not written.
pub do_btree_elem_filter : List ℕ → EflagFilter → Option Bool
unfolding binary_bitwise_op compare_loop binary_compare_op
do_btree_elem_filter eflag f =
    if leb (length eflag) f.offset || ltb (length eflag - f.offset) f.ncompval
    then some (is_ne f.compop)
    else if ltb 0 (length f.bitwval)
        && (ltb (length f.bitwval) f.ncompval || ltb max_eflag_leng (length f.bitwval))
    then none
    else let operand = drop f.offset eflag in
      let operand' =
        if ltb 0 (length f.bitwval)
        then binary_bitwise_op f.bitwop operand f.bitwval
        else operand in
      some (
        if ltb 1 f.compvcnt
        then (if compare_loop f.compvcnt f.ncompval operand' f.compval
            then is_eq f.compop
            else not (is_eq f.compop))
        else binary_compare_op f.compop (take f.ncompval operand') (take f.ncompval f.compval))
