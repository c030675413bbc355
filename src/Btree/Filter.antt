-- ===== src/Btree/Filter.antt =====
-- engines/default/coll_btree.c: the filter on element flags.
use arcus_memcached.Prelude.{
  ℕ, zero, suc, ◌-◌, ◌≤◌, ◌≡◌, inl, inr, refl, ap, ap₂, ◌∙◌, Bool, true, false, ◌&&◌, ◌||◌, not,
  Option, none, some, List, [], ◌∷◌, length, take, drop, ltb, leb, ◌*◌, ◌<◌, ◌⊎◌, if◌then◌else◌,
  pos, same_bytes, arith, Bool-cases,
}
use arcus_memcached.Btree.{
  CompareOp, BitwiseOp, EflagFilter, max_eflag_leng, binary_comp, all_equal, binary_iseq,
  binary_compare_op, binary_bitwise_op, is_eq, is_ne, compare_loop, do_btree_elem_filter,
}
use arcus_memcached.Btree.Order.{holds, binary_compare_op-holds}

-- The compare values of a filter.
abbrev pub chunks : ℕ → ℕ → List ℕ → List (List ℕ)
chunks zero n xs = []
chunks (suc k) n xs = take n xs ∷ chunks k n (drop n xs)

abbrev pub contains : List ℕ → List (List ℕ) → Bool
contains m [] = false
contains m (x ∷ xs) = same_bytes m x || contains m xs

-- The bytes of the flag that a filter reads, if the flag has them.
abbrev pub slice : ℕ → ℕ → List ℕ → Option (List ℕ)
slice offset n eflag =
    if ltb offset (length eflag) && leb n (length eflag - offset)
    then some (take n (drop offset eflag))
    else none

abbrev pub masked : EflagFilter → List ℕ → List ℕ
masked f m = elim f.bitwval [ [] ↦ m | b ∷ bs ↦ binary_bitwise_op f.bitwop m (b ∷ bs) ]

-- What a filter asks of a flag.
abbrev pub passes : List ℕ → EflagFilter → Bool
passes eflag f = elim (slice f.offset f.ncompval eflag) [
  | none ↦ is_ne f.compop
  | some m ↦ holds f.compop (
      if ltb 1 f.compvcnt
      then (if contains (masked f m) (chunks f.compvcnt f.ncompval f.compval) then pos 0 else pos 1)
      else binary_comp (masked f m) (take f.ncompval f.compval))
]

binary_iseq-same_bytes : (v w : List ℕ) → binary_iseq v w ≡ same_bytes v w
unfolding binary_iseq all_equal
binary_iseq-same_bytes [] [] = refl
binary_iseq-same_bytes [] (y ∷ ys) = ground arith
binary_iseq-same_bytes (x ∷ xs) [] = ground arith
binary_iseq-same_bytes (x ∷ xs) (y ∷ ys) = ground (arith, binary_iseq-same_bytes xs ys)

compare_loop-contains :
    (k n : ℕ) (operand compval : List ℕ)
    → compare_loop k n operand compval ≡ contains (take n operand) (chunks k n compval)
unfolding compare_loop
compare_loop-contains zero n operand compval = refl
compare_loop-contains (suc k) n operand compval =
    rw
      (
        binary_iseq-same_bytes (take n operand) (take n compval),
        compare_loop-contains k n operand (drop n compval),
      )
      (ground arith)

take-bitwise :
    (op : BitwiseOp) (n : ℕ) (xs ys : List ℕ)
    → length ys ≤ n
    → take n (binary_bitwise_op op xs ys) ≡ binary_bitwise_op op (take n xs) ys
unfolding binary_bitwise_op
take-bitwise op zero xs (y ∷ ys) h = absurd (omega arith)
take-bitwise op zero [] [] h = refl
take-bitwise op zero (x ∷ xs) [] h = refl
take-bitwise op (suc n) [] ys h = refl
take-bitwise op (suc n) (x ∷ xs) [] h = refl
take-bitwise op (suc n) (x ∷ xs) (y ∷ ys) h =
    ap₂ (λ z t. z ∷ t) refl (take-bitwise op n xs ys (omega arith))

take-masked :
    (f : EflagFilter) (operand : List ℕ)
    → length f.bitwval ≤ f.ncompval
    → take f.ncompval
        (if ltb 0 (length f.bitwval) then binary_bitwise_op f.bitwop operand f.bitwval else operand)
      ≡ masked f (take f.ncompval operand)
take-masked f operand h = by_value f.bitwval h
  where
    some_byte : (n : ℕ) → ltb 0 (suc n) ≡ true
    some_byte n = ground arith

    by_value :
        (bw : List ℕ)
        → length bw ≤ f.ncompval
        → take f.ncompval
            (if ltb 0 (length bw) then binary_bitwise_op f.bitwop operand bw else operand)
          ≡ elim bw [
            | [] ↦ take f.ncompval operand
            | b ∷ bs ↦ binary_bitwise_op f.bitwop (take f.ncompval operand) (b ∷ bs)
          ]
    by_value [] h = refl
    by_value (b ∷ bs) h =
        rw (some_byte (length bs)) (take-bitwise f.bitwop f.ncompval operand (b ∷ bs) h)

found_or_not :
    (op : CompareOp) (found : Bool)
    → not (is_eq op || is_ne op) ≡ false
    → (if found then is_eq op else not (is_eq op)) ≡ holds op (if found then pos 0 else pos 1)
found_or_not op found h = ground arith

compared :
    (f : EflagFilter) (operand : List ℕ)
    → (ltb 1 f.compvcnt && not (is_eq f.compop || is_ne f.compop)) ≡ false
    → (if ltb 1 f.compvcnt
        then (if compare_loop f.compvcnt f.ncompval operand f.compval
            then is_eq f.compop
            else not (is_eq f.compop))
        else binary_compare_op f.compop (take f.ncompval operand) (take f.ncompval f.compval))
      ≡ holds f.compop (
          if ltb 1 f.compvcnt
          then (if contains (take f.ncompval operand) (chunks f.compvcnt f.ncompval f.compval)
              then pos 0
              else pos 1)
          else binary_comp (take f.ncompval operand) (take f.ncompval f.compval))
compared f operand k = elim (Bool-cases (ltb 1 f.compvcnt)) [
  | inl e ↦
      rw (e, compare_loop-contains f.compvcnt f.ncompval operand f.compval)
        (found_or_not f.compop _ (ground arith))
  | inr e ↦
      rw (e)
        (binary_compare_op-holds f.compop (take f.ncompval operand) (take f.ncompval f.compval))
]

-- A filter that the commands describe: the mask, if there is one, and the compare values have the length of the part
-- of the flag, which has a byte and fits a flag, and several values are compared for equality and inequality only.
pub record FilterValid (f : EflagFilter) : Type 0 where
  pub mask : (f.bitwval ≡ []) ⊎ (length f.bitwval ≡ f.ncompval)
  pub values : length f.compval ≡ f.ncompval * f.compvcnt
  pub nonempty : 0 < f.ncompval
  pub fits : f.ncompval ≤ max_eflag_leng
  pub counted : 0 < f.compvcnt
  pub op : (ltb 1 f.compvcnt && not (is_eq f.compop || is_ne f.compop)) ≡ false

-- The test of the mask finds no bytes that are not written, and none too many.
mask_written :
    (f : EflagFilter)
    → FilterValid f
    → (ltb 0 (length f.bitwval)
        && (ltb (length f.bitwval) f.ncompval || ltb max_eflag_leng (length f.bitwval)))
      ≡ false
mask_written f v = elim v.mask [
  | inl e ↦ ground (arith, ap length e)
  | inr e ↦ ground (arith, v.fits)
]

mask_short : (f : EflagFilter) → FilterValid f → length f.bitwval ≤ f.ncompval
mask_short f v = elim v.mask [ inl e ↦ omega (arith, ap length e) | inr e ↦ omega (arith) ]

-- A filter whose mask is empty or as long as one of its compare values, which are of 1 to 31 bytes each and all there,
-- at least one of them, and several only for equality and inequality, passes the flags that it describes: those whose
-- masked bytes compare as asked with the value, or are (or are not) among the values. A flag that does not have the
-- bytes passes an inequality only. Every byte that is compared has been written.
pub do_btree_elem_filter-passes :
    (eflag : List ℕ) (f : EflagFilter)
    → FilterValid f
    → do_btree_elem_filter eflag f ≡ some (passes eflag f)
unfolding do_btree_elem_filter
do_btree_elem_filter-passes eflag f v =
    elim (Bool-cases (leb (length eflag) f.offset || ltb (length eflag - f.offset) f.ncompval)) [
      | inl e ↦ rw (e, passes, no_slice e) refl
      | inr e ↦
          rw (e, mask_written f v, passes, a_slice e)
            (ap some (
              compared f
                (if ltb 0 (length f.bitwval)
                  then binary_bitwise_op f.bitwop (drop f.offset eflag) f.bitwval
                  else drop f.offset eflag)
                v.op
              ∙ ap
                  (λ m. holds f.compop (
                    if ltb 1 f.compvcnt
                    then (if contains m (chunks f.compvcnt f.ncompval f.compval)
                        then pos 0
                        else pos 1)
                    else binary_comp m (take f.ncompval f.compval)))
                  (take-masked f (drop f.offset eflag) (mask_short f v))))
    ]
  where
    no_slice :
        (leb (length eflag) f.offset || ltb (length eflag - f.offset) f.ncompval) ≡ true
        → (ltb f.offset (length eflag) && leb f.ncompval (length eflag - f.offset)) ≡ false
    no_slice e = ground arith

    a_slice :
        (leb (length eflag) f.offset || ltb (length eflag - f.offset) f.ncompval) ≡ false
        → (ltb f.offset (length eflag) && leb f.ncompval (length eflag - f.offset)) ≡ true
    a_slice e = ground arith
