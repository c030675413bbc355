-- ===== src/Btree/Diff.antt =====
-- engines/default/coll_btree.c: the arithmetic on binary keys.
use arcus_memcached.Prelude.{
  ℕ, zero, suc, ◌+◌, ◌-◌, ◌*◌, ◌^◌, ◌<◌, ◌≤◌, ◌≡◌, refl, sym, ap, ◌∙◌, subst, Bool, true, false,
  not, List, [], ◌∷◌, length, length-append, length-replicate, ◌++◌, take, replicate, ltb, leb,
  if◌then◌else◌, arith, if_cases, Bool-cases, inl, inr, ◌==◌,
}
use arcus_memcached.Btree.Order.{holds}
use arcus_memcached.Btree.{ge, binary_comp, diff_loop, decr_loop, binary_decr, padded, binary_diff}

-- The number of a binary, its first byte the highest.
unfoldable pub value : List ℕ → ℕ
value [] = 0
value (x ∷ xs) = x * 256 ^ length xs + value xs

unfoldable pub Bytes : List ℕ → Type 0
Bytes [] = Unit
Bytes (x ∷ xs) = (x < 256) × Bytes xs

pow_suc : (n : ℕ) → 256 * 256 ^ n ≡ 256 ^ suc n
pow_suc n = grind arith

-- One digit of a subtraction: `s` is the borrow that comes in, `t` the one that goes out.
digit_step :
    (b d y s x t vr vx vy : ℕ)
    → d + y + s ≡ x + 256 * t
    → vr + vy ≡ vx + s * b
    → d * b + vr + (y * b + vy) ≡ x * b + vx + t * (256 * b)
digit_step b d y s x t vr vx vy h k = grind (arith, ap (λ z. z * b) h, k)

abbrev bit : Bool → ℕ
bit b = if b then 1 else 0

-- What a loop has made of the digits: those of a subtraction, with the borrow that goes out.
record Subtracted (n v1 v2 : ℕ) (r : List ℕ × Bool) : Type 0 where
  size : length (r.0) ≡ n
  bytes : Bytes (r.0)
  sum : value (r.0) + v2 ≡ v1 + bit (r.1) * 256 ^ n

cons_digit :
    (d x y n : ℕ) (s t : Bool) (rest : List ℕ) (v1 v2 : ℕ)
    → d + y + bit s ≡ x + 256 * bit t
    → d < 256
    → Subtracted n v1 v2 (rest, s)
    → Subtracted (suc n) (x * 256 ^ n + v1) (y * 256 ^ n + v2) (d ∷ rest, t)
unfolding value Bytes
cons_digit d x y n s t rest v1 v2 h b r = record {
  size = ap suc r.size;
  bytes = (b, r.bytes);
  sum =
      ap (λ m. d * 256 ^ m + value rest + (y * 256 ^ n + v2)) r.size
      ∙ digit_step (256 ^ n) d y (bit s) x (bit t) (value rest) v1 v2 h r.sum
      ∙ ap (λ m. x * 256 ^ n + v1 + bit t * m) (pow_suc n);
}

Subtracted-nil : Subtracted 0 0 0 ([], false)
unfolding value Bytes
Subtracted-nil = record { size = refl; bytes = tt; sum = refl }

diff_loop-Subtracted :
    (xs ys : List ℕ)
    → Bytes xs
    → Bytes ys
    → length xs ≡ length ys
    → Subtracted (length xs) (value xs) (value ys) (diff_loop xs ys)
unfolding diff_loop Bytes value
diff_loop-Subtracted [] [] a b h = Subtracted-nil
diff_loop-Subtracted [] (y ∷ ys) a b h = absurd (omega arith)
diff_loop-Subtracted (x ∷ xs) [] a b h = absurd (omega arith)
diff_loop-Subtracted (x ∷ xs) (y ∷ ys) (p, a) (q, b) h =
    subst
      (λ m.
        Subtracted (suc (length xs)) (x * 256 ^ length xs + value xs) (y * 256 ^ m + value ys)
          (diff_loop (x ∷ xs) (y ∷ ys)))
      e (by_digit (diff_loop xs ys) (diff_loop-Subtracted xs ys a b e))
  where
    e : length xs ≡ length ys
    e = omega arith

    by_digit :
        (r : List ℕ × Bool)
        → Subtracted (length xs) (value xs) (value ys) r
        → Subtracted
            (suc (length xs))
            (x * 256 ^ length xs + value xs)
            (y * 256 ^ length xs + value ys)
            (if not (r.1)
              then (if leb y x then ((x - y) ∷ r.0, false) else ((255 - y + x + 1) ∷ r.0, true))
              else (if ltb y x then ((x - y - 1) ∷ r.0, false) else ((255 - y + x) ∷ r.0, true)))
    by_digit (rest, false) r =
        if_cases
          (Subtracted (suc (length xs)) (x * 256 ^ length xs + value xs)
            (y * 256 ^ length xs + value ys))
          (leb y x) _ _
          (λ g.
            cons_digit (x - y) x y (length xs) false false rest _ _ (ground arith) (omega arith) r)
          (λ g.
            cons_digit (255 - y + x + 1) x y (length xs) false true rest _ _ (ground arith)
              (ground arith) r)
    by_digit (rest, true) r =
        if_cases
          (Subtracted (suc (length xs)) (x * 256 ^ length xs + value xs)
            (y * 256 ^ length xs + value ys))
          (ltb y x) _ _
          (λ g.
            cons_digit (x - y - 1) x y (length xs) true false rest _ _ (ground arith) (omega arith)
              r)
          (λ g.
            cons_digit (255 - y + x) x y (length xs) true true rest _ _ (ground arith)
              (ground arith) r)

digit_bound : (x b v : ℕ) → x < 256 → v < b → x * b + v < 256 * b
digit_bound x b v h k = grind (arith, k, mul_le x b h)
  where
    mul_le : (x b : ℕ) → x < 256 → x * b ≤ 255 * b
    mul_le x b h = grind arith

pub value-bound : (v : List ℕ) → Bytes v → value v < 256 ^ length v
unfolding value Bytes
value-bound [] h = omega arith
value-bound (x ∷ xs) (b, h) =
    subst (λ m. x * 256 ^ length xs + value xs < m) (pow_suc (length xs))
      (digit_bound x (256 ^ length xs) (value xs) b (value-bound xs h))

no_borrow :
    (n v1 v2 : ℕ) (r : List ℕ × Bool) → Subtracted n v1 v2 r → v2 ≤ v1 → value (r.0) + v2 ≡ v1
no_borrow n v1 v2 (rest, false) r h = omega (arith, r.sum)
no_borrow n v1 v2 (rest, true) r h =
    absurd
      (omega (arith, r.sum, subst (λ m. value rest < 256 ^ m) r.size (value-bound rest r.bytes)))

take_all : (n : ℕ) (xs : List ℕ) → length xs ≡ n → take n xs ≡ xs
take_all zero [] h = refl
take_all zero (x ∷ xs) h = absurd (omega arith)
take_all (suc n) [] h = absurd (omega arith)
take_all (suc n) (x ∷ xs) h = ap (λ t. x ∷ t) (take_all n xs (omega arith))

Bytes-append : (xs ys : List ℕ) → Bytes xs → Bytes ys → Bytes (xs ++ ys)
unfolding Bytes
Bytes-append [] ys a b = b
Bytes-append (x ∷ xs) ys (p, a) b = (p, Bytes-append xs ys a b)

Bytes-zeros : (n : ℕ) → Bytes (replicate n 0)
unfolding Bytes
Bytes-zeros zero = tt
Bytes-zeros (suc n) = (ground arith, Bytes-zeros n)

padded-Bytes :
    (n : ℕ) (v : List ℕ) → length v ≤ n → Bytes v → Bytes (padded n v) × (length (padded n v) ≡ n)
padded-Bytes n v h b =
    if_cases (λ w. Bytes w × (length w ≡ n)) (ltb (length v) n) _ _
      (λ g. (
        Bytes-append v (replicate (n - length v) 0) b (Bytes-zeros (n - length v)),
        omega (
          arith,
          length-append v (replicate (n - length v) 0),
          length-replicate {A = ℕ} (n - length v) 0,
        ),
      ))
      (λ g. (b, ground arith))

digit_order : (x y b v w : ℕ) → y < x → w < b → y * b + w ≤ x * b + v
digit_order x y b v w h k = grind (arith, mul_more x y b h)
  where
    mul_more : (x y b : ℕ) → y < x → y * b + b ≤ x * b
    mul_more x y b h = grind arith

same_digit : (x y b v w : ℕ) → x ≡ y → w ≤ v → y * b + w ≤ x * b + v
same_digit x y b v w h k = omega (arith, ap (λ z. z * b) h)

value-zeros : (n : ℕ) → value (replicate n 0) ≡ 0
unfolding value
value-zeros zero = refl
value-zeros (suc n) = omega (arith, value-zeros n)

padded-nil : (n : ℕ) → value (padded n []) ≡ 0
padded-nil n =
    if_cases (λ w. value w ≡ 0) (ltb 0 n) _ _ (λ g. value-zeros (n - 0)) (λ g. value-zeros 0)

padded-cons : (n x : ℕ) (v : List ℕ) → padded (suc n) (x ∷ v) ≡ x ∷ padded n v
padded-cons n x v = ground arith

-- What the code takes the comparison of two keys for: the order of their numbers.
value-order :
    (v w : List ℕ) (n : ℕ)
    → Bytes v
    → Bytes w
    → length v ≤ n
    → length w ≤ n
    → holds ge (binary_comp v w) ≡ true
    → value (padded n w) ≤ value (padded n v)
unfolding binary_comp Bytes value
value-order v [] n a b h k g = omega (arith, padded-nil n)
value-order [] (y ∷ ys) n a b h k g = absurd (ground arith)
value-order (x ∷ xs) (y ∷ ys) zero a b h k g = absurd (omega arith)
value-order (x ∷ xs) (y ∷ ys) (suc n) (p, a) (q, b) h k g =
    let (a', h') = padded-Bytes n xs (omega arith) a in
    let (b', k') = padded-Bytes n ys (omega arith) b in
    rw (padded-cons n x xs, padded-cons n y ys, h', k')
      (elim (Bool-cases (x == y)) [
        | inl e ↦
            same_digit x y (256 ^ n) _ _ (ground arith)
              (value-order xs ys n a b (omega arith) (omega arith) (ground arith))
        | inr e ↦
            digit_order x y (256 ^ n) (value (padded n xs)) (value (padded n ys)) (ground arith)
              (subst (λ m. value (padded n ys) < 256 ^ m) k' (value-bound (padded n ys) b'))
      ])

-- The difference of two binary keys, each followed by zeros up to a length, has that length, and is the
-- difference of their numbers, where the first does not compare as the smaller.
pub binary_diff-value :
    (v1 v2 : List ℕ) (n : ℕ)
    → Bytes v1
    → Bytes v2
    → length v1 ≤ n
    → length v2 ≤ n
    → holds ge (binary_comp v1 v2) ≡ true
    → (length (binary_diff v1 v2 n) ≡ n)
      × (value (binary_diff v1 v2 n) ≡ value (padded n v1) - value (padded n v2))
unfolding binary_diff
binary_diff-value v1 v2 n a b h k le =
    let (a', h') = padded-Bytes n v1 h a in
    let (b', k') = padded-Bytes n v2 k b in
    let r = diff_loop (take n (padded n v1)) (take n (padded n v2)) in
    let s : Subtracted n (value (padded n v1)) (value (padded n v2)) r =
      rw (take_all n (padded n v1) h', take_all n (padded n v2) k')
        (subst
          (λ m.
            Subtracted m (value (padded n v1)) (value (padded n v2))
              (diff_loop (padded n v1) (padded n v2)))
          h' (diff_loop-Subtracted (padded n v1) (padded n v2) a' b' (h' ∙ sym k'))) in
    (s.size, omega (arith, no_borrow n _ _ r s (value-order v1 v2 n a b h k le)))

decr_loop-Subtracted : (v : List ℕ) → Bytes v → Subtracted (length v) (value v) 1 (decr_loop v)
unfolding decr_loop value Bytes
decr_loop-Subtracted [] h = record { size = refl; bytes = tt; sum = refl }
decr_loop-Subtracted (x ∷ xs) (b, h) =
    subst
      (λ m. Subtracted (suc (length xs)) (x * 256 ^ length xs + value xs) m (decr_loop (x ∷ xs)))
      (no_digit (256 ^ length xs)) (by_digit (decr_loop xs) (decr_loop-Subtracted xs h))
  where
    no_digit : (b : ℕ) → 0 * b + 1 ≡ 1
    no_digit b = omega arith

    by_digit :
        (r : List ℕ × Bool)
        → Subtracted (length xs) (value xs) 1 r
        → Subtracted (suc (length xs)) (x * 256 ^ length xs + value xs) (0 * 256 ^ length xs + 1) (
            if not (r.1)
            then (x ∷ r.0, false)
            else if ltb 0 x
            then ((x - 1) ∷ r.0, false)
            else (255 ∷ r.0, true))
    by_digit (rest, false) r = cons_digit x x 0 (length xs) false false rest _ _ (omega arith) b r
    by_digit (rest, true) r =
        if_cases
          (Subtracted (suc (length xs)) (x * 256 ^ length xs + value xs) (0 * 256 ^ length xs + 1))
          (ltb 0 x) _ _
          (λ g.
            cons_digit (x - 1) x 0 (length xs) true false rest _ _ (ground arith) (omega arith) r)
          (λ g. cons_digit 255 x 0 (length xs) true true rest _ _ (ground arith) (ground arith) r)

-- A decrement of a binary key keeps its length and takes one from its number, where that is not 0.
pub binary_decr-value :
    (v : List ℕ)
    → Bytes v
    → 0 < value v
    → (length (binary_decr v) ≡ length v) × (value (binary_decr v) ≡ value v - 1)
unfolding binary_decr
binary_decr-value v h p =
    let s = decr_loop-Subtracted v h in
    (s.size, omega (arith, no_borrow (length v) (value v) 1 (decr_loop v) s (omega arith)))
