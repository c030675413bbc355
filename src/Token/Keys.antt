-- ===== src/Token/Keys.antt =====
-- mc_util.c: `tokenize_keys` on joined keys, and `detokenize`.
use arcus_memcached.Prelude.{
  ℕ, zero, suc, ◌+◌, ◌-◌, ◌<◌, ◌≡◌, refl, sym, ap, ap₂, ◌∙◌, Bool, true, ◌&&◌, not, Option, none,
  some, List, [], ◌∷◌, ◌++◌, map, append-nil, append_assoc, length, length-append, take,
  take-append, drop-append, set, ltb, ◌==◌, if◌then◌else◌, arith,
}
use arcus_memcached.Token.{
  Token, space, push, keys_loop, tokenize_keys, text, total, written, detokenize,
}

-- The bytes of a key are neither the delimiter nor the space.
unfoldable pub clean : ℕ → List ℕ → Bool
clean d [] = true
clean d (c ∷ k) = let rest = clean d k in not (c == d) && not (c == space) && rest

-- A key has a byte and is clean.
unfoldable pub all_keys : ℕ → List (List ℕ) → Bool
unfolding clean
all_keys d [] = true
all_keys d (k ∷ ks) = let rest = all_keys d ks in not (length k == 0) && clean d k && rest

-- The keys with the delimiter between each two.
unfoldable pub join : ℕ → List (List ℕ) → List ℕ
join d [] = []
join d (k ∷ []) = k
join d (k ∷ next ∷ ks) = k ++ d ∷ join d (next ∷ ks)

-- Where the keys stand in the joined string.
spans : ℕ → List (List ℕ) → List Token
spans s [] = []
spans s (k ∷ ks) = record { value = s; length = length k } ∷ spans (s + length k + 1) ks

keys_loop-clean :
    (d left : ℕ) (k rest : List ℕ) (s e : ℕ)
    → clean d k ≡ true
    → keys_loop d (suc left) (k ++ rest) s e ≡ keys_loop d (suc left) rest s (e + length k)
unfolding keys_loop clean
keys_loop-clean d left [] rest s e h = ap (λ x. keys_loop d (suc left) rest s x) (omega arith)
keys_loop-clean d left (c ∷ k) rest s e h =
    let one = ap (λ x. keys_loop d (suc left) rest s x) (one_on e (length k)) in
    ground (arith, keys_loop-clean d left k rest s (e + 1), one)
  where
    one_on : (e n : ℕ) → e + 1 + n ≡ e + suc n
    one_on e n = omega arith

-- At the end of a key the loop makes its token, and goes on behind the delimiter.
keys_loop-last :
    (d s n : ℕ) → 0 < n → keys_loop d 1 [] s (s + n) ≡ some (record { value = s; length = n } ∷ [])
unfolding keys_loop
keys_loop-last d s n h = ground (arith, back s n)
  where
    back : (s n : ℕ) → s + n - s ≡ n
    back s n = omega arith

keys_loop-delimiter :
    (d left s n : ℕ) (rest : List ℕ)
    → 0 < n
    → keys_loop d (suc left) (d ∷ rest) s (s + n)
      ≡ push (record { value = s; length = n }) (keys_loop d left rest (s + n + 1) (s + n + 1))
unfolding keys_loop
keys_loop-delimiter d left s n rest h = ground (arith, back s n)
  where
    back : (s n : ℕ) → s + n - s ≡ n
    back s n = omega arith

keys_loop-join :
    (d s : ℕ) (k : List ℕ) (ks : List (List ℕ))
    → all_keys d (k ∷ ks) ≡ true
    → keys_loop d (length (k ∷ ks)) (join d (k ∷ ks)) s s ≡ some (spans s (k ∷ ks))
unfolding all_keys join spans
keys_loop-join d s k [] h =
    ap (λ x. keys_loop d 1 x s s) (sym (append-nil k))
    ∙ keys_loop-clean d 0 k [] s s (ground arith)
    ∙ keys_loop-last d s (length k) (ground arith)
keys_loop-join d s k (next ∷ ks) h =
    let n = length (next ∷ ks) in
    keys_loop-clean d n k (d ∷ join d (next ∷ ks)) s s (ground arith)
    ∙ keys_loop-delimiter d n s (length k) (join d (next ∷ ks)) (ground arith)
    ∙ ap (push (record { value = s; length = length k }))
        (keys_loop-join d (s + length k + 1) next ks (ground arith))

-- The bytes at the spans are the keys.
text-spans :
    (d : ℕ) (pre : List ℕ) (s : ℕ) (ks : List (List ℕ))
    → length pre ≡ s
    → map (text (pre ++ join d ks)) (spans s ks) ≡ ks
unfolding join spans
text-spans d pre s [] h = refl
text-spans d pre s (k ∷ []) h =
    ap (λ x. x ∷ []) (ap (take (length k)) (drop-append pre k s h) ∙ take_self k)
  where
    take_self : (k : List ℕ) → take (length k) k ≡ k
    take_self k = ap (take (length k)) (sym (append-nil k)) ∙ take-append k [] (length k) refl
text-spans d pre s (k ∷ next ∷ ks) h =
    let rest = join d (next ∷ ks) in
    let shift =
      ap (λ x. pre ++ x) (sym (append_assoc k (d ∷ []) rest))
      ∙ sym (append_assoc pre (k ++ d ∷ []) rest) in
    ap₂ (λ x y. x ∷ y)
      (ap (take (length k)) (drop-append pre (k ++ d ∷ rest) s h)
        ∙ take-append k (d ∷ rest) (length k) refl)
      (ap (λ x. map (text x) (spans (s + length k + 1) (next ∷ ks))) shift
        ∙ text-spans d (pre ++ (k ++ d ∷ [])) (s + length k + 1) (next ∷ ks) (longer pre k d s h))
  where
    longer :
        (pre k : List ℕ) (d s : ℕ)
        → length pre ≡ s
        → length (pre ++ (k ++ d ∷ [])) ≡ s + length k + 1
    longer pre k d s h = omega (arith, length-append pre (k ++ d ∷ []), length-append k (d ∷ []))

-- The bytes of the tokens, if there are any.
abbrev pub texts : List ℕ → Option (List Token) → Option (List (List ℕ))
texts str none = none
texts str (some tokens) = some (map (text str) tokens)

-- `tokenize_keys` of one key or more, joined by the delimiter, finds these keys.
pub tokenize_keys-join :
    (d : ℕ) (k : List ℕ) (ks : List (List ℕ))
    → all_keys d (k ∷ ks) ≡ true
    → texts (join d (k ∷ ks)) (tokenize_keys (join d (k ∷ ks)) (length (k ∷ ks)) d) ≡ some (k ∷ ks)
unfolding tokenize_keys
tokenize_keys-join d k ks h =
    ap (texts (join d (k ∷ ks))) (keys_loop-join d 0 k ks h)
    ∙ ap some (text-spans d [] 0 (k ∷ ks) refl)

written-join :
    (k : List ℕ) (ks : List (List ℕ)) → written (k ∷ ks) ≡ join space (k ∷ ks) ++ space ∷ []
unfolding written join
written-join k [] = refl
written-join k (next ∷ ks) =
    ap (λ x. k ++ space ∷ x) (written-join next ks)
    ∙ sym (append_assoc k (space ∷ join space (next ∷ ks)) (space ∷ []))

length-join :
    (k : List ℕ) (ks : List (List ℕ))
    → length (k ∷ ks) + total (k ∷ ks) ≡ length (join space (k ∷ ks)) + 1
unfolding total join
length-join k [] = omega arith
length-join k (next ∷ ks) =
    omega (arith, length-join next ks, length-append k (space ∷ join space (next ∷ ks)))

set-append_last : (xs : List ℕ) (a b n : ℕ) → n ≡ length xs → set (xs ++ a ∷ []) n b ≡ xs ++ b ∷ []
set-append_last [] a b zero e = refl
set-append_last [] a b (suc n) e = absurd (omega arith)
set-append_last (x ∷ xs) a b zero e = absurd (omega arith)
set-append_last (x ∷ xs) a b (suc n) e = ap (λ ys. x ∷ ys) (set-append_last xs a b n (omega arith))

-- `detokenize` joins one token or more by spaces and ends them with a null byte; it refuses a buffer that
-- is shorter than that.
pub detokenize-join :
    (k : List ℕ) (ks : List (List ℕ)) (len : ℕ)
    → detokenize (k ∷ ks) len ≡ (
        if ltb len (length (join space (k ∷ ks)) + 1)
        then none
        else some (join space (k ∷ ks) ++ 0 ∷ []))
unfolding detokenize
detokenize-join k ks len =
    let n = length (join space (k ∷ ks)) in
    ap₂ (λ x y. if ltb len x then none else some (set y (x - 1) 0)) (length-join k ks)
      (written-join k ks)
    ∙ ap (λ y. if ltb len (n + 1) then none else some y)
        (set-append_last (join space (k ∷ ks)) space 0 (n + 1 - 1) (one_less n))
  where
    one_less : (n : ℕ) → n + 1 - 1 ≡ n
    one_less n = omega arith
