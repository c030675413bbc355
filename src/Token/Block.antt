-- ===== src/Token/Block.antt =====
-- mc_util.c: `tokenize_mblck` against `tokenize_keys`.
use arcus_memcached.Prelude.{
  ℕ, zero, suc, ◌+◌, ◌-◌, ◌≤◌, ◌<◌, ◌≡◌, ◌↔◌, subst, false, Option, none, some, List, [], ◌∷◌,
  length, ◌==◌, arith, Bool-cases, inl, inr,
}
use arcus_memcached.Token.{Token, space, push, keys_loop, mblck_loop, tokenize_keys, tokenize_mblck}
use arcus_memcached.Token.Found.{push-some}

abbrev Agree : ℕ → ℕ → List ℕ → ℕ → ℕ → List Token → Type 0
Agree d left rest s e tokens =
    (keys_loop d (length tokens) rest s e ≡ some tokens)
    × (length tokens ≤ left)
    × (0 < length tokens)

front :
    (t : Token) (o : Option (List Token)) (us ts : List Token)
    → o ≡ some us
    → push t o ≡ some ts
    → t ∷ us ≡ ts
front t none us ts e f = absurd (ground arith)
front t (some vs) us ts e f = ground arith

-- A byte that ends no key.
skip :
    (d left c : ℕ) (rest : List ℕ) (s e : ℕ) (tokens : List Token)
    → (c == d) ≡ false
    → (c == space) ≡ false
    → Agree d (suc left) rest s (e + 1) tokens
    → Agree d (suc left) (c ∷ rest) s e tokens
unfolding keys_loop
skip d left c rest s e [] f g (h, k, l) = absurd (omega arith)
skip d left c rest s e (t ∷ tokens) f g (h, k, l) = (rw (f, g) h, k, l)

mblck_loop-keys_loop :
    (d left : ℕ) (rest : List ℕ) (s e : ℕ) (tokens : List Token)
    → mblck_loop d left rest s e ≡ some tokens
    → (keys_loop d (length tokens) rest s e ≡ some tokens)
      × (length tokens ≤ left)
      × (0 < length tokens)
unfolding mblck_loop keys_loop
mblck_loop-keys_loop d zero rest s e tokens f = absurd (ground arith)
mblck_loop-keys_loop d (suc left) [] s e [] f = absurd (ground arith)
mblck_loop-keys_loop d (suc left) [] s e (t ∷ []) f = (ground arith, ground arith, ground arith)
mblck_loop-keys_loop d (suc left) [] s e (t ∷ u ∷ tokens) f = absurd (ground arith)
mblck_loop-keys_loop d (suc left) (c ∷ rest) s e tokens f = elim (Bool-cases (c == d)) [
  | inl e1 ↦
      let t : Token = record { value = s; length = e - s } in
      let us = push-some t (mblck_loop d left rest (e + 1) (e + 1)) tokens (ground arith) in
      let more = mblck_loop-keys_loop d left rest (e + 1) (e + 1) us.0 us.1 in
      subst (Agree d (suc left) (c ∷ rest) s e)
        (front t (mblck_loop d left rest (e + 1) (e + 1)) us.0 tokens us.1 (ground arith))
        (ground (arith, more.0), ground (arith, more.1), omega arith)
  | inr e1 ↦
      skip d left c rest s e tokens e1 (ground arith)
        (mblck_loop-keys_loop d (suc left) rest s (e + 1) tokens (ground arith))
]

keys_loop-mblck_loop :
    (d n left : ℕ) (rest : List ℕ) (s e : ℕ) (tokens : List Token)
    → keys_loop d n rest s e ≡ some tokens
    → n ≤ left
    → mblck_loop d left rest s e ≡ some tokens
unfolding mblck_loop keys_loop
keys_loop-mblck_loop d zero left rest s e tokens f h = absurd (ground arith)
keys_loop-mblck_loop d (suc n) zero rest s e tokens f h = absurd (omega arith)
keys_loop-mblck_loop d (suc n) (suc left) [] s e tokens f h = ground arith
keys_loop-mblck_loop d (suc n) (suc left) (c ∷ rest) s e tokens f h = elim (Bool-cases (c == d)) [
  | inl e1 ↦
      let us =
        push-some (record { value = s; length = e - s }) (keys_loop d n rest (e + 1) (e + 1)) tokens
          (ground arith) in
      ground (arith, keys_loop-mblck_loop d n left rest (e + 1) (e + 1) us.0 us.1, us.1)
  | inr e1 ↦ ground (arith, keys_loop-mblck_loop d (suc n) (suc left) rest s (e + 1) tokens)
]

-- `tokenize_mblck` accepts what `tokenize_keys` accepts for some number of keys up to `keycnt`, and gives
-- the same tokens.
pub tokenize_mblck-tokenize_keys :
    (str : List ℕ) (keycnt d : ℕ) (tokens : List Token)
    → (tokenize_mblck str keycnt d ≡ some tokens)
      ↔ ((tokenize_keys str (length tokens) d ≡ some tokens) × (length tokens ≤ keycnt))
unfolding tokenize_mblck tokenize_keys
tokenize_mblck-tokenize_keys str keycnt d tokens = (
  λ f. let r = mblck_loop-keys_loop d keycnt str 0 0 tokens f in (r.0, r.1),
  λ r. keys_loop-mblck_loop d (length tokens) keycnt str 0 0 tokens r.0 r.1,
)
