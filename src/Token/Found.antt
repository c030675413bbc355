-- ===== src/Token/Found.antt =====
-- mc_util.c: the strings that `tokenize_keys` accepts.
use arcus_memcached.Prelude.{
  ℕ, zero, suc, ◌+◌, ◌-◌, ◌<◌, ◌≡◌, refl, sym, ap, subst, true, false, Option, none, some, List, [],
  ◌∷◌, ◌++◌, append-nil, append_assoc, length, length-append, ◌==◌, ==_iff, arith, Bool-cases, inl,
  inr,
}
use arcus_memcached.Token.{Token, space, push, keys_loop, tokenize_keys}
use arcus_memcached.Token.Keys.{clean, all_keys, join}

-- A string is `n` keys, joined by the delimiter.
pub record KeysOf (d n : ℕ) (str : List ℕ) : Type 0 where
  pub first : List ℕ
  pub others : List (List ℕ)
  pub joined : str ≡ join d (first ∷ others)
  pub proper : all_keys d (first ∷ others) ≡ true
  pub number : length (first ∷ others) ≡ n

clean-snoc :
    (d : ℕ) (k : List ℕ) (c : ℕ)
    → clean d k ≡ true
    → (c == d) ≡ false
    → (c == space) ≡ false
    → clean d (k ++ c ∷ []) ≡ true
unfolding clean
clean-snoc d [] c h e f = ground arith
clean-snoc d (x ∷ k) c h e f = ground (arith, clean-snoc d k c)

pub push-some :
    (t : Token) (o : Option (List Token)) (ts : List Token)
    → push t o ≡ some ts
    → (us : List Token) × (o ≡ some us)
push-some t none ts e = absurd (ground arith)
push-some t (some us) ts e = (us, refl)

last_key : (d : ℕ) (cur : List ℕ) → clean d cur ≡ true → 0 < length cur → KeysOf d 1 (cur ++ [])
unfolding all_keys join
last_key d cur h p = record {
  first = cur;
  others = [];
  joined = append-nil cur;
  proper = ground arith;
  number = refl;
}

one_more :
    (d n : ℕ) (cur rest : List ℕ)
    → clean d cur ≡ true
    → 0 < length cur
    → KeysOf d n rest
    → KeysOf d (suc n) (cur ++ d ∷ rest)
unfolding all_keys join
one_more d n cur rest h p k = record {
  first = cur;
  others = k.first ∷ k.others;
  joined = ap (λ x. cur ++ d ∷ x) k.joined;
  proper = ground (arith, k.proper);
  number = ap suc k.number;
}

keys_loop-KeysOf :
    (d left : ℕ) (rest : List ℕ) (s e : ℕ) (cur : List ℕ) (tokens : List Token)
    → clean d cur ≡ true
    → e ≡ s + length cur
    → keys_loop d left rest s e ≡ some tokens
    → KeysOf d left (cur ++ rest)
unfolding keys_loop clean
keys_loop-KeysOf d zero rest s e cur tokens h w f = absurd (ground arith)
keys_loop-KeysOf d (suc left) [] s e cur tokens h w f =
    subst (λ n. KeysOf d n (cur ++ [])) (single s e left tokens f) (last_key d cur h (ground arith))
  where
    single :
        (s e left : ℕ) (tokens : List Token)
        → keys_loop d (suc left) [] s e ≡ some tokens
        → 1 ≡ suc left
    single s e left tokens f = ground arith
keys_loop-KeysOf d (suc left) (c ∷ rest) s e cur tokens h w f = elim (Bool-cases (c == d)) [
  | inl e1 ↦
      let us =
        push-some (record { value = s; length = e - s }) (keys_loop d left rest (e + 1) (e + 1))
          tokens (ground arith) in
      let more = keys_loop-KeysOf d left rest (e + 1) (e + 1) [] us.0 refl (omega arith) us.1 in
      subst (λ x. KeysOf d (suc left) (cur ++ x ∷ rest)) (sym ((==_iff c d).0 e1))
        (one_more d left cur rest h (ground arith) more)
  | inr e1 ↦
      let other = clean-snoc d cur c h e1 (ground arith) in
      subst (KeysOf d (suc left)) (append_assoc cur (c ∷ []) rest) (
        keys_loop-KeysOf d (suc left) rest s (e + 1) (cur ++ c ∷ []) tokens other
          (omega (arith, length-append cur (c ∷ []))) (ground arith))
]

-- When `tokenize_keys` does not return -1, the string is as many keys as were asked for, joined by the
-- delimiter.
pub tokenize_keys-KeysOf :
    (str : List ℕ) (keycnt d : ℕ) (tokens : List Token)
    → tokenize_keys str keycnt d ≡ some tokens
    → KeysOf d keycnt str
unfolding tokenize_keys clean
tokenize_keys-KeysOf str keycnt d tokens f = keys_loop-KeysOf d keycnt str 0 0 [] tokens refl refl f
