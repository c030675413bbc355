-- ===== src/Cluster/Names.antt =====
-- cluster_config.c: the search for a node by its name.
use arcus_memcached.Prelude.{
  ℕ, zero, suc, ◌<◌, ◌≡◌, ◌≢◌, ◌⊎◌, Bool-cases, inl, inr, sym, ◌∙◌, subst, true, false, Option,
  none, some, List, [], ◌∷◌, length, ltb, ℤ, arith,
}
use arcus_memcached.Btree.{binary_comp, lt}
use arcus_memcached.Btree.Order.{
  holds, opposite, binary_comp-swap, binary_comp-zero, binary_comp_trans,
}
use arcus_memcached.Search.{search_loop, is_neg, is_pos, InOrder, Located, search-Located}
use arcus_memcached.Cluster.{name_at, do_nodearray_find}

-- The names increase.
unfoldable pub Increasing : List (List ℕ) → Type 0
Increasing [] = Unit
Increasing (x ∷ xs) =
    (elim xs [ [] ↦ true | y ∷ ys ↦ holds lt (binary_comp x y) ] ≡ true) × Increasing xs

-- What a search of the names has found.
unfoldable pub NamedAt : List (List ℕ) → List ℕ → Option ℕ → Type 0
NamedAt array name none = (i : ℕ) → i < length array → name_at array i ≢ name
NamedAt array name (some i) = (i < length array) × (name_at array i ≡ name)

Increasing-less :
    (xs : List (List ℕ))
    → Increasing xs
    → (i j : ℕ) → i < j
    → j < length xs
    → holds lt (binary_comp (name_at xs i) (name_at xs j)) ≡ true
unfolding Increasing
Increasing-less [] s i j a b = absurd (omega arith)
Increasing-less (x ∷ xs) (h, s) i zero a b = absurd (omega arith)
Increasing-less (x ∷ []) (h, s) zero (suc j) a b = absurd (omega arith)
Increasing-less (x ∷ y ∷ xs) (h, s) zero (suc zero) a b = h
Increasing-less (x ∷ y ∷ xs) (h, s) zero (suc (suc j)) a b =
    binary_comp_trans x y (name_at (y ∷ xs) (suc j)) h
      (Increasing-less (y ∷ xs) s 0 (suc j) (omega arith) (omega arith))
Increasing-less (x ∷ xs) (h, s) (suc i) (suc j) a b =
    Increasing-less xs s i j (omega arith) (omega arith)

holds-neg : (c : ℤ) → is_neg c ≡ holds lt c
holds-neg c = ground arith

opposite-pos : (c d : ℤ) → d ≡ opposite c → is_pos c ≡ is_neg d
opposite-pos c d h = ground arith

-- Against a name that compares as greater, so does every name behind it.
less_is_neg :
    (u v w : List ℕ)
    → is_neg (binary_comp u v) ≡ true
    → holds lt (binary_comp v w) ≡ true
    → is_neg (binary_comp u w) ≡ true
less_is_neg u v w h k =
    holds-neg (binary_comp u w) ∙ binary_comp_trans u v w (sym (holds-neg (binary_comp u v)) ∙ h) k

more_is_pos :
    (u v w : List ℕ)
    → is_pos (binary_comp u w) ≡ true
    → holds lt (binary_comp v w) ≡ true
    → is_pos (binary_comp u v) ≡ true
more_is_pos u v w h k =
    opposite-pos (binary_comp u v) (binary_comp v u) (binary_comp-swap u v)
    ∙ holds-neg (binary_comp v u)
    ∙ binary_comp_trans v w u k (
        sym (holds-neg (binary_comp w u))
        ∙ sym (opposite-pos (binary_comp u w) (binary_comp w u) (binary_comp-swap u w))
        ∙ h)

module _ (array : List (List ℕ)) (name : List ℕ) (s : Increasing array) where
  names-InOrder : InOrder (λ i. binary_comp name (name_at array i)) 0 (length array)
  names-InOrder = record {
    after = λ i j z a b h.
        less_is_neg name (name_at array i) (name_at array j) h (Increasing-less array s i j a b);
    before = λ i j z a b h.
        more_is_pos name (name_at array i) (name_at array j) h (Increasing-less array s i j a b);
  }

  -- No other place has the name.
  differs :
      (i : ℕ)
      → is_pos (binary_comp name (name_at array i)) ≡ true
        ⊎ is_neg (binary_comp name (name_at array i)) ≡ true
      → name_at array i ≢ name
  differs i h e = impossible (
      clash (binary_comp name name) (binary_comp-swap name name) (
        subst (λ v. (is_pos (binary_comp name v) ≡ true) ⊎ (is_neg (binary_comp name v) ≡ true)) e
          h))
    where
      impossible : {P : Type 0} → true ≡ false → P
      impossible h = absurd (ground arith)

      clash : (c : ℤ) → c ≡ opposite c → (is_pos c ≡ true) ⊎ (is_neg c ≡ true) → true ≡ false
      clash c h k = ground arith

  found : NamedAt array name (do_nodearray_find array name)
  unfolding do_nodearray_find NamedAt Located
  found =
      by_place
        (search_loop (λ i. binary_comp name (name_at array i)) (suc (length array)) 0
          (length array))
        (search-Located _ 0 _ names-InOrder (omega arith))
    where
      by_place :
          (o : Option (ℕ ⊎ ℕ))
          → Located (λ i. binary_comp name (name_at array i)) 0 (length array) o
          → NamedAt array name
              (elim o [ none ↦ none | some (inl mid) ↦ some mid | some (inr left) ↦ none ])
      by_place none l = absurd (ground arith)
      by_place (some (inl mid)) (z, l, e) = (l, sym (binary_comp-zero name (name_at array mid) e))
      by_place (some (inr left)) (z, l, p, n) = λ i a. differs i (elim (Bool-cases (ltb i left)) [
        | inl g ↦ inl (p i (omega arith) (ground arith))
        | inr g ↦ inr (n i (ground arith) a)
      ])

-- Among names that increase, the search of a name returns an index where it stands, or nothing, where it stands
-- nowhere.
pub do_nodearray_find-NamedAt :
    (array : List (List ℕ)) (name : List ℕ)
    → Increasing array
    → NamedAt array name (do_nodearray_find array name)
do_nodearray_find-NamedAt = found
