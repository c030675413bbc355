-- ===== src/Search.antt =====
-- The binary search that engines/default/coll_btree.c and cluster_config.c share the form of.
use arcus_memcached.Prelude.{
  ℕ, zero, suc, ◌+◌, ◌-◌, ◌/◌, ◌<◌, ◌≤◌, ◌≡◌, ◌⊎◌, inl, inr, refl, Bool, true, false, Option, none,
  some, ltb, ◌==◌, subst, ap, Bool-cases, if◌then◌else◌, if_cases, ℤ, pos, negsuc, arith,
}

-- `while (left <= right)`: `end` is `right + 1`, and `cmp` the result of the comparison with the item at an
-- index. `inl mid` is the end by the break, and `inr left` the other. The fuel counts the rounds.
unfoldable pub search_loop : (ℕ → ℤ) → ℕ → ℕ → ℕ → Option (ℕ ⊎ ℕ)
search_loop cmp zero left end = none
search_loop cmp (suc fuel) left end =
    let mid = (left + (end - 1)) / 2 in
    let lower = search_loop cmp fuel left mid in
    let upper = search_loop cmp fuel (mid + 1) end in
    if ltb left end
    then elim (cmp mid) [ negsuc n ↦ lower | pos zero ↦ some (inl mid) | pos (suc n) ↦ upper ]
    else some (inr left)

abbrev pub is_neg : ℤ → Bool
is_neg (negsuc n) = true
is_neg (pos n) = false

abbrev pub is_pos : ℤ → Bool
is_pos (negsuc n) = false
is_pos (pos zero) = false
is_pos (pos (suc n)) = true

-- The items from an index on stand in order: what is sought is less than all behind an item that it is less than,
-- and greater than all before one that it is greater than.
pub record InOrder (cmp : ℕ → ℤ) (first count : ℕ) : Type 0 where
  pub after :
      (i j : ℕ) → first ≤ i → i < j → j < count → is_neg (cmp i) ≡ true → is_neg (cmp j) ≡ true
  pub before :
      (i j : ℕ) → first ≤ i → i < j → j < count → is_pos (cmp j) ≡ true → is_pos (cmp i) ≡ true

-- What a search from an index on has found: an item that is equal, or the place of the item that is missing.
unfoldable pub Located : (ℕ → ℤ) → ℕ → ℕ → Option (ℕ ⊎ ℕ) → Type 0
Located cmp first count none = true ≡ false
Located cmp first count (some (inl mid)) = (first ≤ mid) × (mid < count) × (cmp mid ≡ pos 0)
Located cmp first count (some (inr left)) =
    (first ≤ left)
    × (left ≤ count)
    × ((i : ℕ) → first ≤ i → i < left → is_pos (cmp i) ≡ true)
    × ((i : ℕ) → left ≤ i → i < count → is_neg (cmp i) ≡ true)

module _ (cmp : ℕ → ℤ) (first count : ℕ) (o : InOrder cmp first count) where
  neg_from :
      (mid : ℕ)
      → first ≤ mid
      → is_neg (cmp mid) ≡ true
      → (i : ℕ) → mid ≤ i
      → i < count
      → is_neg (cmp i) ≡ true
  neg_from mid f e i a b = elim (Bool-cases (mid == i)) [
    | inl h ↦ subst (λ j. is_neg (cmp j) ≡ true) (ground arith) e
    | inr h ↦ o.after mid i f (ground arith) b e
  ]

  pos_up_to :
      (mid : ℕ)
      → mid < count
      → is_pos (cmp mid) ≡ true
      → (i : ℕ) → first ≤ i
      → i < mid + 1
      → is_pos (cmp i) ≡ true
  pos_up_to mid b e i f a = elim (Bool-cases (mid == i)) [
    | inl h ↦ subst (λ j. is_pos (cmp j) ≡ true) (ground arith) e
    | inr h ↦ o.before i mid f (ground arith) b e
  ]

  at_mid :
      (mid : ℕ) (lower upper : Option (ℕ ⊎ ℕ)) (c : ℤ)
      → cmp mid ≡ c
      → first ≤ mid
      → mid < count
      → (is_neg (cmp mid) ≡ true → Located cmp first count lower)
      → (is_pos (cmp mid) ≡ true → Located cmp first count upper)
      → Located cmp first count
          (elim c [ negsuc n ↦ lower | pos zero ↦ some (inl mid) | pos (suc n) ↦ upper ])
  unfolding Located
  at_mid mid lower upper (negsuc n) e a b f g = f (ap is_neg e)
  at_mid mid lower upper (pos zero) e a b f g = (a, b, e)
  at_mid mid lower upper (pos (suc n)) e a b f g = g (ap is_pos e)

  search_loop-Located :
      (fuel left end : ℕ)
      → first ≤ left
      → end ≤ count
      → left ≤ end
      → end < left + fuel
      → ((i : ℕ) → first ≤ i → i < left → is_pos (cmp i) ≡ true)
      → ((i : ℕ) → end ≤ i → i < count → is_neg (cmp i) ≡ true)
      → Located cmp first count (search_loop cmp fuel left end)
  unfolding search_loop Located
  search_loop-Located zero left end l h k f p q = absurd (omega arith)
  search_loop-Located (suc fuel) left end l h k f p q =
      let mid = (left + (end - 1)) / 2 in
      if_cases (Located cmp first count) (ltb left end) _ _
        (λ g.
          at_mid mid (search_loop cmp fuel left mid) (search_loop cmp fuel (mid + 1) end) (cmp mid)
            refl (ground arith) (ground arith)
            (λ e.
              search_loop-Located fuel left mid l (ground arith) (ground arith) (ground arith) p
                (neg_from mid (ground arith) e))
            (λ e.
              search_loop-Located fuel (mid + 1) end (ground arith) h (ground arith) (ground arith)
                (pos_up_to mid (ground arith) e) q))
        (λ g. (l, ground arith, p, λ i a b. q i (ground arith) b))

  -- The search of the items, with one round more than there are items, finds what is sought or its place.
  pub search-Located :
      first ≤ count → Located cmp first count (search_loop cmp (suc count) first count)
  search-Located h =
      search_loop-Located (suc count) first count (omega arith) (omega arith) h (omega arith)
        (λ i a b. absurd (omega arith)) (λ i a b. absurd (omega arith))
