-- ===== src/Cluster/Ring.antt =====
-- cluster_config.c: the owner of a hash value on the ring.
use arcus_memcached.Prelude.{
  ℕ, zero, suc, ◌<◌, ◌≤◌, ◌≡◌, ◌⊎◌, inl, inr, refl, sym, ap, ◌∙◌, true, Option, none, some, List,
  [], ◌∷◌, length, get_elem?, ltb, leb, ◌==◌, if◌then◌else◌, if_cases, arith,
}
use arcus_memcached.Search.{search_loop, InOrder, Located, search-Located}
use arcus_memcached.Cluster.{
  ContItem, ClusterConfig, hpoint_at, hpoint_comp, first_equal, do_continuum_find,
  cluster_config_key_is_mine,
}

-- The hash points do not decrease.
unfoldable pub Sorted : List ContItem → Type 0
Sorted [] = Unit
Sorted (c ∷ cs) = (c.hpoint ≤ (elim cs [ [] ↦ c.hpoint | d ∷ ds ↦ d.hpoint ])) × Sorted cs

-- The first item that does not lie before a hash value.
abbrev pub first_from : ℕ → List ContItem → Option ContItem
first_from hvalue [] = none
first_from hvalue (c ∷ cs) =
    let rest = first_from hvalue cs in if leb hvalue c.hpoint then some c else rest

-- The owner of a hash value: that item, and behind the last one the first of the ring.
abbrev pub ring_owner : ℕ → List ContItem → Option ContItem
ring_owner hvalue cs = elim (first_from hvalue cs) [ none ↦ get_elem? cs 0 | some c ↦ some c ]

Sorted-mono :
    (cs : List ContItem)
    → Sorted cs
    → (i j : ℕ) → i ≤ j
    → j < length cs
    → hpoint_at cs i ≤ hpoint_at cs j
unfolding Sorted
Sorted-mono [] s i j a b = absurd (omega arith)
Sorted-mono (c ∷ cs) (h, s) zero zero a b = omega arith
Sorted-mono (c ∷ []) (h, s) zero (suc j) a b = absurd (omega arith)
Sorted-mono (c ∷ d ∷ cs) (h, s) zero (suc j) a b =
    omega (arith, h, Sorted-mono (d ∷ cs) s 0 j (omega arith) (omega arith))
Sorted-mono (c ∷ cs) (h, s) (suc i) zero a b = absurd (omega arith)
Sorted-mono (c ∷ cs) (h, s) (suc i) (suc j) a b = Sorted-mono cs s i j (omega arith) (omega arith)

first_from-at :
    (hvalue : ℕ) (cs : List ContItem) (k : ℕ)
    → ((i : ℕ) → i < k → hpoint_at cs i < hvalue)
    → k < length cs
    → hvalue ≤ hpoint_at cs k
    → first_from hvalue cs ≡ get_elem? cs k
first_from-at hvalue [] k b l h = absurd (omega arith)
first_from-at hvalue (c ∷ cs) zero b l h = ground arith
first_from-at hvalue (c ∷ cs) (suc k) b l h = ground (
  arith,
  b 0 (omega arith),
  first_from-at hvalue cs k (λ i a. b (suc i) (omega arith)) (omega arith) h,
)

first_from-none :
    (hvalue : ℕ) (cs : List ContItem)
    → ((i : ℕ) → i < length cs → hpoint_at cs i < hvalue)
    → first_from hvalue cs ≡ none
first_from-none hvalue [] b = refl
first_from-none hvalue (c ∷ cs) b =
    ground (arith, b 0 (omega arith), first_from-none hvalue cs (λ i a. b (suc i) (omega arith)))

get_elem?-some :
    (cs : List ContItem) (k : ℕ) → k < length cs → (c : ContItem) × (get_elem? cs k ≡ some c)
get_elem?-some [] k h = absurd (omega arith)
get_elem?-some (c ∷ cs) zero h = (c, refl)
get_elem?-some (c ∷ cs) (suc k) h = get_elem?-some cs k (omega arith)

-- The item at the first index that does not lie before the value is the owner.
owner-at :
    (hvalue : ℕ) (cs : List ContItem) (k : ℕ)
    → ((i : ℕ) → i < k → hpoint_at cs i < hvalue)
    → k < length cs
    → hvalue ≤ hpoint_at cs k
    → get_elem? cs k ≡ ring_owner hvalue cs
owner-at hvalue cs k b l h =
    let (c, e) = get_elem?-some cs k l in
    e
    ∙ sym (
        ap (λ o. elim o [ none ↦ get_elem? cs 0 | some c ↦ some c ])
          (first_from-at hvalue cs k b l h ∙ e))

module _ (hvalue : ℕ) (cs : List ContItem) (s : Sorted cs) where
  hpoint_comp-InOrder : InOrder (hpoint_comp hvalue cs) 0 (length cs)
  unfolding hpoint_comp
  hpoint_comp-InOrder = record {
    after = λ i j z a b h. ground (arith, Sorted-mono cs s i j (omega arith) b, h);
    before = λ i j z a b h. ground (arith, Sorted-mono cs s i j (omega arith) b, h);
  }

  first_equal-lem :
      (mid : ℕ)
      → mid < length cs
      → hpoint_at cs mid ≡ hvalue
      → let k = first_equal hvalue cs mid in
        (k < length cs) × (hpoint_at cs k ≡ hvalue) × ((i : ℕ) → i < k → hpoint_at cs i < hvalue)
  unfolding first_equal
  first_equal-lem zero l h = (l, h, λ i a. absurd (omega arith))
  first_equal-lem (suc mid) l h =
      if_cases
        (λ k.
          (k < length cs) × (hpoint_at cs k ≡ hvalue) × ((i : ℕ) → i < k → hpoint_at cs i < hvalue))
        (hpoint_at cs mid == hvalue) _ _ (λ g. first_equal-lem mid (omega arith) (ground arith))
        (λ g. (
          l,
          h,
          λ i a. ground (
            arith,
            Sorted-mono cs s i mid (omega arith) (omega arith),
            Sorted-mono cs s mid (suc mid) (omega arith) l,
            g,
          ),
        ))

  do_continuum_find-owner : do_continuum_find cs hvalue ≡ ring_owner hvalue cs
  unfolding do_continuum_find hpoint_comp Located
  do_continuum_find-owner =
      by_place (search_loop (hpoint_comp hvalue cs) (suc (length cs)) 0 (length cs))
        (search-Located (hpoint_comp hvalue cs) 0 (length cs) hpoint_comp-InOrder (omega arith))
    where
      by_place :
          (o : Option (ℕ ⊎ ℕ))
          → Located (hpoint_comp hvalue cs) 0 (length cs) o
          → elim o [
            | none ↦ none
            | some (inl mid) ↦ get_elem? cs (first_equal hvalue cs mid)
            | some (inr left) ↦ get_elem? cs (if ltb left (length cs) then left else 0)
          ]
            ≡ ring_owner hvalue cs
      by_place none l = absurd (ground arith)
      by_place (some (inl mid)) (z, l, e) =
          let (k, h, b) = first_equal-lem mid l (ground arith) in
          owner-at hvalue cs (first_equal hvalue cs mid) b k (omega arith)
      by_place (some (inr left)) (z, l, p, n) =
          if_cases (λ k. get_elem? cs k ≡ ring_owner hvalue cs) (ltb left (length cs)) left 0
            (λ g.
              owner-at hvalue cs left (λ i a. ground (arith, p i (omega arith) a)) (ground arith)
                (ground (arith, n left (ground arith) (ground arith))))
            (λ g. sym (
              ap (λ o. elim o [ none ↦ get_elem? cs 0 | some c ↦ some c ])
                (first_from-none hvalue cs
                  (λ i a. ground (arith, p i (omega arith) (ground arith))))))

-- In a valid configuration, whose hash points do not decrease, a key is said to belong to the node of the first
-- hash point that does not lie before its hash, or, behind the last point, to that of the first of the ring; and
-- it is said to be mine just when that node is the server itself.
pub cluster_config_key_is_mine-owner :
    (hash_ketama : List ℕ → ℕ) (config : ClusterConfig) (key : List ℕ)
    → config.is_valid ≡ true
    → Sorted config.continuum
    → cluster_config_key_is_mine hash_ketama config key
      ≡ (elim (ring_owner (hash_ketama key) config.continuum) [
        | none ↦ none
        | some item ↦ some (item.nindex == config.self_id, item.nindex, config.self_id)
      ])
unfolding cluster_config_key_is_mine
cluster_config_key_is_mine-owner hash_ketama config key v s =
    rw (v, do_continuum_find-owner (hash_ketama key) config.continuum s) refl
