-- ===== src/CollSet/Insert/Outcome.antt =====
-- engines/default/coll_set.c: the outcomes of `do_set_elem_insert`.
use arcus_memcached.Prelude.{
  ℕ, ◌<◌, ◌≡◌, inl, inr, refl, sym, ap, ap₂, ◌∙◌, subst, Bool, true, false, ◌||◌, not, Option, none,
  some, List, length, ltb, leb, if◌then◌else◌, same_bytes, arith, Bool-cases, if_cases,
}
use arcus_memcached.CollList.{ErrorCode, is_success, real_mcnt}
use arcus_memcached.CollSet.{SetElem, HashNode, SetMeta, do_set_node_alloc}
use arcus_memcached.CollSet.Valid.{tally}
use arcus_memcached.CollSet.Spread.{do_set_node_alloc-Valid}
use arcus_memcached.CollSet.Shallow.{ShallowRoot}
use arcus_memcached.CollSet.Member.{
  is_some, root_elems, looked_up, do_set_elem_find-member, has_value, is_stale, SetTree, SetValid,
  member,
}
use arcus_memcached.CollSet.Insert.{
  do_set_root_link, do_set_space_decr, do_set_root_unlink, do_set_elem_link, do_set_elem_insert,
}
use arcus_memcached.CollSet.Insert.Below.{Inserted, member-root, do_set_elem_link-Below}

module _ (node_space : ℕ) (space : ℕ → ℕ) where
  do_set_root_unlink-link :
      (info : SetMeta) (node : HashNode)
      → info.root ≡ none
      → do_set_root_unlink node_space (do_set_root_link node_space info node) ≡ info
  unfolding do_set_root_link do_set_root_unlink do_set_space_decr
  do_set_root_unlink-link info node h =
      ap₂ (λ x n. record info { root = x; stotal = n }) (sym h) (ground arith)

  -- An empty set with a root in place, and without it.
  transfer :
      (ret : ErrorCode) (real : ℕ) (short short' : Bool) (info linked r : SetMeta) (val : List ℕ)
      → ((v : List ℕ) → member linked v ≡ member info v)
      → linked.ccnt ≡ info.ccnt
      → do_set_root_unlink node_space linked ≡ info
      → (short ≡ true → short' ≡ true)
      → Inserted real short linked val ret r
      → Inserted real short' info val ret
          (if is_success ret then r else do_set_root_unlink node_space r)
  unfolding Inserted
  transfer ErrorCode.success real short short' info linked r val m c u s (a, b, d, e) = (
    sym (m val) ∙ a,
    (λ v. b v ∙ ap (λ x. same_bytes v val || x) (m v)),
    omega (arith, c),
    omega (arith, c),
  )
  transfer ErrorCode.elem_eexists real short short' info linked r val m c u s (a, b) =
      (sym (m val) ∙ a, ap (do_set_root_unlink node_space) b ∙ u)
  transfer ErrorCode.eoverflow real short short' info linked r val m c u s (a, b) =
      (omega (arith, c), ap (do_set_root_unlink node_space) b ∙ u)
  transfer ErrorCode.enomem real short short' info linked r val m c u s (a, b) =
      (s a, ap (do_set_root_unlink node_space) b ∙ u)
  transfer _ real short short' info linked r val m c u s a = a

  member-none : (info : SetMeta) (val : List ℕ) → info.root ≡ none → member info val ≡ false
  unfolding tally
  member-none info val h = ap (λ x. ltb 0 (tally (has_value val) (root_elems x))) h

  empty-SetTree : (ccnt : ℕ) → ccnt ≡ 0 → SetTree (some (do_set_node_alloc 0)) ccnt
  unfolding tally
  empty-SetTree ccnt h =
      let (v, l, n) = do_set_node_alloc-Valid 0 in
      record {
        valid = v;
        counted = h ∙ sym (ap length n);
        fresh = ap (tally is_stale) n;
        unique = λ val. omega (arith, ap (tally (has_value val)) n);
      }

  weaken :
      (ret : ErrorCode) (real : ℕ) (short short' : Bool) (info r : SetMeta) (val : List ℕ)
      → (short ≡ true → short' ≡ true)
      → Inserted real short info val ret r
      → Inserted real short' info val ret r
  unfolding Inserted
  weaken ErrorCode.enomem real short short' info r val s (a, b) = (s a, b)
  weaken _ real short short' info r val s a = a

  module _ (max_set_size : ℕ) (sticky_full given_root given : Bool) (info : SetMeta)
      (e : SetElem) where
    -- Whether some memory was refused.
    abbrev pub short_of_memory : Bool
    short_of_memory = sticky_full || not given_root || not given

    abbrev Good : ErrorCode × SetMeta → Type 0
    Good p =
        Inserted (real_mcnt max_set_size info.mcnt) short_of_memory info e.value (p.0) (p.1)
        × SetValid (p.1)

    pairs :
        (b : Bool) (ret : ErrorCode) (r r' : SetMeta)
        → Inserted
            (real_mcnt max_set_size info.mcnt)
            short_of_memory
            info
            e.value
            ret
            (if b then r else r')
          × SetValid (if b then r else r')
        → Good (if b then (ret, r) else (ret, r'))
    pairs true ret r r' g = g
    pairs false ret r r' g = g

    no_elems : SetValid info → info.root ≡ none → info.ccnt ≡ 0
    no_elems s h = ground (arith, s.rooted, ap is_some h)

    -- The root as it is found, with room for one more element.
    at_root :
        SetValid info
        → info.ccnt < real_mcnt max_set_size info.mcnt
        → (root : Option HashNode) → info.root ≡ root
        → Good (elim root [
          | some root ↦ do_set_elem_link node_space space given info e root
          | none ↦
              let root = do_set_node_alloc 0 in
              let r =
                do_set_elem_link node_space space given
                  (do_set_root_link node_space info root)
                  e
                  root in
              if given_root
              then (if is_success (r.0) then r else (r.0, do_set_root_unlink node_space (r.1)))
              else (ErrorCode.enomem, info)
        ])
    unfolding Inserted do_set_root_link tally
    at_root s lt (some root) h =
        let b =
          do_set_elem_link-Below node_space space given info e root h
            (subst (λ x. SetTree x info.ccnt) h s.tree) in
        let r = do_set_elem_link node_space space given info e root in
        (
          weaken (r.0) _ (not given) short_of_memory info (r.1) e.value (ground arith)
              (b.outcome _ lt),
          kept_valid (r.0) (r.1) b.valid b.same,
        )
      where
        kept_valid :
            (ret : ErrorCode) (r : SetMeta)
            → (is_success ret ≡ true → SetValid r)
            → (is_success ret ≡ false → r ≡ info)
            → SetValid r
        kept_valid ret r v u = elim (Bool-cases (is_success ret)) [
          | inl k ↦ v k
          | inr k ↦ subst SetValid (sym (u k)) s
        ]
    at_root s lt none h =
        let root = do_set_node_alloc 0 in
        let linked = do_set_root_link node_space info root in
        let t = empty-SetTree info.ccnt (no_elems s h) in
        let b = do_set_elem_link-Below node_space space given linked e root refl t in
        let r = do_set_elem_link node_space space given linked e root in
        let undone = do_set_root_unlink-link info root h in
        if_cases Good given_root _ _
          (λ g. pairs (is_success (r.0)) (r.0) (r.1) (do_set_root_unlink node_space (r.1)) (
            transfer (r.0) _ (not given) short_of_memory info linked (r.1) e.value (nothing h) refl
                undone (ground arith) (b.outcome _ lt),
            if_cases SetValid (is_success (r.0)) (r.1) (do_set_root_unlink node_space (r.1)) b.valid
                (λ k.
                  subst SetValid (sym (ap (do_set_root_unlink node_space) (b.same k) ∙ undone)) s),
          ))
          (λ g. ((ground arith, refl), s))
      where
        nothing :
            info.root ≡ none
            → (v : List ℕ)
            → member (do_set_root_link node_space info (do_set_node_alloc 0)) v ≡ member info v
        nothing h v =
            let (x, l, n) = do_set_node_alloc-Valid 0 in
            ground (
              arith,
              member-root (do_set_root_link node_space info (do_set_node_alloc 0))
                  (do_set_node_alloc 0) v refl,
              ap (tally (has_value v)) n,
              member-none info v h,
            )

    outcomes :
        SetValid info
        → Good
            (do_set_elem_insert node_space space max_set_size sticky_full given_root given info e)
    unfolding do_set_elem_insert Inserted
    outcomes s =
        if_cases Good sticky_full _ _ (λ h. ((ground arith, refl), s))
          (λ h.
            if_cases Good (leb (real_mcnt max_set_size info.mcnt) info.ccnt) _ _
              (λ g. ((ground arith, refl), s)) (λ g. at_root s (ground arith) info.root refl))

    -- An insertion keeps a set valid.
    pub do_set_elem_insert-SetValid :
        SetValid info
        → SetValid
            (do_set_elem_insert node_space space max_set_size sticky_full given_root given info e).1
    do_set_elem_insert-SetValid s = (outcomes s).1

    -- What an insertion answers, whatever the search sees of it.
    pub do_set_elem_insert-Answered :
        SetValid info
        → let r =
            do_set_elem_insert node_space space max_set_size sticky_full given_root given info e in
          Inserted (real_mcnt max_set_size info.mcnt) short_of_memory info e.value (r.0) (r.1)
    do_set_elem_insert-Answered s = (outcomes s).0

    -- An insertion into a valid set that leaves every node at a depth less than 7 and returns success found the set below its
    -- greatest count and without the value, adds just that value, and counts one element more. The other codes it
    -- returns are that the value is there, that the set is full, and that memory was refused; each is true, and the
    -- set is as it was. After it, `do_set_elem_find` finds just the values of the set.
    pub do_set_elem_insert-Inserted :
        let r =
          do_set_elem_insert node_space space max_set_size sticky_full given_root given info e in
        SetValid info
        → ShallowRoot r.1.root
        → Inserted (real_mcnt max_set_size info.mcnt) short_of_memory info e.value (r.0) (r.1)
          × ((v : List ℕ) → looked_up (r.1) v ≡ some (member (r.1) v))
    do_set_elem_insert-Inserted s l =
        ((outcomes s).0, λ v. do_set_elem_find-member _ v (outcomes s).1 l)
