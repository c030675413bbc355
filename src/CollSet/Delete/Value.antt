-- ===== src/CollSet/Delete/Value.antt =====
-- engines/default/coll_set.c: the outcomes of `do_set_elem_delete_with_value`.
use arcus_memcached.Prelude.{
  ℕ, ◌+◌, ◌≤◌, ◌≡◌, refl, sym, ap, ap₂, subst, ◌∙◌, Bool, true, false, ◌&&◌, not, Option, none,
  some, List, ltb, ◌==◌, if◌then◌else◌, arith, same_bytes, same_bytes-≡,
}
use arcus_memcached.CollList.{ErrorCode, is_success}
use arcus_memcached.CollSet.{
  SetElem, HashNode, SetMeta, set_hash_eq, tot_elem_cnt, search_node, do_set_elem_find,
}
use arcus_memcached.CollSet.Valid.{one, tally, anything, length-tally, elems_node, ValidNode}
use arcus_memcached.CollSet.Find.{find_node, FoundIn, find_node-FoundIn}
use arcus_memcached.CollSet.Shallow.{ShallowRoot}
use arcus_memcached.CollSet.Member.{
  is_some, root_elems, has_value, is_stale, SetTree, SetValid, member, find_node-value,
  do_set_elem_find-find_node,
}
use arcus_memcached.CollSet.Insert.{do_set_root_unlink}
use arcus_memcached.CollSet.Delete.{Deleted, delete_node, do_set_elem_delete_with_value}
use arcus_memcached.CollSet.Delete.Chain.{Unlinked, Removal}
use arcus_memcached.CollSet.Delete.Outcome.{delete_node-Removal}
use arcus_memcached.CollSet.Delete.Root.{SameButSpace, Settled, root_after-Settled}
use arcus_memcached.Genhash.{genhash_string_hash}

-- What a deletion of a value has done, by the code that it returned.
unfoldable pub Removed : SetMeta → List ℕ → ErrorCode → SetMeta → Type 0
Removed info val ErrorCode.success r =
    (member info val ≡ true)
    × ((v : List ℕ) → member r v ≡ (not (same_bytes v val) && member info v))
    × ((x : SetElem) × (do_set_elem_find info val ≡ some (some x)) × Unlinked info (some x) r)
Removed info val ErrorCode.elem_enoent r =
    (member info val ≡ false) × (do_set_elem_find info val ≡ some none) × (r ≡ info)
Removed info val _ r = true ≡ false

-- What is found is the only element with its value.
same_as_found :
    (val v : List ℕ) (x : SetElem)
    → set_hash_eq (genhash_string_hash val) val x ≡ true
    → one (has_value v) x ≡ (if same_bytes v val then 1 else 0)
unfolding set_hash_eq
same_as_found val v x h =
    ap (λ y. if same_bytes v y then 1 else 0) (sym (same_bytes-≡ val x.value (ground arith)))

one_less :
    (b : Bool) (t t' u : ℕ)
    → t' + u ≡ t
    → u ≡ (if b then 1 else 0)
    → t ≤ 1
    → ltb 0 t' ≡ (not b && ltb 0 t)
one_less b t t' u h e l = ground arith

still :
    (x : SetElem) (info i r : SetMeta)
    → Unlinked info (some x) i
    → SameButSpace i r
    → Unlinked info (some x) r
still x info i r (c, m, hd, fr) (c', m', hd', fr') = (c' ∙ c, m' ∙ m, hd' ∙ hd, fr' ∙ fr)

module _ (node_space : ℕ) (space : ℕ → ℕ) (info : SetMeta) (val : List ℕ) (s : SetValid info)
    (l : ShallowRoot info.root) where
  found-SetTree :
      (root : HashNode) (x : SetElem) (r : Deleted HashNode)
      → SetTree (some root) info.ccnt
      → Removal elems_node (some x) info root r
      → ValidNode 0 r.result
      → SetTree (some r.result) r.info.ccnt
  found-SetTree root x r t m n =
      let (c, mc, hd, fr) = m.effect in
      record {
        valid = n;
        counted = omega (
          arith,
          c,
          m.less anything,
          t.counted,
          length-tally (elems_node root),
          length-tally (elems_node r.result),
        );
        fresh = omega (arith, m.less is_stale, t.fresh);
        unique = λ v. omega (arith, m.less (has_value v), t.unique v);
      }

  abbrev Good : ErrorCode × SetMeta → Type 0
  Good p = Removed info val (p.0) (p.1) × SetValid (p.1)

  gone :
      (root : HashNode) (x : SetElem) (r : Deleted HashNode) (r' : SetMeta) (v : List ℕ)
      → SetTree (some root) info.ccnt
      → Removal elems_node (some x) info root r
      → Settled r.result r.info r'
      → set_hash_eq (genhash_string_hash val) val x ≡ true
      → member info v ≡ ltb 0 (tally (has_value v) (elems_node root))
      → member r' v ≡ (not (same_bytes v val) && member info v)
  gone root x r r' v t m w k q =
      ap (ltb 0) (w.elems (has_value v))
      ∙ one_less (same_bytes v val) _ _ _ (m.less (has_value v)) (same_as_found val v x k)
          (t.unique v)
      ∙ ap (λ b. not (same_bytes v val) && b) (sym q)

  at_find :
      (root : HashNode) (o : Option SetElem)
      → find_node (genhash_string_hash val) val root ≡ o
      → info.root ≡ some root
      → let r = delete_node node_space space info (genhash_string_hash val) val root in
        let info' = record (r.info) { root = some r.result } in
        Good (
          r.ret,
          if is_success r.ret && (tot_elem_cnt r.result == 0)
              then do_set_root_unlink node_space info'
              else info',
        )
  unfolding Removed do_set_elem_find FoundIn
  at_find root o f h =
      let hval = genhash_string_hash val in
      let t : SetTree (some root) info.ccnt = subst (λ x. SetTree x info.ccnt) h s.tree in
      let r = delete_node node_space space info hval val root in
      let info' = record (r.info) { root = some r.result } in
      let b = tot_elem_cnt r.result == 0 in
      let (m0, n) =
        delete_node-Removal node_space space hval val 0 info root t.valid (subst ShallowRoot h l) in
      let m : Removal elems_node o info root r =
        subst (λ o. Removal elems_node o info root r) f m0 in
      let found_in : FoundIn hval val o (elems_node root) =
        subst (λ o. FoundIn hval val o (elems_node root)) f
          (find_node-FoundIn 0 hval val root t.valid) in
      subst
        (λ c. Good (c, if is_success c && b then do_set_root_unlink node_space info' else info'))
        (sym m.code)
        (by_found o r t m n found_in
          (do_set_elem_find-find_node info root val h t.valid (subst ShallowRoot h l) ∙ ap some f)
          (at_member root h ∙ sym (find_node-value root val t.valid t.fresh) ∙ ap is_some f))
    where
      at_member :
          (root : HashNode)
          → info.root ≡ some root
          → member info val ≡ ltb 0 (tally (has_value val) (elems_node root))
      at_member root h = ap (λ x. ltb 0 (tally (has_value val) (root_elems x))) h

      by_found :
          (o : Option SetElem) (r : Deleted HashNode)
          → SetTree (some root) info.ccnt
          → Removal elems_node o info root r
          → ValidNode 0 r.result
          → FoundIn (genhash_string_hash val) val o (elems_node root)
          → do_set_elem_find info val ≡ some o
          → member info val ≡ is_some o
          → let info' = record (r.info) { root = some r.result } in
            let c = if is_some o then ErrorCode.success else ErrorCode.elem_enoent in
            Good (
              c,
              if is_success c && (tot_elem_cnt r.result == 0)
                  then do_set_root_unlink node_space info'
                  else info',
            )
      by_found none r t m n x q mb =
          let same =
            ap₂ {C = SetMeta} (λ i n. record i { root = some n }) m.effect (m.unchanged refl)
            ∙ ap (λ x. record info { root = x }) (sym h) in
          ((mb, q, same), subst SetValid (sym same) s)
      by_found (some e) r t m n (k, x) q mb =
          let info' = record (r.info) { root = some r.result } in
          let final : SetMeta =
            if tot_elem_cnt r.result == 0 then do_set_root_unlink node_space info' else info' in
          let w : Settled r.result r.info final =
            root_after-Settled node_space r.info r.result (found-SetTree root e r t m n) in
          (
            (
              mb,
              (λ v.
                  gone root e r final v t m w k
                    (ap (λ x. ltb 0 (tally (has_value v) (root_elems x))) h)),
              (e, q, still e info r.info final m.effect w.counts),
            ),
            w.valid,
          )

  outcomes : Good (do_set_elem_delete_with_value node_space space info val)
  unfolding do_set_elem_delete_with_value Removed do_set_elem_find tally
  outcomes = at_root info.root refl
    where
      at_root :
          (root : Option HashNode)
          → info.root ≡ root
          → Good (elim root [
            | none ↦ (ErrorCode.elem_enoent, info)
            | some root ↦
                let r = delete_node node_space space info (genhash_string_hash val) val root in
                let info' = record (r.info) { root = some r.result } in
                (
                  r.ret,
                  if is_success r.ret && (tot_elem_cnt r.result == 0)
                      then do_set_root_unlink node_space info'
                      else info',
                )
          ])
      at_root none h = (
        (
          ap (λ x. ltb 0 (tally (has_value val) (root_elems x))) h,
          ap
              (λ x. elim x [
                | none ↦ some none
                | some node ↦ search_node (genhash_string_hash val) val node
              ])
              h,
          refl,
        ),
        s,
      )
      at_root (some root) h = at_find root _ refl h

-- A deletion of a value from a valid set whose nodes have depths less than 7 returns success where the set holds the value: it takes
-- just that value out, counts one element less, and frees the element that the search finds or leaves it to its
-- readers. Otherwise it returns that the element is not there, and the set is as it was.
pub do_set_elem_delete_with_value-Removed :
    (node_space : ℕ) (space : ℕ → ℕ) (info : SetMeta) (val : List ℕ)
    → SetValid info
    → ShallowRoot info.root
    → let r = do_set_elem_delete_with_value node_space space info val in
      Removed info val (r.0) (r.1)
do_set_elem_delete_with_value-Removed node_space space info val s l =
    (outcomes node_space space info val s l).0

-- A deletion keeps a set whose nodes have depths less than 7 valid.
pub do_set_elem_delete_with_value-SetValid :
    (node_space : ℕ) (space : ℕ → ℕ) (info : SetMeta) (val : List ℕ)
    → SetValid info
    → ShallowRoot info.root
    → SetValid (do_set_elem_delete_with_value node_space space info val).1
do_set_elem_delete_with_value-SetValid node_space space info val s l =
    (outcomes node_space space info val s l).1
