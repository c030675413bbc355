-- ===== src/CollSet/Insert/Below.antt =====
-- engines/default/coll_set.c: the outcomes of `do_set_elem_link`.
use arcus_memcached.Prelude.{
  ℕ, ◌+◌, ◌<◌, ◌≤◌, ◌≡◌, inl, inr, refl, sym, ap, ap₂, ◌∙◌, subst, Bool, true, false, ◌||◌, not,
  Option, none, some, List, length, ltb, if◌then◌else◌, same_bytes, same_bytes-≡, arith, Bool-cases,
  Option-cases,
}
use arcus_memcached.CollList.{ErrorCode, is_success}
use arcus_memcached.CollSet.{SetElem, HashNode, SetMeta, Linked, link_node}
use arcus_memcached.CollSet.Valid.{one, tally, anything, length-tally, elems_node}
use arcus_memcached.CollSet.Link.{Answer, added, NodeLinked, link_node-NodeLinked}
use arcus_memcached.CollSet.Find.{find_node, FoundIn, find_node-FoundIn}
use arcus_memcached.CollSet.Member.{
  is_some, root_elems, has_value, is_stale, SetTree, SetValid, member, tally-fresh, find_node-value,
}
use arcus_memcached.CollSet.Insert.{hashed, do_set_elem_link}
use arcus_memcached.Genhash.{genhash_string_hash}

-- What an insertion of a value has done, by the code that it returned: `real` is the greatest count of the
-- set, and `short` says whether some memory was refused.
unfoldable pub Inserted : ℕ → Bool → SetMeta → List ℕ → ErrorCode → SetMeta → Type 0
Inserted real short info val ErrorCode.success r =
    (member info val ≡ false)
    × ((v : List ℕ) → member r v ≡ (same_bytes v val || member info v))
    × (r.ccnt ≡ info.ccnt + 1)
    × (info.ccnt < real)
Inserted real short info val ErrorCode.elem_eexists r = (member info val ≡ true) × (r ≡ info)
Inserted real short info val ErrorCode.eoverflow r = (real ≤ info.ccnt) × (r ≡ info)
Inserted real short info val ErrorCode.enomem r = (short ≡ true) × (r ≡ info)
Inserted real short info val _ r = true ≡ false

hashed-fresh : (e : SetElem) → one is_stale (hashed e) ≡ 0
hashed-fresh e = ground arith

module _ (e : SetElem) (root : HashNode) (ccnt : ℕ) (t : SetTree (some root) ccnt) where
  absent :
      find_node (hashed e).hval e.value root ≡ none
      → tally (has_value e.value) (elems_node root) ≡ 0
  unfolding FoundIn
  absent f = omega (
    arith,
    tally-fresh e.value (elems_node root) t.fresh,
    subst (λ o. FoundIn (hashed e).hval e.value o (elems_node root)) f
        (find_node-FoundIn 0 (hashed e).hval e.value root t.valid),
  )

  absent_value :
      (val : List ℕ)
      → has_value val e ≡ true
      → find_node (hashed e).hval e.value root ≡ none
      → tally (has_value val) (elems_node root) ≡ 0
  absent_value val k f =
      subst (λ v. tally (has_value v) (elems_node root) ≡ 0) (sym (same_bytes-≡ val e.value k))
        (absent f)

  found_not_added :
      (given : Bool) (o : Option SetElem) (ret : ErrorCode) (p : SetElem → Bool)
      → Answer given o ret
      → is_some o ≡ true
      → added ret p (hashed e) ≡ 0
  found_not_added given none ret p a h = absurd (ground arith)
  found_not_added given (some x) ret p a h = ap (λ c. added c p (hashed e)) a

  once :
      (given : Bool) (r : Linked HashNode)
      → NodeLinked given (hashed e) 0 root r
      → (val : List ℕ) → tally (has_value val) (elems_node r.result) ≤ 1
  once given r l val = elim (Bool-cases (has_value val e)) [
    | inr k ↦ ground (arith, k, l.more (has_value val), t.unique val)
    | inl k ↦ elim (Option-cases (find_node (hashed e).hval e.value root)) [
      | inl f ↦ ground (arith, absent_value val k f, l.more (has_value val))
      | inr (x, f) ↦ ground (
        arith,
        found_not_added given _ r.ret (has_value val) l.answer (ap is_some f),
        l.more (has_value val),
        t.unique val,
      )
    ]
  ]

  -- The tree, after an answer.
  linked-SetTree :
      (given : Bool) (r : Linked HashNode)
      → NodeLinked given (hashed e) 0 root r
      → SetTree (some r.result) (if is_success r.ret then ccnt + 1 else ccnt)
  linked-SetTree given r l = record {
    valid = l.valid;
    counted = ground (
      arith,
      length-tally (elems_node r.result),
      length-tally (elems_node root),
      l.more anything,
      t.counted,
    );
    fresh = ground (arith, l.more is_stale, hashed-fresh e, t.fresh);
    unique = once given r l;
  }

-- What a link below the root has done. `info` has the root, and its tree need not be of a whole set yet.
pub record Below (given : Bool) (info : SetMeta) (e : SetElem) (ret : ErrorCode) (r : SetMeta)
    : Type 0 where
  pub valid : is_success ret ≡ true → SetValid r
  pub same : is_success ret ≡ false → r ≡ info
  pub outcome : (real : ℕ) → info.ccnt < real → Inserted real (not given) info e.value ret r

pub member-root :
    (info : SetMeta) (root : HashNode) (val : List ℕ)
    → info.root ≡ some root
    → member info val ≡ ltb 0 (tally (has_value val) (elems_node root))
member-root info root val h = ap (λ x. ltb 0 (tally (has_value val) (root_elems x))) h

-- The outcome, from what the answer says.
Answer-Inserted :
    (given : Bool) (o : Option SetElem) (ret : ErrorCode) (real : ℕ) (info r : SetMeta)
    (val : List ℕ)
    → Answer given o ret
    → member info val ≡ is_some o
    → info.ccnt < real
    → (is_success ret ≡ false → r ≡ info)
    → (is_success ret ≡ true
        → (r.ccnt ≡ info.ccnt + 1)
          × ((v : List ℕ) → member r v ≡ (same_bytes v val || member info v)))
    → Inserted real (not given) info val ret r
unfolding Inserted
Answer-Inserted given (some x) ret real info r val a m lt same grown =
    subst (λ c. Inserted real (not given) info val c r) (sym a) (m, same (ap is_success a))
Answer-Inserted given none ret real info r val (inl a) m lt same grown =
    let (c, g) = grown (ap is_success a) in
    subst (λ c. Inserted real (not given) info val c r) (sym a) (m, g, c, lt)
Answer-Inserted given none ret real info r val (inr (a, n)) m lt same grown =
    subst (λ c. Inserted real (not given) info val c r) (sym a) (ap not n, same (ap is_success a))

module _ (node_space : ℕ) (space : ℕ → ℕ) where
  -- The meta information that a link leaves, by whether it succeeded.
  abbrev left : SetMeta → SetElem → Bool → Bool → Option HashNode → SetMeta
  left info e s split root = record info {
    root = root;
    ccnt = if s then info.ccnt + 1 else info.ccnt;
    stotal =
        if s
        then info.stotal + (if split then node_space else 0) + space (length e.value)
        else info.stotal;
  }

  pub do_set_elem_link-Below :
      (given : Bool) (info : SetMeta) (e : SetElem) (root : HashNode)
      → info.root ≡ some root
      → SetTree (some root) info.ccnt
      → let r = do_set_elem_link node_space space given info e root in
        Below given info e (r.0) (r.1)
  unfolding do_set_elem_link
  do_set_elem_link-Below given info e root h t =
      let r = link_node given (hashed e) root in
      let l = link_node-NodeLinked given (hashed e) 0 root t.valid in
      let after = left info e (is_success r.ret) r.split (some r.result) in
      let tree = linked-SetTree e root info.ccnt t given r l in
      let same = λ (u : is_success r.ret ≡ false).
        ap₂ (λ b x. left info e b r.split x) u (ap some (l.unchanged u) ∙ sym h) in
      record {
        valid = λ s. record { tree = tree; rooted = ground arith };
        same = same;
        outcome = λ real lt.
            Answer-Inserted given (find_node (genhash_string_hash e.value) e.value root) r.ret real
              info after e.value l.answer
              (member-root info root e.value h ∙ sym (find_node-value root e.value t.valid t.fresh))
              lt same
              (λ s. (
                ground arith,
                λ v.
                    grown info e root r after v s (member-root after r.result v refl)
                      (member-root info root v h) (l.more (has_value v)),
              ));
      }
    where
      grown :
          (info : SetMeta) (e : SetElem) (root : HashNode) (r : Linked HashNode) (after : SetMeta)
          (v : List ℕ)
          → is_success r.ret ≡ true
          → member after v ≡ ltb 0 (tally (has_value v) (elems_node r.result))
          → member info v ≡ ltb 0 (tally (has_value v) (elems_node root))
          → tally (has_value v) (elems_node r.result)
            ≡ tally (has_value v) (elems_node root) + added r.ret (has_value v) (hashed e)
          → member after v ≡ (same_bytes v e.value || member info v)
      grown info e root r after v s m m' more = ground (arith, m, m', more, s)
