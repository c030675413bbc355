-- ===== src/CollSet/Member.antt =====
-- engines/default/coll_set.c: what a set holds, and what stays true of its meta information.
use arcus_memcached.Prelude.{
  ℕ, ◌≤◌, ◌≡◌, refl, sym, ap, subst, ◌∙◌, Bool, true, false, not, Option, none, some, List, [], ◌∷◌,
  length, ltb, ◌==◌, same_bytes, same_bytes-≡, arith, Bool-cases, inl, inr,
}
use arcus_memcached.CollSet.{SetElem, HashNode, SetMeta, set_hash_eq, search_node, do_set_elem_find}
use arcus_memcached.CollSet.Valid.{tally, elems_node, ValidNode}
use arcus_memcached.CollSet.Find.{find_node, FoundIn, find_node-FoundIn}
use arcus_memcached.CollSet.Shallow.{ShallowNode, ShallowRoot, search_node-find_node}
use arcus_memcached.Genhash.{genhash_string_hash}

abbrev pub is_some {ℓ} : {A : Type ℓ} → Option A → Bool
is_some none = false
is_some (some a) = true

abbrev pub root_elems : Option HashNode → List SetElem
root_elems none = []
root_elems (some node) = elems_node node

abbrev pub ValidRoot : Option HashNode → Type 0
ValidRoot none = Unit
ValidRoot (some node) = ValidNode 0 node

-- An element with the value.
abbrev pub has_value : List ℕ → SetElem → Bool
has_value val e = same_bytes val e.value

-- An element with a hash that is not that of its value.
abbrev pub is_stale : SetElem → Bool
is_stale e = not (e.hval == genhash_string_hash e.value)

-- The tree is well formed, its elements are as many as the count says, they carry the hash of their value,
-- and no value is there twice.
pub record SetTree (root : Option HashNode) (ccnt : ℕ) : Type 0 where
  pub valid : ValidRoot root
  pub counted : ccnt ≡ length (root_elems root)
  pub fresh : tally is_stale (root_elems root) ≡ 0
  pub unique : (val : List ℕ) → tally (has_value val) (root_elems root) ≤ 1

-- There is a tree just when the set is not empty.
pub record SetValid (info : SetMeta) : Type 0 where
  pub tree : SetTree info.root info.ccnt
  pub rooted : is_some info.root ≡ ltb 0 info.ccnt

-- Whether an element of the set has the value, wherever in the tree it is.
abbrev pub member : SetMeta → List ℕ → Bool
member info val = ltb 0 (tally (has_value val) (root_elems info.root))

-- `do_set_elem_find(info, val, vlen) != NULL`; `none` where the search reads outside the slots of a node.
abbrev pub looked_up : SetMeta → List ℕ → Option Bool
looked_up info val = elim (do_set_elem_find info val) [ none ↦ none | some o ↦ some (is_some o) ]

has_value-≡ : (val : List ℕ) (e : SetElem) → has_value val e ≡ true → val ≡ e.value
has_value-≡ val e h = same_bytes-≡ val e.value h

hash_test :
    (val : List ℕ) (e : SetElem)
    → is_stale e ≡ false
    → set_hash_eq (genhash_string_hash val) val e ≡ has_value val e
unfolding set_hash_eq
hash_test val e h = elim (Bool-cases (has_value val e)) [
  | inl k ↦ ground (arith, h, k, ap genhash_string_hash (has_value-≡ val e k))
  | inr k ↦ ground (arith, k)
]

-- Among elements that carry the hash of their value, the test of the hash tells nothing more.
pub tally-fresh :
    (val : List ℕ) (elems : List SetElem)
    → tally is_stale elems ≡ 0
    → tally (set_hash_eq (genhash_string_hash val) val) elems ≡ tally (has_value val) elems
unfolding tally
tally-fresh val [] h = refl
tally-fresh val (e ∷ elems) h =
    ground (arith, hash_test val e (ground arith), tally-fresh val elems (omega arith))

FoundIn-some :
    (val : List ℕ) (o : Option SetElem) (elems : List SetElem)
    → FoundIn (genhash_string_hash val) val o elems
    → tally is_stale elems ≡ 0
    → is_some o ≡ ltb 0 (tally (has_value val) elems)
unfolding FoundIn
FoundIn-some val none elems f h = ground (arith, f, tally-fresh val elems h)
FoundIn-some val (some x) elems (k, f) h =
    ground (arith, k, f (set_hash_eq (genhash_string_hash val) val), tally-fresh val elems h)

-- What the search of a valid tree comes to.
pub find_node-value :
    (root : HashNode) (val : List ℕ)
    → ValidNode 0 root
    → tally is_stale (elems_node root) ≡ 0
    → is_some (find_node (genhash_string_hash val) val root)
      ≡ ltb 0 (tally (has_value val) (elems_node root))
find_node-value root val v f =
    FoundIn-some val (find_node (genhash_string_hash val) val root) (elems_node root)
      (find_node-FoundIn 0 (genhash_string_hash val) val root v) f

pub do_set_elem_find-find_node :
    (info : SetMeta) (root : HashNode) (val : List ℕ)
    → info.root ≡ some root
    → ValidNode 0 root
    → ShallowNode root
    → do_set_elem_find info val ≡ some (find_node (genhash_string_hash val) val root)
unfolding do_set_elem_find
do_set_elem_find-find_node info root val h v l =
    ap
      (λ x. elim x [
        | none ↦ some none
        | some node ↦ search_node (genhash_string_hash val) val node
      ])
      h
    ∙ search_node-find_node 0 (genhash_string_hash val) val root v l

-- In a valid set whose nodes have depths less than 7, the search finds a value just when an element has it.
pub do_set_elem_find-member :
    (info : SetMeta) (val : List ℕ)
    → SetValid info
    → ShallowRoot info.root
    → looked_up info val ≡ some (member info val)
unfolding do_set_elem_find tally
do_set_elem_find-member info val s l = at_root info.root refl
  where
    shown : Option (Option SetElem) → Option Bool
    shown r = elim r [ none ↦ none | some o ↦ some (is_some o) ]

    at_root :
        (root : Option HashNode) → info.root ≡ root → looked_up info val ≡ some (member info val)
    at_root none h =
        ap
          (λ x. shown (elim x [
            | none ↦ some none
            | some node ↦ search_node (genhash_string_hash val) val node
          ]))
          h
        ∙ ap (λ x. some (ltb 0 (tally (has_value val) (root_elems x)))) (sym h)
    at_root (some root) h =
        let t : SetTree (some root) info.ccnt = subst (λ x. SetTree x info.ccnt) h s.tree in
        ap shown (do_set_elem_find-find_node info root val h t.valid (subst ShallowRoot h l))
        ∙ ap some (find_node-value root val t.valid t.fresh)
        ∙ ap (λ x. some (ltb 0 (tally (has_value val) (root_elems x)))) (sym h)
