-- ===== src/CollSet/Run.antt =====
-- engines/default/coll_set.c: sequences of operations on a set, against a set of values.
use arcus_memcached.Prelude.{
  ℕ, ◌≡◌, ap, ◌∙◌, Bool, ◌&&◌, ◌||◌, not, some, List, [], ◌∷◌, same_bytes, arith,
}
use arcus_memcached.CollList.{ErrorCode}
use arcus_memcached.CollSet.{SetElem, SetMeta}
use arcus_memcached.CollSet.Shallow.{ShallowRoot}
use arcus_memcached.CollSet.Member.{SetValid, member, looked_up, do_set_elem_find-member}
use arcus_memcached.CollSet.Insert.{do_set_elem_insert}
use arcus_memcached.CollSet.Insert.Below.{Inserted}
use arcus_memcached.CollSet.Insert.Outcome.{
  do_set_elem_insert-Answered, do_set_elem_insert-SetValid,
}
use arcus_memcached.CollSet.Delete.{do_set_elem_delete_with_value}
use arcus_memcached.CollSet.Delete.Value.{
  Removed, do_set_elem_delete_with_value-Removed, do_set_elem_delete_with_value-SetValid,
}

-- An operation on a set: an insertion, with what the memory grants, or a deletion.
pub data SetOp : Type 0 where
  insert : Bool → Bool → Bool → SetElem → SetOp
  delete : List ℕ → SetOp

-- What an operation that returned the code does to a set of values.
abbrev pub change : SetOp → ErrorCode → (List ℕ → Bool) → List ℕ → Bool
change (insert sticky_full given_root given e) ErrorCode.success m v = same_bytes v e.value || m v
change (delete val) ErrorCode.success m v = not (same_bytes v val) && m v
change op _ m v = m v

module _ (node_space : ℕ) (space : ℕ → ℕ) (max_set_size : ℕ) where
  abbrev pub step : SetMeta → SetOp → ErrorCode × SetMeta
  step info (insert sticky_full given_root given e) =
      do_set_elem_insert node_space space max_set_size sticky_full given_root given info e
  step info (delete val) = do_set_elem_delete_with_value node_space space info val

  -- The set after the operations, and the values that it should then hold.
  unfoldable pub run : SetMeta → List SetOp → SetMeta
  run info [] = info
  run info (op ∷ ops) = run (step info op).1 ops

  unfoldable pub values_after : SetMeta → (List ℕ → Bool) → List SetOp → List ℕ → Bool
  values_after info m [] = m
  values_after info m (op ∷ ops) = values_after (step info op).1 (change op (step info op).0 m) ops

  Inserted-change :
      (real : ℕ) (short : Bool) (info : SetMeta) (ret : ErrorCode) (r : SetMeta) (m : List ℕ → Bool)
      (sticky_full given_root given : Bool) (e : SetElem)
      → Inserted real short info e.value ret r
      → ((v : List ℕ) → member info v ≡ m v)
      → (v : List ℕ) → member r v ≡ change (insert sticky_full given_root given e) ret m v
  unfolding Inserted
  Inserted-change real short info ErrorCode.success r m b c d e (a, g, x, y) h v =
      g v ∙ ap (λ z. same_bytes v e.value || z) (h v)
  Inserted-change real short info ErrorCode.elem_eexists r m b c d e (a, q) h v =
      ap (λ i. member i v) q ∙ h v
  Inserted-change real short info ErrorCode.eoverflow r m b c d e (a, q) h v =
      ap (λ i. member i v) q ∙ h v
  Inserted-change real short info ErrorCode.enomem r m b c d e (a, q) h v =
      ap (λ i. member i v) q ∙ h v
  Inserted-change real short info _ r m b c d e a h v = absurd (ground arith)

  Removed-change :
      (info : SetMeta) (val : List ℕ) (ret : ErrorCode) (r : SetMeta) (m : List ℕ → Bool)
      → Removed info val ret r
      → ((v : List ℕ) → member info v ≡ m v)
      → (v : List ℕ) → member r v ≡ change (delete val) ret m v
  unfolding Removed
  Removed-change info val ErrorCode.success r m (a, g, x) h v =
      g v ∙ ap (λ z. not (same_bytes v val) && z) (h v)
  Removed-change info val ErrorCode.elem_enoent r m (a, f, q) h v = ap (λ i. member i v) q ∙ h v
  Removed-change info val _ r m a h v = absurd (ground arith)

  -- A set of values that a valid set holds, and that `do_set_elem_find` finds there.
  pub record Holds (m : List ℕ → Bool) (info : SetMeta) : Type 0 where
    pub valid : SetValid info
    pub members : (val : List ℕ) → member info val ≡ m val
    pub finds : (val : List ℕ) → looked_up info val ≡ some (m val)

  -- Before each operation, and after the last, the depth of every node is less than 7.
  unfoldable pub ShallowRun : SetMeta → List SetOp → Type 0
  ShallowRun info [] = ShallowRoot info.root
  ShallowRun info (op ∷ ops) = ShallowRoot info.root × ShallowRun (step info op).1 ops

  here : (info : SetMeta) (ops : List SetOp) → ShallowRun info ops → ShallowRoot info.root
  unfolding ShallowRun
  here info [] h = h
  here info (op ∷ ops) h = h.0

  valid-Holds :
      (m : List ℕ → Bool) (info : SetMeta)
      → ShallowRoot info.root
      → SetValid info
      → ((val : List ℕ) → member info val ≡ m val)
      → Holds m info
  valid-Holds m info l v e = record {
    valid = v;
    members = e;
    finds = λ val. do_set_elem_find-member info val v l ∙ ap some (e val);
  }

  step-Holds :
      (m : List ℕ → Bool) (info : SetMeta) (op : SetOp)
      → ShallowRoot info.root
      → ShallowRoot (step info op).1.root
      → Holds m info
      → Holds (change op (step info op).0 m) (step info op).1
  step-Holds m info (insert sticky_full given_root given e) l l' h =
      let r = step info (insert sticky_full given_root given e) in
      valid-Holds _ (r.1) l'
        (do_set_elem_insert-SetValid node_space space max_set_size sticky_full given_root given info
          e h.valid)
        (Inserted-change _ _ info (r.0) (r.1) m sticky_full given_root given e
          (do_set_elem_insert-Answered node_space space max_set_size sticky_full given_root given
            info e h.valid)
          h.members)
  step-Holds m info (delete val) l l' h =
      let r = step info (delete val) in
      valid-Holds _ (r.1) l'
        (do_set_elem_delete_with_value-SetValid node_space space info val h.valid l)
        (Removed-change info val (r.0) (r.1) m
          (do_set_elem_delete_with_value-Removed node_space space info val h.valid l) h.members)

  -- After any sequence of insertions and deletions, whatever memory they are granted, that keeps the depth of every
  -- node less than 7, a valid set is valid, and the values that it holds, which are those that `do_set_elem_find`
  -- finds, are just those that the operations which returned success have added and not taken away.
  pub run-Holds :
      (m : List ℕ → Bool) (info : SetMeta) (ops : List SetOp)
      → ShallowRun info ops
      → Holds m info
      → Holds (values_after info m ops) (run info ops)
  unfolding run values_after ShallowRun
  run-Holds m info [] l h = h
  run-Holds m info (op ∷ ops) (l, ls) h =
      run-Holds (change op (step info op).0 m) (step info op).1 ops ls
        (step-Holds m info op l (here (step info op).1 ops ls) h)
