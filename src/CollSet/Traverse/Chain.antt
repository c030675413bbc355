-- ===== src/CollSet/Traverse/Chain.antt =====
-- engines/default/coll_set.c: the deleting loop over a chain, and how many elements a count lets it take.
use arcus_memcached.Prelude.{
  ℕ, ◌+◌, ◌-◌, ◌≡◌, refl, Bool, true, false, List, [], ◌∷◌, length, ltb, if◌then◌else◌, arith,
  if_cases,
}
use arcus_memcached.CollList.{reached}
use arcus_memcached.CollSet.{SetElem, SetMeta}
use arcus_memcached.CollSet.Valid.{tally}
use arcus_memcached.CollSet.Delete.{do_set_elem_unlink}
use arcus_memcached.CollSet.Traverse.{Walked, walk_chain}

-- How many of `n` elements a count still lets a loop take; 0 stands for all.
abbrev pub quota : ℕ → ℕ → ℕ → ℕ
quota count fcnt n = if ltb 0 count then (if ltb (count - fcnt) n then count - fcnt else n) else n

pub quota-stop :
    (count fcnt a b n : ℕ)
    → n ≡ quota count fcnt a
    → reached count (fcnt + n) ≡ true
    → n ≡ quota count fcnt (a + b)
quota-stop count fcnt a b n h r = ground arith

pub quota-more :
    (count fcnt a b n m : ℕ)
    → reached count fcnt ≡ false
    → n ≡ quota count fcnt a
    → reached count (fcnt + n) ≡ false
    → m ≡ quota count (fcnt + n) b
    → n + m ≡ quota count fcnt (a + b)
quota-more count fcnt a b n m h e r f = ground arith

-- What the loop leaves of the elements, and of the meta information.
pub record Taken (count fcnt : ℕ) (elems : List SetElem) (info : SetMeta) (out left : List SetElem)
    (info' : SetMeta) : Type 0 where
  pub split : (p : SetElem → Bool) → tally p left + tally p out ≡ tally p elems
  pub amount : length out ≡ quota count fcnt (length elems)
  pub ccnt : info'.ccnt ≡ info.ccnt - length out
  pub mcnt : info'.mcnt ≡ info.mcnt

module _ (node_space : ℕ) (space : ℕ → ℕ) where
  pub walk_chain-Taken :
      (count : ℕ) (info : SetMeta) (elems : List SetElem) (fcnt : ℕ)
      → reached count fcnt ≡ false
      → let r = walk_chain node_space space true false count info elems fcnt in
        Taken count fcnt elems info r.visited r.result r.info
  unfolding walk_chain do_set_elem_unlink tally
  walk_chain-Taken count info [] fcnt h = record {
    split = λ p. refl;
    amount = ground arith;
    ccnt = omega arith;
    mcnt = refl;
  }
  walk_chain-Taken count info (e ∷ elems) fcnt h =
      if_cases {A = Walked (List SetElem)}
        (λ r. Taken count fcnt (e ∷ elems) info r.visited r.result r.info)
        (reached count (fcnt + 1)) _ _
        (λ g. record {
          split = λ p. omega arith;
          amount = ground arith;
          ccnt = omega arith;
          mcnt = refl;
        })
        (λ g.
          let t = walk_chain-Taken count (do_set_elem_unlink space info e) elems (fcnt + 1) g in
          record {
            split = λ p. omega (arith, t.split p);
            amount = ground (arith, t.amount);
            ccnt = omega (arith, t.ccnt);
            mcnt = t.mcnt;
          })
