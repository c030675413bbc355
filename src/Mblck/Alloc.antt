-- ===== src/Mblck/Alloc.antt =====
-- mc_util.c: the allocation, the release and the merge of block lists.
use arcus_memcached.Prelude.{
  ℕ, ◌+◌, ◌-◌, ◌*◌, ◌/◌, ◌≤◌, ◌<◌, min, ◌≡◌, refl, sym, ap, ◌∙◌, subst, Bool, true, false, Option,
  none, some, List, [], ◌∷◌, ◌++◌, append-nil, length, length-append, ltb, leb, if◌then◌else◌,
  arith, if_cases,
}
use arcus_memcached.Mblck.{Pool, Blist, last_of, mblck_list_merge, mblck_list_free}
use arcus_memcached.Mblck.Account.{IsValid, IsList, last_of-append, last_of-none}

abbrev pub chain_of : Option Blist → List ℕ
chain_of none = []
chain_of (some list) = list.chain

abbrev pub is_given : Option Blist → Bool
is_given none = false
is_given (some list) = true

-- After an allocation of `n` blocks: the list, the pool and the memory hold the blocks that the pool and
-- the memory held, in the same order; the list is given just when there were enough of them.
pub record Allocated (n : ℕ) (mem : List ℕ) (pool : Pool) (r : Pool × Option Blist × List ℕ)
    : Type 0 where
  pub valid : IsValid r.0
  pub conserved : chain_of r.1 ++ (r.0.chain ++ r.2) ≡ pool.chain ++ mem
  pub answer : is_given r.1 ≡ leb n (pool.free_cnt + length mem)
  pub taken : length (chain_of r.1) ≡ (if is_given r.1 then n else 0)
  pub used : r.0.used_cnt ≡ pool.used_cnt + length (chain_of r.1)

record Filled (need : ℕ) (mem : List ℕ) (pool : Pool) (r : Pool × List ℕ × ℕ) : Type 0 where
  valid : IsValid r.0
  conserved : r.0.chain ++ r.1 ≡ pool.chain ++ mem
  count : r.2 ≡ min need (length mem)
  free : r.0.free_cnt ≡ pool.free_cnt + r.2
  used : r.0.used_cnt ≡ pool.used_cnt

-- After a release: the blocks of the list stand in front of those of the pool, and are not used.
pub record Freed (pool : Pool) (list : Blist) (r : Pool × Blist) : Type 0 where
  pub valid : IsValid r.0
  pub conserved : r.0.chain ≡ list.chain ++ pool.chain
  pub unused : r.0.used_cnt ≡ pool.used_cnt - length list.chain
  pub emptied : r.1.chain ≡ []
  pub detached : r.1.pool ≡ false

empty_chain : (c : List ℕ) (n : ℕ) → length c ≡ n → ltb 0 n ≡ false → c ≡ []
empty_chain [] n e f = refl
empty_chain (x ∷ c) n e f = absurd (ground arith)

-- The tail of the joined chain is that of the second, unless this is empty.
joined_tail :
    (c d : List ℕ) (s t : Option ℕ)
    → s ≡ last_of c
    → t ≡ last_of d
    → (elim t [ none ↦ s | some last ↦ some last ]) ≡ last_of (c ++ d)
unfolding last_of
joined_tail c [] s t e f = ground (arith, ap last_of (append-nil c))
joined_tail c (b ∷ d) s (some x) e f = f ∙ sym (last_of-append c d b)
joined_tail c (b ∷ d) s none e f = absurd (ground (arith, last_of-none (b ∷ d) (sym f)))

-- `mblck_list_free` gives every block of a list back to the pool, and empties the list.
pub mblck_list_free-Freed :
    (pool : Pool) (list : Blist)
    → IsValid pool
    → IsList list
    → Freed pool list (mblck_list_free pool list)
unfolding mblck_list_free
mblck_list_free-Freed pool list v l =
    if_cases (Freed pool list) (ltb 0 list.blck_cnt) _ _
      (λ e. record {
        valid = record {
          count = summed list.chain pool.chain list.blck_cnt pool.free_cnt l.count v.count;
          end = joined_tail list.chain pool.chain list.tail pool.tail l.end v.end;
        };
        conserved = refl;
        unused = ap (λ x. pool.used_cnt - x) (sym l.count);
        emptied = refl;
        detached = refl;
      })
      (λ e.
        let none_there = empty_chain list.chain list.blck_cnt l.count e in
        record {
          valid = v;
          conserved = sym (ap (λ x. x ++ pool.chain) none_there);
          unused = unchanged pool.used_cnt (length list.chain) (ap length none_there);
          emptied = none_there;
          detached = refl;
        })
  where
    unchanged : (u n : ℕ) → n ≡ 0 → u ≡ u - n
    unchanged u n e = omega arith

    summed : (c d : List ℕ) (n k : ℕ) → length c ≡ n → length d ≡ k → length (c ++ d) ≡ k + n
    summed c d n k e f = omega (arith, length-append c d)

-- `mblck_list_merge` moves the blocks of the second list, which has some, to the end of the first.
pub mblck_list_merge-IsList :
    (pri add : Blist)
    → IsList pri
    → IsList add
    → 0 < add.blck_cnt
    → IsList (mblck_list_merge pri add).0
      × ((mblck_list_merge pri add).0.chain ≡ pri.chain ++ add.chain)
      × ((mblck_list_merge pri add).1.chain ≡ [])
unfolding mblck_list_merge
mblck_list_merge-IsList pri add p a h = (
  record {
    count = summed pri.chain add.chain pri.blck_cnt add.blck_cnt p.count a.count;
    end = end_of pri.chain add.chain add.tail a.end (subst (λ k. 0 < k) (sym a.count) h);
  },
  refl,
  refl,
)
  where
    summed : (c d : List ℕ) (n k : ℕ) → length c ≡ n → length d ≡ k → length (c ++ d) ≡ n + k
    summed c d n k e f = omega (arith, length-append c d)

    end_of : (c d : List ℕ) (t : Option ℕ) → t ≡ last_of d → 0 < length d → t ≡ last_of (c ++ d)
    end_of c [] t e h = absurd (omega arith)
    end_of c (b ∷ d) t e h = e ∙ sym (last_of-append c d b)

-- The blocks that `mblck_list_alloc` asks for: enough to hold the items, and one block less would not be.
pub record Fits (pool : Pool) (item_len item_cnt n : ℕ) : Type 0 where
  pub enough : item_cnt ≤ n * (pool.body_len / item_len)
  pub least : (n - 1) * (pool.body_len / item_len) < item_cnt
