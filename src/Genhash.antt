-- ===== src/Genhash.antt =====
-- genhash.c: the generic hash table with separate chaining, where a key may be stored more than once.
mod Chain
pub mod Table
pub mod Remove
mod Tests
use arcus_memcached.Prelude.{
  ℕ, zero, suc, ◌+◌, ◌-◌, ◌%◌, ◌≡◌, Bool, true, false, Option, none, some, List, [], ◌∷◌, ◌++◌,
  get_or, set, replicate, length, ltb, ◌==◌, if◌then◌else◌, ◌*◌, ◌^◌,
}
use Prim.Native.Nat.{bit_xor}

-- `struct hash_ops`; `none` is a function pointer that is NULL. A key stands for its bytes and length.
pub record HashOps (K V : Type 0) : Type 0 where
  pub hashfunc : K → ℕ
  pub hasheq : K → K → Bool
  pub dup_key_op : Option (K → K)
  pub dup_value_op : Option (V → V)

-- `genhash_t`: `size` buckets of (key, value) entries.
pub record Genhash (K V : Type 0) : Type 0 where
  pub ops : HashOps K V
  pub size : ℕ
  pub buckets : List (List (K × V))

-- `enum update_type`
pub data UpdateType : Type 0 where
  modification new : UpdateType

-- `prime_size_table`
pub prime_size_table : List ℕ
prime_size_table =
    3 ∷ 7 ∷ 13 ∷ 23 ∷ 47 ∷ 97 ∷ 193 ∷ 383 ∷ 769 ∷ 1531 ∷ 3067 ∷ 6143 ∷ 12289 ∷ 24571 ∷ 49157 ∷ 98299
    ∷ 196613 ∷ 393209 ∷ 786433 ∷ 1572869 ∷ 3145721 ∷ 6291449 ∷ 12582917 ∷ 25165813 ∷ 50331653
    ∷ 100663291 ∷ 201326611 ∷ 402653189 ∷ 805306357 ∷ 1610612741 ∷ []

-- `str[i]`, a signed char, as an int of 32 bits.
abbrev signed_char : ℕ → ℕ
signed_char c = if ltb c 128 then c else 2 ^ 32 - 256 + c

-- The loop of `genhash_string_hash`: `((rv << 5) + rv) ^ str[i]` on 32 bits.
hash_loop : ℕ → List ℕ → ℕ
hash_loop rv [] = rv
hash_loop rv (c ∷ str) = hash_loop (bit_xor (rv * 33 % 2 ^ 32) (signed_char c)) str

-- `genhash_string_hash`; the int is that of the same 32 bits
unfoldable pub genhash_string_hash : List ℕ → ℕ
unfolding hash_loop
genhash_string_hash str = hash_loop 5381 str

module _ {K V : Type 0} where
  pub dup_key : HashOps K V → K → K
  dup_key ops k = elim ops.dup_key_op [ none ↦ k | some f ↦ f k ]

  pub dup_value : HashOps K V → V → V
  dup_value ops v = elim ops.dup_value_op [ none ↦ v | some f ↦ f v ]

  -- `genhash_init`, with `log2`, the truncated quotient of the two logarithms in `estimate_table_size`.
  pub genhash_init : (ℕ → ℕ) → ℕ → HashOps K V → Option (Genhash K V)
  unfolding prime_size_table
  genhash_init log2 est ops =
      let size = get_or prime_size_table (log2 est - 1) 0 in
      if est == 0
      then none
      else some (record { ops = ops; size = size; buckets = replicate size [] })

  -- The chain of a key: `h->buckets[h->ops.hashfunc(k, klen) % h->size]`.
  pub slot : Genhash K V → K → ℕ
  slot h k = h.ops.hashfunc k % h.size

  abbrev pub chain_of : Genhash K V → K → List (K × V)
  chain_of h k = get_or h.buckets (slot h k) []

  -- `genhash_store`
  pub genhash_store : Genhash K V → K → V → Genhash K V
  genhash_store h k v = record h {
    buckets = set h.buckets (slot h k) ((dup_key h.ops k, dup_value h.ops v) ∷ chain_of h k);
  }

  -- The loop of `genhash_find_entry` over a chain.
  pub find_entry : HashOps K V → K → List (K × V) → Option (K × V)
  find_entry ops k [] = none
  find_entry ops k (p ∷ ps) = if ops.hasheq k p.0 then some p else find_entry ops k ps

  pub genhash_find_entry : Genhash K V → K → Option (K × V)
  unfolding find_entry
  genhash_find_entry h k = find_entry h.ops k (chain_of h k)

  -- `p ? p->value : NULL`
  abbrev pub value_of : Option (K × V) → Option V
  value_of none = none
  value_of (some p) = some p.1

  -- `genhash_find`
  pub genhash_find : Genhash K V → K → Option V
  genhash_find h k = value_of (genhash_find_entry h k)

  -- `p->value = v` at the entry that the loop finds.
  pub assign : HashOps K V → K → (V → V) → List (K × V) → List (K × V)
  assign ops k f [] = []
  assign ops k f (p ∷ ps) = if ops.hasheq k p.0 then (p.0, f p.1) ∷ ps else p ∷ assign ops k f ps

  -- `genhash_update`
  pub genhash_update : Genhash K V → K → V → Genhash K V × UpdateType
  unfolding assign
  genhash_update h k v = elim (genhash_find_entry h k) [
    | some p ↦ (
      record h {
        buckets = set h.buckets (slot h k) (assign h.ops k (λ _. dup_value h.ops v) (chain_of h k));
      },
      modification,
    )
    | none ↦ (genhash_store h k v, new)
  ]

  -- `genhash_fun_update`, with the update function applied to its fixed argument.
  pub genhash_fun_update : Genhash K V → K → (K → V → V) → V → Genhash K V × UpdateType
  unfolding assign
  genhash_fun_update h k upd def = elim (genhash_find_entry h k) [
    | some p ↦ (
      record h {
        buckets =
            set h.buckets (slot h k)
              (assign h.ops k (λ w. dup_value h.ops (upd k w)) (chain_of h k));
      },
      modification,
    )
    | none ↦ (genhash_store h k (upd k def), new)
  ]

  -- The search of `genhash_delete` over a chain, which compares with the arguments the other way round:
  -- the entry that it frees, and the chain without it.
  pub delete_entry : HashOps K V → K → List (K × V) → Option (K × V) × List (K × V)
  delete_entry ops k [] = (none, [])
  delete_entry ops k (p ∷ ps) =
      let (freed, rest) = delete_entry ops k ps in
      if ops.hasheq p.0 k then (some p, ps) else (freed, p ∷ rest)

  -- `if (deleteme != NULL) rv++`
  abbrev pub gone : Option (K × V) → ℕ
  gone none = 0
  gone (some p) = 1

  -- `genhash_delete`: the table, and how many entries went.
  pub genhash_delete : Genhash K V → K → Genhash K V × ℕ
  unfolding delete_entry
  genhash_delete h k =
      let (freed, rest) = delete_entry h.ops k (chain_of h k) in
      (record h { buckets = set h.buckets (slot h k) rest }, gone freed)

  -- `genhash_delete_all`, on fuel for its loop; `none` means that the fuel ran out.
  pub genhash_delete_all : ℕ → Genhash K V → K → ℕ → Option (Genhash K V × ℕ)
  genhash_delete_all zero h k rv = none
  genhash_delete_all (suc fuel) h k rv =
      let (h', n) = genhash_delete h k in
      let rest = genhash_delete_all fuel h' k (rv + 1) in if n == 1 then rest else some (h', rv)

  -- The loop of `genhash_clear`, which frees the entries of every bucket.
  clear_all : List (List (K × V)) → List (List (K × V))
  clear_all [] = []
  clear_all (c ∷ cs) = [] ∷ clear_all cs

  -- `genhash_clear`
  pub genhash_clear : Genhash K V → Genhash K V
  unfolding clear_all
  genhash_clear h = record h { buckets = clear_all h.buckets }

  -- `genhash_iter`, as a fold of what the callback does to its argument.
  pub iter_chain : {S : Type 0} → (K → V → S → S) → List (K × V) → S → S
  iter_chain f [] s = s
  iter_chain f (p ∷ ps) s = iter_chain f ps (f p.0 p.1 s)

  pub iter_buckets : {S : Type 0} → (K → V → S → S) → List (List (K × V)) → S → S
  unfolding iter_chain
  iter_buckets f [] s = s
  iter_buckets f (c ∷ cs) s = iter_buckets f cs (iter_chain f c s)

  pub genhash_iter : {S : Type 0} → Genhash K V → (K → V → S → S) → S → S
  unfolding iter_buckets
  genhash_iter h f s = iter_buckets f h.buckets s

  -- `genhash_iter_key`
  pub iter_key : {S : Type 0} → HashOps K V → K → (K → V → S → S) → List (K × V) → S → S
  iter_key ops k f [] s = s
  iter_key ops k f (p ∷ ps) s = iter_key ops k f ps (if ops.hasheq k p.0 then f p.0 p.1 s else s)

  pub genhash_iter_key : {S : Type 0} → Genhash K V → K → (K → V → S → S) → S → S
  unfolding iter_key
  genhash_iter_key h k f s = iter_key h.ops k f (chain_of h k) s

  -- `count_entries`
  abbrev pub count_entries : K → V → ℕ → ℕ
  count_entries k v count = count + 1

  -- `genhash_size`
  pub genhash_size : Genhash K V → ℕ
  unfolding genhash_iter
  genhash_size h = genhash_iter h count_entries 0

  -- `genhash_size_for_key`
  pub genhash_size_for_key : Genhash K V → K → ℕ
  unfolding genhash_iter_key
  genhash_size_for_key h k = genhash_iter_key h k count_entries 0
