-- ===== src/Token/Buffer.antt =====
-- mc_util.c: the width of the token buffer.
use arcus_memcached.Prelude.{
  ℕ, zero, suc, ◌+◌, ◌-◌, ◌%◌, ◌^◌, ◌≤◌, ◌<◌, ◌≡◌, refl, Bool, true, false, some, leb, ◌||◌, ltb,
  arith, Bool-cases, inl, inr,
}
use arcus_memcached.Token.{TokenBuff, widen, token_buff_get}

no_wrap :
    (from count : ℕ) → from < count → count + 5000 ≤ 2 ^ 32 → (from + 5000) % 2 ^ 32 ≡ from + 5000
no_wrap from count h k = omega arith

-- With more fuel than entries are missing, the loop ends at a width that is enough, where no round wraps.
widen_ends :
    (fuel from count : ℕ)
    → count - from < fuel
    → count + 5000 ≤ 2 ^ 32
    → (n : ℕ) × (widen fuel from count ≡ some n) × (count ≤ n)
unfolding widen
widen_ends zero from count h k = absurd (omega arith)
widen_ends (suc fuel) from count h k = elim (Bool-cases (ltb from count)) [
  | inl e ↦
      let (n, f, w) = widen_ends fuel (from + 5000) count (ground arith) k in
      (n, rw (e, no_wrap from count (ground arith) k) f, w)
  | inr e ↦ (from, rw (e) refl, ground arith)
]

-- The result of `token_buff_get`: an array of the entries that were asked for, in use, or NULL and the
-- buffer as it was.
pub record Got (given : Bool) (buff : TokenBuff) (count : ℕ) (r : TokenBuff × Bool) : Type 0 where
  pub wide : r.1 ≡ true → count ≤ r.0.count
  pub in_use : r.1 ≡ true → r.0.nused ≡ buff.nused + 1
  pub refused : r.1 ≡ false → r.0 ≡ buff
  pub granted : r.1 ≡ leb count buff.count || given

-- `token_buff_get` of a count of at most 2 ^ 32 - 5000 returns, with fuel for one round more than the entries that
-- are asked for: an array of at least the count in use, or NULL and the buffer as it was. It fails only if the array
-- is too short and `realloc` gives no memory.
pub token_buff_get-Got :
    (given : Bool) (buff : TokenBuff) (count : ℕ)
    → count + 5000 ≤ 2 ^ 32
    → (r : TokenBuff × Bool) × (token_buff_get (count + 1) given buff count ≡ some r)
      × Got given buff count r
unfolding token_buff_get
token_buff_get-Got given buff count h = elim (Bool-cases (ltb buff.count count)) [
  | inr e ↦ (
    (record buff { nused = buff.nused + 1 }, true),
    rw (e) refl,
    record {
      wide = λ x. ground arith;
      in_use = λ x. refl;
      refused = λ x. absurd (ground arith);
      granted = ground arith;
    },
  )
  | inl e ↦
      let (n, f, w) = widen_ends (count + 1) buff.count count (omega arith) h in
      elim (Bool-cases given) [
        | inl g ↦ (
          (record { count = n; nused = buff.nused + 1 }, true),
          rw (e, f, g) refl,
          record {
            wide = λ x. w;
            in_use = λ x. refl;
            refused = λ x. absurd (ground arith);
            granted = ground arith;
          },
        )
        | inr g ↦ (
          (buff, false),
          rw (e, f, g) refl,
          record {
            wide = λ x. absurd (ground arith);
            in_use = λ x. absurd (ground arith);
            refused = λ x. refl;
            granted = ground arith;
          },
        )
      ]
]
