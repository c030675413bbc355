-- ===== src/Util/Swap.antt =====
-- util.c: the byte order of 64-bit words.
use arcus_memcached.Prelude.{ℕ, suc, ◌+◌, ◌*◌, ◌/◌, ◌%◌, ◌^◌, ◌<◌, ◌≡◌, sym, ap, ap₂, ◌∙◌, arith}
use arcus_memcached.Util.{swap_loop, mc_swap64, mc_ntohll, mc_htonll}

step :
    (n rv b word : ℕ)
    → b < 256
    → rv < 2 ^ 56
    → swap_loop (suc n) rv (b + 256 * word) ≡ swap_loop n (rv * 256 + b) word
unfolding swap_loop
step n rv b word h k =
    ap₂ (swap_loop n) (ap₂ (λ x y. x + y) (small rv k) (low b word h)) (high b word h)
  where
    small : (rv : ℕ) → rv < 2 ^ 56 → rv * 256 % 2 ^ 64 ≡ rv * 256
    small rv k = omega arith

    low : (b word : ℕ) → b < 256 → (b + 256 * word) % 256 ≡ b
    low b word h = omega arith

    high : (b word : ℕ) → b < 256 → (b + 256 * word) / 256 ≡ word
    high b word h = omega arith

-- The word of eight bytes, the lowest first.
abbrev pub word_of : ℕ → ℕ → ℕ → ℕ → ℕ → ℕ → ℕ → ℕ → ℕ
word_of b0 b1 b2 b3 b4 b5 b6 b7 =
    (b0
      + 256
        * (b1
            + 256
              * (b2 + 256 * (b3 + 256 * (b4 + 256 * (b5 + 256 * (b6 + 256 * (b7 + 256 * 0))))))))

-- `mc_swap64` reverses the bytes of a word.
pub mc_swap64-word_of :
    (b0 b1 b2 b3 b4 b5 b6 b7 : ℕ)
    → b0 < 256
    → b1 < 256
    → b2 < 256
    → b3 < 256
    → b4 < 256
    → b5 < 256
    → b6 < 256
    → b7 < 256
    → mc_swap64 (word_of b0 b1 b2 b3 b4 b5 b6 b7) ≡ word_of b7 b6 b5 b4 b3 b2 b1 b0
unfolding mc_swap64 swap_loop
mc_swap64-word_of b0 b1 b2 b3 b4 b5 b6 b7 h0 h1 h2 h3 h4 h5 h6 h7 =
    step 7 0 b0
      (b1 + 256 * (b2 + 256 * (b3 + 256 * (b4 + 256 * (b5 + 256 * (b6 + 256 * (b7 + 256 * 0)))))))
      h0 (omega arith)
    ∙ step 6 (0 * 256 + b0) b1
        (b2 + 256 * (b3 + 256 * (b4 + 256 * (b5 + 256 * (b6 + 256 * (b7 + 256 * 0)))))) h1
        (omega arith)
    ∙ step 5 ((0 * 256 + b0) * 256 + b1) b2
        (b3 + 256 * (b4 + 256 * (b5 + 256 * (b6 + 256 * (b7 + 256 * 0))))) h2 (omega arith)
    ∙ step 4 (((0 * 256 + b0) * 256 + b1) * 256 + b2) b3
        (b4 + 256 * (b5 + 256 * (b6 + 256 * (b7 + 256 * 0)))) h3 (omega arith)
    ∙ step 3 ((((0 * 256 + b0) * 256 + b1) * 256 + b2) * 256 + b3) b4
        (b5 + 256 * (b6 + 256 * (b7 + 256 * 0))) h4 (omega arith)
    ∙ step 2 (((((0 * 256 + b0) * 256 + b1) * 256 + b2) * 256 + b3) * 256 + b4) b5
        (b6 + 256 * (b7 + 256 * 0)) h5 (omega arith)
    ∙ step 1 ((((((0 * 256 + b0) * 256 + b1) * 256 + b2) * 256 + b3) * 256 + b4) * 256 + b5) b6
        (b7 + 256 * 0) h6 (omega arith)
    ∙ step 0
        (((((((0 * 256 + b0) * 256 + b1) * 256 + b2) * 256 + b3) * 256 + b4) * 256 + b5) * 256 + b6)
        b7 0 h7 (omega arith)
    ∙ omega arith

-- A word is the word of its bytes.
word_of-bytes :
    (w : ℕ)
    → w < 2 ^ 64
    → word_of
        (w % 256)
        (w / 256 % 256)
        (w / 256 / 256 % 256)
        (w / 256 / 256 / 256 % 256)
        (w / 256 / 256 / 256 / 256 % 256)
        (w / 256 / 256 / 256 / 256 / 256 % 256)
        (w / 256 / 256 / 256 / 256 / 256 / 256 % 256)
        (w / 256 / 256 / 256 / 256 / 256 / 256 / 256 % 256)
      ≡ w
word_of-bytes w h = omega arith

byte : (w : ℕ) → w % 256 < 256
byte w = omega arith

-- `mc_ntohll` undoes `mc_htonll` on 64-bit words.
pub ntohll-htonll : (val : ℕ) → val < 2 ^ 64 → mc_ntohll (mc_htonll val) ≡ val
ntohll-htonll val h =
    let e = word_of-bytes val h in
    ap (λ x. mc_swap64 (mc_swap64 x)) (sym e)
    ∙ ap mc_swap64 (
        mc_swap64-word_of (val % 256) (val / 256 % 256) (val / 256 / 256 % 256)
          (val / 256 / 256 / 256 % 256) (val / 256 / 256 / 256 / 256 % 256)
          (val / 256 / 256 / 256 / 256 / 256 % 256) (val / 256 / 256 / 256 / 256 / 256 / 256 % 256)
          (val / 256 / 256 / 256 / 256 / 256 / 256 / 256 % 256) (byte (val)) (byte (val / 256))
          (byte (val / 256 / 256)) (byte (val / 256 / 256 / 256))
          (byte (val / 256 / 256 / 256 / 256)) (byte (val / 256 / 256 / 256 / 256 / 256))
          (byte (val / 256 / 256 / 256 / 256 / 256 / 256))
          (byte (val / 256 / 256 / 256 / 256 / 256 / 256 / 256)))
    ∙ mc_swap64-word_of (val / 256 / 256 / 256 / 256 / 256 / 256 / 256 % 256)
        (val / 256 / 256 / 256 / 256 / 256 / 256 % 256) (val / 256 / 256 / 256 / 256 / 256 % 256)
        (val / 256 / 256 / 256 / 256 % 256) (val / 256 / 256 / 256 % 256) (val / 256 / 256 % 256)
        (val / 256 % 256) (val % 256) (byte (val / 256 / 256 / 256 / 256 / 256 / 256 / 256))
        (byte (val / 256 / 256 / 256 / 256 / 256 / 256)) (byte (val / 256 / 256 / 256 / 256 / 256))
        (byte (val / 256 / 256 / 256 / 256)) (byte (val / 256 / 256 / 256)) (byte (val / 256 / 256))
        (byte (val / 256)) (byte (val))
    ∙ e
