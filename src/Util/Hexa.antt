-- ===== src/Util/Hexa.antt =====
-- util.c: the hexadecimal form of byte strings.
use arcus_memcached.Prelude.{
  ℕ, ◌+◌, ◌-◌, ◌*◌, ◌/◌, ◌%◌, ◌≤◌, ◌<◌, ◌≡◌, refl, sym, ap, ap₂, ◌∙◌, Bool, true, false, ◌&&◌, ◌||◌,
  not, none, some, List, [], ◌∷◌, ◌++◌, map, length, leb, ltb, ltb→lt, ◌==◌, if◌then◌else◌, arith,
  Bool-cases, Option-cases, inl, inr,
}
use arcus_memcached.Util.{
  digit, digit_pair, strtohexa_loop, safe_strtohexa, digit_char, safe_hexatostr,
}

-- Every entry is a byte.
unfoldable pub all_bytes : List ℕ → Bool
all_bytes [] = true
all_bytes (b ∷ bs) = let rest = all_bytes bs in ltb b 256 && rest

-- The string before its null byte.
unfoldable pub until_null : List ℕ → List ℕ
until_null [] = []
until_null (c ∷ cs) = let rest = until_null cs in if c == 0 then [] else c ∷ rest

digit-digit_char : (n : ℕ) → n < 16 → digit (digit_char n) ≡ some n
unfolding digit digit_char
digit-digit_char n h = ground arith

digit_char-positive : (n : ℕ) → (digit_char n == 0) ≡ false
unfolding digit_char
digit_char-positive n = ground arith

halves : (b : ℕ) → ltb b 256 ≡ true → (b / 16 % 16 * 16 + b % 16) % 256 ≡ b
halves b h = omega (arith, ltb→lt b 256 h)

-- One round of the loop, by the digits that it reads.
strtohexa_loop-digits :
    (c d high low : ℕ) (rest : List ℕ)
    → digit c ≡ some high
    → digit d ≡ some low
    → strtohexa_loop (c ∷ d ∷ rest)
      ≡ ((strtohexa_loop rest).0, (high * 16 + low) % 256 ∷ (strtohexa_loop rest).1)
unfolding strtohexa_loop
strtohexa_loop-digits c d high low rest f g = ap₂ (λ x y. digit_pair x y (strtohexa_loop rest)) f g

strtohexa_loop-bad_high :
    (c d : ℕ) (rest : List ℕ) → digit c ≡ none → (strtohexa_loop (c ∷ d ∷ rest)).0 ≡ false
unfolding strtohexa_loop
strtohexa_loop-bad_high c d rest f = ap (λ x. (digit_pair x (digit d) (strtohexa_loop rest)).0) f

strtohexa_loop-bad_low :
    (c d high : ℕ) (rest : List ℕ)
    → digit c ≡ some high
    → digit d ≡ none
    → (strtohexa_loop (c ∷ d ∷ rest)).0 ≡ false
unfolding strtohexa_loop
strtohexa_loop-bad_low c d high rest f g = ap₂ (λ x y. (digit_pair x y (strtohexa_loop rest)).0) f g

until_null-two :
    (c d : ℕ) (rest : List ℕ)
    → (c == 0) ≡ false
    → (d == 0) ≡ false
    → until_null (c ∷ d ∷ rest) ≡ c ∷ d ∷ until_null rest
unfolding until_null
until_null-two c d rest f g = rw (f, g) refl

strtohexa_loop-hexatostr :
    (bin : List ℕ)
    → all_bytes bin ≡ true
    → strtohexa_loop (until_null (safe_hexatostr bin)) ≡ (true, bin)
unfolding strtohexa_loop safe_hexatostr until_null all_bytes
strtohexa_loop-hexatostr [] h = refl
strtohexa_loop-hexatostr (b ∷ bin) h =
    let high = digit_char (b / 16 % 16) in
    let low = digit_char (b % 16) in
    let rest = until_null (safe_hexatostr bin) in
    ap strtohexa_loop (
      until_null-two high low (safe_hexatostr bin) (digit_char-positive (b / 16 % 16))
        (digit_char-positive (b % 16)))
    ∙ strtohexa_loop-digits high low (b / 16 % 16) (b % 16) rest
        (digit-digit_char (b / 16 % 16) (small (b / 16))) (digit-digit_char (b % 16) (small b))
    ∙ ap₂ (λ (r : Bool × List ℕ) (x : ℕ). (r.0, x ∷ r.1))
        (strtohexa_loop-hexatostr bin (ground arith)) (halves b (ground arith))
  where
    small : (n : ℕ) → n % 16 < 16
    small n = omega arith

length-hexatostr : (bin : List ℕ) → length (until_null (safe_hexatostr bin)) ≡ 2 * length bin
unfolding safe_hexatostr until_null
length-hexatostr [] = refl
length-hexatostr (b ∷ bin) =
    ground
      (arith, length-hexatostr bin, digit_char-positive (b / 16 % 16), digit_char-positive (b % 16))

-- `safe_strtohexa` reads what `safe_hexatostr` has written: it succeeds for one byte or more, if they fit.
pub strtohexa-hexatostr :
    (bin : List ℕ) (size : ℕ)
    → all_bytes bin ≡ true
    → 0 < length bin
    → length bin ≤ size
    → safe_strtohexa (until_null (safe_hexatostr bin)) size ≡ (true, bin)
unfolding safe_strtohexa
strtohexa-hexatostr bin size h p q =
    rw (length-hexatostr bin, strtohexa_loop-hexatostr bin h) (ground arith)

-- The upper case of a hexadecimal digit.
unfoldable pub upper : ℕ → ℕ
upper c = if leb 97 c && leb c 102 then c - 32 else c

digit_char-digit : (c n : ℕ) → digit c ≡ some n → (digit_char n ≡ upper c) × (n < 16)
unfolding digit digit_char upper
digit_char-digit c n h = (ground arith, ground arith)

-- An even string that the loop accepts, written again.
hexatostr-strtohexa_loop :
    (str : List ℕ) (n : ℕ)
    → length str ≡ 2 * n
    → (strtohexa_loop str).0 ≡ true
    → safe_hexatostr (strtohexa_loop str).1 ≡ map upper str ++ 0 ∷ []
unfolding strtohexa_loop safe_hexatostr
hexatostr-strtohexa_loop [] n e h = refl
hexatostr-strtohexa_loop (c ∷ []) n e h = absurd (omega arith)
hexatostr-strtohexa_loop (c ∷ d ∷ str) n e h = elim (Option-cases (digit c)) [
  | inl f ↦ absurd (ground (arith, strtohexa_loop-bad_high c d str f))
  | inr (high, f) ↦ elim (Option-cases (digit d)) [
    | inl g ↦ absurd (ground (arith, strtohexa_loop-bad_low c d high str f g))
    | inr (low, g) ↦
        let step = strtohexa_loop-digits c d high low str f g in
        let (u, p) = digit_char-digit c high f in
        let (v, q) = digit_char-digit d low g in
        let rest =
          hexatostr-strtohexa_loop str (n - 1) (omega arith)
            (sym (ap (λ (r : Bool × List ℕ). r.0) step) ∙ h) in
        ap (λ (r : Bool × List ℕ). safe_hexatostr r.1) step
        ∙ ap₂ (λ x y. x ∷ y) (ap digit_char (high_half high low p q) ∙ u)
            (ap₂ (λ x y. x ∷ y) (ap digit_char (low_half high low p q) ∙ v) rest)
  ]
]
  where
    high_half : (h l : ℕ) → h < 16 → l < 16 → (h * 16 + l) % 256 / 16 % 16 ≡ h
    high_half h l p q = omega arith

    low_half : (h l : ℕ) → h < 16 → l < 16 → (h * 16 + l) % 256 % 16 ≡ l
    low_half h l p q = omega arith

-- What `safe_strtohexa` reads, `safe_hexatostr` writes again, with capital letters.
pub hexatostr-strtohexa :
    (str : List ℕ) (size : ℕ)
    → (safe_strtohexa str size).0 ≡ true
    → safe_hexatostr (safe_strtohexa str size).1 ≡ map upper str ++ 0 ∷ []
unfolding safe_strtohexa
hexatostr-strtohexa str size h =
    elim (Bool-cases
      (length str == 0 || ltb (2 * size) (length str) || not (length str % 2 == 0))) [
        | inl e ↦ absurd (ground arith)
        | inr e ↦
            rw (e) (hexatostr-strtohexa_loop str (length str / 2) (ground arith) (ground arith))
      ]
