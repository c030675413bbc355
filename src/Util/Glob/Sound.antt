-- ===== src/Util/Glob/Sound.antt =====
-- util.c: the texts that a glob pattern is for.
use arcus_memcached.Prelude.{
  ℕ, zero, suc, ◌≡◌, refl, sym, ◌∙◌, subst, true, false, ◌||◌, Option, none, some, List, [], ◌∷◌,
  drop, ◌==◌, ==_iff, if_cases, arith, Bool-cases, Option-cases, inl, inr,
}
use arcus_memcached.Util.Glob.{
  Glob, Backup, backtrack, glob_round, glob_loop, string_pattern_match, is_escape, after_escape,
  only_stars,
}

-- The texts that a pattern is for: '*' takes any characters and '?' takes one; a backslash may take away
-- the meaning of the next character, which then stands for itself.
pub data Matches : List ℕ → List ℕ → Type 0 where
  done : Matches [] []
  star_none : {ps text : List ℕ} → Matches ps text → Matches (42 ∷ ps) text
  star_more : {ps text : List ℕ} {c : ℕ} → Matches (42 ∷ ps) text → Matches (42 ∷ ps) (c ∷ text)
  any : {ps text : List ℕ} {c : ℕ} → Matches ps text → Matches (63 ∷ ps) (c ∷ text)
  same : {ps text : List ℕ} {c : ℕ} → Matches ps text → Matches (c ∷ ps) (c ∷ text)
  escaped : {ps text : List ℕ} {c : ℕ} → Matches ps text → Matches (92 ∷ c ∷ ps) (c ∷ text)

-- The stars at the end of a pattern match nothing.
only_stars-Matches : (pattern : List ℕ) → only_stars pattern ≡ true → Matches pattern []
unfolding only_stars
only_stars-Matches [] e = done
only_stars-Matches (p ∷ ps) e =
    subst (λ x. Matches (x ∷ ps) []) (sym (is_star p ps e))
      (star_none (only_stars-Matches ps (ground arith)))
  where
    is_star : (p : ℕ) (ps : List ℕ) → only_stars (p ∷ ps) ≡ true → p ≡ 42
    is_star p ps e = ground arith

-- A star takes the characters that are dropped.
take_star : (k : ℕ) (ps text : List ℕ) → Matches ps (drop k text) → Matches (42 ∷ ps) text
take_star zero ps text m = star_none m
take_star (suc k) ps [] m = star_none m
take_star (suc k) ps (c ∷ text) m = star_more (take_star k ps text m)

take_escape :
    (c p : ℕ) (ps text : List ℕ)
    → is_escape c p ps ≡ true
    → Matches (after_escape ps) text
    → Matches (p ∷ ps) (c ∷ text)
unfolding is_escape
take_escape c p [] text e m = absurd (ground arith)
take_escape c p (q ∷ ps) text e m =
    subst (λ x. Matches (x ∷ q ∷ ps) (c ∷ text)) (sym (first c p q ps e))
      (subst (λ x. Matches (92 ∷ x ∷ ps) (c ∷ text)) (sym (second c p q ps e)) (escaped m))
  where
    first : (c p q : ℕ) (ps : List ℕ) → is_escape c p (q ∷ ps) ≡ true → p ≡ 92
    first c p q ps e = ground arith

    second : (c p q : ℕ) (ps : List ℕ) → is_escape c p (q ∷ ps) ≡ true → q ≡ c
    second c p q ps e = ground arith

take_one :
    (c p : ℕ) (ps text : List ℕ)
    → (p == 63 || p == c) ≡ true
    → Matches ps text
    → Matches (p ∷ ps) (c ∷ text)
take_one c p ps text e m = elim (Bool-cases (p == 63)) [
  | inl f ↦ subst (λ x. Matches (x ∷ ps) (c ∷ text)) (sym ((==_iff p 63).0 f)) (any m)
  | inr f ↦ subst (λ x. Matches (x ∷ ps) (c ∷ text)) (sym ((==_iff p c).0 (ground arith))) (same m)
]

-- What a match from the backup, with more characters taken by its star, is good for.
Later : Backup → Type 0 → Type 0
Later none G = Unit
Later (some (text, pattern)) G = (k : ℕ) → Matches pattern (drop k text) → G

After : Option Glob → Type 0 → Type 0
unfolding Later
After none G = Unit
After (some g) G = (Matches g.pattern g.text → G) × Later g.backup G

backtrack-After : (backup : Backup) (G : Type 0) → Later backup G → After (backtrack backup) G
unfolding Later After
backtrack-After none G later = tt
backtrack-After (some ([], pattern)) G later = tt
backtrack-After (some (c ∷ text, pattern)) G later = (λ m. later 1 m, λ k m. later (suc k) m)

glob_round-After :
    (c : ℕ) (text pattern : List ℕ) (backup : Backup) (G : Type 0)
    → (Matches pattern (c ∷ text) → G)
    → Later backup G
    → After (glob_round c text pattern backup) G
unfolding glob_round Later After
glob_round-After c text [] backup G now later = backtrack-After backup G later
glob_round-After c text (p ∷ ps) backup G now later =
    let P = λ (o : Option Glob). After o G in
    if_cases P (is_escape c p ps) _ _ (λ e. (λ m. now (take_escape c p ps text e m), later))
      (λ e.
        if_cases P (p == 42) _ _
          (λ f.
            let star = λ (x : Matches (42 ∷ ps) (c ∷ text)).
              now (subst (λ y. Matches (y ∷ ps) (c ∷ text)) (sym ((==_iff p 42).0 f)) x) in
            (λ m. star (star_none m), λ k m. star (take_star k ps (c ∷ text) m)))
          (λ f.
            if_cases P (p == 63 || p == c) _ (backtrack backup)
              (λ g. (λ m. now (take_one c p ps text g m), later))
              (λ g. backtrack-After backup G later)))

glob_loop-Matches :
    (n : ℕ) (text pattern : List ℕ) (backup : Backup) (G : Type 0)
    → (Matches pattern text → G)
    → Later backup G
    → glob_loop n text pattern backup ≡ some true
    → G
unfolding glob_loop After
glob_loop-Matches zero text pattern backup G now later e = absurd (ground arith)
glob_loop-Matches (suc n) [] pattern backup G now later e =
    now (only_stars-Matches pattern (ground arith))
glob_loop-Matches (suc n) (c ∷ text) pattern backup G now later e =
    elim (Option-cases (glob_round c text pattern backup)) [
      | inl f ↦ stopped G (sym (rw (f, glob_loop) refl) ∙ e)
      | inr (g, f) ↦
          let (h, k) =
            subst (λ o. After o G) f (glob_round-After c text pattern backup G now later) in
          glob_loop-Matches n g.text g.pattern g.backup G h k (sym (rw (f, glob_loop) refl) ∙ e)
    ]
  where
    stopped : (G : Type 0) → some false ≡ some true → G
    stopped G x = absurd (ground arith)

-- A text that `string_pattern_match` accepts is one that the pattern is for.
pub string_pattern_match-Matches :
    (n : ℕ) (text pattern : List ℕ)
    → string_pattern_match n text pattern ≡ some true
    → Matches pattern text
unfolding string_pattern_match Later
string_pattern_match-Matches n text pattern e =
    glob_loop-Matches n text pattern none (Matches pattern text) (λ m. m) tt e
