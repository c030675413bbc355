-- ===== src/Util/Glob/Ends.antt =====
-- util.c: the rounds of the glob match.
use arcus_memcached.Prelude.{
  ℕ, zero, suc, ◌≤◌, ◌<◌, ◌≡◌, refl, Bool, false, ◌||◌, Option, none, some, List, [], ◌∷◌, length,
  ◌==◌, if_cases, arith,
}
use arcus_memcached.Util.Glob.{
  Glob, Backup, backtrack, glob_round, glob_loop, string_pattern_match, is_escape, after_escape,
  only_stars,
}

-- The loop ends from these variables.
Ends : List ℕ → List ℕ → Backup → Type 0
Ends text pattern backup = (n : ℕ) × (b : Bool) × (glob_loop n text pattern backup ≡ some b)

-- The round ends the loop, or the loop ends from where the round leads.
EndsAfter : Option Glob → Type 0
EndsAfter none = Unit
EndsAfter (some g) = Ends g.text g.pattern g.backup

round-Ends :
    (c : ℕ) (text pattern : List ℕ) (backup : Backup)
    → EndsAfter (glob_round c text pattern backup)
    → Ends (c ∷ text) pattern backup
unfolding Ends EndsAfter glob_loop
round-Ends c text pattern backup h = go (glob_round c text pattern backup) refl h
  where
    go :
        (o : Option Glob)
        → glob_round c text pattern backup ≡ o
        → EndsAfter o
        → Ends (c ∷ text) pattern backup
    go none e h = (1, false, rw (e, glob_loop) refl)
    go (some g) e (n, b, f) = (suc n, b, rw (e, glob_loop) f)

-- Every backtrack from here leads to an end.
EndsBack : Backup → Type 0
EndsBack backup = EndsAfter (backtrack backup)

-- The loop ends if it ends from every later star and from every backtrack.
glob_loop-Ends :
    (pl : ℕ)
    → ((text pattern : List ℕ) → length pattern < pl → Ends text pattern (some (text, pattern)))
    → (text pattern : List ℕ) (backup : Backup) → EndsBack backup
    → length pattern ≤ pl
    → Ends text pattern backup
unfolding Ends EndsBack EndsAfter glob_loop
glob_loop-Ends pl starred [] pattern backup back h = (1, only_stars pattern, refl)
glob_loop-Ends pl starred (c ∷ text) [] backup back h = round-Ends c text [] backup back
glob_loop-Ends pl starred (c ∷ text) (p ∷ ps) backup back h = round-Ends c text (p ∷ ps) backup (
    if_cases EndsAfter (is_escape c p ps) _ _
      (λ e. glob_loop-Ends pl starred text (after_escape ps) backup back (shorter ps (omega arith)))
      (λ e.
        if_cases EndsAfter (p == 42) _ _ (λ e'. starred (c ∷ text) ps (omega arith))
          (λ e'.
            if_cases EndsAfter (p == 63 || p == c) _ (backtrack backup)
              (λ f. glob_loop-Ends pl starred text ps backup back (omega arith)) (λ f. back))))
  where
    shorter : (ps : List ℕ) → length ps ≤ pl → length (after_escape ps) ≤ pl
    shorter [] h = h
    shorter (q ∷ qs) h = omega arith

-- From a star the loop ends, by induction on the pattern behind it and on the text that it has yet to take.
star-Ends :
    (pl : ℕ) (text pattern : List ℕ)
    → length pattern < pl
    → Ends text pattern (some (text, pattern))
unfolding EndsBack EndsAfter
star-Ends zero text pattern h = absurd (omega arith)
star-Ends (suc pl) [] pattern h =
    glob_loop-Ends pl (star-Ends pl) [] pattern (some ([], pattern)) tt (omega arith)
star-Ends (suc pl) (c ∷ text) pattern h =
    glob_loop-Ends pl (star-Ends pl) (c ∷ text) pattern (some (c ∷ text, pattern))
      (star-Ends (suc pl) text pattern h) (omega arith)

-- `string_pattern_match` ends, for every text and pattern.
pub string_pattern_match-ends :
    (text pattern : List ℕ) → (n : ℕ) × (b : Bool) × (string_pattern_match n text pattern ≡ some b)
unfolding string_pattern_match Ends EndsBack EndsAfter
string_pattern_match-ends text pattern =
    glob_loop-Ends (length pattern) (star-Ends (length pattern)) text pattern none tt (omega arith)
