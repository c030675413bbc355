-- ===== src/Util/Glob.antt =====
-- util.c: `string_pattern_match`, which matches a text against a glob pattern with backtracking.
pub mod Ends
pub mod Sound
use arcus_memcached.Prelude.{
  ℕ, zero, suc, ◌+◌, ◌≤◌, ◌<◌, ◌≡◌, refl, sym, ap, ◌∙◌, subst, Bool, true, false, ◌||◌, Option,
  none, some, List, [], ◌∷◌, length, ◌==◌, ==_iff, if◌then◌else◌, if_cases, arith, Bool-cases, inl,
  inr,
}

-- The loop over trailing stars, and the test that nothing else is left.
pub only_stars : List ℕ → Bool
only_stars [] = true
only_stars (p ∷ ps) = let rest = only_stars ps in if p == 42 then rest else false

-- `*pattern == '\\' && *(pattern+1) == *text`
pub is_escape : ℕ → ℕ → List ℕ → Bool
is_escape c p [] = false
is_escape c p (q ∷ ps) = if p == 92 then q == c else false

abbrev pub after_escape : List ℕ → List ℕ
after_escape [] = []
after_escape (q ∷ ps) = ps

-- The positions after the last star, in the text and in the pattern; `none` is NULL.
abbrev pub Backup : Type 0
Backup = Option (List ℕ × List ℕ)

-- The loop variables of `string_pattern_match`.
pub record Glob : Type 0 where
  pub text : List ℕ
  pub pattern : List ℕ
  pub backup : Backup

-- The last branch of the loop: back to the last star, which takes one more character.
abbrev pub backtrack : Backup → Option Glob
backtrack none = none
backtrack (some ([], patt)) = none
backtrack (some (c ∷ text, patt)) =
    some (record { text = text; pattern = patt; backup = some (text, patt) })

-- One round of the loop at the character `c` in front of the text; `none` is the return of false. Behind
-- the end of the pattern stands a null byte, which no text has.
pub glob_round : ℕ → List ℕ → List ℕ → Backup → Option Glob
unfolding is_escape
glob_round c text [] backup = backtrack backup
glob_round c text (p ∷ ps) backup =
    if is_escape c p ps
    then some (record { text = text; pattern = after_escape ps; backup = backup })
    else if p == 42
    then some (record { text = c ∷ text; pattern = ps; backup = some (c ∷ text, ps) })
    else if p == 63 || p == c
    then some (record { text = text; pattern = ps; backup = backup })
    else backtrack backup

-- The loop, on fuel, and the result; `none` means that the fuel ran out.
pub glob_loop : ℕ → List ℕ → List ℕ → Backup → Option Bool
unfolding glob_round only_stars
glob_loop zero text pattern backup = none
glob_loop (suc n) [] pattern backup = some (only_stars pattern)
glob_loop (suc n) (c ∷ text) pattern backup = elim (glob_round c text pattern backup) [
  | none ↦ some false
  | some g ↦ glob_loop n g.text g.pattern g.backup
]

-- `string_pattern_match`
unfoldable pub string_pattern_match : ℕ → List ℕ → List ℕ → Option Bool
unfolding glob_loop
string_pattern_match fuel text pattern = glob_loop fuel text pattern none
