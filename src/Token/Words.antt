-- ===== src/Token/Words.antt =====
-- mc_util.c: `tokenize_command` and the words of a command.
use arcus_memcached.Prelude.{
  ℕ, zero, suc, ◌+◌, ◌-◌, ◌≡◌, refl, sym, ap, ap₂, ◌∙◌, subst, Bool, true, false, none, List, [],
  ◌∷◌, ◌++◌, map, append_assoc, length, length-append, take, take-append, drop-append, ◌==◌,
  if◌then◌else◌, arith, Bool-cases, inl, inr,
}
use arcus_memcached.Token.{Token, Command, space, with_token, command_loop, tokenize_command, text}

-- The words of a string: `cur` is the one that has begun.
unfoldable pub words_from : List ℕ → List ℕ → List (List ℕ)
words_from cur [] = if length cur == 0 then [] else cur ∷ []
words_from cur (c ∷ rest) =
    let next = words_from [] rest in
    let same = words_from (cur ++ c ∷ []) rest in
    if c == space then (if length cur == 0 then next else cur ∷ next) else same

-- The string between two spaces, where it is not empty.
abbrev pub words : List ℕ → List (List ℕ)
words str = words_from [] str

text_here :
    (pre cur rest : List ℕ) (s e : ℕ)
    → s ≡ length pre
    → e ≡ s + length cur
    → text (pre ++ (cur ++ rest)) (record { value = s; length = e - s }) ≡ cur
text_here pre cur rest s e h f =
    ap (take (e - s)) (drop-append pre (cur ++ rest) s (sym h))
    ∙ take-append cur rest (e - s) (omega arith)

take_nil : (n : ℕ) → take {A = List ℕ} n [] ≡ []
take_nil zero = refl
take_nil (suc n) = refl

-- A token is empty when its word is.
same_test : (s e : ℕ) (cur : List ℕ) → e ≡ s + length cur → (s == e) ≡ (length cur == 0)
same_test s e cur f = ground arith

-- The reading of the tokens after a token that is not empty, and after none.
after_word :
    (b : Bool) (f : Token → List ℕ) (s e : ℕ) (cur : List ℕ) (none_here one_here : Command)
    (left : ℕ) (ws : List (List ℕ))
    → f (record { value = s; length = e - s }) ≡ cur
    → map f none_here.tokens ≡ take (suc left) ws
    → map f one_here.tokens ≡ take left ws
    → map f (if b then none_here else with_token s e one_here).tokens
      ≡ take (suc left) (if b then ws else cur ∷ ws)
after_word true f s e cur none_here one_here left ws h u v = u
after_word false f s e cur none_here one_here left ws h u v = ap₂ (λ x y. x ∷ y) h v

command_loop-words :
    (left : ℕ) (pre cur rest : List ℕ) (s e : ℕ)
    → s ≡ length pre
    → e ≡ s + length cur
    → map (text (pre ++ (cur ++ rest))) (command_loop left rest s e).tokens
      ≡ take left (words_from cur rest)
unfolding command_loop words_from
command_loop-words zero pre cur [] s e h f = refl
command_loop-words zero pre cur (c ∷ rest) s e h f = refl
command_loop-words (suc left) pre cur [] s e h f =
    let str = pre ++ (cur ++ []) in
    let end : Command = record { tokens = []; rest = none } in
    subst
      (λ b.
        map (text str) (if s == e then end else with_token s e end).tokens
        ≡ take (suc left) (if b then [] else cur ∷ []))
      (same_test s e cur f)
      (after_word (s == e) (text str) s e cur end end left [] (text_here pre cur [] s e h f) refl
        (sym (take_nil left)))
command_loop-words (suc left) pre cur (c ∷ rest) s e h f =
    let str = pre ++ (cur ++ c ∷ rest) in
    let pre' = pre ++ (cur ++ c ∷ []) in
    let moved =
      append_assoc pre (cur ++ c ∷ []) rest ∙ ap (λ x. pre ++ x) (append_assoc cur (c ∷ []) rest) in
    let at = longer pre cur c s e h f in
    let next = λ (n : ℕ).
      ap (λ x. map (text x) (command_loop n rest (e + 1) (e + 1)).tokens) (sym moved)
      ∙ command_loop-words n pre' [] rest (e + 1) (e + 1) at (omega arith) in
    let same =
      ap (λ x. map (text x) (command_loop (suc left) rest s (e + 1)).tokens)
        (ap (λ x. pre ++ x) (sym (append_assoc cur (c ∷ []) rest)))
      ∙ command_loop-words (suc left) pre (cur ++ c ∷ []) rest s (e + 1) h
          (one_longer cur c s e f) in
    elim (Bool-cases (c == space)) [
      | inl e1 ↦ rw (e1) (
          subst
            (λ b.
              map (text str)
                (if s == e
                  then command_loop (suc left) rest (e + 1) (e + 1)
                  else with_token s e (command_loop left rest (e + 1) (e + 1))).tokens
              ≡ take (suc left) (if b then words_from [] rest else cur ∷ words_from [] rest))
            (same_test s e cur f)
            (after_word (s == e) (text str) s e cur (command_loop (suc left) rest (e + 1) (e + 1))
              (command_loop left rest (e + 1) (e + 1)) left (words_from [] rest)
              (text_here pre cur (c ∷ rest) s e h f) (next (suc left)) (next left)))
      | inr e1 ↦ rw (e1) same
    ]
  where
    longer :
        (pre cur : List ℕ) (c s e : ℕ)
        → s ≡ length pre
        → e ≡ s + length cur
        → e + 1 ≡ length (pre ++ (cur ++ c ∷ []))
    longer pre cur c s e h f =
        omega (arith, length-append pre (cur ++ c ∷ []), length-append cur (c ∷ []))

    one_longer :
        (cur : List ℕ) (c s e : ℕ) → e ≡ s + length cur → e + 1 ≡ s + length (cur ++ c ∷ [])
    one_longer cur c s e f = omega (arith, length-append cur (c ∷ []))

-- `tokenize_command` gives the first `max_tokens - 1` words of the command, however many spaces stand
-- between them.
pub tokenize_command-words :
    (command : List ℕ) (max_tokens : ℕ)
    → map (text command) (tokenize_command command max_tokens).tokens
      ≡ take (max_tokens - 1) (words command)
unfolding tokenize_command
tokenize_command-words command max_tokens =
    command_loop-words (max_tokens - 1) [] [] command 0 0 refl refl
