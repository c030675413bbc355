-- ===== src/Util/Tests.antt =====
-- util.c: tests of the string helpers, and the theorems at concrete inputs.
use arcus_memcached.Prelude.{ℕ, List, Bool, some}
use arcus_memcached.Util.Glob.{string_pattern_match}
use arcus_memcached.Util.Glob.Ends.{string_pattern_match-ends}
use arcus_memcached.Util.Glob.Sound.{Matches, string_pattern_match-Matches}
use arcus_memcached.Util.Swap.{ntohll-htonll}
use arcus_memcached.Util.{mc_ntohll, mc_htonll}
use arcus_memcached.Prelude.{◌≡◌, refl, true, false, [], ◌∷◌, ◌++◌, map, arith}
use arcus_memcached.Util.{safe_strtohexa, safe_hexatostr, mc_isvalidname}
use arcus_memcached.Util.Hexa.{
  all_bytes, until_null, upper, strtohexa-hexatostr, hexatostr-strtohexa,
}

-- "a.1" and "-a"
valid_names :
    (mc_isvalidname (97 ∷ 46 ∷ 49 ∷ []) 3 ≡ true) × (mc_isvalidname (45 ∷ 97 ∷ []) 2 ≡ false)
unfolding mc_isvalidname
valid_names = (refl, refl)

strtohexa-hexatostr_example :
    safe_strtohexa (until_null (safe_hexatostr (0 ∷ 255 ∷ 26 ∷ []))) 3 ≡ (true, 0 ∷ 255 ∷ 26 ∷ [])
unfolding all_bytes
strtohexa-hexatostr_example =
    strtohexa-hexatostr (0 ∷ 255 ∷ 26 ∷ []) 3 refl (ground arith) (ground arith)

-- "fF09"
hexatostr-strtohexa_example :
    safe_hexatostr (safe_strtohexa (102 ∷ 70 ∷ 48 ∷ 57 ∷ []) 2).1
    ≡ map upper (102 ∷ 70 ∷ 48 ∷ 57 ∷ []) ++ 0 ∷ []
unfolding safe_strtohexa
hexatostr-strtohexa_example = hexatostr-strtohexa (102 ∷ 70 ∷ 48 ∷ 57 ∷ []) 2 refl

ntohll-htonll_example : mc_ntohll (mc_htonll 4886718345) ≡ 4886718345
ntohll-htonll_example = ntohll-htonll 4886718345 (ground arith)

-- "abcbd" and "a*b?"
abbrev glob_text : List ℕ
glob_text = 97 ∷ 98 ∷ 99 ∷ 98 ∷ 100 ∷ []

abbrev glob_pattern : List ℕ
glob_pattern = 97 ∷ 42 ∷ 98 ∷ 63 ∷ []

glob_accepts : string_pattern_match 20 glob_text glob_pattern ≡ some true
unfolding string_pattern_match
glob_accepts = refl

string_pattern_match-ends_example :
    (n : ℕ) × (b : Bool) × (string_pattern_match n glob_text glob_pattern ≡ some b)
string_pattern_match-ends_example = string_pattern_match-ends glob_text glob_pattern

string_pattern_match-Matches_example : Matches glob_pattern glob_text
string_pattern_match-Matches_example =
    string_pattern_match-Matches 20 glob_text glob_pattern glob_accepts
