-- ===== src/Token/Tests.antt =====
-- mc_util.c: tests of the tokens, and the theorems at concrete inputs.
use arcus_memcached.Token.{Token}
use arcus_memcached.Prelude.{
  arith, ℕ, ◌+◌, ◌-◌, ◌≡◌, ◌↔◌, ◌≤◌, refl, Bool, true, none, some, List, [], ◌∷◌, ◌++◌, map, take,
  length, ltb, if◌then◌else◌,
}
use arcus_memcached.Token.{
  TokenBuff, space, text, keys_loop, tokenize_keys, tokenize_mblck, detokenize, tokenize_command,
  token_buff_get,
}
use arcus_memcached.Token.Keys.{all_keys, join, texts, tokenize_keys-join, detokenize-join}
use arcus_memcached.Token.Found.{KeysOf, tokenize_keys-KeysOf}
use arcus_memcached.Token.Block.{tokenize_mblck-tokenize_keys}
use arcus_memcached.Token.Words.{words, tokenize_command-words}
use arcus_memcached.Token.Buffer.{Got, token_buff_get-Got}

-- "ab,c"
abbrev two_keys : List ℕ
two_keys = 97 ∷ 98 ∷ 44 ∷ 99 ∷ []

-- "get  ab c"
abbrev command : List ℕ
command = 103 ∷ 101 ∷ 116 ∷ 32 ∷ 32 ∷ 97 ∷ 98 ∷ 32 ∷ 99 ∷ []

two_keys_found :
    tokenize_keys two_keys 2 44
    ≡ some (record { value = 0; length = 2 } ∷ record { value = 3; length = 1 } ∷ [])
unfolding tokenize_keys keys_loop
two_keys_found = refl

command_cut : tokenize_command command 3 ≡ record {
  tokens = record { value = 0; length = 3 } ∷ record { value = 5; length = 2 } ∷ [];
  rest = some (8, 1);
}
unfolding tokenize_command
command_cut = refl

tokenize_keys-join_example :
    texts
      (join 44 ((97 ∷ 98 ∷ []) ∷ (99 ∷ []) ∷ []))
      (tokenize_keys (join 44 ((97 ∷ 98 ∷ []) ∷ (99 ∷ []) ∷ [])) 2 44)
    ≡ some ((97 ∷ 98 ∷ []) ∷ (99 ∷ []) ∷ [])
unfolding all_keys
tokenize_keys-join_example = tokenize_keys-join 44 (97 ∷ 98 ∷ []) ((99 ∷ []) ∷ []) refl

tokenize_keys-KeysOf_example : KeysOf 44 2 two_keys
tokenize_keys-KeysOf_example =
    tokenize_keys-KeysOf two_keys 2 44
      (record { value = 0; length = 2 } ∷ record { value = 3; length = 1 } ∷ []) two_keys_found

detokenize-join_example : detokenize ((97 ∷ 98 ∷ []) ∷ (99 ∷ []) ∷ []) 4 ≡ (
    if ltb 4 (length (join space ((97 ∷ 98 ∷ []) ∷ (99 ∷ []) ∷ [])) + 1)
    then none
    else some (join space ((97 ∷ 98 ∷ []) ∷ (99 ∷ []) ∷ []) ++ 0 ∷ []))
detokenize-join_example = detokenize-join (97 ∷ 98 ∷ []) ((99 ∷ []) ∷ []) 4

tokenize_command-words_example :
    map (text command) (tokenize_command command 3).tokens ≡ take (3 - 1) (words command)
tokenize_command-words_example = tokenize_command-words command 3

token_buff_get-Got_example :
    (r : TokenBuff × Bool) × (token_buff_get
        (6000 + 1)
        true
        (record { count = 500; nused = 0 })
        6000
      ≡ some r)
    × Got true (record { count = 500; nused = 0 }) 6000 r
token_buff_get-Got_example =
    token_buff_get-Got true (record { count = 500; nused = 0 }) 6000 (omega arith)

abbrev found_tokens : List Token
found_tokens = record { value = 0; length = 2 } ∷ record { value = 3; length = 1 } ∷ []

tokenize_mblck-tokenize_keys_example : (tokenize_mblck two_keys 5 44 ≡ some found_tokens) ↔ (
    (tokenize_keys two_keys (length found_tokens) 44 ≡ some found_tokens)
    × (length found_tokens ≤ 5))
tokenize_mblck-tokenize_keys_example = tokenize_mblck-tokenize_keys two_keys 5 44 found_tokens
