-- ===== src/Token.antt =====
-- mc_util.c: the token buffer, and the functions that cut a string into tokens and join tokens to a string.
pub mod Keys
pub mod Found
pub mod Block
pub mod Words
pub mod Buffer
mod Tests
use arcus_memcached.Prelude.{
  ℕ, zero, suc, ◌+◌, ◌-◌, ◌%◌, ◌^◌, Bool, true, false, Option, none, some, List, [], ◌∷◌, ◌++◌,
  length, take, drop, set, ltb, ◌==◌, if◌then◌else◌,
}

-- `token_t`: the offset of `value` in the string that is cut, and the length.
pub record Token : Type 0 where
  pub value : ℕ
  pub length : ℕ

-- `token_buff_t`
pub record TokenBuff : Type 0 where
  pub count : ℕ
  pub nused : ℕ

-- The space of ASCII.
abbrev pub space : ℕ
space = 32

-- `token_buff_create`; `given` says whether `malloc` gives memory.
pub token_buff_create : Bool → ℕ → Option TokenBuff
token_buff_create given count = if given then some (record { count = count; nused = 0 }) else none

-- `token_buff_destroy` of a buffer that is not in use
pub token_buff_destroy : TokenBuff → TokenBuff
token_buff_destroy buff = record buff { count = 0 }

-- The loop of `token_buff_get`, on fuel, with the wrap of `uint32_t new_count`; `none` means that the fuel ran out.
-- A count next to 2 ^ 32 may never be reached.
pub widen : ℕ → ℕ → ℕ → Option ℕ
widen zero new_count count = none
widen (suc fuel) new_count count =
    let wider = widen fuel ((new_count + 5000) % 2 ^ 32) count in
    if ltb new_count count then wider else some new_count

-- `token_buff_get`: the buffer, and whether the array is given; `given` says whether `realloc` gives memory.
pub token_buff_get : ℕ → Bool → TokenBuff → ℕ → Option (TokenBuff × Bool)
token_buff_get fuel given buff count =
    let wide = λ (n : ℕ).
      if given then (record { count = n; nused = buff.nused + 1 }, true) else (buff, false) in
    if ltb buff.count count
    then elim (widen fuel buff.count count) [ none ↦ none | some n ↦ some (wide n) ]
    else some (record buff { nused = buff.nused + 1 }, true)

-- `token_buff_release`
pub token_buff_release : TokenBuff → TokenBuff
token_buff_release buff = record buff { nused = buff.nused - 1 }

abbrev pub push : Token → Option (List Token) → Option (List Token)
push t none = none
push t (some ts) = some (t ∷ ts)

-- The loop of `tokenize_keys`: the number of keys still wanted, the bytes from `e` on, and `s` and `e`.
pub keys_loop : ℕ → ℕ → List ℕ → ℕ → ℕ → Option (List Token)
keys_loop delimiter zero rest s e = none
keys_loop delimiter (suc left) [] s e =
    if s == e
    then none
    else if left == 0
    then some (record { value = s; length = e - s } ∷ [])
    else none
keys_loop delimiter (suc left) (c ∷ rest) s e =
    let next = keys_loop delimiter left rest (e + 1) (e + 1) in
    let same = keys_loop delimiter (suc left) rest s (e + 1) in
    if c == delimiter
    then (if s == e then none else push (record { value = s; length = e - s }) next)
    else if c == space
    then none
    else same

-- `tokenize_keys`; `none` is the result -1.
pub tokenize_keys : List ℕ → ℕ → ℕ → Option (List Token)
tokenize_keys keystr keycnt delimiter = keys_loop delimiter keycnt keystr 0 0

-- The loop of `tokenize_mblck`, which accepts fewer keys too.
pub mblck_loop : ℕ → ℕ → List ℕ → ℕ → ℕ → Option (List Token)
mblck_loop delimiter zero rest s e = none
mblck_loop delimiter (suc left) [] s e =
    if s == e then none else some (record { value = s; length = e - s } ∷ [])
mblck_loop delimiter (suc left) (c ∷ rest) s e =
    let next = mblck_loop delimiter left rest (e + 1) (e + 1) in
    let same = mblck_loop delimiter (suc left) rest s (e + 1) in
    if c == delimiter
    then (if s == e then none else push (record { value = s; length = e - s }) next)
    else if c == space
    then none
    else same

-- `tokenize_mblck`
pub tokenize_mblck : List ℕ → ℕ → ℕ → Option (List Token)
tokenize_mblck keystr keycnt delimiter = mblck_loop delimiter keycnt keystr 0 0

-- The bytes of a token.
abbrev pub text : List ℕ → Token → List ℕ
text str t = take t.length (drop t.value str)

-- What `detokenize` adds to `nb`, and what its loop writes.
pub total : List (List ℕ) → ℕ
total [] = 0
total (w ∷ ws) = length w + total ws

pub written : List (List ℕ) → List ℕ
written [] = []
written (w ∷ ws) = w ++ space ∷ written ws

-- `detokenize` of one token or more, given their bytes: the buffer up to `nb`, or `none` for -1.
pub detokenize : List (List ℕ) → ℕ → Option (List ℕ)
unfolding total written
detokenize tokens len =
    let nb = length tokens + total tokens in
    if ltb len nb then none else some (set (written tokens) (nb - 1) 0)

-- What `tokenize_command` leaves: the tokens, and the reserved one, which has the offset of the bytes
-- that it has not cut and their number, or NULL at the end of the string.
pub record Command : Type 0 where
  pub tokens : List Token
  pub rest : Option (ℕ × ℕ)

-- `tokens[ntokens]` filled and `ntokens++`, unless the token is empty; and the test that the loop makes of
-- the count.
abbrev pub with_token : ℕ → ℕ → Command → Command
with_token s e r = record r { tokens = record { value = s; length = e - s } ∷ r.tokens }

-- The loop of `tokenize_command`: the tokens still free, the bytes from `e` on, and `s` and `e`.
pub command_loop : ℕ → List ℕ → ℕ → ℕ → Command
command_loop zero [] s e = record { tokens = []; rest = none }
command_loop (suc left) [] s e =
    let end : Command = record { tokens = []; rest = none } in
    if s == e then end else with_token s e end
command_loop zero (c ∷ rest) s e = record { tokens = []; rest = some (e, length rest + 1) }
command_loop (suc left) (c ∷ rest) s e =
    let empty = command_loop (suc left) rest (e + 1) (e + 1) in
    let next = command_loop left rest (e + 1) (e + 1) in
    let same = command_loop (suc left) rest s (e + 1) in
    if c == space then (if s == e then empty else with_token s e next) else same

-- `tokenize_command` of a string with no null byte inside; it returns the number of tokens and the reserved one.
pub tokenize_command : List ℕ → ℕ → Command
unfolding command_loop
tokenize_command command max_tokens = command_loop (max_tokens - 1) command 0 0
