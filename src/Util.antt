-- ===== src/Util.antt =====
-- util.c: the hexadecimal form of a byte string, and the check of a prefix name.
pub mod Hexa
pub mod Swap
pub mod Glob
mod Tests
use arcus_memcached.Prelude.{
  ℕ, zero, suc, ◌+◌, ◌-◌, ◌*◌, ◌/◌, ◌%◌, ◌^◌, Bool, true, false, ◌&&◌, ◌||◌, not, Option, none,
  some, List, [], ◌∷◌, get_or, length, take, leb, ltb, ◌==◌, if◌then◌else◌,
}

-- The value of a character as a digit: from '0', from 'A' or from 'a'.
pub digit : ℕ → Option ℕ
digit ch =
    if leb 48 ch && leb ch 57
    then some (ch - 48)
    else if leb 65 ch && leb ch 70
    then some (ch - 65 + 10)
    else if leb 97 ch && leb ch 102
    then some (ch - 97 + 10)
    else none

-- The byte of two digits, in front of what the rest of the loop does.
abbrev pub digit_pair : Option ℕ → Option ℕ → Bool × List ℕ → Bool × List ℕ
digit_pair none low rest = (false, [])
digit_pair (some high) none rest = (false, high ∷ [])
digit_pair (some high) (some low) rest = (rest.0, (high * 16 + low) % 256 ∷ rest.1)

-- The loop of `safe_strtohexa`: what it returns and the bytes that it has written, on failure too.
pub strtohexa_loop : List ℕ → Bool × List ℕ
strtohexa_loop [] = (true, [])
strtohexa_loop (ch1 ∷ []) = (true, [])
strtohexa_loop (ch1 ∷ ch2 ∷ rest) = digit_pair (digit ch1) (digit ch2) (strtohexa_loop rest)

-- `safe_strtohexa` of a string without its null byte
pub safe_strtohexa : List ℕ → ℕ → Bool × List ℕ
unfolding strtohexa_loop digit
safe_strtohexa str size =
    let slen = length str in
    if slen == 0 || ltb (2 * size) slen || not (slen % 2 == 0)
    then (false, [])
    else strtohexa_loop str

-- The character of a digit.
pub digit_char : ℕ → ℕ
digit_char n = if ltb n 10 then n + 48 else n + (65 - 10)

-- `safe_hexatostr`: the string that it writes, with the null byte at its end.
pub safe_hexatostr : List ℕ → List ℕ
safe_hexatostr [] = 0 ∷ []
safe_hexatostr (b ∷ bin) = digit_char (b / 16 % 16) ∷ digit_char (b % 16) ∷ safe_hexatostr bin

-- `mc_isnamechar`
pub mc_isnamechar : ℕ → Bool
mc_isnamechar c =
    leb 97 c && leb c 122
    || leb 65 c && leb c 90
    || leb 48 c && leb c 57
    || c == 95
    || c == 45
    || c == 43
    || c == 46

pub all_namechars : List ℕ → Bool
all_namechars [] = true
all_namechars (c ∷ rest) = if mc_isnamechar c then all_namechars rest else false

-- `mc_isvalidname`, which reads the first character of an empty name too
pub mc_isvalidname : List ℕ → ℕ → Bool
unfolding all_namechars mc_isnamechar
mc_isvalidname str len = if get_or str 0 0 == 45 then false else all_namechars (take len str)

-- The loop of `mc_swap64` on a little endian machine: `rv << 8` drops the highest byte of 64 bits.
pub swap_loop : ℕ → ℕ → ℕ → ℕ
swap_loop zero rv word = rv
swap_loop (suc n) rv word = swap_loop n (rv * 256 % 2 ^ 64 + word % 256) (word / 256)

-- `mc_swap64`
pub mc_swap64 : ℕ → ℕ
mc_swap64 word = swap_loop 8 0 word

-- `mc_ntohll`
abbrev pub mc_ntohll : ℕ → ℕ
mc_ntohll val = mc_swap64 val

-- `mc_htonll`
abbrev pub mc_htonll : ℕ → ℕ
mc_htonll val = mc_swap64 val
