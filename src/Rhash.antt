-- ===== src/Rhash.antt =====
-- The inline entries of the resource hash, src/backend/rhash.c: literals of up to 15 bytes, and numbers
-- and dates of up to 30 characters packed two to a byte. A text is the list of its bytes, without
-- the NUL behind it.
pub mod Packed
pub mod Unpacked
pub mod Inline
mod Tests
use Prim.Native.Nat.{bit_or}
use store.Prelude.{
  ℕ, zero, suc, ◌+◌, ◌-◌, ◌*◌, ◌/◌, ◌%◌, ◌^◌, Bool, true, false, ◌&&◌, Option, none, some, List, [],
  ◌∷◌, length, get_elem?, ltb, leb, ◌==◌, if◌then◌else◌, update,
}

-- INLINE_STR_LEN
abbrev pub inline_str_len : ℕ
inline_str_len = 15

-- The codes of the characters '1' to '9' and '0', which numbers and dates share.
abbrev pub digit_code : ℕ → Option ℕ
digit_code c = if leb 49 c && leb c 57 then some (c - 48) else if c == 48 then some 10 else none

-- `enum bcd`, by the cases of `compress_bcd`: '.', '+', '-' and 'e'.
abbrev pub bcd : ℕ → Option ℕ
bcd c =
    if c == 46
    then some 11
    else if c == 43
    then some 12
    else if c == 45
    then some 13
    else if c == 101
    then some 14
    else digit_code c

-- `enum bcdate`, by the cases of `compress_bcdate`: ':', '+', '-', 'T' and 'Z'.
abbrev pub bcdate : ℕ → Option ℕ
bcdate c =
    if c == 58
    then some 11
    else if c == 43
    then some 12
    else if c == 45
    then some 13
    else if c == 84
    then some 14
    else if c == 90
    then some 15
    else digit_code c

abbrev pub bcd_map : ℕ → ℕ
bcd_map v =
    if v == 0
    then 0
    else if leb v 9
    then v + 48
    else if v == 10
    then 48
    else if v == 11
    then 46
    else if v == 12
    then 43
    else if v == 13
    then 45
    else if v == 14
    then 101
    else 63

abbrev pub bcdate_map : ℕ → ℕ
bcdate_map v =
    if v == 0
    then 0
    else if leb v 9
    then v + 48
    else if v == 10
    then 48
    else if v == 11
    then 58
    else if v == 12
    then 43
    else if v == 13
    then 45
    else if v == 14
    then 84
    else 90

pub write_bcd : (ℕ → ℕ) → ℕ → ℕ → ℕ → ℕ
write_bcd out pos val = update out (pos / 2) (bit_or (out (pos / 2)) (val * 2 ^ (pos % 2 * 4)))

-- The loop of the two functions, with the status and the bytes.
pub compress_from : (ℕ → Option ℕ) → List ℕ → ℕ → (ℕ → ℕ) → ℕ × (ℕ → ℕ)
compress_from code [] outpos out = (0, out)
compress_from code (c ∷ inp) outpos out = elim (code c) [
  | none ↦ (1, out)
  | some v ↦ compress_from code inp (suc outpos) (write_bcd out outpos v)
]

pub compress : (ℕ → Option ℕ) → List ℕ → (ℕ → ℕ) → ℕ × (ℕ → ℕ)
compress code inp out =
    if ltb (inline_str_len * 2) (length inp) then (1, out) else compress_from code inp 0 (λ _. 0)

pub compress_bcd : List ℕ → (ℕ → ℕ) → ℕ × (ℕ → ℕ)
compress_bcd = compress bcd

pub compress_bcdate : List ℕ → (ℕ → ℕ) → ℕ × (ℕ → ℕ)
compress_bcdate = compress bcdate

-- The half of a byte at a place.
abbrev pub half_byte : (ℕ → ℕ) → ℕ → ℕ
half_byte out pos = if pos % 2 == 0 then out (pos / 2) % 16 else out (pos / 2) / 16

-- The loop of the two functions from the place `inpos` on, with `k` places left.
pub uncompress_from : (ℕ → ℕ) → ℕ → (ℕ → ℕ) → ℕ → List ℕ
uncompress_from map zero out inpos = []
uncompress_from map (suc k) out inpos =
    let rest = uncompress_from map k out (suc inpos) in
    if half_byte out inpos == 0 then [] else map (half_byte out inpos) ∷ rest

pub uncompress_bcd : (ℕ → ℕ) → List ℕ
uncompress_bcd out = uncompress_from bcd_map (inline_str_len * 2) out 0

pub uncompress_bcdate : (ℕ → ℕ) → List ℕ
uncompress_bcdate out = uncompress_from bcdate_map (inline_str_len * 2) out 0

-- The dispositions of an entry whose text stands in it.
pub data Disp : Type 0 where
  utf8 : Disp
  number : Disp
  date : Disp

-- `strncpy` into zeros, and the text up to the first NUL of `k` bytes.
abbrev pub inline_byte : List ℕ → ℕ → ℕ
inline_byte s i = elim (get_elem? s i) [ none ↦ 0 | some c ↦ c ]

pub text_from : ℕ → (ℕ → ℕ) → ℕ → List ℕ
text_from zero f i = []
text_from (suc k) f i = let rest = text_from k f (suc i) in if f i == 0 then [] else f i ∷ rest

-- The first branches of `fs_rhash_put`: `none` where the text does not go into the entry as it is.
pub put_inline : List ℕ → Option (Disp × (ℕ → ℕ))
put_inline lex =
    if leb (length lex) inline_str_len
    then some (utf8, inline_byte lex)
    else if (compress_bcd lex (λ _. 0)).0 == 0
    then some (number, (compress_bcd lex (λ _. 0)).1)
    else if (compress_bcdate lex (λ _. 0)).0 == 0
    then some (date, (compress_bcdate lex (λ _. 0)).1)
    else none

-- The first branches of `get_entry`.
pub get_inline : Disp → (ℕ → ℕ) → List ℕ
get_inline utf8 str = text_from inline_str_len str 0
get_inline number str = uncompress_bcd str
get_inline date str = uncompress_bcdate str
