-- ===== src/BitArray.antt =====
-- The bit arrays of src/common/bit_arr.c: bits packed into bytes, which a write can only clear.
mod Bits
mod Tests
use Prim.Native.Nat.{bit_and}
use store.Prelude.{
  ℕ, zero, suc, ◌+◌, ◌*◌, ◌/◌, ◌%◌, ◌^◌, Bool, true, false, ◌==◌, ◌!=◌, ltb, if◌then◌else◌, Arr,
  update, load, save, Option, none, some, ◌>>=◌,
}

-- The arguments are `short`.
pub bit_mask_set : ℕ → ℕ → ℕ
bit_mask_set nbit value =
    if value != 0
    then 0xFF
    else if nbit == 0
    then 0x7F
    else if nbit == 1
    then 0xBF
    else if nbit == 2
    then 0xDF
    else if nbit == 3
    then 0xEF
    else if nbit == 4
    then 0xF7
    else if nbit == 5
    then 0xFB
    else if nbit == 6
    then 0xFD
    else if nbit == 7
    then 0xFE
    else 0xFF

pub bit_mask_get : ℕ → ℕ
bit_mask_get nbit =
    if nbit == 0
    then 0x80
    else if nbit == 1
    then 0x40
    else if nbit == 2
    then 0x20
    else if nbit == 3
    then 0x10
    else if nbit == 4
    then 0x08
    else if nbit == 5
    then 0x04
    else if nbit == 6
    then 0x02
    else if nbit == 7
    then 0x01
    else 0x00

-- All bits are 1 at first.
pub new_bit_array : ℕ → Arr ℕ
new_bit_array n =
    let extra = if n % 8 != 0 then 1 else 0 in record { size = n / 8 + extra; cell = λ _. 0xFF }

-- `none` is an access outside the array; the value is narrowed to a `short`.
pub bit_array_set : Arr ℕ → ℕ → ℕ → Option (Arr ℕ)
bit_array_set p i value = do
  x ← load p (i / 8)
  save p (i / 8) (bit_and x (bit_mask_set (i % 8) (value % 2 ^ 16)))

pub bit_array_get : Arr ℕ → ℕ → Option ℕ
bit_array_get p i = do
  x ← load p (i / 8)
  some (if bit_and x (bit_mask_get (i % 8)) != 0 then 1 else 0)
