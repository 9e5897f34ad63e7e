-- ===== src/BitArray/Tests.antt =====
-- Runs of the bit arrays, and the theorem of this directory at an array of ten bits.
use store.Prelude.{ℕ, ◌%◌, ◌^◌, ◌<◌, ◌≡◌, refl, arith, some, Arr, ◌==◌, ◌&&◌, if◌then◌else◌, ◌>>=◌}
use store.BitArray.{new_bit_array, bit_array_set, bit_array_get, bit_mask_set, bit_mask_get}
use store.BitArray.Bits.{IsBits, bit_array_set-bit_at, bit_array_get-new_bit_array}

bit_array_set-bit_at_example :
    (p' : Arr ℕ) × (bit_array_set (new_bit_array 10) 9 0 ≡ some p')
    × IsBits p' 10
    × ((j : ℕ)
        → j < 10
        → bit_array_get p' j
          ≡ (if j == 9 && 0 % 2 ^ 16 == 0 then some 0 else bit_array_get (new_bit_array 10) j))
bit_array_set-bit_at_example =
    bit_array_set-bit_at (new_bit_array 10) 10 9 0
      (bit_array_get-new_bit_array 10 9 (omega arith)).0 (omega arith)

-- A bit that is clear stays clear: a write of 1 changes nothing.
set_one :
    (bit_array_set (new_bit_array 8) 3 0 >>= λ p. bit_array_set p 3 1 >>= λ q. bit_array_get q 3)
    ≡ some 0
unfolding new_bit_array bit_array_set bit_array_get bit_mask_set bit_mask_get
set_one = refl
