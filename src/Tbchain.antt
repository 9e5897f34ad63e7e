-- ===== src/Tbchain.antt =====
-- The triple block chains of src/backend/tbchain.c: for each model a chain of blocks of up to five
-- triples, in a mapped file whose unused blocks are linked into a free list. Blocks 0 and 1 are in
-- no chain.
pub mod Invariant
pub mod Free
pub mod Alloc
pub mod Append
pub mod Add
pub mod Walk
pub mod Bits
pub mod Clear
pub mod Iter
mod Tests
use store.Prelude.{
  ℕ, zero, suc, ◌+◌, ◌-◌, ◌*◌, ◌/◌, ◌%◌, ◌^◌, Bool, true, false, ◌||◌, Option, none, some, Arr,
  load, save, update, ltb, leb, ◌==◌, ◌!=◌, if◌then◌else◌, ◌>>=◌, negate, ◌&&◌,
}
use store.Rid.{null, gone}

-- Three identifiers, of which the first is the subject.
pub record Triple : Type 0 where
  pub subject : ℕ
  pub predicate : ℕ
  pub object : ℕ

abbrev pub no_triple : Triple
no_triple = record { subject = 0; predicate = 0; object = 0 }

abbrev pub null_triple : Triple
null_triple = record { subject = null; predicate = null; object = null }

-- FS_TBLOCK_LEN
abbrev pub tblock_len : ℕ
tblock_len = 5

-- `fs_tblock`
pub record Tblock : Type 0 where
  pub cont : ℕ
  pub length : ℕ
  pub flags : ℕ
  pub triples : Arr Triple

-- What `memset` leaves of a block.
abbrev pub zero_block : Tblock
zero_block = record {
  cont = 0;
  length = 0;
  flags = 0;
  triples = record { size = tblock_len; cell = λ _. no_triple };
}

-- `struct _fs_tbchain`: the mapping has one block more than `size`.
pub record Tbchain : Type 0 where
  pub mapped : Bool
  pub size : ℕ
  pub length : ℕ
  pub free_list : ℕ
  pub blocks : Arr Tblock

-- `fs_tbchain_bit`, and the mask of a bit.
pub data TbchainBit : Type 0 where
  sparse superset : TbchainBit

abbrev pub mask : TbchainBit → ℕ
mask sparse = 1
mask superset = 2

-- `flags & bit`, `flags | bit` and `flags & ~bit`: a mask is a power of two.
abbrev pub and_bit : ℕ → ℕ → ℕ
and_bit flags m = if flags / m % 2 == 1 then m else 0

abbrev pub or_bit : ℕ → ℕ → ℕ
or_bit flags m = if flags / m % 2 == 1 then flags else flags + m

abbrev pub and_not_bit : ℕ → ℕ → ℕ
and_not_bit flags m = if flags / m % 2 == 1 then flags - m else flags

unmap_bc : Tbchain → Tbchain
unmap_bc bc = record bc { mapped = false }

map_bc : Tbchain → ℕ → ℕ → Tbchain
map_bc bc length size = record bc {
  mapped = true;
  size = size;
  length = length;
  blocks = record {
    size = size + 1;
    cell = λ j. if ltb j bc.blocks.size then bc.blocks.cell j else zero_block;
  };
}

-- The status is 1 for a block that cannot be freed.
pub free_block : Tbchain → ℕ → Option (ℕ × Tbchain)
free_block bc b =
    if b == 0 || b == 1 then some (1, bc) else if leb bc.length b then some (1, bc) else do
      k ← load bc.blocks b
      blocks ← save bc.blocks b (record k { cont = bc.free_list })
      some (0, record bc { free_list = b; blocks = blocks })

-- `for (i = ...; ...; i++) fs_tbchain_free_block(bc, i)`, with the rounds that are left.
pub free_range : ℕ → Tbchain → ℕ → Option Tbchain
free_range zero bc i = some bc
free_range (suc k) bc i = do (_, bc') ← free_block bc i; free_range k bc' (i + 1)

-- The first loop of `fs_tbchain_open_filename` frees every block of a new file but 0 and 1.
pub init_free : Tbchain → Option Tbchain
init_free bc = free_range (bc.size - 2) bc 2

-- Doubles the file and frees its new half. `size * 2` is an `int`, which may overflow.
grow : Tbchain → Option Tbchain
grow bc =
    if leb (2 ^ 31) (bc.size * 2)
    then none
    else let bc' = map_bc (unmap_bc bc) bc.length (bc.size * 2) in
      free_range bc.size (record bc' { length = bc.size * 2 }) bc.size

-- Takes the first block off the free list, cleared.
reuse_block : Tbchain → Option (ℕ × Tbchain)
reuse_block bc =
    if bc.free_list != 0
    then (do
      k ← load bc.blocks bc.free_list
      blocks ← save bc.blocks bc.free_list zero_block
      some (bc.free_list, record bc { free_list = k.cont; blocks = blocks }))
    else some (0, bc)

recover_length : Tbchain → Tbchain
recover_length bc = if bc.length == 0 then record bc { length = bc.size } else bc

grow_if_full : Tbchain → Option Tbchain
grow_if_full bc = if bc.free_list == 0 then grow bc else some bc

pub new_block : Tbchain → Option (ℕ × Tbchain)
new_block bc =
    if negate bc.mapped
    then some (0, bc)
    else do bc' ← grow_if_full (recover_length bc); reuse_block bc'

pub new_chain : Tbchain → Option (ℕ × Tbchain)
new_chain bc = do
  (b, bc') ← new_block bc
  k ← load bc'.blocks b
  blocks ← save bc'.blocks b (record k { cont = 0 })
  some (b, record bc' { blocks = blocks })

-- The `do` loop of `remove_chain`; the fuel bounds the blocks visited.
remove_from : ℕ → Tbchain → ℕ → Option (ℕ × Tbchain)
remove_from zero bc b = none
remove_from (suc f) bc b = do
  k ← load bc.blocks b
  (_, bc') ← free_block bc b
  let rest = remove_from f bc' k.cont
  if ltb bc'.size k.cont then some (1, bc') else if k.cont == 0 then some (0, bc') else rest

pub remove_chain : ℕ → Tbchain → ℕ → Option (ℕ × Tbchain)
remove_chain fuel bc b =
    if negate bc.mapped
    then some (1, bc)
    else if ltb bc.size b
    then some (1, bc)
    else if b == 0 || b == 1
    then some (1, bc)
    else remove_from fuel bc b

-- The guards of the functions on one block.
pub refuses : Tbchain → ℕ → Bool
refuses bc b = b == 0 || b == 1 || ltb bc.length b

pub set_bit : Tbchain → ℕ → TbchainBit → Option Tbchain
set_bit bc b bit = if refuses bc b then some bc else do
  k ← load bc.blocks b
  if and_bit k.flags (mask bit) == 0
      then (save bc.blocks b (record k { flags = or_bit k.flags (mask bit) }) >>= λ blocks.
          some (record bc { blocks = blocks }))
      else some bc

pub clear_bit : Tbchain → ℕ → TbchainBit → Option Tbchain
clear_bit bc b bit = if refuses bc b then some bc else do
  k ← load bc.blocks b
  if and_bit k.flags (mask bit) != 0
      then (save bc.blocks b (record k { flags = and_not_bit k.flags (mask bit) }) >>= λ blocks.
          some (record bc { blocks = blocks }))
      else some bc

pub get_bit : Tbchain → ℕ → TbchainBit → Option ℕ
get_bit bc b bit =
    if refuses bc b then some 0 else do k ← load bc.blocks b; some (and_bit k.flags (mask bit))

-- Links the new block `n` in front of the block `b`; it takes over the flags.
pub link_block : Tbchain → ℕ → ℕ → Option Tbchain
link_block bc b n = do
  k ← load bc.blocks b
  m ← load bc.blocks n
  blocks ← save bc.blocks n (record m { cont = b; length = 0; flags = k.flags })
  some (record bc { blocks = blocks })

-- The triple goes behind the last one of the block; `length` is a byte.
pub append_triple : Tbchain → ℕ → Triple → Option (ℕ × Tbchain)
append_triple bc b t = do
  k ← load bc.blocks b
  triples ← save k.triples k.length t
  blocks ← save bc.blocks b (record k { triples = triples; length = (k.length + 1) % 2 ^ 8 })
  some (b, record bc { blocks = blocks })

pub add_triple : Tbchain → ℕ → Triple → Option (ℕ × Tbchain)
add_triple bc b t =
    if refuses bc b
    then some (0, bc)
    else load bc.blocks b >>= λ k.
        if ltb tblock_len (k.length + 1)
        then (new_block bc >>= λ (n, bc').
            if n == 0 then some (b, bc') else (link_block bc' b n >>= λ q. append_triple q n t))
        else append_triple bc b t

-- The loop of `length`, with the triples counted so far in an `int`: `none` where it overflows.
length_from : ℕ → Tbchain → ℕ → ℕ → Option ℕ
length_from zero bc b n = none
length_from (suc f) bc b n = load bc.blocks b >>= λ k.
    let rest = length_from f bc k.cont (n + k.length) in
    if leb (2 ^ 31) (n + k.length) then none else if k.cont != 0 then rest else some (n + k.length)

pub chain_length : ℕ → Tbchain → ℕ → Option ℕ
chain_length fuel bc b = if refuses bc b then some 0 else length_from fuel bc b 0

pub allocated_blocks : Tbchain → ℕ
allocated_blocks bc = bc.length
