-- ===== src/RidVector.antt =====
-- The vectors of resource identifiers of src/common/datatypes.c: arrays that grow by doubling.
-- `length` and `size` are 32-bit numbers. A null pointer, on which most of the functions return at
-- once, is not modelled, nor is a vector that is appended to itself.
pub mod Append
pub mod Sets
pub mod Rows
pub mod Uniq
mod Tests
use store.Prelude.{
  ℕ, zero, suc, ◌+◌, ◌-◌, ◌*◌, ◌/◌, ◌%◌, ◌^◌, Bool, true, false, ◌&&◌, List, [], ◌∷◌, Option, none,
  some, Arr, load, save, realloc, memcpy, ltb, leb, ◌==◌, ◌!=◌, if◌then◌else◌, ◌>>=◌, negate,
}
use store.Rid.{null}
use store.RidSet.{RidEntry, RidSet, entries}

-- `fs_rid_vector`
pub record RidVector : Type 0 where
  pub length : ℕ
  pub size : ℕ
  pub cells : Arr ℕ

pub new : ℕ → RidVector
new length =
    let size = if ltb length 32 then 32 else length in
    record { length = length; size = size; cells = record { size = size; cell = λ _. 0 } }

-- The growth of `append`.
grow_if_full : RidVector → RidVector
grow_if_full v =
    let size = if v.size != 0 then v.size * 2 % 2 ^ 32 else 32 in
    if leb v.size v.length then record v { size = size; cells = realloc v.cells size } else v

pub append : RidVector → ℕ → Option RidVector
append v r =
    let v' = grow_if_full v in
    save v'.cells v'.length r >>= λ cells.
    some (record v' { cells = cells; length = (v'.length + 1) % 2 ^ 32 })

-- `for (j = ...; ...; j++) if (test) append(v, v2->data[j])`, with the rounds that are left.
pub append_each : (ℕ → Bool) → ℕ → RidVector → RidVector → ℕ → Option RidVector
append_each test zero v v2 j = some v
append_each test (suc k) v v2 j = do
  r ← load v2.cells j
  v' ← (if test r then append v r else some v)
  append_each test k v' v2 (suc j)

-- `v->size - v->length`
abbrev pub free_cells : RidVector → ℕ
free_cells v = (v.size + 2 ^ 32 - v.length) % 2 ^ 32

-- The room that `append_vector` makes.
make_room : RidVector → RidVector → RidVector
make_room v v2 =
    let size = (v.size + (if ltb 32 v2.length then v2.length else 32)) % 2 ^ 32 in
    if ltb 4 v2.length && ltb (free_cells v) v2.length
    then record v { size = size; cells = realloc v.cells size }
    else v

pub append_vector : RidVector → RidVector → Option RidVector
append_vector v v2 =
    let v' = make_room v v2 in
    if leb v2.length (free_cells v')
    then (memcpy v'.cells v'.length v2.cells v2.length >>= λ cells.
        some (record v' { cells = cells; length = (v'.length + v2.length) % 2 ^ 32 }))
    else append_each (λ r. true) v2.length v' v2 0

pub append_vector_no_nulls : RidVector → RidVector → Option RidVector
append_vector_no_nulls v v2 = append_each (λ r. r != null) v2.length v v2 0

-- FS_IS_LITERAL
abbrev pub is_literal : ℕ → Bool
is_literal x = x / 2 ^ 63 % 2 == 0

pub append_vector_no_nulls_lit : RidVector → RidVector → Option RidVector
append_vector_no_nulls_lit v v2 =
    append_each (λ r. r != null && negate (is_literal r)) v2.length v v2 0

-- The cells of a bucket.
pub append_cells : RidVector → List ℕ → Option RidVector
append_cells v [] = some v
append_cells v (x ∷ xs) = do v' ← (if x != null then append v x else some v); append_cells v' xs

-- The buckets from `hash` on, with the rounds that are left.
pub append_buckets : ℕ → RidVector → RidSet → ℕ → Option RidVector
append_buckets zero v s hash = some v
append_buckets (suc k) v s hash = do
  v' ← append_cells v ((s.entry hash).val ∷ (s.entry hash).next)
  append_buckets k v' s (hash + 1)

pub append_set : RidVector → RidSet → Option RidVector
append_set v s = append_buckets entries v s 0

pub copy : RidVector → Option RidVector
copy v =
    let v2 = record (new v.size) { length = v.length } in
    memcpy v2.cells 0 v.cells v.size >>= λ cells. some (record v2 { cells = cells })

pub clear : RidVector → RidVector
clear v = record v { length = 0 }

-- `int length = v->length`, the rounds of a loop that counts up to it: a number of 2^31 or more
-- becomes negative, and the loop has no rounds.
pub int_rounds : ℕ → ℕ
int_rounds length = if ltb length (2 ^ 31) then length else 0

-- A round of `uniq` at `row`, which moves the item to `outrow` unless the item behind it is the same.
keeps_row : RidVector → Bool → ℕ → ℕ → Option Bool
keeps_row v remove_null length row = load v.cells row >>= λ x.
    if remove_null && x == null
    then some false
    else if ltb row (length - 1)
    then (load v.cells (row + 1) >>= λ y. some (negate (x == y)))
    else some true

-- The loop of `uniq`, with the rounds that are left.
uniq_rows : ℕ → RidVector → Bool → ℕ → ℕ → ℕ → Option RidVector
uniq_rows zero v remove_null length row outrow = some (record v { length = outrow })
uniq_rows (suc k) v remove_null length row outrow = do
  keeps ← keeps_row v remove_null length row
  x ← load v.cells row
  cells ← (if keeps then save v.cells outrow x else some v.cells)
  uniq_rows k (record v { cells = cells }) remove_null length (suc row)
      (if keeps then suc outrow else outrow)

pub uniq : RidVector → Bool → Option RidVector
uniq v remove_null = let length = int_rounds v.length in uniq_rows length v remove_null length 0 0

pub truncate : RidVector → ℕ → RidVector
truncate v length = if ltb v.length length then v else record v { length = length }

pub grow : RidVector → ℕ → RidVector
grow v length =
    let v' =
      if ltb v.size length then record v { cells = realloc v.cells length; size = length } else v in
    record v' { length = length }

-- The loop of `contains`, with the rounds that are left.
contains_from : ℕ → RidVector → ℕ → ℕ → Option Bool
contains_from zero v r row = some false
contains_from (suc k) v r row = load v.cells row >>= λ x.
    let rest = contains_from k v r (suc row) in if x == r then some true else rest

pub contains : RidVector → ℕ → Option Bool
contains v r = contains_from v.length v r 0
