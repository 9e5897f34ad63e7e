-- ===== src/Mhash.antt =====
-- The model hash of src/backend/mhash.c: an open hash table in a file, from model identifiers to
-- index nodes, on an open file whose system calls succeed.
pub mod Table
pub mod Move
pub mod Grow
pub mod Doubled
pub mod Put
pub mod Stored
pub mod Get
mod Tests
use store.Prelude.{
  ℕ, zero, suc, ◌+◌, ◌-◌, ◌*◌, ◌/◌, ◌%◌, ◌^◌, Bool, true, false, ◌&&◌, ◌||◌, Option, none, some,
  ltb, leb, ◌==◌, ◌!=◌, if◌then◌else◌, ◌>>=◌, update,
}
use store.Prelude.Int.{ℤ, pos, negsuc, ◌+ℤ◌, ◌-ℤ◌}
use store.RidVector.{RidVector, append}

-- `struct _fs_mhash_entry`: an identifier 0 is a slot not used yet, a value 0 no model.
pub record MhashEntry : Type 0 where
  pub rid : ℕ
  pub val : ℕ

abbrev pub blank : MhashEntry
blank = record { rid = 0; val = 0 }

-- The fields of `_fs_mhash` that the operations use, and the file behind the header: `slots` entries,
-- and zeros for what lies behind them, which a read leaves as they were.
pub record Mhash : Type 0 where
  pub size : ℕ
  pub count : ℤ
  pub search_dist : ℕ
  pub slots : ℕ
  pub entry : ℕ → MhashEntry

-- What `fs_mhash_open_filename` makes of an empty file.
abbrev pub empty : Mhash
empty = record { size = 4096; count = pos 0; search_dist = 16; slots = 0; entry = λ _. blank }

-- `FS_MHASH_ENTRY`, whose mask is a remainder since the size is a power of two.
abbrev pub mhash_entry : ℕ → ℕ → ℕ
mhash_entry size rid = rid / 1024 % size

-- `pwrite` at an entry.
pub write_entry : Mhash → ℕ → MhashEntry → Mhash
write_entry mh i e = record mh {
  slots = if ltb mh.slots (suc i) then suc i else mh.slots;
  entry = update mh.entry i e;
}

-- `else if (e.rid == 0 && candidate == -1) candidate = entry`
abbrev pub note_candidate : Option ℕ → ℕ → ℕ → Option ℕ
note_candidate none rid entry = if rid == 0 then some entry else none
note_candidate (some c) rid entry = some c

-- The loop of `fs_mhash_put` with `k` entries left behind this one: the entry to use, or `none`
-- where the table has to grow.
find_from : ℕ → Mhash → ℕ → ℕ → Option ℕ → Option ℕ
find_from zero mh rid entry candidate =
    if (mh.entry entry).rid == rid
    then some entry
    else note_candidate candidate (mh.entry entry).rid entry
find_from (suc k) mh rid entry candidate =
    let candidate' = note_candidate candidate (mh.entry entry).rid entry in
    let rest = find_from k mh rid (suc entry) candidate' in
    if (mh.entry entry).rid == rid
    then some entry
    else if entry == mh.size - 1
    then candidate'
    else rest

pub find_slot : Mhash → ℕ → Option ℕ
find_slot mh rid = find_from mh.search_dist mh rid (mhash_entry mh.size rid) none

-- The count after the value `old` of an entry has become `val`.
pub counted : ℤ → ℕ → ℕ → ℤ
counted n old val =
    if val != 0 then (if old == 0 then n +ℤ pos 1 else n) else if old != 0 then n -ℤ pos 1 else n

-- The rest of `fs_mhash_put`, at the entry that was found.
pub put_at : Mhash → ℕ → ℕ → ℕ → Mhash
put_at mh entry rid val =
    let e = mh.entry entry in
    if e.rid == rid && e.val == val
    then mh
    else let mh' = write_entry mh entry (record { rid = rid; val = val }) in
      record mh' { count = counted mh.count e.val val }

-- A round of the loop of `double_size`: the entry moves by the old size where its new place is in
-- the new half.
pub move_entry : ℕ → Mhash → ℕ → Mhash
move_entry oldsize mh i =
    let e = mh.entry i in
    if e.rid == 0
    then mh
    else if leb oldsize (mhash_entry mh.size e.rid)
    then write_entry (write_entry mh i blank) (oldsize + i) e
    else mh

-- The loop from the entry `i` on. Behind the end of the file nothing is read into `e`, which has no
-- value then: a fault.
pub move_from : ℕ → ℕ → Mhash → ℕ → Option Mhash
move_from zero oldsize mh i = some mh
move_from (suc k) oldsize mh i =
    let rest = move_from k oldsize (move_entry oldsize mh i) (suc i) in
    if ltb i mh.slots then rest else none

-- `none` is also the overflow of an `int32_t`.
pub double_size : Mhash → Option Mhash
double_size mh =
    if ltb (mh.size * 2) (2 ^ 31) && ltb (mh.search_dist * 2 + 1) (2 ^ 31)
    then move_from mh.size mh.size
        (record mh { size = mh.size * 2; search_dist = mh.search_dist * 2 + 1 }) 0
    else none

-- `fs_mhash_put`, with fuel for the times that the table grows.
pub put : ℕ → Mhash → ℕ → ℕ → Option Mhash
put zero mh rid val = none
put (suc k) mh rid val = elim (find_slot mh rid) [
  | some entry ↦ some (put_at mh entry rid val)
  | none ↦ double_size mh >>= λ mh'. put k mh' rid val
]

-- The loop of `fs_mhash_get_intl`, with `k` rounds left.
get_from : ℕ → Mhash → ℕ → ℕ → ℕ
get_from zero mh rid entry = 0
get_from (suc k) mh rid entry =
    let next = (entry + 1) % mh.size in
    let rest = get_from k mh rid next in
    if (mh.entry entry).rid == rid then (mh.entry entry).val else if next == 0 then 0 else rest

-- `fs_mhash_get`
pub get : Mhash → ℕ → ℕ
get mh rid = get_from mh.search_dist mh rid (mhash_entry mh.size rid)
