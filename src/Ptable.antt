-- ===== src/Ptable.antt =====
-- The pair table of src/backend/ptable.c: a mapped file of rows, linked into chains of pairs, with
-- the free rows linked into a list of their own. Row 0 ends every chain.
pub mod Alloc
pub mod Add
pub mod Invariant
pub mod Walk
pub mod Free
pub mod Remove
pub mod Tests
use store.Prelude.{
  ℕ, zero, suc, ◌+◌, ◌*◌, ◌^◌, Bool, true, false, ◌&&◌, Option, none, some, Arr, load, save, ltb,
  leb, ◌==◌, ◌!=◌, if◌then◌else◌, ◌>>=◌, negate,
}
use store.Rid.{null}
use store.RidSet
use store.RidSet.{RidSet}

-- `row`: the row that follows, and the pair.
pub record Row : Type 0 where
  pub cont : ℕ
  pub first : ℕ
  pub second : ℕ

abbrev pub zero_row : Row
zero_row = record { cont = 0; first = 0; second = 0 }

-- `struct _fs_ptable`. `header->size` is the number of rows that are mapped, the size of `rows`;
-- `mapped` says whether `ptr` and `header` are set.
pub record Ptable : Type 0 where
  pub mapped : Bool
  pub length : ℕ
  pub free_list : ℕ
  pub rows : Arr Row

abbrev pub with_cont : Row → ℕ → Row
with_cont r c = record r { cont = c }

unmap_pt : Ptable → Ptable
unmap_pt pt = record pt { mapped = false }

-- `ftruncate` fills the rows that a larger file gains with zeros.
map_pt : Ptable → ℕ → ℕ → Ptable
map_pt pt length size = record pt {
  mapped = true;
  length = length;
  rows = record {
    size = size;
    cell = λ j. if ltb j size && ltb j pt.rows.size then pt.rows.cell j else zero_row;
  };
}

-- The size that the table grows to.
grown_size : ℕ → ℕ
grown_size size = if ltb 4194304 (size * 2) then size + 4194304 else size * 2

-- `size * 2` is an `int`: from 2^30 rows on it overflows, a fault.
grow : Ptable → Option Ptable
grow pt =
    if ltb pt.length pt.rows.size
    then some pt
    else if leb (2 ^ 31) (pt.rows.size * 2)
    then none
    else some (map_pt (unmap_pt pt) pt.length (grown_size pt.rows.size))

-- Takes the first row off the free list.
reuse_row : Ptable → Option (ℕ × Ptable)
reuse_row pt = do
  r ← load pt.rows pt.free_list
  rows ← save pt.rows pt.free_list zero_row
  some (pt.free_list, record pt { free_list = r.cont; rows = rows })

-- Clears the row behind the last one in use.
extend_row : Ptable → Option (ℕ × Ptable)
extend_row pt = do
  pt' ← grow pt
  rows ← save pt'.rows pt'.length zero_row
  some (pt'.length, record pt' { length = pt'.length + 1; rows = rows })

-- Row 0 is never handed out.
skip_row_zero : Ptable → Ptable
skip_row_zero pt = if pt.length == 0 then record pt { length = 1 } else pt

pub new_row : Ptable → Option (ℕ × Ptable)
new_row pt =
    if negate pt.mapped
    then some (0, pt)
    else let pt' = skip_row_zero pt in if pt'.free_list != 0 then reuse_row pt' else extend_row pt'

-- The status is 1 for row 0.
pub free_row : Ptable → ℕ → Option (ℕ × Ptable)
free_row pt b = if b == 0 then some (1, pt) else do
  r ← load pt.rows b
  rows ← save pt.rows b (with_cont r pt.free_list)
  some (0, record pt { free_list = b; rows = rows })

-- Row 0 as a chain is the empty one.
pub add_pair : Ptable → ℕ → ℕ → ℕ → Option (ℕ × Ptable)
add_pair pt b p0 p1 =
    if negate pt.mapped then some (0, pt) else if ltb pt.length b then some (0, pt) else do
      (n, pt') ← new_row pt
      rows ← save pt'.rows n (record { cont = b; first = p0; second = p1 })
      some (n, record pt' { rows = rows })

-- The status, and the pair that is written through the argument.
pub get_row : Ptable → ℕ → Option (ℕ × Option (ℕ × ℕ))
get_row pt b =
    if b == 0
    then some (1, none)
    else if ltb pt.length b
    then some (1, none)
    else do r ← load pt.rows b; some (0, some (r.first, r.second))

pub get_next : Ptable → ℕ → Option ℕ
get_next pt r = if ltb pt.length r then some 0 else do c ← load pt.rows r; some c.cont

-- The walk of `pair_exists`; the fuel bounds the rows visited.
exists_from : ℕ → Ptable → ℕ → ℕ → ℕ → Option Bool
exists_from zero pt b p0 p1 = none
exists_from (suc f) pt b p0 p1 =
    if b == 0
    then some false
    else load pt.rows b >>= λ r.
        let rest = exists_from f pt r.cont p0 p1 in
        if r.first == p0 && r.second == p1 then some true else rest

pub pair_exists : ℕ → Ptable → ℕ → ℕ → ℕ → Option Bool
pair_exists fuel pt b p0 p1 =
    if b == 0
    then some false
    else if ltb pt.length b
    then some false
    else exists_from fuel pt b p0 p1

-- The loop of `chain_length` behind the row `b`, `n` rows counted. A `max` of 0 is no limit.
length_from : ℕ → Ptable → ℕ → ℕ → ℕ → Option ℕ
length_from zero pt b max n = none
length_from (suc f) pt b max n = load pt.rows b >>= λ r.
    let rest = length_from f pt r.cont max (n + 1) in
    if r.cont == 0 then some n else if max != 0 && ltb max (n + 1) then some (n + 1) else rest

pub chain_length : ℕ → Ptable → ℕ → ℕ → Option ℕ
chain_length fuel pt b max =
    if b == 0 then some 0 else if ltb pt.length b then some 0 else length_from fuel pt b max 1

-- `for (i = free_list; ret++, i; i = data[i].cont);`
free_length_from : ℕ → Ptable → ℕ → ℕ → Option ℕ
free_length_from zero pt i ret = none
free_length_from (suc f) pt i ret =
    let rest = load pt.rows i >>= λ r. free_length_from f pt r.cont (ret + 1) in
    if i == 0 then some (ret + 1) else rest

pub free_length : ℕ → Ptable → Option ℕ
free_length fuel pt = free_length_from fuel pt pt.free_list 0
