-- ===== src/RidSet.antt =====
-- The sets of resource identifiers of src/common/datatypes.c: a table of 1024 chained buckets,
-- and the cursor of a scan.
pub mod Contents
pub mod Scan
pub mod Members
mod Tests
use store.Prelude.{
  ℕ, zero, suc, ◌+◌, ◌-◌, ◌/◌, ◌%◌, Bool, true, false, ◌&&◌, Option, none, some, List, [], ◌∷◌,
  length, get_elem?, if◌then◌else◌, ◌==◌, ◌!=◌, ltb, update,
}
use store.Rid.{null}

-- FS_RID_SET_ENTRIES
abbrev pub entries : ℕ
entries = 1024

-- FS_RID_ENTRY_HASH: `(r >> 12) & (FS_RID_SET_ENTRIES - 1)`.
abbrev pub entry_hash : ℕ → ℕ
entry_hash r = r / 4096 % 1024

-- `struct rid_entry`: the first cell's value, and the values of the cells that hang on it.
pub record RidEntry : Type 0 where
  pub val : ℕ
  pub next : List ℕ

-- `struct _fs_rid_set`. The cursor `scan_entry` points into the bucket `scan_hash`: it is the
-- position of a cell there, or `none` for the null pointer.
pub record RidSet : Type 0 where
  pub entry : ℕ → RidEntry
  pub scan_hash : ℕ
  pub scan_entry : Option ℕ

pub new : RidSet
new = record { entry = λ _. record { val = null; next = [] }; scan_hash = 0; scan_entry = none }

-- The walk of `add` along the cells: `v` is the cell that it stands on, the list what follows.
add_walk : ℕ → ℕ → List ℕ → List ℕ
add_walk val v [] = if v != null then (if v == val then [] else val ∷ []) else val ∷ []
add_walk val v (w ∷ ws) = let rest = w ∷ add_walk val w ws in if v == val then w ∷ ws else rest

add_entry : ℕ → RidEntry → RidEntry
unfolding add_walk
add_entry val e =
    if e.val == val
    then e
    else if e.val == null
    then record e { val = val }
    else record e { next = add_walk val e.val e.next }

pub add : RidSet → ℕ → RidSet
unfolding add_entry
add s val = if val == null then s else record s {
  entry = update s.entry (entry_hash val) (add_entry val (s.entry (entry_hash val)));
}

contains_walk : ℕ → ℕ → List ℕ → Bool
contains_walk val v [] = (v == val) && v != null
contains_walk val v (w ∷ ws) =
    let rest = contains_walk val w ws in
    if v == null then (v == val) && v != null else if v == val then true else rest

contains_entry : ℕ → RidEntry → Bool
unfolding contains_walk
contains_entry val e =
    if e.val == null then false else if e.val == val then true else contains_walk val e.val e.next

pub contains : RidSet → ℕ → Bool
unfolding contains_entry
contains s val = if val == null then false else contains_entry val (s.entry (entry_hash val))

-- The loop of `rewind`, with the rounds that are left.
rewind_from : ℕ → ℕ → RidSet → RidSet
rewind_from zero i s = record s { scan_hash = entries; scan_entry = none }
rewind_from (suc k) i s =
    let rest = rewind_from k (i + 1) s in
    if (s.entry i).val != null then record s { scan_hash = i; scan_entry = some 0 } else rest

pub rewind : RidSet → RidSet
unfolding rewind_from
rewind s = rewind_from entries 0 s

-- The value of the cell at a position of a bucket.
abbrev pub cell_at : RidEntry → ℕ → Option ℕ
cell_at e p = get_elem? (e.val ∷ e.next) p

-- `scan_entry->next`
advance : RidEntry → ℕ → Option ℕ
advance e p = if ltb p (length e.next) then some (p + 1) else none

-- What a round of `next` finds under the cursor.
current : RidSet → Option ℕ
current s = elim (s.scan_entry) [
  | none ↦ none
  | some p ↦ elim (cell_at (s.entry s.scan_hash) p) [
    | none ↦ none
    | some v ↦ if v != null then some v else none
  ]
]

-- The cursor behind the value that a round has found.
step_cursor : RidSet → RidSet
unfolding advance
step_cursor s = elim (s.scan_entry) [
  | none ↦ s
  | some p ↦ record s { scan_entry = advance (s.entry s.scan_hash) p }
]

-- The loop of `next`, with the rounds that are left: each moves to a bucket further on.
next_from : ℕ → RidSet → ℕ × RidSet
unfolding current step_cursor
next_from zero s = (null, s)
next_from (suc k) s =
    let rest = next_from k (record s { scan_hash = s.scan_hash + 1; scan_entry = some 0 }) in
    elim (current s) [ some v ↦ (v, step_cursor s) | none ↦ rest ]

pub next : RidSet → ℕ × RidSet
unfolding next_from
next s = next_from (entries - s.scan_hash) s
