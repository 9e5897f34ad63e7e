-- ===== src/DiskList.antt =====
-- The lists of src/backend/list.c: a file of records of one width, with a buffer for the records to
-- be written. An item stands for a record, and positions in the file count items.
pub mod Contents
pub mod Scan
pub mod Sorting
pub mod Tests
use store.Prelude.{
  ℕ, zero, suc, ◌+◌, ◌-◌, ◌*◌, ◌/◌, ◌%◌, ◌^◌, Bool, true, false, List, [], ◌∷◌, Option, none, some,
  Arr, load, save, copied, slice, get_elem?, ltb, leb, ◌==◌, ◌!=◌, if◌then◌else◌, ◌>>=◌, negate,
  ◌&&◌,
}

-- LIST_BUFFER_SIZE
abbrev pub buffer_size : ℕ
buffer_size = 256

-- The `int` -1.
abbrev pub minus_one : ℕ
minus_one = 2 ^ 32 - 1

pub data SortState : Type 0 where
  unsorted chunk_sorted sorted : SortState

-- The merge of a sorted list that is under way: `chunks`, `chunk_pos`, `chunk_end` and `last`.
pub record MergeState (A : Type 0) : Type 0 where
  pub chunks : ℕ
  pub chunk_pos : Arr ℕ
  pub chunk_end : Arr ℕ
  pub last : A

-- `struct _fs_list`: `position` is the file's own, `named` says that the list has a file name, and
-- `sort_func` whether the comparison finds its first item below the second; `chunk_rows` is
-- `CHUNK_SIZE / width`. `merge` is `none` while
-- `chunk_pos` is a null pointer.
pub record FsList (A : Type 0) : Type 0 where
  pub file : Arr A
  pub position : ℕ
  pub named : Bool
  pub offset : ℕ
  pub buffer_pos : ℕ
  pub buffer : Arr A
  pub chunk_rows : ℕ
  pub sort : SortState
  pub sort_func : A → A → Bool
  pub count : ℕ
  pub merge : Option (MergeState A)

-- Which system calls succeed. A `write` that fails is taken to write nothing.
pub record Io : Type 0 where
  pub seeks : Bool
  pub writes : Bool
  pub reads : Bool
  pub truncates : Bool
  pub maps : Bool

module _ {A : Type 0} where
  -- `write` of the first `n` items of the buffer at the offset.
  abbrev pub written : FsList A → Arr A
  written l = record {
    size =
        if ltb l.file.size (l.offset + l.buffer_pos) then l.offset + l.buffer_pos else l.file.size;
    cell = copied l.file.cell l.offset l.buffer.cell l.buffer_pos;
  }

  -- What a flush that succeeds leaves.
  pub flushed : FsList A → FsList A
  flushed l =
      let file = if ltb 0 l.buffer_pos then written l else l.file in
      record l { file = file; buffer_pos = 0; offset = file.size; position = file.size }

  pub flush : Io → FsList A → ℕ × FsList A
  flush io l =
      if negate l.named
      then (1, l)
      else if negate io.seeks
      then (minus_one, l)
      else if ltb 0 l.buffer_pos && negate io.writes
      then (minus_one, record l { position = l.offset })
      else (0, flushed l)

  -- The item goes behind the last one in the buffer.
  buffer_item : FsList A → A → Option (ℕ × FsList A)
  buffer_item l x = save l.buffer l.buffer_pos x >>= λ buffer. some (
    (l.offset + (l.buffer_pos + 1) - 1) % 2 ^ 32,
    record l { buffer = buffer; buffer_pos = l.buffer_pos + 1 },
  )

  pub add : Io → FsList A → A → Option (ℕ × FsList A)
  add io l x =
      let (ret, l') = flush io l in
      if l.buffer_pos == buffer_size
      then (if ret != 0 then some (ret, l') else buffer_item l' x)
      else buffer_item l x

  -- The status, the item and the list.
  pub get : Io → FsList A → ℕ → Option (ℕ × Option A × FsList A)
  get io l pos =
      if leb l.offset pos
      then (if leb (l.offset + l.buffer_pos) pos
          then some (1, none, l)
          else (load l.buffer (pos - l.offset) >>= λ x. some (0, some x, l)))
      else if negate io.seeks
      then some (1, none, l)
      else if io.reads && ltb pos l.file.size
      then some (0, some (l.file.cell pos), record l { position = pos + 1 })
      else some (1, none, record l { position = pos })

  pub list_length : FsList A → ℕ
  list_length l = (l.offset + l.buffer_pos) % 2 ^ 32

  pub rewind : FsList A → FsList A
  rewind l = record l { position = 0 }

  pub next_value : Io → FsList A → ℕ × Option A × FsList A
  next_value io l =
      if io.reads && ltb l.position l.file.size
      then (1, some (l.file.cell l.position), record l { position = l.position + 1 })
      else (0, none, l)

  pub truncate : Io → FsList A → ℕ × FsList A
  truncate io l =
      if negate io.truncates
      then (1, l)
      else (0, record l { file = record (l.file) { size = 0 }; offset = 0; buffer_pos = 0 })
