-- ===== src/DiskList/Sorting.antt =====
-- Sorting a list in chunks, and reading the sorted chunks as one list without repeats.
pub mod Merge
pub mod Next
pub mod Unique
mod Tests
use store.Prelude.{
  ℕ, zero, suc, ◌+◌, ◌-◌, ◌*◌, ◌/◌, Bool, true, false, ◌&&◌, List, Option, none, some, Arr, load,
  save, slice, get_elem?, ltb, leb, ◌==◌, ◌!=◌, if◌then◌else◌, ◌>>=◌, negate, ◌^◌,
}
use store.DiskList.{
  SortState, unsorted, chunk_sorted, sorted, MergeState, FsList, Io, flush, next_value,
}

-- CHUNK_SIZE, in bytes.
abbrev pub chunk_size : ℕ
chunk_size = 131072 * 4096

module _ {A : Type 0} where
  -- The row of the chunk with the lowest item among the chunks seen: `best_c`, `none` for -1. `k`
  -- rounds are left.
  pub best_from : ℕ → FsList A → MergeState A → ℕ → Option ℕ → Option (Option ℕ)
  best_from zero l m c best = some best
  best_from (suc k) l m c best = do
    p ← load m.chunk_pos c
    e ← load m.chunk_end c
    next ←
        (if leb e p then some best else elim best [
          | none ↦ some (some c)
          | some b ↦ load m.chunk_pos b >>= λ q. load l.file p >>= λ x.
              load l.file q >>= λ y. some (if l.sort_func x y then some c else some b)
        ])
    best_from k l m (suc c) next

  -- Fills `chunk_pos` and `chunk_end` when the first item is asked for. `(c+1) * CHUNK_SIZE` is an
  -- `int`, which overflows at the fourth chunk.
  pub start_merge : FsList A → A → Option (MergeState A)
  start_merge l blank =
      let chunks = l.offset / l.chunk_rows + 1 in
      if leb (2 ^ 31) (chunks * chunk_size)
      then none
      else some (record {
        chunks = chunks;
        chunk_pos = record { size = chunks; cell = λ c. c * l.chunk_rows };
        chunk_end = record {
          size = chunks;
          cell = λ c. if c == chunks - 1 then l.offset else (c + 1) * l.chunk_rows;
        };
        last = blank;
      })

  -- The rows of the chunks from `c` on, as the check before a merge counts them.
  pub rows_from : ℕ → MergeState A → ℕ → Option ℕ
  rows_from zero m c = some 0
  rows_from (suc k) m c = do
    p ← load m.chunk_pos c
    e ← load m.chunk_end c
    n ← rows_from k m (suc c)
    some (e - p + n)

  -- `same` is `bcmp(...) == 0`. From `again` on: the fuel bounds the rows passed over. The result is
  -- the status, the item and the list.
  pub merge_from : (A → A → Bool) → ℕ → FsList A → MergeState A → Option (ℕ × Option A × FsList A)
  merge_from same zero l m = none
  merge_from same (suc f) l m = best_from m.chunks l m 0 none >>= λ best. elim best [
    | none ↦ some (0, none, record l { merge = none })
    | some c ↦ load m.chunk_pos c >>= λ p. load l.file p >>= λ x.
        save m.chunk_pos c (p + 1) >>= λ chunk_pos.
        let l' = record l { count = l.count + 1 } in
        let rest = merge_from same f l' (record m { chunk_pos = chunk_pos }) in
        if same m.last x
        then rest
        else some
            (1, some x, record l' { merge = some (record m { chunk_pos = chunk_pos; last = x }) })
  ]

  -- `blank` is the item that `calloc` leaves.
  pub merge_next : (A → A → Bool) → A → ℕ → FsList A → Option (ℕ × Option A × FsList A)
  merge_next same blank fuel l = elim (l.merge) [
    | some m ↦ merge_from same fuel l m
    | none ↦ start_merge l blank >>= λ m. rows_from m.chunks m 0 >>= λ n.
        if n != l.offset
        then some (1, none, record l { count = 0; merge = none })
        else merge_from same fuel (record l { count = 0 }) m
  ]

  pub next_sort_uniqed : (A → A → Bool) → A → ℕ → Io → FsList A → Option (ℕ × Option A × FsList A)
  next_sort_uniqed same blank fuel io l = elim (l.sort) [
    | unsorted ↦ some (next_value io l)
    | sorted ↦ merge_next same blank fuel l
    | chunk_sorted ↦ merge_next same blank fuel l
  ]

  -- The item at an index of a list, or the one given.
  abbrev pub item_or : A → Option A → A
  item_or x none = x
  item_or x (some y) = y

  -- `qsort` stands for the C library's, on a part of the mapped file.
  sort_chunk :
      ((A → A → Bool) → List A → List A) → Io → FsList A → ℕ → ℕ → (A → A → Bool) → ℕ × FsList A
  sort_chunk qsort io l start length comp =
      let rows = qsort comp (slice l.file.cell start length) in
      if negate io.maps then (1, l) else (
        0,
        record l {
          file = record (l.file) {
            cell = λ j.
                if leb start j && ltb j (start + length)
                then item_or (l.file.cell j) (get_elem? rows (j - start))
                else l.file.cell j;
          };
        },
      )

  pub sort_list : ((A → A → Bool) → List A → List A) → Io → FsList A → (A → A → Bool) → ℕ × FsList A
  sort_list qsort io l comp =
      let (_, l1) = flush io l in
      let l2 = record l1 { sort_func = comp } in
      let (ret, l3) = sort_chunk qsort io l2 0 l2.offset comp in
      if ret != 0 then (1, l3) else (0, record l3 { sort = sorted })

  -- The loop of `sort_chunked` from the row `c` on, with at most `k` rounds. `c` is an `int`, and the
  -- list is taken to have fewer rows than 2^31, so that it stays one.
  sort_chunks :
      ℕ → ((A → A → Bool) → List A → List A) → Io → FsList A → ℕ → (A → A → Bool) → ℕ × FsList A
  sort_chunks zero qsort io l c comp = (0, l)
  sort_chunks (suc k) qsort io l c comp =
      let length = if ltb l.chunk_rows (l.offset - c) then l.chunk_rows else l.offset - c in
      let (ret, l') = sort_chunk qsort io l c length comp in
      let rest = sort_chunks k qsort io l' (c + l.chunk_rows) comp in
      if ltb c l.offset then (if ret != 0 then (ret, l') else rest) else (0, l)

  -- Each round passes a row at least.
  pub sort_chunked :
      ((A → A → Bool) → List A → List A) → Io → FsList A → (A → A → Bool) → ℕ × FsList A
  sort_chunked qsort io l comp =
      let (_, l1) = flush io l in
      let l2 = record l1 { sort_func = comp } in
      let (ret, l3) = sort_chunks (l2.offset + 1) qsort io l2 0 comp in
      if ret != 0
      then (ret, l3)
      else (0, record l3 { sort = if leb l3.offset l3.chunk_rows then sorted else chunk_sorted })
