-- ===== src/Ptree.antt =====
-- The predicate trees of src/backend/ptree.c: a trie in a mapped file, whose branches are chosen by
-- two bits of a key at a time, with a leaf for each key that names a chain of a pair table. Nodes
-- and leaves are cells of the same array. The pair table is shared by the trees, so it is an
-- argument of its own. A cell that is read as what it is not is a fault.
pub mod Invariant
pub mod Changed
pub mod Taken
pub mod Extend
pub mod Growth
pub mod Alloc
pub mod Find
pub mod Graft
pub mod Grafted
pub mod Reached
pub mod Hang
pub mod HangNode
pub mod HangLeaf
pub mod Split
pub mod SplitLeaf
pub mod Create
pub mod Search
pub mod Leaf
pub mod Add
pub mod New
pub mod Remove
pub mod Tests
use store.Prelude.{
  ℕ, zero, suc, ◌+◌, ◌-◌, ◌*◌, ◌/◌, ◌%◌, ◌^◌, Bool, true, false, ◌&&◌, Option, none, some, Arr,
  load, save, update, ltb, leb, ◌==◌, ◌!=◌, if◌then◌else◌, ◌>>=◌, negate,
}
use store.Prelude.Int.{ℤ, pos, ◌+ℤ◌}
use store.Rid.{null}
use store.Ptable
use store.Ptable.{Ptable}

-- FS_PTREE_SIZE_INC, the cells that the file grows by.
abbrev pub size_inc : ℕ
size_inc = 32768

-- FS_PTREE_NULL_NODE and FS_PTREE_ROOT_NODE.
abbrev pub null_node : ℕ
null_node = 0x80000000

abbrev pub root_node : ℕ
root_node = 0x80000001

-- The high bit of a reference says that it is a node's.
abbrev pub is_node : ℕ → Bool
is_node n = leb 0x80000000 n

abbrev pub is_leaf : ℕ → Bool
is_leaf n = negate (is_node n)

-- `n & 0x7fffffff`, and `n | 0x80000000`.
abbrev pub offset_of : ℕ → ℕ
offset_of n = n % 0x80000000

abbrev pub node_id : ℕ → ℕ
node_id o = o % 0x80000000 + 0x80000000

-- The two bits of a key at a level.
abbrev pub pk_branch : ℕ → ℕ → ℕ
pk_branch pk i = pk / 4 ^ (31 - i) % 4

-- `PK_BRANCH(existpk, i-1)`: the macro has no brackets around `i`, so that this is the shift by
-- `(31 - i - 1) * 2`, for the level below. It is by -2 at the last level, which C leaves undefined.
abbrev pub split_branch : ℕ → ℕ → Option ℕ
split_branch pk i = if leb 31 i then none else some (pk / 4 ^ (31 - i - 1) % 4)

-- `node` with its branches, `leaf`, which share the file.
pub data Cell : Type 0 where
  node : (ℕ → ℕ) → Cell
  leaf : ℕ → ℕ → ℕ → Cell

-- `struct ptree_header` with the cells. `alloc`, in bytes, is 16 for each cell.
pub record Ptree : Type 0 where
  pub node_base : ℕ
  pub node_size : ℕ
  pub node_count : ℕ
  pub node_alloc : ℕ
  pub leaf_base : ℕ
  pub leaf_size : ℕ
  pub leaf_count : ℕ
  pub leaf_alloc : ℕ
  pub count : ℤ
  pub node_free : ℕ
  pub leaf_free : ℕ
  pub cells : Arr Cell

-- A file fills its new cells with zeros.
abbrev pub zero_cell : Cell
zero_cell = node (λ _. 0)

abbrev pub null_branches : ℕ → ℕ
null_branches _ = null_node

-- The tree of `write_header`, whose `node_free` is 0.
abbrev pub written_ptree : Ptree
written_ptree = record {
  node_base = 2;
  node_size = size_inc;
  node_count = 2;
  node_alloc = size_inc;
  leaf_base = size_inc + 1;
  leaf_size = size_inc + size_inc;
  leaf_count = 2;
  leaf_alloc = size_inc;
  count = pos 0;
  node_free = 0;
  leaf_free = 0;
  cells = record {
    size = size_inc + size_inc;
    cell = update (λ _. zero_cell) 1 (node null_branches);
  };
}

-- What `open_filename` does to the header of each tree that it opens.
pub mend_free : Ptree → Ptree
mend_free pt = if pt.node_free == 0 then record pt { node_free = null_node } else pt

-- `open_filename` of a new file, which finds the id and the revision that `write_header` has written.
pub open_new : Ptree
open_new = mend_free written_ptree

-- A null pointer is `none`.
pub node_ref : Ptree → ℕ → Option ℕ
node_ref pt n =
    if is_leaf n
    then none
    else if offset_of n == 0
    then none
    else if ltb pt.node_base (offset_of n)
    then none
    else some (offset_of n)

abbrev pub as_node : Cell → Option (ℕ → ℕ)
as_node (node br) = some br
as_node (leaf pk block length) = none

abbrev pub as_leaf : Cell → Option (ℕ × ℕ × ℕ)
as_leaf (node br) = none
as_leaf (leaf pk block length) = some (pk, block, length)

pub load_node : Ptree → ℕ → Option (ℕ → ℕ)
load_node pt o = load pt.cells o >>= as_node

pub load_leaf : Ptree → ℕ → Option (ℕ × ℕ × ℕ)
load_leaf pt n = load pt.cells n >>= as_leaf

pub store_cell : Ptree → ℕ → Cell → Option Ptree
store_cell pt i c = save pt.cells i c >>= λ cells. some (record pt { cells = cells })

-- `node_ref(pt, n)->branch[b]`, read and written; a null pointer is a fault.
pub branches : Ptree → ℕ → Option (ℕ → ℕ)
branches pt n = node_ref pt n >>= load_node pt

pub set_branch : Ptree → ℕ → ℕ → ℕ → Option Ptree
set_branch pt n b v = do
  o ← node_ref pt n
  br ← load_node pt o
  store_cell pt o (node (update br b v))

grow_cells : Arr Cell → Arr Cell
grow_cells a = record {
  size = a.size + size_inc;
  cell = λ j. if ltb j a.size then a.cell j else zero_cell;
}

pub grow_nodes : Ptree → Ptree
grow_nodes pt = record pt {
  node_base = pt.cells.size;
  node_size = pt.cells.size + size_inc;
  node_alloc = pt.node_alloc + size_inc;
  cells = grow_cells pt.cells;
}

pub grow_leaves : Ptree → Ptree
grow_leaves pt = record pt {
  leaf_base = pt.cells.size;
  leaf_size = pt.cells.size + size_inc;
  leaf_alloc = pt.leaf_alloc + size_inc;
  cells = grow_cells pt.cells;
}

-- The root and a leaf are not freed.
pub free_node : Ptree → ℕ → Option Ptree
free_node pt n = if is_leaf n then some pt else if n == root_node then some pt else do
  br ← load_node pt (offset_of n)
  pt' ← store_cell pt (offset_of n) (node (update br 0 pt.node_free))
  some (record pt' { node_free = n })

pub reuse_node : Ptree → Option (ℕ × Ptree)
reuse_node pt = do
  br ← load_node pt (offset_of pt.node_free)
  pt' ← store_cell pt (offset_of pt.node_free) (node null_branches)
  some (pt.node_free, record pt' { node_free = br 0 })

pub next_node : Ptree → Option (ℕ × Ptree)
next_node q = do
  pt' ← store_cell q q.node_base (node null_branches)
  some (
    node_id q.node_base,
    record pt' { node_base = q.node_base + 1; node_count = q.node_count + 1 },
  )

extend_node : Ptree → Option (ℕ × Ptree)
extend_node pt = next_node (if pt.node_base == pt.node_size then grow_nodes pt else pt)

pub new_node : Ptree → Option (ℕ × Ptree)
new_node pt =
    if pt.node_free != null_node && is_node pt.node_free then reuse_node pt else extend_node pt

pub free_leaf : Ptree → ℕ → Option Ptree
free_leaf pt n = if is_node n then some pt else do
  (pk, _, length) ← load_leaf pt n
  pt' ← store_cell pt n (leaf pk pt.leaf_free length)
  some (record pt' { leaf_free = n })

pub reuse_leaf : Ptree → Option (ℕ × Ptree)
reuse_leaf pt = do
  (_, block, _) ← load_leaf pt pt.leaf_free
  pt' ← store_cell pt pt.leaf_free (leaf null 0 0)
  some (pt.leaf_free, record pt' { leaf_free = block })

pub next_leaf : Ptree → Option (ℕ × Ptree)
next_leaf q = do
  pt' ← store_cell q q.leaf_base (leaf null 0 0)
  some (q.leaf_base, record pt' { leaf_base = q.leaf_base + 1; leaf_count = q.leaf_count + 1 })

extend_leaf : Ptree → Option (ℕ × Ptree)
extend_leaf pt = next_leaf (if pt.leaf_base == pt.leaf_size then grow_leaves pt else pt)

pub new_leaf : Ptree → Option (ℕ × Ptree)
new_leaf pt = if pt.leaf_free != 0 then reuse_leaf pt else extend_leaf pt

-- The loop of `get_leaf_and_parent` from a level on, `k` levels left: the leaf, 0 for none, and the
-- parent that is written through the argument.
pub descend : ℕ → Ptree → ℕ → ℕ → ℕ → Option (ℕ × Option ℕ)
descend zero pt pk i at = some (0, none)
descend (suc k) pt pk i at = branches pt at >>= λ br.
    let to = br (pk_branch pk i) in
    let rest = descend k pt pk (suc i) to in
    if to == null_node
    then some (0, none)
    else if is_leaf to
    then (load_leaf pt to >>= λ (pk', _, _). some (if pk == pk' then (to, some at) else (0, none)))
    else rest

pub get_leaf_and_parent : Ptree → ℕ → Option (ℕ × Option ℕ)
get_leaf_and_parent pt pk = descend 32 pt pk 0 root_node

pub get_leaf : Ptree → ℕ → Option ℕ
get_leaf pt pk = get_leaf_and_parent pt pk >>= λ (n, _). some n

-- What a round of the loop of `get_or_create_leaf` does next: `return`, `goto again`, or the next
-- level from a node.
pub data Turn : Type 0 where
  found : ℕ → Ptree → Turn
  again : Ptree → Turn
  below : ℕ → Ptree → Turn

-- At a null branch from the third level on: a leaf.
pub hang_leaf : Ptree → ℕ → ℕ → ℕ → Option Turn
hang_leaf pt pk i at = do
  (to, pt1) ← new_leaf pt
  (_, block, length) ← load_leaf pt1 to
  pt2 ← store_cell pt1 to (leaf pk block length)
  pt3 ← set_branch pt2 at (pk_branch pk i) to
  some (found to pt3)

-- At a null branch above: a node.
pub hang_node : Ptree → ℕ → ℕ → ℕ → Option Turn
hang_node pt pk i at = do
  (to, pt1) ← new_node pt
  pt2 ← set_branch pt1 at (pk_branch pk i) to
  some (below to pt2)

-- At a leaf of another key: a node is put in front of it.
pub split_leaf : Ptree → ℕ → ℕ → ℕ → ℕ → ℕ → Option Turn
split_leaf pt pk i at to pk' = do
  b ← split_branch pk' i
  (split, pt1) ← new_node pt
  pt2 ← set_branch pt1 at (pk_branch pk i) split
  pt3 ← set_branch pt2 split b to
  some (again pt3)

pub round : Ptree → ℕ → ℕ → ℕ → ℕ → Option Turn
round pt pk i at o = load_node pt o >>= λ br.
    let to = br (pk_branch pk i) in
    if to == null_node
    then (if ltb 1 i then hang_leaf pt pk i at else hang_node pt pk i at)
    else if is_leaf to
    then (load_leaf pt to >>= λ (pk', _, _).
        if pk == pk' then some (found to pt) else split_leaf pt pk i at to pk')
    else some (below to pt)

-- Behind the last level, and at a reference that is no node, the loop ends with no leaf.
abbrev enter : Ptree → ℕ → ℕ → ℕ → Option Turn
enter pt pk i at =
    if i == 32
    then some (found 0 pt)
    else elim (node_ref pt at) [ none ↦ some (found 0 pt) | some o ↦ round pt pk i at o ]

-- The loop from a level on; the fuel bounds the rounds.
pub create_from : ℕ → Ptree → ℕ → ℕ → ℕ → Option (ℕ × Ptree)
create_from zero pt pk i at = none
create_from (suc f) pt pk i at = enter pt pk i at >>= λ turn. elim turn [
  | found n q ↦ some (n, q)
  | again q ↦ create_from f q pk i at
  | below to q ↦ create_from f q pk (suc i) to
]

-- Each level takes one round, or two with a split.
pub get_or_create_leaf : Ptree → ℕ → Option (ℕ × Ptree)
get_or_create_leaf pt pk = create_from 64 pt pk 0 root_node

-- In the default build, without FS_INSERT_DEDUP. A null pointer for the tree or the pair is `none`.
pub add_to : Ptree → Ptable → ℕ → Option (ℕ × ℕ) → Option (ℕ × Ptree × Ptable)
add_to pt table pk pair = get_or_create_leaf pt pk >>= λ (lid, pt1). elim pair [
  | none ↦ some (1, pt1, table)
  | some (p0, p1) ↦ do
    (pk', block, length) ← load_leaf pt1 lid
    (new_block, table') ← Ptable.add_pair table block p0 p1
    if new_block == 0 then some (0, pt1, table') else do
      pt2 ← store_cell pt1 lid (leaf pk' new_block ((length + 1) % 2 ^ 32))
      some (0, record pt2 { count = pt2.count +ℤ pos 1 }, table')
]
