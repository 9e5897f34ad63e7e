-- ===== src/Ptree/Search.antt =====
-- The iterators of src/backend/ptree.c: over the pairs of a key, `fs_ptree_search` and
-- `fs_ptree_it_next`, and over a whole tree, `fs_ptree_traverse` and `fs_ptree_traverse_next`.
pub mod Next
pub mod Filled
pub mod Tests
use store.Prelude.{
  ℕ, zero, suc, ◌+◌, ◌-◌, Bool, true, false, ◌&&◌, ◌||◌, Option, none, some, List, [], ◌∷◌, ◌==◌,
  if◌then◌else◌, ◌>>=◌,
}
use store.Rid.{null}
use store.Ptable
use store.Ptable.{Ptable}
use store.Ptree.{Ptree, null_node, root_node, is_leaf, get_leaf, load_leaf, branches}

-- `struct _fs_ptree_it`, with the stack of `struct _tree_pos` as a list of nodes with branches.
pub record Iter : Type 0 where
  pub pk : ℕ
  pub block : ℕ
  pub step : ℕ
  pub length : ℕ
  pub first : ℕ
  pub second : ℕ
  pub stack : List (ℕ × ℕ)

-- No iterator is a null pointer, where the key has no leaf.
pub search : Ptree → ℕ → ℕ → ℕ → Option (Option Iter)
search pt pk p0 p1 = get_leaf pt pk >>= λ lid. if lid == 0 then some none else do
  (_, block, length) ← load_leaf pt lid
  let it : Iter = record {
    pk = 0;
    block = block;
    step = 0;
    length = length;
    first = p0;
    second = p1;
    stack = [];
  }
  some (some it)

pub it_get_length : Option Iter → ℕ
it_get_length none = 0
it_get_length (some it) = it.length

-- Whether a row is one that is searched for.
abbrev pub matches : ℕ → ℕ → ℕ × ℕ → Bool
matches p0 p1 row = (p0 == null || p0 == row.0) && (p1 == null || p1 == row.1)

-- The loop of `it_next`; the fuel bounds the rows visited. A row that `get_row` does not write is a
-- fault.
pub next_match : ℕ → Ptable → Iter → Option (Option (ℕ × ℕ) × Iter)
next_match zero table it = none
next_match (suc f) table it =
    let rest : ℕ → Option (Option (ℕ × ℕ) × Iter) =
      λ next. next_match f table (record it { block = next }) in
    if it.block == 0
    then some (none, it)
    else Ptable.get_row table it.block >>= λ (_, row). row >>= λ r.
        Ptable.get_next table it.block >>= λ next.
        if matches it.first it.second r
        then some (some r, record it { block = next })
        else rest next

-- The pair is `none` where the call returns 0.
pub it_next : ℕ → Ptable → Iter → Option (Option (ℕ × ℕ) × Iter)
it_next fuel table it = next_match fuel table (record it { step = it.step + 1 })

pub traverse : ℕ → Iter
traverse mrid = record {
  pk = 0;
  block = 0;
  step = 0;
  length = 0;
  first = mrid;
  second = 0;
  stack = (root_node, 0) ∷ [];
}

-- The rows of a leaf: the model, the key and the object of the next one, quad[0], quad[1] and
-- quad[3]. The predicate is not written.
pub leaf_rows : ℕ → Ptable → Iter → Option (Option (ℕ × ℕ × ℕ) × Iter)
leaf_rows zero table it = none
leaf_rows (suc f) table it =
    let rest : ℕ → Option (Option (ℕ × ℕ × ℕ) × Iter) =
      λ next. leaf_rows f table (record it { block = next }) in
    if it.block == 0
    then some (none, it)
    else Ptable.get_row table it.block >>= λ (_, row). row >>= λ r.
        Ptable.get_next table it.block >>= λ next.
        if it.first == null || it.first == r.0
        then some (some (r.0, it.pk, r.1), record it { block = next })
        else rest next

-- The branches of the node on top of the stack, `k` of them left: a node goes on the stack below it,
-- and a leaf ends the loop.
pub scan_branches : ℕ → Ptree → (ℕ → ℕ) → ℕ → ℕ → List (ℕ × ℕ) → Iter → Option Iter
scan_branches zero pt br at b rest it = some (record it { stack = rest })
scan_branches (suc k) pt br at b rest it =
    let skip = scan_branches k pt br at (b + 1) rest it in
    let push = scan_branches k pt br at (b + 1) ((br b, 0) ∷ rest) it in
    if br b == null_node
    then skip
    else if is_leaf (br b)
    then (load_leaf pt (br b) >>= λ (pk, block, _).
        some (record it { pk = pk; block = block; stack = (at, b + 1) ∷ rest }))
    else push

-- The fuel bounds the turns, and the rows of a leaf.
pub traverse_next : ℕ → Ptree → Ptable → Iter → Option (Option (ℕ × ℕ × ℕ) × Iter)
traverse_next zero pt table it = none
traverse_next (suc f) pt table it = leaf_rows (suc f) table it >>= λ (row, it1). elim row [
  | some q ↦ some (some q, it1)
  | none ↦ elim (it1.stack) [
    | [] ↦ some (none, it1)
    | (at, b) ∷ rest ↦ branches pt at >>= λ br.
        scan_branches (4 - b) pt br at b rest (record it1 { block = 0 }) >>= λ it2.
        traverse_next f pt table it2
  ]
]
