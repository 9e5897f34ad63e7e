-- ===== src/Ptree/Remove.antt =====
-- The removals of src/backend/ptree.c: `fs_ptree_remove`, and `fs_ptree_remove_all`, which goes
-- through the whole tree.
pub mod Prune
pub mod Pruned
pub mod Collapse
pub mod CollapseWay
pub mod Removed
pub mod Whole
pub mod Searched
pub mod Tests
use store.Prelude.{
  ℕ, zero, suc, ◌+◌, ◌-◌, ◌%◌, ◌^◌, Bool, true, false, not, ◌&&◌, Option, none, some, ◌==◌, ◌!=◌,
  if◌then◌else◌, ◌>>=◌,
}
use store.Prelude.Int.{pos, ◌-ℤ◌}
use store.RidSet.{RidSet}
use store.Ptable.{Ptable}
use store.Ptable.Remove.{remove_pair}
use store.Ptree.{
  Ptree, leaf, null_node, root_node, is_leaf, offset_of, pk_branch, load_node, load_leaf,
  store_cell, branches, set_branch, free_node, free_leaf, get_leaf,
}

-- `enum recurse_action`: NONE, CULL and MERGE.
pub data Action : Type 0 where
  stay : Action
  cull : Action
  merge : Action

-- `lref->length -= removed`, on 32 bits.
abbrev pub minus_length : ℕ → ℕ → ℕ
minus_length length removed = (length + 2 ^ 32 - removed % 2 ^ 32) % 2 ^ 32

-- The number of branches of a node that are not null.
abbrev pub branch_count : (ℕ → ℕ) → ℕ
branch_count br =
    (if br 0 == null_node then 0 else 1)
    + (if br 1 == null_node then 0 else 1)
    + (if br 2 == null_node then 0 else 1)
    + (if br 3 == null_node then 0 else 1)

-- The end of `collapse_by_pk_recurse`.
pub emptied : Ptree → ℕ → Option (Action × Ptree)
emptied pt n = branches pt n >>= λ br. some ((if branch_count br == 0 then cull else stay), pt)

-- At an empty leaf.
pub drop_leaf : Ptree → ℕ → ℕ → ℕ → Option Ptree
drop_leaf pt n b to = load_leaf pt to >>= λ (_, block, length).
    if length == 0 && block == 0
    then (free_leaf pt to >>= λ pt1. set_branch pt1 n b null_node)
    else some pt

-- What is done with a node below by the action that its call returns: nothing for MERGE.
pub drop_node : Ptree → ℕ → ℕ → ℕ → Action → Option Ptree
drop_node pt n b to cull = free_node pt to >>= λ pt1. set_branch pt1 n b null_node
drop_node pt n b to _ = some pt

-- A level that the key has no bits for is a fault: its shift is negative.
pub collapse_from : ℕ → Ptree → ℕ → ℕ → ℕ → Option (Action × Ptree)
collapse_from zero pt pk n level = none
collapse_from (suc k) pt pk n level = branches pt n >>= λ br.
    let b = pk_branch pk level in
    let to = br b in
    let deeper : Option (Action × Ptree) = collapse_from k pt pk to (suc level) >>= λ (action, pt1).
    drop_node pt1 n b to action >>= λ pt2. emptied pt2 n in
    if to == null_node
    then some (stay, pt)
    else if is_leaf to
    then (drop_leaf pt n b to >>= λ pt1. emptied pt1 n)
    else deeper

pub collapse_by_pk : Ptree → ℕ → Option Ptree
collapse_by_pk pt pk = collapse_from 32 pt pk root_node 0 >>= λ (_, pt1). some pt1

-- The end of `remove`, with what `remove_pair` gave for the leaf `lid`: the status and the tree.
pub settle : Ptree → ℕ → ℕ → ℕ → ℕ → ℕ → ℕ → Option (ℕ × Ptree)
settle pt pk lid pk' block length removed =
    if removed == 0
    then (store_cell pt lid (leaf pk' block length) >>= λ pt1. some (1, pt1))
    else store_cell pt lid (leaf pk' block (minus_length length removed)) >>= λ pt1.
        let pt2 = record pt1 { count = pt1.count -ℤ pos removed } in
        if minus_length length removed == 0
        then (collapse_by_pk pt2 pk >>= λ pt3. some (0, pt3))
        else some (0, pt2)

-- The status, the tree, the table and the models noted. The fuel bounds the rows of the leaf.
pub remove_from :
    ℕ → Ptree → Ptable → ℕ → ℕ → ℕ → Option RidSet → Option (ℕ × Ptree × Ptable × Option RidSet)
remove_from fuel pt table pk p0 p1 models = get_leaf pt pk >>= λ lid.
    if lid == 0
    then some (0, pt, table, models)
    else load_leaf pt lid >>= λ (pk', block, length).
        if block == 0 then some (1, pt, table, models) else do
          s ← remove_pair fuel table block p0 p1 0 models
          (status, pt') ← settle pt pk lid pk' s.ret length s.removed
          some (status, pt', s.table, s.models)

-- The tree, the table and `*removed` of `remove_all_recurse`.
pub record Sweep : Type 0 where
  pub tree : Ptree
  pub table : Ptable
  pub removed : ℕ

-- The leaf `to` at the branch `b` of `n`: whether it stays.
sweep_leaf : ℕ → Sweep → ℕ → ℕ → ℕ → ℕ → ℕ → Option (Bool × Sweep)
sweep_leaf fuel s p0 p1 n b to = load_leaf s.tree to >>= λ (pk, block, length).
    if block == 0 then some (true, s) else do
      r ← remove_pair fuel s.table block p0 p1 0 none
      let length' = minus_length length r.removed
      pt1 ← store_cell s.tree to (leaf pk r.ret length')
      let swept = record s { table = r.table; removed = s.removed + r.removed }
      let gone = r.removed != 0 && length' == 0
      pt3 ← if gone then (free_leaf pt1 to >>= λ pt2. set_branch pt2 n b null_node) else some pt1
      some (not gone, record swept { tree = pt3 })

-- The first branch that is not null, or the null node.
abbrev pub first_branch : (ℕ → ℕ) → ℕ
first_branch br =
    if br 0 != null_node
    then br 0
    else if br 1 != null_node
    then br 1
    else if br 2 != null_node
    then br 2
    else br 3

-- What is done with the node `to` at the branch `b` of `n`: whether a branch stays.
act_on : Ptree → ℕ → ℕ → ℕ → Action → Option (Bool × Ptree)
act_on pt n b to stay = some (true, pt)
act_on pt n b to cull =
    free_node pt to >>= λ pt1. set_branch pt1 n b null_node >>= λ pt2. some (false, pt2)
act_on pt n b to merge = load_node pt (offset_of to) >>= λ sub.
    if first_branch sub == null_node
    then some (true, pt)
    else free_node pt to >>= λ pt1.
        set_branch pt1 n b (first_branch sub) >>= λ pt2. some (true, pt2)

abbrev pub action_of : ℕ → ℕ → Action
action_of branches leaves =
    if branches == 0 then cull else if branches == 1 && leaves == 1 then merge else stay

-- One branch: 1 for a branch that stays, and 1 for a leaf that stays.
sweep_branch :
    (ℕ → Sweep → Option (Action × Sweep)) → ℕ → Sweep → ℕ → ℕ → ℕ → ℕ → Option (ℕ × ℕ × Sweep)
sweep_branch deeper fuel s p0 p1 n b = branches s.tree n >>= λ br.
    let to = br b in
    if to == null_node
    then some (0, 0, s)
    else if is_leaf to
    then (sweep_leaf fuel s p0 p1 n b to >>= λ (stays, s').
        some ((if stays then 1 else 0), (if stays then 1 else 0), s'))
    else deeper to s >>= λ (action, s'). act_on s'.tree n b to action >>= λ (stays, pt).
        some ((if stays then 1 else 0), 0, record s' { tree = pt })

-- `k` branches are left.
sweep_branches :
    (ℕ → Sweep → Option (Action × Sweep))
    → ℕ
    → Sweep
    → ℕ
    → ℕ
    → ℕ
    → ℕ
    → ℕ
    → ℕ
    → Option (Action × Sweep)
sweep_branches deeper fuel s p0 p1 n zero count leaves = some (action_of count leaves, s)
sweep_branches deeper fuel s p0 p1 n (suc k) count leaves =
    sweep_branch deeper fuel s p0 p1 n (3 - k) >>= λ (c, l, s').
    sweep_branches deeper fuel s' p0 p1 n k (count + c) (leaves + l)

-- `remove_all_recurse`; `d` bounds the depth of the tree.
pub sweep_from : ℕ → ℕ → ℕ → ℕ → ℕ → Sweep → Option (Action × Sweep)
sweep_from zero fuel p0 p1 n s = none
sweep_from (suc d) fuel p0 p1 n s =
    sweep_branches (λ to s'. sweep_from d fuel p0 p1 to s') fuel s p0 p1 n 4 0 0

-- The status is 1 where nothing was removed.
pub remove_all : ℕ → Ptree → Ptable → ℕ → ℕ → Option (ℕ × Ptree × Ptable)
remove_all fuel pt table p0 p1 =
    sweep_from 33 fuel p0 p1 root_node (record { tree = pt; table = table; removed = 0 })
    >>= λ (_, s).
        let pt' = record (s.tree) { count = s.tree.count -ℤ pos s.removed } in
        some ((if s.removed == 0 then 1 else 0), pt', s.table)
