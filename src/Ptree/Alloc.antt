-- ===== src/Ptree/Alloc.antt =====
-- `new_node` and `new_leaf`.
use store.Prelude.{
  ℕ, ◌+◌, ◌^◌, ◌≤◌, ◌<◌, ◌≡◌, ap, ◌∙◌, List, [], ◌∷◌, arith, inl, inr, some, ◌==◌, ◌!=◌, ◌&&◌, true,
  false, Bool-cases, ==→ne,
}
use store.Rid.{null}
use store.Ptree.{
  Ptree, node, leaf, null_node, is_node, null_branches, extend_node, new_node, extend_leaf,
  new_leaf, grow_nodes, grow_leaves,
}
use store.Ptree.Invariant.{Spot, IsPtree}
use store.Ptree.Taken.{Taken, reuse_node-Taken, reuse_leaf-Taken}
use store.Ptree.Extend.{next_node-Taken, next_leaf-Taken}
use store.Ptree.Growth.{grow_nodes-Grown, grow_leaves-Grown, Taken-Grown}

-- A node that `new_node` has handed out.
pub record FreshNode (pt : Ptree) (spot : ℕ → Spot) (o : ℕ) (pt' : Ptree) (nfree lfree : List ℕ)
    : Type 0 where
  pub run : new_node pt ≡ some (o + 0x80000000, pt')
  pub taken_cell : Taken pt spot o (node null_branches) pt' nfree lfree
  pub based : o < pt'.node_base

pub record FreshLeaf (pt : Ptree) (spot : ℕ → Spot) (n : ℕ) (pt' : Ptree) (nfree lfree : List ℕ)
    : Type 0 where
  pub run : new_leaf pt ≡ some (n, pt')
  pub taken_cell : Taken pt spot n (leaf null 0 0) pt' nfree lfree

-- In a valid tree with room to grow, new_node ends without a fault with a cell that was not in use
-- and that no free list holds any more; its four branches are null and the other cells in use are
-- unchanged.
pub new_node-NewNode :
    (pt : Ptree) (spot : ℕ → Spot) (nfree lfree : List ℕ)
    → IsPtree pt spot nfree lfree
    → pt.cells.size + 32768 ≤ 2 ^ 31
    → (o : ℕ) × (pt' : Ptree) × (nfree' : List ℕ) × FreshNode pt spot o pt' nfree' lfree
unfolding new_node extend_node
new_node-NewNode pt spot (o ∷ os) lfree v room =
    let f = v.spare.free_nodes in
    let (pt', r, t, b) = reuse_node-Taken pt spot o os lfree v in
    let g : (pt.node_free != null_node && is_node pt.node_free) ≡ true =
      ap (λ x. x != null_node && is_node x) f.0 ∙ ground (arith, f.4) in
    (o, pt', os, record { run = rw g r; taken_cell = t; based = b })
new_node-NewNode pt spot [] lfree v room =
    let g : (pt.node_free != null_node && is_node pt.node_free) ≡ false =
      ap (λ x. x != null_node && is_node x) v.spare.free_nodes in
    elim (Bool-cases (pt.node_base == pt.node_size)) [
      | inl e ↦
          let (w, l) = grow_nodes-Grown pt spot [] lfree v room in
          let (pt', r, t, z, b) = next_node-Taken (grow_nodes pt) spot [] lfree w.valid l in
          (
            (grow_nodes pt).node_base,
            pt',
            [],
            record { run = rw (g, e) r; taken_cell = Taken-Grown w z t; based = b },
          )
      | inr e ↦
          let (pt', r, t, z, b) =
            next_node-Taken pt spot [] lfree v
              (omega (arith, v.spare.node_fits.0, ==→ne pt.node_base pt.node_size e)) in
          (pt.node_base, pt', [], record { run = rw (g, e) r; taken_cell = t; based = b })
    ]

pub new_leaf-NewLeaf :
    (pt : Ptree) (spot : ℕ → Spot) (nfree lfree : List ℕ)
    → IsPtree pt spot nfree lfree
    → pt.cells.size + 32768 ≤ 2 ^ 31
    → (n : ℕ) × (pt' : Ptree) × (lfree' : List ℕ) × FreshLeaf pt spot n pt' nfree lfree'
unfolding new_leaf extend_leaf
new_leaf-NewLeaf pt spot nfree (n ∷ ns) v room =
    let f = v.spare.free_leaves in
    let (pt', r, t) = reuse_leaf-Taken pt spot n nfree ns v in
    let g : (pt.leaf_free != 0) ≡ true = ap (λ x. x != 0) f.0 ∙ ground (arith, f.3) in
    (n, pt', ns, record { run = rw g r; taken_cell = t })
new_leaf-NewLeaf pt spot nfree [] v room =
    let g : (pt.leaf_free != 0) ≡ false = ap (λ x. x != 0) v.spare.free_leaves in
    elim (Bool-cases (pt.leaf_base == pt.leaf_size)) [
      | inl e ↦
          let (w, l) = grow_leaves-Grown pt spot nfree [] v room in
          let (pt', r, t, z) = next_leaf-Taken (grow_leaves pt) spot nfree [] w.valid l in
          (
            (grow_leaves pt).leaf_base,
            pt',
            [],
            record { run = rw (g, e) r; taken_cell = Taken-Grown w z t },
          )
      | inr e ↦
          let (pt', r, t, z) =
            next_leaf-Taken pt spot nfree [] v
              (omega (arith, v.spare.leaf_fits.0, ==→ne pt.leaf_base pt.leaf_size e)) in
          (pt.leaf_base, pt', [], record { run = rw (g, e) r; taken_cell = t })
    ]
