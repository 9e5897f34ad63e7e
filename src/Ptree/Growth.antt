-- ===== src/Ptree/Growth.antt =====
-- A file that grows by 32,768 cells.
use store.Prelude.{ℕ, ◌+◌, ◌^◌, ◌≤◌, ◌<◌, ◌≡◌, ◌≢◌, refl, ◌∙◌, List, arith, inl, inr, lt→ltb}
use store.Ptree.{Ptree, Cell, grow_cells, grow_nodes, grow_leaves}
use store.Ptree.Invariant.{Spot, freed, IsPtree, IsLive-Kept}
use store.Ptree.Changed.{
  Changed, FreeNodes-Fresh, FreeLeaves-Fresh, FreeNodes-Changed, FreeLeaves-Changed, Kept-Changed,
}
use store.Ptree.Taken.{Taken, blank-unused}

-- A tree in a file that has grown.
pub record Grown (pt : Ptree) (spot : ℕ → Spot) (pt' : Ptree) (nfree lfree : List ℕ) : Type 0 where
  pub valid : IsPtree pt' spot nfree lfree
  pub cells : (j : ℕ) → j < pt.cells.size → pt'.cells.cell j ≡ pt.cells.cell j
  pub based : pt.node_base ≤ pt'.node_base
  pub sized : pt.cells.size ≤ pt'.cells.size
  pub grown : pt'.cells.size ≤ pt.cells.size + 32768
  pub same_count : pt'.count ≡ pt.count

Grown-Changed :
    {pt : Ptree} {spot : ℕ → Spot} {pt' : Ptree} {nfree lfree : List ℕ} (c : ℕ)
    → Grown pt spot pt' nfree lfree
    → Changed c pt spot pt' spot
Grown-Changed c g = record {
  spots = λ j d. refl;
  same = λ j d l. g.cells j l;
  based = g.based;
  sized = g.sized;
}

-- Taking a cell after growing.
pub Taken-Grown :
    {pt q pt' : Ptree} {spot : ℕ → Spot} {nfree lfree nfree' lfree' : List ℕ} {c : ℕ} {x : Cell}
    → Grown pt spot q nfree lfree
    → q.cells.size ≡ pt'.cells.size
    → Taken q spot c x pt' nfree' lfree'
    → Taken pt spot c x pt' nfree' lfree'
Taken-Grown g e t = record {
  valid = t.valid;
  unused = t.unused;
  changed = record {
    spots = t.changed.spots;
    same = λ j d l. t.changed.same j d (omega (arith, g.sized)) ∙ g.cells j l;
    based = omega (arith, t.changed.based, g.based);
    sized = omega (arith, t.changed.sized, g.sized);
  };
  here = t.here;
  positive = t.positive;
  inside = t.inside;
  grown = omega (arith, g.grown);
  same_count = t.same_count ∙ g.same_count;
}

pub grow_nodes-Grown :
    (pt : Ptree) (spot : ℕ → Spot) (nfree lfree : List ℕ)
    → IsPtree pt spot nfree lfree
    → pt.cells.size + 32768 ≤ 2 ^ 31
    → Grown pt spot (grow_nodes pt) nfree lfree
      × ((grow_nodes pt).node_base < (grow_nodes pt).node_size)
unfolding grow_nodes grow_cells
grow_nodes-Grown pt spot nfree lfree v room =
    let s = v.spare in
    let q = grow_nodes pt in
    let old : (j : ℕ) → j < pt.cells.size → q.cells.cell j ≡ pt.cells.cell j =
      λ j l. rw (lt→ltb j pt.cells.size l) refl in
    let based : pt.node_base ≤ q.node_base = omega (arith, s.node_fits) in
    let ch : Changed pt.cells.size pt spot q spot = record {
      spots = λ j d. refl;
      same = λ j d l. old j l;
      based = based;
      sized = omega arith;
    } in
    let n : spot pt.cells.size ≢ freed =
      λ (e : spot pt.cells.size ≡ freed). let b = s.blank_rest pt.cells.size (omega arith) in cc in
    let u = blank-unused spot pt.cells.size (s.blank_rest pt.cells.size (omega arith)) in
    (
      record {
        valid = record {
          live = IsLive-Kept (Kept-Changed ch v.live u u) v.live;
          spare = record {
            small = room;
            positive = (omega (arith, s.positive.0, based), s.positive.1);
            node_fits = (omega arith, omega arith);
            leaf_fits = (s.leaf_fits.0, omega (arith, s.leaf_fits.1));
            ranges = inr s.leaf_fits.1;
            blank_nodes = λ j a b. s.blank_rest j a;
            blank_leaves = s.blank_leaves;
            blank_rest = λ j a. s.blank_rest j (omega arith);
            free_nodes =
                FreeNodes-Changed ch pt.node_free nfree
                  (FreeNodes-Fresh pt spot pt.cells.size pt.node_free nfree s.free_nodes n)
                  s.free_nodes;
            free_leaves =
                FreeLeaves-Changed ch pt.leaf_free lfree
                  (FreeLeaves-Fresh pt spot pt.cells.size pt.leaf_free lfree s.free_leaves n)
                  s.free_leaves;
          };
        };
        cells = old;
        based = based;
        sized = omega arith;
        grown = omega arith;
        same_count = refl;
      },
      omega arith,
    )

pub grow_leaves-Grown :
    (pt : Ptree) (spot : ℕ → Spot) (nfree lfree : List ℕ)
    → IsPtree pt spot nfree lfree
    → pt.cells.size + 32768 ≤ 2 ^ 31
    → Grown pt spot (grow_leaves pt) nfree lfree
      × ((grow_leaves pt).leaf_base < (grow_leaves pt).leaf_size)
unfolding grow_leaves grow_cells
grow_leaves-Grown pt spot nfree lfree v room =
    let s = v.spare in
    let q = grow_leaves pt in
    let old : (j : ℕ) → j < pt.cells.size → q.cells.cell j ≡ pt.cells.cell j =
      λ j l. rw (lt→ltb j pt.cells.size l) refl in
    let ch : Changed pt.cells.size pt spot q spot = record {
      spots = λ j d. refl;
      same = λ j d l. old j l;
      based = omega arith;
      sized = omega arith;
    } in
    let n : spot pt.cells.size ≢ freed =
      λ (e : spot pt.cells.size ≡ freed). let b = s.blank_rest pt.cells.size (omega arith) in cc in
    let u = blank-unused spot pt.cells.size (s.blank_rest pt.cells.size (omega arith)) in
    (
      record {
        valid = record {
          live = IsLive-Kept (Kept-Changed ch v.live u u) v.live;
          spare = record {
            small = room;
            positive = (s.positive.0, omega (arith, s.positive.0, s.node_fits));
            node_fits = (s.node_fits.0, omega (arith, s.node_fits.1));
            leaf_fits = (omega arith, omega arith);
            ranges = inl s.node_fits.1;
            blank_nodes = s.blank_nodes;
            blank_leaves = λ j a b. s.blank_rest j a;
            blank_rest = λ j a. s.blank_rest j (omega arith);
            free_nodes =
                FreeNodes-Changed ch pt.node_free nfree
                  (FreeNodes-Fresh pt spot pt.cells.size pt.node_free nfree s.free_nodes n)
                  s.free_nodes;
            free_leaves =
                FreeLeaves-Changed ch pt.leaf_free lfree
                  (FreeLeaves-Fresh pt spot pt.cells.size pt.leaf_free lfree s.free_leaves n)
                  s.free_leaves;
          };
        };
        cells = old;
        based = omega arith;
        sized = omega arith;
        grown = omega arith;
        same_count = refl;
      },
      omega arith,
    )
