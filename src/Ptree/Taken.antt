-- ===== src/Ptree/Taken.antt =====
-- A cell handed out, and those that come from a free list.
use store.Prelude.{
  ℕ, ◌+◌, ◌%◌, ◌≤◌, ◌<◌, ◌≡◌, ◌≢◌, refl, sym, ◌∙◌, ap, List, ◌∷◌, arith, some, update, eq→==, ne→==,
  lt→ltb,
}
use store.Rid.{null}
use store.Ptree.{
  Ptree, Cell, node, leaf, null_branches, load_node, load_leaf, store_cell, reuse_node, reuse_leaf,
}
use store.Ptree.Invariant.{
  Spot, blank, freed, taken, inner, outer, Used, FreeNodes, FreeLeaves, IsLive, IsSpare, IsPtree,
  Kept, IsLive-Kept,
}
use store.Ptree.Changed.{
  Changed, node-Fresh, leaf-Fresh, FreeNodes-Changed, FreeLeaves-Changed, Kept-Changed,
}

abbrev pub take_spot : (ℕ → Spot) → ℕ → ℕ → Spot
take_spot spot c = update spot c taken

-- A cell that has been handed out with the content `x`.
pub record Taken (pt : Ptree) (spot : ℕ → Spot) (c : ℕ) (x : Cell) (pt' : Ptree)
    (nfree lfree : List ℕ) : Type 0 where
  pub valid : IsPtree pt' (take_spot spot c) nfree lfree
  pub unused : (y : Spot) → Used y → spot c ≢ y
  pub changed : Changed c pt spot pt' (take_spot spot c)
  pub here : pt'.cells.cell c ≡ x
  pub positive : 0 < c
  pub inside : c < pt'.cells.size
  pub grown : pt'.cells.size ≤ pt.cells.size + 32768
  pub same_count : pt'.count ≡ pt.count

pub take_other : (spot : ℕ → Spot) (c j : ℕ) → j ≢ c → take_spot spot c j ≡ spot j
take_other spot c j h = rw (ne→== j c h) refl

pub take_here : (spot : ℕ → Spot) (c : ℕ) → take_spot spot c c ≡ taken
take_here spot c = rw (eq→== c c refl) refl

taken-unused : (spot : ℕ → Spot) (c : ℕ) (y : Spot) → Used y → take_spot spot c c ≢ y
taken-unused spot c blank u e = absurd u
taken-unused spot c freed u e = absurd u
taken-unused spot c taken u e = absurd u
taken-unused spot c (inner l p) u e = let k = sym (take_here spot c) ∙ e in cc
taken-unused spot c (outer pk) u e = let k = sym (take_here spot c) ∙ e in cc

pub Taken-Kept :
    {pt : Ptree} {spot : ℕ → Spot} {c : ℕ} {x : Cell} {pt' : Ptree} {nfree lfree : List ℕ}
    → Taken pt spot c x pt' nfree lfree
    → IsLive pt spot
    → Kept pt spot pt' (take_spot spot c)
Taken-Kept {spot = spot} {c} t v = Kept-Changed t.changed v t.unused (taken-unused spot c)

freed-unused : (spot : ℕ → Spot) (c : ℕ) → spot c ≡ freed → (y : Spot) → Used y → spot c ≢ y
freed-unused spot c h blank u e = absurd u
freed-unused spot c h freed u e = absurd u
freed-unused spot c h taken u e = absurd u
freed-unused spot c h (inner l p) u e = cc
freed-unused spot c h (outer pk) u e = cc

pub blank-unused : (spot : ℕ → Spot) (c : ℕ) → spot c ≡ blank → (y : Spot) → Used y → spot c ≢ y
blank-unused spot c h blank u e = absurd u
blank-unused spot c h freed u e = absurd u
blank-unused spot c h taken u e = absurd u
blank-unused spot c h (inner l p) u e = cc
blank-unused spot c h (outer pk) u e = cc

-- A free cell is not blank.
freed_differs : (spot : ℕ → Spot) (c j : ℕ) → spot c ≡ freed → spot j ≡ blank → j ≢ c
freed_differs spot c j h e k = let k' = ap spot k in cc

-- The tree after a cell has been taken.
pub take-IsLive :
    (pt pt' : Ptree) (spot : ℕ → Spot) (c : ℕ)
    → Changed c pt spot pt' (take_spot spot c)
    → ((y : Spot) → Used y → spot c ≢ y)
    → IsLive pt spot
    → IsLive pt' (take_spot spot c)
take-IsLive pt pt' spot c ch u v = IsLive-Kept (Kept-Changed ch v u (taken-unused spot c)) v

-- The tree after a free cell has been taken.
abbrev pub with_frees : Ptree → ℕ → ℕ → (ℕ → Cell) → Ptree
with_frees pt a b f = record pt {
  node_free = a;
  leaf_free = b;
  cells = record pt.cells { cell = f };
}

freed-IsSpare :
    (pt : Ptree) (spot : ℕ → Spot) (c a b : ℕ) (f : ℕ → Cell) {nfree lfree nfree' lfree' : List ℕ}
    → spot c ≡ freed
    → IsSpare pt spot nfree lfree
    → FreeNodes (with_frees pt a b f) (take_spot spot c) a nfree'
    → FreeLeaves (with_frees pt a b f) (take_spot spot c) b lfree'
    → IsSpare (with_frees pt a b f) (take_spot spot c) nfree' lfree'
freed-IsSpare pt spot c a b f h v n l = record {
  small = v.small;
  positive = v.positive;
  node_fits = v.node_fits;
  leaf_fits = v.leaf_fits;
  ranges = v.ranges;
  blank_nodes = λ j k m. still j (v.blank_nodes j k m);
  blank_leaves = λ j k m. still j (v.blank_leaves j k m);
  blank_rest = λ j k. still j (v.blank_rest j k);
  free_nodes = n;
  free_leaves = l;
}
  where
    still : (j : ℕ) → spot j ≡ blank → take_spot spot c j ≡ blank
    still j e = take_other spot c j (freed_differs spot c j h e) ∙ e

pub reuse_node-Taken :
    (pt : Ptree) (spot : ℕ → Spot) (o : ℕ) (os lfree : List ℕ)
    → IsPtree pt spot (o ∷ os) lfree
    → (pt' : Ptree) × (reuse_node pt ≡ some (o + 0x80000000, pt'))
      × Taken pt spot o (node null_branches) pt' os lfree
      × (o < pt'.node_base)
unfolding reuse_node load_node store_cell
reuse_node-Taken pt spot o os lfree v =
    let f = v.spare.free_nodes in
    let (br, h, rest) = f.6 in
    let pt' : Ptree = record pt {
      node_free = br 0;
      cells = record pt.cells { cell = update pt.cells.cell o (node null_branches) };
    } in
    let ch : Changed o pt spot pt' (take_spot spot o) = record {
      spots = λ j n. take_other spot o j n;
      same = λ j n l. rw (ne→== j o n) refl;
      based = omega arith;
      sized = omega arith;
    } in
    let u = freed-unused spot o f.1 in
    let small : o < 0x80000000 = omega (arith, f.3, v.spare.small) in
    let off : (o + 0x80000000) % 0x80000000 ≡ o = omega arith in
    (
      pt',
      simp (f.0, off, lt→ltb o pt.cells.size f.3, h),
      record {
        valid = record {
          live = take-IsLive pt pt' spot o ch u v.live;
          spare =
              freed-IsSpare pt spot o (br 0) pt.leaf_free pt'.cells.cell f.1 v.spare
                (FreeNodes-Changed ch (br 0) os f.5 rest)
                (FreeLeaves-Changed ch pt.leaf_free lfree
                  (node-Fresh pt spot o pt.leaf_free br lfree v.spare.free_leaves h)
                  v.spare.free_leaves);
        };
        unused = u;
        changed = ch;
        here = rw (eq→== o o refl) refl;
        positive = f.4;
        inside = f.3;
        grown = omega arith;
        same_count = refl;
      },
      f.2,
    )

pub reuse_leaf-Taken :
    (pt : Ptree) (spot : ℕ → Spot) (n : ℕ) (nfree ns : List ℕ)
    → IsPtree pt spot nfree (n ∷ ns)
    → (pt' : Ptree) × (reuse_leaf pt ≡ some (n, pt')) × Taken pt spot n (leaf null 0 0) pt' nfree ns
unfolding reuse_leaf load_leaf store_cell
reuse_leaf-Taken pt spot n nfree ns v =
    let f = v.spare.free_leaves in
    let (pk, block, length, h, rest) = f.5 in
    let pt' : Ptree = record pt {
      leaf_free = block;
      cells = record pt.cells { cell = update pt.cells.cell n (leaf null 0 0) };
    } in
    let ch : Changed n pt spot pt' (take_spot spot n) = record {
      spots = λ j d. take_other spot n j d;
      same = λ j d l. rw (ne→== j n d) refl;
      based = omega arith;
      sized = omega arith;
    } in
    let u = freed-unused spot n f.1 in
    (
      pt',
      simp (f.0, lt→ltb n pt.cells.size f.2, h),
      record {
        valid = record {
          live = take-IsLive pt pt' spot n ch u v.live;
          spare =
              freed-IsSpare pt spot n pt.node_free block pt'.cells.cell f.1 v.spare
                (FreeNodes-Changed ch pt.node_free nfree
                  (leaf-Fresh pt spot n pt.node_free pk block length nfree v.spare.free_nodes h)
                  v.spare.free_nodes)
                (FreeLeaves-Changed ch block ns f.4 rest);
        };
        unused = u;
        changed = ch;
        here = rw (eq→== n n refl) refl;
        positive = f.3;
        inside = f.2;
        grown = omega arith;
        same_count = refl;
      },
    )
