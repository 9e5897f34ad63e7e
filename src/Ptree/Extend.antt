-- ===== src/Ptree/Extend.antt =====
-- Cells behind the ones in use, where the file grows by 32,768 cells when a range is full.
use store.Prelude.{
  ℕ, ◌+◌, ◌%◌, ◌<◌, ◌≡◌, ◌≢◌, refl, ◌∙◌, List, arith, inl, inr, some, update, eq→==, ne→==, lt→ltb,
}
use store.Rid.{null}
use store.Ptree.{Ptree, node, leaf, null_branches, store_cell, next_node, next_leaf}
use store.Ptree.Invariant.{Spot, freed, IsPtree}
use store.Ptree.Changed.{
  Changed, FreeNodes-Fresh, FreeLeaves-Fresh, FreeNodes-Changed, FreeLeaves-Changed,
}
use store.Ptree.Taken.{take_spot, Taken, take_other, blank-unused, take-IsLive}

pub next_node-Taken :
    (pt : Ptree) (spot : ℕ → Spot) (nfree lfree : List ℕ)
    → IsPtree pt spot nfree lfree
    → pt.node_base < pt.node_size
    → (pt' : Ptree) × (next_node pt ≡ some (pt.node_base + 0x80000000, pt'))
      × Taken pt spot pt.node_base (node null_branches) pt' nfree lfree
      × (pt.cells.size ≡ pt'.cells.size)
      × (pt.node_base < pt'.node_base)
unfolding next_node store_cell
next_node-Taken pt spot nfree lfree v room =
    let c = pt.node_base in
    let s = v.spare in
    let pt' : Ptree = record pt {
      node_base = c + 1;
      node_count = pt.node_count + 1;
      cells = record pt.cells { cell = update pt.cells.cell c (node null_branches) };
    } in
    let h = s.blank_nodes c (omega arith) room in
    let n : spot c ≢ freed = λ (e : spot c ≡ freed). cc in
    let ch : Changed c pt spot pt' (take_spot spot c) = record {
      spots = λ j d. take_other spot c j d;
      same = λ j d l. rw (ne→== j c d) refl;
      based = omega arith;
      sized = omega arith;
    } in
    let u = blank-unused spot c h in
    let inside : c < pt.cells.size = omega (arith, s.node_fits) in
    let id : c % 0x80000000 ≡ c = omega (arith, s.small) in
    (
      pt',
      simp (id, lt→ltb c pt.cells.size inside),
      record {
        valid = record {
          live = take-IsLive pt pt' spot c ch u v.live;
          spare = record {
            small = s.small;
            positive = (omega arith, s.positive.1);
            node_fits = (omega arith, s.node_fits.1);
            leaf_fits = s.leaf_fits;
            ranges = elim (s.ranges) [ inl e ↦ inl e | inr e ↦ inr (omega arith) ];
            blank_nodes =
                λ j a b. take_other spot c j (omega arith) ∙ s.blank_nodes j (omega arith) b;
            blank_leaves = λ j a b.
                let d : j ≢ c =
                  λ e. elim (s.ranges) [ inl k ↦ omega (arith, room) | inr k ↦ omega arith ] in
                take_other spot c j d ∙ s.blank_leaves j a b;
            blank_rest = λ j a. take_other spot c j (omega arith) ∙ s.blank_rest j a;
            free_nodes =
                FreeNodes-Changed ch pt.node_free nfree
                  (FreeNodes-Fresh pt spot c pt.node_free nfree s.free_nodes n) s.free_nodes;
            free_leaves =
                FreeLeaves-Changed ch pt.leaf_free lfree
                  (FreeLeaves-Fresh pt spot c pt.leaf_free lfree s.free_leaves n) s.free_leaves;
          };
        };
        unused = u;
        changed = ch;
        here = rw (eq→== c c refl) refl;
        positive = s.positive.0;
        inside = inside;
        grown = omega arith;
        same_count = refl;
      },
      refl,
      omega arith,
    )

pub next_leaf-Taken :
    (pt : Ptree) (spot : ℕ → Spot) (nfree lfree : List ℕ)
    → IsPtree pt spot nfree lfree
    → pt.leaf_base < pt.leaf_size
    → (pt' : Ptree) × (next_leaf pt ≡ some (pt.leaf_base, pt'))
      × Taken pt spot pt.leaf_base (leaf null 0 0) pt' nfree lfree
      × (pt.cells.size ≡ pt'.cells.size)
unfolding next_leaf store_cell
next_leaf-Taken pt spot nfree lfree v room =
    let c = pt.leaf_base in
    let s = v.spare in
    let pt' : Ptree = record pt {
      leaf_base = c + 1;
      leaf_count = pt.leaf_count + 1;
      cells = record pt.cells { cell = update pt.cells.cell c (leaf null 0 0) };
    } in
    let h = s.blank_leaves c (omega arith) room in
    let n : spot c ≢ freed = λ (e : spot c ≡ freed). cc in
    let ch : Changed c pt spot pt' (take_spot spot c) = record {
      spots = λ j d. take_other spot c j d;
      same = λ j d l. rw (ne→== j c d) refl;
      based = omega arith;
      sized = omega arith;
    } in
    let u = blank-unused spot c h in
    let inside : c < pt.cells.size = omega (arith, s.leaf_fits) in
    (
      pt',
      simp (lt→ltb c pt.cells.size inside),
      record {
        valid = record {
          live = take-IsLive pt pt' spot c ch u v.live;
          spare = record {
            small = s.small;
            positive = (s.positive.0, omega arith);
            node_fits = s.node_fits;
            leaf_fits = (omega arith, s.leaf_fits.1);
            ranges = elim (s.ranges) [ inl e ↦ inl (omega arith) | inr e ↦ inr e ];
            blank_leaves =
                λ j a b. take_other spot c j (omega arith) ∙ s.blank_leaves j (omega arith) b;
            blank_nodes = λ j a b.
                let d : j ≢ c =
                  λ e. elim (s.ranges) [ inl k ↦ omega arith | inr k ↦ omega (arith, room) ] in
                take_other spot c j d ∙ s.blank_nodes j a b;
            blank_rest = λ j a. take_other spot c j (omega arith) ∙ s.blank_rest j a;
            free_nodes =
                FreeNodes-Changed ch pt.node_free nfree
                  (FreeNodes-Fresh pt spot c pt.node_free nfree s.free_nodes n) s.free_nodes;
            free_leaves =
                FreeLeaves-Changed ch pt.leaf_free lfree
                  (FreeLeaves-Fresh pt spot c pt.leaf_free lfree s.free_leaves n) s.free_leaves;
          };
        };
        unused = u;
        changed = ch;
        here = rw (eq→== c c refl) refl;
        positive = s.positive.1;
        inside = inside;
        grown = omega arith;
        same_count = refl;
      },
      refl,
    )
