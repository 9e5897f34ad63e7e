-- ===== src/Ptree/Remove/Pruned.antt =====
-- The calls that take a leaf or a node without branches out of the tree and free it.
use store.Prelude.{
  ℕ, suc, ◌+◌, ◌%◌, ◌<◌, ◌≡◌, ◌≢◌, refl, sym, ap, ◌∙◌, List, [], ◌∷◌, arith, some, ◌>>=◌, ◌==◌,
  false, update, eq→==, ne→==, lt→ltb,
}
use store.Ptree.{
  Ptree, Cell, node, leaf, null_node, root_node, is_node, is_leaf, as_node, free_leaf, free_node,
  set_branch, store_cell,
}
use store.Ptree.Invariant.{
  Spot, blank, freed, inner, outer, IsLive-Kept, Kept, IsPtree, FreeNodes, FreeLeaves,
}
use store.Ptree.Changed.{FreeNodes-Fresh, FreeLeaves-Fresh}
use store.Ptree.Taken.{with_frees}
use store.Ptree.Graft.{with_cell, inner_level, some_branch}
use store.Ptree.Find.{load_node_lem, load_leaf_lem}
use store.Ptree.Hang.{set_branch_lem}
use store.Ptree.Remove.Prune.{Prune, IsLive-Prune, not_blank, not_freed}

-- The free lists of a tree whose free cells are unchanged.
module _ (pt pt' : Ptree) (spot spot' : ℕ → Spot)
    (same : (j : ℕ) → spot j ≡ freed → (spot' j ≡ freed) × (pt'.cells.cell j ≡ pt.cells.cell j))
    (based : pt'.node_base ≡ pt.node_base) (sized : pt'.cells.size ≡ pt.cells.size) where
  FreeNodes-same : (at : ℕ) (os : List ℕ) → FreeNodes pt spot at os → FreeNodes pt' spot' at os
  FreeNodes-same at [] f = f
  FreeNodes-same at (o ∷ os) f =
      let (s, e) = same o f.1 in
      (
        f.0,
        s,
        omega (arith, f.2, based),
        omega (arith, f.3, sized),
        f.4,
        f.5,
        (f.6.0, e ∙ f.6.1, FreeNodes-same (f.6.0 0) os f.6.2),
      )

  FreeLeaves-same : (at : ℕ) (ns : List ℕ) → FreeLeaves pt spot at ns → FreeLeaves pt' spot' at ns
  FreeLeaves-same at [] f = f
  FreeLeaves-same at (n ∷ ns) f =
      let (s, e) = same n f.1 in
      (
        f.0,
        s,
        omega (arith, f.2, sized),
        f.3,
        f.4,
        (f.5.0, f.5.1, f.5.2, e ∙ f.5.3, FreeLeaves-same f.5.1 ns f.5.4),
      )

-- The tree that is left, where the branch of `a` is null and the cell `c` is free.
pub record Pruned (pt : Ptree) (spot : ℕ → Spot) (c a b : ℕ) (br : ℕ → ℕ) (pt' : Ptree)
    (nfree lfree : List ℕ) : Type 0 where
  pub valid : IsPtree pt' (update spot c freed) nfree lfree
  pub now : pt'.cells.cell a ≡ node (update br b null_node)
  pub others : (j : ℕ) → j ≢ a → j ≢ c → pt'.cells.cell j ≡ pt.cells.cell j
  pub sized : pt'.cells.size ≡ pt.cells.size
  pub same_count : pt'.count ≡ pt.count

module _ {pt : Ptree} {spot : ℕ → Spot} {nfree lfree : List ℕ} (v : IsPtree pt spot nfree lfree)
    {c a i p b r : ℕ} {f : ℕ → Cell} (g : Prune pt spot c a i p b r f) where
  free_kept : (j : ℕ) → spot j ≡ freed → (update spot c freed j ≡ freed) × (f j ≡ pt.cells.cell j)
  free_kept j s =
      let jc : j ≢ c = λ (e : j ≡ c). not_freed v g (sym (ap spot e) ∙ s) in
      let ja : j ≢ a = λ (e : j ≡ a). let k = sym s ∙ ap spot e ∙ g.at in cc in
      (rw (ne→== j c jc) s, g.others j ja jc)

  blank_stays : (j : ℕ) → spot j ≡ blank → update spot c freed j ≡ blank
  blank_stays j s =
      let jc : j ≢ c = λ (e : j ≡ c). not_blank v g (sym (ap spot e) ∙ s) in rw (ne→== j c jc) s

  -- The tree with other free lists.
  Prune-Pruned :
      (nf lf : ℕ) (nfree' lfree' : List ℕ)
      → FreeNodes (with_frees pt nf lf f) (update spot c freed) nf nfree'
      → FreeLeaves (with_frees pt nf lf f) (update spot c freed) lf lfree'
      → Pruned pt spot c a b g.br (with_frees pt nf lf f) nfree' lfree'
  Prune-Pruned nf lf nfree' lfree' n l =
      let kept : Kept (with_cell pt f) (update spot c freed) (with_frees pt nf lf f)
          (update spot c freed) =
        record {
          same = λ j x u s. (s, refl);
          back = λ j x u s. s;
          based = omega arith;
          sized = omega arith;
        } in
      record {
        valid = record {
          live = IsLive-Kept kept (IsLive-Prune v g);
          spare = record {
            small = v.spare.small;
            positive = v.spare.positive;
            node_fits = v.spare.node_fits;
            leaf_fits = v.spare.leaf_fits;
            ranges = v.spare.ranges;
            blank_nodes = λ j k m. blank_stays j (v.spare.blank_nodes j k m);
            blank_leaves = λ j k m. blank_stays j (v.spare.blank_leaves j k m);
            blank_rest = λ j k. blank_stays j (v.spare.blank_rest j k);
            free_nodes = n;
            free_leaves = l;
          };
        };
        now = g.now;
        others = g.others;
        sized = refl;
        same_count = refl;
      }

-- A leaf.
pub drop_leaf-Pruned :
    (pt : Ptree) (spot : ℕ → Spot) (nfree lfree : List ℕ) (c a i p b pk block length : ℕ)
    (br : ℕ → ℕ)
    → IsPtree pt spot nfree lfree
    → spot a ≡ inner i p
    → pt.cells.cell a ≡ node br
    → b < 4
    → br b ≡ c
    → spot c ≡ outer pk
    → pt.cells.cell c ≡ leaf pk block length
    → (pt' : Ptree) × ((free_leaf pt c >>= λ pt1. set_branch pt1 (a + 0x80000000) b null_node)
        ≡ some pt')
      × Pruned pt spot c a b br pt' nfree (c ∷ lfree)
unfolding free_leaf store_cell
drop_leaf-Pruned pt spot nfree lfree c a i p b pk block length br v sa ca lt e sc cc_here =
    let w = v.live.inner_at a i p sa in
    let o = v.live.outer_at c pk sc in
    let small = v.spare.small in
    let f0 = update pt.cells.cell c (leaf pk pt.leaf_free length) in
    let f = update f0 a (node (update br b null_node)) in
    let ca_ne : c ≢ a = λ (k : c ≡ a). let k' = sym sc ∙ ap spot k ∙ sa in cc in
    let ac : (a == c) ≡ false = ne→== a c (λ k. ca_ne (sym k)) in
    let fc : f c ≡ leaf pk pt.leaf_free length = rw (ne→== c a ca_ne, eq→== c c refl) refl in
    let low : c % 0x80000000 ≡ c = omega (arith, o.inside) in
    let pt1 : Ptree = record pt { leaf_free = c; cells = record pt.cells { cell = f0 } } in
    let g : Prune pt spot c a i p b c f = record {
      at = sa;
      br = br;
      was = ca;
      leads = e;
      bound = lt;
      there = λ k. omega (arith, o.inside);
      cell_of = low;
      bare = λ bc h x xl. let k = sym cc_here ∙ h in absurd cc;
      now = rw (eq→== a a refl) refl;
      others = λ j ja jc. rw (ne→== j a ja, ne→== j c jc) refl;
    } in
    let fresh = FreeLeaves-Fresh pt spot c pt.leaf_free lfree v.spare.free_leaves (not_freed v g) in
    let nodes =
      FreeNodes-same pt (with_frees pt pt.node_free c f) spot (update spot c freed) (free_kept v g)
        refl refl pt.node_free nfree v.spare.free_nodes in
    let leaves =
      FreeLeaves-same pt (with_frees pt pt.node_free c f) spot (update spot c freed) (free_kept v g)
        refl refl pt.leaf_free lfree v.spare.free_leaves in
    let leaf_not : is_node c ≡ false = ground (arith, o.inside) in
    (
      with_frees pt pt.node_free c f,
      simp (
        leaf_not,
        load_leaf_lem pt c pk block length o.inside cc_here,
        lt→ltb c pt.cells.size o.inside,
        set_branch_lem pt1 a b null_node br w.positive w.based w.inside small (rw ac ca),
      ),
      Prune-Pruned v g pt.node_free c nfree (c ∷ lfree) nodes (
        refl,
        rw (eq→== c c refl) refl,
        o.inside,
        o.positive,
        fresh,
        (pk, pt.leaf_free, length, fc, leaves),
      ),
    )

-- A node whose branches are all null.
pub drop_node-Pruned :
    (pt : Ptree) (spot : ℕ → Spot) (nfree lfree : List ℕ) (c a i p b q : ℕ) (br bc : ℕ → ℕ)
    → IsPtree pt spot nfree lfree
    → spot a ≡ inner i p
    → pt.cells.cell a ≡ node br
    → b < 4
    → br b ≡ c + 0x80000000
    → spot c ≡ inner (suc i) q
    → pt.cells.cell c ≡ node bc
    → ((x : ℕ) → x < 4 → bc x ≡ null_node)
    → (pt' : Ptree) × ((free_node pt (c + 0x80000000) >>= λ pt1.
          set_branch pt1 (a + 0x80000000) b null_node)
        ≡ some pt')
      × Pruned pt spot c a b br pt' (c ∷ nfree) lfree
unfolding free_node store_cell
drop_node-Pruned pt spot nfree lfree c a i p b q br bc v sa ca lt e sc cc_here nulls =
    let w = v.live.inner_at a i p sa in
    let o = v.live.inner_at c (suc i) q sc in
    let small = v.spare.small in
    let bc' = update bc 0 pt.node_free in
    let f0 = update pt.cells.cell c (node bc') in
    let f = update f0 a (node (update br b null_node)) in
    let ca_ne : c ≢ a = λ (k : c ≡ a).
      let k' = inner_level (suc i) q i p (sym sc ∙ ap spot k ∙ sa) in omega (arith, k') in
    let ac : (a == c) ≡ false = ne→== a c (λ k. ca_ne (sym k)) in
    let fc : f c ≡ node bc' = rw (ne→== c a ca_ne, eq→== c c refl) refl in
    let low : (c + 0x80000000) % 0x80000000 ≡ c = omega (arith, o.inside) in
    let c1 : c ≢ 1 = λ (k : c ≡ 1).
      let k' = inner_level (suc i) q 0 0 (sym sc ∙ ap spot k ∙ v.live.root) in omega (arith, k') in
    let pt1 : Ptree = record pt {
      node_free = c + 0x80000000;
      cells = record pt.cells { cell = f0 };
    } in
    let g : Prune pt spot c a i p b (c + 0x80000000) f = record {
      at = sa;
      br = br;
      was = ca;
      leads = e;
      bound = lt;
      there = λ k. omega (arith, o.positive);
      cell_of = low;
      bare = λ bc0 h x xl. sym (some_branch x (ap as_node (sym cc_here ∙ h))) ∙ nulls x xl;
      now = rw (eq→== a a refl) refl;
      others = λ j ja jc. rw (ne→== j a ja, ne→== j c jc) refl;
    } in
    let fresh = FreeNodes-Fresh pt spot c pt.node_free nfree v.spare.free_nodes (not_freed v g) in
    let nodes =
      FreeNodes-same pt (with_frees pt (c + 0x80000000) pt.leaf_free f) spot (update spot c freed)
        (free_kept v g) refl refl pt.node_free nfree v.spare.free_nodes in
    let leaves =
      FreeLeaves-same pt (with_frees pt (c + 0x80000000) pt.leaf_free f) spot (update spot c freed)
        (free_kept v g) refl refl pt.leaf_free lfree v.spare.free_leaves in
    let node_yes : is_leaf (c + 0x80000000) ≡ false = ground arith in
    (
      with_frees pt (c + 0x80000000) pt.leaf_free f,
      simp (
        node_yes,
        ne→== (c + 0x80000000) root_node (λ k. c1 (omega arith)),
        low,
        load_node_lem pt c bc o.inside cc_here,
        lt→ltb c pt.cells.size o.inside,
        set_branch_lem pt1 a b null_node br w.positive w.based w.inside small (rw ac ca),
      ),
      Prune-Pruned v g (c + 0x80000000) pt.leaf_free (c ∷ nfree) lfree
          (refl, rw (eq→== c c refl) refl, o.based, o.inside, o.positive, fresh, (bc', fc, nodes))
          leaves,
    )
