-- ===== src/Ptree/HangNode.antt =====
-- `get_or_create_leaf` at a null branch of the first levels: a node is hung there.
use store.Prelude.{
  ℕ, suc, ◌+◌, ◌-◌, ◌*◌, ◌/◌, ◌^◌, ◌≤◌, ◌<◌, ◌≡◌, ◌≢◌, refl, sym, ap, ◌∙◌, List, arith, inl, inr,
  some, update, eq→==, ne→==,
}
use store.Ptree.{Ptree, node, null_node, null_branches, pk_branch, as_node, below, hang_node}
use store.Ptree.Invariant.{Spot, inner, outer, IsPtree, IsPtree-IsForm}
use store.Ptree.Taken.{take_spot, take_here, Taken-Kept}
use store.Ptree.Alloc.{new_node-NewNode}
use store.Ptree.Find.{prefix_suc}
use store.Ptree.Graft.{with_cell, Graft, some_branch, inner_level}
use store.Ptree.Grafted.{IsPtree-Graft}
use store.Ptree.Reached.{Reached, Reached-Way, Reached-Kept}
use store.Ptree.Hang.{
  SameLeaves-trans, set_branch-inner, outer_back, null-IsInner, leaf_kept, Hung, Kept-SameLeaves,
  Reached-Hang, Way-hung, Owned-hung, Way-stays,
}

pub hang_node-Hung :
    (pt : Ptree) (spot : ℕ → Spot) (nfree lfree : List ℕ) (pk i a : ℕ) (br : ℕ → ℕ)
    → IsPtree pt spot nfree lfree
    → pt.cells.size + 32768 ≤ 2 ^ 31
    → Reached pt spot pk i a
    → i < 31
    → pt.cells.cell a ≡ node br
    → br (pk_branch pk i) ≡ null_node
    → (o : ℕ) × (pt' : Ptree) × (spot' : ℕ → Spot) × (nfree' : List ℕ) × (hang_node pt pk i
          (a + 0x80000000)
        ≡ some (below (o + 0x80000000) pt'))
      × Hung pt spot pt' spot' nfree' lfree
      × Reached pt' spot' pk (suc i) o
unfolding hang_node
hang_node-Hung pt spot nfree lfree pk i a br v room h level ca z =
    let (o, pt1, nfree', w) = new_node-NewNode pt spot nfree lfree v room in
    let t = w.taken_cell in
    let kept = Taken-Kept t v.live in
    let v1 = t.valid in
    let h1 = Reached-Kept kept h in
    let p = pk / 4 ^ (32 - i) in
    let b = pk_branch pk i in
    let node_a = v1.live.inner_at a i p h1.at in
    let ca1 : pt1.cells.cell a ≡ node br = (kept.same a (inner i p) tt h.at).1 ∙ ca in
    let z1 : node_a.br b ≡ null_node = some_branch b (ap as_node (sym node_a.here ∙ ca1)) ∙ z in
    let r = o + 0x80000000 in
    let f = update pt1.cells.cell a (node (update node_a.br b r)) in
    let kind = inner (suc i) (p * 4 + b) in
    let g : Graft pt1 (take_spot spot o) o a i p b r kind f = record {
      handed = take_here spot o;
      at = h1.at;
      br = node_a.br;
      was = node_a.here;
      now = rw (eq→== a a refl) refl;
      others = λ j d d'. rw (ne→== j a d) refl;
    } in
    let pt2 = with_cell pt1 f in
    let spot2 = update (take_spot spot o) o kind in
    let here : spot2 o ≡ kind = rw (eq→== o o refl) refl in
    let oa : o ≢ a =
      λ (e : o ≡ a). let k = sym (take_here spot o) ∙ ap (take_spot spot o) e ∙ h1.at in cc in
    let back : (n pk' : ℕ) → spot2 n ≡ outer pk' → take_spot spot o n ≡ outer pk' =
      λ n pk' s. outer_back (take_spot spot o) o kind n pk' (λ (e : kind ≡ outer pk'). cc) s in
    let fo : f o ≡ node null_branches = rw (ne→== o a oa) t.here in
    let v2 : IsPtree pt2 spot2 nfree' lfree =
      IsPtree-Graft g v1 (inr (inl (o, refl, here)))
        (λ l q e.
          let lvl : l ≡ suc i = inner_level l q (suc i) (p * 4 + b) (sym e) in
          null-IsInner pt2 spot2 o l q (omega arith) t.positive w.based t.inside
            (rw (ne→== o a oa) t.here))
        (λ pk' (e : kind ≡ outer pk'). cc) (update v1.live.par o a)
        (Owned-hung v1 g z1 (omega (arith, t.inside, v1.spare.small))
          (λ l q br0 k c x. sym (some_branch x (ap as_node (sym fo ∙ c)))))
        (λ form n pk' s. Way-stays v1 g z1 n pk' (back n pk' s)) in
    let h2 = Reached-Hang v1 g z1 h1 in
    (
      o,
      pt2,
      spot2,
      nfree',
      rw (w.run, set_branch-inner b r node_a v1.spare.small) refl,
      record {
        valid = v2;
        leaves =
            SameLeaves-trans (Kept-SameLeaves kept t.same_count)
              record { keep = leaf_kept g; back = back; same_count = refl };
        grown = t.grown;
      },
      record {
        at = here ∙ ap (inner (suc i)) (sym (prefix_suc pk i (omega arith)));
        way = inr (
            Reached-Way (IsPtree-IsForm v2) h2 r (suc (31 - i)) (omega arith)
              (Way-hung v1 g z1 pk (31 - i) (omega arith) refl));
      },
    )
