-- ===== src/Ptree/SplitLeaf.antt =====
-- `get_or_create_leaf` at the leaf of another key: what the split leaves.
use store.Prelude.{
  ℕ, suc, ◌+◌, ◌-◌, ◌*◌, ◌/◌, ◌^◌, ◌≤◌, ◌<◌, ◌≡◌, ◌≢◌, refl, sym, ap, ◌∙◌, List, arith, some,
  update, false, leb, eq→==, ne→==,
}
use store.Ptree.{Ptree, node, null_branches, pk_branch, as_node, split_leaf, again}
use store.Ptree.Invariant.{Spot, inner, outer, IsPtree}
use store.Ptree.Taken.{take_spot, take_here, Taken-Kept}
use store.Ptree.Alloc.{new_node-NewNode}
use store.Ptree.Find.{prefix_suc}
use store.Ptree.Graft.{with_cell, Graft, some_branch}
use store.Ptree.Reached.{Reached, Reached-Kept}
use store.Ptree.Hang.{
  SameLeaves-trans, Hung, set_branch_lem, set_branch-inner, outer_back, leaf_kept, Kept-SameLeaves,
}
use store.Ptree.Split.{same_prefix, IsPtree-Split, Reached-Split}

-- In a valid tree with room to grow, at a leaf of another key below the node that the key has
-- reached: the split ends without a fault and leaves a valid tree with the same leaves, in which the
-- branch leads to a node.
pub split_leaf-Hung :
    (pt : Ptree) (spot : ℕ → Spot) (nfree lfree : List ℕ) (pk i a m pk' : ℕ) (br : ℕ → ℕ)
    → IsPtree pt spot nfree lfree
    → pt.cells.size + 32768 ≤ 2 ^ 31
    → Reached pt spot pk i a
    → pt.cells.cell a ≡ node br
    → br (pk_branch pk i) ≡ m
    → spot m ≡ outer pk'
    → pk' / 4 ^ (32 - suc i) ≡ pk / 4 ^ (32 - i) * 4 + pk_branch pk i
    → pk ≢ pk'
    → (s : ℕ) × (pt' : Ptree) × (spot' : ℕ → Spot) × (nfree' : List ℕ) × (split_leaf pt pk i
          (a + 0x80000000)
          m
          pk'
        ≡ some (again pt'))
      × Hung pt spot pt' spot' nfree' lfree
      × Reached pt' spot' pk i a
      × (0 < s)
      × ((br' : ℕ → ℕ) × (pt'.cells.cell a ≡ node br') × (br' (pk_branch pk i) ≡ s + 0x80000000))
unfolding split_leaf
split_leaf-Hung pt spot nfree lfree pk i a m pk' br v room h ca z sm prefix differ =
    let (s, pt1, nfree', w) = new_node-NewNode pt spot nfree lfree v room in
    let t = w.taken_cell in
    let kept = Taken-Kept t v.live in
    let v1 = t.valid in
    let h1 = Reached-Kept kept h in
    let p = pk / 4 ^ (32 - i) in
    let b = pk_branch pk i in
    let node_a = v1.live.inner_at a i p h1.at in
    let ca1 : pt1.cells.cell a ≡ node br = (kept.same a (inner i p) tt h.at).1 ∙ ca in
    let z1 : node_a.br b ≡ m = some_branch b (ap as_node (sym node_a.here ∙ ca1)) ∙ z in
    let sm1 = (kept.same m (outer pk') tt sm).0 in
    let r = s + 0x80000000 in
    let b' = pk_branch pk' (suc i) in
    let f0 = update pt1.cells.cell a (node (update node_a.br b r)) in
    let f = update f0 s (node (update null_branches b' m)) in
    let sa : s ≢ a =
      λ (e : s ≡ a). let k = sym (take_here spot s) ∙ ap (take_spot spot s) e ∙ h1.at in cc in
    let fa : f a ≡ node (update node_a.br b r) =
      rw (ne→== a s (λ e. sa (sym e)), eq→== a a refl) refl in
    let g : Graft pt1 (take_spot spot s) s a i p b r (inner (suc i) (p * 4 + b)) f = record {
      handed = take_here spot s;
      at = h1.at;
      br = node_a.br;
      was = node_a.here;
      now = fa;
      others = λ j d d'. rw (ne→== j s d', ne→== j a d) refl;
    } in
    let fs : f s ≡ node (update null_branches b' m) = rw (eq→== s s refl) refl in
    let level : i < 31 =
      same_prefix pk pk' i node_a.level differ (prefix_suc pk i node_a.level ∙ sym prefix) in
    let pt2 = with_cell pt1 f0 in
    let s0 : pt2.cells.cell s ≡ node null_branches = rw (ne→== s a sa) t.here in
    let which : leb 31 i ≡ false = ground arith in
    let shift : 31 - i - 1 ≡ 31 - suc i = omega arith in
    (
      s,
      with_cell pt1 f,
      update (take_spot spot s) s (inner (suc i) (p * 4 + b)),
      nfree',
      simp (
        which,
        shift,
        w.run,
        set_branch-inner b r node_a v1.spare.small,
        set_branch_lem pt2 s b' m null_branches t.positive w.based t.inside v1.spare.small s0,
      ),
      record {
        valid = IsPtree-Split v1 g z1 sm1 level fs (omega arith) prefix t.positive w.based t.inside;
        leaves = SameLeaves-trans (Kept-SameLeaves kept t.same_count) (record {
          keep = leaf_kept g;
          back = λ n pk0 e.
              outer_back (take_spot spot s) s (inner (suc i) (p * 4 + b)) n pk0
                (λ (k : inner (suc i) (p * 4 + b) ≡ outer pk0). cc) e;
          same_count = refl;
        });
        grown = t.grown;
      },
      Reached-Split v1 g z1 sm1 level fs h1,
      t.positive,
      (update node_a.br b r, fa, rw (eq→== b b refl) refl),
    )
