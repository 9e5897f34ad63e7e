-- ===== src/Ptree/HangLeaf.antt =====
-- `get_or_create_leaf` at a null branch from the third level on: a leaf is hung there.
use store.Prelude.{
  ℕ, suc, ◌+◌, ◌-◌, ◌/◌, ◌^◌, ◌≤◌, ◌<◌, ◌≡◌, ◌≢◌, refl, sym, ap, ◌∙◌, subst, List, arith, ◌⊎◌, inl,
  inr, some, update, ◌==◌, Bool-cases, ==→eq, eq→==, ne→==, lt→ltb,
}
use store.Rid.{null}
use store.Ptree.{Ptree, node, leaf, null_node, pk_branch, as_node, store_cell, found, hang_leaf}
use store.Ptree.Invariant.{Spot, inner, outer, Way, IsOuter, IsPtree}
use store.Ptree.Taken.{take_spot, take_here, Taken-Kept}
use store.Ptree.Alloc.{new_leaf-NewLeaf}
use store.Ptree.Find.{load_leaf_lem, prefix_suc}
use store.Ptree.Graft.{with_cell, Graft, some_branch, outer_key}
use store.Ptree.Grafted.{IsPtree-Graft}
use store.Ptree.Reached.{Reached, Reached-Way, Reached-Kept}
use store.Ptree.Hang.{
  set_branch_lem, Reached-Hang, Way-hung, leaf_kept, Way-stays, outer_back, Owned-hung,
}

-- The leaf of a key, which is there from before or is new and empty.
pub record Created (pt : Ptree) (spot : ℕ → Spot) (pk n : ℕ) (pt' : Ptree) (spot' : ℕ → Spot)
    (nfree lfree : List ℕ) : Type 0 where
  pub valid : IsPtree pt' spot' nfree lfree
  pub there : spot' n ≡ outer pk
  pub keep :
      (m pk' : ℕ)
      → spot m ≡ outer pk'
      → (spot' m ≡ outer pk') × (pt'.cells.cell m ≡ pt.cells.cell m)
  pub back : (m pk' : ℕ) → pk' ≢ pk → spot' m ≡ outer pk' → spot m ≡ outer pk'
  pub origin :
      (spot n ≡ outer pk) ⊎ ((pt'.cells.cell n ≡ leaf pk 0 0) × ((m : ℕ) → spot m ≢ outer pk))
  pub same_count : pt'.count ≡ pt.count

pub hang_leaf-Created :
    (pt : Ptree) (spot : ℕ → Spot) (nfree lfree : List ℕ) (pk i a : ℕ) (br : ℕ → ℕ)
    → IsPtree pt spot nfree lfree
    → pt.cells.size + 32768 ≤ 2 ^ 31
    → pk < 2 ^ 64
    → Reached pt spot pk i a
    → ((m : ℕ) → spot m ≢ outer pk)
    → pt.cells.cell a ≡ node br
    → br (pk_branch pk i) ≡ null_node
    → (n : ℕ) × (pt' : Ptree) × (spot' : ℕ → Spot) × (lfree' : List ℕ) × (hang_leaf pt pk i
          (a + 0x80000000)
        ≡ some (found n pt'))
      × Created pt spot pk n pt' spot' nfree lfree'
unfolding hang_leaf store_cell
hang_leaf-Created pt spot nfree lfree pk i a br v room word h none_yet ca z =
    let (c, pt1, lfree', w) = new_leaf-NewLeaf pt spot nfree lfree v room in
    let t = w.taken_cell in
    let kept = Taken-Kept t v.live in
    let v1 = t.valid in
    let h1 = Reached-Kept kept h in
    let p = pk / 4 ^ (32 - i) in
    let b = pk_branch pk i in
    let node_a = v1.live.inner_at a i p h1.at in
    let ca1 : pt1.cells.cell a ≡ node br = (kept.same a (inner i p) tt h.at).1 ∙ ca in
    let z1 : node_a.br b ≡ null_node = some_branch b (ap as_node (sym node_a.here ∙ ca1)) ∙ z in
    let ac : a ≢ c =
      λ (e : a ≡ c). let k = sym (take_here spot c) ∙ ap (take_spot spot c) (sym e) ∙ h1.at in cc in
    let f0 = update pt1.cells.cell c (leaf pk 0 0) in
    let pt0 = with_cell pt1 f0 in
    let ca0 : f0 a ≡ node node_a.br = rw (ne→== a c ac) node_a.here in
    let f = update f0 a (node (update node_a.br b c)) in
    let kind = outer pk in
    let g : Graft pt1 (take_spot spot c) c a i p b c kind f = record {
      handed = take_here spot c;
      at = h1.at;
      br = node_a.br;
      was = node_a.here;
      now = rw (eq→== a a refl) refl;
      others = λ j d d'. rw (ne→== j a d, ne→== j c d') refl;
    } in
    let pt2 = with_cell pt1 f in
    let spot2 = update (take_spot spot c) c kind in
    let here : spot2 c ≡ kind = rw (eq→== c c refl) refl in
    let fc : f c ≡ leaf pk 0 0 = rw (ne→== c a (λ e. ac (sym e)), eq→== c c refl) refl in
    let only : (pk' : ℕ) → kind ≡ outer pk' → pk' ≡ pk = λ pk' e. sym (outer_key pk pk' e) in
    let k = 31 - i in
    let level : i + suc k ≡ 32 = omega (arith, node_a.level) in
    let v2 : IsPtree pt2 spot2 nfree lfree' =
      IsPtree-Graft g v1 (inr (inr (pk, here, prefix_suc pk i node_a.level)))
        (λ l q (e : kind ≡ inner l q). cc)
        (λ pk' e. subst (IsOuter pt2 c) (sym (only pk' e)) (record {
          positive = t.positive;
          inside = t.inside;
          word = word;
          block = 0;
          length = 0;
          here = fc;
        }))
        (update v1.live.par c a)
        (Owned-hung v1 g z1 (omega (arith, t.inside, v1.spare.small))
          (λ l q br0 (k : kind ≡ inner l q) h x. absurd cc))
        (λ form m pk' s. elim (Bool-cases (m == c)) [
          | inl e ↦
              let mc : m ≡ c = ==→eq m c e in
              let same = only pk' (sym here ∙ ap spot2 (sym mc) ∙ s) in
              subst (λ x. Way pt2 spot2 x 32 0 1 m) (sym same)
                (subst (Way pt2 spot2 pk 32 0 1) (sym mc) (
                  Reached-Way form (Reached-Hang v1 g z1 h1) c (suc k) level
                    (Way-hung v1 g z1 pk k level refl)))
          | inr e ↦
              let s' : take_spot spot c m ≡ outer pk' = sym (rw e refl) ∙ s in
              Way-stays v1 g z1 m pk' s'
        ]) in
    (
      c,
      pt2,
      spot2,
      lfree',
      simp (
        w.run,
        load_leaf_lem pt1 c null 0 0 t.inside t.here,
        lt→ltb c pt1.cells.size t.inside,
        set_branch_lem pt0 a b c node_a.br node_a.positive node_a.based node_a.inside v1.spare.small
            ca0,
      ),
      record {
        valid = v2;
        there = here;
        keep = λ m pk' s.
            let (s', e) = kept.same m (outer pk') tt s in
            let (s2, e2) = leaf_kept g m pk' s' in (s2, e2 ∙ e);
        back = λ m pk' d s.
            kept.back m (outer pk') tt
              (outer_back (take_spot spot c) c kind m pk' (λ e. d (only pk' e)) s);
        origin = inr (fc, none_yet);
        same_count = t.same_count;
      },
    )
