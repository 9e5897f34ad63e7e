-- ===== src/Ptree/Leaf.antt =====
-- A leaf in the tree that gets another block and another length.
use store.Prelude.{
  ℕ, zero, suc, ◌≡◌, ◌≢◌, refl, sym, ap, ◌∙◌, List, arith, inl, inr, ◌==◌, update, Bool-cases,
  ==→eq, ne→==,
}
use store.Prelude.Int.{ℤ}
use store.Ptree.{Ptree, leaf}
use store.Ptree.Invariant.{Spot, freed, inner, outer, Way, IsPtree}
use store.Ptree.Changed.{
  Changed, FreeNodes-Fresh, FreeLeaves-Fresh, FreeNodes-Changed, FreeLeaves-Changed,
}
use store.Ptree.Graft.{outer_key}

abbrev pub with_leaf : Ptree → ℕ → ℕ → ℕ → ℕ → ℤ → Ptree
with_leaf pt n pk block length count = record pt {
  count = count;
  cells = record pt.cells { cell = update pt.cells.cell n (leaf pk block length) };
}

module _ {pt : Ptree} {spot : ℕ → Spot} {nfree lfree : List ℕ} (v : IsPtree pt spot nfree lfree)
    (n pk block length : ℕ) (count : ℤ) (s : spot n ≡ outer pk) where
  node_other : (o l p : ℕ) → spot o ≡ inner l p → o ≢ n
  node_other o l p e k = let h = ap spot k in cc

  Way-leaf :
      (pk' k i o m : ℕ)
      → Way pt spot pk' k i o m
      → Way (with_leaf pt n pk block length count) spot pk' k i o m
  Way-leaf pk' zero i o m w = w
  Way-leaf pk' (suc k) i o m (p, br, so, co, w) =
      let other = ne→== o n (node_other o i p so) in
      (
        p,
        br,
        so,
        rw other co,
        elim w [ inl e ↦ inl e | inr (q, e, w') ↦ inr (q, e, Way-leaf pk' k (suc i) q m w') ],
      )

  leaf-Changed : Changed n pt spot (with_leaf pt n pk block length count) spot
  leaf-Changed = record {
    spots = λ j d. refl;
    same = λ j d l. rw (ne→== j n d) refl;
    based = omega arith;
    sized = omega arith;
  }

  pub IsPtree-leaf : IsPtree (with_leaf pt n pk block length count) spot nfree lfree
  IsPtree-leaf =
      let d : spot n ≢ freed = λ (e : spot n ≡ freed). cc in
      record {
        live = record {
          root = v.live.root;
          par = v.live.par;
          owner = λ o l p br so c.
              v.live.owner o l p br so (sym (rw (ne→== o n (node_other o l p so)) refl) ∙ c);
          inner_at = λ o l p so.
              let w = v.live.inner_at o l p so in
              record {
                level = w.level;
                positive = w.positive;
                based = w.based;
                inside = w.inside;
                br = w.br;
                here = rw (ne→== o n (node_other o l p so)) w.here;
                children = w.children;
              };
          outer_at = λ m pk' so.
              let w = v.live.outer_at m pk' so in
              elim (Bool-cases (m == n)) [
                | inl e ↦
                    let keys : pk ≡ pk' =
                      outer_key pk pk' (sym s ∙ ap spot (sym (==→eq m n e)) ∙ so) in
                    record {
                      positive = w.positive;
                      inside = w.inside;
                      word = w.word;
                      block = block;
                      length = length;
                      here = rw e (ap (λ x. leaf x block length) keys);
                    }
                | inr e ↦ record {
                  positive = w.positive;
                  inside = w.inside;
                  word = w.word;
                  block = w.block;
                  length = w.length;
                  here = rw e w.here;
                }
              ];
          way = λ m pk' so. Way-leaf pk' 32 0 1 m (v.live.way m pk' so);
        };
        spare = record {
          small = v.spare.small;
          positive = v.spare.positive;
          node_fits = v.spare.node_fits;
          leaf_fits = v.spare.leaf_fits;
          ranges = v.spare.ranges;
          blank_nodes = v.spare.blank_nodes;
          blank_leaves = v.spare.blank_leaves;
          blank_rest = v.spare.blank_rest;
          free_nodes =
              FreeNodes-Changed leaf-Changed pt.node_free nfree
                (FreeNodes-Fresh pt spot n pt.node_free nfree v.spare.free_nodes d)
                v.spare.free_nodes;
          free_leaves =
              FreeLeaves-Changed leaf-Changed pt.leaf_free lfree
                (FreeLeaves-Fresh pt spot n pt.leaf_free lfree v.spare.free_leaves d)
                v.spare.free_leaves;
        };
      }
