-- ===== src/Ptree/Grafted.antt =====
-- A tree into which a cell has been linked is valid.
use store.Prelude.{
  ℕ, suc, ◌+◌, ◌*◌, ◌≡◌, ◌≢◌, refl, sym, ap, ◌∙◌, subst, List, arith, inl, inr, some, ◌==◌, update,
  Bool-cases, eq→==, ne→==, ==→eq, ==→ne, ◌%◌, ◌<◌,
}
use store.Ptree.{Ptree, Cell, as_node, null_node, node}
use store.Ptree.Invariant.{
  Spot, blank, freed, inner, outer, Child, Way, IsInner, IsOuter, IsSpare, IsPtree, IsForm, Owned,
}
use store.Ptree.Changed.{
  Changed, FreeNodes-Fresh, FreeLeaves-Fresh, FreeNodes-Changed, FreeLeaves-Changed,
}
use store.Ptree.Graft.{with_cell, Graft, spot_kept, cell_kept, some_branch, inner_level}

prefix_of : Spot → ℕ
prefix_of (inner l p) = p
prefix_of _ = 0

pub inner_prefix : (l q i p : ℕ) → inner l q ≡ inner i p → q ≡ p
unfolding prefix_of
inner_prefix l q i p e = ap prefix_of e

module _ {pt : Ptree} {spot : ℕ → Spot} {c a i p b r : ℕ} {kind : Spot} {f : ℕ → Cell}
    (g : Graft pt spot c a i p b r kind f) where
  Child-Graft : (l q n : ℕ) → Child spot l q n → Child (update spot c kind) l q n
  Child-Graft l q n (inl e) = inl e
  Child-Graft l q n (inr (inl (o, e, s))) = inr (inl (o, e, spot_kept g o (inner l q) tt s))
  Child-Graft l q n (inr (inr (pk, s, e))) = inr (inr (pk, spot_kept g n (outer pk) tt s, e))

  spot_back : (j : ℕ) (x : Spot) → j ≢ c → update spot c kind j ≡ x → spot j ≡ x
  spot_back j x d e = sym (rw (ne→== j c d) refl) ∙ e

  IsOuter-Graft :
      {nfree lfree : List ℕ}
      → IsPtree pt spot nfree lfree
      → (n pk : ℕ) → spot n ≡ outer pk
      → IsOuter (with_cell pt f) n pk
  IsOuter-Graft v n pk s =
      let w = v.live.outer_at n pk s in
      let d : n ≢ a = λ (e : n ≡ a). let k = sym s ∙ ap spot e ∙ g.at in cc in
      record {
        positive = w.positive;
        inside = w.inside;
        word = w.word;
        block = w.block;
        length = w.length;
        here = cell_kept g n (outer pk) tt s d ∙ w.here;
      }

  IsInner-Graft :
      {nfree lfree : List ℕ}
      → IsPtree pt spot nfree lfree
      → Child (update spot c kind) (suc i) (p * 4 + b) r
      → (o l q : ℕ) → spot o ≡ inner l q
      → IsInner (with_cell pt f) (update spot c kind) o l q
  IsInner-Graft v child o l q s =
      let w = v.live.inner_at o l q s in
      elim (Bool-cases (o == a)) [
        | inl here ↦
            let oa : o ≡ a = ==→eq o a here in
            let same = sym s ∙ ap spot oa ∙ g.at in
            let li : l ≡ i = inner_level l q i p same in
            let qp : q ≡ p = inner_prefix l q i p same in
            let old : some w.br ≡ some g.br =
              ap as_node (sym w.here ∙ ap pt.cells.cell oa ∙ g.was) in
            record {
              level = w.level;
              positive = w.positive;
              based = w.based;
              inside = w.inside;
              br = update g.br b r;
              here = ap f oa ∙ g.now;
              children = λ x h. elim (Bool-cases (x == b)) [
                | inl e ↦ let xb : x ≡ b = ==→eq x b e in rw (e, li, qp, xb) child
                | inr e ↦
                    subst (Child (update spot c kind) (suc l) (q * 4 + x))
                      (some_branch x old ∙ sym (rw e refl))
                      (Child-Graft (suc l) (q * 4 + x) (w.br x) (w.children x h))
              ];
            }
        | inr other ↦ record {
          level = w.level;
          positive = w.positive;
          based = w.based;
          inside = w.inside;
          br = w.br;
          here = cell_kept g o (inner l q) tt s (==→ne o a other) ∙ w.here;
          children = λ x h. Child-Graft (suc l) (q * 4 + x) (w.br x) (w.children x h);
        }
      ]

  -- The cell that is linked in, then the node.
  half : ℕ → Cell
  half = update pt.cells.cell c (f c)

  half-Changed : Changed c pt spot (with_cell pt half) (update spot c kind)
  unfolding half
  half-Changed = record {
    spots = λ j d. rw (ne→== j c d) refl;
    same = λ j d l. rw (ne→== j c d) refl;
    based = omega arith;
    sized = omega arith;
  }

  rest-Changed :
      Changed a (with_cell pt half) (update spot c kind) (with_cell pt f) (update spot c kind)
  unfolding half
  rest-Changed = record {
    spots = λ j d. refl;
    same = λ j d l. elim (Bool-cases (j == c)) [
      | inl e ↦ rw e (ap f (==→eq j c e))
      | inr e ↦ rw e (g.others j d (==→ne j c e))
    ];
    based = omega arith;
    sized = omega arith;
  }

  blank_kept : (j : ℕ) → spot j ≡ blank → update spot c kind j ≡ blank
  blank_kept j e =
      let d : j ≢ c = λ (k : j ≡ c). let k' = ap spot k in let h = g.handed in cc in
      rw (ne→== j c d) e

  IsSpare-Graft :
      {nfree lfree : List ℕ}
      → IsSpare pt spot nfree lfree
      → IsSpare (with_cell pt f) (update spot c kind) nfree lfree
  IsSpare-Graft {nfree} {lfree} s =
      let nc : spot c ≢ freed = λ (e : spot c ≡ freed). let h = g.handed in cc in
      let na : spot a ≢ freed = λ (e : spot a ≡ freed). let h = g.at in cc in
      record {
        small = s.small;
        positive = s.positive;
        node_fits = s.node_fits;
        leaf_fits = s.leaf_fits;
        ranges = s.ranges;
        blank_nodes = λ j k m. blank_kept j (s.blank_nodes j k m);
        blank_leaves = λ j k m. blank_kept j (s.blank_leaves j k m);
        blank_rest = λ j k. blank_kept j (s.blank_rest j k);
        free_nodes =
            FreeNodes-Changed rest-Changed pt.node_free nfree
              (FreeNodes-Fresh pt spot a pt.node_free nfree s.free_nodes na)
              (FreeNodes-Changed half-Changed pt.node_free nfree
                (FreeNodes-Fresh pt spot c pt.node_free nfree s.free_nodes nc) s.free_nodes);
        free_leaves =
            FreeLeaves-Changed rest-Changed pt.leaf_free lfree
              (FreeLeaves-Fresh pt spot a pt.leaf_free lfree s.free_leaves na)
              (FreeLeaves-Changed half-Changed pt.leaf_free lfree
                (FreeLeaves-Fresh pt spot c pt.leaf_free lfree s.free_leaves nc) s.free_leaves);
      }

  here_kind : update spot c kind c ≡ kind
  here_kind = rw (eq→== c c refl) refl

  -- The nodes that the cells hang at, from those of the cells that hang as before.
  pub Owned-Graft :
      (par : ℕ → ℕ)
      → r % 0x80000000 ≡ c
      → par c ≡ a
      → ((l q : ℕ) (br0 : ℕ → ℕ)
          → kind ≡ inner l q
          → f c ≡ node br0
          → (x : ℕ) → x < 4
          → br0 x ≢ null_node
          → par (br0 x % 0x80000000) ≡ c)
      → ((o l q : ℕ) (br0 : ℕ → ℕ)
          → spot o ≡ inner l q
          → pt.cells.cell o ≡ node br0
          → (x : ℕ) → x < 4
          → (o ≡ a → x ≢ b)
          → br0 x ≢ null_node
          → par (br0 x % 0x80000000) ≡ o)
      → Owned (with_cell pt f) (update spot c kind) par
  Owned-Graft par rc ca own_c own o l q br0 s' h x lt n = elim (Bool-cases (o == c)) [
    | inl e ↦
        let oc : o ≡ c = ==→eq o c e in
        own_c l q br0 (sym here_kind ∙ ap (update spot c kind) (sym oc) ∙ s') (ap f (sym oc) ∙ h) x
          lt n
        ∙ sym oc
    | inr e ↦
        let s = spot_back o (inner l q) (==→ne o c e) s' in
        elim (Bool-cases (o == a)) [
          | inl e' ↦
              let oa : o ≡ a = ==→eq o a e' in
              let new = some_branch x (ap as_node (sym g.now ∙ ap f (sym oa) ∙ h)) in
              elim (Bool-cases (x == b)) [
                | inl k ↦
                    let here : br0 x ≡ r = sym new ∙ rw k refl in
                    ap (λ z. par (z % 0x80000000)) here ∙ ap par rc ∙ ca ∙ sym oa
                | inr k ↦
                    let old : br0 x ≡ g.br x = sym new ∙ rw k refl in
                    let own' =
                      own o l q g.br s (ap pt.cells.cell oa ∙ g.was) x lt (λ _. ==→ne x b k)
                        (λ z. n (old ∙ z)) in
                    ap (λ z. par (z % 0x80000000)) old ∙ own'
              ]
          | inr e' ↦
              own o l q br0 s (sym (g.others o (==→ne o a e') (==→ne o c e)) ∙ h) x lt
                (λ oa. absurd (==→ne o a e' oa)) n
        ]
  ]

  pub IsPtree-Graft :
      {nfree lfree : List ℕ}
      → IsPtree pt spot nfree lfree
      → Child (update spot c kind) (suc i) (p * 4 + b) r
      → ((l q : ℕ) → kind ≡ inner l q → IsInner (with_cell pt f) (update spot c kind) c l q)
      → ((pk : ℕ) → kind ≡ outer pk → IsOuter (with_cell pt f) c pk)
      → (par : ℕ → ℕ) → Owned (with_cell pt f) (update spot c kind) par
      → (IsForm (with_cell pt f) (update spot c kind)
          → (n pk : ℕ) → update spot c kind n ≡ outer pk
          → Way (with_cell pt f) (update spot c kind) pk 32 0 1 n)
      → IsPtree (with_cell pt f) (update spot c kind) nfree lfree
  IsPtree-Graft v child node_c leaf_c par own way =
      let form : IsForm (with_cell pt f) (update spot c kind) = record {
        inner_at = λ o l q s. elim (Bool-cases (o == c)) [
          | inl e ↦
              let oc : o ≡ c = ==→eq o c e in
              subst (λ x. IsInner (with_cell pt f) (update spot c kind) x l q) (sym oc)
                (node_c l q (sym here_kind ∙ ap (update spot c kind) (sym oc) ∙ s))
          | inr e ↦ IsInner-Graft v child o l q (spot_back o (inner l q) (==→ne o c e) s)
        ];
        outer_at = λ n pk s. elim (Bool-cases (n == c)) [
          | inl e ↦
              let oc : n ≡ c = ==→eq n c e in
              subst (λ x. IsOuter (with_cell pt f) x pk) (sym oc)
                (leaf_c pk (sym here_kind ∙ ap (update spot c kind) (sym oc) ∙ s))
          | inr e ↦ IsOuter-Graft v n pk (spot_back n (outer pk) (==→ne n c e) s)
        ];
        small = v.spare.small;
      } in
      record {
        live = record {
          root = spot_kept g 1 (inner 0 0) tt v.live.root;
          par = par;
          owner = own;
          inner_at = form.inner_at;
          outer_at = form.outer_at;
          way = way form;
        };
        spare = IsSpare-Graft v.spare;
      }
