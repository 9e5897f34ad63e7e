-- ===== src/Ptree/Split.antt =====
-- `get_or_create_leaf` at the leaf of another key: a node is put in front of the leaf.
use store.Prelude.{
  ℕ, zero, suc, ◌+◌, ◌-◌, ◌*◌, ◌/◌, ◌^◌, ◌≤◌, ◌<◌, ◌≡◌, ◌≢◌, refl, sym, ap, ap₂, ◌∙◌, subst, List,
  arith, inl, inr, update, ◌==◌, Bool-cases, ==→eq, ==→ne, eq→==, ne→==, ◌%◌,
}
use store.Ptree.{Ptree, Cell, node, null_branches, pk_branch, as_node, null_node}
use store.Ptree.Invariant.{Spot, inner, outer, Way, IsPtree, Owned, IsPtree-IsForm, Child}
use store.Ptree.Find.{prefix_suc}
use store.Ptree.Graft.{
  with_cell, Target, Graft, some_branch, inner_level, outer_key, spot_kept, Way-Graft,
  below_not_handed, not_handed, below_cases,
}
use store.Ptree.Grafted.{IsPtree-Graft, inner_prefix, Owned-Graft}
use store.Ptree.Reached.{Reached}
use store.Ptree.Hang.{outer_back}

-- Two keys of 64 bits that share all their pairs of bits are one.
pub same_prefix :
    (pk pk' i : ℕ) → i ≤ 31 → pk ≢ pk' → pk / 4 ^ (32 - suc i) ≡ pk' / 4 ^ (32 - suc i) → i < 31
same_prefix pk pk' i h d e = elim (Bool-cases (i == 31)) [
  | inl l ↦
      let il : i ≡ 31 = ==→eq i 31 l in
      let e' : pk / 4 ^ (32 - 32) ≡ pk' / 4 ^ (32 - 32) =
        subst (λ x. pk / 4 ^ (32 - suc x) ≡ pk' / 4 ^ (32 - suc x)) il e in
      absurd (d (omega arith))
  | inr l ↦ omega (arith, ==→ne i 31 l)
]

-- A node in front of a leaf.
module _ {pt : Ptree} {spot : ℕ → Spot} {nfree lfree : List ℕ} (v : IsPtree pt spot nfree lfree)
    {s a i p b m pk' : ℕ} {f : ℕ → Cell}
    (g : Graft pt spot s a i p b (s + 0x80000000) (inner (suc i) (p * 4 + b)) f) (z : g.br b ≡ m)
    (sm : spot m ≡ outer pk') (level : i < 31)
    (fs : f s ≡ node (update null_branches (pk_branch pk' (suc i)) m)) where
  at_split : update spot s (inner (suc i) (p * 4 + b)) s ≡ inner (suc i) (p * 4 + b)
  at_split = rw (eq→== s s refl) refl

  Way-through :
      (pk k n : ℕ)
      → Target spot pk n
      → i + suc k ≡ 32
      → pk_branch pk i ≡ b
      → Way pt spot pk (suc k) i a n
      → Way (with_cell pt f) (update spot s (inner (suc i) (p * 4 + b))) pk (suc k) i a n
  Way-through pk zero n t e be w = absurd (omega arith)
  Way-through pk (suc k) n t e be (q, br0, so, co, w) =
      let same : g.br b ≡ br0 (pk_branch pk i) =
        some_branch b (ap as_node (sym g.was ∙ co)) ∙ ap br0 (sym be) in
      let small : m < 0x80000000 =
        omega (arith, (v.live.outer_at m pk' sm).inside, v.spare.small) in
      elim w [
        | inl e1 ↦
            let mn : m ≡ n = sym z ∙ same ∙ e1 in
            elim t [
              | inl sn ↦
                  let keys : pk' ≡ pk = outer_key pk' pk (sym sm ∙ ap spot mn ∙ sn) in
                  (
                    p,
                    update g.br b (s + 0x80000000),
                    spot_kept g a (inner i p) tt g.at,
                    g.now,
                    inr (
                      s,
                      rw (be, eq→== b b refl) refl,
                      (
                        p * 4 + b,
                        update null_branches (pk_branch pk' (suc i)) m,
                        at_split,
                        fs,
                        inl (
                            rw (keys, eq→== (pk_branch pk (suc i)) (pk_branch pk (suc i)) refl) mn),
                      ),
                    ),
                  )
              | inr (o, e2, l) ↦ absurd (omega arith)
            ]
        | inr (o, e1, w') ↦ let mo : m ≡ o + 0x80000000 = sym z ∙ same ∙ e1 in absurd (omega arith)
      ]

  Way-Split :
      (pk k l o n : ℕ)
      → l + k ≡ 32
      → Target spot pk n
      → Way pt spot pk k l o n
      → Way (with_cell pt f) (update spot s (inner (suc i) (p * 4 + b))) pk k l o n
  Way-Split pk = Way-Graft g pk λ k n t e be w. Way-through pk k n t e be w

  pub Reached-Split :
      {pk : ℕ}
      → Reached pt spot pk i a
      → Reached (with_cell pt f) (update spot s (inner (suc i) (p * 4 + b))) pk i a
  Reached-Split {pk} h = record {
    at = spot_kept g a (inner i (pk / 4 ^ (32 - i))) tt h.at;
    way = elim (h.way) [
      | inl e ↦ inl e
      | inr w ↦ inr (
          Way-Split pk 32 0 1 (a + 0x80000000) refl
            (inr (a, refl, (v.live.inner_at a i _ h.at).positive)) w)
    ];
  }

  split_back :
      (n pk : ℕ) → update spot s (inner (suc i) (p * 4 + b)) n ≡ outer pk → spot n ≡ outer pk
  split_back n pk e =
      outer_back spot s (inner (suc i) (p * 4 + b)) n pk
        (λ (k : inner (suc i) (p * 4 + b) ≡ outer pk). cc) e

  -- The leaf belongs to the new node, which belongs to the old one.
  split_par : ℕ → ℕ
  split_par = update (update v.live.par m s) s a

  -- Another branch of a node does not lead to the leaf.
  only_branch :
      pk' / 4 ^ (32 - suc i) ≡ p * 4 + b
      → (o l q x r : ℕ) → spot o ≡ inner l q
      → o ≡ a
      → x ≢ b
      → Child spot (suc l) (q * 4 + x) r
      → r ≢ null_node
      → r % 0x80000000 ≢ m
  only_branch prefix o l q x r so oa d child n ym =
      let here = sym so ∙ ap spot oa ∙ g.at in
      let li : l ≡ i = inner_level l q i p here in
      let qp : q ≡ p = inner_prefix l q i p here in
      elim (below_cases (suc l) (q * 4 + x) r (IsPtree-IsForm v) child n) [
        | inl (e, k) ↦ let c = sym k ∙ ap spot ym ∙ sm in cc
        | inr (pk, e, k, pre) ↦
            let keys : pk ≡ pk' = outer_key pk pk' (sym k ∙ ap spot ym ∙ sm) in
            let same : pk' / 4 ^ (32 - suc i) ≡ q * 4 + x =
              ap₂ (λ y z. y / 4 ^ (32 - suc z)) (sym keys) (sym li) ∙ pre in
            d (omega (arith, prefix, same, qp))
      ]

  Owned-split :
      b < 4
      → pk' / 4 ^ (32 - suc i) ≡ p * 4 + b
      → s < pt.cells.size
      → Owned (with_cell pt f) (update spot s (inner (suc i) (p * 4 + b))) split_par
  unfolding split_par
  Owned-split b4 prefix inside =
      let small = v.spare.small in
      let low : m < 0x80000000 = omega (arith, (v.live.outer_at m pk' sm).inside, small) in
      let mm : m % 0x80000000 ≡ m = omega arith in
      let form = IsPtree-IsForm v in
      let ms : m ≢ s = not_handed spot s m (outer pk') g.handed tt sm in
      let null_free : m ≢ null_node = omega arith in
      let owner_m : v.live.par m ≡ a =
        ap v.live.par (sym (ap (λ x. x % 0x80000000) z ∙ mm))
        ∙ v.live.owner a i p g.br g.at g.was b b4 (λ k. null_free (sym z ∙ k)) in
      Owned-Graft g (update (update v.live.par m s) s a) (omega arith) (rw (eq→== s s refl) refl)
        (λ l q br0 k h x lt n.
          let new = some_branch x (ap as_node (sym h ∙ fs)) in
          let at_m : br0 x ≡ m = elim (Bool-cases (x == pk_branch pk' (suc i))) [
            | inl e ↦ new ∙ rw e refl
            | inr e ↦ absurd (n (new ∙ rw e refl))
          ] in
          ap (λ y. update (update v.live.par m s) s a (y % 0x80000000)) at_m
          ∙ ap (update (update v.live.par m s) s a) mm
          ∙ rw (ne→== m s ms, eq→== m m refl) refl)
        (λ o l q br0 so h x lt out n.
          let w = v.live.inner_at o l q so in
          let same = some_branch x (ap as_node (sym w.here ∙ h)) in
          let child = subst (Child spot (suc l) (q * 4 + x)) same (w.children x lt) in
          let y = br0 x % 0x80000000 in
          let old = v.live.owner o l q br0 so h x lt n in
          let d : y ≢ s = below_not_handed s (suc l) (q * 4 + x) (br0 x) form g.handed child n in
          let d' : y ≢ m = λ (e : y ≡ m).
            let oa = sym old ∙ ap v.live.par e ∙ owner_m in
            only_branch prefix o l q x (br0 x) so oa (out oa) child n e in
          rw (ne→== y s d, ne→== y m d') old)

  pub IsPtree-Split :
      b < 4
      → pk' / 4 ^ (32 - suc i) ≡ p * 4 + b
      → 0 < s
      → s < pt.node_base
      → s < pt.cells.size
      → IsPtree (with_cell pt f) (update spot s (inner (suc i) (p * 4 + b))) nfree lfree
  IsPtree-Split b4 prefix pos based inside =
      IsPtree-Graft g v (inr (inl (s, refl, at_split)))
        (λ l q e.
          let lvl : l ≡ suc i = inner_level l q (suc i) (p * 4 + b) (sym e) in
          let pre : q ≡ p * 4 + b = inner_prefix l q (suc i) (p * 4 + b) (sym e) in
          record {
            level = omega arith;
            positive = pos;
            based = based;
            inside = inside;
            br = update null_branches (pk_branch pk' (suc i)) m;
            here = fs;
            children = λ x h. elim (Bool-cases (x == pk_branch pk' (suc i))) [
              | inl y ↦
                  let xb : x ≡ pk_branch pk' (suc i) = ==→eq x (pk_branch pk' (suc i)) y in
                  rw y (
                    inr (
                      inr (
                        pk',
                        spot_kept g m (outer pk') tt sm,
                        ap (λ w. pk' / 4 ^ (32 - suc w)) lvl
                            ∙ prefix_suc pk' (suc i) (omega arith)
                            ∙ ap₂ (λ c d. c * 4 + d) (prefix ∙ sym pre) (sym xb),
                      )))
              | inr y ↦ rw y (inl refl)
            ];
          })
        (λ pk (e : inner (suc i) (p * 4 + b) ≡ outer pk). cc) split_par
        (Owned-split b4 prefix inside)
        (λ form n pk e.
          let e0 = split_back n pk e in Way-Split pk 32 0 1 n refl (inl e0) (v.live.way n pk e0))
