-- ===== src/Ptree/Remove/Prune.antt =====
-- A leaf, or a node without branches, is taken out of the tree.
use store.Prelude.{
  ℕ, zero, suc, ◌+◌, ◌-◌, ◌*◌, ◌/◌, ◌%◌, ◌^◌, ◌<◌, ◌≡◌, ◌≢◌, refl, sym, ap, ap₂, ◌∙◌, subst, List,
  arith, ◌⊎◌, inl, inr, some, ◌==◌, update, Bool-cases, eq→==, ne→==, ==→eq, ==→ne,
}
use store.Ptree.{Ptree, Cell, node, null_node, pk_branch, as_node}
use store.Ptree.Invariant.{
  Spot, blank, freed, taken, inner, outer, Used, Child, Way, IsInner, IsForm, IsLive, IsPtree,
  IsPtree-IsForm, Owned,
}
use store.Ptree.Graft.{with_cell, some_branch, inner_level, outer_key, below_cases}
use store.Ptree.Grafted.{inner_prefix}
use store.Ptree.Hang.{null-Way}

-- The branch `b` of the node `a`, which leads to the cell `c`, becomes null; `c` has no branches.
pub record Prune (pt : Ptree) (spot : ℕ → Spot) (c a i p b r : ℕ) (f : ℕ → Cell) : Type 0 where
  pub at : spot a ≡ inner i p
  pub br : ℕ → ℕ
  pub was : pt.cells.cell a ≡ node br
  pub leads : br b ≡ r
  pub bound : b < 4
  pub there : r ≢ null_node
  pub cell_of : r % 0x80000000 ≡ c
  pub bare : (bc : ℕ → ℕ) → pt.cells.cell c ≡ node bc → (x : ℕ) → x < 4 → bc x ≡ null_node
  pub now : f a ≡ node (update br b null_node)
  pub others : (j : ℕ) → j ≢ a → j ≢ c → f j ≡ pt.cells.cell j

freed-Used : (x : Spot) → Used x → freed ≢ x
freed-Used blank u e = absurd u
freed-Used freed u e = absurd u
freed-Used taken u e = absurd u
freed-Used (inner l p) u e = cc
freed-Used (outer pk) u e = cc

module _ {pt : Ptree} {spot : ℕ → Spot} {nfree lfree : List ℕ} (v : IsPtree pt spot nfree lfree)
    {c a i p b r : ℕ} {f : ℕ → Cell} (g : Prune pt spot c a i p b r f) where
  form : IsForm pt spot
  form = IsPtree-IsForm v

  node_a : IsInner pt spot a i p
  node_a = v.live.inner_at a i p g.at

  leads_to : Child spot (suc i) (p * 4 + b) r
  leads_to =
      subst (Child spot (suc i) (p * 4 + b))
        (some_branch b (ap as_node (sym node_a.here ∙ g.was)) ∙ g.leads) (node_a.children b g.bound)

  -- What the cell was.
  cell_cases :
      ((r ≡ c + 0x80000000) × (spot c ≡ inner (suc i) (p * 4 + b)))
      ⊎ ((pk : ℕ) × (r ≡ c) × (spot c ≡ outer pk) × (pk / 4 ^ (32 - suc i) ≡ p * 4 + b))
  cell_cases = elim (below_cases (suc i) (p * 4 + b) r form leads_to g.there) [
    | inl (e, s) ↦ inl (e ∙ ap (λ x. x + 0x80000000) g.cell_of, sym (ap spot g.cell_of) ∙ s)
    | inr (pk, e, s, z) ↦ inr (pk, e ∙ g.cell_of, sym (ap spot g.cell_of) ∙ s, z)
  ]

  par_c : v.live.par c ≡ a
  par_c =
      ap v.live.par (sym (ap (λ x. x % 0x80000000) g.leads ∙ g.cell_of))
      ∙ v.live.owner a i p g.br g.at g.was b g.bound (λ e. g.there (sym g.leads ∙ e))

  pub not_blank : spot c ≢ blank
  not_blank e = elim cell_cases [ inl (z, s) ↦ cc | inr (pk, z, s, q) ↦ cc ]

  pub not_freed : spot c ≢ freed
  not_freed e = elim cell_cases [ inl (z, s) ↦ cc | inr (pk, z, s, q) ↦ cc ]

  pub not_parent : c ≢ a
  not_parent e = elim cell_cases [
    | inl (z, s) ↦
        let k = inner_level (suc i) (p * 4 + b) i p (sym s ∙ ap spot e ∙ g.at) in omega (arith, k)
    | inr (pk, z, s, q) ↦ let k = sym s ∙ ap spot e ∙ g.at in cc
  ]

  not_root : c ≢ 1
  not_root e = elim cell_cases [
    | inl (z, s) ↦
        let k = inner_level (suc i) (p * 4 + b) 0 0 (sym s ∙ ap spot e ∙ v.live.root) in
        omega (arith, k)
    | inr (pk, z, s, q) ↦ let k = sym s ∙ ap spot e ∙ v.live.root in cc
  ]

  -- Only this branch leads to the cell.
  only_here :
      (o l q x : ℕ) (br0 : ℕ → ℕ)
      → spot o ≡ inner l q
      → pt.cells.cell o ≡ node br0
      → x < 4
      → br0 x ≢ null_node
      → (o ≡ a → x ≢ b)
      → br0 x % 0x80000000 ≢ c
  only_here o l q x br0 s h lt n d e =
      let oa : o ≡ a = sym (v.live.owner o l q br0 s h x lt n) ∙ ap v.live.par e ∙ par_c in
      let w = v.live.inner_at o l q s in
      let same = some_branch x (ap as_node (sym w.here ∙ h)) in
      let child = subst (Child spot (suc l) (q * 4 + x)) same (w.children x lt) in
      let here = sym s ∙ ap spot oa ∙ g.at in
      let li : l ≡ i = inner_level l q i p here in
      let qp : q ≡ p = inner_prefix l q i p here in
      let out = d oa in
      elim (below_cases (suc l) (q * 4 + x) (br0 x) form child n) [
        | inl (z, k) ↦ elim cell_cases [
          | inl (z', k') ↦
              let k2 =
                inner_prefix (suc l) (q * 4 + x) (suc i) (p * 4 + b) (sym k ∙ ap spot e ∙ k') in
              out (omega (arith, k2, qp))
          | inr (pk', z', k', pre) ↦ let k2 = sym k ∙ ap spot e ∙ k' in cc
        ]
        | inr (pk, z, k, pre) ↦ elim cell_cases [
          | inl (z', k') ↦ let k2 = sym k ∙ ap spot e ∙ k' in cc
          | inr (pk', z', k', pre') ↦
              let keys : pk ≡ pk' = outer_key pk pk' (sym k ∙ ap spot e ∙ k') in
              let same' : pk' / 4 ^ (32 - suc i) ≡ q * 4 + x =
                ap₂ (λ y u. y / 4 ^ (32 - suc u)) (sym keys) (sym li) ∙ pre in
              out (omega (arith, pre', same', qp))
        ]
      ]

  spot_left : (j : ℕ) → j ≢ c → update spot c freed j ≡ spot j
  spot_left j d = rw (ne→== j c d) refl

  -- A cell that is still in use is another one.
  left_other : (j : ℕ) (x : Spot) → Used x → update spot c freed j ≡ x → j ≢ c
  left_other j x u s e = let k : freed ≡ x = sym (rw (eq→== j c e) refl) ∙ s in freed-Used x u k

  Child-left :
      (l q r0 : ℕ)
      → Child spot l q r0
      → (r0 ≢ null_node → r0 % 0x80000000 ≢ c)
      → Child (update spot c freed) l q r0
  Child-left l q r0 k d = elim (Bool-cases (r0 == null_node)) [
    | inl e ↦ inl (==→eq r0 null_node e)
    | inr e ↦
        let n = ==→ne r0 null_node e in
        let y = r0 % 0x80000000 in
        elim (below_cases l q r0 form k n) [
          | inl (z, s) ↦ inr (inl (y, z, spot_left y (d n) ∙ s))
          | inr (pk, z, s, pre) ↦
              inr (inr (pk, ap (update spot c freed) z ∙ spot_left y (d n) ∙ s, pre))
        ]
  ]

  -- No way goes through the cell.
  bare-Way : (pk k l o n : ℕ) → spot n ≡ outer pk → o + 0x80000000 ≡ r → Way pt spot pk k l o n → ⊥
  bare-Way pk zero l o n t e w = w
  bare-Way pk (suc k) l o n t e (q, br0, so, co, w) =
      let i' = (v.live.inner_at o l q so).inside in
      let small = v.spare.small in
      let oc : o ≡ c = omega (arith, g.cell_of) in
      null-Way v pk k l o n br0 co
        (g.bare br0 (ap pt.cells.cell (sym oc) ∙ co) (pk_branch pk l) (omega arith)) (inl t)
        (q, br0, so, co, w)

  -- The ways to the leaves that stay.
  Way-left :
      (pk k l o n : ℕ)
      → spot n ≡ outer pk
      → n ≢ c
      → Way pt spot pk k l o n
      → Way (with_cell pt f) (update spot c freed) pk k l o n
  Way-left pk zero l o n t d w = w
  Way-left pk (suc k) l o n t d (q, br0, so, co, w) =
      let x = pk_branch pk l in
      let oc : o ≢ c = λ (e : o ≡ c).
        null-Way v pk k l o n br0 co (g.bare br0 (ap pt.cells.cell (sym e) ∙ co) x (omega arith))
          (inl t) (q, br0, so, co, w) in
      elim (Bool-cases (o == a)) [
        | inl e ↦
            let oa : o ≡ a = ==→eq o a e in
            let old = some_branch x (ap as_node (sym g.was ∙ ap pt.cells.cell (sym oa) ∙ co)) in
            let off : x ≢ b = λ (xb : x ≡ b).
              let to_r : br0 x ≡ r = sym old ∙ ap g.br xb ∙ g.leads in
              elim w [
                | inl z ↦
                    let nr : n ≡ r = sym z ∙ to_r in
                    let i' = (v.live.outer_at n pk t).inside in
                    let small = v.spare.small in d (omega (arith, g.cell_of))
                | inr (o', z, w') ↦ bare-Way pk k (suc l) o' n t (sym z ∙ to_r) w'
              ] in
            (
              q,
              update g.br b null_node,
              spot_left o oc ∙ so,
              ap f oa ∙ g.now,
              rw (ne→== x b off) (elim w [
                | inl z ↦ inl (old ∙ z)
                | inr (o', z, w') ↦ inr (o', old ∙ z, Way-left pk k (suc l) o' n t d w')
              ]),
            )
        | inr e ↦ (
          q,
          br0,
          spot_left o oc ∙ so,
          g.others o (==→ne o a e) oc ∙ co,
          elim w [
            | inl z ↦ inl z
            | inr (o', z, w') ↦ inr (o', z, Way-left pk k (suc l) o' n t d w')
          ],
        )
      ]

  IsInner-left :
      (o l q : ℕ)
      → update spot c freed o ≡ inner l q
      → IsInner (with_cell pt f) (update spot c freed) o l q
  IsInner-left o l q s' =
      let oc = left_other o (inner l q) tt s' in
      let s = sym (spot_left o oc) ∙ s' in
      let w = v.live.inner_at o l q s in
      let kids : (x : ℕ)
          → x < 4
          → (o ≡ a → x ≢ b)
          → Child (update spot c freed) (suc l) (q * 4 + x) (w.br x) =
        λ x h d.
          Child-left (suc l) (q * 4 + x) (w.br x) (w.children x h)
            (λ n. only_here o l q x w.br s w.here h n d) in
      elim (Bool-cases (o == a)) [
        | inl e ↦
            let oa : o ≡ a = ==→eq o a e in
            let old : some w.br ≡ some g.br =
              ap as_node (sym w.here ∙ ap pt.cells.cell oa ∙ g.was) in
            record {
              level = w.level;
              positive = w.positive;
              based = w.based;
              inside = w.inside;
              br = update g.br b null_node;
              here = ap f oa ∙ g.now;
              children = λ x h. elim (Bool-cases (x == b)) [
                | inl k ↦ inl (rw k refl)
                | inr k ↦ rw k (
                    subst (Child (update spot c freed) (suc l) (q * 4 + x)) (some_branch x old)
                      (kids x h (λ u. ==→ne x b k)))
              ];
            }
        | inr e ↦ record {
          level = w.level;
          positive = w.positive;
          based = w.based;
          inside = w.inside;
          br = w.br;
          here = g.others o (==→ne o a e) oc ∙ w.here;
          children = λ x h. kids x h (λ oa. absurd (==→ne o a e oa));
        }
      ]

  Owned-left : Owned (with_cell pt f) (update spot c freed) v.live.par
  Owned-left o l q br0 s' h x lt n =
      let oc = left_other o (inner l q) tt s' in
      let s = sym (spot_left o oc) ∙ s' in
      elim (Bool-cases (o == a)) [
        | inl e ↦
            let oa : o ≡ a = ==→eq o a e in
            let new = some_branch x (ap as_node (sym g.now ∙ ap f (sym oa) ∙ h)) in
            elim (Bool-cases (x == b)) [
              | inl k ↦ absurd (n (sym new ∙ rw k refl))
              | inr k ↦
                  let old : br0 x ≡ g.br x = sym new ∙ rw k refl in
                  ap (λ z. v.live.par (z % 0x80000000)) old
                  ∙ v.live.owner o l q g.br s (ap pt.cells.cell oa ∙ g.was) x lt (λ z. n (old ∙ z))
            ]
        | inr e ↦ v.live.owner o l q br0 s (sym (g.others o (==→ne o a e) oc) ∙ h) x lt n
      ]

  pub IsLive-Prune : IsLive (with_cell pt f) (update spot c freed)
  IsLive-Prune = record {
    par = v.live.par;
    owner = Owned-left;
    root = spot_left 1 (λ e. not_root (sym e)) ∙ v.live.root;
    inner_at = IsInner-left;
    outer_at = λ n pk s'.
        let nc = left_other n (outer pk) tt s' in
        let s = sym (spot_left n nc) ∙ s' in
        let na : n ≢ a = λ (e : n ≡ a). let k = sym s ∙ ap spot e ∙ g.at in cc in
        let w = v.live.outer_at n pk s in
        record {
          positive = w.positive;
          inside = w.inside;
          word = w.word;
          block = w.block;
          length = w.length;
          here = g.others n na nc ∙ w.here;
        };
    way = λ n pk s'.
        let nc = left_other n (outer pk) tt s' in
        let s = sym (spot_left n nc) ∙ s' in Way-left pk 32 0 1 n s nc (v.live.way n pk s);
  }
