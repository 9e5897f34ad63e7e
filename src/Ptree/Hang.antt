-- ===== src/Ptree/Hang.antt =====
-- `get_or_create_leaf` at a null branch: a node or a leaf is hung there.
use store.Prelude.{
  ℕ, suc, ◌+◌, ◌-◌, ◌*◌, ◌/◌, ◌^◌, ◌≤◌, ◌<◌, ◌≡◌, ◌≢◌, refl, sym, ap, ◌∙◌, List, arith, inl, inr,
  some, update, ◌==◌, Bool-cases, eq→==, ne→==, lt→ltb, ◌%◌, subst,
}
use store.Ptree.{
  Ptree, Cell, node, null_node, null_branches, pk_branch, as_node, store_cell, set_branch,
}
use store.Ptree.Invariant.{
  Spot, inner, outer, Way, IsInner, IsPtree, IsPtree-IsForm, Kept, Owned, Child,
}
use store.Ptree.Find.{node_ref_lem, load_node_lem, start_positive}
use store.Ptree.Graft.{
  with_cell, Target, Graft, some_branch, spot_kept, cell_kept, Way-Graft, below_not_handed,
}
use store.Ptree.Grafted.{Owned-Graft}
use store.Ptree.Reached.{Reached}

-- The same leaves are in two trees.
pub record SameLeaves (pt : Ptree) (spot : ℕ → Spot) (pt' : Ptree) (spot' : ℕ → Spot) : Type 0 where
  pub keep :
      (n pk : ℕ) → spot n ≡ outer pk → (spot' n ≡ outer pk) × (pt'.cells.cell n ≡ pt.cells.cell n)
  pub back : (n pk : ℕ) → spot' n ≡ outer pk → spot n ≡ outer pk
  pub same_count : pt'.count ≡ pt.count

pub SameLeaves-trans :
    {p q r : Ptree} {s t u : ℕ → Spot}
    → SameLeaves p s q t
    → SameLeaves q t r u
    → SameLeaves p s r u
SameLeaves-trans h k = record {
  keep = λ n pk e. let (a, b) = h.keep n pk e in let (a', b') = k.keep n pk a in (a', b' ∙ b);
  back = λ n pk e. h.back n pk (k.back n pk e);
  same_count = k.same_count ∙ h.same_count;
}

pub set_branch_lem :
    (pt : Ptree) (a b r : ℕ) (br : ℕ → ℕ)
    → 0 < a
    → a < pt.node_base
    → a < pt.cells.size
    → pt.cells.size ≤ 2 ^ 31
    → pt.cells.cell a ≡ node br
    → set_branch pt (a + 0x80000000) b r
      ≡ some (with_cell pt (update pt.cells.cell a (node (update br b r))))
unfolding set_branch store_cell
set_branch_lem pt a b r br pos based inside s h = simp (
  node_ref_lem pt a pos based (omega arith),
  load_node_lem pt a br inside h,
  lt→ltb a pt.cells.size inside,
)

pub set_branch-inner :
    {pt : Ptree} {spot : ℕ → Spot} {a l p : ℕ} (b r : ℕ) (w : IsInner pt spot a l p)
    → pt.cells.size ≤ 2 ^ 31
    → set_branch pt (a + 0x80000000) b r
      ≡ some (with_cell pt (update pt.cells.cell a (node (update w.br b r))))
set_branch-inner {pt} {a = a} b r w s =
    set_branch_lem pt a b r w.br w.positive w.based w.inside s w.here

-- No way goes through a null branch.
pub null-Way :
    {pt : Ptree} {spot : ℕ → Spot} {nfree lfree : List ℕ} (v : IsPtree pt spot nfree lfree)
    (pk k i a n : ℕ) (br : ℕ → ℕ)
    → pt.cells.cell a ≡ node br
    → br (pk_branch pk i) ≡ null_node
    → Target spot pk n
    → Way pt spot pk (suc k) i a n
    → ⊥
null-Way v pk k i a n br ca z t (q, br0, so, co, w) =
    let b = pk_branch pk i in
    let same = some_branch b (ap as_node (sym ca ∙ co)) in
    elim w [
      | inl e ↦
          let nn : n ≡ null_node = sym e ∙ sym same ∙ z in
          elim t [
            | inl s ↦ omega (arith, (v.live.outer_at n pk s).inside, v.spare.small)
            | inr (o, e', l) ↦ omega arith
          ]
      | inr (o, e, w') ↦
          let l = start_positive v pk k (suc i) o n w' in
          let k' : null_node ≡ o + 0x80000000 = sym z ∙ same ∙ e in omega arith
    ]

-- A cell of another kind has not become a leaf.
pub outer_back :
    (spot : ℕ → Spot) (c : ℕ) (kind : Spot) (n pk : ℕ)
    → kind ≢ outer pk
    → update spot c kind n ≡ outer pk
    → spot n ≡ outer pk
outer_back spot c kind n pk h s = elim (Bool-cases (n == c)) [
  | inl e ↦ let k : update spot c kind n ≡ kind = rw e refl in absurd (h (sym k ∙ s))
  | inr e ↦ let k : update spot c kind n ≡ spot n = rw e refl in sym k ∙ s
]

pub null-IsInner :
    (pt : Ptree) (spot : ℕ → Spot) (o l p : ℕ)
    → l ≤ 31
    → 0 < o
    → o < pt.node_base
    → o < pt.cells.size
    → pt.cells.cell o ≡ node null_branches
    → IsInner pt spot o l p
null-IsInner pt spot o l p level positive based inside here = record {
  level = level;
  positive = positive;
  based = based;
  inside = inside;
  br = null_branches;
  here = here;
  children = λ b h. inl refl;
}

-- A leaf in the tree is still there.
pub leaf_kept :
    {pt : Ptree} {spot : ℕ → Spot} {c a i p b r : ℕ} {kind : Spot} {f : ℕ → Cell}
    → Graft pt spot c a i p b r kind f
    → (n pk : ℕ) → spot n ≡ outer pk
    → (update spot c kind n ≡ outer pk) × (f n ≡ pt.cells.cell n)
leaf_kept {spot = spot} {a = a} g n pk s =
    let d : n ≢ a = λ (e : n ≡ a). let k = sym s ∙ ap spot e ∙ g.at in cc in
    (spot_kept g n (outer pk) tt s, cell_kept g n (outer pk) tt s d)

-- A change at a null branch.
module _ {pt : Ptree} {spot : ℕ → Spot} {nfree lfree : List ℕ} (v : IsPtree pt spot nfree lfree)
    {c a i p b r : ℕ} {kind : Spot} {f : ℕ → Cell} (g : Graft pt spot c a i p b r kind f)
    (z : g.br b ≡ null_node) where
  pub Way-Hang :
      (pk k l o n : ℕ)
      → l + k ≡ 32
      → Target spot pk n
      → Way pt spot pk k l o n
      → Way (with_cell pt f) (update spot c kind) pk k l o n
  Way-Hang pk =
      Way-Graft g pk λ k n t e be w. absurd (null-Way v pk k i a n g.br g.was (ap g.br be ∙ z) t w)

  pub Reached-Hang :
      {pk : ℕ} → Reached pt spot pk i a → Reached (with_cell pt f) (update spot c kind) pk i a
  Reached-Hang {pk} h = record {
    at = spot_kept g a (inner i (pk / 4 ^ (32 - i))) tt h.at;
    way = elim (h.way) [
      | inl e ↦ inl e
      | inr w ↦ inr (
          Way-Hang pk 32 0 1 (a + 0x80000000) refl
            (inr (a, refl, (v.live.inner_at a i _ h.at).positive)) w)
    ];
  }

  -- What hangs at the branch is reached.
  pub Way-hung :
      (pk k : ℕ)
      → i + suc k ≡ 32
      → pk_branch pk i ≡ b
      → Way (with_cell pt f) (update spot c kind) pk (suc k) i a r
  Way-hung pk k e be = (
    p,
    update g.br b r,
    spot_kept g a (inner i p) tt g.at,
    g.now,
    inl (rw (be, eq→== b b refl) refl),
  )

  -- The cell that hangs there belongs to the node.
  pub Owned-hung :
      r % 0x80000000 ≡ c
      → ((l q : ℕ) (br0 : ℕ → ℕ) → kind ≡ inner l q → f c ≡ node br0 → (x : ℕ) → br0 x ≡ null_node)
      → Owned (with_cell pt f) (update spot c kind) (update v.live.par c a)
  Owned-hung rc nulls =
      Owned-Graft g (update v.live.par c a) rc (rw (eq→== c c refl) refl)
        (λ l q br0 k h x lt n. absurd (n (nulls l q br0 k h x)))
        (λ o l q br0 s h x lt out n.
          let w = v.live.inner_at o l q s in
          let same = some_branch x (ap as_node (sym w.here ∙ h)) in
          let d : br0 x % 0x80000000 ≢ c =
            below_not_handed c (suc l) (q * 4 + x) (br0 x) (IsPtree-IsForm v) g.handed
              (subst (Child spot (suc l) (q * 4 + x)) same (w.children x lt)) n in
          rw (ne→== (br0 x % 0x80000000) c d) (v.live.owner o l q br0 s h x lt n))

  pub Way-stays :
      (n pk : ℕ) → spot n ≡ outer pk → Way (with_cell pt f) (update spot c kind) pk 32 0 1 n
  Way-stays n pk s = Way-Hang pk 32 0 1 n refl (inl s) (v.live.way n pk s)

-- What a round leaves: a valid tree that has grown by a bounded number of cells.
pub record Hung (pt : Ptree) (spot : ℕ → Spot) (pt' : Ptree) (spot' : ℕ → Spot)
    (nfree lfree : List ℕ) : Type 0 where
  pub valid : IsPtree pt' spot' nfree lfree
  pub leaves : SameLeaves pt spot pt' spot'
  pub grown : pt'.cells.size ≤ pt.cells.size + 32768

pub Kept-SameLeaves :
    {pt : Ptree} {spot : ℕ → Spot} {pt' : Ptree} {spot' : ℕ → Spot}
    → Kept pt spot pt' spot'
    → pt'.count ≡ pt.count
    → SameLeaves pt spot pt' spot'
Kept-SameLeaves kept e = record {
  keep = λ n pk s. kept.same n (outer pk) tt s;
  back = λ n pk s. kept.back n (outer pk) tt s;
  same_count = e;
}
