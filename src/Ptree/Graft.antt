-- ===== src/Ptree/Graft.antt =====
-- A cell that has been handed out is linked into the tree: one branch of a node changes, and the cell.
use store.Prelude.{
  ℕ, zero, suc, ◌+◌, ◌<◌, ◌≡◌, ◌≢◌, sym, ap, ◌∙◌, subst, arith, ◌⊎◌, inl, inr, Option, none, some,
  ◌==◌, update, Bool-cases, ne→==, ==→eq, ==→ne, ◌%◌, ◌/◌, ◌^◌, ◌-◌,
}
use store.Ptree.{Ptree, Cell, node, pk_branch, as_node, null_node}
use store.Ptree.Invariant.{Spot, blank, freed, taken, inner, outer, Used, Way, IsForm, Child}

abbrev pub with_cell : Ptree → (ℕ → Cell) → Ptree
with_cell pt f = record pt { cells = record pt.cells { cell = f } }

-- What a reference that a way leads to may be: the leaf of the key, or a node.
abbrev pub Target : (ℕ → Spot) → ℕ → ℕ → Type 0
Target spot pk n = (spot n ≡ outer pk) ⊎ ((o : ℕ) × (n ≡ o + 0x80000000) × (0 < o))

-- The change: the branch `b` of the node `a`, at level `i` below `p`, becomes `r`, and the cell `c`,
-- which was handed out before, gets a use.
pub record Graft (pt : Ptree) (spot : ℕ → Spot) (c a i p b r : ℕ) (kind : Spot) (f : ℕ → Cell)
    : Type 0 where
  pub handed : spot c ≡ taken
  pub at : spot a ≡ inner i p
  pub br : ℕ → ℕ
  pub was : pt.cells.cell a ≡ node br
  pub now : f a ≡ node (update br b r)
  pub others : (j : ℕ) → j ≢ a → j ≢ c → f j ≡ pt.cells.cell j

level_of : Spot → ℕ
level_of (inner l p) = l
level_of _ = 0

pub inner_level : (l q i p : ℕ) → inner l q ≡ inner i p → l ≡ i
unfolding level_of
inner_level l q i p e = ap level_of e

key_of : Spot → ℕ
key_of (outer pk) = pk
key_of _ = 0

pub outer_key : (pk pk' : ℕ) → outer pk ≡ outer pk' → pk ≡ pk'
unfolding key_of
outer_key pk pk' e = ap key_of e

-- A cell in the tree is not the one that is linked in.
pub not_handed :
    (spot : ℕ → Spot) (c j : ℕ) (x : Spot) → spot c ≡ taken → Used x → spot j ≡ x → j ≢ c
not_handed spot c j blank h u e k = absurd u
not_handed spot c j freed h u e k = absurd u
not_handed spot c j taken h u e k = absurd u
not_handed spot c j (inner l q) h u e k = let k' = ap spot k in cc
not_handed spot c j (outer pk) h u e k = let k' = ap spot k in cc

pub some_branch : {f g : ℕ → ℕ} (x : ℕ) → some f ≡ some g → f x ≡ g x
some_branch {f} x e = ap (λ (m : Option (ℕ → ℕ)). elim m [ none ↦ f x | some h ↦ h x ]) e

-- A way is there after a change, where those from the next level are.
abbrev Carried : Ptree → (ℕ → Spot) → Ptree → (ℕ → Spot) → ℕ → ℕ → ℕ → ℕ → ℕ → Type 0
Carried pt spot pt' spot' pk k n o l =
    l + suc k ≡ 32
    → ((o' : ℕ) → Way pt spot pk k (suc l) o' n → Way pt' spot' pk k (suc l) o' n)
    → Way pt spot pk (suc k) l o n
    → Way pt' spot' pk (suc k) l o n

module _ {pt : Ptree} {spot : ℕ → Spot} {c a i p b r : ℕ} {kind : Spot} {f : ℕ → Cell}
    (g : Graft pt spot c a i p b r kind f) where
  pub spot_kept : (j : ℕ) (x : Spot) → Used x → spot j ≡ x → update spot c kind j ≡ x
  spot_kept j x u e = rw (ne→== j c (not_handed spot c j x g.handed u e)) e

  pub cell_kept : (j : ℕ) (x : Spot) → Used x → spot j ≡ x → j ≢ a → f j ≡ pt.cells.cell j
  cell_kept j x u e d = g.others j d (not_handed spot c j x g.handed u e)

  -- A way from the node whose branch changes.
  branch_carried :
      (pk k n : ℕ)
      → Target spot pk n
      → i + suc k ≡ 32
      → (pk_branch pk i ≡ b
          → Way pt spot pk (suc k) i a n
          → Way (with_cell pt f) (update spot c kind) pk (suc k) i a n)
      → ((o : ℕ)
          → Way pt spot pk k (suc i) o n
          → Way (with_cell pt f) (update spot c kind) pk k (suc i) o n)
      → Way pt spot pk (suc k) i a n
      → Way (with_cell pt f) (update spot c kind) pk (suc k) i a n
  branch_carried pk k n t e through ih w = elim (Bool-cases (pk_branch pk i == b)) [
    | inl this ↦ through (==→eq (pk_branch pk i) b this) w
    | inr that ↦
        let (q, br0, so, co, z) = w in
        let old : some g.br ≡ some br0 = ap as_node (sym g.was ∙ co) in
        let x = pk_branch pk i in
        let same : update g.br b r x ≡ br0 x = rw that (some_branch x old) in
        (
          q,
          update g.br b r,
          spot_kept a (inner i q) tt so,
          g.now,
          elim z [ inl z' ↦ inl (same ∙ z') | inr (o, z', w') ↦ inr (o, same ∙ z', ih o w') ],
        )
  ]

  -- The ways that do not go through the branch are still there.
  pub Way-Graft :
      (pk : ℕ)
      → ((k n : ℕ)
          → Target spot pk n
          → i + suc k ≡ 32
          → pk_branch pk i ≡ b
          → Way pt spot pk (suc k) i a n
          → Way (with_cell pt f) (update spot c kind) pk (suc k) i a n)
      → (k l o n : ℕ) → l + k ≡ 32
      → Target spot pk n
      → Way pt spot pk k l o n
      → Way (with_cell pt f) (update spot c kind) pk k l o n
  Way-Graft pk through zero l o n e t w = w
  Way-Graft pk through (suc k) l o n e t (q, br0, so, co, w) =
      let ih : (o' : ℕ)
          → Way pt spot pk k (suc l) o' n
          → Way (with_cell pt f) (update spot c kind) pk k (suc l) o' n =
        λ o' w'. Way-Graft pk through k (suc l) o' n (omega arith) t w' in
      elim (Bool-cases (o == a)) [
        | inl here ↦
            let oa : o ≡ a = ==→eq o a here in
            let li : l ≡ i = inner_level l q i p (sym so ∙ ap spot oa ∙ g.at) in
            subst (λ x. Carried pt spot (with_cell pt f) (update spot c kind) pk k n x l) (sym oa)
              (subst (λ y. Carried pt spot (with_cell pt f) (update spot c kind) pk k n a y)
                (sym li) (λ e' h. branch_carried pk k n t e' (through k n t e') h))
              e ih (q, br0, so, co, w)
        | inr other ↦ (
          q,
          br0,
          spot_kept o (inner l q) tt so,
          cell_kept o (inner l q) tt so (==→ne o a other) ∙ co,
          elim w [ inl z ↦ inl z | inr (o', z, w') ↦ inr (o', z, ih o' w') ],
        )
      ]

-- What a branch that is not null leads to.
pub below_cases :
    {pt : Ptree} {spot : ℕ → Spot} (l q r : ℕ)
    → IsForm pt spot
    → Child spot l q r
    → r ≢ null_node
    → ((r ≡ r % 0x80000000 + 0x80000000) × (spot (r % 0x80000000) ≡ inner l q))
      ⊎ ((pk : ℕ) × (r ≡ r % 0x80000000)
          × (spot (r % 0x80000000) ≡ outer pk)
          × (pk / 4 ^ (32 - l) ≡ q))
below_cases l q r v (inl e) n = absurd (n e)
below_cases {spot = spot} l q r v (inr (inl (o, e, s))) n =
    let i = (v.inner_at o l q s).inside in
    let small = v.small in
    let same : o ≡ r % 0x80000000 = omega arith in inl (omega arith, sym (ap spot same) ∙ s)
below_cases {spot = spot} l q r v (inr (inr (pk, s, e))) n =
    let i = (v.outer_at r pk s).inside in
    let small = v.small in
    let same : r ≡ r % 0x80000000 = omega arith in inr (pk, same, sym (ap spot same) ∙ s, e)

-- Such a cell is in the tree.
pub below_not_handed :
    {pt : Ptree} {spot : ℕ → Spot} (c l q r : ℕ)
    → IsForm pt spot
    → spot c ≡ taken
    → Child spot l q r
    → r ≢ null_node
    → r % 0x80000000 ≢ c
below_not_handed {spot = spot} c l q r v h k n = elim (below_cases l q r v k n) [
  | inl (e, s) ↦ not_handed spot c (r % 0x80000000) (inner l q) h tt s
  | inr (pk, e, s, z) ↦ not_handed spot c (r % 0x80000000) (outer pk) h tt s
]
