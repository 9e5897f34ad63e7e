-- ===== src/Ptree/Changed.antt =====
-- Calls that change one cell of a tree.
use store.Prelude.{ℕ, ◌≤◌, ◌<◌, ◌≡◌, ◌≢◌, sym, ◌∙◌, ap, subst, List, [], ◌∷◌, Fresh, arith}
use store.Ptree.{Ptree, node, leaf}
use store.Ptree.Invariant.{
  Spot, blank, freed, taken, inner, outer, Used, FreeNodes, FreeLeaves, IsLive, Kept,
}

pub record Changed (c : ℕ) (pt : Ptree) (spot : ℕ → Spot) (pt' : Ptree) (spot' : ℕ → Spot)
    : Type 0 where
  pub spots : (j : ℕ) → j ≢ c → spot' j ≡ spot j
  pub same : (j : ℕ) → j ≢ c → j < pt.cells.size → pt'.cells.cell j ≡ pt.cells.cell j
  pub based : pt.node_base ≤ pt'.node_base
  pub sized : pt.cells.size ≤ pt'.cells.size

-- A cell of another use stands on no free list.
pub FreeNodes-Fresh :
    (pt : Ptree) (spot : ℕ → Spot) (c at : ℕ) (os : List ℕ)
    → FreeNodes pt spot at os
    → spot c ≢ freed
    → Fresh c os
FreeNodes-Fresh pt spot c at [] f h = tt
FreeNodes-Fresh pt spot c at (o ∷ os) f h =
    ((λ e. h (subst (λ x. spot x ≡ freed) e f.1)), FreeNodes-Fresh pt spot c (f.6.0 0) os f.6.2 h)

pub FreeLeaves-Fresh :
    (pt : Ptree) (spot : ℕ → Spot) (c at : ℕ) (ns : List ℕ)
    → FreeLeaves pt spot at ns
    → spot c ≢ freed
    → Fresh c ns
FreeLeaves-Fresh pt spot c at [] f h = tt
FreeLeaves-Fresh pt spot c at (n ∷ ns) f h =
    ((λ e. h (subst (λ x. spot x ≡ freed) e f.1)), FreeLeaves-Fresh pt spot c f.5.1 ns f.5.4 h)

-- Nor does a cell of the other kind.
pub node-Fresh :
    (pt : Ptree) (spot : ℕ → Spot) (c at : ℕ) (br : ℕ → ℕ) (ns : List ℕ)
    → FreeLeaves pt spot at ns
    → pt.cells.cell c ≡ node br
    → Fresh c ns
node-Fresh pt spot c at br [] f h = tt
node-Fresh pt spot c at br (n ∷ ns) f h =
    ((λ e. let k = ap pt.cells.cell e in cc), node-Fresh pt spot c f.5.1 br ns f.5.4 h)

pub leaf-Fresh :
    (pt : Ptree) (spot : ℕ → Spot) (c at pk block length : ℕ) (os : List ℕ)
    → FreeNodes pt spot at os
    → pt.cells.cell c ≡ leaf pk block length
    → Fresh c os
leaf-Fresh pt spot c at pk block length [] f h = tt
leaf-Fresh pt spot c at pk block length (o ∷ os) f h = (
  (λ e. let k = ap pt.cells.cell e in cc),
  leaf-Fresh pt spot c (f.6.0 0) pk block length os f.6.2 h,
)

-- A cell in the tree is in the file.
Used-inside :
    {pt : Ptree} {spot : ℕ → Spot}
    → IsLive pt spot
    → (j : ℕ) (x : Spot) → Used x
    → spot j ≡ x
    → j < pt.cells.size
Used-inside v j blank u e = absurd u
Used-inside v j freed u e = absurd u
Used-inside v j taken u e = absurd u
Used-inside v j (inner l p) u e = (v.inner_at j l p e).inside
Used-inside v j (outer pk) u e = (v.outer_at j pk e).inside

module _ {c : ℕ} {pt pt' : Ptree} {spot spot' : ℕ → Spot}
    (changed : Changed c pt spot pt' spot') where
  pub FreeNodes-Changed :
      (at : ℕ) (os : List ℕ) → Fresh c os → FreeNodes pt spot at os → FreeNodes pt' spot' at os
  FreeNodes-Changed at [] a f = f
  FreeNodes-Changed at (o ∷ os) a f = (
    f.0,
    changed.spots o a.0 ∙ f.1,
    omega (arith, f.2, changed.based),
    omega (arith, f.3, changed.sized),
    f.4,
    f.5,
    (f.6.0, changed.same o a.0 f.3 ∙ f.6.1, FreeNodes-Changed (f.6.0 0) os a.1 f.6.2),
  )

  pub FreeLeaves-Changed :
      (at : ℕ) (ns : List ℕ) → Fresh c ns → FreeLeaves pt spot at ns → FreeLeaves pt' spot' at ns
  FreeLeaves-Changed at [] a f = f
  FreeLeaves-Changed at (n ∷ ns) a f = (
    f.0,
    changed.spots n a.0 ∙ f.1,
    omega (arith, f.2, changed.sized),
    f.3,
    f.4,
    (f.5.0, f.5.1, f.5.2, changed.same n a.0 f.2 ∙ f.5.3, FreeLeaves-Changed f.5.1 ns a.1 f.5.4),
  )

  -- A cell outside the tree before and after.
  pub Kept-Changed :
      IsLive pt spot
      → ((x : Spot) → Used x → spot c ≢ x)
      → ((x : Spot) → Used x → spot' c ≢ x)
      → Kept pt spot pt' spot'
  Kept-Changed v h h' = record {
    same = λ j x u e.
        let ne : j ≢ c = λ (k : j ≡ c). h x u (subst (λ z. spot z ≡ x) k e) in
        (changed.spots j ne ∙ e, changed.same j ne (Used-inside v j x u e));
    back = λ j x u e.
        let ne : j ≢ c = λ (k : j ≡ c). h' x u (subst (λ z. spot' z ≡ x) k e) in
        sym (changed.spots j ne) ∙ e;
    based = changed.based;
    sized = changed.sized;
  }
