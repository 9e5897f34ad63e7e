-- ===== src/Ptree/Invariant.antt =====
-- Valid trees: what each cell is used for, and the ways from the root to the leaves.
use store.Prelude.{
  ℕ, suc, zero, ◌+◌, ◌-◌, ◌*◌, ◌/◌, ◌%◌, ◌^◌, ◌≤◌, ◌<◌, ◌≡◌, ◌⊎◌, inl, inr, ◌∙◌, List, [], ◌∷◌,
  Fresh, arith, ◌≢◌, sym,
}
use store.Ptree.{Ptree, node, leaf, null_node, pk_branch}

-- The use of a cell: none so far, on a free list, handed out and not linked yet, a node at a level
-- with the bits of the keys below it, or the leaf of a key.
pub data Spot : Type 0 where
  blank : Spot
  freed : Spot
  taken : Spot
  inner : ℕ → ℕ → Spot
  outer : ℕ → Spot

-- Whether a use is in the tree.
abbrev pub Used : Spot → Type 0
Used blank = ⊥
Used freed = ⊥
Used taken = ⊥
Used (inner l p) = Unit
Used (outer pk) = Unit

-- What a branch leads to, below which the first `l` pairs of bits of every key are `p`.
abbrev pub Child : (ℕ → Spot) → ℕ → ℕ → ℕ → Type 0
Child spot l p n =
    (n ≡ null_node)
    ⊎ ((o : ℕ) × (n ≡ o + 0x80000000) × (spot o ≡ inner l p))
    ⊎ ((pk : ℕ) × (spot n ≡ outer pk) × (pk / 4 ^ (32 - l) ≡ p))

-- The way of a key from a node at level `i`, `k` levels left, to a leaf.
abbrev pub Way : Ptree → (ℕ → Spot) → ℕ → ℕ → ℕ → ℕ → ℕ → Type 0
Way pt spot pk zero i o n = ⊥
Way pt spot pk (suc k) i o n =
    (p : ℕ) × (br : ℕ → ℕ) × (spot o ≡ inner i p)
    × (pt.cells.cell o ≡ node br)
    × ((br (pk_branch pk i) ≡ n)
        ⊎ ((q : ℕ) × (br (pk_branch pk i) ≡ q + 0x80000000) × Way pt spot pk k (suc i) q n))

pub record IsInner (pt : Ptree) (spot : ℕ → Spot) (o l p : ℕ) : Type 0 where
  pub level : l ≤ 31
  pub positive : 0 < o
  pub based : o < pt.node_base
  pub inside : o < pt.cells.size
  pub br : ℕ → ℕ
  pub here : pt.cells.cell o ≡ node br
  pub children : (b : ℕ) → b < 4 → Child spot (suc l) (p * 4 + b) (br b)

pub record IsOuter (pt : Ptree) (n pk : ℕ) : Type 0 where
  pub positive : 0 < n
  pub inside : n < pt.cells.size
  pub word : pk < 2 ^ 64
  pub block : ℕ
  pub length : ℕ
  pub here : pt.cells.cell n ≡ leaf pk block length

-- Each cell that a branch leads to belongs to one node.
abbrev pub Owned : Ptree → (ℕ → Spot) → (ℕ → ℕ) → Type 0
Owned pt spot par =
    (o l p : ℕ) (br : ℕ → ℕ)
    → spot o ≡ inner l p
    → pt.cells.cell o ≡ node br
    → (b : ℕ) → b < 4
    → br b ≢ null_node
    → par (br b % 0x80000000) ≡ o

-- The part of a valid tree below its root; `par` is the node that a cell hangs at.
pub record IsLive (pt : Ptree) (spot : ℕ → Spot) : Type 0 where
  pub par : ℕ → ℕ
  pub owner : Owned pt spot par
  pub root : spot 1 ≡ inner 0 0
  pub inner_at : (o l p : ℕ) → spot o ≡ inner l p → IsInner pt spot o l p
  pub outer_at : (n pk : ℕ) → spot n ≡ outer pk → IsOuter pt n pk
  pub way : (n pk : ℕ) → spot n ≡ outer pk → Way pt spot pk 32 0 1 n

-- The lists of free nodes and of free leaves.
abbrev pub FreeNodes : Ptree → (ℕ → Spot) → ℕ → List ℕ → Type 0
FreeNodes pt spot at [] = at ≡ null_node
FreeNodes pt spot at (o ∷ os) =
    (at ≡ o + 0x80000000)
    × (spot o ≡ freed)
    × (o < pt.node_base)
    × (o < pt.cells.size)
    × (0 < o)
    × Fresh o os
    × ((br : ℕ → ℕ) × (pt.cells.cell o ≡ node br) × FreeNodes pt spot (br 0) os)

abbrev pub FreeLeaves : Ptree → (ℕ → Spot) → ℕ → List ℕ → Type 0
FreeLeaves pt spot at [] = at ≡ 0
FreeLeaves pt spot at (n ∷ ns) =
    (at ≡ n)
    × (spot n ≡ freed)
    × (n < pt.cells.size)
    × (0 < n)
    × Fresh n ns
    × ((pk block length : ℕ) × (pt.cells.cell n ≡ leaf pk block length)
        × FreeLeaves pt spot block ns)

-- The rest of the file: the two ranges that fresh cells are taken from, and the free lists.
pub record IsSpare (pt : Ptree) (spot : ℕ → Spot) (nfree lfree : List ℕ) : Type 0 where
  pub small : pt.cells.size ≤ 2 ^ 31
  pub positive : (0 < pt.node_base) × (0 < pt.leaf_base)
  pub node_fits : (pt.node_base ≤ pt.node_size) × (pt.node_size ≤ pt.cells.size)
  pub leaf_fits : (pt.leaf_base ≤ pt.leaf_size) × (pt.leaf_size ≤ pt.cells.size)
  pub ranges : (pt.node_size ≤ pt.leaf_base) ⊎ (pt.leaf_size ≤ pt.node_base)
  pub blank_nodes : (j : ℕ) → pt.node_base ≤ j → j < pt.node_size → spot j ≡ blank
  pub blank_leaves : (j : ℕ) → pt.leaf_base ≤ j → j < pt.leaf_size → spot j ≡ blank
  pub blank_rest : (j : ℕ) → pt.cells.size ≤ j → spot j ≡ blank
  pub free_nodes : FreeNodes pt spot pt.node_free nfree
  pub free_leaves : FreeLeaves pt spot pt.leaf_free lfree

-- A valid tree.
pub record IsPtree (pt : Ptree) (spot : ℕ → Spot) (nfree lfree : List ℕ) : Type 0 where
  pub live : IsLive pt spot
  pub spare : IsSpare pt spot nfree lfree

-- The form of the tree, without the ways.
pub record IsForm (pt : Ptree) (spot : ℕ → Spot) : Type 0 where
  pub inner_at : (o l p : ℕ) → spot o ≡ inner l p → IsInner pt spot o l p
  pub outer_at : (n pk : ℕ) → spot n ≡ outer pk → IsOuter pt n pk
  pub small : pt.cells.size ≤ 2 ^ 31

pub IsPtree-IsForm :
    {pt : Ptree} {spot : ℕ → Spot} {nfree lfree : List ℕ}
    → IsPtree pt spot nfree lfree
    → IsForm pt spot
IsPtree-IsForm v = record {
  inner_at = v.live.inner_at;
  outer_at = v.live.outer_at;
  small = v.spare.small;
}

-- The tree of `pt` is in `pt'`, with the same cells and no others.
pub record Kept (pt : Ptree) (spot : ℕ → Spot) (pt' : Ptree) (spot' : ℕ → Spot) : Type 0 where
  pub same :
      (j : ℕ) (x : Spot)
      → Used x
      → spot j ≡ x
      → (spot' j ≡ x) × (pt'.cells.cell j ≡ pt.cells.cell j)
  pub back : (j : ℕ) (x : Spot) → Used x → spot' j ≡ x → spot j ≡ x
  pub based : pt.node_base ≤ pt'.node_base
  pub sized : pt.cells.size ≤ pt'.cells.size

module _ {pt pt' : Ptree} {spot spot' : ℕ → Spot} (kept : Kept pt spot pt' spot') where
  pub Way-Kept : (pk k i o n : ℕ) → Way pt spot pk k i o n → Way pt' spot' pk k i o n
  Way-Kept pk zero i o n w = w
  Way-Kept pk (suc k) i o n (p, br, s, h, inl e) =
      let (s', c) = kept.same o (inner i p) tt s in (p, br, s', c ∙ h, inl e)
  Way-Kept pk (suc k) i o n (p, br, s, h, inr (q, e, w)) =
      let (s', c) = kept.same o (inner i p) tt s in
      (p, br, s', c ∙ h, inr (q, e, Way-Kept pk k (suc i) q n w))

  Child-Kept : (l p n : ℕ) → Child spot l p n → Child spot' l p n
  Child-Kept l p n (inl e) = inl e
  Child-Kept l p n (inr (inl (o, e, s))) = inr (inl (o, e, (kept.same o (inner l p) tt s).0))
  Child-Kept l p n (inr (inr (pk, s, e))) = inr (inr (pk, (kept.same n (outer pk) tt s).0, e))

  pub IsLive-Kept : IsLive pt spot → IsLive pt' spot'
  IsLive-Kept v = record {
    par = v.par;
    owner = λ o l p br s c.
        let s0 = kept.back o (inner l p) tt s in
        v.owner o l p br s0 (sym (kept.same o (inner l p) tt s0).1 ∙ c);
    root = (kept.same 1 (inner 0 0) tt v.root).0;
    inner_at = λ o l p s.
        let s0 = kept.back o (inner l p) tt s in
        let w = v.inner_at o l p s0 in
        record {
          level = w.level;
          positive = w.positive;
          based = omega (arith, w.based, kept.based);
          inside = omega (arith, w.inside, kept.sized);
          br = w.br;
          here = (kept.same o (inner l p) tt s0).1 ∙ w.here;
          children = λ b h. Child-Kept (suc l) (p * 4 + b) (w.br b) (w.children b h);
        };
    outer_at = λ n pk s.
        let s0 = kept.back n (outer pk) tt s in
        let w = v.outer_at n pk s0 in
        record {
          positive = w.positive;
          inside = omega (arith, w.inside, kept.sized);
          word = w.word;
          block = w.block;
          length = w.length;
          here = (kept.same n (outer pk) tt s0).1 ∙ w.here;
        };
    way = λ n pk s. Way-Kept pk 32 0 1 n (v.way n pk (kept.back n (outer pk) tt s));
  }
