-- ===== src/Ptree/Find.antt =====
-- `get_leaf` on a valid tree.
use store.Prelude.{
  ℕ, zero, suc, ◌+◌, ◌-◌, ◌*◌, ◌/◌, ◌%◌, ◌^◌, ◌≤◌, ◌<◌, ◌≡◌, ◌≢◌, refl, sym, ap, ◌∙◌, List, arith,
  ◌⊎◌, inl, inr, Option, some, none, ◌==◌, if◌then◌else◌, true, Bool-cases, eq→==, ne→==, ==→eq,
  lt→ltb, ltb_of_ge,
}
use native.Mathlib.Nat.{div-div-eq-div-mul}
use store.Ptree.{
  Ptree, node, leaf, null_node, pk_branch, is_leaf, node_ref, load_node, load_leaf, as_node,
  branches, descend, get_leaf_and_parent, get_leaf,
}
use store.Ptree.Invariant.{Spot, inner, outer, Way, IsInner, IsOuter, IsPtree}

-- One more pair of bits of a key.
pub prefix_suc :
    (pk i : ℕ) → i ≤ 31 → pk / 4 ^ (32 - suc i) ≡ pk / 4 ^ (32 - i) * 4 + pk_branch pk i
prefix_suc pk i h =
    let e : 32 - i ≡ suc (31 - i) = omega arith in
    let e' : 32 - suc i ≡ 31 - i = omega arith in
    let p : 4 ^ (32 - i) ≡ 4 ^ (31 - i) * 4 = rw e (omega arith) in
    let d : pk / 4 ^ (32 - i) ≡ pk / 4 ^ (31 - i) / 4 =
      rw p (sym (div-div-eq-div-mul pk (4 ^ (31 - i)) 4)) in
    rw (e', d) (omega arith)

pub node_ref_lem :
    (pt : Ptree) (o : ℕ)
    → 0 < o
    → o < pt.node_base
    → o < 0x80000000
    → node_ref pt (o + 0x80000000) ≡ some o
unfolding node_ref
node_ref_lem pt o pos based small =
    let off : (o + 0x80000000) % 0x80000000 ≡ o = omega arith in
    simp (off, ne→== o 0 (omega arith), ltb_of_ge pt.node_base o (omega arith)) (ground arith)

pub load_node_lem :
    (pt : Ptree) (o : ℕ) (br : ℕ → ℕ)
    → o < pt.cells.size
    → pt.cells.cell o ≡ node br
    → load_node pt o ≡ some br
unfolding load_node
load_node_lem pt o br l h = simp (lt→ltb o pt.cells.size l, h)

pub load_leaf_lem :
    (pt : Ptree) (n pk block length : ℕ)
    → n < pt.cells.size
    → pt.cells.cell n ≡ leaf pk block length
    → load_leaf pt n ≡ some (pk, block, length)
unfolding load_leaf
load_leaf_lem pt n pk block length l h = simp (lt→ltb n pt.cells.size l, h)

pub branches-inner :
    {pt : Ptree} {spot : ℕ → Spot} {o l p : ℕ} (w : IsInner pt spot o l p)
    → pt.cells.size ≤ 2 ^ 31
    → branches pt (o + 0x80000000) ≡ some w.br
unfolding branches
branches-inner {pt} {o = o} w s =
    rw (node_ref_lem pt o w.positive w.based (omega (arith, w.inside)))
      (load_node_lem pt o w.br w.inside w.here)

high : (pk : ℕ) → pk < 2 ^ 64 → pk / 4 ^ (32 - 0) ≡ 0
high pk l = omega arith

-- What a walk says of a key: the leaf of it and a parent, or that there is no leaf.
abbrev Answer : (ℕ → Spot) → ℕ → Option (ℕ × Option ℕ) → Type 0
Answer spot pk r =
    ((n : ℕ) × (at : ℕ) × (r ≡ some (n, some at)) × (spot n ≡ outer pk)) ⊎ (r ≡ some (0, none))

-- One level of a walk, by what stands at the branch.
pub descend_null :
    (k : ℕ) (pt : Ptree) (pk i at : ℕ) (br : ℕ → ℕ)
    → branches pt at ≡ some br
    → br (pk_branch pk i) ≡ null_node
    → descend (suc k) pt pk i at ≡ some (0, none)
unfolding descend
descend_null k pt pk i at br h e = simp (h, eq→== (br (pk_branch pk i)) null_node e)

pub descend_node :
    (k : ℕ) (pt : Ptree) (pk i at q : ℕ) (br : ℕ → ℕ)
    → branches pt at ≡ some br
    → 0 < q
    → br (pk_branch pk i) ≡ q + 0x80000000
    → descend (suc k) pt pk i at ≡ descend k pt pk (suc i) (q + 0x80000000)
unfolding descend
descend_node k pt pk i at q br h l e =
    simp (h, e, ne→== (q + 0x80000000) null_node (omega arith)) (ground arith)

descend_leaf :
    (k : ℕ) (pt : Ptree) (pk i at n pk' : ℕ) (br : ℕ → ℕ)
    → branches pt at ≡ some br
    → pt.cells.size ≤ 2 ^ 31
    → IsOuter pt n pk'
    → br (pk_branch pk i) ≡ n
    → descend (suc k) pt pk i at ≡ some (if pk == pk' then (n, some at) else (0, none))
unfolding descend
descend_leaf k pt pk i at n pk' br h s w e =
    let l : is_leaf n ≡ true = ground (arith, w.inside) in
    simp (
      h,
      e,
      ne→== n null_node (omega (arith, w.inside)),
      l,
      load_leaf_lem pt n pk' w.block w.length w.inside w.here,
    )

module _ {pt : Ptree} {spot : ℕ → Spot} {nfree lfree : List ℕ}
    (v : IsPtree pt spot nfree lfree) where
  descend-Answer :
      (k pk i o : ℕ)
      → i + k ≡ 32
      → spot o ≡ inner i (pk / 4 ^ (32 - i))
      → Answer spot pk (descend k pt pk i (o + 0x80000000))
  descend-Answer zero pk i o e s = absurd (omega (arith, (v.live.inner_at o i _ s).level))
  descend-Answer (suc k) pk i o e s =
      let w = v.live.inner_at o i _ s in
      let h = branches-inner w v.spare.small in
      let b = pk_branch pk i in
      elim (w.children b (omega arith)) [
        | inl z ↦ inr (descend_null k pt pk i (o + 0x80000000) w.br h z)
        | inr (inl (q, z, sq)) ↦
            let sq' : spot q ≡ inner (suc i) (pk / 4 ^ (32 - suc i)) =
              sq ∙ ap (inner (suc i)) (sym (prefix_suc pk i w.level)) in
            rw
              (descend_node k pt pk i (o + 0x80000000) q w.br h
                (v.live.inner_at q (suc i) _ sq').positive z)
              (descend-Answer k pk (suc i) q (omega arith) sq')
        | inr (inr (pk', sn, z)) ↦
            rw
              (descend_leaf k pt pk i (o + 0x80000000) (w.br b) pk' w.br h v.spare.small
                (v.live.outer_at (w.br b) pk' sn) refl)
              (elim (Bool-cases (pk == pk')) [
                | inl same ↦
                    inl (
                      w.br b,
                      o + 0x80000000,
                      rw same refl,
                      sn ∙ ap outer (sym (==→eq pk pk' same)),
                    )
                | inr other ↦ inr (rw other refl)
              ])
      ]

  pub known_branches :
      (o i p : ℕ) (br : ℕ → ℕ)
      → spot o ≡ inner i p
      → pt.cells.cell o ≡ node br
      → branches pt (o + 0x80000000) ≡ some br
  known_branches o i p br so h =
      let w = v.live.inner_at o i p so in
      branches-inner w v.spare.small ∙ ap as_node (sym w.here ∙ h)

  pub start_positive : (pk k i o n : ℕ) → Way pt spot pk k i o n → 0 < o
  start_positive pk zero i o n w = absurd w
  start_positive pk (suc k) i o n (p, br, so, h, rest) = (v.live.inner_at o i p so).positive

  -- The way of a key is the one that the walk takes.
  pub descend-Way :
      (k pk i o n : ℕ)
      → spot n ≡ outer pk
      → Way pt spot pk k i o n
      → (at : ℕ) × (descend k pt pk i (o + 0x80000000) ≡ some (n, some at))
  descend-Way zero pk i o n s w = absurd w
  descend-Way (suc k) pk i o n s (p, br, so, h, inl e) =
      let b = known_branches o i p br so h in
      (
        o + 0x80000000,
        descend_leaf k pt pk i (o + 0x80000000) n pk br b v.spare.small (v.live.outer_at n pk s) e
            ∙ rw (eq→== pk pk refl) refl,
      )
  descend-Way (suc k) pk i o n s (p, br, so, h, inr (q, e, way)) =
      let b = known_branches o i p br so h in
      rw (descend_node k pt pk i (o + 0x80000000) q br b (start_positive pk k (suc i) q n way) e)
        (descend-Way k pk (suc i) q n s way)

  -- In a valid tree get_leaf finds the leaf of every key that has one.
  pub get_leaf-outer : (n pk : ℕ) → spot n ≡ outer pk → get_leaf pt pk ≡ some n
  unfolding get_leaf get_leaf_and_parent
  get_leaf-outer n pk s = let (at, e) = descend-Way 32 pk 0 1 n s (v.live.way n pk s) in rw e refl

  -- For a 64-bit key get_leaf on a valid tree ends without a fault, with the leaf of the key, or
  -- with 0 where the key has no leaf.
  pub get_leaf_cases :
      (pk : ℕ)
      → pk < 2 ^ 64
      → ((n : ℕ) × (get_leaf pt pk ≡ some n) × (spot n ≡ outer pk))
        ⊎ ((get_leaf pt pk ≡ some 0) × ((n : ℕ) → spot n ≢ outer pk))
  unfolding get_leaf get_leaf_and_parent
  get_leaf_cases pk l =
      elim (descend-Answer 32 pk 0 1 refl (v.live.root ∙ ap (inner 0) (sym (high pk l)))) [
        | inl (n, at, e, s) ↦ inl (n, rw e refl, s)
        | inr e ↦ inr (
          rw e refl,
          λ n s.
              let (at, e') = descend-Way 32 pk 0 1 n s (v.live.way n pk s) in
              let same = sym e' ∙ e in cc,
        )
      ]
