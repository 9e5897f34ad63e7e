-- ===== src/Ptree/Reached.antt =====
-- The node that a walk for a key has reached.
use store.Prelude.{
  ℕ, zero, suc, ◌+◌, ◌-◌, ◌*◌, ◌/◌, ◌^◌, ◌<◌, ◌≡◌, ◌≢◌, refl, sym, ap, ap₂, ◌∙◌, subst, List, arith,
  ◌⊎◌, inl, inr, some,
}
use store.Ptree.{Ptree, node, null_node, root_node, descend, pk_branch, as_node}
use store.Ptree.Invariant.{
  Spot, inner, outer, Child, Way, IsForm, IsPtree, IsPtree-IsForm, Kept, Way-Kept,
}
use store.Ptree.Graft.{some_branch, inner_level}
use store.Ptree.Find.{
  prefix_suc, known_branches, start_positive, descend_null, descend_node, descend-Way,
}

pub record Reached (pt : Ptree) (spot : ℕ → Spot) (pk i a : ℕ) : Type 0 where
  pub at : spot a ≡ inner i (pk / 4 ^ (32 - i))
  pub way : ((i ≡ 0) × (a ≡ 1)) ⊎ Way pt spot pk 32 0 1 (a + 0x80000000)

-- A branch that leads to a node leads to a node of the next level.
leads_below :
    {pt : Ptree} {spot : ℕ → Spot} (l p a : ℕ)
    → IsForm pt spot
    → 0 < a
    → Child spot l p (a + 0x80000000)
    → spot a ≡ inner l p
leads_below l p a v h (inl e) = absurd (omega (arith, e, h))
leads_below {spot = spot} l p a v h (inr (inl (o, e, s))) =
    let oa : o ≡ a = omega (arith, e) in sym (ap spot oa) ∙ s
leads_below l p a v h (inr (inr (pk, s, e))) =
    absurd (omega (arith, (v.outer_at (a + 0x80000000) pk s).inside, v.small))

-- The level of the node that a branch leads to.
level_below :
    {pt : Ptree} {spot : ℕ → Spot}
    → IsForm pt spot
    → (pk l o q i p a : ℕ) (br : ℕ → ℕ) → 0 < a
    → spot o ≡ inner l q
    → pt.cells.cell o ≡ node br
    → br (pk_branch pk l) ≡ a + 0x80000000
    → spot a ≡ inner i p
    → i ≡ suc l
level_below {pt} {spot} v pk l o q i p a br h so co z s =
    let w = v.inner_at o l q so in
    let b = pk_branch pk l in
    let old : some w.br ≡ some br = ap as_node (sym w.here ∙ co) in
    let c : Child spot (suc l) (q * 4 + b) (a + 0x80000000) =
      subst (Child spot (suc l) (q * 4 + b)) (some_branch b old ∙ z) (w.children b (omega arith)) in
    let s' = leads_below (suc l) (q * 4 + b) a v h c in
    inner_level i p (suc l) (q * 4 + b) (sym s ∙ s')

-- A way to a node goes on from there.
pub Way-compose :
    {pt : Ptree} {spot : ℕ → Spot}
    → IsForm pt spot
    → (pk k l o i p a n k' : ℕ) → 0 < a
    → l + k ≡ 32
    → i + k' ≡ 32
    → spot a ≡ inner i p
    → Way pt spot pk k l o (a + 0x80000000)
    → Way pt spot pk k' i a n
    → Way pt spot pk k l o n
Way-compose v pk zero l o i p a n k' h e e' s w w' = absurd w
Way-compose v pk (suc k) l o i p a n k' h e e' s (q, br, so, co, inr (o', z, w)) w' =
    (q, br, so, co, inr (o', z, Way-compose v pk k (suc l) o' i p a n k' h (omega arith) e' s w w'))
Way-compose {pt} {spot} v pk (suc k) l o i p a n k' h e e' s (q, br, so, co, inl z) w' =
    let il = level_below v pk l o q i p a br h so co z s in
    let kk : k' ≡ k = omega (arith, il, e, e') in
    (
      q,
      br,
      so,
      co,
      inr (
        a,
        z,
        subst (λ x. Way pt spot pk x (suc l) a n) kk (subst (λ y. Way pt spot pk k' y a n) il w'),
      ),
    )

pub Reached-Way :
    {pt : Ptree} {spot : ℕ → Spot} {pk i a : ℕ}
    → IsForm pt spot
    → Reached pt spot pk i a
    → (n k : ℕ) → i + k ≡ 32
    → Way pt spot pk k i a n
    → Way pt spot pk 32 0 1 n
Reached-Way {pt} {spot} {pk = pk} {i} {a} v h n k e w = elim (h.way) [
  | inl (iz, ar) ↦
      let kk : k ≡ 32 = omega (arith, iz, e) in
      subst (λ x. Way pt spot pk 32 0 x n) ar
        (subst (λ x. Way pt spot pk 32 x a n) iz (subst (λ x. Way pt spot pk x i a n) kk w))
  | inr way ↦
      Way-compose v pk 32 0 1 i (pk / 4 ^ (32 - i)) a n k (v.inner_at a i _ h.at).positive refl e
        h.at way w
]

pub Reached-Kept :
    {pt : Ptree} {spot : ℕ → Spot} {pt' : Ptree} {spot' : ℕ → Spot} {pk i a : ℕ}
    → Kept pt spot pt' spot'
    → Reached pt spot pk i a
    → Reached pt' spot' pk i a
Reached-Kept {pk = pk} {i} {a} kept h = record {
  at = (kept.same a (inner i (pk / 4 ^ (32 - i))) tt h.at).0;
  way = elim (h.way) [ inl e ↦ inl e | inr w ↦ inr (Way-Kept kept pk 32 0 1 (a + 0x80000000) w) ];
}

-- The next level.
pub Reached-below :
    {pt : Ptree} {spot : ℕ → Spot} {pk i a : ℕ}
    → IsForm pt spot
    → Reached pt spot pk i a
    → (q : ℕ) → (br : ℕ → ℕ) → pt.cells.cell a ≡ node br
    → br (pk_branch pk i) ≡ q + 0x80000000
    → 0 < q
    → Reached pt spot pk (suc i) q
Reached-below {pt} {spot} {pk = pk} {i} {a} v h q br ca e pos =
    let w = v.inner_at a i _ h.at in
    let b = pk_branch pk i in
    let old : some w.br ≡ some br = ap as_node (sym w.here ∙ ca) in
    let c =
      subst (Child spot (suc i) (pk / 4 ^ (32 - i) * 4 + b)) (some_branch b old ∙ e)
        (w.children b (omega arith)) in
    let level : i + suc (31 - i) ≡ 32 = omega (arith, w.level) in
    record {
      at = leads_below (suc i) _ q v pos c ∙ ap (inner (suc i)) (sym (prefix_suc pk i w.level));
      way = inr (Reached-Way v h (q + 0x80000000) (suc (31 - i)) level (_, br, h.at, ca, inl e));
    }

-- The walk for a key comes by the node that the key has reached.
descend_along :
    {pt : Ptree} {spot : ℕ → Spot} {nfree lfree : List ℕ} (v : IsPtree pt spot nfree lfree)
    (pk k l o i p a k' : ℕ)
    → 0 < a
    → l + k ≡ 32
    → i + k' ≡ 32
    → spot a ≡ inner i p
    → Way pt spot pk k l o (a + 0x80000000)
    → descend k pt pk l (o + 0x80000000) ≡ descend k' pt pk i (a + 0x80000000)
descend_along v pk zero l o i p a k' h e e' s w = absurd w
descend_along {pt} v pk (suc k) l o i p a k' h e e' s (q, br, so, co, inr (o', z, w)) =
    descend_node k pt pk l (o + 0x80000000) o' br (known_branches v o l q br so co)
      (start_positive v pk k (suc l) o' (a + 0x80000000) w) z
    ∙ descend_along v pk k (suc l) o' i p a k' h (omega arith) e' s w
descend_along {pt} v pk (suc k) l o i p a k' h e e' s (q, br, so, co, inl z) =
    let il = level_below (IsPtree-IsForm v) pk l o q i p a br h so co z s in
    let kk : k ≡ k' = omega (arith, il, e, e') in
    descend_node k pt pk l (o + 0x80000000) a br (known_branches v o l q br so co) h z
    ∙ ap₂ (λ x y. descend x pt pk y (a + 0x80000000)) kk (sym il)

descend-Reached :
    {pt : Ptree} {spot : ℕ → Spot} {nfree lfree : List ℕ} {pk i a : ℕ}
    → IsPtree pt spot nfree lfree
    → Reached pt spot pk i a
    → (k : ℕ) → i + k ≡ 32
    → descend 32 pt pk 0 root_node ≡ descend k pt pk i (a + 0x80000000)
descend-Reached {pt} {pk = pk} {i} {a} v h k e = elim (h.way) [
  | inl (iz, ar) ↦
      let kk : 32 ≡ k = omega (arith, iz, e) in
      ap (λ x. descend x pt pk 0 root_node) kk
      ∙ ap₂ (λ x y. descend k pt pk x (y + 0x80000000)) (sym iz) (sym ar)
  | inr w ↦
      descend_along v pk 32 0 1 i (pk / 4 ^ (32 - i)) a k (v.live.inner_at a i _ h.at).positive refl
        e h.at w
]

-- A key that has reached a null branch has no leaf.
pub null-missing :
    {pt : Ptree} {spot : ℕ → Spot} {nfree lfree : List ℕ} {pk i a : ℕ}
    → IsPtree pt spot nfree lfree
    → Reached pt spot pk i a
    → (br : ℕ → ℕ) → pt.cells.cell a ≡ node br
    → br (pk_branch pk i) ≡ null_node
    → (m : ℕ) → spot m ≢ outer pk
null-missing {pt} {pk = pk} {i} {a} v h br ca z m s =
    let w = v.live.inner_at a i _ h.at in
    let k = 31 - i in
    let level : i + suc k ≡ 32 = omega (arith, w.level) in
    let (at, e) = descend-Way v 32 pk 0 1 m s (v.live.way m pk s) in
    let none_there =
      descend-Reached v h (suc k) level
      ∙ descend_null k pt pk i (a + 0x80000000) br (known_branches v a i _ br h.at ca) z in
    let same = sym e ∙ none_there in cc
