-- ===== src/Ptree/Remove/CollapseWay.antt =====
-- `collapse_by_pk`: the way to the empty leaf is cleared.
use store.Prelude.{
  ℕ, zero, suc, ◌+◌, ◌<◌, ◌≡◌, ◌≢◌, refl, sym, ap, ◌∙◌, List, ◌∷◌, arith, inl, inr, some, ◌>>=◌,
  ◌==◌, if◌then◌else◌, false, update, Bool-cases, ne→==,
}
use store.Ptree.{Ptree, node, leaf, null_node, is_leaf, pk_branch, branches, free_node, set_branch}
use store.Ptree.Invariant.{Spot, freed, inner, outer, Way, IsPtree}
use store.Ptree.Graft.{inner_level}
use store.Ptree.Find.{known_branches, start_positive}
use store.Ptree.Remove.{
  Action, stay, cull, branch_count, emptied, drop_node, collapse_from, collapse_by_pk,
}
use store.Ptree.Remove.Pruned.{drop_node-Pruned}
use store.Ptree.Remove.Collapse.{emptied_lem, Collapsed, action_cases, leaf-Collapsed}

start_spot :
    (pt : Ptree) (spot : ℕ → Spot) (pk k i o n : ℕ)
    → Way pt spot pk k i o n
    → (p : ℕ) × (spot o ≡ inner i p)
start_spot pt spot pk zero i o n w = absurd w
start_spot pt spot pk (suc k) i o n (p, br, s, h, rest) = (p, s)

-- The call below, at the branch of the node.
collapse_below :
    (k : ℕ) (pt pt1 : Ptree) (pk i at to : ℕ) (br : ℕ → ℕ) (action : Action)
    → branches pt at ≡ some br
    → br (pk_branch pk i) ≡ to + 0x80000000
    → 0 < to
    → collapse_from k pt pk (to + 0x80000000) (suc i) ≡ some (action, pt1)
    → collapse_from (suc k) pt pk at i
      ≡ (drop_node pt1 at (pk_branch pk i) (to + 0x80000000) action >>= λ pt2. emptied pt2 at)
unfolding collapse_from
collapse_below k pt pt1 pk i at to br action h e l run =
    let node_yes : is_leaf (to + 0x80000000) ≡ false = ground arith in
    simp (h, e, ne→== (to + 0x80000000) null_node (omega arith), node_yes, run)

-- What follows the call below, by its answer.
stay_end :
    (pt : Ptree) (at b to : ℕ)
    → (drop_node pt at b to stay >>= λ pt2. emptied pt2 at) ≡ emptied pt at
unfolding drop_node
stay_end pt at b to = refl

cull_end :
    (pt pt2 : Ptree) (at b to : ℕ)
    → (free_node pt to >>= λ pt1. set_branch pt1 at b null_node) ≡ some pt2
    → (drop_node pt at b to cull >>= λ pt3. emptied pt3 at) ≡ emptied pt2 at
unfolding drop_node
cull_end pt pt2 at b to h = rw h refl

collapse_from-Collapsed :
    (k : ℕ) (pt : Ptree) (spot : ℕ → Spot) (nfree lfree : List ℕ) (pk i a p n : ℕ)
    → IsPtree pt spot nfree lfree
    → spot a ≡ inner i p
    → Way pt spot pk k i a n
    → spot n ≡ outer pk
    → pt.cells.cell n ≡ leaf pk 0 0
    → (action : Action) × (pt' : Ptree) × (spot' : ℕ → Spot) × (nfree' : List ℕ) × (lfree' : List ℕ)
      × (collapse_from k pt pk (a + 0x80000000) i ≡ some (action, pt'))
      × Collapsed pt spot a i p n action pt' spot' nfree' lfree'
collapse_from-Collapsed zero pt spot nfree lfree pk i a p n v sa w sn cn = absurd w
collapse_from-Collapsed (suc k) pt spot nfree lfree pk i a p n v sa (q, br, so, ca, inl e) sn cn =
    leaf-Collapsed k pt spot nfree lfree pk i a p n br v sa ca e sn cn
collapse_from-Collapsed (suc k) pt spot nfree lfree pk i a p n v sa (q, br, so, ca, inr (c, e, w))
      sn cn =
    let (p', sc) = start_spot pt spot pk k (suc i) c n w in
    let (action, pt1, spot1, nf1, lf1, run, d) =
      collapse_from-Collapsed k pt spot nfree lfree pk (suc i) c p' n v sc w sn cn in
    let at = a + 0x80000000 in
    let b = pk_branch pk i in
    let to = c + 0x80000000 in
    let (sa1, same) = d.above a i p sa (omega arith) in
    let ca1 : pt1.cells.cell a ≡ node br = same ∙ ca in
    let known = known_branches v a i p br sa ca in
    let pos = start_positive v pk k (suc i) c n w in
    let step = collapse_below k pt pt1 pk i at c br action known e pos run in
    elim (d.cull_or_stay) [
      | inl z ↦ (
        (if branch_count br == 0 then cull else stay),
        pt1,
        spot1,
        nf1,
        lf1,
        step
            ∙ ap (λ x. drop_node pt1 at b to x >>= λ pt2. emptied pt2 at) z
            ∙ stay_end pt1 at b to
            ∙ emptied_lem d.valid a i p br sa1 ca1,
        record {
          valid = d.valid;
          stays = sa1;
          keep = d.keep;
          back = d.back;
          above = λ o l r s h. d.above o l r s (omega arith);
          cull_or_stay = action_cases pt1 a br ca1;
          sized = d.sized;
          same_count = d.same_count;
        },
      )
      | inr (z, nulls) ↦
          let wc = d.valid.live.inner_at c (suc i) p' d.stays in
          let (pt2, run2, pr) =
            drop_node-Pruned pt1 spot1 nf1 lf1 c a i p b p' br wc.br d.valid sa1 ca1 (omega arith) e
              d.stays wc.here (nulls wc.br wc.here) in
          let br' = update br b null_node in
          let ac : a ≢ c = λ (y : a ≡ c).
            let k' = inner_level i p (suc i) p' (sym sa1 ∙ ap spot1 y ∙ d.stays) in
            omega (arith, k') in
          let sa2 : update spot1 c freed a ≡ inner i p = rw (ne→== a c ac) sa1 in
          (
            (if branch_count br' == 0 then cull else stay),
            pt2,
            update spot1 c freed,
            c ∷ nf1,
            lf1,
            step
                ∙ ap (λ x. drop_node pt1 at b to x >>= λ pt3. emptied pt3 at) z
                ∙ cull_end pt1 pt2 at b to run2
                ∙ emptied_lem pr.valid a i p br' sa2 pr.now,
            record {
              valid = pr.valid;
              stays = sa2;
              keep = λ m pk' s y.
                  let (s1, e1) = d.keep m pk' s y in
                  let mc : m ≢ c = λ (u : m ≡ c). let k' = sym s1 ∙ ap spot1 u ∙ d.stays in cc in
                  let ma : m ≢ a = λ (u : m ≡ a). let k' = sym s1 ∙ ap spot1 u ∙ sa1 in cc in
                  (rw (ne→== m c mc) s1, pr.others m ma mc ∙ e1);
              back = λ m pk' s. elim (Bool-cases (m == c)) [
                | inl u ↦ let k' : freed ≡ outer pk' = sym (rw u refl) ∙ s in absurd cc
                | inr u ↦ d.back m pk' (sym (rw u refl) ∙ s)
              ];
              above = λ o l r s h.
                  let (s1, e1) = d.above o l r s (omega arith) in
                  let oc : o ≢ c = λ (u : o ≡ c).
                    let k' = inner_level l r (suc i) p' (sym s1 ∙ ap spot1 u ∙ d.stays) in
                    omega (arith, k') in
                  let oa : o ≢ a = λ (u : o ≡ a).
                    let k' = inner_level l r i p (sym s1 ∙ ap spot1 u ∙ sa1) in omega (arith, k') in
                  (rw (ne→== o c oc) s1, pr.others o oa oc ∙ e1);
              cull_or_stay = action_cases pt2 a br' pr.now;
              sized = pr.sized ∙ d.sized;
              same_count = pr.same_count ∙ d.same_count;
            },
          )
    ]

-- In a valid tree with an empty leaf of a key: collapse_by_pk ends without a fault and leaves a valid
-- tree without that leaf, and with each other leaf and its content.
pub collapse_by_pk-Collapsed :
    (pt : Ptree) (spot : ℕ → Spot) (nfree lfree : List ℕ) (pk n : ℕ)
    → IsPtree pt spot nfree lfree
    → spot n ≡ outer pk
    → pt.cells.cell n ≡ leaf pk 0 0
    → (action : Action) × (pt' : Ptree) × (spot' : ℕ → Spot) × (nfree' : List ℕ) × (lfree' : List ℕ)
      × (collapse_by_pk pt pk ≡ some pt')
      × Collapsed pt spot 1 0 0 n action pt' spot' nfree' lfree'
unfolding collapse_by_pk
collapse_by_pk-Collapsed pt spot nfree lfree pk n v s h =
    let (action, pt', spot', nfree', lfree', run, c) =
      collapse_from-Collapsed 32 pt spot nfree lfree pk 0 1 0 n v v.live.root (v.live.way n pk s) s
        h in
    (action, pt', spot', nfree', lfree', rw run refl, c)
