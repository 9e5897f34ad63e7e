-- ===== src/Ptree/Remove/Collapse.antt =====
-- `collapse_by_pk` on a tree in which the leaf of the key is empty.
use store.Prelude.{
  ℕ, zero, suc, ◌+◌, ◌<◌, ◌≡◌, ◌≢◌, refl, sym, ap, ◌∙◌, List, ◌∷◌, arith, ◌⊎◌, inl, inr, some, ◌==◌,
  if◌then◌else◌, true, false, update, Bool-cases, ne→==, ==→ne,
}
use store.Ptree.{Ptree, node, leaf, null_node, is_leaf, pk_branch, as_node}
use store.Ptree.Invariant.{Spot, freed, inner, outer, IsPtree}
use store.Ptree.Graft.{some_branch, inner_level}
use store.Ptree.Find.{load_leaf_lem, known_branches}
use store.Ptree.Remove.{Action, stay, cull, branch_count, emptied, drop_leaf, collapse_from}
use store.Ptree.Remove.Pruned.{drop_leaf-Pruned}

-- A node without branches has none.
count_null : (br : ℕ → ℕ) (x : ℕ) → (branch_count br == 0) ≡ true → x < 4 → br x ≡ null_node
count_null br zero h l = ground arith
count_null br (suc zero) h l = ground arith
count_null br (suc (suc zero)) h l = ground arith
count_null br (suc (suc (suc zero))) h l = ground arith
count_null br (suc (suc (suc (suc x)))) h l = absurd (omega arith)

pub emptied_lem :
    {pt : Ptree} {spot : ℕ → Spot} {nfree lfree : List ℕ} (v : IsPtree pt spot nfree lfree)
    (a i p : ℕ) (br : ℕ → ℕ)
    → spot a ≡ inner i p
    → pt.cells.cell a ≡ node br
    → emptied pt (a + 0x80000000) ≡ some ((if branch_count br == 0 then cull else stay), pt)
unfolding emptied
emptied_lem v a i p br s h = simp (known_branches v a i p br s h)

-- The tree that the collapse of the way from `a`, at level `i`, leaves: without the leaf `n`.
pub record Collapsed (pt : Ptree) (spot : ℕ → Spot) (a i p n : ℕ) (action : Action) (pt' : Ptree)
    (spot' : ℕ → Spot) (nfree lfree : List ℕ) : Type 0 where
  pub valid : IsPtree pt' spot' nfree lfree
  pub stays : spot' a ≡ inner i p
  pub keep :
      (m pk : ℕ)
      → spot m ≡ outer pk
      → m ≢ n
      → (spot' m ≡ outer pk) × (pt'.cells.cell m ≡ pt.cells.cell m)
  pub back : (m pk : ℕ) → spot' m ≡ outer pk → (spot m ≡ outer pk) × (m ≢ n)
  pub above :
      (o l q : ℕ)
      → spot o ≡ inner l q
      → l < i
      → (spot' o ≡ inner l q) × (pt'.cells.cell o ≡ pt.cells.cell o)
  pub cull_or_stay :
      (action ≡ stay)
      ⊎ ((action ≡ cull)
          × ((br : ℕ → ℕ) → pt'.cells.cell a ≡ node br → (x : ℕ) → x < 4 → br x ≡ null_node))
  pub sized : pt'.cells.size ≡ pt.cells.size
  pub same_count : pt'.count ≡ pt.count

-- What the end of a call answers for its node.
pub action_cases :
    (pt : Ptree) (a : ℕ) (br : ℕ → ℕ)
    → pt.cells.cell a ≡ node br
    → ((if branch_count br == 0 then cull else stay) ≡ stay)
      ⊎ (((if branch_count br == 0 then cull else stay) ≡ cull)
          × ((br' : ℕ → ℕ) → pt.cells.cell a ≡ node br' → (x : ℕ) → x < 4 → br' x ≡ null_node))
action_cases pt a br h = elim (Bool-cases (branch_count br == 0)) [
  | inl e ↦
      inr (
        rw e refl,
        λ br' h' x l. sym (some_branch x (ap as_node (sym h ∙ h'))) ∙ count_null br x e l,
      )
  | inr e ↦ inl (rw e refl)
]

-- The leaf hangs at the node.
pub leaf-Collapsed :
    (k : ℕ) (pt : Ptree) (spot : ℕ → Spot) (nfree lfree : List ℕ) (pk i a p n : ℕ) (br : ℕ → ℕ)
    → IsPtree pt spot nfree lfree
    → spot a ≡ inner i p
    → pt.cells.cell a ≡ node br
    → br (pk_branch pk i) ≡ n
    → spot n ≡ outer pk
    → pt.cells.cell n ≡ leaf pk 0 0
    → (action : Action) × (pt' : Ptree) × (spot' : ℕ → Spot) × (nfree' : List ℕ) × (lfree' : List ℕ)
      × (collapse_from (suc k) pt pk (a + 0x80000000) i ≡ some (action, pt'))
      × Collapsed pt spot a i p n action pt' spot' nfree' lfree'
unfolding collapse_from drop_leaf
leaf-Collapsed k pt spot nfree lfree pk i a p n br v sa ca e sn cn =
    let b = pk_branch pk i in
    let o = v.live.outer_at n pk sn in
    let (pt', run, pr) =
      drop_leaf-Pruned pt spot nfree lfree n a i p b pk 0 0 br v sa ca (omega arith) e sn cn in
    let br' = update br b null_node in
    let na : a ≢ n = λ (z : a ≡ n). let k' = sym sa ∙ ap spot z ∙ sn in cc in
    let stays : update spot n freed a ≡ inner i p = rw (ne→== a n na) sa in
    let other : (m pk' : ℕ) → spot m ≡ outer pk' → m ≢ a =
      λ m pk' s (z : m ≡ a). let k' = sym s ∙ ap spot z ∙ sa in cc in
    let low : is_leaf n ≡ true = ground (arith, o.inside, v.spare.small) in
    let null_not : (n == null_node) ≡ false =
      ne→== n null_node (omega (arith, o.inside, v.spare.small)) in
    (
      (if branch_count br' == 0 then cull else stay),
      pt',
      update spot n freed,
      nfree,
      n ∷ lfree,
      simp (
        known_branches v a i p br sa ca,
        e,
        null_not,
        low,
        load_leaf_lem pt n pk 0 0 o.inside cn,
        run,
        emptied_lem pr.valid a i p br' stays pr.now,
      ),
      record {
        valid = pr.valid;
        stays = stays;
        keep = λ m pk' s d. (rw (ne→== m n d) s, pr.others m (other m pk' s) d);
        back = λ m pk' s. elim (Bool-cases (m == n)) [
          | inl z ↦ let k' : freed ≡ outer pk' = sym (rw z refl) ∙ s in absurd cc
          | inr z ↦ (sym (rw z refl) ∙ s, ==→ne m n z)
        ];
        above = λ o' l q s h.
            let on : o' ≢ n = λ (z : o' ≡ n). let k' = sym s ∙ ap spot z ∙ sn in cc in
            let oa : o' ≢ a = λ (z : o' ≡ a).
              let k' = inner_level l q i p (sym s ∙ ap spot z ∙ sa) in omega (arith, k') in
            (rw (ne→== o' n on) s, pr.others o' oa on);
        cull_or_stay = action_cases pt' a br' pr.now;
        sized = pr.sized;
        same_count = pr.same_count;
      },
    )
