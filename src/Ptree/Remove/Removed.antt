-- ===== src/Ptree/Remove/Removed.antt =====
-- `fs_ptree_remove`: the pairs of a key that fit a pattern are removed.
use store.Prelude.{
  ℕ, ◌+◌, ◌%◌, ◌^◌, ◌≤◌, ◌<◌, ◌≡◌, ◌≢◌, refl, sym, ap, ◌∙◌, subst, List, [], ◌∷◌, length, keep,
  count, All, All-imp, Apart, arith, ◌⊎◌, inl, inr, Option, some, ◌==◌, if◌then◌else◌, Bool, negate,
  update, Bool-cases, eq→==, ne→==, ==→eq, ==→ne, lt→ltb,
}
use store.Prelude.Int.{ℤ, pos, ◌-ℤ◌}
use store.RidSet.{RidSet}
use store.Ptable.{Ptable}
use store.Ptable.Invariant.{IsChain, pairs}
use store.Ptable.Remove.{Removal}
use store.Ptable.Remove.Pile.{matches, pile, left, left_nil, left_cons, left_skip}
use store.Ptable.Remove.Result.{fits, RemovedPair}
use store.Ptree.{Ptree, leaf, store_cell}
use store.Ptree.Invariant.{Spot, outer}
use store.Ptree.Find.{get_leaf-outer}
use store.Ptree.Graft.{outer_key}
use store.Ptree.Leaf.{with_leaf, IsPtree-leaf}
use store.Ptree.Search.Filled.{Filled, some_eq}
use store.Ptree.Remove.{minus_length, settle, collapse_by_pk}
use store.Ptree.Remove.CollapseWay.{collapse_by_pk-Collapsed}

-- What holds of all rows holds of those that are left.
All-left : (P : ℕ → Type 0) (p : ℕ → Bool) (is : List ℕ) → All P is → All P (left p is)
All-left P p [] h = rw left_nil h
All-left P p (i ∷ is) h = elim (Bool-cases (p i)) [
  | inl e ↦ rw (left_skip p i is e) (All-left P p is h.1)
  | inr e ↦ rw (left_cons p i is e) (h.0, All-left P p is h.1)
]

length-left : (p : ℕ → Bool) (is : List ℕ) → length (left p is) + count p is ≡ length is
length-left p [] = rw left_nil refl
length-left p (i ∷ is) = elim (Bool-cases (p i)) [
  | inl e ↦ rw (left_skip p i is e, e) (omega (arith, length-left p is))
  | inr e ↦ rw (left_cons p i is e, e) (omega (arith, length-left p is))
]

count-pairs :
    (table : Ptable) (p0 p1 : ℕ) (ids : List ℕ)
    → count (matches p0 p1) (pairs table ids) ≡ count (fits table p0 p1) ids
count-pairs table p0 p1 [] = refl
count-pairs table p0 p1 (i ∷ ids) = omega (arith, count-pairs table p0 p1 ids)

pub chain_empty : (table : Ptable) (b : ℕ) (ids : List ℕ) → IsChain table b ids → b ≡ 0 → ids ≡ []
chain_empty table b [] c e = refl
chain_empty table b (i ∷ ids) c e = absurd (omega (arith, c.0, c.1))

length-zero : (xs : List ℕ) → length xs ≤ 0 → xs ≡ []
length-zero [] h = refl
length-zero (x ∷ xs) h = absurd (omega arith)

-- The pairs that do not fit the pattern.
abbrev pub unfit : ℕ → ℕ → List (ℕ × ℕ) → List (ℕ × ℕ)
unfit p0 p1 qs = keep (λ q. negate (matches p0 p1 q)) qs

-- The pairs of the leaf `n` of a key after a removal, and those of the other leaves: the leaf may be
-- fit where it has no pairs left.
pub record RemovedFrom (table : Ptable) (ids : ℕ → List ℕ) (spot : ℕ → Spot) (pk p0 p1 n : ℕ)
    (table' : Ptable) (ids' : ℕ → List ℕ) (spot' : ℕ → Spot) : Type 0 where
  pub kept :
      ((spot' n ≡ outer pk) × (pairs table' (ids' n) ≡ unfit p0 p1 (pairs table (ids n))))
      ⊎ (((m : ℕ) → spot' m ≢ outer pk) × (unfit p0 p1 (pairs table (ids n)) ≡ []))
  pub others :
      (m pk' : ℕ)
      → pk' ≢ pk
      → spot' m ≡ outer pk'
      → (spot m ≡ outer pk') × (pairs table' (ids' m) ≡ pairs table (ids m))
  pub stays : (m pk' : ℕ) → pk' ≢ pk → spot m ≡ outer pk' → spot' m ≡ outer pk'

-- The tree with the leaf that `remove_pair` leaves.
module _ {pt : Ptree} {spot : ℕ → Spot} {table : Ptable} {ids : ℕ → List ℕ}
    {nfree lfree frees : List ℕ} (v : Filled pt spot table ids nfree lfree frees) (n pk p0 p1 : ℕ)
    (models : Option RidSet) (s : Removal) (sn : spot n ≡ outer pk)
    (r : RemovedPair table p0 p1 0 models (ids n) frees s) where
  abbrev pub fit : ℕ → Bool
  fit = fits table p0 p1

  abbrev pub ids_left : ℕ → List ℕ
  ids_left = update ids n (left fit (ids n))

  counted-left :
      (len : ℕ)
      → len ≡ length (ids n) % 2 ^ 32
      → minus_length len s.removed ≡ length (left fit (ids n)) % 2 ^ 32
  counted-left len e =
      omega (arith, e, r.counted, count-pairs table p0 p1 (ids n), length-left fit (ids n))

  left-Apart : (x y : ℕ) → x ≢ y → Apart (ids x) (ids y) → Apart (ids_left x) (ids_left y)
  left-Apart x y d old =
      let half : Apart (ids x) (ids_left y) = elim (Bool-cases (y == n)) [
        | inl e ↦
            let at_n : ids_left y ≡ left fit (ids y) =
              rw e (ap (λ u. left fit (ids u)) (sym (==→eq y n e))) in
            subst (Apart (ids x)) (sym at_n)
              (All-imp _ _ (λ z h. All-left _ fit (ids y) h) (ids x) old)
        | inr e ↦ let at_n : ids_left y ≡ ids y = rw e refl in subst (Apart (ids x)) (sym at_n) old
      ] in
      elim (Bool-cases (x == n)) [
        | inl e ↦
            let at_n : ids_left x ≡ left fit (ids x) =
              rw e (ap (λ u. left fit (ids u)) (sym (==→eq x n e))) in
            subst (λ u. Apart u (ids_left y)) (sym at_n) (All-left _ fit (ids x) half)
        | inr e ↦
            let at_n : ids_left x ≡ ids x = rw e refl in
            subst (λ u. Apart u (ids_left y)) (sym at_n) half
      ]

  pub with_leaf-Filled :
      (len : ℕ) (ct : ℤ)
      → len ≡ length (left fit (ids n)) % 2 ^ 32
      → Filled
          (with_leaf pt n pk s.ret len ct)
          spot
          s.table
          ids_left
          nfree
          lfree
          (pile fit (ids n) frees)
  with_leaf-Filled len ct e = record {
    tree = IsPtree-leaf v.tree n pk s.ret len ct sn;
    rows = r.valid;
    leaves = λ m pk' sm. elim (Bool-cases (m == n)) [
      | inl k ↦
          let mn : m ≡ n = ==→eq m n k in
          let keys : pk' ≡ pk = outer_key pk' pk (sym sm ∙ ap spot mn ∙ sn) in
          rw k (record {
            block = s.ret;
            len = len;
            here = rw k (ap (λ y. leaf y s.ret len) (sym keys));
            chain = r.chain;
            apart = r.apart;
            counted = e;
          })
      | inr k ↦
          let u = v.leaves m pk' sm in
          let (chain, same, apart) =
            r.keeps u.block (ids m) u.chain (v.disjoint m n pk' pk sm sn (==→ne m n k)) u.apart in
          rw k (record {
            block = u.block;
            len = u.len;
            here = rw k u.here;
            chain = chain;
            apart = apart;
            counted = u.counted;
          })
    ];
    disjoint = λ x y k k' sx sy d. left-Apart x y d (v.disjoint x y k k' sx sy d);
  }

  with_leaf-RemovedFrom : RemovedFrom table ids spot pk p0 p1 n s.table ids_left spot
  with_leaf-RemovedFrom = record {
    kept =
        let here : ids_left n ≡ left fit (ids n) = rw (eq→== n n refl) refl in
        inl (sn, ap (pairs s.table) here ∙ r.pairs_left);
    others = λ m pk' d sm.
        let mn : m ≢ n = λ (e : m ≡ n). d (outer_key pk' pk (sym sm ∙ ap spot e ∙ sn)) in
        let u = v.leaves m pk' sm in
        let (chain, same, apart) =
          r.keeps u.block (ids m) u.chain (v.disjoint m n pk' pk sm sn mn) u.apart in
        let here : ids_left m ≡ ids m = rw (ne→== m n mn) refl in
        (sm, ap (pairs s.table) here ∙ same);
    stays = λ m pk' d sm. sm;
  }

  -- What `settle` leaves, with its status.
  abbrev pub Settled : Option (ℕ × Ptree) → Type 0
  Settled run =
      (pt' : Ptree) × (spot' : ℕ → Spot) × (nfree' : List ℕ) × (lfree' : List ℕ) × (run
        ≡ some ((if s.removed == 0 then 1 else 0), pt'))
      × Filled pt' spot' s.table ids_left nfree' lfree' (pile fit (ids n) frees)
      × RemovedFrom table ids spot pk p0 p1 n s.table ids_left spot'

  -- The empty leaf is taken out.
  collapsed :
      (ct : ℤ)
      → length (ids n) < 2 ^ 32
      → length (left fit (ids n)) % 2 ^ 32 ≡ 0
      → (pt' : Ptree) × (spot' : ℕ → Spot) × (nfree' : List ℕ) × (lfree' : List ℕ) × (collapse_by_pk
            (with_leaf pt n pk s.ret 0 ct)
            pk
          ≡ some pt')
        × Filled pt' spot' s.table ids_left nfree' lfree' (pile fit (ids n) frees)
        × RemovedFrom table ids spot pk p0 p1 n s.table ids_left spot'
  collapsed ct short z =
      let none_left : left fit (ids n) ≡ [] =
        length-zero (left fit (ids n)) (omega (arith, length-left fit (ids n))) in
      let v2 = with_leaf-Filled 0 ct (sym z) in
      let ret0 : s.ret ≡ 0 = subst (IsChain s.table s.ret) none_left r.chain in
      let here : (with_leaf pt n pk s.ret 0 ct).cells.cell n ≡ leaf pk 0 0 =
        rw (eq→== n n refl) (ap (λ x. leaf pk x 0) ret0) in
      let (action, pt3, spot3, nfree3, lfree3, run, c) =
        collapse_by_pk-Collapsed (with_leaf pt n pk s.ret 0 ct) spot nfree lfree pk n v2.tree sn
          here in
      (
        pt3,
        spot3,
        nfree3,
        lfree3,
        run,
        record {
          tree = c.valid;
          rows = r.valid;
          leaves = λ m pk' sm.
              let (s0, d) = c.back m pk' sm in
              let w = v2.leaves m pk' s0 in
              record {
                block = w.block;
                len = w.len;
                here = (c.keep m pk' s0 d).1 ∙ w.here;
                chain = w.chain;
                apart = w.apart;
                counted = w.counted;
              };
          disjoint =
              λ x y k k' sx sy d. v2.disjoint x y k k' (c.back x k sx).0 (c.back y k' sy).0 d;
        },
        record {
          kept = inr (
            (λ m sm.
                let (s0, d) = c.back m pk sm in
                d (some_eq (sym (get_leaf-outer v.tree m pk s0) ∙ get_leaf-outer v.tree n pk sn))),
            sym r.pairs_left ∙ ap (pairs s.table) none_left,
          );
          others = λ m pk' d sm. with_leaf-RemovedFrom.others m pk' d (c.back m pk' sm).0;
          stays = λ m pk' d sm.
              (c.keep m pk' sm (λ e. d (outer_key pk' pk (sym sm ∙ ap spot e ∙ sn)))).0;
        },
      )

  pub settle-Settled :
      (len : ℕ)
      → len ≡ length (ids n) % 2 ^ 32
      → length (ids n) < 2 ^ 32
      → n < pt.cells.size
      → Settled (settle pt pk n pk s.ret len s.removed)
  unfolding settle store_cell
  settle-Settled len e short inside =
      let store = lt→ltb n pt.cells.size inside in
      let counts = counted-left len e in
      elim (Bool-cases (s.removed == 0)) [
        | inl z ↦
            let same : len ≡ length (left fit (ids n)) % 2 ^ 32 = omega (
              arith,
              e,
              r.counted,
              ==→eq s.removed 0 z,
              count-pairs table p0 p1 (ids n),
              length-left fit (ids n),
            ) in
            (
              with_leaf pt n pk s.ret len pt.count,
              spot,
              nfree,
              lfree,
              simp (z, store),
              with_leaf-Filled len pt.count same,
              with_leaf-RemovedFrom,
            )
        | inr z ↦
            let len' = minus_length len s.removed in
            let ct = pt.count -ℤ pos s.removed in
            elim (Bool-cases (len' == 0)) [
              | inl y ↦
                  let empty : len' ≡ 0 = ==→eq len' 0 y in
                  let (pt', spot', nfree', lfree', run, filled, rest) =
                    collapsed ct short (sym counts ∙ empty) in
                  let run' =
                    ap (λ x. collapse_by_pk (with_leaf pt n pk s.ret x ct) pk) empty ∙ run in
                  (pt', spot', nfree', lfree', simp (z, store, y, run'), filled, rest)
              | inr y ↦ (
                with_leaf pt n pk s.ret len' ct,
                spot,
                nfree,
                lfree,
                simp (z, store, y),
                with_leaf-Filled len' ct counts,
                with_leaf-RemovedFrom,
              )
            ]
      ]
