-- ===== src/Ptree/Add.antt =====
-- `fs_ptree_add`: a pair is added to a key.
use store.Prelude.{
  ℕ, ◌+◌, ◌*◌, ◌%◌, ◌^◌, ◌≤◌, ◌<◌, ◌≡◌, ◌≢◌, refl, sym, ap, ◌∙◌, List, [], ◌∷◌, ◌++◌, length, arith,
  ◌⊎◌, inl, inr, some, keep, ◌>>=◌, ◌==◌, update, Bool-cases, ==→eq, eq→==, ne→==, lt→ltb, Apart,
  Apart-cons, Fresh, subst, false, true,
}
use store.Prelude.Int.{pos, ◌+ℤ◌}
use store.Ptable.{Ptable}
use store.Ptable.Invariant.{IsChain, pairs}
use store.Ptable.Add.{add_pair-Added}
use store.Ptree.{Ptree, leaf, store_cell, get_leaf, add_to}
use store.Ptree.Invariant.{Spot, outer}
use store.Ptree.Find.{load_leaf_lem, get_leaf_cases}
use store.Ptree.Graft.{outer_key}
use store.Ptree.Create.{get_or_create_leaf-Created}
use store.Ptree.Leaf.{with_leaf, IsPtree-leaf}
use store.Ptree.Search.{matches}
use store.Ptree.Search.Filled.{
  Filled, Created-Filled, search_all, search_all-outer, search_all-missing,
}

-- A chain starts at a row in use, or at 0.
head-le : (table : Ptable) (b : ℕ) (ids : List ℕ) → IsChain table b ids → b ≤ table.length
head-le table b [] c = omega (arith, c)
head-le table b (i ∷ ids) c = omega (arith, c.0, c.2)

-- The pairs of a leaf that has gained one, and those of the other leaves.
pub record AddedTo (table : Ptable) (ids : ℕ → List ℕ) (spot : ℕ → Spot) (pk p0 p1 n : ℕ)
    (table' : Ptable) (ids' : ℕ → List ℕ) (spot' : ℕ → Spot) : Type 0 where
  pub there : spot' n ≡ outer pk
  pub keeps : (m pk' : ℕ) → spot m ≡ outer pk' → spot' m ≡ outer pk'
  pub origin :
      ((spot n ≡ outer pk) × (pairs table' (ids' n) ≡ (p0, p1) ∷ pairs table (ids n)))
      ⊎ ((pairs table' (ids' n) ≡ (p0, p1) ∷ []) × ((m : ℕ) → spot m ≢ outer pk))
  pub others :
      (m pk' : ℕ)
      → pk' ≢ pk
      → spot' m ≡ outer pk'
      → (spot m ≡ outer pk') × (pairs table' (ids' m) ≡ pairs table (ids m))

-- A chain with a fresh row in front is apart from the others, which are apart.
update-Apart :
    (ids : ℕ → List ℕ) (n x y z : ℕ)
    → y ≢ z
    → Apart (ids y) (ids z)
    → Fresh x (ids y)
    → Fresh x (ids z)
    → Apart (update ids n (x ∷ ids n) y) (update ids n (x ∷ ids n) z)
update-Apart ids n x y z d old fy fz =
    let ids2 = update ids n (x ∷ ids n) in
    let keep_at : (u : ℕ) → (u == n) ≡ false → ids2 u ≡ ids u = λ u e. rw e refl in
    let push_at : (u : ℕ) → (u == n) ≡ true → ids2 u ≡ x ∷ ids u =
      λ u e. rw (e, ==→eq u n e) refl in
    elim (Bool-cases (y == n)) [
      | inl e ↦
          let zn : (z == n) ≡ false = ne→== z n (λ q. d (==→eq y n e ∙ sym q)) in
          subst (λ u. Apart u (ids2 z)) (sym (push_at y e))
            (subst (λ u. Apart (x ∷ ids y) u) (sym (keep_at z zn)) (fz, old))
      | inr e ↦
          subst (λ u. Apart u (ids2 z)) (sym (keep_at y e))
            (elim (Bool-cases (z == n)) [
              | inl e' ↦
                  subst (λ u. Apart (ids y) u) (sym (push_at z e'))
                    (Apart-cons x (ids y) (ids z) fy old)
              | inr e' ↦ subst (λ u. Apart (ids y) u) (sym (keep_at z e')) old
            ])
    ]

pub add_to-Filled :
    (pt : Ptree) (spot : ℕ → Spot) (table : Ptable) (ids : ℕ → List ℕ) (nfree lfree frees : List ℕ)
    (pk p0 p1 : ℕ)
    → Filled pt spot table ids nfree lfree frees
    → pt.cells.size + 64 * 32768 ≤ 2 ^ 31
    → table.rows.size < 2 ^ 30
    → pk < 2 ^ 64
    → (n : ℕ) × (pt' : Ptree) × (spot' : ℕ → Spot) × (table' : Ptable) × (ids' : ℕ → List ℕ)
      × (nfree' : List ℕ) × (lfree' : List ℕ) × (frees' : List ℕ) × (add_to pt table pk
            (some (p0, p1))
          ≡ some (0, pt', table'))
      × Filled pt' spot' table' ids' nfree' lfree' frees'
      × AddedTo table ids spot pk p0 p1 n table' ids' spot'
      × (pt'.count ≡ pt.count +ℤ pos 1)
unfolding add_to store_cell
add_to-Filled pt spot table ids nfree lfree frees pk p0 p1 v room rows word =
    let (n, pt1, spot1, nfree1, lfree1, run, c) =
      get_or_create_leaf-Created pt spot nfree lfree pk v.tree room word in
    let (ids1, v1, g) = Created-Filled v c in
    let w = v1.leaves n pk c.there in
    let o = v1.tree.live.outer_at n pk c.there in
    let (x, table', frees', a) =
      add_pair-Added table frees w.block p0 p1 v.rows rows
        (head-le table w.block (ids1 n) w.chain) in
    let (chain, front, apart) = a.grows (ids1 n) w.chain w.apart in
    let len' = (w.len + 1) % 2 ^ 32 in
    let pt2 = with_leaf pt1 n pk x len' (pt1.count +ℤ pos 1) in
    let ids2 = update ids1 n (x ∷ ids1 n) in
    let only : (m pk' : ℕ) → pk' ≢ pk → spot1 m ≡ outer pk' → m ≢ n =
      λ m pk' d s k. d (outer_key pk' pk (sym s ∙ ap spot1 k ∙ c.there)) in
    let ids_n : ids2 n ≡ x ∷ ids1 n = rw (eq→== n n refl) refl in
    (
      n,
      pt2,
      spot1,
      table',
      ids2,
      nfree1,
      lfree1,
      frees',
      simp (
        run,
        load_leaf_lem pt1 n pk w.block w.len o.inside w.here,
        a.run,
        ne→== x 0 (omega (arith, chain.1)),
        lt→ltb n pt1.cells.size o.inside,
      ),
      record {
        tree = IsPtree-leaf v1.tree n pk x len' (pt1.count +ℤ pos 1) c.there;
        rows = a.valid;
        disjoint = λ y z k k' s t d.
            let fresh : (u pk' : ℕ) → spot1 u ≡ outer pk' → Fresh x (ids1 u) = λ u pk' su.
              let l = v1.leaves u pk' su in (a.keeps l.block (ids1 u) l.chain l.apart).3 in
            update-Apart ids1 n x y z d (v1.disjoint y z k k' s t d) (fresh y k s) (fresh z k' t);
        leaves = λ m pk' s. elim (Bool-cases (m == n)) [
          | inl e ↦
              let mn : m ≡ n = ==→eq m n e in
              let keys : pk' ≡ pk = outer_key pk' pk (sym s ∙ ap spot1 mn ∙ c.there) in
              rw e (record {
                block = x;
                len = len';
                here = rw e (ap (λ y. leaf y x len') (sym keys));
                chain = chain;
                apart = apart;
                counted = omega (arith, w.counted);
              })
          | inr e ↦
              let u = v1.leaves m pk' s in
              let (chain', same, apart', fresh) = a.keeps u.block (ids1 m) u.chain u.apart in
              rw e (record {
                block = u.block;
                len = u.len;
                here = rw e u.here;
                chain = chain';
                apart = apart';
                counted = u.counted;
              })
        ];
      },
      record {
        there = c.there;
        keeps = λ m pk' s. (c.keep m pk' s).0;
        origin = elim (g.origin) [
          | inl (s, e) ↦
              inl (s, ap (pairs table') ids_n ∙ front ∙ ap (λ ys. (p0, p1) ∷ pairs table ys) e)
          | inr (e, h) ↦
              inr (ap (pairs table') ids_n ∙ front ∙ ap (λ ys. (p0, p1) ∷ pairs table ys) e, h)
        ];
        others = λ m pk' d s.
            let (s0, e) = g.others m pk' d s in
            let u = v1.leaves m pk' s in
            let (chain', same, apart', fresh) = a.keeps u.block (ids1 m) u.chain u.apart in
            let here : ids2 m ≡ ids1 m = rw (ne→== m n (only m pk' d s)) refl in
            (s0, ap (pairs table') here ∙ same ∙ ap (pairs table) e);
      },
      ap (λ z. z +ℤ pos 1) c.same_count,
    )

pub length-pairs : (table : Ptable) (ids : List ℕ) → length (pairs table ids) ≡ length ids
length-pairs table [] = refl
length-pairs table (i ∷ ids) = omega (arith, length-pairs table ids)

length-keep-le : (q0 q1 : ℕ) (qs : List (ℕ × ℕ)) → length (keep (matches q0 q1) qs) ≤ length qs
length-keep-le q0 q1 [] = omega arith
length-keep-le q0 q1 (q ∷ qs) = elim (Bool-cases (matches q0 q1 q)) [
  | inl e ↦ rw e (omega (arith, length-keep-le q0 q1 qs))
  | inr e ↦ rw e (omega (arith, length-keep-le q0 q1 qs))
]

-- A search where the rows of the leaf are fewer than the fuel.
pub search_found :
    {pt : Ptree} {spot : ℕ → Spot} {table : Ptable} {ids : ℕ → List ℕ} {nfree lfree frees : List ℕ}
    (fuel m key q0 q1 : ℕ)
    → Filled pt spot table ids nfree lfree frees
    → spot m ≡ outer key
    → length (pairs table (ids m)) < fuel
    → search_all fuel fuel pt table key q0 q1 ≡ some (keep (matches q0 q1) (pairs table (ids m)))
search_found {table = table} {ids} fuel m key q0 q1 v s l =
    search_all-outer v fuel fuel m key q0 q1 s (omega (arith, length-pairs table (ids m), l))
      (omega (arith, length-keep-le q0 q1 (pairs table (ids m)), l))

-- In a valid tree whose leaves hold chains of a valid table of fewer than 2^30 rows, with room in
-- the file, for a 64-bit key and more fuel than the rows of any leaf and one: add_to of a pair
-- returns 0. All the pairs that search and it_next then give for the key are those that they gave
-- before, behind the new pair where that matches, and for any other 64-bit key they are those that
-- they gave before.
pub search_all-add_to :
    (pt : Ptree) (spot : ℕ → Spot) (table : Ptable) (ids : ℕ → List ℕ) (nfree lfree frees : List ℕ)
    (fuel pk p0 p1 q0 q1 : ℕ)
    → Filled pt spot table ids nfree lfree frees
    → pt.cells.size + 64 * 32768 ≤ 2 ^ 31
    → table.rows.size < 2 ^ 30
    → pk < 2 ^ 64
    → ((m : ℕ) → length (ids m) + 1 < fuel)
    → (pt' : Ptree) × (table' : Ptable) × (add_to pt table pk (some (p0, p1))
        ≡ some (0, pt', table'))
      × (search_all fuel fuel pt' table' pk q0 q1 ≡ (
          search_all fuel fuel pt table pk q0 q1 >>= λ qs.
          some (keep (matches q0 q1) ((p0, p1) ∷ []) ++ qs)))
      × ((key : ℕ)
          → key < 2 ^ 64
          → key ≢ pk
          → search_all fuel fuel pt' table' key q0 q1 ≡ search_all fuel fuel pt table key q0 q1)
search_all-add_to pt spot table ids nfree lfree frees fuel pk p0 p1 q0 q1 v room rows word short =
    let (n, pt', spot', table', ids', nfree', lfree', frees', run, v', a, c) =
      add_to-Filled pt spot table ids nfree lfree frees pk p0 p1 v room rows word in
    let bound : (m : ℕ) → length (pairs table (ids m)) + 1 < fuel =
      λ m. omega (arith, length-pairs table (ids m), short m) in
    let split : (qs : List (ℕ × ℕ))
        → keep (matches q0 q1) ((p0, p1) ∷ qs)
          ≡ keep (matches q0 q1) ((p0, p1) ∷ []) ++ keep (matches q0 q1) qs =
      λ qs. elim (Bool-cases (matches q0 q1 (p0, p1))) [ inl e ↦ rw e refl | inr e ↦ rw e refl ] in
    (
      pt',
      table',
      run,
      elim (a.origin) [
        | inl (s, e) ↦
            let l : length (pairs table' (ids' n)) < fuel = omega (arith, ap length e, bound n) in
            search_found fuel n pk q0 q1 v' a.there l
            ∙ ap (λ ys. some (keep (matches q0 q1) ys)) e
            ∙ ap some (split (pairs table (ids n)))
            ∙ sym (
                ap (λ o. o >>= λ qs. some (keep (matches q0 q1) ((p0, p1) ∷ []) ++ qs))
                  (search_found fuel n pk q0 q1 v s (omega (arith, bound n))))
        | inr (e, h) ↦
            let l : length (pairs table' (ids' n)) < fuel = omega (arith, ap length e, bound n) in
            let gone : get_leaf pt pk ≡ some 0 = elim (get_leaf_cases v.tree pk word) [
              | inl (m, k, s) ↦ absurd (h m s)
              | inr (k, h') ↦ k
            ] in
            search_found fuel n pk q0 q1 v' a.there l
            ∙ ap (λ ys. some (keep (matches q0 q1) ys)) e
            ∙ ap some (split [])
            ∙ sym (
                ap (λ o. o >>= λ qs. some (keep (matches q0 q1) ((p0, p1) ∷ []) ++ qs))
                  (search_all-missing v fuel fuel pk q0 q1 gone))
      ],
      λ key kw d. elim (get_leaf_cases v'.tree key kw) [
        | inl (m, k, s) ↦
            let (s0, e) = a.others m key d s in
            search_found fuel m key q0 q1 v' s (omega (arith, ap length e, bound m))
            ∙ ap (λ ys. some (keep (matches q0 q1) ys)) e
            ∙ sym (search_found fuel m key q0 q1 v s0 (omega (arith, bound m)))
        | inr (k, h) ↦ elim (get_leaf_cases v.tree key kw) [
          | inl (m, k', s) ↦ absurd (h m (a.keeps m key s))
          | inr (k', h') ↦
              search_all-missing v' fuel fuel key q0 q1 k
              ∙ sym (search_all-missing v fuel fuel key q0 q1 k')
        ]
      ],
    )
