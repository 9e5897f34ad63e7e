-- ===== src/Ptree/Search/Filled.antt =====
-- A valid tree with a chain of a valid table for each of its leaves.
use store.Prelude.{
  ℕ, ◌%◌, ◌^◌, ◌≤◌, ◌<◌, ◌≡◌, ◌≢◌, refl, sym, ap, ◌∙◌, List, [], length, Apart, arith, ◌⊎◌, inl,
  inr, Option, none, some, keep, ◌>>=◌, ◌==◌, update, Bool-cases, ==→eq, ==→ne, eq→==, ne→==,
  Apart-nil,
}
use store.Ptable.{Ptable}
use store.Ptable.Invariant.{IsChain, pairs, IsTable}
use store.Ptree.{Ptree, leaf, get_leaf}
use store.Ptree.Invariant.{Spot, outer, IsPtree}
use store.Ptree.Find.{load_leaf_lem, get_leaf-outer}
use store.Ptree.Graft.{outer_key}
use store.Ptree.HangLeaf.{Created}
use store.Ptree.Search.{matches, search}
use store.Ptree.Search.Next.{collect, collect-left}

-- A leaf with the rows `ids`.
pub record IsFilled (pt : Ptree) (table : Ptable) (frees : List ℕ) (n pk : ℕ) (ids : List ℕ)
    : Type 0 where
  pub block : ℕ
  pub len : ℕ
  pub here : pt.cells.cell n ≡ leaf pk block len
  pub chain : IsChain table block ids
  pub apart : Apart ids frees
  pub counted : len ≡ length ids % 2 ^ 32

-- A tree with its table; `ids` are the rows of each leaf.
pub record Filled (pt : Ptree) (spot : ℕ → Spot) (table : Ptable) (ids : ℕ → List ℕ)
    (nfree lfree frees : List ℕ) : Type 0 where
  pub tree : IsPtree pt spot nfree lfree
  pub rows : IsTable table frees
  pub leaves : (n pk : ℕ) → spot n ≡ outer pk → IsFilled pt table frees n pk (ids n)
  pub disjoint :
      (n m pk pk' : ℕ) → spot n ≡ outer pk → spot m ≡ outer pk' → n ≢ m → Apart (ids n) (ids m)

-- All the pairs that a search for a key gives, in order.
unfoldable pub search_all : ℕ → ℕ → Ptree → Ptable → ℕ → ℕ → ℕ → Option (List (ℕ × ℕ))
search_all n fuel pt table pk p0 p1 =
    search pt pk p0 p1 >>= λ it. elim it [ none ↦ some [] | some it' ↦ collect n fuel table it' ]

module _ {pt : Ptree} {spot : ℕ → Spot} {table : Ptable} {ids : ℕ → List ℕ}
    {nfree lfree frees : List ℕ} (v : Filled pt spot table ids nfree lfree frees) where
  -- A search for a key with a leaf gives the pairs of its rows that match.
  pub search_all-outer :
      (n fuel m pk p0 p1 : ℕ)
      → spot m ≡ outer pk
      → length (ids m) < fuel
      → length (keep (matches p0 p1) (pairs table (ids m))) ≤ n
      → search_all n fuel pt table pk p0 p1 ≡ some (keep (matches p0 p1) (pairs table (ids m)))
  unfolding search_all search
  search_all-outer n fuel m pk p0 p1 s l h =
      let w = v.leaves m pk s in
      let o = v.tree.live.outer_at m pk s in
      let all =
        collect-left n fuel table
          (record {
            pk = 0;
            block = w.block;
            step = 0;
            length = w.len;
            first = p0;
            second = p1;
            stack = [];
          })
          frees (ids m) v.rows w.chain l h in
      simp
        (
          get_leaf-outer v.tree m pk s,
          ne→== m 0 (omega (arith, o.positive)),
          load_leaf_lem pt m pk w.block w.len o.inside w.here,
        )
        all

  -- A search for a key without a leaf gives nothing.
  pub search_all-missing :
      (n fuel pk p0 p1 : ℕ)
      → get_leaf pt pk ≡ some 0
      → search_all n fuel pt table pk p0 p1 ≡ some []
  unfolding search_all search
  search_all-missing n fuel pk p0 p1 e = simp e

pub some_eq : {a b : ℕ} → some a ≡ some b → a ≡ b
some_eq {a} e = ap (λ (m : Option ℕ). elim m [ none ↦ a | some x ↦ x ]) e

-- A tree that has gained a leaf without rows, or none.
pub record Gained (ids : ℕ → List ℕ) (spot : ℕ → Spot) (pk n : ℕ) (spot' : ℕ → Spot)
    (ids' : ℕ → List ℕ) : Type 0 where
  pub others :
      (m pk' : ℕ) → pk' ≢ pk → spot' m ≡ outer pk' → (spot m ≡ outer pk') × (ids' m ≡ ids m)
  pub origin :
      ((spot n ≡ outer pk) × (ids' n ≡ ids n)) ⊎ ((ids' n ≡ []) × ((m : ℕ) → spot m ≢ outer pk))

pub Created-Filled :
    {pt pt' : Ptree} {spot spot' : ℕ → Spot} {table : Ptable} {ids : ℕ → List ℕ}
    {nfree lfree nfree' lfree' frees : List ℕ} {pk n : ℕ}
    → Filled pt spot table ids nfree lfree frees
    → Created pt spot pk n pt' spot' nfree' lfree'
    → (ids' : ℕ → List ℕ) × Filled pt' spot' table ids' nfree' lfree' frees
      × Gained ids spot pk n spot' ids'
Created-Filled {pt} {pt'} {spot} {spot'} {table} {ids} {frees = frees} {pk} {n} v c =
    let only : (m : ℕ) → spot' m ≡ outer pk → m ≡ n =
      λ m e. some_eq (sym (get_leaf-outer c.valid m pk e) ∙ get_leaf-outer c.valid n pk c.there) in
    let old : (m pk' : ℕ) → spot m ≡ outer pk' → IsFilled pt' table frees m pk' (ids m) = λ m pk' e.
      let w = v.leaves m pk' e in
      record {
        block = w.block;
        len = w.len;
        here = (c.keep m pk' e).1 ∙ w.here;
        chain = w.chain;
        apart = w.apart;
        counted = w.counted;
      } in
    elim (c.origin) [
      | inl e ↦
          let back : (m pk' : ℕ) → spot' m ≡ outer pk' → spot m ≡ outer pk' = λ m pk' s.
            elim (Bool-cases (pk' == pk)) [
              | inl k ↦
                  let kk : pk' ≡ pk = ==→eq pk' pk k in
                  let mn = only m (s ∙ ap outer kk) in ap spot mn ∙ e ∙ ap outer (sym kk)
              | inr k ↦ c.back m pk' (==→ne pk' pk k) s
            ] in
          (
            ids,
            record {
              tree = c.valid;
              rows = v.rows;
              leaves = λ m pk' s. old m pk' (back m pk' s);
              disjoint = λ x y a b s t d. v.disjoint x y a b (back x a s) (back y b t) d;
            },
            record { others = λ m pk' d s. (c.back m pk' d s, refl); origin = inl (e, refl) },
          )
      | inr (e, h) ↦
          let other : (m pk' : ℕ) → pk' ≢ pk → spot' m ≡ outer pk' → m ≢ n =
            λ m pk' d s k. d (outer_key pk' pk (sym s ∙ ap spot' k ∙ c.there)) in
          let back : (m pk' : ℕ) → m ≢ n → spot' m ≡ outer pk' → spot m ≡ outer pk' =
            λ m pk' d s. c.back m pk' (λ k. d (only m (s ∙ ap outer k))) s in
          (
            update ids n [],
            record {
              tree = c.valid;
              rows = v.rows;
              leaves = λ m pk' s. elim (Bool-cases (pk' == pk)) [
                | inl k ↦
                    let kk : pk' ≡ pk = ==→eq pk' pk k in
                    let mn = only m (s ∙ ap outer kk) in
                    rw (eq→== m n mn) (record {
                      block = 0;
                      len = 0;
                      here = ap (pt'.cells.cell) mn ∙ e ∙ ap (λ x. leaf x 0 0) (sym kk);
                      chain = refl;
                      apart = tt;
                      counted = refl;
                    })
                | inr k ↦
                    let d = ==→ne pk' pk k in
                    rw (ne→== m n (other m pk' d s)) (old m pk' (c.back m pk' d s))
              ];
              disjoint = λ x y a b s t d. elim (Bool-cases (x == n)) [
                | inl k ↦ rw k tt
                | inr k ↦ elim (Bool-cases (y == n)) [
                  | inl k' ↦ rw (k, k') (Apart-nil (ids x))
                  | inr k' ↦
                      rw (k, k')
                        (v.disjoint x y a b (back x a (==→ne x n k) s) (back y b (==→ne y n k') t)
                          d)
                ]
              ];
            },
            record {
              others = λ m pk' d s. (c.back m pk' d s, rw (ne→== m n (other m pk' d s)) refl);
              origin = inr (rw (eq→== n n refl) refl, h);
            },
          )
    ]
