-- ===== src/Ptable/Add.antt =====
-- `add_pair` at the head of a chain.
use store.Prelude.{
  ℕ, ◌^◌, ◌≤◌, ◌<◌, ◌≡◌, refl, ap, ap₂, sym, subst, eq→==, ltb_of_ge, Distinct, Linked-Distinct,
  Apart-one, List, [], ◌∷◌, some, arith, Fresh, Apart, update, lt→ltb, inl, inr,
}
use store.Ptable.{Row, Ptable, add_pair}
use store.Ptable.Invariant.{
  conts, IsChain, pairs, IsTable, Frame, IsChain-Frame, pairs-Frame, Frame-trans, IsTable-Frame,
}
use store.Ptable.Alloc.{FreshRow, new_row-FreshRow}

-- A row handed out stands in no chain in use.
FreshRow-Fresh :
    {pt pt' : Ptable} {frees frees' : List ℕ} {n : ℕ} (b : ℕ) (ids : List ℕ)
    → FreshRow pt frees n pt' frees'
    → IsChain pt b ids
    → Apart ids frees
    → Fresh n ids × Apart ids frees'
FreshRow-Fresh b [] w c a = (tt, tt)
FreshRow-Fresh {pt} {n = n} b (i ∷ ids) w c a =
    let (f, r) = FreshRow-Fresh (conts pt i) ids w c.3 a.1 in
    elim w.taken [
      | inl e ↦ let here = subst (Fresh i) e a.0 in (((λ x. here.0 (sym x)), f), (here.1, r))
      | inr (e, e', l) ↦ (((λ x. absurd (omega (arith, c.2))), f), (subst (Fresh i) (sym e') tt, r))
    ]

-- Nor in the free list that is left.
free-Fresh :
    {pt pt' : Ptable} {frees frees' : List ℕ} {n : ℕ}
    → IsTable pt frees
    → FreshRow pt frees n pt' frees'
    → Fresh n frees'
free-Fresh {pt} {frees = frees} {n = n} v w = elim w.taken [
  | inl e ↦
      (subst Distinct e
        (Linked-Distinct (conts pt) 1 pt.length pt.free_list frees (omega arith) v.free)).0
  | inr (e, e', l) ↦ subst (Fresh n) (sym e') tt
]

-- A pair that a call has added: it stands in front of the chain, and every other chain in use is
-- unchanged.
pub record Added (pt : Ptable) (frees : List ℕ) (b p0 p1 n : ℕ) (pt' : Ptable) (frees' : List ℕ)
    : Type 0 where
  pub run : add_pair pt b p0 p1 ≡ some (n, pt')
  pub valid : IsTable pt' frees'
  pub grows :
      (ids : List ℕ)
      → IsChain pt b ids
      → Apart ids frees
      → IsChain pt' n (n ∷ ids)
        × (pairs pt' (n ∷ ids) ≡ (p0, p1) ∷ pairs pt ids)
        × Apart (n ∷ ids) frees'
  pub keeps :
      (c : ℕ) (ids : List ℕ)
      → IsChain pt c ids
      → Apart ids frees
      → IsChain pt' c ids × (pairs pt' ids ≡ pairs pt ids) × Apart ids frees' × Fresh n ids

-- In a valid table of fewer than 2^30 rows, with a head row b not behind the used rows, add_pair
-- ends without a fault with a row that was in no chain: the table stays valid, a chain from b that
-- is apart from the free list becomes the chain from the new row with the pair in front, and every
-- chain in use keeps its rows and pairs.
pub add_pair-Added :
    (pt : Ptable) (frees : List ℕ) (b p0 p1 : ℕ)
    → IsTable pt frees
    → pt.rows.size < 2 ^ 30
    → b ≤ pt.length
    → (n : ℕ) × (pt' : Ptable) × (frees' : List ℕ) × Added pt frees b p0 p1 n pt' frees'
unfolding add_pair
add_pair-Added pt frees b p0 p1 v room inside =
    let (n, q, frees', w) = new_row-FreshRow pt frees v room in
    let pt' : Ptable = record q {
      rows = record q.rows {
        cell = update q.rows.cell n (record { cont = b; first = p0; second = p1 });
      };
    } in
    let here : Frame (n ∷ []) q pt' = record {
      longer = omega arith;
      same = λ j l f. ground arith;
    } in
    let all = Frame-trans (n ∷ []) w.frame here in
    let row : pt'.rows.cell n ≡ record { cont = b; first = p0; second = p1 } =
      simp (eq→== n n refl) in
    (
      n,
      pt',
      frees',
      record {
        run = simp (
          v.is_mapped,
          ltb_of_ge pt.length b inside,
          w.run,
          lt→ltb n q.rows.size (omega (arith, w.inside, w.valid.fits)),
        );
        valid =
            IsTable-Frame (n ∷ []) frees' here refl refl refl refl
              (Apart-one n frees' (free-Fresh v w)) w.valid;
        grows = λ ids c a.
            let (f, r) = FreshRow-Fresh b ids w c a in
            (
              (
                refl,
                w.positive,
                w.inside,
                subst (λ x. IsChain pt' x ids) (ap (λ (r : Row). r.cont) (sym row))
                    (IsChain-Frame (n ∷ []) b ids all (Apart-one n ids f) c),
              ),
              ap₂ ◌∷◌ (ap (λ (r : Row). (r.first, r.second)) row)
                  (pairs-Frame (n ∷ []) b ids all (Apart-one n ids f) c),
              (free-Fresh v w, r),
            );
        keeps = λ c ids h a.
            let (f, r) = FreshRow-Fresh c ids w h a in
            (
              IsChain-Frame (n ∷ []) c ids all (Apart-one n ids f) h,
              pairs-Frame (n ∷ []) c ids all (Apart-one n ids f) h,
              r,
              f,
            );
      },
    )
