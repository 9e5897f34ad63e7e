-- ===== src/Ptree/Remove/Searched.antt =====
-- Searches after `fs_ptree_remove`.
use store.Prelude.{
  ℕ, ◌^◌, ◌≤◌, ◌<◌, ◌≡◌, ◌≢◌, refl, sym, ap, ◌∙◌, List, [], ◌∷◌, length, keep, arith, inl, inr,
  Option, some, ◌>>=◌, Bool, negate, Bool-cases,
}
use store.RidSet.{RidSet}
use store.Ptable.{Ptable}
use store.Ptable.Invariant.{pairs}
use store.Ptable.Remove.Pile as Pile
use store.Ptree.{Ptree, get_leaf}
use store.Ptree.Invariant.{Spot}
use store.Ptree.Find.{get_leaf_cases}
use store.Ptree.Search.{matches}
use store.Ptree.Search.Filled.{Filled, search_all, search_all-missing}
use store.Ptree.Add.{search_found, length-pairs}
use store.Ptree.Remove.{remove_from}
use store.Ptree.Remove.Removed.{unfit}
use store.Ptree.Remove.Whole.{remove_from-Filled}

-- Two tests on a list in either order.
keep-keep : (f g : ℕ × ℕ → Bool) (qs : List (ℕ × ℕ)) → keep f (keep g qs) ≡ keep g (keep f qs)
keep-keep f g [] = refl
keep-keep f g (q ∷ qs) = elim (Bool-cases (f q)) [
  | inl e ↦ elim (Bool-cases (g q)) [
    | inl e' ↦ rw (e, e') (simp e (ap (λ xs. q ∷ xs) (keep-keep f g qs)))
    | inr e' ↦ rw (e, e') (keep-keep f g qs)
  ]
  | inr e ↦ elim (Bool-cases (g q)) [
    | inl e' ↦ rw (e, e') (simp e (keep-keep f g qs))
    | inr e' ↦ rw (e, e') (keep-keep f g qs)
  ]
]

length-keep_le : (f : ℕ × ℕ → Bool) (qs : List (ℕ × ℕ)) → length (keep f qs) ≤ length qs
length-keep_le f [] = omega arith
length-keep_le f (q ∷ qs) = elim (Bool-cases (f q)) [
  | inl e ↦ rw e (omega (arith, length-keep_le f qs))
  | inr e ↦ rw e (omega (arith, length-keep_le f qs))
]

-- In a valid tree whose leaves hold chains of a valid table, for a 64-bit key, and with more fuel,
-- at most 2^32, than any leaf has rows: remove_from of a pattern ends without a fault. All the
-- pairs that search and it_next then give for the key are those of before that do not fit the
-- pattern, in order, and for any other 64-bit key they are those of before.
pub search_all-remove_from :
    (pt : Ptree) (spot : ℕ → Spot) (table : Ptable) (ids : ℕ → List ℕ) (nfree lfree frees : List ℕ)
    (fuel pk p0 p1 q0 q1 : ℕ) (models : Option RidSet)
    → Filled pt spot table ids nfree lfree frees
    → pk < 2 ^ 64
    → ((m : ℕ) → length (ids m) < fuel)
    → fuel ≤ 2 ^ 32
    → (status : ℕ) × (pt' : Ptree) × (table' : Ptable) × (models' : Option RidSet) × (remove_from
          fuel pt table pk p0 p1 models
        ≡ some (status, pt', table', models'))
      × (search_all fuel fuel pt' table' pk q0 q1
          ≡ (search_all fuel fuel pt table pk q0 q1 >>= λ qs. some (unfit p0 p1 qs)))
      × ((key : ℕ)
          → key < 2 ^ 64
          → key ≢ pk
          → search_all fuel fuel pt' table' key q0 q1 ≡ search_all fuel fuel pt table key q0 q1)
unfolding remove_from
search_all-remove_from pt spot table ids nfree lfree frees fuel pk p0 p1 q0 q1 models v word short
      fits32 =
    let bound : (m : ℕ) → length (pairs table (ids m)) < fuel =
      λ m. omega (arith, length-pairs table (ids m), short m) in
    elim (get_leaf_cases v.tree pk word) [
      | inr (e, h) ↦ (
        0,
        pt,
        table,
        models,
        simp e,
        search_all-missing v fuel fuel pk q0 q1 e
            ∙ sym (
                ap (λ o. o >>= λ qs. some (unfit p0 p1 qs))
                  (search_all-missing v fuel fuel pk q0 q1 e)),
        λ key kw d. refl,
      )
      | inl (n, e, sn) ↦
          let (pt', spot', table', ids', nfree', lfree', frees', models', run, v', r) =
            remove_from-Filled fuel pt spot table ids nfree lfree frees n pk p0 p1 models v sn
              (short n) fits32 in
          let before = search_found fuel n pk q0 q1 v sn (bound n) in
          let f = matches q0 q1 in
          (
            _,
            pt',
            table',
            models',
            run,
            elim (r.kept) [
              | inl (s', k) ↦
                  let l =
                    length-keep_le (λ q. negate (Pile.matches p0 p1 q)) (pairs table (ids n)) in
                  search_found fuel n pk q0 q1 v' s' (omega (arith, ap length k, l, bound n))
                  ∙ ap (λ ys. some (keep f ys)) k
                  ∙ ap some (keep-keep f (λ q. negate (Pile.matches p0 p1 q)) (pairs table (ids n)))
                  ∙ sym (ap (λ o. o >>= λ qs. some (unfit p0 p1 qs)) before)
              | inr (h, k) ↦
                  let gone : get_leaf pt' pk ≡ some 0 = elim (get_leaf_cases v'.tree pk word) [
                    | inl (m, z, s') ↦ absurd (h m s')
                    | inr (z, h') ↦ z
                  ] in
                  search_all-missing v' fuel fuel pk q0 q1 gone
                  ∙ sym (ap (λ ys. some (keep f ys)) k)
                  ∙ ap some (keep-keep f (λ q. negate (Pile.matches p0 p1 q)) (pairs table (ids n)))
                  ∙ sym (ap (λ o. o >>= λ qs. some (unfit p0 p1 qs)) before)
            ],
            λ key kw d. elim (get_leaf_cases v'.tree key kw) [
              | inl (m, z, s') ↦
                  let (s0, k) = r.others m key d s' in
                  search_found fuel m key q0 q1 v' s' (omega (arith, ap length k, bound m))
                  ∙ ap (λ ys. some (keep f ys)) k
                  ∙ sym (search_found fuel m key q0 q1 v s0 (bound m))
              | inr (z, h) ↦ elim (get_leaf_cases v.tree key kw) [
                | inl (m, z', s0) ↦ absurd (h m (r.stays m key d s0))
                | inr (z', h') ↦
                    search_all-missing v' fuel fuel key q0 q1 z
                    ∙ sym (search_all-missing v fuel fuel key q0 q1 z')
              ]
            ],
          )
    ]
