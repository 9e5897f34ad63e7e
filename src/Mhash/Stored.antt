-- ===== src/Mhash/Stored.antt =====
-- `fs_mhash_put` on a table in order: what the table says afterwards, growth included.
use mathlib.Core.Option.{some-injective}
use store.Prelude.{
  ℕ, zero, suc, ◌+◌, ◌≤◌, ◌<◌, ◌≡◌, ◌≢◌, sym, ap, ap₂, ◌∙◌, arith, Option, none, some, ◌==◌,
  if◌then◌else◌, Bool-cases, inl, inr, ==→eq, ==→ne, ◌>>=◌, Option-cases, bind-some,
}
use store.Mhash.{Mhash, MhashEntry, mhash_entry, find_slot, put_at, double_size, put}
use store.Mhash.Table.{IsTable, contents, contents-here, contents_ext}
use store.Mhash.Doubled.{double_size-IsTable}
use store.Mhash.Put.{Found, find_slot-Found, Written, put_at-Written}

-- No other entry has the model.
pub only :
    (mh : Mhash) (r j i : ℕ) → IsTable mh → r ≢ 0 → Found mh r j → (mh.entry i).rid ≡ r → i ≡ j
only mh r j i t z s e =
    let used : (mh.entry i).rid ≢ 0 = λ e0. z (sym e ∙ e0) in
    let hash = ap (mhash_entry mh.size) e in
    elim s.state [
      | inl found ↦ t.single i j used (e ∙ sym found)
      | inr (_, absent) ↦ absurd (
          absent i (omega (arith, hash, t.above i used)) (omega (arith, hash, t.near i used))
            (t.inside i used) e)
    ]

placed :
    (mh mh' : Mhash) (j r v i : ℕ)
    → IsTable mh
    → Found mh r j
    → Written mh mh' j r v
    → (mh'.entry i).rid ≢ 0
    → (i < mh'.size)
      × (mhash_entry mh'.size (mh'.entry i).rid ≤ i)
      × (i ≤ mhash_entry mh'.size (mh'.entry i).rid + mh'.search_dist)
placed mh mh' j r v i t s w z = elim (Bool-cases (i == j)) [
  | inl q ↦
      let same = ==→eq i j q in
      let hash = ap₂ mhash_entry w.size (ap MhashEntry.rid (ap mh'.entry same ∙ w.here)) in
      (
        omega (arith, same, w.size, s.inside),
        omega (arith, hash, same, s.low),
        omega (arith, hash, same, s.high, w.dist),
      )
  | inr q ↦
      let e = ap MhashEntry.rid (w.other i (==→ne i j q)) in
      let used : (mh.entry i).rid ≢ 0 = λ e0. z (e ∙ e0) in
      let hash = ap₂ mhash_entry w.size e in
      (
        omega (arith, w.size, t.inside i used),
        omega (arith, hash, t.above i used),
        omega (arith, hash, t.near i used, w.dist),
      )
]

-- Two entries of the new table with one model.
Written-single :
    (mh mh' : Mhash) (j r v i k : ℕ)
    → IsTable mh
    → r ≢ 0
    → Found mh r j
    → Written mh mh' j r v
    → (mh'.entry i).rid ≢ 0
    → (mh'.entry i).rid ≡ (mh'.entry k).rid
    → i ≡ k
Written-single mh mh' j r v i k t z s w n e = elim (Bool-cases (i == j)) [
  | inl q ↦ elim (Bool-cases (k == j)) [
    | inl p ↦ ==→eq i j q ∙ sym (==→eq k j p)
    | inr p ↦
        let was =
          sym (ap MhashEntry.rid (w.other k (==→ne k j p)))
          ∙ sym e
          ∙ ap MhashEntry.rid (ap mh'.entry (==→eq i j q) ∙ w.here) in
        ==→eq i j q ∙ sym (only mh r j k t z s was)
  ]
  | inr q ↦
      let left = ap MhashEntry.rid (w.other i (==→ne i j q)) in
      elim (Bool-cases (k == j)) [
        | inl p ↦
            let was = sym left ∙ e ∙ ap MhashEntry.rid (ap mh'.entry (==→eq k j p) ∙ w.here) in
            only mh r j i t z s was ∙ sym (==→eq k j p)
        | inr p ↦
            t.single i k (λ e0. n (left ∙ e0))
              (sym left ∙ e ∙ ap MhashEntry.rid (w.other k (==→ne k j p)))
      ]
]

pub Written-IsTable :
    (mh mh' : Mhash) (j r v : ℕ)
    → IsTable mh
    → r ≢ 0
    → Found mh r j
    → Written mh mh' j r v
    → IsTable mh'
Written-IsTable mh mh' j r v t z s w = record {
  not_empty = omega (arith, w.size, t.not_empty);
  unset = λ i e. elim (Bool-cases (i == j)) [
    | inl q ↦ absurd (z (sym (ap MhashEntry.rid (ap mh'.entry (==→eq i j q) ∙ w.here)) ∙ e))
    | inr q ↦
        let same = w.other i (==→ne i j q) in
        ap MhashEntry.val same ∙ t.unset i (sym (ap MhashEntry.rid same) ∙ e)
  ];
  inside = λ i n. (placed mh mh' j r v i t s w n).0;
  above = λ i n. (placed mh mh' j r v i t s w n).1;
  near = λ i n. (placed mh mh' j r v i t s w n).2;
  single = λ i k. Written-single mh mh' j r v i k t z s w;
}

-- The slot did not have another model.
pub slot_apart :
    (mh : Mhash) (r r' j i : ℕ) → Found mh r j → r' ≢ 0 → r' ≢ r → (mh.entry i).rid ≡ r' → i ≢ j
slot_apart mh r r' j i s z n e same =
    let here = sym (ap (λ (x : ℕ). (mh.entry x).rid) same) ∙ e in
    elim s.state [ inl found ↦ n (sym here ∙ found) | inr (unset, _) ↦ z (sym here ∙ unset) ]

pub Written-contents :
    (mh mh' : Mhash) (j r v r' : ℕ)
    → IsTable mh
    → r ≢ 0
    → Found mh r j
    → Written mh mh' j r v
    → r' ≢ 0
    → contents mh' r' ≡ (if r' == r then v else contents mh r')
Written-contents mh mh' j r v r' t z s w z' =
    let t' = Written-IsTable mh mh' j r v t z s w in
    elim (Bool-cases (r' == r)) [
      | inl q ↦
          let here = ap MhashEntry.rid w.here ∙ sym (==→eq r' r q) in
          rw q (contents-here mh' r' j t' z' here ∙ ap MhashEntry.val w.here)
      | inr q ↦
          let n = ==→ne r' r q in
          rw q (
            contents_ext mh mh' r' t t' z'
              (λ i e.
                let same = w.other i (slot_apart mh r r' j i s z' n e) in
                (i, ap MhashEntry.rid same ∙ e, ap MhashEntry.val same))
              (λ i e.
                let apart : i ≢ j =
                  λ same. n (sym (sym (ap MhashEntry.rid (ap mh'.entry same ∙ w.here)) ∙ e)) in
                (i, sym (ap MhashEntry.rid (w.other i apart)) ∙ e)))
    ]

-- The table after `n` times that it has grown.
abbrev pub grown : ℕ → Mhash → Option Mhash
grown zero mh = some mh
grown (suc n) mh = double_size mh >>= λ mh'. grown n mh'

-- `put` after its search.
abbrev put_of : ℕ → Mhash → ℕ → ℕ → Option ℕ → Option Mhash
put_of k mh r v slot = elim slot [
  | some entry ↦ some (put_at mh entry r v)
  | none ↦ double_size mh >>= λ mh'. put k mh' r v
]

-- The put of a table that need not grow.
pub put_found :
    (k : ℕ) (mh : Mhash) (r v j : ℕ)
    → find_slot mh r ≡ some j
    → put (suc k) mh r v ≡ some (put_at mh j r v)
unfolding put
put_found k mh r v j e = ap (put_of k mh r v) e

put_grows :
    (k : ℕ) (mh mh' : Mhash) (r v : ℕ)
    → find_slot mh r ≡ none
    → double_size mh ≡ some mh'
    → put (suc k) mh r v ≡ put k mh' r v
unfolding put
put_grows k mh mh' r v e e' = ap (put_of k mh r v) e ∙ ap (λ x. x >>= λ mh''. put k mh'' r v) e'

put_now :
    (n : ℕ) (mh : Mhash) (r v i : ℕ)
    → IsTable mh
    → r ≢ 0
    → find_slot mh r ≡ some i
    → (mh' : Mhash) × (put (suc n) mh r v ≡ some mh')
      × IsTable mh'
      × ((r' : ℕ) → r' ≢ 0 → contents mh' r' ≡ (if r' == r then v else contents mh r'))
put_now n mh r v i t z e =
    let s = find_slot-Found mh r i t.not_empty e in
    let w = put_at-Written mh i r v in
    (
      put_at mh i r v,
      put_found n mh r v i e,
      Written-IsTable mh (put_at mh i r v) i r v t z s w,
      λ r' z'. Written-contents mh (put_at mh i r v) i r v r' t z s w z',
    )

-- For a table in order, a model that is not 0, and a number n of growths that end without a fault
-- and after which the search finds an entry: put ends with fuel n + 1, the table is in order
-- again, and it has the new value for the model and the old values for all others.
pub put-contents :
    (n : ℕ) (mh g : Mhash) (r v j : ℕ)
    → IsTable mh
    → r ≢ 0
    → grown n mh ≡ some g
    → find_slot g r ≡ some j
    → (mh' : Mhash) × (put (suc n) mh r v ≡ some mh')
      × IsTable mh'
      × ((r' : ℕ) → r' ≢ 0 → contents mh' r' ≡ (if r' == r then v else contents mh r'))
put-contents zero mh g r v j t z grow slot =
    let here : find_slot mh r ≡ some j =
      ap (λ (x : Mhash). find_slot x r) (some-injective mh g grow) ∙ slot in
    put_now zero mh r v j t z here
put-contents (suc n) mh g r v j t z grow slot = elim (Option-cases (find_slot mh r)) [
  | inl (i, e) ↦ put_now (suc n) mh r v i t z e
  | inr e ↦
      let (next, doubles, grow') = bind-some (double_size mh) (grown n) g grow in
      let (t', same) = double_size-IsTable mh next t doubles in
      let (mh', run, order, says) = put-contents n next g r v j t' z grow' slot in
      (
        mh',
        put_grows (suc n) mh next r v e doubles ∙ run,
        order,
        λ r' z'. says r' z' ∙ ap (λ (x : ℕ). if r' == r then v else x) (same r' z'),
      )
]
