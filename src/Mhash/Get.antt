-- ===== src/Mhash/Get.antt =====
-- `fs_mhash_get`, which looks at one entry fewer than `fs_mhash_put`.
use native.Mathlib.Nat.{mod-lt, mod-eq_of_lt, mod_self}
use store.Prelude.{
  ℕ, zero, suc, ◌+◌, ◌/◌, ◌%◌, ◌≤◌, ◌<◌, ◌≡◌, ◌≢◌, refl, sym, ap, ap₂, ◌∙◌, Bool, false, arith,
  some, ◌==◌, if◌then◌else◌, Bool-cases, inl, inr, ◌⊎◌, ==→eq, ==→ne, eq→==, ne→==, ltb,
}
use store.Mhash.{Mhash, MhashEntry, mhash_entry, get_from, get, find_slot, put_at, put}
use store.Mhash.Table.{IsTable, contents, contents-here, contents_absent, entry_or_none}
use store.Mhash.Put.{Found, find_slot-Found, Written, put_at-Written}
use store.Mhash.Stored.{Written-IsTable, Written-contents, slot_apart, only, put_found}

-- The entry after `i`, with the wrap-around.
next_lem :
    (i size : ℕ)
    → i < size
    → ((suc i < size) × ((i + 1) % size ≡ suc i)) ⊎ ((suc i ≡ size) × ((i + 1) % size ≡ 0))
next_lem i size l = elim (Bool-cases (ltb (suc i) size)) [
  | inl q ↦
      let less : i + 1 < size = ground arith in
      inl (omega arith, let e = mod-eq_of_lt less in omega (arith, e))
  | inr q ↦ let same : i + 1 ≡ size = ground arith in inr (omega arith, rw same (mod_self size))
]

get_from_none :
    (k : ℕ) (mh : Mhash) (r i : ℕ)
    → i < mh.size
    → ((j : ℕ) → i ≤ j → j < i + k → (mh.entry j).rid ≢ r)
    → get_from k mh r i ≡ 0
unfolding get_from
get_from_none zero mh r i l absent = refl
get_from_none (suc k) mh r i l absent =
    let other = ne→== (mh.entry i).rid r (absent i (omega arith) (omega arith)) in
    elim (next_lem i mh.size l) [
      | inl (less, e) ↦
          let rest =
            get_from_none k mh r (suc i) less
              (λ j m n. absent j (omega (arith, m)) (omega (arith, n))) in
          rw (other, e, rest) (ground arith)
      | inr (same, e) ↦ rw (other, e) refl
    ]

get_from_found :
    (k : ℕ) (mh : Mhash) (r i j : ℕ)
    → ((i' : ℕ) → (mh.entry i').rid ≡ r → i' ≡ j)
    → (mh.entry j).rid ≡ r
    → j < mh.size
    → i ≤ j
    → j < i + k
    → get_from k mh r i ≡ (mh.entry j).val
unfolding get_from
get_from_found zero mh r i j one e l m n = absurd (omega arith)
get_from_found (suc k) mh r i j one e l m n = elim (Bool-cases ((mh.entry i).rid == r)) [
  | inl q ↦ rw q (ap (λ (x : ℕ). (mh.entry x).val) (one i (==→eq (mh.entry i).rid r q)))
  | inr q ↦
      let apart : i ≢ j =
        λ same. ==→ne (mh.entry i).rid r q (ap (λ (x : ℕ). (mh.entry x).rid) same ∙ e) in
      elim (next_lem i mh.size (omega (arith, l, m))) [
        | inl (less, e') ↦
            let rest =
              get_from_found k mh r (suc i) j one e l (omega (arith, m, apart))
                (omega (arith, n)) in
            let more : (suc i == 0) ≡ false = ground arith in rw (q, e', more) rest
        | inr (same, e') ↦ absurd (omega (arith, same, m, apart, l))
      ]
]

-- Where `get` does not look for the model `r`, though `put` does.
abbrev pub last_place : Mhash → ℕ → ℕ
last_place mh r = mhash_entry mh.size r + mh.search_dist

-- For a table in order and a model that is not 0, get returns what the table says of it, except
-- for a model that stands at the full search distance from its hash: there it returns 0.
pub get-stored :
    (mh : Mhash) (r : ℕ)
    → IsTable mh
    → r ≢ 0
    → get mh r ≡ (if (mh.entry (last_place mh r)).rid == r then 0 else contents mh r)
unfolding get
get-stored mh r t z =
    let hash = mhash_entry mh.size r in
    let d = mh.search_dist in
    let inside = mod-lt (r / 1024) t.not_empty in
    let used : ((i : ℕ) → (mh.entry i).rid ≡ r → (mh.entry i).rid ≢ 0) = λ i e e0. z (sym e ∙ e0) in
    let one : ((i j : ℕ) → (mh.entry i).rid ≡ r → (mh.entry j).rid ≡ r → i ≡ j) =
      λ i j e e'. t.single i j (used i e) (e ∙ sym e') in
    elim (Bool-cases ((mh.entry (hash + d)).rid == r)) [
      | inl q ↦
          let e = ==→eq (mh.entry (hash + d)).rid r q in
          rw q (
            get_from_none d mh r hash inside
              (λ j m n e'. let same = one j (hash + d) e' e in omega (arith, n, same)))
      | inr q ↦ elim (entry_or_none mh.entry r mh.size) [
        | inl (j, e) ↦
            let place = ap (mhash_entry mh.size) e in
            let apart : j ≢ hash + d = λ same.
              ==→ne (mh.entry (hash + d)).rid r q
                (ap (λ (x : ℕ). (mh.entry x).rid) (sym same) ∙ e) in
            rw q (
              get_from_found d mh r hash j (λ i e'. one i j e' e) e (t.inside j (used j e))
                (omega (arith, place, t.above j (used j e)))
                (omega (arith, place, t.near j (used j e), apart))
              ∙ sym (contents-here mh r j t z e))
        | inr absent ↦
            let nowhere : ((i : ℕ) → (mh.entry i).rid ≢ r) =
              λ i e. absent i (t.inside i (used i e)) e in
            rw q (
              get_from_none d mh r hash inside (λ j m n. nowhere j)
              ∙ sym (contents_absent mh r nowhere))
      ]
    ]

-- The test of the last place in the new table, for the model that was put and for the others.
last_put :
    (mh mh' : Mhash) (r v j : ℕ)
    → IsTable mh
    → r ≢ 0
    → Found mh r j
    → Written mh mh' j r v
    → ((mh'.entry (last_place mh r)).rid == r) ≡ (j == last_place mh r)
last_put mh mh' r v j t z s w =
    let p = last_place mh r in
    elim (Bool-cases (j == p)) [
      | inl q ↦
          let here = ap MhashEntry.rid (ap mh'.entry (sym (==→eq j p q)) ∙ w.here) in
          eq→== (mh'.entry p).rid r here ∙ sym q
      | inr q ↦
          let n = ==→ne j p q in
          let rid = ap MhashEntry.rid (w.other p (λ e. n (sym e))) in
          ne→== (mh'.entry p).rid r (λ e. n (sym (only mh r j p t z s (sym rid ∙ e)))) ∙ sym q
    ]

last_other :
    (mh mh' : Mhash) (r v j r' : ℕ)
    → Found mh r j
    → Written mh mh' j r v
    → r' ≢ 0
    → r' ≢ r
    → ((mh'.entry (last_place mh r')).rid == r') ≡ ((mh.entry (last_place mh r')).rid == r')
last_other mh mh' r v j r' s w z n =
    let p = last_place mh r' in
    elim (Bool-cases (p == j)) [
      | inl q ↦
          let same = ==→eq p j q in
          let here = ap MhashEntry.rid (ap mh'.entry same ∙ w.here) in
          ne→== (mh'.entry p).rid r' (λ e. n (sym e ∙ here))
          ∙ sym (ne→== (mh.entry p).rid r' (λ e. slot_apart mh r r' j p s z n e same))
      | inr q ↦ ap (λ (e : MhashEntry). e.rid == r') (w.other p (==→ne p j q))
    ]

-- For a table in order, a model that is not 0 and an entry that the search finds for it: put ends
-- without growth, and then get returns the value put, or 0 where that entry is at the full search
-- distance, and for all other models what it returned before.
pub get-put :
    (mh : Mhash) (r v j : ℕ)
    → IsTable mh
    → r ≢ 0
    → find_slot mh r ≡ some j
    → (mh' : Mhash) × (put 1 mh r v ≡ some mh')
      × ((r' : ℕ)
          → r' ≢ 0
          → get mh' r' ≡ (if r' == r then (if j == last_place mh r then 0 else v) else get mh r'))
get-put mh r v j t z slot =
    let s = find_slot-Found mh r j t.not_empty slot in
    let mh' = put_at mh j r v in
    let w = put_at-Written mh j r v in
    let t' = Written-IsTable mh mh' j r v t z s w in
    (
      mh',
      put_found zero mh r v j slot,
      λ r' z'.
          let place : last_place mh' r' ≡ last_place mh r' =
            ap₂ (λ (x y : ℕ). mhash_entry x r' + y) w.size w.dist in
          let found =
            get-stored mh' r' t' z'
            ∙ ap (λ (p : ℕ). if (mh'.entry p).rid == r' then 0 else contents mh' r') place in
          let says = Written-contents mh mh' j r v r' t z s w z' in
          elim (Bool-cases (r' == r)) [
            | inl q ↦
                let same = ==→eq r' r q in
                let test =
                  ap (λ (x : ℕ). (mh'.entry (last_place mh x)).rid == x) same
                  ∙ last_put mh mh' r v j t z s w in
                found
                ∙ ap₂ (λ (b : Bool) (x : ℕ). if b then 0 else x) test
                    (says ∙ ap (λ b. if b then v else contents mh r') q)
                ∙ sym (ap (λ b. if b then (if j == last_place mh r then 0 else v) else get mh r') q)
            | inr q ↦
                let n = ==→ne r' r q in
                let was = get-stored mh r' t z' in
                found
                ∙ ap₂ (λ (b : Bool) (x : ℕ). if b then 0 else x)
                    (last_other mh mh' r v j r' s w z' n)
                    (says ∙ ap (λ b. if b then v else contents mh r') q)
                ∙ sym was
                ∙ sym (ap (λ b. if b then (if j == last_place mh r then 0 else v) else get mh r') q)
          ],
    )
