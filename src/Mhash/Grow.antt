-- ===== src/Mhash/Grow.antt =====
-- `double_size`: where the entries of the new table come from.
use native.Mathlib.Nat.{mod-lt, mod-mod_of_dvd, dvd-mul_right, mod-eq_of_lt, mod-eq-sub-mod}
use store.Prelude.{
  ℕ, ◌+◌, ◌-◌, ◌*◌, ◌/◌, ◌%◌, ◌≤◌, ◌<◌, ◌≡◌, ◌≢◌, refl, sym, ap, ap₂, ◌∙◌, Bool, true, false, arith,
  ◌==◌, ltb, leb, if◌then◌else◌, Bool-cases, inl, inr, ◌⊎◌, ==→eq, ne→==,
}
use store.Mhash.{Mhash, MhashEntry, blank, mhash_entry}
use store.Mhash.Table.{IsTable, blank_outside}
use store.Mhash.Move.{left, moved, Moved}

half :
    (x o : ℕ)
    → 0 < o
    → (x % (o * 2) < o → x % o ≡ x % (o * 2)) × (o ≤ x % (o * 2) → x % o + o ≡ x % (o * 2))
half x o l =
    let low = mod-lt x {m = o * 2} (omega arith) in
    let again : x % (o * 2) % o ≡ x % o = mod-mod_of_dvd o x (dvd-mul_right o 2) in
    (
      λ less. sym again ∙ mod-eq_of_lt less,
      λ more.
          let rest : x % (o * 2) - o < o = omega (arith, low) in
          let e = sym again ∙ mod-eq-sub-mod more ∙ mod-eq_of_lt rest in omega (arith, e, more),
    )

left-rid_cases :
    (s q : Bool) (e : MhashEntry)
    → (s ≡ true → e.rid ≡ 0)
    → (if s then e else if q then blank else e).rid ≢ 0
    → ((if s then e else if q then blank else e) ≡ e) × (q ≡ false)
left-rid_cases true q e h z = absurd (z (h refl))
left-rid_cases false true e h z = absurd (z refl)
left-rid_cases false false e h z = (refl, refl)

moved-rid_cases :
    (s q : Bool) (e old : MhashEntry)
    → old.rid ≡ 0
    → (if s then old else if q then e else old).rid ≢ 0
    → ((if s then old else if q then e else old) ≡ e) × (q ≡ true)
moved-rid_cases true q e old w z = absurd (z w)
moved-rid_cases false true e old w z = (refl, refl)
moved-rid_cases false false e old w z = absurd (z w)

left-rid :
    (size o : ℕ) (e : MhashEntry)
    → (left size o e).rid ≢ 0
    → (left size o e ≡ e) × (mhash_entry size e.rid < o)
left-rid size o e z =
    let q = leb o (mhash_entry size e.rid) in
    let (same, test) = left-rid_cases (e.rid == 0) q e (==→eq e.rid 0) z in (same, ground arith)

moved-rid :
    (size o : ℕ) (e old : MhashEntry)
    → old.rid ≡ 0
    → (moved size o e old).rid ≢ 0
    → (moved size o e old ≡ e) × (o ≤ mhash_entry size e.rid)
moved-rid size o e old w z =
    let q = leb o (mhash_entry size e.rid) in
    let (same, test) = moved-rid_cases (e.rid == 0) q e old w z in (same, ground arith)

-- The entry at `j` of the new table was at `from`.
pub record Origin (mh mh' : Mhash) (j : ℕ) : Type 0 where
  pub from : ℕ
  pub inside : from < mh.size
  pub same : mh'.entry j ≡ mh.entry from
  place :
      ((j ≡ from)
        × (mhash_entry (mh.size * 2) (mh.entry from).rid ≡ mhash_entry mh.size (mh.entry from).rid))
      ⊎ ((j ≡ mh.size + from)
          × (mhash_entry (mh.size * 2) (mh.entry from).rid
              ≡ mh.size + mhash_entry mh.size (mh.entry from).rid))

abbrev pub doubled : Mhash → Mhash
doubled mh = record mh { size = mh.size * 2; search_dist = mh.search_dist * 2 + 1 }

pub origin :
    (mh mh' : Mhash)
    → IsTable mh
    → Moved mh.size 0 (doubled mh) mh'
    → (j : ℕ) → (mh'.entry j).rid ≢ 0
    → Origin mh mh' j
origin mh mh' t m j z = elim (Bool-cases (ltb j mh.size)) [
  | inl q ↦
      let l : j < mh.size = ground arith in
      let at = m.low j (omega arith) l in
      let (same, low) =
        left-rid (mh.size * 2) mh.size (mh.entry j) (λ e. z (ap MhashEntry.rid at ∙ e)) in
      let (halved, _) = half ((mh.entry j).rid / 1024) mh.size t.not_empty in
      record { from = j; inside = l; same = at ∙ same; place = inl (refl, sym (halved low)) }
  | inr q ↦ elim (Bool-cases (ltb j (mh.size + mh.size))) [
    | inr w ↦
        let l : mh.size + mh.size ≤ j = ground arith in
        absurd (z (ap MhashEntry.rid (m.beyond j l) ∙ blank_outside mh j t (omega (arith, l))))
    | inl w ↦
        let i = j - mh.size in
        let l : i < mh.size = ground arith in
        let at : mh.size + i ≡ j = ground arith in
        let found = ap mh'.entry (sym at) ∙ m.high i (omega arith) l in
        let (same, high) =
          moved-rid (mh.size * 2) mh.size (mh.entry i) (mh.entry (mh.size + i))
            (blank_outside mh (mh.size + i) t (omega arith))
            (λ e. z (ap MhashEntry.rid found ∙ e)) in
        let (_, halved) = half ((mh.entry i).rid / 1024) mh.size t.not_empty in
        record {
          from = i;
          inside = l;
          same = found ∙ same;
          place = inr (sym at, let e = halved high in omega (arith, e));
        }
  ]
]

-- Every entry has a place in the new table.
pub image :
    (mh mh' : Mhash)
    → Moved mh.size 0 (doubled mh) mh'
    → (i : ℕ) → i < mh.size
    → (mh.entry i).rid ≢ 0
    → (j : ℕ) × (mh'.entry j ≡ mh.entry i)
image mh mh' m i l z =
    let q = leb mh.size (mhash_entry (mh.size * 2) (mh.entry i).rid) in
    let used = ne→== (mh.entry i).rid 0 z in
    elim (Bool-cases q) [
      | inl e ↦ (mh.size + i, m.high i (omega arith) l ∙ rw (used, e) refl)
      | inr e ↦ (i, m.low i (omega arith) l ∙ rw (used, e) refl)
    ]

-- The three bounds on the place of an entry of the new table.
pub settled :
    (mh mh' : Mhash) (j : ℕ)
    → IsTable mh
    → Moved mh.size 0 (doubled mh) mh'
    → Origin mh mh' j
    → (mh'.entry j).rid ≢ 0
    → (j < mh'.size)
      × (mhash_entry mh'.size (mh'.entry j).rid ≤ j)
      × (j ≤ mhash_entry mh'.size (mh'.entry j).rid + mh'.search_dist)
settled mh mh' j t m o z =
    let rid = ap MhashEntry.rid o.same in
    let hash = ap₂ mhash_entry m.size rid in
    let z' : (mh.entry o.from).rid ≢ 0 = λ e. z (rid ∙ e) in
    let low = t.above o.from z' in
    let high = t.near o.from z' in
    elim o.place [
      | inl (at, h) ↦ (
        omega (arith, at, o.inside, m.size),
        omega (arith, hash, h, at, low),
        omega (arith, hash, h, at, high, m.dist),
      )
      | inr (at, h) ↦ (
        omega (arith, at, o.inside, m.size),
        omega (arith, hash, h, at, low),
        omega (arith, hash, h, at, high, m.dist),
      )
    ]

pub same_place :
    (mh mh' : Mhash) (i j : ℕ) (o : Origin mh mh' i) (p : Origin mh mh' j) → o.from ≡ p.from → i ≡ j
same_place mh mh' i j o p e =
    let hash = ap (λ (x : ℕ). mhash_entry mh.size (mh.entry x).rid) e in
    let hash' = ap (λ (x : ℕ). mhash_entry (mh.size * 2) (mh.entry x).rid) e in
    elim o.place [
      | inl (at, h) ↦ elim p.place [
        | inl (at', h') ↦ omega (arith, at, at', e)
        | inr (at', h') ↦ omega (arith, h, h', hash, hash', o.inside)
      ]
      | inr (at, h) ↦ elim p.place [
        | inl (at', h') ↦ omega (arith, h, h', hash, hash', o.inside)
        | inr (at', h') ↦ omega (arith, at, at', e)
      ]
    ]
