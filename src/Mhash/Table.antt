-- ===== src/Mhash/Table.antt =====
-- What a model hash holds, and when it is in order.
use store.Prelude.{
  ℕ, zero, suc, ◌+◌, ◌≤◌, ◌<◌, ◌≡◌, ◌≢◌, refl, sym, ap, ◌∙◌, false, arith, ◌==◌, if◌then◌else◌,
  Bool-cases, inl, inr, ◌⊎◌, ==→eq, ==→ne, ne→==,
}
use store.Mhash.{Mhash, MhashEntry, mhash_entry, empty}

-- The value of the model `r` among the first `n` entries, or 0.
pub contents_from : (ℕ → MhashEntry) → ℕ → ℕ → ℕ
contents_from f r zero = 0
contents_from f r (suc n) = if (f n).rid == r then (f n).val else contents_from f r n

-- What the table says of a model, wherever its entry is.
abbrev pub contents : Mhash → ℕ → ℕ
contents mh r = contents_from mh.entry r mh.size

-- Each model has one entry, which stands in its search distance, before the end of the table.
pub record IsTable (mh : Mhash) : Type 0 where
  pub not_empty : 0 < mh.size
  pub unset : (i : ℕ) → (mh.entry i).rid ≡ 0 → (mh.entry i).val ≡ 0
  pub inside : (i : ℕ) → (mh.entry i).rid ≢ 0 → i < mh.size
  pub above : (i : ℕ) → (mh.entry i).rid ≢ 0 → mhash_entry mh.size (mh.entry i).rid ≤ i
  pub near :
      (i : ℕ) → (mh.entry i).rid ≢ 0 → i ≤ mhash_entry mh.size (mh.entry i).rid + mh.search_dist
  pub single : (i j : ℕ) → (mh.entry i).rid ≢ 0 → (mh.entry i).rid ≡ (mh.entry j).rid → i ≡ j

pub empty-IsTable : IsTable empty
empty-IsTable = record {
  not_empty = omega arith;
  unset = λ i e. refl;
  inside = λ i n. absurd (n refl);
  above = λ i n. absurd (n refl);
  near = λ i n. absurd (n refl);
  single = λ i j n. absurd (n refl);
}

pub blank_outside : (mh : Mhash) (i : ℕ) → IsTable mh → mh.size ≤ i → (mh.entry i).rid ≡ 0
blank_outside mh i t l = elim (Bool-cases ((mh.entry i).rid == 0)) [
  | inl q ↦ ==→eq (mh.entry i).rid 0 q
  | inr q ↦ let m = t.inside i (==→ne (mh.entry i).rid 0 q) in omega (arith, l, m)
]

contents_from_here :
    (f : ℕ → MhashEntry) (r n i : ℕ)
    → ((i j : ℕ) → (f i).rid ≢ 0 → (f i).rid ≡ (f j).rid → i ≡ j)
    → r ≢ 0
    → (f i).rid ≡ r
    → i < n
    → contents_from f r n ≡ (f i).val
unfolding contents_from
contents_from_here f r zero i one z e l = absurd (omega arith)
contents_from_here f r (suc n) i one z e l = elim (Bool-cases ((f n).rid == r)) [
  | inl q ↦
      let here : (f n).rid ≡ r = ==→eq (f n).rid r q in
      let same : n ≡ i = one n i (λ e0. z (sym here ∙ e0)) (here ∙ sym e) in
      rw q (ap (λ (x : ℕ). (f x).val) same)
  | inr q ↦ rw q (
      contents_from_here f r n i one z e (
        omega
          (arith, l, λ (s : i ≡ n). ==→ne (f n).rid r q (ap (λ (x : ℕ). (f x).rid) (sym s) ∙ e))))
]

contents_from_absent :
    (f : ℕ → MhashEntry) (r n : ℕ) → ((i : ℕ) → i < n → (f i).rid ≢ r) → contents_from f r n ≡ 0
unfolding contents_from
contents_from_absent f r zero absent = refl
contents_from_absent f r (suc n) absent =
    let other : ((f n).rid == r) ≡ false = ne→== (f n).rid r (absent n (omega arith)) in
    rw other (contents_from_absent f r n (λ i l. absent i (omega arith)))

pub contents-here :
    (mh : Mhash) (r i : ℕ)
    → IsTable mh
    → r ≢ 0
    → (mh.entry i).rid ≡ r
    → contents mh r ≡ (mh.entry i).val
contents-here mh r i t z e =
    contents_from_here mh.entry r mh.size i t.single z e (t.inside i (λ e0. z (sym e ∙ e0)))

pub contents_absent : (mh : Mhash) (r : ℕ) → ((i : ℕ) → (mh.entry i).rid ≢ r) → contents mh r ≡ 0
contents_absent mh r absent = contents_from_absent mh.entry r mh.size (λ i l. absent i)

-- An entry of the model `r` among the first `n`, or none.
pub entry_or_none :
    (f : ℕ → MhashEntry) (r n : ℕ) → ((i : ℕ) × ((f i).rid ≡ r)) ⊎ ((i : ℕ) → i < n → (f i).rid ≢ r)
entry_or_none f r zero = inr (λ i l. absurd (omega arith))
entry_or_none f r (suc n) = elim (Bool-cases ((f n).rid == r)) [
  | inl q ↦ inl (n, ==→eq (f n).rid r q)
  | inr q ↦ elim (entry_or_none f r n) [
    | inl found ↦ inl found
    | inr absent ↦ inr (λ i l e. elim (Bool-cases (i == n)) [
      | inl here ↦ ==→ne (f n).rid r q (ap (λ (x : ℕ). (f x).rid) (sym (==→eq i n here)) ∙ e)
      | inr other ↦ absent i (let apart = ==→ne i n other in omega (arith, l, apart)) e
    ])
  ]
]

-- Two tables with the same entries of `r`, wherever they stand, have the same contents there.
pub contents_ext :
    (mh mh' : Mhash) (r : ℕ)
    → IsTable mh
    → IsTable mh'
    → r ≢ 0
    → ((i : ℕ)
        → (mh.entry i).rid ≡ r
        → (j : ℕ) × ((mh'.entry j).rid ≡ r) × ((mh'.entry j).val ≡ (mh.entry i).val))
    → ((j : ℕ) → (mh'.entry j).rid ≡ r → (i : ℕ) × ((mh.entry i).rid ≡ r))
    → contents mh' r ≡ contents mh r
contents_ext mh mh' r t t' z there back = elim (entry_or_none mh.entry r mh.size) [
  | inl (i, e) ↦
      let (j, e', v) = there i e in
      contents-here mh' r j t' z e' ∙ v ∙ sym (contents-here mh r i t z e)
  | inr absent ↦
      let nowhere : ((i : ℕ) → (mh.entry i).rid ≢ r) =
        λ i e. absent i (t.inside i (λ e0. z (sym e ∙ e0))) e in
      contents_absent mh' r (λ j e. let (i, e') = back j e in nowhere i e')
      ∙ sym (contents_absent mh r nowhere)
]
