-- ===== src/DiskList/Sorting/Unique.antt =====
-- `next_sort_uniqed` over sorted chunks.
use store.Prelude.{
  ℕ, zero, suc, ◌+◌, ◌<◌, ◌≡◌, refl, sym, ap, subst, ◌∙◌, Bool, true, false, Option, some, none,
  arith, lt→ltb, Bool-cases, inl, inr, ◌⊎◌,
}
use store.DiskList.{FsList, MergeState, Io, SortState, unsorted, sorted, chunk_sorted}
use store.DiskList.Sorting.{best_from, merge_from, merge_next, next_sort_uniqed}
use store.DiskList.Sorting.Merge.{IsOrder, IsMerge, head, has_more, Best, best_from-Best, head_row}
use store.DiskList.Sorting.Next.{
  IsLeft, IsSorted, rows_left, passed, Next, rows_left-passed, IsLeft-passed, IsLeft-before,
}

module _ {R : Type 0} where
  -- Both sorted states are read by a merge, and the merge under way goes on.
  by_sort :
      (s : SortState) (x y : R)
      → (s ≡ sorted) ⊎ (s ≡ chunk_sorted)
      → (elim s as (λ _. R) [ unsorted ↦ x | sorted ↦ y | chunk_sorted ↦ y ]) ≡ y
  by_sort s x y k = elim k [ inl t ↦ rw t refl | inr t ↦ rw t refl ]

  by_merge :
      {M : Type 0} (q : Option M) (m : M) (f : M → R) (x : R)
      → q ≡ some m
      → (elim q as (λ _. R) [ some n ↦ f n | none ↦ x ]) ≡ f m
  by_merge q m f x e = rw e refl

module _ {A : Type 0} (same : A → A → Bool) where
  -- A row that is left makes its chunk have more, with its head at or before the row.
  has_more-IsLeft : (m : MergeState A) (c j : ℕ) → IsLeft m c j → has_more m c ≡ true
  has_more-IsLeft m c j h = ground (arith, h.1, h.2)

  -- No row that is left is below the best head.
  above_best :
      (l : FsList A) (m : MergeState A) (b c j : ℕ)
      → IsOrder l.sort_func
      → IsSorted l m
      → ((d : ℕ)
          → d < m.chunks
          → has_more m d ≡ true
          → l.sort_func (head l m d) (head l m b) ≡ false)
      → IsLeft m c j
      → l.sort_func (l.file.cell j) (head l m b) ≡ false
  unfolding IsSorted
  above_best l m b c j o s lowest h =
      let more = has_more-IsLeft m c j h in
      let start : IsLeft m c (m.chunk_pos.cell c) = (h.0, omega arith, omega (arith, h.1, h.2)) in
      o.cotrans (l.file.cell j) (head l m c) (head l m b) (s c (m.chunk_pos.cell c) j start h h.1)
        (lowest c h.0 more)

  IsSorted-passed :
      (l : FsList A) (m : MergeState A) (b n : ℕ)
      → IsSorted l m
      → IsSorted (record l { count = n }) (passed m b)
  unfolding IsSorted
  IsSorted-passed l m b n s c i j h k = s c i j (IsLeft-before m b c i h) (IsLeft-before m b c j k)

  -- What holds when a row that is the same as the last one has been passed over.
  Next-passed :
      (l l' : FsList A) (m : MergeState A) (b n : ℕ) (out : Option A)
      → same m.last (head l m b) ≡ true
      → Next same (record l { count = n }) (passed m b) out l'
      → Next same l m out l'
  unfolding Next
  Next-passed l l' m b n none e h = (
    h.0,
    λ c j k. elim (IsLeft-passed m b c j k) [
      | inl t ↦ h.1 c j t
      | inr t ↦ subst (λ i. same m.last (l.file.cell i) ≡ true) (sym t) e
    ],
  )
  Next-passed l l' m b n (some x) e h =
      let (m', at, last, new, low, all) = h in
      (
        m',
        at,
        last,
        new,
        low,
        λ c j k. elim (IsLeft-passed m b c j k) [
          | inl t ↦ all c j t
          | inr t ↦ inr (inl (subst (λ i. same m.last (l.file.cell i) ≡ true) (sym t) e))
        ],
      )

  -- With `f` rounds the merge returns an item, or finds that none is left.
  abbrev pub Returns : ℕ → FsList A → MergeState A → Type 0
  Returns f l m =
      (status : ℕ) × (out : Option A) × (l' : FsList A) × (merge_from same f l m
        ≡ some (status, out, l'))
      × Next same l m out l'

  chosen :
      (f : ℕ) (l : FsList A) (m : MergeState A)
      → IsMerge l m
      → IsSorted l m
      → IsOrder l.sort_func
      → rows_left m.chunks m < suc f
      → ((l1 : FsList A) (m1 : MergeState A)
          → IsMerge l1 m1
          → IsSorted l1 m1
          → IsOrder l1.sort_func
          → rows_left m1.chunks m1 < f
          → Returns f l1 m1)
      → (best : Option ℕ) → best_from m.chunks l m 0 none ≡ some best
      → Best l m m.chunks best
      → Returns (suc f) l m
  unfolding merge_from Best Next
  chosen f l m v s o h ih none run w = (
    0,
    none,
    record l { merge = none },
    rw run refl,
    (refl, λ c j k. absurd (ground (arith, has_more-IsLeft m c j k, w c k.0))),
  )
  chosen f l m v s o h ih (some b) run w =
      let x = head l m b in
      let start = lt→ltb b m.chunk_pos.size (omega (arith, w.0, v.starts)) in
      let row = head_row l m v o b w.0 w.1 in
      let fewer = rows_left-passed m.chunks b m w.0 w.1 in
      let l1 = record l { count = l.count + 1 } in
      elim (Bool-cases (same m.last x)) [
        | inl e ↦
            let (status, out, l', runs, next) =
              ih l1 (passed m b) (record { starts = v.starts; ends = v.ends; inside = v.inside })
                (IsSorted-passed l m b (l.count + 1) s) o (omega (arith, fewer, h)) in
            (
              status,
              out,
              l',
              simp (run, start, row, e) runs,
              Next-passed l l' m b (l.count + 1) out e next,
            )
        | inr e ↦
            let m' = record (passed m b) { last = x } in
            (
              1,
              some x,
              record l1 { merge = some m' },
              simp (run, start, row, e),
              (
                m',
                refl,
                refl,
                e,
                (λ c j k. above_best l m b c j o s w.2 (IsLeft-before m b c j k)),
                (λ c j k. elim (IsLeft-passed m b c j k) [
                  | inl t ↦ inl t
                  | inr t ↦ inr (inr (ap l.file.cell t))
                ]),
              ),
            )
      ]

  pub merge_from-Next :
      (f : ℕ) (l : FsList A) (m : MergeState A)
      → IsMerge l m
      → IsSorted l m
      → IsOrder l.sort_func
      → rows_left m.chunks m < f
      → Returns f l m
  unfolding Best
  merge_from-Next zero l m v s o h = absurd (omega arith)
  merge_from-Next (suc f) l m v s o h =
      let (best, run, w) =
        best_from-Best l m v o m.chunks 0 none (omega arith) (λ c k. absurd (omega arith)) in
      chosen f l m v s o h (merge_from-Next f) best run w

  -- For a sorted list with a merge under way, whose chunks lie in the file and are sorted by a
  -- comparison that is a strict weak order, and more fuel than rows left, next_sort_uniqed ends
  -- without a fault. With no item, all rows that were left are the same as the last item. With an
  -- item, it differs from the last one, no row that is left then is below it, and each row that
  -- was left is still left, the same as the last item, or this one.
  pub next_sort_uniqed-Next :
      (blank : A) (fuel : ℕ) (io : Io) (l : FsList A) (m : MergeState A)
      → (l.sort ≡ sorted) ⊎ (l.sort ≡ chunk_sorted)
      → l.merge ≡ some m
      → IsMerge l m
      → IsSorted l m
      → IsOrder l.sort_func
      → rows_left m.chunks m < fuel
      → (status : ℕ) × (out : Option A) × (l' : FsList A) × (next_sort_uniqed same blank fuel io l
          ≡ some (status, out, l'))
        × Next same l m out l'
  unfolding next_sort_uniqed merge_next
  next_sort_uniqed-Next blank fuel io l m k e v s o h =
      let (status, out, l', run, next) = merge_from-Next fuel l m v s o h in
      (status, out, l', by_sort l.sort _ _ k ∙ by_merge l.merge m _ _ e ∙ run, next)
