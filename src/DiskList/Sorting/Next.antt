-- ===== src/DiskList/Sorting/Next.antt =====
-- What a call for the next item of a merge returns and leaves.
use store.Prelude.{
  ℕ, zero, suc, ◌+◌, ◌-◌, ◌≤◌, ◌<◌, ◌≡◌, refl, ap, Bool, true, false, Option, some, none, arith,
  update, ◌==◌, ==→eq, Bool-cases, inl, inr, ◌⊎◌,
}
use store.DiskList.{FsList, MergeState}
use store.DiskList.Sorting.Merge.{has_more}

module _ {A : Type 0} where
  -- The row `j` of the file is still to be read, in the chunk `c`.
  abbrev pub IsLeft : MergeState A → ℕ → ℕ → Type 0
  IsLeft m c j = (c < m.chunks) × (m.chunk_pos.cell c ≤ j) × (j < m.chunk_end.cell c)

  -- No row of a chunk is below one that stands before it.
  unfoldable pub IsSorted : FsList A → MergeState A → Type 0
  IsSorted l m =
      (c i j : ℕ)
      → IsLeft m c i
      → IsLeft m c j
      → i ≤ j
      → l.sort_func (l.file.cell j) (l.file.cell i) ≡ false

  -- The rows left in the first `n` chunks.
  abbrev pub rows_left : ℕ → MergeState A → ℕ
  rows_left zero m = 0
  rows_left (suc n) m = m.chunk_end.cell n - m.chunk_pos.cell n + rows_left n m

  -- The merge after the row at the head of `b` has been passed over.
  abbrev pub passed : MergeState A → ℕ → MergeState A
  passed m b = record m {
    chunk_pos = record (m.chunk_pos) { cell = update m.chunk_pos.cell b (m.chunk_pos.cell b + 1) };
  }

  -- What a call leaves of the merge `m` in the list `l'`: with no item, all rows that were left are
  -- the same as the last item; with an item, it differs from the last one, no row that is left now is
  -- below it, and each row that was left is left, or the same as the last item, or this one.
  unfoldable pub Next : (A → A → Bool) → FsList A → MergeState A → Option A → FsList A → Type 0
  Next same l m none l' =
      (l'.merge ≡ none) × ((c j : ℕ) → IsLeft m c j → same m.last (l.file.cell j) ≡ true)
  Next same l m (some x) l' =
      (m' : MergeState A) × (l'.merge ≡ some m')
      × (m'.last ≡ x)
      × (same m.last x ≡ false)
      × ((c j : ℕ) → IsLeft m' c j → l.sort_func (l.file.cell j) x ≡ false)
      × ((c j : ℕ)
          → IsLeft m c j
          → IsLeft m' c j ⊎ ((same m.last (l.file.cell j) ≡ true) ⊎ (l.file.cell j ≡ x)))

  rows_left-above : (n b : ℕ) (m : MergeState A) → n ≤ b → rows_left n (passed m b) ≡ rows_left n m
  rows_left-above zero b m h = refl
  rows_left-above (suc n) b m h =
      let ih = rows_left-above n b m (omega arith) in
      let other : (passed m b).chunk_pos.cell n ≡ m.chunk_pos.cell n = ground arith in
      omega (arith, ih, other)

  pub rows_left-passed :
      (n b : ℕ) (m : MergeState A)
      → b < n
      → has_more m b ≡ true
      → rows_left n (passed m b) + 1 ≡ rows_left n m
  rows_left-passed zero b m h e = absurd (omega arith)
  rows_left-passed (suc n) b m h e =
      let more : m.chunk_pos.cell b < m.chunk_end.cell b = ground arith in
      elim (Bool-cases (n == b)) [
        | inl t ↦
            let here : n ≡ b = ==→eq n b t in
            let moved : (passed m b).chunk_pos.cell n ≡ m.chunk_pos.cell b + 1 = ground arith in
            let at_pos = ap m.chunk_pos.cell here in
            let at_end = ap m.chunk_end.cell here in
            omega (arith, rows_left-above n b m (omega arith), moved, at_pos, at_end, more)
        | inr t ↦
            let lower : b < n = ground arith in
            let ih = rows_left-passed n b m lower e in
            let other : (passed m b).chunk_pos.cell n ≡ m.chunk_pos.cell n = ground arith in
            omega (arith, ih, other)
      ]

  -- A row that was left is left, or the one passed over.
  pub IsLeft-passed :
      (m : MergeState A) (b c j : ℕ)
      → IsLeft m c j
      → IsLeft (passed m b) c j ⊎ (j ≡ m.chunk_pos.cell b)
  IsLeft-passed m b c j h = elim (Bool-cases (c == b)) [
    | inl e ↦ elim (Bool-cases (j == m.chunk_pos.cell b)) [
      | inl t ↦ inr (==→eq j (m.chunk_pos.cell b) t)
      | inr t ↦
          let at_pos = ap m.chunk_pos.cell (==→eq c b e) in
          let moved : (passed m b).chunk_pos.cell c ≡ m.chunk_pos.cell b + 1 = ground arith in
          inl (h.0, ground (arith, moved, at_pos, h.1), h.2)
    ]
    | inr e ↦
        let other : (passed m b).chunk_pos.cell c ≡ m.chunk_pos.cell c = ground arith in
        inl (h.0, omega (arith, other, h.1), h.2)
  ]

  pub IsLeft-before : (m : MergeState A) (b c j : ℕ) → IsLeft (passed m b) c j → IsLeft m c j
  IsLeft-before m b c j h = (h.0, ground (arith, h.1), h.2)
