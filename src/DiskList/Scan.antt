-- ===== src/DiskList/Scan.antt =====
-- Reading a list from its start: `rewind`, `next_value`; and `truncate`.
use store.Prelude.{
  ℕ, suc, ◌+◌, ◌-◌, ◌≡◌, refl, sym, ap, ◌∙◌, true, List, [], ◌∷◌, ◌++◌, append-nil, Option, some,
  none, arith, slice, ltb, Bool-cases, inl, inr,
}
use store.DiskList.{FsList, Io, flushed, rewind, next_value, truncate}
use store.DiskList.Contents.{contents, IsList, flushed-IsList}

module _ {A : Type 0} where
  -- What the file has from its position on.
  abbrev pub unread : FsList A → List A
  unread l = slice l.file.cell l.position (l.file.size - l.position)

  abbrev pub first : List A → Option A
  first [] = none
  first (x ∷ xs) = some x

  abbrev pub others : List A → List A
  others [] = []
  others (x ∷ xs) = xs

  abbrev pub status_of : Option A → ℕ
  status_of none = 0
  status_of (some x) = 1

  -- Where reads succeed, next_value gives the status 1 and the first item that the file has from
  -- its position on, or the status 0 and no item at the end, and leaves the others to be read.
  pub next_value-unread :
      (io : Io) (l : FsList A)
      → io.reads ≡ true
      → (l' : FsList A) × (next_value io l ≡ (status_of (first (unread l)), first (unread l), l'))
        × (unread l' ≡ others (unread l))
        × (contents l' ≡ contents l)
  unfolding next_value
  next_value-unread io l r = elim (Bool-cases (ltb l.position l.file.size)) [
    | inl e ↦
        let n = l.file.size - (l.position + 1) in
        let more : l.file.size - l.position ≡ suc n = ground arith in
        (
          record l { position = l.position + 1 },
          rw (r, e, more) refl,
          rw more (
              ap (λ k. slice l.file.cell k n) {x = l.position + 1} {y = suc l.position}
                (omega arith)),
          refl,
        )
    | inr e ↦
        let end : l.file.size - l.position ≡ 0 = ground arith in
        (l, rw (r, e, end) refl, rw end refl, refl)
  ]

  -- After an open list is flushed and rewound, what is to be read is all that the list held.
  pub rewind-unread : (l : FsList A) → IsList l → unread (rewind (flushed l)) ≡ contents l
  unfolding rewind
  rewind-unread l v =
      let (w, same, empty) = flushed-IsList l v in
      let q = flushed l in
      ap (λ n. slice q.file.cell 0 n) {x = q.file.size - 0} {y = q.offset} (omega (arith, w.stored))
      ∙ sym (append-nil (slice q.file.cell 0 q.offset))
      ∙ ap (λ n. slice q.file.cell 0 q.offset ++ slice q.buffer.cell 0 n) (sym empty)
      ∙ same

  -- A list that has been truncated is empty.
  pub truncate-contents :
      (io : Io) (l : FsList A)
      → IsList l
      → io.truncates ≡ true
      → (l' : FsList A) × (truncate io l ≡ (0, l')) × IsList l' × (contents l' ≡ [])
  unfolding truncate
  truncate-contents io l v t = (
    record l { file = record (l.file) { size = 0 }; offset = 0; buffer_pos = 0 },
    rw t refl,
    record { open_list = v.open_list; stored = refl; room = v.room; fits = omega arith },
    refl,
  )
