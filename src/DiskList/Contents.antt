-- ===== src/DiskList/Contents.antt =====
-- What a list holds: `flush`, `add`, `get`.
use store.Prelude.{
  ℕ, suc, ◌+◌, ◌-◌, ◌%◌, ◌^◌, ◌≤◌, ◌<◌, ◌≡◌, refl, sym, ap, ap₂, ◌∙◌, true, false, List, [], ◌∷◌,
  ◌++◌, append_assoc, append-nil, some, arith, update, slice, slice-snoc, slice-update_above,
  slice-copied, length, length-slice, length-append, get_elem?, get_elem?-slice, get_elem?-ge,
  get_elem?-append_left, get_elem?-append_right, ltb, leb, ◌==◌, if◌then◌else◌, lt→ltb, Bool-cases,
  inl, inr,
}
use store.DiskList.{FsList, Io, buffer_size, written, flushed, flush, buffer_item, add, get}

module _ {A : Type 0} where
  abbrev pub contents : FsList A → List A
  contents l = slice l.file.cell 0 l.offset ++ slice l.buffer.cell 0 l.buffer_pos

  -- A list that is open, with what is in the buffer to stand behind the file.
  pub record IsList (l : FsList A) : Type 0 where
    pub open_list : l.named ≡ true
    pub stored : l.file.size ≡ l.offset
    pub room : l.buffer.size ≡ buffer_size
    pub fits : l.buffer_pos ≤ buffer_size

  pub length-contents : (l : FsList A) → length (contents l) ≡ l.offset + l.buffer_pos
  length-contents l =
      length-append (slice l.file.cell 0 l.offset) (slice l.buffer.cell 0 l.buffer_pos)
      ∙ omega
          (arith, length-slice l.file.cell 0 l.offset, length-slice l.buffer.cell 0 l.buffer_pos)

  pub flushed-IsList :
      (l : FsList A)
      → IsList l
      → IsList (flushed l) × (contents (flushed l) ≡ contents l) × ((flushed l).buffer_pos ≡ 0)
  unfolding flushed
  flushed-IsList l v = elim (Bool-cases (ltb 0 l.buffer_pos)) [
    | inl e ↦
        let longer : ltb l.file.size (l.offset + l.buffer_pos) ≡ true = ground (arith, v.stored) in
        rw (e, longer)
          (
            record { open_list = v.open_list; stored = refl; room = v.room; fits = omega arith },
            append-nil (slice (written l).cell 0 (l.offset + l.buffer_pos))
                ∙ slice-copied l.file.cell l.buffer.cell l.offset l.buffer_pos,
            refl,
          )
    | inr e ↦
        let none_there : l.buffer_pos ≡ 0 = ground arith in
        rw (e, none_there)
          (
            record { open_list = v.open_list; stored = refl; room = v.room; fits = omega arith },
            rw v.stored refl,
            refl,
          )
  ]

  pub flush-flushed :
      (io : Io) (l : FsList A)
      → IsList l
      → io.seeks ≡ true
      → io.writes ≡ true
      → flush io l ≡ (0, flushed l)
  unfolding flush
  flush-flushed io l v s w = elim (Bool-cases (ltb 0 l.buffer_pos)) [
    | inl e ↦ simp (v.open_list, s, w, e)
    | inr e ↦ simp (v.open_list, s, w, e)
  ]

  buffer_item-contents :
      (l : FsList A) (x : A)
      → IsList l
      → l.buffer_pos < buffer_size
      → length (contents l) < 2 ^ 31
      → (l' : FsList A) × (buffer_item l x ≡ some (length (contents l), l'))
        × IsList l'
        × (contents l' ≡ contents l ++ x ∷ [])
  unfolding buffer_item
  buffer_item-contents l x v s small =
      let n = length-contents l in
      let index : (l.offset + (l.buffer_pos + 1) - 1) % 2 ^ 32 ≡ length (contents l) =
        omega (arith, n, small) in
      (
        record l {
          buffer = record (l.buffer) { cell = update l.buffer.cell l.buffer_pos x };
          buffer_pos = l.buffer_pos + 1;
        },
        simp (lt→ltb l.buffer_pos l.buffer.size (omega (arith, v.room)), index),
        record { open_list = v.open_list; stored = v.stored; room = v.room; fits = omega arith },
        ap (λ ys. slice l.file.cell 0 l.offset ++ ys)
              (ap (slice (update l.buffer.cell l.buffer_pos x) 0) {x = l.buffer_pos + 1}
                  {y = suc l.buffer_pos} (omega arith)
                ∙ slice-snoc (update l.buffer.cell l.buffer_pos x) 0 l.buffer_pos
                ∙ ap₂ (λ (ys : List A) (y : A). ys ++ y ∷ [])
                    (slice-update_above l.buffer.cell l.buffer_pos 0 l.buffer_pos x (omega arith))
                    (ground arith))
            ∙ sym (
                append_assoc (slice l.file.cell 0 l.offset) (slice l.buffer.cell 0 l.buffer_pos)
                  (x ∷ [])),
      )

  -- On an open list of fewer than 2^31 items, where seeks and writes succeed, add returns the
  -- number of items that the list held and the list then holds them and the new one behind them; a
  -- full buffer is flushed first.
  pub add-contents :
      (io : Io) (l : FsList A) (x : A)
      → IsList l
      → io.seeks ≡ true
      → io.writes ≡ true
      → length (contents l) < 2 ^ 31
      → (l' : FsList A) × (add io l x ≡ some (length (contents l), l'))
        × IsList l'
        × (contents l' ≡ contents l ++ x ∷ [])
  unfolding add
  add-contents io l x v s w small =
      let (v', same, start) = flushed-IsList l v in
      elim (Bool-cases (l.buffer_pos == buffer_size)) [
        | inl e ↦
            let (l', run, valid, held) =
              buffer_item-contents (flushed l) x v' (omega (arith, start)) (rw same small) in
            (
              l',
              rw (flush-flushed io l v s w, e) (run ∙ rw same refl),
              valid,
              held ∙ ap (λ ys. ys ++ x ∷ []) same,
            )
        | inr e ↦
            let (l', run, valid, held) =
              buffer_item-contents l x v (ground (arith, v.fits)) small in
            (l', rw (flush-flushed io l v s w, e) run, valid, held)
      ]

  -- On an open list, where seeks and reads succeed, get gives the item at an index with the status
  -- 0, from the file or the buffer, and the status 1 with no item behind the end, and the list
  -- holds what it held.
  pub get-contents :
      (io : Io) (l : FsList A) (pos : ℕ)
      → IsList l
      → io.seeks ≡ true
      → io.reads ≡ true
      → (l' : FsList A) × (get io l pos
          ≡ some (if ltb pos (length (contents l)) then 0 else 1, get_elem? (contents l) pos, l'))
        × IsList l'
        × (contents l' ≡ contents l)
  unfolding get
  get-contents io l pos v s r =
      let n = length-contents l in
      let files = slice l.file.cell 0 l.offset in
      let items = slice l.buffer.cell 0 l.buffer_pos in
      let size = length-slice l.file.cell 0 l.offset in
      elim (Bool-cases (leb l.offset pos)) [
        | inl e ↦ elim (Bool-cases (leb (l.offset + l.buffer_pos) pos)) [
          | inl f ↦
              let past : ltb pos (length (contents l)) ≡ false = ground (arith, n) in
              (l, rw (e, f, past, get_elem?-ge (contents l) pos (ground (arith, n))) refl, v, refl)
          | inr f ↦
              let below : ltb pos (length (contents l)) ≡ true = ground (arith, n) in
              let here : pos - l.offset < l.buffer_pos = ground arith in
              let inside : ltb (pos - l.offset) l.buffer.size ≡ true =
                ground (arith, v.room, v.fits) in
              (
                l,
                rw
                    (
                      e,
                      f,
                      below,
                      inside,
                      get_elem?-append_right files items pos (ground (arith, size)),
                      size,
                      get_elem?-slice l.buffer.cell 0 l.buffer_pos (pos - l.offset) here,
                    )
                    (ap (λ k. some (0, some (l.buffer.cell k), l)) (omega arith)),
                v,
                refl,
              )
        ]
        | inr e ↦
            let below : ltb pos (length (contents l)) ≡ true = ground (arith, n) in
            let here : pos < l.offset = ground arith in
            let inside : ltb pos l.file.size ≡ true = ground (arith, v.stored) in
            (
              record l { position = pos + 1 },
              rw
                  (
                    e,
                    s,
                    r,
                    below,
                    inside,
                    get_elem?-append_left files items pos (omega (arith, size, here)),
                    get_elem?-slice l.file.cell 0 l.offset pos here,
                  )
                  (ap (λ k. some (0, some (l.file.cell k), record l { position = pos + 1 }))
                    (omega arith)),
              record { open_list = v.open_list; stored = v.stored; room = v.room; fits = v.fits },
              refl,
            )
      ]
