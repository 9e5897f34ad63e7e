-- ===== src/Mhash/Doubled.antt =====
-- `double_size` keeps a table in order, and what it says.
use store.Prelude.{
  ℕ, ◌+◌, ◌-◌, ◌*◌, ◌^◌, ◌≡◌, ◌≢◌, refl, sym, ap, ◌∙◌, Bool, true, false, ◌&&◌, arith, some, ◌==◌,
  ltb, leb, if◌then◌else◌, Bool-cases, inl, inr, if-some,
}
use store.Mhash.{Mhash, MhashEntry, blank, mhash_entry, move_from, double_size}
use store.Mhash.Table.{IsTable, contents, contents_ext}
use store.Mhash.Move.{Moved, move_from-Moved}
use store.Mhash.Grow.{doubled, origin, image, settled, same_place}

left_unset :
    (s q : Bool) (e : MhashEntry)
    → (e.rid ≡ 0 → e.val ≡ 0)
    → (if s then e else if q then blank else e).rid ≡ 0
    → (if s then e else if q then blank else e).val ≡ 0
left_unset true q e h = h
left_unset false true e h = λ _. refl
left_unset false false e h = h

moved_unset :
    (s q : Bool) (e old : MhashEntry)
    → (e.rid ≡ 0 → e.val ≡ 0)
    → (old.rid ≡ 0 → old.val ≡ 0)
    → (if s then old else if q then e else old).rid ≡ 0
    → (if s then old else if q then e else old).val ≡ 0
moved_unset true q e old h w = w
moved_unset false true e old h w = h
moved_unset false false e old h w = w

doubled_unset :
    (mh mh' : Mhash) (j : ℕ)
    → IsTable mh
    → Moved mh.size 0 (doubled mh) mh'
    → (mh'.entry j).rid ≡ 0
    → (mh'.entry j).val ≡ 0
doubled_unset mh mh' j t m = elim (Bool-cases (ltb j mh.size)) [
  | inl q ↦ rw (m.low j (omega arith) (ground arith)) (
      left_unset ((mh.entry j).rid == 0) (leb mh.size (mhash_entry (mh.size * 2) (mh.entry j).rid))
        (mh.entry j) (t.unset j))
  | inr q ↦ elim (Bool-cases (ltb j (mh.size + mh.size))) [
    | inr w ↦ rw (m.beyond j (ground arith)) (t.unset j)
    | inl w ↦
        let i = j - mh.size in
        let at : j ≡ mh.size + i = ground arith in
        rw (at, m.high i (omega arith) (ground arith))
          (moved_unset ((mh.entry i).rid == 0)
            (leb mh.size (mhash_entry (mh.size * 2) (mh.entry i).rid)) (mh.entry i)
            (mh.entry (mh.size + i)) (t.unset i) (t.unset (mh.size + i)))
  ]
]

doubled-IsTable : (mh mh' : Mhash) → IsTable mh → Moved mh.size 0 (doubled mh) mh' → IsTable mh'
doubled-IsTable mh mh' t m = record {
  not_empty = omega (arith, m.size, t.not_empty);
  unset = λ j. doubled_unset mh mh' j t m;
  inside = λ j z. (settled mh mh' j t m (origin mh mh' t m j z) z).0;
  above = λ j z. (settled mh mh' j t m (origin mh mh' t m j z) z).1;
  near = λ j z. (settled mh mh' j t m (origin mh mh' t m j z) z).2;
  single = λ i j z e.
      let o = origin mh mh' t m i z in
      let p = origin mh mh' t m j (λ e'. z (e ∙ e')) in
      let rids = sym (ap MhashEntry.rid o.same) ∙ e ∙ ap MhashEntry.rid p.same in
      same_place mh mh' i j o p
        (t.single o.from p.from (λ e'. z (ap MhashEntry.rid o.same ∙ e')) rids);
}

-- A table that grows without a fault is in order again, and says the same of every model.
pub double_size-IsTable :
    (mh mh' : Mhash)
    → IsTable mh
    → double_size mh ≡ some mh'
    → IsTable mh' × ((r : ℕ) → r ≢ 0 → contents mh' r ≡ contents mh r)
unfolding double_size
double_size-IsTable mh mh' t run =
    let (_, moves) =
      if-some (ltb (mh.size * 2) (2 ^ 31) && ltb (mh.search_dist * 2 + 1) (2 ^ 31))
        (move_from mh.size mh.size (doubled mh) 0) mh' run in
    let m = move_from-Moved mh.size mh.size (doubled mh) mh' 0 (omega arith) moves in
    let t' = doubled-IsTable mh mh' t m in
    (
      t',
      λ r z.
          contents_ext mh mh' r t t' z
            (λ i e.
              let used : (mh.entry i).rid ≢ 0 = λ e0. z (sym e ∙ e0) in
              let (j, same) = image mh mh' m i (t.inside i used) used in
              (j, ap MhashEntry.rid same ∙ e, ap MhashEntry.val same))
            (λ j e.
              let o = origin mh mh' t m j (λ e0. z (sym e ∙ e0)) in
              (o.from, sym (ap MhashEntry.rid o.same) ∙ e)),
    )
