-- ===== src/Ptable/Remove/Pair.antt =====
-- `remove_pair`: what the loop over the rows of a chain leaves.
use store.Prelude.{
  ℕ, zero, suc, ◌+◌, ◌≤◌, ◌<◌, ◌≡◌, ◌≢◌, refl, ap, ◌∙◌, List, [], ◌∷◌, ◌++◌, Bool, true, false,
  Option, none, some, arith, All-append, All-append_inv, Apart, Apart-cons, Distinct, count, length,
  ◌==◌, ltb, if◌then◌else◌, ◌&&◌, ne→==, eq→==, lt→ltb, Bool-cases, inl, inr,
}
use store.Rid.{null}
use store.RidSet.{RidSet}
use store.Ptable.{Row}
use store.Ptable.Invariant.{IsChain, IsTable, Frame, Frame-trans, Frame-sub}
use store.Ptable.Free.{pair_of, Same, Same-trans}
use store.Ptable.Remove.{Removal, note_model, drop_row, remove_row, remove_rows}
use store.Ptable.Remove.Drop.{
  anchor, prev_row, KeepsRet, IsAnchor, Dropped, drop_row-Dropped, KeepsRet-refl, KeepsRet-step,
  KeepsRet-trans, KeepsRet-models,
}
use store.Ptable.Remove.Pile.{
  pile_nil, left_nil, matches, pile, left, pile_cons, left_cons, left_skip,
}

remove_row-drop :
    (s : Removal) (p0 p1 b : ℕ) (r : Row)
    → (p0 == null && p1 == null) ≡ false
    → matches p0 p1 (r.first, r.second) ≡ true
    → remove_row s p0 p1 b r
      ≡ drop_row
          (record s { models = if p0 == null then note_model s.models r.first else s.models })
          b
          r.cont
unfolding remove_row
remove_row-drop s p0 p1 b r w m = ground arith

remove_row-keep :
    (s : Removal) (p0 p1 b : ℕ) (r : Row)
    → (p0 == null && p1 == null) ≡ false
    → matches p0 p1 (r.first, r.second) ≡ false
    → remove_row s p0 p1 b r ≡ some (record s { prev = some b })
unfolding remove_row
remove_row-keep s p0 p1 b r w m = ground arith

-- The link to the row at hand stays where only later rows are touched.
anchor-Frame :
    (p : Option ℕ) (s s' : Removal) (ids fs : List ℕ)
    → IsAnchor p s ids fs
    → Frame ids s.table s'.table
    → s'.ret ≡ s.ret
    → anchor p s' ≡ anchor p s
anchor-Frame none s s' ids fs a fr r = r
anchor-Frame (some k) s s' ids fs a fr r = ap (λ (x : Row). x.cont) (fr.same k a.1 a.2)

IsAnchor-models :
    (p : Option ℕ) (s : Removal) (ms : Option RidSet) (ids fs : List ℕ)
    → IsAnchor p s ids fs
    → IsAnchor p (record s { models = ms }) ids fs
IsAnchor-models none s ms ids fs a = tt
IsAnchor-models (some k) s ms ids fs a = a

IsAnchor-Dropped :
    (p : Option ℕ) (s s1 : Removal) (i : ℕ) (ids fs : List ℕ)
    → s1.table.length ≡ s.table.length
    → IsAnchor p s (i ∷ ids) fs
    → IsAnchor p s1 ids (i ∷ fs)
IsAnchor-Dropped none s s1 i ids fs l a = tt
IsAnchor-Dropped (some k) s s1 i ids fs l a = (a.0, omega (arith, a.1), a.2.1, (a.2.0, a.3))

module _ (p0 p1 : ℕ) (d : ℕ → ℕ × ℕ) where
  abbrev pub selects : ℕ → Bool
  selects i = matches p0 p1 (d i)

  -- The models of the rows that a wildcard in the model position removes.
  unfoldable pub noted : List ℕ → Option RidSet → Option RidSet
  noted [] ms = ms
  noted (i ∷ ids) ms = noted ids (if selects i && (p0 == null) then note_model ms (d i).0 else ms)

  -- What the loop leaves behind of the rows `ids` and the free list `fs`.
  pub record Swept (p : Option ℕ) (s s' : Removal) (ids fs : List ℕ) : Type 0 where
    pub valid : IsTable s'.table (pile selects ids fs)
    pub chain : IsChain s'.table (anchor p s') (left selects ids)
    pub frame : Frame (prev_row p ++ ids) s.table s'.table
    pub ret : KeepsRet p s s'
    pub same : Same s.table s'.table
    pub removed : s'.removed ≡ s.removed + count selects ids
    pub models : s'.models ≡ noted ids s.models

  -- The outcome of a round that drops the row `i`, and of the rounds behind it.
  Dropped-Swept :
      (p : Option ℕ) (s s1 s' : Removal) (ms : Option RidSet) (i : ℕ) (ids fs : List ℕ)
      → selects i ≡ true
      → ms ≡ (if p0 == null then note_model s.models (d i).0 else s.models)
      → Dropped p (record s { models = ms }) s1 i ids fs
      → Swept p s1 s' ids (i ∷ fs)
      → Swept p s s' (i ∷ ids) fs
  unfolding noted
  Dropped-Swept p s s1 s' ms i ids fs t m x y = record {
    valid = rw (pile_cons, t) y.valid;
    chain = rw (left_skip selects i ids t) y.chain;
    frame =
        Frame-trans (prev_row p ++ i ∷ ids)
          (Frame-sub (prev_row p ++ i ∷ []) (prev_row p ++ i ∷ ids)
            (λ j h.
              let (u, r) = All-append_inv (λ z. z ≢ j) (prev_row p) (i ∷ ids) h in
              All-append (λ z. z ≢ j) (prev_row p) (i ∷ []) u (r.0, tt))
            x.frame)
          (Frame-sub (prev_row p ++ ids) (prev_row p ++ i ∷ ids)
            (λ j h.
              let (u, r) = All-append_inv (λ z. z ≢ j) (prev_row p) (i ∷ ids) h in
              All-append (λ z. z ≢ j) (prev_row p) ids u r.1)
            y.frame);
    ret = KeepsRet-trans p s s1 s' (KeepsRet-models p s s1 ms x.ret) y.ret;
    same = Same-trans x.same y.same;
    removed = rw t (omega (arith, x.removed, y.removed));
    models = y.models ∙ rw (x.models, m, t) refl;
  }

  Kept-Swept :
      (p : Option ℕ) (s s' : Removal) (i : ℕ) (ids fs : List ℕ)
      → selects i ≡ false
      → anchor p s ≡ i
      → 1 ≤ i
      → i < s.table.length
      → IsAnchor p s (i ∷ ids) fs
      → Swept (some i) (record s { prev = some i }) s' ids fs
      → Swept p s s' (i ∷ ids) fs
  unfolding noted
  Kept-Swept p s s' i ids fs t z lo hi k y = record {
    valid = rw (pile_cons, t) y.valid;
    chain = rw (left_cons selects i ids t) (
      anchor-Frame p s s' (i ∷ ids) fs k y.frame y.ret ∙ z,
      lo,
      omega (arith, y.same.length),
      y.chain,
    );
    frame =
        Frame-sub (i ∷ ids) (prev_row p ++ i ∷ ids)
          (λ j h. (All-append_inv (λ z. z ≢ j) (prev_row p) (i ∷ ids) h).1) y.frame;
    ret = KeepsRet-step p s s s' (KeepsRet-refl p s) y.ret;
    same = y.same;
    removed = rw t (omega (arith, y.removed));
    models = rw t y.models;
  }

  pub remove_rows-Swept :
      (f : ℕ) (p : Option ℕ) (s : Removal) (b : ℕ) (ids fs : List ℕ)
      → (p0 == null && p1 == null) ≡ false
      → ((j : ℕ) → pair_of s.table j ≡ d j)
      → s.prev ≡ p
      → anchor p s ≡ b
      → IsTable s.table fs
      → IsChain s.table b ids
      → Distinct ids
      → Apart ids fs
      → IsAnchor p s ids fs
      → length ids < f
      → (s' : Removal) × (remove_rows f s p0 p1 b ≡ some s') × Swept p s s' ids fs
  unfolding remove_rows
  remove_rows-Swept zero p s b ids fs w e q z v c once a k l = absurd (omega arith)
  remove_rows-Swept (suc f) p s b [] fs w e q z v c once a k l = (
    s,
    rw (eq→== b 0 c) refl,
    record {
      valid = rw pile_nil v;
      chain = rw left_nil (z ∙ c);
      frame = record { longer = omega arith; same = λ j l f. refl };
      ret = KeepsRet-refl p s;
      same = record { length = refl; size = refl; mapped = refl; pair = λ j. refl };
      removed = omega arith;
      models = unfold noted in refl;
    },
  )
  remove_rows-Swept (suc f) p s b (i ∷ ids) fs w e q z v c once a k l =
      elim (Bool-cases (selects i)) [
        | inl t ↦
            let ms = if p0 == null then note_model s.models r.first else s.models in
            let s0 : Removal = record s { models = ms } in
            let (s1, x) =
              drop_row-Dropped p s0 i ids fs q v here once.0 a
                (IsAnchor-models p s ms (i ∷ ids) fs k) in
            let (s', run, y) =
              remove_rows-Swept f p s1 r.cont ids (i ∷ fs) w (λ j. x.same.pair j ∙ e j) x.prev
                x.link x.valid x.chain once.1 (Apart-cons i ids fs once.0 a.1)
                (IsAnchor-Dropped p s s1 i ids fs x.same.length k) (omega arith) in
            (
              s',
              simp (c.0, nonzero, inside, remove_row-drop s p0 p1 i r w (fits t), x.run) run,
              Dropped-Swept p s s1 s' ms i ids fs t (rw (← e i) refl) x y,
            )
        | inr t ↦
            let (s', run, y) =
              remove_rows-Swept f (some i) (record s { prev = some i }) r.cont ids fs w e refl refl
                v c.3 once.1 a.1 (c.1, c.2, once.0, a.0) (omega arith) in
            (
              s',
              simp (c.0, nonzero, inside, remove_row-keep s p0 p1 i r w (fits t)) run,
              Kept-Swept p s s' i ids fs t (z ∙ c.0) c.1 c.2 k y,
            )
      ]
    where
      r : Row
      r = s.table.rows.cell i

      here : IsChain s.table i (i ∷ ids)
      here = (refl, c.1, c.2, c.3)

      nonzero : (i == 0) ≡ false
      nonzero = ne→== i 0 (omega (arith, c.1))

      inside : ltb i s.table.rows.size ≡ true
      inside = lt→ltb i s.table.rows.size (omega (arith, c.2, v.fits))

      fits : {t : Bool} → selects i ≡ t → matches p0 p1 (r.first, r.second) ≡ t
      fits h = ap (matches p0 p1) (e i) ∙ h
