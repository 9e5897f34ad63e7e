-- ===== src/Ptable/Remove/Drop.antt =====
-- A round of `remove_pair` that unlinks a row and frees it.
use store.Prelude.{
  ℕ, ◌+◌, ◌≤◌, ◌<◌, ◌≡◌, ◌≢◌, refl, ap, ◌∙◌, List, [], ◌∷◌, ◌++◌, Option, none, some, arith, All,
  Fresh, Apart, Apart-one, Apart-append, Apart-nil,
}
use store.RidSet.{RidSet}
use store.Ptable.{Row, Ptable}
use store.Ptable.Invariant.{
  conts, IsChain, IsTable, Frame, IsChain-Frame, IsTable-Frame, Frame-append,
}
use store.Ptable.Free.{
  Same, Same-trans, relink, relink-Frame, relink-Same, conts-relink, freed, free_row-freed,
  freed-IsTable, freed-Frame, freed-Same,
}
use store.Ptable.Remove.{Removal, unlink, drop_row}

-- The link that leads to the row at hand: the row before it, or the variable `ret`.
abbrev pub anchor : Option ℕ → Removal → ℕ
anchor none s = s.ret
anchor (some k) s = conts s.table k

abbrev pub prev_row : Option ℕ → List ℕ
prev_row none = []
prev_row (some k) = k ∷ []

abbrev pub KeepsRet : Option ℕ → Removal → Removal → Type 0
KeepsRet none s s' = Unit
KeepsRet (some k) s s' = s'.ret ≡ s.ret

-- The row before is in use, and stands neither in the rest of the chain nor in the free list.
abbrev pub IsAnchor : Option ℕ → Removal → List ℕ → List ℕ → Type 0
IsAnchor none s ids fs = Unit
IsAnchor (some k) s ids fs = (1 ≤ k) × (k < s.table.length) × Fresh k ids × Fresh k fs

-- A row dropped from the chain.
pub record Dropped (p : Option ℕ) (s s' : Removal) (i : ℕ) (ids fs : List ℕ) : Type 0 where
  pub run : drop_row s i (conts s.table i) ≡ some s'
  pub valid : IsTable s'.table (i ∷ fs)
  pub link : anchor p s' ≡ conts s.table i
  pub chain : IsChain s'.table (conts s.table i) ids
  pub frame : Frame (prev_row p ++ i ∷ []) s.table s'.table
  pub prev : s'.prev ≡ p
  pub ret : KeepsRet p s s'
  pub same : Same s.table s'.table
  pub removed : s'.removed ≡ s.removed + 1
  pub models : s'.models ≡ s.models

-- The anchor moved on to the row behind `i`.
abbrev moved : Option ℕ → Removal → ℕ → Removal
moved none s c = record s { ret = c }
moved (some k) s c = record s { table = relink s.table k c }

unlink-moved :
    (p : Option ℕ) (s : Removal) (c : ℕ) (ids fs : List ℕ)
    → s.prev ≡ p
    → IsTable s.table fs
    → IsAnchor p s ids fs
    → unlink s c ≡ some (moved p s c)
unfolding unlink
unlink-moved none s c ids fs e v a = ground arith
unlink-moved (some k) s c ids fs e v a = ground (arith, a.1, v.fits)

Apart-anchor :
    (p : Option ℕ) (s : Removal) (ids fs : List ℕ)
    → IsAnchor p s ids fs
    → Apart ids (prev_row p) × Apart fs (prev_row p)
Apart-anchor none s ids fs a = (Apart-nil ids, Apart-nil fs)
Apart-anchor (some k) s ids fs a = (Apart-one k ids a.2, Apart-one k fs a.3)

-- Moving the anchor changes one link.
record Moved (p : Option ℕ) (s t : Removal) (c : ℕ) : Type 0 where
  pub frame : Frame (prev_row p) s.table t.table
  pub same : Same s.table t.table
  free : t.table.free_list ≡ s.table.free_list
  anchored :
      (t' : Removal)
      → t'.ret ≡ t.ret
      → All (λ k. conts t'.table k ≡ conts t.table k) (prev_row p)
      → anchor p t' ≡ c
  pub prev : t.prev ≡ s.prev
  pub ret : KeepsRet p s t
  pub removed : t.removed ≡ s.removed
  pub models : t.models ≡ s.models

moved-Moved : (p : Option ℕ) (s : Removal) (c : ℕ) → Moved p s (moved p s c) c
moved-Moved none s c = record {
  frame = record { longer = omega arith; same = λ j l f. refl };
  same = record { length = refl; size = refl; mapped = refl; pair = λ j. refl };
  free = refl;
  anchored = λ t r a. r;
  prev = refl;
  ret = tt;
  removed = refl;
  models = refl;
}
moved-Moved (some k) s c = record {
  frame = relink-Frame s.table k c;
  same = relink-Same s.table k c;
  free = refl;
  anchored = λ t r a. a.0 ∙ conts-relink s.table k c;
  prev = refl;
  ret = refl;
  removed = refl;
  models = refl;
}

pub KeepsRet-refl : (p : Option ℕ) (s : Removal) → KeepsRet p s s
KeepsRet-refl none s = tt
KeepsRet-refl (some _) s = refl

pub KeepsRet-step :
    (p : Option ℕ) (s t u : Removal) → KeepsRet p s t → u.ret ≡ t.ret → KeepsRet p s u
KeepsRet-step none s t u k e = tt
KeepsRet-step (some _) s t u k e = e ∙ k

-- Other fields do not matter.
pub KeepsRet-models :
    (p : Option ℕ) (s t : Removal) (ms : Option RidSet)
    → KeepsRet p (record s { models = ms }) t
    → KeepsRet p s t
KeepsRet-models none s t ms k = tt
KeepsRet-models (some _) s t ms k = k

pub KeepsRet-trans :
    (p : Option ℕ) (s t u : Removal) → KeepsRet p s t → KeepsRet p t u → KeepsRet p s u
KeepsRet-trans none s t u k l = tt
KeepsRet-trans (some _) s t u k l = l ∙ k

-- The row before keeps its link when the row `i` is freed.
conts-prev_row :
    (p : Option ℕ) (s : Removal) (pt : Ptable) (i : ℕ) (ids fs : List ℕ)
    → IsAnchor p s (i ∷ ids) fs
    → All (λ k. conts (freed pt i) k ≡ conts pt k) (prev_row p)
conts-prev_row none s pt i ids fs a = tt
conts-prev_row (some k) s pt i ids fs a = (ap (λ (r : Row). r.cont) (unchanged a.2.0), tt)
  where
    unchanged : i ≢ k → (freed pt i).rows.cell k ≡ pt.rows.cell k
    unchanged n = ground arith

pub drop_row-Dropped :
    (p : Option ℕ) (s : Removal) (i : ℕ) (ids fs : List ℕ)
    → s.prev ≡ p
    → IsTable s.table fs
    → IsChain s.table i (i ∷ ids)
    → Fresh i ids
    → Apart (i ∷ ids) fs
    → IsAnchor p s (i ∷ ids) fs
    → (s' : Removal) × Dropped p s s' i ids fs
unfolding drop_row
drop_row-Dropped p s i ids fs e v c once a k =
    let next = conts s.table i in
    let t = moved p s next in
    let m = moved-Moved p s next in
    let (apart, apart_free) = Apart-anchor p s (i ∷ ids) fs k in
    let valid : IsTable t.table fs =
      IsTable-Frame (prev_row p) fs m.frame m.same.length m.same.size m.same.mapped m.free
        apart_free v in
    let s' : Removal = record t { table = freed t.table i; removed = t.removed + 1 } in
    let frame : Frame (prev_row p ++ i ∷ []) s.table s'.table =
      Frame-append (prev_row p) (i ∷ []) m.frame (freed-Frame t.table i) in
    let link = m.anchored s' refl (conts-prev_row p s t.table i ids fs k) in
    (
      s',
      record {
        run = simp (
          unlink-moved p s next (i ∷ ids) fs e v k,
          free_row-freed t.table i c.1 (omega (arith, c.2, v.fits, m.same.size)),
        );
        valid = freed-IsTable t.table i fs valid c.1 (omega (arith, c.2, m.same.length)) a.0;
        link = link;
        chain =
            IsChain-Frame (prev_row p ++ i ∷ []) next ids frame
              (Apart-append ids (prev_row p) (i ∷ []) apart.1 (Apart-one i ids once)) c.3;
        frame = frame;
        prev = m.prev ∙ e;
        ret = KeepsRet-step p s t s' m.ret refl;
        same = Same-trans m.same (freed-Same t.table i);
        removed = ap (λ r. r + 1) m.removed;
        models = m.models;
      },
    )
