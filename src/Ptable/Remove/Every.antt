-- ===== src/Ptable/Remove/Every.antt =====
-- The loops that free every row of a chain: `remove_chain`, and `remove_pair` at two wildcards.
use store.Prelude.{
  ℕ, zero, suc, ◌+◌, ◌≤◌, ◌<◌, ◌≡◌, ◌≢◌, refl, ap, subst, ◌∙◌, List, [], ◌∷◌, true, Option, some,
  arith, Fresh, Distinct, Apart, Apart-one, Apart-cons, Linked-Distinct, length, ne→==, eq→==,
  lt→ltb, ltb_of_ge,
}
use store.RidSet.{RidSet}
use store.Ptable.{Ptable}
use store.Ptable.Invariant.{conts, IsChain, IsTable, Frame, IsChain-Frame, Frame-trans, Frame-sub}
use store.Ptable.Free.{
  Same, Same-trans, freed, free_row-freed, freed-IsTable, freed-Frame, freed-Same,
}
use store.Ptable.Remove.{Removal, note_model, remove_from, remove_chain, remove_every}
use store.Ptable.Remove.Pile.{pile, pile_nil, pile_cons}

-- The table after the rows of a chain have been freed.
pub record Cleared (pt pt' : Ptable) (ids fs : List ℕ) : Type 0 where
  pub valid : IsTable pt' (pile (λ _. true) ids fs)
  pub frame : Frame ids pt pt'
  pub same : Same pt pt'

Cleared-nil : (pt : Ptable) (fs : List ℕ) → IsTable pt fs → Cleared pt pt [] fs
Cleared-nil pt fs v = record {
  valid = rw pile_nil v;
  frame = record { longer = omega arith; same = λ j l f. refl };
  same = record { length = refl; size = refl; mapped = refl; pair = λ j. refl };
}

Cleared-cons :
    (pt pt' : Ptable) (i : ℕ) (ids fs : List ℕ)
    → Cleared (freed pt i) pt' ids (i ∷ fs)
    → Cleared pt pt' (i ∷ ids) fs
Cleared-cons pt pt' i ids fs c = record {
  valid = rw pile_cons c.valid;
  frame =
      Frame-trans (i ∷ ids) (Frame-sub (i ∷ []) (i ∷ ids) (λ j h. (h.0, tt)) (freed-Frame pt i))
        (Frame-sub ids (i ∷ ids) (λ j h. h.1) c.frame);
  same = Same-trans (freed-Same pt i) c.same;
}

-- The table and the rest of the chain when the row `i` has been freed.
module _ (pt : Ptable) (i : ℕ) (ids fs : List ℕ) (v : IsTable pt fs) (c : IsChain pt i (i ∷ ids))
    (once : Fresh i ids) (a : Apart (i ∷ ids) fs) where
  next-IsTable : IsTable (freed pt i) (i ∷ fs)
  next-IsTable = freed-IsTable pt i fs v c.1 c.2 a.0

  next-IsChain : IsChain (freed pt i) (conts pt i) ids
  next-IsChain =
      IsChain-Frame (i ∷ []) (conts pt i) ids (freed-Frame pt i) (Apart-one i ids once) c.3

  next-Apart : Apart ids (i ∷ fs)
  next-Apart = Apart-cons i ids fs once a.1

-- The models of all the rows.
unfoldable pub noted_all : Ptable → List ℕ → Option RidSet → Option RidSet
noted_all pt [] ms = ms
noted_all pt (i ∷ ids) ms = noted_all pt ids (note_model ms (pt.rows.cell i).first)

noted_all-Same :
    (pt pt' : Ptable) (ids : List ℕ) (ms : Option RidSet)
    → Same pt pt'
    → noted_all pt' ids ms ≡ noted_all pt ids ms
unfolding noted_all
noted_all-Same pt pt' [] ms s = refl
noted_all-Same pt pt' (i ∷ ids) ms s =
    noted_all-Same pt pt' ids (note_model ms (pt'.rows.cell i).first) s
    ∙ ap (λ q. noted_all pt ids (note_model ms q.0)) (s.pair i)

pub remove_every-Cleared :
    (f : ℕ) (s : Removal) (b : ℕ) (ids fs : List ℕ)
    → IsTable s.table fs
    → IsChain s.table b ids
    → Distinct ids
    → Apart ids fs
    → length ids < f
    → (s' : Removal) × (remove_every f s b ≡ some s')
      × Cleared s.table s'.table ids fs
      × (s'.removed ≡ s.removed + length ids)
      × (s'.models ≡ noted_all s.table ids s.models)
unfolding remove_every
remove_every-Cleared zero s b ids fs v c once a l = absurd (omega arith)
remove_every-Cleared (suc f) s b [] fs v c once a l =
    (s, rw (eq→== b 0 c) refl, Cleared-nil s.table fs v, omega arith, unfold noted_all in refl)
remove_every-Cleared (suc f) s b (i ∷ ids) fs v c once a l =
    let pt = s.table in
    let here : IsChain pt i (i ∷ ids) = (refl, c.1, c.2, c.3) in
    let size = lt→ltb i pt.rows.size (omega (arith, c.2, v.fits)) in
    let t : Removal = record s {
      table = freed pt i;
      removed = s.removed + 1;
      models = note_model s.models (pt.rows.cell i).first;
    } in
    let (s', run, w, n, m) =
      remove_every-Cleared f t (conts pt i) ids (i ∷ fs) (next-IsTable pt i ids fs v here once.0 a)
        (next-IsChain pt i ids fs v here once.0 a) once.1 (next-Apart pt i ids fs v here once.0 a)
        (omega arith) in
    (
      s',
      simp
          (
            c.0,
            ne→== i 0 (omega (arith, c.1)),
            size,
            free_row-freed pt i c.1 (omega (arith, c.2, v.fits)),
          )
          run,
      Cleared-cons pt s'.table i ids fs w,
      omega (arith, n),
      m ∙ noted_all-Same pt (freed pt i) ids _ (freed-Same pt i) ∙ unfold noted_all in refl,
    )

remove_from-Cleared :
    (f : ℕ) (pt : Ptable) (i : ℕ) (ids fs : List ℕ)
    → IsTable pt fs
    → IsChain pt i (i ∷ ids)
    → Distinct (i ∷ ids)
    → Apart (i ∷ ids) fs
    → length ids < f
    → (pt' : Ptable) × (remove_from f pt i ≡ some (0, pt')) × Cleared pt pt' (i ∷ ids) fs
unfolding remove_from
remove_from-Cleared zero pt i ids fs v c once a l = absurd (omega arith)
remove_from-Cleared (suc f) pt i [] fs v c once a l = (
  freed pt i,
  simp (
    lt→ltb i pt.rows.size (omega (arith, c.2, v.fits)),
    free_row-freed pt i c.1 (omega (arith, c.2, v.fits)),
    c.3,
    ltb_of_ge pt.rows.size 0 (omega arith),
  ),
  Cleared-cons pt (freed pt i) i [] fs
      (Cleared-nil (freed pt i) (i ∷ fs) (next-IsTable pt i [] fs v c tt a)),
)
remove_from-Cleared (suc f) pt i (j ∷ ids) fs v c once a l =
    let (pt', run, w) =
      remove_from-Cleared f (freed pt i) j ids (i ∷ fs)
        (next-IsTable pt i (j ∷ ids) fs v c once.0 a)
        (subst (λ b. IsChain (freed pt i) b (j ∷ ids)) c.3.0
          (next-IsChain pt i (j ∷ ids) fs v c once.0 a))
        once.1 (next-Apart pt i (j ∷ ids) fs v c once.0 a) (omega arith) in
    (
      pt',
      simp
          (
            lt→ltb i pt.rows.size (omega (arith, c.2, v.fits)),
            free_row-freed pt i c.1 (omega (arith, c.2, v.fits)),
            c.3.0,
            ltb_of_ge pt.rows.size j (omega (arith, c.3.2, v.fits)),
            ne→== j 0 (omega (arith, c.3.1)),
          )
          run,
      Cleared-cons pt pt' i (j ∷ ids) fs w,
    )

-- In a valid table, on a chain that is not empty and apart from the free list, with as much fuel
-- as it has rows, remove_chain returns 0: its rows are then on the free list of a valid table,
-- with their pairs and all other rows as before.
pub remove_chain-Cleared :
    (fuel : ℕ) (pt : Ptable) (b : ℕ) (ids fs : List ℕ)
    → IsTable pt fs
    → IsChain pt b ids
    → ids ≢ []
    → Apart ids fs
    → length ids ≤ fuel
    → (pt' : Ptable) × (remove_chain fuel pt b ≡ some (0, pt')) × Cleared pt pt' ids fs
unfolding remove_chain
remove_chain-Cleared fuel pt b [] fs v c n a l = absurd (n refl)
remove_chain-Cleared fuel pt b (i ∷ ids) fs v c n a l =
    let here : IsChain pt i (i ∷ ids) = (refl, c.1, c.2, c.3) in
    let (pt', run, w) =
      remove_from-Cleared fuel pt i ids fs v here
        (Linked-Distinct (conts pt) 1 pt.length i (i ∷ ids) (omega arith) here) a (omega arith) in
    (
      pt',
      simp
          (
            v.is_mapped,
            c.0,
            ltb_of_ge pt.rows.size i (omega (arith, c.2, v.fits)),
            ne→== i 0 (omega (arith, c.1)),
          )
          run,
      w,
    )
