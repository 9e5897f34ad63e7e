-- ===== src/Ptable/Remove/Result.antt =====
-- What `remove_pair` does to the chain, to its table and to the other chains.
use store.Prelude.{
  ℕ, ◌+◌, ◌≤◌, ◌<◌, ◌≡◌, refl, ap, ap₂, sym, subst, ◌∙◌, List, [], ◌∷◌, Bool, true, false, Option,
  none, some, arith, Distinct, Apart, Linked-Distinct, keep, count, length, ◌==◌, if◌then◌else◌,
  ◌&&◌, negate, ltb_of_ge, Bool-cases, inl, inr, ==→eq,
}
use mathlib.Core.Path.{fun_ext}
use store.Rid.{null}
use store.RidSet.{RidSet}
use store.Ptable.{Ptable}
use store.Ptable.Invariant.{conts, IsChain, pairs, IsTable, Frame, IsChain-Frame, pairs-Frame}
use store.Ptable.Free.{pair_of, Same}
use store.Ptable.Remove.{Removal, note_model, remove_pair, remove_rows, remove_every}
use store.Ptable.Remove.Pile.{
  matches, pile, pile_nil, left, left_all, left_nil, left_cons, left_skip, left-pile-Apart,
  Apart-pile,
}
use store.Ptable.Remove.Pair.{noted, remove_rows-Swept}
use store.Ptable.Remove.Every.{noted_all, remove_every-Cleared}

-- The rows of a chain whose pair fits the pattern.
abbrev pub fits : Ptable → ℕ → ℕ → ℕ → Bool
fits pt p0 p1 i = matches p0 p1 (pair_of pt i)

-- The models of the pairs that pass a test.
abbrev pub note_pairs : (ℕ × ℕ → Bool) → List (ℕ × ℕ) → Option RidSet → Option RidSet
note_pairs p [] ms = ms
note_pairs p (q ∷ qs) ms = note_pairs p qs (if p q then note_model ms q.0 else ms)

-- The chain is left with the pairs that do not fit, in order; the rows that fit are free; they are
-- counted, and under a wildcard their models are noted; every other chain in use is unchanged.
pub record RemovedPair (pt : Ptable) (p0 p1 removed : ℕ) (models : Option RidSet)
    (ids frees : List ℕ) (s : Removal) : Type 0 where
  pub valid : IsTable s.table (pile (fits pt p0 p1) ids frees)
  pub chain : IsChain s.table s.ret (left (fits pt p0 p1) ids)
  pub pairs_left :
      pairs s.table (left (fits pt p0 p1) ids) ≡ keep (λ q. negate (matches p0 p1 q)) (pairs pt ids)
  pub apart : Apart (left (fits pt p0 p1) ids) (pile (fits pt p0 p1) ids frees)
  pub counted : s.removed ≡ removed + count (matches p0 p1) (pairs pt ids)
  pub noted_models :
      s.models ≡ note_pairs (λ q. matches p0 p1 q && (p0 == null)) (pairs pt ids) models
  pub keeps :
      (c : ℕ) (cs : List ℕ)
      → IsChain pt c cs
      → Apart cs ids
      → Apart cs frees
      → IsChain s.table c cs
        × (pairs s.table cs ≡ pairs pt cs)
        × Apart cs (pile (fits pt p0 p1) ids frees)

pairs-left :
    (pt : Ptable) (p0 p1 : ℕ) (ids : List ℕ)
    → pairs pt (left (fits pt p0 p1) ids) ≡ keep (λ q. negate (matches p0 p1 q)) (pairs pt ids)
pairs-left pt p0 p1 [] = rw left_nil refl
pairs-left pt p0 p1 (i ∷ ids) = elim (Bool-cases (fits pt p0 p1 i)) [
  | inl e ↦ rw (left_skip (fits pt p0 p1) i ids e) (rw e (pairs-left pt p0 p1 ids))
  | inr e ↦
      rw (left_cons (fits pt p0 p1) i ids e)
        (rw e (ap (λ qs. pair_of pt i ∷ qs) (pairs-left pt p0 p1 ids)))
]

pairs-Same : (pt pt' : Ptable) (ids : List ℕ) → Same pt pt' → pairs pt' ids ≡ pairs pt ids
pairs-Same pt pt' [] s = refl
pairs-Same pt pt' (i ∷ ids) s = ap₂ ◌∷◌ (s.pair i) (pairs-Same pt pt' ids s)

count-pairs :
    (pt : Ptable) (p0 p1 : ℕ) (ids : List ℕ)
    → count (fits pt p0 p1) ids ≡ count (matches p0 p1) (pairs pt ids)
count-pairs pt p0 p1 [] = refl
count-pairs pt p0 p1 (i ∷ ids) = omega (arith, count-pairs pt p0 p1 ids)

noted-pairs :
    (pt : Ptable) (p0 p1 : ℕ) (ids : List ℕ) (ms : Option RidSet)
    → noted p0 p1 (pair_of pt) ids ms
      ≡ note_pairs (λ q. matches p0 p1 q && (p0 == null)) (pairs pt ids) ms
unfolding noted
noted-pairs pt p0 p1 [] ms = refl
noted-pairs pt p0 p1 (i ∷ ids) ms = noted-pairs pt p0 p1 ids _

-- The outcome from what both loops give.
result :
    (pt : Ptable) (b p0 p1 removed : ℕ) (models : Option RidSet) (ids frees : List ℕ) (s : Removal)
    → Apart ids frees
    → IsTable s.table (pile (fits pt p0 p1) ids frees)
    → IsChain s.table s.ret (left (fits pt p0 p1) ids)
    → Frame ids pt s.table
    → Same pt s.table
    → s.removed ≡ removed + count (fits pt p0 p1) ids
    → s.models ≡ noted p0 p1 (pair_of pt) ids models
    → RemovedPair pt p0 p1 removed models ids frees s
result pt b p0 p1 removed models ids frees s a v c fr same n m = record {
  valid = v;
  chain = c;
  pairs_left = pairs-Same pt s.table (left (fits pt p0 p1) ids) same ∙ pairs-left pt p0 p1 ids;
  apart = left-pile-Apart (fits pt p0 p1) ids frees a;
  counted = omega (arith, n, count-pairs pt p0 p1 ids);
  noted_models = m ∙ noted-pairs pt p0 p1 ids models;
  keeps = λ d ds h u w. (
    IsChain-Frame ids d ds fr u h,
    pairs-Frame ids d ds fr u h,
    Apart-pile (fits pt p0 p1) ds ids frees u w,
  );
}

-- At two wildcards every row fits.
fits_all :
    (pt : Ptable) (p0 p1 : ℕ) → (p0 == null && p1 == null) ≡ true → fits pt p0 p1 ≡ (λ _. true)
fits_all pt p0 p1 w = fun_ext λ i. ground arith

count_all : (ids : List ℕ) → count (λ _. true) ids ≡ length ids
count_all [] = refl
count_all (i ∷ ids) = omega (arith, count_all ids)

noted-noted_all :
    (pt : Ptable) (p0 p1 : ℕ) (ids : List ℕ) (ms : Option RidSet)
    → (p0 == null && p1 == null) ≡ true
    → noted p0 p1 (pair_of pt) ids ms ≡ noted_all pt ids ms
unfolding noted noted_all
noted-noted_all pt p0 p1 [] ms w = refl
noted-noted_all pt p0 p1 (i ∷ ids) ms w =
    let e : (fits pt p0 p1 i && (p0 == null)) ≡ true = ground arith in
    rw e (noted-noted_all pt p0 p1 ids (note_model ms (pt.rows.cell i).first) w)

chain-le : (pt : Ptable) (b : ℕ) (ids : List ℕ) → IsChain pt b ids → b ≤ pt.length
chain-le pt b [] c = omega arith
chain-le pt b (i ∷ ids) c = omega (arith, c.0, c.2)

chain_empty : (pt : Ptable) (b : ℕ) (ids : List ℕ) → IsChain pt b ids → b ≡ 0 → ids ≡ []
chain_empty pt b [] c e = refl
chain_empty pt b (i ∷ ids) c e = absurd (omega (arith, c.0, c.1))

-- An empty chain is left as it is.
nothing_removed :
    (pt : Ptable) (b p0 p1 removed : ℕ) (models : Option RidSet) (frees : List ℕ)
    → IsTable pt frees
    → b ≡ 0
    → RemovedPair pt p0 p1 removed models [] frees
        (record { table = pt; prev = none; ret = b; removed = removed; models = models })
nothing_removed pt b p0 p1 removed models frees v z =
    result pt b p0 p1 removed models [] frees _ tt (rw pile_nil v) (rw left_nil z)
      (record { longer = omega arith; same = λ j l f. refl })
      (record { length = refl; size = refl; mapped = refl; pair = λ j. refl }) (omega arith)
      (unfold noted in refl)

module _ (fuel : ℕ) (pt : Ptable) (b p0 p1 removed : ℕ) (models : Option RidSet)
    (ids frees : List ℕ) (v : IsTable pt frees) (c : IsChain pt b ids) (a : Apart ids frees)
    (l : length ids < fuel) where
  abbrev start : Removal
  start = record { table = pt; prev = none; ret = b; removed = removed; models = models }

  once : Distinct ids
  once = Linked-Distinct (conts pt) 1 pt.length b ids (omega arith) c

  rows_removed :
      (p0 == null && p1 == null) ≡ false
      → (s : Removal) × (remove_rows fuel start p0 p1 b ≡ some s)
        × RemovedPair pt p0 p1 removed models ids frees s
  rows_removed w =
      let (s, run, y) =
        remove_rows-Swept p0 p1 (pair_of pt) fuel none start b ids frees w (λ j. refl) refl refl v c
          once a tt l in
      (
        s,
        run,
        result pt b p0 p1 removed models ids frees s a y.valid y.chain y.frame y.same y.removed
            y.models,
      )

  every_removed :
      (p0 == null && p1 == null) ≡ true
      → (s : Removal) × (remove_every fuel start b ≡ some s)
        × RemovedPair pt p0 p1 removed models ids frees (record s { ret = 0 })
  every_removed w =
      let (s, run, y, n, m) = remove_every-Cleared fuel start b ids frees v c once a l in
      let f = fits_all pt p0 p1 w in
      (
        s,
        run,
        result pt b p0 p1 removed models ids frees (record s { ret = 0 }) a (rw f y.valid)
            (rw (f, left_all) refl) y.frame y.same (n ∙ rw (f, count_all) refl)
            (m ∙ sym (noted-noted_all pt p0 p1 ids models w)),
      )

  -- In a valid table, on a chain apart from the free list and with more fuel than the chain has
  -- rows, remove_pair ends without a fault: the table stays valid with the removed rows on its
  -- free list, the chain from the returned row holds, in order, just the pairs that do not fit the
  -- pattern, the count grows by the number that fit, the models noted are the subjects of the
  -- pairs that fit where the first part is a wildcard, and every other chain in use keeps its rows
  -- and pairs.
  pub remove_pair-RemovedPair :
      (s : Removal) × (remove_pair fuel pt b p0 p1 removed models ≡ some s)
      × RemovedPair pt p0 p1 removed models ids frees s
  unfolding remove_pair
  remove_pair-RemovedPair = elim (Bool-cases (b == 0)) [
    | inl z ↦
        let e = chain_empty pt b ids c (==→eq b 0 z) in
        (
          start,
          rw z refl,
          subst (λ is. RemovedPair pt p0 p1 removed models is frees start) (sym e)
              (nothing_removed pt b p0 p1 removed models frees v (==→eq b 0 z)),
        )
    | inr z ↦ elim (Bool-cases (p0 == null && p1 == null)) [
      | inl w ↦
          let (s, run, r) = every_removed w in
          (
            record s { ret = 0 },
            rw (z, ltb_of_ge pt.length b (chain-le pt b ids c), w, run) refl,
            r,
          )
      | inr w ↦
          let (s, run, r) = rows_removed w in
          (s, rw (z, ltb_of_ge pt.length b (chain-le pt b ids c), w, run) refl, r)
    ]
  ]
