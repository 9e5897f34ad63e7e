-- ===== src/Ptree/Remove/Whole.antt =====
-- `fs_ptree_remove` on a tree with its table.
use store.Prelude.{
  ℕ, ◌^◌, ◌≤◌, ◌<◌, ◌≡◌, refl, sym, ap, ◌∙◌, List, [], length, count, arith, inl, inr, Option, some,
  ◌==◌, if◌then◌else◌, update, Bool-cases, ne→==, ==→eq,
}
use store.RidSet.{RidSet}
use store.Ptable.{Ptable}
use store.Ptable.Invariant.{pairs}
use store.Ptable.Remove.Pile.{matches, pile, left}
use store.Ptable.Remove.Result.{fits, remove_pair-RemovedPair}
use store.Ptree.{Ptree}
use store.Ptree.Invariant.{Spot, outer}
use store.Ptree.Find.{load_leaf_lem, get_leaf-outer}
use store.Ptree.Search.Filled.{Filled}
use store.Ptree.Remove.{remove_from}
use store.Ptree.Remove.Removed.{chain_empty, unfit, RemovedFrom, settle-Settled}

-- In a filled tree, for a 64-bit key, and with more fuel, at most 2^32, than the leaf of the key has
-- rows: remove_from ends without a fault and leaves a filled tree. The leaf of the key keeps, in order,
-- the pairs that do not fit the pattern, and may be fit where there are none; each other leaf keeps
-- its pairs. The status is 1 where the key has a leaf and none of its pairs fits.
pub remove_from-Filled :
    (fuel : ℕ) (pt : Ptree) (spot : ℕ → Spot) (table : Ptable) (ids : ℕ → List ℕ)
    (nfree lfree frees : List ℕ) (n pk p0 p1 : ℕ) (models : Option RidSet)
    → Filled pt spot table ids nfree lfree frees
    → spot n ≡ outer pk
    → length (ids n) < fuel
    → fuel ≤ 2 ^ 32
    → (pt' : Ptree) × (spot' : ℕ → Spot) × (table' : Ptable) × (ids' : ℕ → List ℕ) × (nfree' : List
        ℕ)
      × (lfree' : List ℕ) × (frees' : List ℕ) × (models' : Option RidSet) × (remove_from fuel pt
            table pk p0 p1 models
          ≡ some (
            (if count (matches p0 p1) (pairs table (ids n)) == 0 then 1 else 0),
            pt',
            table',
            models',
          ))
      × Filled pt' spot' table' ids' nfree' lfree' frees'
      × RemovedFrom table ids spot pk p0 p1 n table' ids' spot'
unfolding remove_from
remove_from-Filled fuel pt spot table ids nfree lfree frees n pk p0 p1 models v sn short fits32 =
    let w = v.leaves n pk sn in
    let o = v.tree.live.outer_at n pk sn in
    let leaf_n = load_leaf_lem pt n pk w.block w.len o.inside w.here in
    let n0 = ne→== n 0 (omega (arith, o.positive)) in
    let at = get_leaf-outer v.tree n pk sn in
    elim (Bool-cases (w.block == 0)) [
      | inl z ↦
          let none_there : ids n ≡ [] =
            chain_empty table w.block (ids n) w.chain (==→eq w.block 0 z) in
          let status : (if count (matches p0 p1) (pairs table (ids n)) == 0 then 1 else 0) ≡ 1 =
            ap (λ is. if count (matches p0 p1) (pairs table is) == 0 then 1 else 0) none_there in
          (
            pt,
            spot,
            table,
            ids,
            nfree,
            lfree,
            frees,
            models,
            simp (at, n0, leaf_n, z) (ap (λ x. some (x, pt, table, models)) (sym status)),
            v,
            record {
              kept = inl (
                sn,
                ap (pairs table) none_there
                    ∙ sym (ap (λ is. unfit p0 p1 (pairs table is)) none_there),
              );
              others = λ m pk' d sm. (sm, refl);
              stays = λ m pk' d sm. sm;
            },
          )
      | inr z ↦
          let (s, run, r) =
            remove_pair-RemovedPair fuel table w.block p0 p1 0 models (ids n) frees v.rows w.chain
              w.apart short in
          let (pt', spot', nfree', lfree', run', filled, rest) =
            settle-Settled v n pk p0 p1 models s sn r w.len w.counted (omega arith) o.inside in
          let status : s.removed ≡ count (matches p0 p1) (pairs table (ids n)) =
            omega (arith, r.counted) in
          (
            pt',
            spot',
            s.table,
            update ids n (left (fits table p0 p1) (ids n)),
            nfree',
            lfree',
            pile (fits table p0 p1) (ids n) frees,
            s.models,
            simp (at, n0, leaf_n, z, run, run')
                (ap (λ x. some ((if x == 0 then 1 else 0), pt', s.table, s.models)) status),
            filled,
            rest,
          )
    ]
