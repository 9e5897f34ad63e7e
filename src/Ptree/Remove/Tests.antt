-- ===== src/Ptree/Remove/Tests.antt =====
-- Removals at concrete values.
use store.Prelude.{
  ℕ, zero, suc, ◌<◌, ◌≡◌, ◌≢◌, ◌^◌, refl, Option, none, some, arith, List, [], ◌∷◌, ◌>>=◌,
}
use store.Rid.{null}
use store.RidSet.{RidSet}
use store.Ptable.{Ptable}
use store.Ptable.Tests as TableTests
use store.Ptable.Remove.Tests as RemoveTests
use store.Ptree.{Ptree, add_to}
use store.Ptree.Tests as TreeTests
use store.Ptree.Tests.{key, near_key, empty_table, no_rows, no_rows_below, new_ptree-Filled}
use store.Ptree.New.{new_ptree, new_spot}
use store.Ptree.Search.{Iter, traverse, traverse_next}
use store.Ptree.Search.Tests as SearchTests
use store.Ptree.Search.Filled.{search_all}
use store.Ptree.Remove.{
  emptied, drop_leaf, drop_node, collapse_from, collapse_by_pk, settle, remove_from, sweep_leaf,
  act_on, sweep_branch, sweep_branches, sweep_from, remove_all,
}
use store.Ptree.Remove.Removed.{unfit}
use store.Ptree.Remove.Searched.{search_all-remove_from}

unfoldable program : Unit {0}
unfolding emptied drop_leaf drop_node collapse_from collapse_by_pk settle remove_from sweep_leaf
    act_on sweep_branch sweep_branches sweep_from remove_all
program = tt

search_all-remove_from_example :
    (status : ℕ) × (pt' : Ptree) × (table' : Ptable) × (models' : Option RidSet) × (remove_from 4
        new_ptree empty_table key null 20 none
      ≡ some (status, pt', table', models'))
    × (search_all 4 4 pt' table' key null null
        ≡ (search_all 4 4 new_ptree empty_table key null null >>= λ qs. some (unfit null 20 qs)))
    × ((other : ℕ)
        → other < 2 ^ 64
        → other ≢ key
        → search_all 4 4 pt' table' other null null
          ≡ search_all 4 4 new_ptree empty_table other null null)
search_all-remove_from_example =
    search_all-remove_from new_ptree new_spot empty_table no_rows [] [] [] 4 key null 20 null null
      none new_ptree-Filled (omega arith) no_rows_below (omega arith)

-- Three pairs of two keys; those with the object 20 are removed from the first key, whose leaf goes.
abbrev removals : Option (ℕ × List (ℕ × ℕ) × List (ℕ × ℕ) × ℕ × ℕ)
removals = do
  (_, p, s) ← add_to new_ptree empty_table key (some (10, 20))
  (_, q, t) ← add_to p s near_key (some (11, 21))
  (_, r, u) ← add_to q t key (some (12, 20))
  (status, r', u', _) ← remove_from 4 r u key null 20 none
  a ← search_all 4 4 r' u' key null null
  b ← search_all 4 4 r' u' near_key null null
  some (status, a, b, r'.leaf_free, u'.free_list)

removals_lem : removals ≡ some (0, [], (11, 21) ∷ [], 32769, 1)
unfolding program TreeTests.program TableTests.program SearchTests.program RemoveTests.program
removals_lem = refl

walk : ℕ → Ptree → Ptable → Iter → Option (List (ℕ × ℕ × ℕ))
walk zero pt table it = some []
walk (suc n) pt table it = traverse_next 12 pt table it >>= λ (answer, it'). elim answer [
  | none ↦ some []
  | some q ↦ walk n pt table it' >>= λ qs. some (q ∷ qs)
]

-- A traversal of the tree gives the pairs with their keys, and a removal from all keys at once those
-- that are left; the pairs of a leaf that goes are no longer met.
abbrev sweeps : Option (List (ℕ × ℕ × ℕ) × List (ℕ × ℕ × ℕ) × ℕ)
sweeps = do
  (_, p, s) ← add_to new_ptree empty_table key (some (10, 20))
  (_, q, t) ← add_to p s near_key (some (11, 21))
  (_, r, u) ← add_to q t key (some (12, 20))
  a ← walk 4 r u (traverse null)
  (status, r', u') ← remove_all 4 r u null 20
  b ← walk 4 r' u' (traverse null)
  some (a, b, status)

sweeps_lem :
    sweeps
    ≡ some ((12, key, 20) ∷ (10, key, 20) ∷ (11, near_key, 21) ∷ [], (11, near_key, 21) ∷ [], 0)
unfolding program TreeTests.program TableTests.program SearchTests.program RemoveTests.program walk
sweeps_lem = refl
