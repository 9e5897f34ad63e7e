-- ===== src/Ptable/Remove/Tests.antt =====
-- Removals from a pair table at concrete values.
use store.Prelude.{ℕ, ◌≡◌, refl, Option, none, some, arith, ◌>>=◌}
use store.Rid.{null}
use store.RidSet
use store.RidSet.{RidSet}
use store.Ptable.{Ptable, free_row}
use store.Ptable.Remove.{
  Removal, remove_from, remove_chain, note_model, unlink, drop_row, remove_row, remove_rows,
  remove_every, remove_pair,
}
use store.Ptable.Remove.Every.{Cleared, remove_chain-Cleared}
use store.Ptable.Remove.Result.{RemovedPair, remove_pair-RemovedPair}
use store.Ptable.Tests.{sample, sample-IsTable, sample-IsChain, chain_rows, free_rows}

unfoldable pub program : Unit {0}
unfolding free_row remove_from remove_chain note_model unlink drop_row remove_row remove_rows
    remove_every remove_pair
program = tt

-- Both pairs of the chain have the object 20.
abbrev removes_run : Option (ℕ × ℕ × ℕ)
removes_run = do
  s ← remove_pair 4 sample 3 null 20 0 none
  some (s.ret, s.removed, s.table.free_list)

removes : removes_run ≡ some (0, 2, 1)
unfolding program
removes = refl

remove_chain_example :
    (pt' : Ptable) × (remove_chain 2 sample 3 ≡ some (0, pt'))
    × Cleared sample pt' chain_rows free_rows
remove_chain_example =
    remove_chain-Cleared 2 sample 3 chain_rows free_rows sample-IsTable sample-IsChain (λ e. cc)
      (omega arith) (omega arith)

remove_pair_example :
    (s : Removal) × (remove_pair 3 sample 3 null 20 5 (some RidSet.new) ≡ some s)
    × RemovedPair sample null 20 5 (some RidSet.new) chain_rows free_rows s
remove_pair_example =
    remove_pair-RemovedPair 3 sample 3 null 20 5 (some RidSet.new) chain_rows free_rows
      sample-IsTable sample-IsChain (omega arith) (omega arith)
