-- ===== src/Ptree/Search/Tests.antt =====
-- Iterators at concrete values.
use store.Prelude.{◌≡◌, refl, some, arith, [], ◌∷◌}
use store.Rid.{null}
use store.Ptable.Tests as TableTests
use store.Ptable.Tests.{sample, chain_rows, free_rows, sample-IsTable, sample-IsChain}
use store.Ptree.Search.{
  Iter, search, it_get_length, next_match, it_next, traverse, leaf_rows, scan_branches,
  traverse_next,
}
use store.Ptree.Search.Next.{Next, it_next-Next, collect}
use store.Ptree.Search.Filled.{search_all}

unfoldable pub program : Unit {0}
unfolding search it_get_length next_match it_next traverse leaf_rows scan_branches traverse_next
    collect search_all
program = tt

abbrev start : Iter
start = record { pk = 0; block = 3; step = 0; length = 2; first = 10; second = null; stack = [] }

it_next-Next_example : Next sample start chain_rows (it_next 3 sample start)
it_next-Next_example =
    it_next-Next 3 sample start free_rows chain_rows sample-IsTable sample-IsChain (omega arith)

collect_lem : collect 2 3 sample start ≡ some ((10, 20) ∷ [])
unfolding program TableTests.program
collect_lem = refl
