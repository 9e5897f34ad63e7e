-- ===== src/Ptree/Tests.antt =====
-- Predicate trees at concrete values.
use store.Prelude.{
  ℕ, ◌+◌, ◌≡◌, ◌≢◌, refl, true, Option, some, arith, List, [], ◌∷◌, ◌>>=◌, ◌<◌, ◌^◌, ◌⊎◌, ◌++◌,
  keep, length,
}
use store.Rid.{null}
use store.Ptable.{Ptable, zero_row}
use store.Ptable.Tests as TableTests
use store.Ptree.{
  Ptree, node_ref, load_node, load_leaf, store_cell, branches, set_branch, grow_cells, grow_nodes,
  grow_leaves, free_node, reuse_node, next_node, extend_node, new_node, free_leaf, reuse_leaf,
  next_leaf, extend_leaf, new_leaf, descend, get_leaf_and_parent, get_leaf, hang_leaf, hang_node,
  split_leaf, round, create_from, get_or_create_leaf, add_to,
}
use store.Ptree.Invariant.{Spot, outer}
use store.Ptree.New.{new_ptree, new_spot, new_ptree-IsPtree, new_leafless}
use store.Ptree.Alloc.{FreshNode, new_node-NewNode}
use store.Ptree.HangLeaf.{Created}
use store.Ptree.Create.{get_or_create_leaf-Created}
use store.Ptree.Search.{matches}
use store.Ptree.Search.Tests as SearchTests
use store.Ptree.Find.{get_leaf_cases}
use store.Ptree.Search.Filled.{Filled, search_all}
use store.Ptree.Add.{search_all-add_to}

unfoldable pub program : Unit {0}
unfolding node_ref load_node load_leaf store_cell branches set_branch grow_cells grow_nodes
    grow_leaves free_node reuse_node next_node extend_node new_node free_leaf reuse_leaf next_leaf
    extend_leaf new_leaf descend get_leaf_and_parent get_leaf hang_leaf hang_node split_leaf round
    create_from get_or_create_leaf add_to
program = tt

-- Two keys that share their first four pairs of bits: the second one splits the leaf twice.
abbrev pub key : ℕ
key = 0xe400000000000001

abbrev pub near_key : ℕ
near_key = 0xe480000000000001

abbrev two_keys : Option (ℕ × ℕ × ℕ × ℕ × ℕ)
two_keys = do
  (a, p) ← get_or_create_leaf new_ptree key
  (b, q) ← get_or_create_leaf p near_key
  a' ← get_leaf q key
  b' ← get_leaf q near_key
  some (a, b, a', b', q.node_base)

two_keys_lem : two_keys ≡ some (32769, 32770, 32769, 32770, 6)
unfolding program
two_keys_lem = refl

new_node_example :
    (o : ℕ) × (pt' : Ptree) × (nfree' : List ℕ) × FreshNode new_ptree new_spot o pt' nfree' []
new_node_example = new_node-NewNode new_ptree new_spot [] [] new_ptree-IsPtree (omega arith)

get_or_create_leaf-Created_example :
    (n : ℕ) × (pt' : Ptree) × (spot' : ℕ → Spot) × (nfree' : List ℕ) × (lfree' : List ℕ)
    × (get_or_create_leaf new_ptree key ≡ some (n, pt'))
    × Created new_ptree new_spot key n pt' spot' nfree' lfree'
get_or_create_leaf-Created_example =
    get_or_create_leaf-Created new_ptree new_spot [] [] key new_ptree-IsPtree (omega arith)
      (omega arith)

abbrev pub empty_table : Ptable
empty_table = record {
  mapped = true;
  length = 1;
  free_list = 0;
  rows = record { size = 4; cell = λ _. zero_row };
}

pub no_rows : ℕ → List ℕ
no_rows _ = []

pub no_rows_short : (m : ℕ) → length (no_rows m) + 1 < 4
unfolding no_rows
no_rows_short m = omega arith

pub no_rows_below : (m : ℕ) → length (no_rows m) < 4
unfolding no_rows
no_rows_below m = omega arith

pub new_ptree-Filled : Filled new_ptree new_spot empty_table no_rows [] [] []
new_ptree-Filled = record {
  tree = new_ptree-IsPtree;
  rows = record { is_mapped = refl; sized = omega arith; fits = omega arith; free = omega arith };
  leaves = λ n pk s. absurd (new_leafless n pk s);
  disjoint = λ n m pk pk' s t d. absurd (new_leafless n pk s);
}

search_all-add_to_example :
    (pt' : Ptree) × (table' : Ptable) × (add_to new_ptree empty_table key (some (10, 20))
      ≡ some (0, pt', table'))
    × (search_all 4 4 pt' table' key null 20 ≡ (
        search_all 4 4 new_ptree empty_table key null 20 >>= λ qs.
        some (keep (matches null 20) ((10, 20) ∷ []) ++ qs)))
    × ((other : ℕ)
        → other < 2 ^ 64
        → other ≢ key
        → search_all 4 4 pt' table' other null 20
          ≡ search_all 4 4 new_ptree empty_table other null 20)
search_all-add_to_example =
    search_all-add_to new_ptree new_spot empty_table no_rows [] [] [] 4 key 10 20 null 20
      new_ptree-Filled (omega arith) (omega arith) (omega arith) no_rows_short

get_leaf_cases_example :
    ((n : ℕ) × (get_leaf new_ptree key ≡ some n) × (new_spot n ≡ outer key))
    ⊎ ((get_leaf new_ptree key ≡ some 0) × ((n : ℕ) → new_spot n ≢ outer key))
get_leaf_cases_example = get_leaf_cases new_ptree-IsPtree key (omega arith)

-- Two pairs of one key and one of another, in the order that searches give.
abbrev searches : Option (List (ℕ × ℕ) × List (ℕ × ℕ) × List (ℕ × ℕ))
searches = do
  (_, p, s) ← add_to new_ptree empty_table key (some (10, 20))
  (_, q, t) ← add_to p s near_key (some (11, 21))
  (_, r, u) ← add_to q t key (some (12, 22))
  a ← search_all 4 4 r u key null null
  b ← search_all 4 4 r u key null 20
  c ← search_all 4 4 r u near_key null null
  some (a, b, c)

searches_lem : searches ≡ some ((12, 22) ∷ (10, 20) ∷ [], (10, 20) ∷ [], (11, 21) ∷ [])
unfolding program TableTests.program SearchTests.program
searches_lem = refl
