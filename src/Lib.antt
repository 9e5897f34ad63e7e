-- ===== src/Lib.antt =====
-- A model of the storage structures of 4store: the sets and vectors of resource identifiers that
-- every part of the program passes around, and the files in which a backend segment keeps its
-- triples. Names in quotes are those of the C sources.
--
-- The parts, and the files that model them:
--
-- - Prelude.antt and the modules below it: lists and Boolean tests over the native numbers, arrays
--   with faults (Cells), copies between arrays (Slices), chains of indices (Links), what a
--   call leaves alone (Frames), signed integers (Int), and checks of all bytes (Bits).
-- - Rid.antt: `FS_RID_NULL` and `FS_RID_GONE` of src/common/4s-datatypes.h.
-- - RidSet.antt: `fs_rid_set_new`, `_add`, `_contains`, `_rewind` and `_next` of
--   src/common/datatypes.c, a table of 1024 chained buckets with the cursor of a scan.
-- - RidVector.antt: `fs_rid_vector_new`, `_append`, `_append_vector`, `_append_vector_no_nulls`,
--   `_append_vector_no_nulls_lit`, `_append_set`, `_copy`, `_clear`, `_uniq`, `_truncate`, `_grow`
--   and `_contains` of the same file. `append_set` reads the buckets of a set.
-- - Ptable.antt and Ptable/Remove.antt: `fs_ptable_new_row`, `_free_row`, `_add_pair`, `_get_row`,
--   `_get_next`, `_pair_exists`, `_chain_length`, `_free_length`, `_remove_chain` and `_remove_pair`
--   of src/backend/ptable.c. The rows of the mapped file name the next row of their chain;
--   `remove_pair` notes the models that it meets in a set.
-- - Ptree.antt: the predicate trees of src/backend/ptree.c, tries over the bits of a key whose leaves
--   name chains of a pair table: `fs_ptree_write_header`, what `_open_filename` does to the header of a
--   new file, `_grow_nodes`, `_grow_leaves`, `_new_node`,
--   `_free_node`, `_new_leaf`, `_free_leaf`, `get_leaf`, `get_or_create_leaf` and `_add`.
--   Ptree/Search.antt: `_search`, `_it_next`, `_traverse` and `_traverse_next`; Ptree/Remove.antt:
--   `_remove` with `collapse_by_pk`, and `_remove_all`. Nodes and leaves share the array of cells, and
--   the pair table is an argument, since trees share it. Invariant says what a valid tree is: a ghost
--   function tells the use of each cell.
-- - Tbchain.antt: `fs_tbchain_new_block`, `_new_chain`, `_free_block`, `_remove_chain`, `_set_bit`,
--   `_clear_bit`, `_get_bit`, `_add_triple`, `_length` and `_allocated_blocks` of
--   src/backend/tbchain.c, and the loop of `fs_tbchain_open_filename` that frees a new file's blocks.
--   Tbchain/Iter.antt: `fs_tbchain_new_iterator` and `_it_next`; whether a model still has a triple,
--   which the predicate trees tell, is an argument.
-- - Bucket.antt: src/backend/bucket.c but for printing. Chain.antt: the operations of
--   src/backend/chain.c on an open file, whose buckets are those of Bucket.antt.
-- - DiskList.antt: `fs_list_flush`, `_add`, `_get`, `_length`, `_rewind`, `_next_value` and
--   `_truncate` of src/backend/list.c; DiskList/Sorting.antt: `fs_list_sort`, `_sort_chunked` and
--   `_next_sort_uniqed`. `qsort` is a parameter, and a record says which system calls succeed.
-- - Mhash.antt: `fs_mhash_put`, `double_size` and `fs_mhash_get_intl` of src/backend/mhash.c, the
--   hash from models to index nodes, on a file whose system calls succeed. Mhash/Table.antt says what
--   a table holds and when it is in order.
-- - Rhash.antt: `compress_bcd`, `compress_bcdate`, their inverses, and the branches of `fs_rhash_put`
--   and `get_entry` of src/backend/rhash.c for a text that stands in its entry.
-- - BitArray.antt: src/common/bit_arr.c.
-- - Decimal.antt and Decimal/Text.antt: src/frontend/decimal.c but for the conversions to text and
--   with `double`: numbers of 42 digits, whose operations the modules below them compare with
--   integers (Value, Sums, Add, Sum, Order, Equal, Ints, ToInt, Text/Parse).
--
-- The state of a part is a record with the fields of the C structure; an operation takes it and
-- returns the new one beside its result. A mapped file and an allocated array are an `Arr`; an access
-- outside it gives `none`, and so does the end of the fuel. The overflow of a signed number gives
-- `none` where the number can reach it: the sizes of the files that double, the lengths of chains of
-- blocks and of buckets, the bounds of the chunks of a list, the absolute value of an integer, the
-- place of a digit, and the products and sums of `to_int64`. The other signed numbers stay in their
-- range under the bounds below.
-- Unsigned arithmetic keeps its wrap-around written out. A pointer to a cell is the cell's index.
--
-- Bounds and fuel: a loop over an index range has the number of its rounds as an argument. A walk
-- along a chain takes fuel for the cells that it visits, and the theorems ask for as much as the
-- chain is long, since a chain that ends visits no cell twice. A put into the model hash takes fuel
-- for the times that the table grows, one more than the growths that it needs; some identifiers
-- make the table grow for ever. An iterator takes fuel for the triples and blocks left, and a merge
-- for the rows left.
-- The walk that makes a leaf of a predicate tree has 64 rounds, two for each of the 32 pairs of bits of
-- a key: one, and one more where a leaf is split.
-- Files have fewer than 2^30 rows or blocks where they may double, since their size is an `int`. A
-- list that is sorted in chunks has fewer than 2^31 items.
--
-- Not modelled: the opening, mapping and closing of files, locks, sockets and printing; the consistency
-- checks that print what they find; the table of the resource hash, the prefix trie and the index
-- tree of the backend; the query engine, the HTTP server and the administration tools; the copies of other
-- projects, as the stemmer, the ciphers and the sorts of the C library.
pub mod Prelude
pub mod Rid
pub mod RidSet
pub mod Ptable
pub mod Ptree
pub mod Tbchain
pub mod RidVector
pub mod DiskList
pub mod Bucket
pub mod Chain
pub mod Decimal
pub mod Mhash
pub mod Rhash
pub mod BitArray
