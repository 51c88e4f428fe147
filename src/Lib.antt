-- ===== src/Lib.antt =====
-- A relational database engine: SQL over storage engines, and a multi-version transactional store.
--
-- Parts and files. A client sends SQL to the layer under src/sql; its planner and executor reach the
-- rows through the interface of src/engine/storage_engine.h, which the B+-tree and the LSM tree
-- implement. src/mvcc is a store of its own, with transactions.
-- - Engine: `StorageEngine` of src/engine/storage_engine.h as a record of operations (`get`, `put`,
--   `delete`, `scan`) with an abstract content `view`, an ascending association list, and one law
--   for each operation. The executor takes it as a parameter. Engine.Reference is one such engine.
-- - Sql.Error, Sql.Value, Sql.Syntax, Sql.Schema: src/sql/sql_exception.h, src/sql/value.h, the
--   statements and comparisons of src/sql/ast.h, and `ColumnDef`, `TableSchema` of src/sql/catalog.h.
-- - Sql.Lexer: `Lexer::Tokenize` of src/sql/lexer.cpp on lists of bytes. Sql.Parser and
--   Sql.Parser.Statements: the functions of src/sql/parser.cpp, each from the tokens that are left to
--   a result and the tokens behind it. Sql.Parser.Emit is a printer in the grammar of src/sql/parser.h.
-- - Sql.Keys: `EncodeKey`, `DecodeRowKey`, `DecodeTableId`, on the bit patterns of 64-bit integers.
-- - Sql.Rows: `EncodeRow` and `DecodeRow` of src/sql/catalog.cpp on lists of bytes.
-- - Sql.Catalog: class `Catalog`. Sql.Planner: `PlanQuery` of src/sql/planner.cpp.
-- - Sql.Executor, Sql.Executor.Delete: `ExecuteFetch`, `MatchesPredicate` and `ExecuteDelete` of
--   src/sql/executor.cpp.
-- - Sql.Database: class `Database` of src/sql/database.cpp, over any `StorageEngine`; `execute` is
--   `Database::Execute`. Sql.Database.Valid says what holds between statements.
-- - Mvcc, Mvcc.Commit: class `MVCCStore` of src/mvcc/mvcc_store.cpp; `begin`, `read`, `write`,
--   `delete`, `commit` and `abort` are its functions, each from a state to a state.
-- - Lsm.Bloom: the constructor, `Add` and `MightContain` of src/lsm/bloom_filter.cpp; the sizes that the
--   constructor computes in floating point are its arguments.
-- - Lsm.SkipList: class `SkipList` of src/lsm/skip_list.h, nodes at addresses and their pointers; the
--   heights of the towers are arguments, and the vectors of pointers are functions of the level.
-- - Lsm.Value: src/lsm/lsm_value.h and the memtable of src/lsm/memtable.h, over the ordered map of the
--   entries of its skip list. Lsm.Merge: `LSMMergeIterator` of src/lsm/merge_iterator.cpp over cursors
--   that are lists of the entries left to them.
-- - Lsm.Table: `SSTable::Build` and `SSTable::Open` of src/lsm/sstable.cpp on files that are lists of
--   pages; Lsm.Table.Lookup: `MightContain`, `Get` and the iterator. A page holds its entries, not the
--   bytes of the C++ structs.
-- - Lsm.Engine and Lsm.Engine.Writes: class `LSMTreeEngine` of src/lsm/lsm_tree_engine.cpp; `get`,
--   `scan`, `put`, `delete`, `flush`, `compact_one_tier` are its functions, and `start_with_wal` the
--   recovery from the memtable's log. `view` of Lsm.Engine.View is the map that a reader sees.
-- - Buffer.LruK, Buffer.Lru: the replacement policies of src/buffer/lru_k_replacer.cpp and
--   src/buffer/lru_replacer.cpp; each operation is a function from a state to a state.
-- - Buffer.Disk: `ReadPage`, `WritePage` and `AllocatePage` of src/storage/disk/disk_manager.cpp over a
--   file without faults. Buffer.Pool: `BufferPoolManager` of src/buffer/buffer_pool_manager.cpp over
--   any replacer; Buffer.Pool.Content says what a page's content is, in the pool or on disk.
-- - Common: names, Boolean tests, signed integers, bits, bytes and ordered maps.
--
-- Conventions. An exception is an error value. An `int64_t` is an integer; where the code's result
-- depends on 64 bits the range is a hypothesis (`IsInt64`) or the wrap-around is written out. The
-- counters of the multi-version store are unbounded: the code would overflow them after 2 ^ 63
-- calls. The lexer and the list loops of the parser take fuel, the length of their input, which is
-- proved to be enough, so do the decimal digits of a number, one unit for each, and so do a walk
-- along a level of the skip list, one unit for each node that was ever allocated, the merge
-- iterator, one unit for each entry that is left, the packing of entries into pages and the loops
-- that read pages back, one unit for each entry or page; every other loop runs over a list. A call
-- of the multi-version store is taken as one step, and the interleavings are the sequences of steps of
-- Mvcc.Steps. This is a convention of the model: `Delete` locks its chain twice, for its read and for
-- its write, and `Commit` locks no chain for a checked key that has none yet, so the code allows other
-- transactions to come between, which the model does not show.
--
-- The calls of the LSM tree follow one another, a round of its compaction thread being a call; a
-- crash falls between two calls. That another thread is inside a compaction is a flag of the state, at
-- which `compact_one_tier` returns; what that thread does then is not shown. The tree is not made an
-- instance of `StorageEngine`, whose `put` returns on every legal argument, since its `put` may throw
-- where the manifest has no room.
--
-- Not modelled: `RunGarbageCollection`; opening and syncing the file; the manifest page of the LSM
-- tree beyond its capacity, and the ids of its tables; the B+-tree, the write-ahead log and the HTTP
-- server, which the modelled parts reach at most through the interface of Engine; the choice of an
-- engine in the constructor of `Database`; the texts of error messages; the shell and the
-- benchmarks, which are input and output.
pub mod Common
pub mod Engine
pub mod Sql
pub mod Mvcc
pub mod Lsm
pub mod Buffer
