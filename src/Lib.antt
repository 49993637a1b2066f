-- ===== src/Lib.antt =====
-- KVDB, an LSM key-value store: a model of its core and the theorems that make it correct.
--
-- A write becomes a versioned record (key, value, kind, sequence number), which is appended to the
-- write-ahead log and put into the active table of the memtable. A table is one of several search trees behind the class `Driver`. A full active table is
-- frozen into a queue of generations, the oldest of which is flushed to an SSTable of level 0. The
-- level manager is the catalog of the SSTables: level 0 newest first with overlapping ranges, the
-- others sorted with disjoint ranges. The scheduler watches the catalog and plans compactions from
-- one level into the next. A read takes the newest version that it finds.
--
-- The files and the code they are about:
--   Base         shared names, Boolean tests, lists over the native numbers, signed numbers
--   Search       the binary search `std::lower_bound`, and a scan beside it
--   Status       include/utils/status.h, src/utils/status.cpp: codes and results
--   Entry        `ArenaEntry` of src/core/allocator/arena.cpp: byte ranges and their comparison
--   Record       include/utils/record.h, include/utils/merge_iterator.h,
--                include/core/compaction/compaction_record_policy.h and `VirtualNode` of
--                src/core/engine/driver.cpp: records and their order. Record/Versions is the abstract
--                view of every table: a sorted list of versions with insertion and lookup
--   Tree         what the balanced trees share: rotations, descent, lookup, iterator. The source has
--                a copy in each tree; the lines mapped are those of red_black_tree.cpp
--   Bytes        `kvdb::endian` of src/utils/endian_io.cpp: numbers as little-endian bytes
--   BlockIo      src/utils/file_helpers.cpp and `kvdb::blockio` of src/utils/endian_io.cpp: files in
--                blocks, with the padding that keeps a part in one block; `append` and
--                `read_exact_at` of src/abstractions/file.cpp
--   Wal          include/core/engine/wal.h and src/core/engine/wal.cpp: the write-ahead log. Wal/Header
--                is the file header, Wal/Fragment and Wal/Payload the format of a record, Wal/Writer
--                the writer, Wal/Assembler and Wal/Loader the recovery, Wal/Streaming the recovery
--                one record at a time; the other children hold proofs
--   RedBlack     src/data_structures/red_black_tree.cpp
--   Treap        src/data_structures/treap.cpp; the priorities drawn are a parameter
--   Splay        src/data_structures/splay_tree.cpp
--   Driver       include/core/engine/driver.h: the interface of the tables, operations and laws; the
--                module Interface below each tree fills it
--   MemTable     src/core/engine/mem_table.cpp, for any driver
--   TableMeta    include/core/engine/table_meta.h: the metadata of an SSTable
--   LevelManager src/core/engine/level_manager.cpp
--   Compaction   src/core/compaction/compaction_options.cpp, compaction_plan.cpp and
--                compaction_scheduler.cpp; Compaction/Job is the checks of a job on the catalog,
--                src/core/compaction/compaction_job.cpp
--
-- How the state is represented. A node of a tree has no parent link: the operations that climb
-- hold the way from the root to the focus, the nearest ancestor first, and `plug` gives the whole
-- tree back. A tree that the source changes in place is a new value; `MemTable` copies only
-- pointers to frozen tables, which no operation changes. Each operation of the memtable holds its
-- mutex to the end, so it is one function from state to state. A read holds the mutex shared; for
-- a splay tree, whose lookup changes the tree, the model has the reads one after another. Levels
-- are lists of lists; an operation that answers a status returns the status and the state after
-- it, and one that throws answers `none`.
--
-- A file is the list of its bytes. A file that is written to is only appended to; a crash leaves a
-- beginning of it. zlib's CRC32 is the parameter `crc32` of every definition that uses it; nothing
-- is assumed of it. The answers of the operating system to the writer are arguments.
--
-- Loops are structural recursion, on the tree or on the list of ancestors, but for these. The
-- iterator of a tree runs for as many rounds as the tree has nodes, of which every round visits
-- one; the binary search runs for as many rounds as the range has elements, of which every round
-- drops at least one. The padding of a block and the fragments of a record run for as many rounds
-- as they have bytes, of which every round writes one at least. The recovery of a log runs for as
-- many rounds as the file has bytes and one more, and every fragment has 22 bytes at least. The
-- loop over short reads runs for as many rounds as it is asked for bytes; the look below the
-- target of a compaction for as many as there are levels, and one more. Counters and sums keep the
-- wrap-around or the saturation of the source: 64 bits for generation ids, for the offset that a
-- writer tracks, for file sizes and for the memory usage of tables (`size_t` has 64 bits), 32 bits
-- for a record's size on disk. The whole logs considered are shorter than 2⁶³ bytes, since the
-- position in a file is an `off_t`.
--
-- Not modelled: allocation failure and exhausted memory (a driver's insertion fails only with
-- Duplicate), the texts of messages, locks and threads within one operation, destruction, and
-- failing system calls on an open file. The manifest, the SSTable format, the merge of a
-- compaction and the engine that ties the parts together have no module here; nor has the skip
-- list, a further implementation of `Driver`.
pub mod Base
pub mod Search
pub mod Status
pub mod Bytes
pub mod BlockIo
pub mod Wal
pub mod Entry
pub mod Record
pub mod Tree
pub mod RedBlack
pub mod Treap
pub mod Splay
pub mod Driver
pub mod TableMeta
pub mod LevelManager
pub mod Compaction
pub mod MemTable
