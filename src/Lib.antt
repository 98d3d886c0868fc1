-- ===== src/Lib.antt =====
-- CourtDB: a page-based database engine for basketball play-by-play records. The development models
-- its storage engine, its log and its query executors, and proves that they do what the others need.
--
-- The parts, from the disk up, and the files that model them:
--   * src/disk/disk_manager.cpp, Disk: the database file. `DiskManager` is its header and its file,
--     `read_page`, `write_page`, `allocate_page`, `deallocate_page`, `read_header` and `write_header`
--     are the methods. PosixFile has the two system calls. What the system does in each call is data:
--     `none` transfers everything, `some k` at most `k` bytes.
--   * src/storage/page.cpp, Page: the slotted page. `Page` is the object: its buffer, the header and the
--     slot directory. `insert_record`, `delete_record`, `get_record`, `update_record`, `get_free_space`
--     and `has_space_for` are the methods, Page/Image has `serialize_to_buffer` and
--     `deserialize_from_buffer`, and Page/Invariant says when a page is well-formed.
--   * src/buffer/buffer_pool_manager.cpp, Buffer: frames, the page table, pins, and the LRU replacer
--     that picks the frame to evict. It reads and writes pages through the disk manager. `fetch_page`,
--     `unpin_page`, `create_page` (NewPage), `delete_page`, `flush_page` and `flush_all_pages` are the
--     methods; Buffer/Invariant says when a pool is valid, and Buffer/Store what it shows its clients: a
--     page for each id, wherever its bytes are.
--   * src/storage/heap_file.cpp, HeapFile: a chain of slotted pages in the pool. `heap_insert`,
--     `heap_delete`, `heap_get`, `heap_update`, `allocate_new_page` and `find_page_with_space` are the
--     methods, `open_heap` the constructor, and HeapFile/Iterator is the iterator over all records.
--   * include/index/btree.h and src/index/btree.cpp, BTree: the nodes of the B+tree. `leaf_insert`,
--     `leaf_delete`, `find_all`, `find_key_position`, `find_child` and `insert_after` are the methods,
--     `split_leaf`, `split_internal` and `new_root` the parts of the tree's Insert that make nodes, and
--     BTree/Image has the nodes' bytes. BTree/Entries is the reference: a sorted list of entries.
--   * src/storage/record.cpp, Record: RIDs and the binary format of a record.
--   * src/recovery/log_record.cpp, LogRecord: the records of the write-ahead log.
--   * src/recovery/log_manager.cpp, LogManager: the log buffer, the log file and the iterator over it.
--     LogManager/Append sees the log as one sequence of bytes, LogManager/Iterate as its records.
--   * src/query/executor.cpp, Query: executors with Init and Next. `Produces` says which tuples repeated
--     Next hands out; the operators are shown to transform that sequence as the list functions do.
--     Query/Aggregate has the aggregation.
--   * src/recovery/recovery_manager.cpp, Recovery: redo of the log through the buffer pool, logging and
--     checkpoints. Recovery/Effects says what each kind of record does to a store of pages, and
--     Recovery/Replay that Recover does it.
-- Base has what the parts share: buffers and little-endian numbers, lists, sorting, exceptions.
--
-- How the code corresponds to the definitions:
--   * A method is a function from the object's state to its result and the new state. A method that may
--     throw returns a `Result`, which holds the state also when it throws. A null pointer and an empty
--     std::optional are `none`; a pointer to a page of the pool is the number of its frame.
--   * Numbers are natural numbers. Arithmetic in uint16_t, uint32_t and uint64_t wraps where the code's
--     does (`u16`, `sub16`, `u32`, `u64`); the 64-bit counters of the pool's statistics do not.
--   * A buffer is a function from offsets to bytes, a std::string the list of its bytes. Hash maps are
--     functions or association lists; the order of an association list is not the map's.
--   * `double` is a parameter of the aggregation, with the operations that the code uses.
--   * A loop is recursion on what it counts, or on fuel where a child executor decides when it ends: fuel
--     for one tuple more than the child gives is enough, and the theorems about such loops ask for it.
--     The binary search has a round for each index and one more, and recovery one for each record and one
--     more.
--   * std::sort and std::partial_sort are an insertion sort: of the orders that the library allows for
--     tuples that the comparator does not tell apart, the definitions have one. The theorems say what
--     holds of each of them, and ask for a strict weak order, as the library does.
--   * A pointer to a page that a client writes through is `set_frame` on the pool. A comparator of keys
--     is a function into an ordering, the sign of the code's `int`.
--
-- Not modelled: the latches (an operation runs alone), assertions, printing; the compaction of a page;
-- the heap file's bulk insert; the B+tree's walk over the pool, whose nodes are modelled.
-- Of the query executors the table scan is left out, which follows the heap file's iterator; what the index
-- finds is a parameter of the index scan.
pub mod BTree
pub mod Base
pub mod Buffer
pub mod Disk
pub mod HeapFile
pub mod LogManager
pub mod LogRecord
pub mod Page
pub mod PosixFile
pub mod Query
pub mod Record
pub mod Recovery
