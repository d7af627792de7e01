-- ===== src/Lib.antt =====
-- RMDB, a relational database: the storage layer's page cache, record files, the B+ tree index, and
-- the transaction layer's locks, versions and log records.
--
-- The buffer pool (src/storage/buffer_pool_manager.cpp) keeps pages of files in frames. It takes
-- frames from its free list or from a replacer (src/replacer), and reads and writes pages through
-- the disk manager (src/storage/disk_manager.cpp). Record pages mark their used slots in a bitmap
-- (src/record/bitmap.h); a table's file (src/record/rm_file_handle.cpp) keeps records in their slots
-- and links the pages that are not full. An index (src/index/ix_index_handle.cpp) is a B+ tree of
-- pages that leads from keys to the places of records. Transactions lock tables and records
-- (src/transaction/concurrency), log their changes (src/recovery), and read and write chains of versions of a record (src/transaction/mvcc_defs.h, mvcc_manager.h).
--
-- Which file models what:
--   Prelude: names of the libraries, Boolean tests, lists, maps as functions, integers.
--   Record/Bitmap: src/record/bitmap.h; a bitmap is the list of its bytes.
--   Record/MvccMap: src/record/mvcc_map.h. Record/FileHandle: insertion into, and reads of,
--     src/record/rm_file_handle.cpp; Record/FileHandle/Changes: the calls that change records, and
--     insertion at a place (insert_record_at) and of a batch; the other files beside it hold the proofs.
--   Record/Scan: src/record/rm_scan.cpp. Record/Layout: create_file of src/record/rm_manager.h, and
--     the order that create_index of src/index/ix_manager.h computes.
--   Recovery/LogRecord and Serialize: the log records of src/recovery/log_manager.h in a buffer, and how
--     src/recovery/log_recovery.cpp tells their type; Parts to RoundTrip beside them hold the proofs.
--   Index/Keys: ix_compare of src/index/ix_index_handle.h, and Keys/Preorder its laws. Index/Order: what the tree needs of it.
--   Index/Header: IxFileHdr of src/index/ix_defs.h and its bytes; Prelude/Bytes: integers in memory.
--   Index/Node: IxNodeHandle of src/index/ix_index_handle.h; a node's entries are a list.
--   Index/Tree: src/index/ix_index_handle.cpp, the descent; Index/Tree/Insertion, Deletion and Scan:
--     the rest of it, and src/index/ix_scan.cpp; the other files beside them hold the proofs.
--   Replacer: what the buffer pool needs of a replacer, as a record of operations and laws.
--   Replacer/Clock: src/replacer/clock_replacer.h. Replacer/Lru: src/replacer/lru_replacer.cpp and
--     lru_replacer.h; the iterators in the hash map are identities of list nodes.
--   Storage/Page: src/storage/page.h. Storage/Disk: page reads and writes and page numbers of
--     src/storage/disk_manager.cpp.
--   Storage/BufferPool/Defs: src/storage/buffer_pool_manager.cpp, one function for each member
--     function; its other files hold the proofs, from the invariant to histories of calls.
--   Transaction/Types: src/defs.h, src/transaction/txn_defs.h, transaction.h.
--   Transaction/Lock: src/transaction/concurrency/lock_manager.cpp and lock_manager.h.
--   Transaction/VersionChain: src/transaction/mvcc_defs.h, and what src/transaction/mvcc_manager.h
--     does to one chain. Transaction/Mvcc: the manager's map of chains, with insert_record,
--     update_record and delete_record for its insert_version, update_version and delete_version.
--   Tests: the theorems at concrete inputs.
--
-- State is passed explicitly, and each call is one step, since it holds its latch to its end.
-- Numbers that the code keeps from being negative are natural numbers; page numbers, slots,
-- transaction identities and timestamps are integers. None of them wraps around in the model,
-- apart from the integers in memory below: the code counts pages and time in 32 bits, and does not
-- treat an overflow. The operating system's files are a parameter: a read or write of a page may fail, and a page that was written reads back.
-- A failed read or write is an answer where the code throws. The assertions on file descriptors
-- (fd < MAX_FD) are left out: descriptors are those of open files.
--
-- Loops are structural, or on the number of rounds that the code itself bounds: twice the number
-- of frames for the hand of CLOCK, max_n for the bitmap, 1000 versions for a chain. The bound of
-- the chain is a hypothesis where a theorem compares chains of different lengths.
--
-- Floating-point numbers and the machine's order on them are parameters of the keys of an index; the
-- tree itself is over any keys with a total preorder. In a record page, memory behind the last slot is kept beside the slots, and what a write there
-- destroys is not modelled.
--
-- Record files and the index see pages as their handles show them; pins and latches are the buffer
-- pool's and the callers'. A fetch of a page that is there succeeds, and a new page is always given.
-- The descent of the tree and the walks towards its root are on fuel: more than the height of the tree
-- is enough for the descent. A scan makes a round for each page that is left.
--
-- Integers in memory are 32 bits with the lowest byte first. The members of a header that is read
-- or written are within these bits, by hypothesis, and an access past the end of a buffer is `none`.
--
-- Not modelled: opening, creating and closing files, log files, the bulk load of
-- an index, the header's bytes of a record file, the log buffer and the passes
-- of the recovery, the transaction manager, the parser, planner and executors, the server and the
-- client. Of the version manager, the write of a committed version to the storage and the
-- clean-up of a dropped table are left out; a key of its map stands for a string. What
-- happens inside a call is not interleaved with other calls.
pub mod Prelude
pub mod Index
pub mod Record
pub mod Recovery
pub mod Replacer
pub mod Storage
pub mod Transaction
pub mod Tests
