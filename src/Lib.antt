-- ===== src/Lib.antt =====
-- MiniOB is a small relational database in C++. This library models parts of its storage engine and
-- of its network layer, translated from the code, with the theorems that make them correct.
--
-- The parts and how they interact. A table's rows lie in pages; a page's slots are found through a
-- bitmap. Each change of a page appends an entry to the log before it counts as done, and recovery
-- replays the entries on the pages that were flushed earlier. Transactions keep two marks in each row,
-- who made it and who removed it, by which they decide what they see, and undo their changes when
-- they roll back. Log entries wait in a buffer until a thread flushes them to a file, and are read
-- back from it at the start. Answers to clients go through a ring buffer to a socket.
--
-- The files and the code.
-- - Rc: src/observer/common/rc.h.
-- - Bitmap: deps/common/lang/bitmap.{h,cpp}. The array is a list of bytes; -1 is `none`.
-- - LowerBound: deps/common/lang/lower_bound.h. The comparison is a function of the place.
-- - RingBuffer: src/observer/net/ring_buffer.{h,cpp}. `chunk` is RingBuffer::buffer.
-- - BufferedWriter: src/observer/net/buffered_writer.{h,cpp}. What ::write answers is a list that the
--   environment gives; what it has taken is kept as `sent`.
-- - RecordLog, RecordReplay: src/observer/storage/record/record_log.{h,cpp}. The log handler is the disk
--   one, whose sequence numbers rise by one, or the vacuous one. The pages of the buffer pools are a map
--   from a pool's id and a page's number to what get_this_page answers.
-- - RecordPage: src/observer/storage/record/record_manager.{h,cpp}, RecordPageHandler and
--   RecordPageIterator. Header, bitmap and bytes of a page are fields; a handler is a page with its log.
-- - RecordFile: RecordFileScanner of the same file, over the iterators of BufferPool and RecordPage, and
--   (FileHandler) RecordFileHandler. What the opening of a page answers is a parameter.
-- - MvccTrx: src/observer/storage/trx/mvcc_trx.{h,cpp}, trx.h. The tables are one map from places to
--   rows, the transaction kit's counter and the log stand beside it.
-- - TrxReplay: src/observer/storage/trx/mvcc_trx_log.cpp (MvccTrxLogReplayer) and mvcc_trx.cpp
--   (MvccTrxKit). A transaction's address is a handle; what the lookup of a table answers is a parameter.
-- - BufferPool: src/observer/storage/buffer/disk_buffer_pool.{h,cpp}, buffer_pool_log.cpp: the header
--   page with its counts and its bitmap, its log, and the iterator; the frames are a parameter.
-- - BplusTree: src/observer/storage/index/bplus_tree.{h,cpp}, bplus_tree_log.cpp,
--   bplus_tree_log_entry.cpp: leaves (LeafNode) with their merging (LeafMerge), internal nodes
--   (InternalNode), and the log entries of a node (NodeLog, NodeRollback). A page's array is a map from
--   places to items; how far it reaches is bounded by the sizes.
-- - LatchMemo: src/observer/storage/index/latch_memo.{h,cpp}: the pins and latches that a
--   mini-transaction of the tree holds; the calls on the frames and the pool are kept in order.
-- - Clog: src/observer/storage/clog/log_entry.{h,cpp}, log_buffer.{h,cpp} and the reader and the writer
--   of log_file.{h,cpp}. A file is its bytes.
-- - Base: the names, lists, memory and integers that the parts share.
--
-- State is passed explicitly; a call gives its code, its results and the new state. `none` is a failed
-- ASSERT, a fault, or a call that does not return, as each file says. Loops that are not structural
-- run on fuel: RingBuffer.read and write on the size and one (a round copies a byte at least), writen
-- and flush likewise on the bytes left, fix_record_capacity on the capacity, the log reader on the
-- length of the file and one (a round consumes a header), the walk over pages on the pages left and one,
-- the binary search on the number of elements and one. The theorems show that it is enough.
--
-- Not modelled: the lexer and the parser (generated), sockets and threads, file I/O beyond what a file
-- or a descriptor holds, the frames of the buffer pool, the B+ tree above its nodes, the SQL layers, and
-- the common utilities.
-- Machine integers are unbounded: sizes and counts stay far below 2^31, and a transaction id is not
-- followed past it.
pub mod Base
pub mod Rc
pub mod Bitmap
pub mod RingBuffer
pub mod TrxReplay
pub mod BufferPool
pub mod BplusTree
pub mod RecordFile
pub mod BufferedWriter
pub mod Clog
pub mod RecordLog
pub mod RecordPage
pub mod RecordReplay
pub mod LatchMemo
pub mod LowerBound
pub mod MvccTrx
