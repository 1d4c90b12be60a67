-- ===== src/Lib.antt =====
-- A library of theorems about GS-DBEngine, a relational storage engine in C++ (`src/`). It covers
-- the parts that keep the data: pages, the database file, the buffer pool, the write-ahead log,
-- the bytes of rows, the catalog, the header page, the free list, B+trees, indexes and tables; and the
-- tokenizer and the parser of its SQL.
--
-- The engine keeps its data in pages of 4096 bytes. The disk manager reads and writes them in one
-- file. The buffer pool holds up to 64 of them in frames, and gives a frame up by LRU order when
-- nobody pins it. The log takes the pages that a transaction writes and its COMMIT record, makes
-- them durable, and then copies the pages into the pool; a restart reads it back. Above them, a node
-- of a B+tree is one page, whose cells hold encoded keys with row bytes or with child pages. The
-- catalog of tables and indexes is page 1, which its manager writes through the log.
--
-- - Base and its children: results that may be errors, tests on numbers, lists measured by native
--   numbers, little-endian words, writes into a byte buffer, association lists.
-- - Row: src/row/row.h. A std::variant is a data type with its alternatives, and its order is the
--   one of the C++ library. An int32_t and a float are bit patterns below 2 ^ 32. Row.Order has the
--   laws of the order.
-- - Storage.Page, Storage.Disk: src/storage/page.h, disk_manager.h and disk_manager.cpp. A file is
--   its bytes and those that the last fsync made durable.
-- - Storage.Pool: src/storage/buffer_pool.h and buffer_pool.cpp, method by method under the names of
--   the source; a method that throws returns the error with the pool that it leaves. Valid states
--   the invariant and the abstract view, the page that a client reads at an id. Table, Evict,
--   Victim, Update, Install, Fetch, NewPage, Release, Progress, Flush, Durable and Open prove each
--   operation against both.
-- - Wal: src/wal/wal_manager.h and wal_manager.cpp. Log has the records and their bytes, Replay what
--   a cut of the bytes keeps, Apply the copying of pages into the pool, Commit and Transaction the
--   writing side, Recover the reading side, Crash both with a restart between them, and
--   Beyond a log whose page the file does not have.
-- - Btree.Key: src/btree/key.h and key.cpp. Btree.Node: src/btree/btree_node.h and btree_node.cpp.
--   Cells, RoundTrip, Search, Progress and Fresh have the laws.
-- - Btree.Tree: src/btree/btree.h and btree.cpp. A method is an Action: it takes the state and returns
--   its result, or the exception, with the state that it leaves. Tree has the state, the descent and
--   `search`; Scan the scans; Edit what a change does to the bytes of one node; Insert, Siblings,
--   Rebalance and Remove the rest of the methods, under the names of the source. The proofs stand
--   beside them: Store is what a method sees of the pool and the log, Shape a tree that the pages
--   hold, Lookup the descent, Sorted and Packed one leaf, Transact a transaction, Graft, Maps, Change
--   and Erase a tree in which one leaf is replaced, Chain, Range and Prefix the scans.
-- - Index: src/index/index.h and index.cpp, over a B+tree. The two overloads of a change and the two
--   forms of a lookup share their definitions. Find has what lookups and the check of a unique index
--   see of the tree, Ascending the order of a lookup by all columns.
-- - Table: src/table/table.h and table.cpp. The state holds the tree of the table, with the shared
--   objects, and the indexes. A call of an index takes the shared objects from the table and puts
--   them back. Rows has the methods over all trees and the insert, Update the reads and the changes of
--   single rows, Batch `update_matched`; Numbering says which row an insert stores and what the
--   counter is then; Select and Delete have the laws. A predicate may throw.
-- - Tokenizer: src/parser/token.h, tokenizer.h and tokenizer.cpp. Types, Keywords and Scan have the
--   definitions. The position in the input is the rest of the input. Loops, Progress, Ends and Words
--   have the laws.
-- - Parser: src/parser/ast.h, parser.h and parser.cpp. A statement is a data type as in ast.h, and a
--   method of the parser is an action on its position, which is the rest of the tokens. Cursor has
--   the reading of single tokens, Words names and values, Having, Where, Select and Tables the parts
--   of statements, Statements the statements; Takes, Plain, Bounds, Precedence, Printed and Inserts
--   have the laws, Numbers those of numbers. `std::stof` is a parameter.
-- - Database: src/database.cpp, what `execute` makes of a text before it runs the statement. Spelled,
--   Scans, Printed, Texts and Insert have the laws of texts that are printed from tokens.
-- - Row.Serializer: src/row/serializer.h and serializer.cpp. Bits, Marks
--   and RoundTrip have the laws of the null bitmap and of the bytes.
-- - Catalog.Schema: src/catalog/schema.h. Catalog.Codec and Catalog.Manager:
--   src/catalog/catalog_manager.h and catalog_manager.cpp, the bytes of the catalog page and the
--   methods. Catalog.Words has the helpers of the codec, Catalog.Texts the maps with names as keys.
-- - Header: src/header/header_manager.h and header_manager.cpp, page 0; Init and
--   Reload have its laws. FreeList:
--   src/btree/free_list_manager.h and free_list_manager.cpp, over the state of the header manager.
-- - Tests: the theorems at concrete inputs.
--
-- Loops over bytes take fuel. `read_cells` has as much as a page has bytes and every round takes two
-- at least; `scan_log` has as much as the log has bytes and every round takes nine. Both are proved
-- to be enough. The walks down a tree
-- and along its leaves have one round more than the file has pages, and theorems say that this is
-- enough for a tree that the pages hold. `split_internal` climbs the parent links with the same fuel.
-- `tokenize` and the loop over blanks and comments have as much fuel as bytes are left, and each round
-- takes one. The loops of the parser and the nesting of its subqueries have one unit more than tokens
-- are left. For the tokenizer and the parser, this is proved to be enough. All other loops are
-- recursion on a list or a number.
--
-- A hash map is an association list, whose order stands for the order of iteration. A count of type
-- uint32_t or uint16_t wraps as in the source. An access outside a buffer, which C++ leaves
-- undefined, is an error of its own. System calls that fail for reasons of their own (no space, a
-- bad device) are not modelled: `pread`, `pwrite` and `fsync` do what POSIX says of a success. A
-- crash keeps a first part of the log's bytes; the file may hold anything of the right size.
--
-- Where C++ keeps a byte that is no enumerator of its type, or leaves a half-filled catalog when
-- `load` throws, the model has an error and the old catalog.
--
-- Not modelled: the executor, the rest of the database class, and the command line, which only reads
-- and prints. A syntax error carries no message. What the B+tree does in a split, a redistribution
-- and a merge is modelled, and its theorems are about inserts and removes that change one leaf. The
-- theorems on changes of a table are about tables without indexes.
pub mod Base
pub mod Row
pub mod Storage
pub mod Wal
pub mod Header
pub mod FreeList
pub mod Catalog
pub mod Btree
pub mod Index
pub mod Table
pub mod Tokenizer
pub mod Parser
pub mod Database
pub mod Tests
