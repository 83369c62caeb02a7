-- ===== src/Lib.antt =====
-- Storage of vector columns, verified. The repository is an extension for a database server: a
-- vector type with its functions, external storage for columns of vectors, and an approximate
-- nearest neighbour index (HNSW) on that storage. This development is about the storage, and about the
-- algorithms of the index.
--
-- A column store (`src/storage/storage.h`, `storage.cc`) keeps records of one size on data pages
-- (`src/storage/data_page.h`, `data_page.cc`). A root page (`src/storage/root_page.h`,
-- `root_page.cc`) keeps the list of all data pages, and an array of slots, each the head of a
-- doubly linked list of data pages that have free records. An insert takes the first page of a
-- slot, finds a free record in the page's bitmap and returns a column reference, of the page and
-- the record's slot on it. A purge frees the record again.
--
-- The index (`src/index/hnsw`) is a graph with levels. A search (`graph_ops_impl.h`, `search_knn`) goes
-- down the levels, and on each one a loop with two priority queues walks the graph
-- (`layer_ops_impl.h`, `search`); an insert links a node on each of its levels to neighbours that a
-- heuristic selects (`consume_heuristic`).
--
-- Base: numbers, Booleans, lists and bits, with the lemmas that the components share.
-- Page: what the sources use of the storage API (`villagesql/preview/storage_api.h`), which is not
--   part of the repository. `Page.Api` is an interface, with the laws of reading what has been
--   written as its only assumption; `Page.Bytes` is an instance, pages as functions from offsets to
--   bytes, on which the tests run. `Page.Store` is a space of pages by reference, with the
--   references that cannot be loaded. `Page.Links` is about doubly linked lists of pages.
-- DataPage: `data_page.h` and `data_page.cc`. The record `DataPage` has the members of the struct
--   less `m_`; a function that writes to the page returns the page. `DataPage.View` is the abstract
--   view, a map from slots to records.
-- RootPage: `root_page.h` and `root_page.cc`. Operations that load other pages take the store and
--   return it with whether they failed.
-- ColumnStore: `storage.h` and `storage.cc`. An error is a value, of one constructor for each message
--   of the source. `ColumnStore.Insert` is the insert; `Surroundings` is what happens around it: the
--   number of inserts under way, the pages that the storage engine hands out, the latches that
--   cannot be released, and what other threads do to the pages while it holds no latch.
-- Hnsw: `Hnsw.Graph` is the interface that `layer_ops.h` requires of a graph, with `visibility_policy.h`.
--   `Hnsw.Queue` has the two priority queues, lists in the order in which elements leave them.
--   `Hnsw.Layer` is `LayerOperations`; its children are about what a search keeps (`Offer`, `Keeps`,
--   `Visit`, `Round`, `Seed`, `Loop`), what it returns (`Answer`), that it ends (`Ends`, `Total`),
--   where it stops (`Stops`) and what the heuristic selects (`Diverse`, `Selection`).
--   `Hnsw.Mutable` is the interface of a graph that changes, with steps that keep the state also where
--   they fail; `Hnsw.Operations` is `GraphOperations`; its children are about `search_knn` (`Knn`,
--   `Returns`), `mark_delete` (`Marks`), and `insert` with the steps of its run (`EntryPoint`,
--   `Levels`, `Links`, `Insert`).
-- Native: the native form of a vector (`src/native_vector.h`, `native_vector.cc`): `Native.Codec` is about
--   the encoded form, `Native.Symmetry` about the distances, `Native.Buffer` about the buffer.
-- VectorText: the text form of a vector (`src/vector.cc`), parsed and printed. `strtof` and `to_chars`
--   are parameters.
-- Tests: runs on concrete pages, and the theorems at concrete arguments.
--
-- Numbers are natural numbers; the wrap-around of the source's unsigned types is written out where
-- a value can leave its range. A distance is a number that stands for its place in the order of
-- distances, of which no operation on the graph does more than compare two; not-a-number has no
-- place there. The order of queue elements at equal distances, which `std::priority_queue` leaves
-- open, is a parameter. A float of the native form is its 32 bits, and the arithmetic on floats and
-- doubles is a parameter. The random choice of a slot or of a level is an argument.
--
-- Three loops run on fuel. That of `DataPage::init` has the limit on iterations of the source itself.
-- That of `search` has a round for each candidate that it takes from the queue; a node is queued at
-- most once, so the number of nodes and entry points and one more are enough. That of
-- `svector_from_string` has a round for each character of the text, of which each round takes one at
-- least.
--
-- Not modelled: creating, loading and dropping a store (`MultiColumnStore`); latches, level locks,
-- mini-transactions and the asserts of debug builds (an operation runs on its own but where it
-- gives up a latch or a lock, and a theorem that needs what an assert states has it as a
-- hypothesis); error messages; the SQL functions but for parsing and printing (`src/vector.cc`); the
-- graph on its pages (`src/index/hnsw/graph.cc`, `storage.cc`), of which `Hnsw.Mutable` has the
-- operations as parameters; the tools that print pages (`src/storage/tools`).
pub mod Base
pub mod Page
pub mod DataPage
pub mod RootPage
pub mod ColumnStore
pub mod Hnsw
pub mod Native
pub mod VectorText
pub mod Tests
