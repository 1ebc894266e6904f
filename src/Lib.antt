-- ===== src/Lib.antt =====
-- The Oxford entry of the SIGMOD 2012 programming contest: an in-memory index over multidimensional
-- keys, written in C++ over Berkeley DB. This library models the implementation in example/, the types
-- of include/contest_interface.h that it exchanges with its callers, and the command line parser.
--
-- How the program works: a caller creates an index from a name and an array of attribute types
-- (`CreateIndex`), opens handles on it, and inserts, updates, deletes and iterates over records. A
-- record's key is encoded as a buffer of fixed size and stored in a b-tree of Berkeley DB, which
-- calls back to `keycmp` to compare two buffers. The singleton `IndexManager` maps names to index
-- structures; a structure keeps the layout of the keys, the open handles, and the transactions that
-- have written to the index and have not ended, because of which `DeleteIndex` is refused.
--
-- Which file models which part:
--   Base, Base/*: booleans, options, lists, machine integers, and `std::set` as a list.
--   Types: the data of include/contest_interface.h. A key is a list of attributes, `none` for NULL.
--   Util, Util/*: example/Util.cc, that is `attcmp`, `keycmp`, `CheckBounds` and the copies of keys
--     and records; the order of keys (Order, Lexicographic) and the ranges (Ranges).
--   Structure, Structure/*: class IndexStructure of example/Index.cc: `GetBDBKey` and `GetKey`
--     (Encoding, Wildcards), and the protocol of `start_transaction`, `end_transaction` and
--     `MakeReadOnly` (Transactions).
--   Bdb, Bdb/Laws: Berkeley DB, a parameter of the model: its calls are the fields of the record
--     `Bdb`, and `Cursors` states what the manual documents of cursors.
--   World: the state that all functions share, and the monad in which they run. A pointer is a
--     number; an object that was deleted is `none`. A call returns, throws, or is stuck (a failed
--     assertion, a dangling pointer, or fuel that ran out).
--   Manager, Manager/Laws: class IndexManager, `IndexStructure::CloseHandles`, and `Index::Close`.
--   Index, Index/*: class Index of example/Index.cc. Modify has `Update` and `Delete`. Scan follows the
--     loops over duplicates, Lookup the search for the first record, Effect a whole change with its
--     nested transaction, and Changes states what `Update` and `Delete` leave in the index. Match has
--     the rows that match a record, Find where the search stops, and Single a change of one row.
--   Iterator, Iterator/*: class Iterator of example/Iterator.cc: the loop of `Next` (Loop), why it
--     may stop at the first attribute (Range), and what one call does (Next). Rows has the rows that
--     a range of keys selects, and Order what a new row does to sorted rows.
--   Api, Api/*: the functions of example/BDBImpl.cc with their guards and `catch` clauses;
--     `CloseIterator` is `end_iterator`. Errors has the `catch` clauses, Guards the argument
--     checks, Deletion the transactions that hold an index, Insertion what InsertRecord adds to
--     the rows, and Iteration what GetNext returns of them, which Answering sums up. Traversal
--     follows the calls of GetNext to the end, RangeQuery puts GetRecords before them, Stored an
--     InsertRecord before that, and Lifecycle has CreateIndex with OpenIndex.
--   Table, Table/*: an index as a list of rows. Table has a client's requests and what the list
--     answers, State the worlds in which a handle serves such a list, Sorted what changes do to
--     sorted rows, Changes and Selection one request, Refinement any sequence of them, Creation
--     such a sequence on an index that was just created, and Commuting and Loading insertions in
--     any order.
--   Consistency/*: what all calls together keep of the objects on the heap and of the map of
--     indices. Invariant has the invariant, Rules a rule for each way in which the program composes
--     calls, and Keeping pairs a call with the proof that it keeps the invariant, so that a proof
--     is written like the call. Heap and Names follow writes; Handles, Closing, Deletion,
--     Transactions, Records, Changes, Iterators, Lifecycle and Opening the operations of
--     example/Index.cc and example/Iterator.cc; Calls and Access the functions of
--     example/BDBImpl.cc. Endings has a rule for each way in which calls are composed that are not
--     stuck, Surviving pairs a call with the proof of that, and Modifying has `Update` and `Delete`
--     as such pairs. Runs has the worlds that calls lead to from the empty heap. Progress has the
--     ends of transactions in those worlds, Handling what they have for a handle, Serving and
--     Returning the calls on handles, and Deleted what DeleteIndex does on an index without handles
--     and on one with an open handle, which Unclosed follows through all registered handles.
--   ArgumentParser, ArgumentParser/Options: the command line parser of common/argument_parser.cc:
--     its options, `parse_args` and the texts of the help. The two loops of `parse_args` are one
--     recursion over the rest of the command line. `add_argument` reads a string that it has
--     destroyed; what is read there is the argument `stale` of the model, which is any function.
--   Tests, Tests/*: a small instance of Berkeley DB, and calls on it.
--
-- A method that holds a mutex is one step; interleavings of such steps are lists of calls in
-- Structure/Transactions. In Consistency/Runs one call of the interface is one step, with any
-- arguments and any answers of Berkeley DB, and the sequence of calls is any in which each call
-- returns or throws (is not stuck) and DeleteIndex is called only on names whose index has no
-- registered handle. With an open handle DeleteIndex advances an invalid iterator, or leaves a
-- deleted structure in the map when closing the handle throws (Consistency/Deleted and
-- Consistency/Unclosed); after such a call nothing holds of the heap. "Reachable" stands for
-- these worlds. Calls that run at the same time are not interleaved there.
-- The program is taken as C++98: a destructor that throws does not end the program, and its object
-- is released all the same (`delete_structure`, `delete_handle`, and the local Db of CreateIndex).
-- A use of an iterator or a pointer that is no longer valid is `stuck`. Arrays are lists: where the
-- source reads past the end of an array that is too short, CreateIndex is stuck; `GetBDBKey` is
-- called on keys that `Compatible` has found to be as long as the index, and the theorems on it
-- have that as a hypothesis.
-- Loops over records take fuel, and each theorem about one says how much is enough: more than the
-- rows that are behind the cursor. `Update` and `Delete` leave their cursor open when the nested
-- transaction commits; the law `commits` says that Berkeley DB accepts that.
-- Memory is not modelled beyond the objects above: the functions that free keys and records have no
-- counterpart, and the copies of keys and records are equal values. Also not modelled: Berkeley DB
-- itself and the configuration of its environment (example/ConnectionManager.cc), the mutex, the
-- stubs in BasicImpl.cc, and the unit tests and the benchmark.
pub mod Base
pub mod Types
pub mod Util
pub mod Structure
pub mod Bdb
pub mod World
pub mod Manager
pub mod Index
pub mod Iterator
pub mod Api
pub mod Table
pub mod Consistency
pub mod ArgumentParser
pub mod Tests
