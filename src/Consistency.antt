-- ===== src/Consistency.antt =====
-- The objects on the heap and the map of index structures under the calls of the interface
-- (example/Index.cc and example/BDBImpl.cc), whatever Berkeley DB answers.
pub mod Invariant
pub mod Rules
pub mod Names
pub mod Heap
pub mod Handles
pub mod Closing
pub mod Deletion
pub mod Transactions
pub mod Keeping
pub mod Endings
pub mod Surviving
pub mod Modifying
pub mod Records
pub mod Changes
pub mod Iterators
pub mod Lifecycle
pub mod Opening
pub mod Calls
pub mod Access
pub mod Runs
pub mod Progress
pub mod Handling
pub mod Serving
pub mod Returning
pub mod Deleted
pub mod Unclosed
