-- ===== src/Api.antt =====
-- The functions of the contest interface over Berkeley DB (example/BDBImpl.cc): argument checks,
-- and the translation of exceptions into status codes. A parameter `T **p` is a cell, `none` if it
-- is NULL, and the function returns its content afterwards.
mod Errors
unfoldable pub use Errors.*
pub mod Guards
pub mod Deletion
pub mod Iteration
pub mod Answering
pub mod Traversal
pub mod RangeQuery
pub mod Stored
pub mod Lifecycle
pub mod Insertion
use text.Mathlib.Text.{◌==◌ as str_eq}
use oxford_sigmod.Base.{
  ℕ, Bool, true, false, Option, none, some, List, String, ◌||◌, ◌==◌, take, not, ◌&&◌, ltb, length,
  if◌then◌else◌,
}
use oxford_sigmod.Types.{
  ErrorCode, k_ok, k_transaction_aborted, k_error_out_of_memory, k_error_deadlock,
  k_error_index_exists, k_error_unknown_index, k_error_iterator_closed, k_error_not_found,
  k_error_transaction_closed, k_error_incompatible_key, k_error_open_transactions,
  k_error_generic_failure, AttributeType, Key, Record, Block,
}
use oxford_sigmod.Bdb.{
  Bdb, Exception, deadlock_exception, memory_exception, db_exception, Errno, eexist, enomem, enoent,
  einval, other_errno, get_errno,
}
use oxford_sigmod.World.{
  World, Index, Outcome, M, ◌>>=◌, ◌>>◌, pure, fail, finally, destroy_db, or_fail, catching, bdb,
  object_at, iterator_at, set_iterator,
}
use oxford_sigmod.Manager.{
  allocate_structure, insert_structure, remove, delete_handle, close_transaction,
}
use oxford_sigmod.Index.Modify
use oxford_sigmod.Index
use oxford_sigmod.Index.{allocate_index, compatible, compatible_record}
use oxford_sigmod.Iterator
use oxford_sigmod.Iterator.{new_iterator, close_iterator, next, value}

abbrev pub is_ok : ErrorCode → Bool
is_ok k_ok = true
is_ok _ = false

module _ {B : Bdb} where
  -- BeginTransaction
  unfoldable pub begin_transaction : Cell ℕ → M B (ErrorCode × Cell ℕ)
  unfolding begin_error
  begin_transaction none = pure (k_error_generic_failure, none)
  begin_transaction (some old) =
      catching (do t ← bdb (B.txn_begin none); pure (k_ok, some (some t)))
        λ e. pure (begin_error e, some old)

  -- AbortTransaction
  unfoldable pub abort_transaction : Cell ℕ → M B (ErrorCode × Cell ℕ)
  abort_transaction none = pure (k_error_transaction_closed, none)
  abort_transaction (some none) = pure (k_error_transaction_closed, some none)
  abort_transaction (some (some tx)) =
      catching (do bdb (B.txn_abort tx); close_transaction tx; pure (k_ok, some none))
        λ e. pure (k_error_generic_failure, some (some tx))

  -- CommitTransaction: only a deadlock leaves the transaction as it is.
  unfoldable pub commit_failed : ℕ → Exception → M B (ErrorCode × Cell ℕ)
  unfolding abort_transaction
  commit_failed tx e = elim e [
    | deadlock_exception ↦ pure (k_transaction_aborted, some (some tx))
    | _ ↦ do
      (result, cell) ← abort_transaction (some (some tx))
      pure (if is_ok result then k_transaction_aborted else k_error_generic_failure, cell)
  ]

  unfoldable pub commit_transaction : Cell ℕ → M B (ErrorCode × Cell ℕ)
  unfolding commit_failed
  commit_transaction none = pure (k_error_transaction_closed, none)
  commit_transaction (some none) = pure (k_error_transaction_closed, some none)
  commit_transaction (some (some tx)) =
      catching (do bdb (B.txn_commit tx); close_transaction tx; pure (k_ok, some none))
        (commit_failed tx)

  -- CreateIndex. The constructor of the structure reads `column_count` types.
  unfoldable pub create_named : String → ℕ → List AttributeType → M B ErrorCode
  unfolding create_error
  create_named name column_count types = do
    created ←
        catching
          (do
            db ← bdb B.db_create
            finally (bdb (B.db_open db name true)) (destroy_db db)
            pure k_ok)
          (λ e. pure (create_error (get_errno e)))
    elim (is_ok created) [
      | false ↦ pure created
      | true ↦ elim (ltb (length types) column_count) [
        | true ↦ fail
        | false ↦ do
          p ← allocate_structure (take column_count types)
          insert_structure name p
          pure k_ok
      ]
    ]

  unfoldable pub create_index : Option String → ℕ → Option (List AttributeType) → M B ErrorCode
  unfolding create_named
  create_index name column_count types = elim (given_name name) [
    | none ↦ pure k_error_generic_failure
    | some n ↦ elim types [
      | none ↦ pure k_error_generic_failure
      | some ts ↦ elim (column_count == 0) [
        | true ↦ pure k_error_generic_failure
        | false ↦ create_named n column_count ts
      ]
    ]
  ]

  -- OpenIndex, with `*idx` as it is afterwards. After an exception the handle is deleted.
  unfoldable pub open_failed : ℕ → Exception → M B (ErrorCode × Option ℕ)
  unfolding open_error delete_handle
  open_failed h e = do delete_handle h; pure (open_error (get_errno e), none)

  unfoldable pub open_index : Option String → Option ℕ → M B (ErrorCode × Option ℕ)
  unfolding open_failed
  open_index name old = elim (given_name name) [
    | none ↦ pure (k_error_generic_failure, old)
    | some n ↦ do
      h ← allocate_index n
      catching (do code ← Index.open_index h n; pure (code, some h)) (open_failed h)
  ]

  -- CloseIndex
  unfoldable pub close_index : Cell ℕ → M B (ErrorCode × Cell ℕ)
  unfolding delete_handle
  close_index none = pure (k_error_unknown_index, none)
  close_index (some none) = pure (k_error_unknown_index, some none)
  close_index (some (some h)) = do
    i ← object_at h
    catching
        (do delete_handle h; pure (if i.closed then k_error_unknown_index else k_ok, some none))
        (λ e. pure (close_failed h (get_errno e)))

  -- DeleteIndex
  unfoldable pub delete_index : Option String → M B ErrorCode
  unfolding remove_error
  delete_index name = elim (given_name name) [
    | none ↦ pure k_error_generic_failure
    | some n ↦
        catching
          (do
            removed ← remove n
            elim (is_ok removed) [
              | false ↦ pure removed
              | true ↦ do bdb (B.db_remove n); pure k_ok
            ])
          (λ e. pure (remove_error (get_errno e)))
  ]

  -- `(idx == NULL) || (idx->closed())`, before each access.
  unfoldable pub with_open : Option ℕ → (ℕ → M B ErrorCode) → M B ErrorCode
  with_open none use_handle = pure k_error_unknown_index
  with_open (some h) use_handle = do
    i ← object_at h
    elim i.closed [ true ↦ pure k_error_unknown_index | false ↦ use_handle h ]

  unfoldable pub with_record : Option Record → ℕ → (Record → M B ErrorCode) → M B ErrorCode
  with_record r h use_record = do
    fits ← compatible_record h r
    elim fits [ false ↦ pure k_error_incompatible_key | true ↦ do x ← or_fail r; use_record x ]

  -- InsertRecord
  unfoldable pub insert_record : Option ℕ → Option ℕ → Option Record → M B ErrorCode
  unfolding with_open with_record write_error
  insert_record tx idx r =
      with_open idx
        λ h. with_record r h λ x. catching (Index.insert tx h x) λ e. pure (write_error e)

  -- UpdateRecord
  unfoldable pub update_record :
      ℕ → Option ℕ → Option ℕ → Option Record → Option Block → ℕ → M B ErrorCode
  unfolding with_open with_record write_error
  update_record fuel tx idx r payload flags = with_open idx λ h. with_record r h λ x. elim payload [
    | none ↦ pure k_error_generic_failure
    | some b ↦ catching (Modify.update_record fuel tx h x b flags) λ e. pure (write_error e)
  ]

  -- DeleteRecord
  unfoldable pub delete_record : ℕ → Option ℕ → Option ℕ → Option Record → ℕ → M B ErrorCode
  unfolding with_open with_record access_error
  delete_record fuel tx idx r flags = with_open idx λ h.
      with_record r h
        λ x. catching (Modify.delete_record fuel tx h x flags) λ e. pure (access_error e)

  -- GetRecords, with `*it` as it is afterwards. After an exception the iterator that `*it` pointed to
  -- before the call is closed.
  unfoldable pub get_failed : Option ℕ → Exception → M B (ErrorCode × Cell ℕ)
  unfolding access_error
  get_failed none e = pure (access_error e, some none)
  get_failed (some old) e = do
    i ← iterator_at old
    closed_iterator ← close_iterator old i
    pure (access_error e, some (some old))

  unfoldable pub get_compatible : Option ℕ → ℕ → Key → Key → Cell ℕ → M B (ErrorCode × Cell ℕ)
  unfolding get_failed
  get_compatible tx h min_keys max_keys none = pure (k_error_generic_failure, none)
  get_compatible tx h min_keys max_keys (some old) =
      catching (do it ← new_iterator tx h min_keys max_keys; pure (k_ok, some (some it)))
        (get_failed old)

  unfoldable pub get_records : Option ℕ → Option ℕ → Key → Key → Cell ℕ → M B (ErrorCode × Cell ℕ)
  unfolding get_compatible
  get_records tx none min_keys max_keys it = pure (k_error_unknown_index, it)
  get_records tx (some h) min_keys max_keys it = do
    i ← object_at h
    elim i.closed [
      | true ↦ pure (k_error_unknown_index, it)
      | false ↦ do
        min_fits ← compatible h min_keys
        max_fits ← compatible h max_keys
        elim (min_fits && max_fits) [
          | false ↦ pure (k_error_incompatible_key, it)
          | true ↦ get_compatible tx h min_keys max_keys it
        ]
    ]

  -- GetNext, with `*record` as it is afterwards.
  unfoldable pub fetch_record : ℕ → ℕ → Option Record → M B (ErrorCode × Cell Record)
  fetch_record fuel it old = do
    fetched ← next fuel it
    elim fetched [
      | false ↦ pure (k_error_generic_failure, some old)
      | true ↦ do
        i ← iterator_at it
        elim i.end [
          | true ↦ pure (k_error_not_found, some none)
          | false ↦ do r ← value it; pure (k_ok, some r)
        ]
    ]

  unfoldable pub get_next : ℕ → Option ℕ → Cell Record → M B (ErrorCode × Cell Record)
  unfolding fetch_record access_error
  get_next fuel it none = pure (k_error_generic_failure, none)
  get_next fuel none (some old) = pure (k_error_iterator_closed, some old)
  get_next fuel (some it) (some old) = do
    i ← iterator_at it
    elim i.closed [
      | true ↦ pure (k_error_iterator_closed, some old)
      | false ↦ catching (fetch_record fuel it old) λ e. pure (access_error e, some old)
    ]

  -- CloseIterator
  unfoldable pub close_open : ℕ → Bool → M B ErrorCode
  close_open it closed = elim closed [
    | true ↦ pure k_error_iterator_closed
    | false ↦ do i ← iterator_at it; closed_iterator ← close_iterator it i; pure k_ok
  ]

  unfoldable pub end_iterator : Cell ℕ → M B (ErrorCode × Cell ℕ)
  unfolding close_open
  end_iterator none = pure (k_error_iterator_closed, none)
  end_iterator (some none) = pure (k_error_iterator_closed, some none)
  end_iterator (some (some it)) = do
    i ← iterator_at it
    result ← close_open it i.closed
    set_iterator it none
    pure (result, some none)
