-- ===== src/Consistency/Calls.antt =====
-- The calls on transactions and on indices, against the invariant of the heap (example/BDBImpl.cc).
use oxford_sigmod.Base.{
  ℕ, true, Option, none, some, List, String, ◌==◌, ◌≡◌, ltb, length, take, if◌then◌else◌,
}
use oxford_sigmod.Types.{
  ErrorCode, k_ok, k_transaction_aborted, k_error_unknown_index, k_error_generic_failure,
  k_error_transaction_closed, AttributeType,
}
use oxford_sigmod.Bdb.{
  Bdb, Exception, deadlock_exception, memory_exception, db_exception, get_errno,
}
use oxford_sigmod.World
use oxford_sigmod.World.{World, Index, M}
use oxford_sigmod.Manager.{
  remove, close, delete_handle, close_transaction, allocate_structure, insert_structure,
}
use oxford_sigmod.Index
use oxford_sigmod.Index.{allocate_index, compatible, compatible_record}
use oxford_sigmod.Api.{
  Cell, is_ok, given_name, begin_error, create_error, open_error, remove_error, close_failed,
  begin_transaction, abort_transaction, commit_failed, commit_transaction, create_named,
  create_index, open_failed, open_index, close_index, delete_index,
}
use oxford_sigmod.Consistency.Invariant.{Keeps, Consistent, Ensures}
use oxford_sigmod.Consistency.Rules.{Ensures-bind, Ensures-catching, Ensures-option}
use oxford_sigmod.Consistency.Deletion.{HasNoHandles, remove-Ensures}
use oxford_sigmod.Consistency.Transactions.{close_transaction-Keeps}
use oxford_sigmod.Consistency.Lifecycle.{
  close-Keeps, delete_object-Keeps, allocate_index-Ensures, create-Keeps,
}
use oxford_sigmod.Consistency.Opening.{open_index-Keeps}
use oxford_sigmod.Consistency.Handles.{NotOpen}
use oxford_sigmod.Consistency.Keeping.{
  Kept, ◌>>=◌, ◌>>◌, pure, bdb, catching, object_at, on_test, on_option, finally, destroy_db, fail,
}

module _ {B : Bdb} where
  pub begin_transaction-Keeps : (cell : Cell ℕ) → Keeps {B = B} (begin_transaction cell)
  unfolding begin_transaction
  begin_transaction-Keeps none = (pure {A = ErrorCode × Cell ℕ} (k_error_generic_failure, none)).1
  begin_transaction-Keeps (some old) =
      (catching (do t ← bdb (B.txn_begin none); pure (k_ok, some (some t)))
        λ e. pure (begin_error e, some old)).1

  pub abort_transaction-Keeps : (cell : Cell ℕ) → Keeps {B = B} (abort_transaction cell)
  unfolding abort_transaction
  abort_transaction-Keeps none =
      (pure {A = ErrorCode × Cell ℕ} (k_error_transaction_closed, none)).1
  abort_transaction-Keeps (some none) =
      (pure {A = ErrorCode × Cell ℕ} (k_error_transaction_closed, some none)).1
  abort_transaction-Keeps (some (some tx)) =
      (catching
        (do
          bdb (B.txn_abort tx)
          (close_transaction tx, close_transaction-Keeps tx)
          pure (k_ok, some none))
        λ e. pure (k_error_generic_failure, some (some tx))).1

  abort_then : (tx : ℕ) → Kept B (ErrorCode × Cell ℕ)
  abort_then tx = do
    (result, cell) ← (abort_transaction (some (some tx)), abort_transaction-Keeps (some (some tx)))
    pure (if is_ok result then k_transaction_aborted else k_error_generic_failure, cell)

  commit_failed-Keeps : (tx : ℕ) (e : Exception) → Keeps {B = B} (commit_failed tx e)
  unfolding commit_failed abort_then
  commit_failed-Keeps tx deadlock_exception =
      (pure {A = ErrorCode × Cell ℕ} (k_transaction_aborted, some (some tx))).1
  commit_failed-Keeps tx memory_exception = (abort_then tx).1
  commit_failed-Keeps tx (db_exception n) = (abort_then tx).1

  pub commit_transaction-Keeps : (cell : Cell ℕ) → Keeps {B = B} (commit_transaction cell)
  unfolding commit_transaction
  commit_transaction-Keeps none =
      (pure {A = ErrorCode × Cell ℕ} (k_error_transaction_closed, none)).1
  commit_transaction-Keeps (some none) =
      (pure {A = ErrorCode × Cell ℕ} (k_error_transaction_closed, some none)).1
  commit_transaction-Keeps (some (some tx)) =
      (catching
        (do
          bdb (B.txn_commit tx)
          (close_transaction tx, close_transaction-Keeps tx)
          pure (k_ok, some none))
        λ e. (commit_failed tx e, commit_failed-Keeps tx e)).1

  pub create_index-Keeps :
      (name : Option String) (n : ℕ) (types : Option (List AttributeType))
      → Keeps {B = B} (create_index name n types)
  unfolding create_index create_named
  create_index-Keeps name n types =
      (on_option (given_name name) (pure k_error_generic_failure) λ s.
        on_option types (pure k_error_generic_failure) λ ts.
          on_test (n == 0) (pure k_error_generic_failure) (do
            created ←
                catching
                  (do
                    db ← bdb B.db_create
                    finally (bdb (B.db_open db s true)) (destroy_db db)
                    pure k_ok)
                  (λ e. pure (create_error (get_errno e)))
            on_test (is_ok created)
                (on_test (ltb (length ts) n) fail (
                  World.◌>>=◌ (allocate_structure (take n ts))
                      λ p. World.◌>>◌ (insert_structure s p) (World.pure k_ok),
                  create-Keeps s (take n ts),
                ))
                (pure created))).1

  delete_handle-Keeps : (h : ℕ) → Keeps {B = B} (delete_handle h)
  unfolding delete_handle
  delete_handle-Keeps h =
      (finally (close h, close-Keeps h) (World.set_object h none, delete_object-Keeps h)).1

  open_failed-Keeps : (h : ℕ) (e : Exception) → Keeps {B = B} (open_failed h e)
  unfolding open_failed
  open_failed-Keeps h e =
      (do (delete_handle h, delete_handle-Keeps h); pure (open_error (get_errno e), none)).1

  open_new-Keeps :
      (name : String) (h : ℕ) (w : World B)
      → Consistent w
      → NotOpen h w
      → Ensures
          (λ _ w'. Unit {0})
          (World.catching
            (World.◌>>=◌ (Index.open_index h name) λ code. World.pure (code, some h))
            (open_failed h)
            w)
  open_new-Keeps name h w c closed =
      Ensures-catching (λ _ w'. Unit {0})
        (World.◌>>=◌ (Index.open_index h name) λ code. World.pure (code, some h)) (open_failed h) w
        (Ensures-bind (λ _ w'. Unit {0}) (λ _ w'. Unit {0}) (Index.open_index h name)
          (λ code. World.pure (code, some h)) w (open_index-Keeps h name w c closed)
          (λ code u cu _. (cu, tt)))
        (λ e u cu. open_failed-Keeps h e u cu)

  open_named-Keeps :
      (n : String)
      → Keeps {B = B} (
          World.◌>>=◌ (allocate_index n) λ h.
            World.catching
              (World.◌>>=◌ (Index.open_index h n) λ code. World.pure (code, some h))
              (open_failed h))
  open_named-Keeps n w c =
      Ensures-bind (λ h w'. NotOpen h w') (λ _ w'. Unit {0}) (allocate_index n)
        (λ h.
          World.catching (World.◌>>=◌ (Index.open_index h n) λ code. World.pure (code, some h))
            (open_failed h))
        w (allocate_index-Ensures n w c) (λ h u cu q. open_new-Keeps n h u cu q)

  pub open_index_call-Keeps :
      (name : Option String) (old : Option ℕ) → Keeps {B = B} (open_index name old)
  unfolding open_index
  open_index_call-Keeps name old =
      (on_option (given_name name) (pure (k_error_generic_failure, old)) λ n. (
        World.◌>>=◌ (allocate_index n) λ h.
            World.catching (World.◌>>=◌ (Index.open_index h n) λ code. World.pure (code, some h))
              (open_failed h),
        open_named-Keeps n,
      )).1

  pub close_index-Keeps : (cell : Cell ℕ) → Keeps {B = B} (close_index cell)
  unfolding close_index
  close_index-Keeps none = (pure {A = ErrorCode × Cell ℕ} (k_error_unknown_index, none)).1
  close_index-Keeps (some none) =
      (pure {A = ErrorCode × Cell ℕ} (k_error_unknown_index, some none)).1
  close_index-Keeps (some (some h)) =
      (do
        i ← object_at h
        catching
            (do
              (delete_handle h, delete_handle-Keeps h)
              pure (if i.closed then k_error_unknown_index else k_ok, some none))
            (λ e. pure (close_failed h (get_errno e)))).1

  abbrev after_remove : String → ErrorCode → Kept B ErrorCode
  after_remove n removed =
      on_test (is_ok removed) (do bdb (B.db_remove n); pure k_ok) (pure removed)

  -- DeleteIndex keeps the heap consistent if no handle is registered with the index.
  pub delete_index-Ensures :
      (name : Option String) (w : World B)
      → Consistent w
      → ((n : String) → given_name name ≡ some n → HasNoHandles n w)
      → Ensures (λ _ w'. Unit {0}) (delete_index name w)
  unfolding delete_index
  delete_index-Ensures name w c unused =
      Ensures-option (λ _ w'. Unit {0}) (given_name name) (World.pure k_error_generic_failure)
        (λ n.
          World.catching (World.◌>>=◌ (remove n) (λ removed. (after_remove n removed).0))
            (λ e. World.pure (remove_error (get_errno e))))
        w (λ _. (c, tt))
        λ n given.
          Ensures-catching (λ _ w'. Unit {0})
            (World.◌>>=◌ (remove n) (λ removed. (after_remove n removed).0))
            (λ e. World.pure (remove_error (get_errno e))) w
            (Ensures-bind (λ _ w'. Unit {0}) (λ _ w'. Unit {0}) (remove n)
              (λ removed. (after_remove n removed).0) w (remove-Ensures n w c (unused n given))
              (λ removed u cu _. (after_remove n removed).1 u cu))
            (λ e u cu. (cu, tt))
