-- ===== src/Consistency/Access.antt =====
-- The calls on records and on iterators, against the invariant of the heap (example/BDBImpl.cc).
use oxford_sigmod.Base.{ℕ, Bool, Option, none, some, ◌&&◌}
use oxford_sigmod.Types.{
  ErrorCode, k_ok, k_error_unknown_index, k_error_incompatible_key, k_error_generic_failure,
  k_error_iterator_closed, k_error_not_found, Key, Record, Block,
}
use oxford_sigmod.Bdb.{Bdb, Exception}
use oxford_sigmod.Index.Modify
use oxford_sigmod.Index
use oxford_sigmod.Index.{compatible, compatible_record}
use oxford_sigmod.Iterator.{new_iterator, close_iterator, next, value}
use oxford_sigmod.Api.{
  Cell, write_error, access_error, with_open, with_record, insert_record, update_record,
  delete_record, get_failed, get_compatible, get_records, fetch_record, get_next, close_open,
  end_iterator,
}
use oxford_sigmod.Consistency.Invariant.{Keeps}
use oxford_sigmod.Consistency.Records.{insert-Keeps}
use oxford_sigmod.Consistency.Changes.{
  update_record-Keeps, delete_record-Keeps, compatible-Keeps, compatible_record-Keeps,
}
use oxford_sigmod.Consistency.Iterators.{
  new_iterator-Keeps, close_iterator-Keeps, next-Keeps, value-Keeps,
}
use oxford_sigmod.Consistency.Keeping.{
  Kept, ◌>>=◌, ◌>>◌, pure, or_fail, catching, object_at, iterator_at, set_iterator, on_test,
  on_option,
}

module _ {B : Bdb} where
  with_open-Keeps :
      (idx : Option ℕ) (use_handle : ℕ → Kept B ErrorCode)
      → Keeps {B = B} (with_open idx (λ h. (use_handle h).0))
  unfolding with_open
  with_open-Keeps none use_handle = (pure k_error_unknown_index).1
  with_open-Keeps (some h) use_handle =
      (do i ← object_at h; on_test i.closed (pure k_error_unknown_index) (use_handle h)).1

  with_record-Keeps :
      (r : Option Record) (h : ℕ) (use_record : Record → Kept B ErrorCode)
      → Keeps {B = B} (with_record r h (λ x. (use_record x).0))
  unfolding with_record
  with_record-Keeps r h use_record =
      (do
        fits ← (compatible_record h r, compatible_record-Keeps h r)
        on_test fits (do x ← or_fail r; use_record x) (pure k_error_incompatible_key)).1

  abbrev with_both : Option ℕ → Option Record → (ℕ → Record → Kept B ErrorCode) → Kept B ErrorCode
  with_both idx r f = (
    with_open idx (λ h. with_record r h (λ x. (f h x).0)),
    with_open-Keeps idx (λ h. (with_record r h (λ x. (f h x).0), with_record-Keeps r h (f h))),
  )

  pub insert_record-Keeps :
      (tx idx : Option ℕ) (r : Option Record) → Keeps {B = B} (insert_record tx idx r)
  unfolding insert_record
  insert_record-Keeps tx idx r =
      (with_both idx r
        λ h x. catching (Index.insert tx h x, insert-Keeps tx h x) λ e. pure (write_error e)).1

  pub update_record_call-Keeps :
      (fuel : ℕ) (tx idx : Option ℕ) (r : Option Record) (payload : Option Block) (flags : ℕ)
      → Keeps {B = B} (update_record fuel tx idx r payload flags)
  unfolding update_record
  update_record_call-Keeps fuel tx idx r payload flags =
      (with_both idx r λ h x. on_option payload (pure k_error_generic_failure) λ b.
        catching (Modify.update_record fuel tx h x b flags, update_record-Keeps fuel tx h x b flags)
          λ e. pure (write_error e)).1

  pub delete_record_call-Keeps :
      (fuel : ℕ) (tx idx : Option ℕ) (r : Option Record) (flags : ℕ)
      → Keeps {B = B} (delete_record fuel tx idx r flags)
  unfolding delete_record
  delete_record_call-Keeps fuel tx idx r flags =
      (with_both idx r λ h x.
        catching (Modify.delete_record fuel tx h x flags, delete_record-Keeps fuel tx h x flags)
          λ e. pure (access_error e)).1

  get_failed-Keeps : (old : Option ℕ) (e : Exception) → Keeps {B = B} (get_failed old e)
  unfolding get_failed
  get_failed-Keeps none e = (pure {A = ErrorCode × Cell ℕ} (access_error e, some none)).1
  get_failed-Keeps (some old) e =
      (do
        i ← iterator_at old
        closed_iterator ← (close_iterator old i, close_iterator-Keeps old i)
        pure {A = ErrorCode × Cell ℕ} (access_error e, some (some old))).1

  get_compatible-Keeps :
      (tx : Option ℕ) (h : ℕ) (min_keys max_keys : Key) (cell : Cell ℕ)
      → Keeps {B = B} (get_compatible tx h min_keys max_keys cell)
  unfolding get_compatible
  get_compatible-Keeps tx h min_keys max_keys none =
      (pure {A = ErrorCode × Cell ℕ} (k_error_generic_failure, none)).1
  get_compatible-Keeps tx h min_keys max_keys (some old) =
      (catching
        (do
          it ← (new_iterator tx h min_keys max_keys, new_iterator-Keeps tx h min_keys max_keys)
          pure {A = ErrorCode × Cell ℕ} (k_ok, some (some it)))
        λ e. (get_failed old e, get_failed-Keeps old e)).1

  pub get_records-Keeps :
      (tx idx : Option ℕ) (min_keys max_keys : Key) (cell : Cell ℕ)
      → Keeps {B = B} (get_records tx idx min_keys max_keys cell)
  unfolding get_records
  get_records-Keeps tx none min_keys max_keys cell =
      (pure {A = ErrorCode × Cell ℕ} (k_error_unknown_index, cell)).1
  get_records-Keeps tx (some h) min_keys max_keys cell =
      (do
        i ← object_at h
        on_test i.closed (pure {A = ErrorCode × Cell ℕ} (k_error_unknown_index, cell)) (do
          min_fits ← (compatible h min_keys, compatible-Keeps h min_keys)
          max_fits ← (compatible h max_keys, compatible-Keeps h max_keys)
          on_test (min_fits && max_fits)
              (
                get_compatible tx h min_keys max_keys cell,
                get_compatible-Keeps tx h min_keys max_keys cell,
              )
              (pure (k_error_incompatible_key, cell)))).1

  fetch_record-Keeps :
      (fuel it : ℕ) (old : Option Record) → Keeps {B = B} (fetch_record fuel it old)
  unfolding fetch_record
  fetch_record-Keeps fuel it old =
      (do
        fetched ← (next fuel it, next-Keeps fuel it)
        on_test fetched
            (do
              i ← iterator_at it
              on_test i.end (pure {A = ErrorCode × Cell Record} (k_error_not_found, some none)) (do
                r ← (value it, value-Keeps it)
                pure {A = ErrorCode × Cell Record} (k_ok, some r)))
            (pure (k_error_generic_failure, some old))).1

  pub get_next-Keeps :
      (fuel : ℕ) (it : Option ℕ) (cell : Cell Record) → Keeps {B = B} (get_next fuel it cell)
  unfolding get_next
  get_next-Keeps fuel it none =
      (pure {A = ErrorCode × Cell Record} (k_error_generic_failure, none)).1
  get_next-Keeps fuel none (some old) =
      (pure {A = ErrorCode × Cell Record} (k_error_iterator_closed, some old)).1
  get_next-Keeps fuel (some it) (some old) =
      (do
        i ← iterator_at it
        on_test i.closed (pure {A = ErrorCode × Cell Record} (k_error_iterator_closed, some old)) (
            catching (fetch_record fuel it old, fetch_record-Keeps fuel it old)
              λ e. pure {A = ErrorCode × Cell Record} (access_error e, some old))).1

  close_open-Keeps : (it : ℕ) (closed : Bool) → Keeps {B = B} (close_open it closed)
  unfolding close_open
  close_open-Keeps it closed =
      (on_test closed (pure k_error_iterator_closed) (do
        i ← iterator_at it
        closed_iterator ← (close_iterator it i, close_iterator-Keeps it i)
        pure k_ok)).1

  pub end_iterator-Keeps : (cell : Cell ℕ) → Keeps {B = B} (end_iterator cell)
  unfolding end_iterator
  end_iterator-Keeps none = (pure {A = ErrorCode × Cell ℕ} (k_error_iterator_closed, none)).1
  end_iterator-Keeps (some none) =
      (pure {A = ErrorCode × Cell ℕ} (k_error_iterator_closed, some none)).1
  end_iterator-Keeps (some (some it)) =
      (do
        i ← iterator_at it
        result ← (close_open it i.closed, close_open-Keeps it i.closed)
        set_iterator it none
        pure {A = ErrorCode × Cell ℕ} (result, some none)).1
