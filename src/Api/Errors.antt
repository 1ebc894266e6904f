-- ===== src/Api/Errors.antt =====
-- The `catch` clauses of the functions of the interface, and their check of a name
-- (example/BDBImpl.cc). A parameter `T **p` is a cell, `none` if it is NULL.
use text.Mathlib.Text.{◌==◌ as str_eq}
use oxford_sigmod.Base.{ℕ, Option, none, some, String, if◌then◌else◌}
use oxford_sigmod.Types.{
  ErrorCode, k_error_out_of_memory, k_error_deadlock, k_error_index_exists, k_error_unknown_index,
  k_error_generic_failure,
}
use oxford_sigmod.Bdb.{
  Exception, deadlock_exception, memory_exception, db_exception, Errno, eexist, enomem, enoent,
  einval, other_errno,
}

abbrev pub Cell : Type 0 → Type 0
Cell A = Option (Option A)

-- The `catch` clauses of each function.
unfoldable pub begin_error : Exception → ErrorCode
begin_error memory_exception = k_error_out_of_memory
begin_error deadlock_exception = k_error_generic_failure
begin_error (db_exception _) = k_error_generic_failure

unfoldable pub create_error : Errno → ErrorCode
create_error eexist = k_error_index_exists
create_error enomem = k_error_out_of_memory
create_error enoent = k_error_generic_failure
create_error einval = k_error_generic_failure
create_error other_errno = k_error_generic_failure

unfoldable pub open_error : Errno → ErrorCode
open_error enoent = k_error_unknown_index
open_error enomem = k_error_out_of_memory
open_error eexist = k_error_generic_failure
open_error einval = k_error_generic_failure
open_error other_errno = k_error_generic_failure

unfoldable pub remove_error : Errno → ErrorCode
remove_error enoent = k_error_unknown_index
remove_error enomem = k_error_generic_failure
remove_error eexist = k_error_generic_failure
remove_error einval = k_error_generic_failure
remove_error other_errno = k_error_generic_failure

-- InsertRecord and UpdateRecord.
unfoldable pub write_error : Exception → ErrorCode
write_error deadlock_exception = k_error_deadlock
write_error memory_exception = k_error_out_of_memory
write_error (db_exception enomem) = k_error_out_of_memory
write_error (db_exception eexist) = k_error_generic_failure
write_error (db_exception enoent) = k_error_generic_failure
write_error (db_exception einval) = k_error_generic_failure
write_error (db_exception other_errno) = k_error_generic_failure

-- DeleteRecord, GetRecords and GetNext, which have no case for memory.
unfoldable pub access_error : Exception → ErrorCode
access_error deadlock_exception = k_error_deadlock
access_error memory_exception = k_error_generic_failure
access_error (db_exception _) = k_error_generic_failure

-- Only EINVAL resets the handle of CloseIndex.
unfoldable pub close_failed : ℕ → Errno → ErrorCode × Cell ℕ
close_failed h einval = (k_error_unknown_index, some none)
close_failed h eexist = (k_error_generic_failure, some (some h))
close_failed h enomem = (k_error_generic_failure, some (some h))
close_failed h enoent = (k_error_generic_failure, some (some h))
close_failed h other_errno = (k_error_generic_failure, some (some h))

-- `(name == NULL) || (strlen(name) == 0)`
abbrev pub given_name : Option String → Option String
given_name none = none
given_name (some name) = if str_eq name "" then none else some name
