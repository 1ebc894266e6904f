-- ===== src/Bdb.antt =====
-- Berkeley DB, which the program calls and does not contain: its calls are the fields of a record, a
-- parameter of everything that uses them. The handles of databases, cursors and transactions are
-- numbers. A call returns, or raises one of the exceptions of the C++ interface.
pub mod Laws
use oxford_sigmod.Base.{ℕ, Option, List, Bool, String}

-- What `get_errno()` says of an exception.
pub data Errno : Type 0 where
  eexist enomem enoent einval other_errno : Errno

pub data Exception : Type 0 where
  deadlock_exception memory_exception : Exception
  db_exception : Errno → Exception

-- `DbMemoryException` and `DbDeadlockException` derive from `DbException`.
abbrev pub get_errno : Exception → Errno
get_errno deadlock_exception = other_errno
get_errno memory_exception = enomem
get_errno (db_exception e) = e

pub data Reply (A : Type 0) : Type 0 where
  done : A → Reply A
  raise : Exception → Reply A

-- A return code: 0, DB_NOTFOUND, or another.
pub data Code : Type 0 where
  success not_found : Code
  failure : ℕ → Code

pub data GetFlag : Type 0 where
  db_set_range db_get_both db_next db_next_dup : GetFlag

-- A `Dbt` is its bytes.
abbrev pub Dbt : Type 0
Dbt = List ℕ

pub record Row : Type 0 where
  pub key : Dbt
  pub value : Dbt

pub record Bdb : Type 1 where
  pub Env : Type 0
  pub txn_begin : Option ℕ → Env → Reply ℕ × Env
  pub txn_commit : ℕ → Env → Reply (Unit {0}) × Env
  pub txn_abort : ℕ → Env → Reply (Unit {0}) × Env
  pub db_create : Env → Reply ℕ × Env
  -- With DB_CREATE and DB_EXCL if the flag is true.
  pub db_open : ℕ → String → Bool → Env → Reply (Unit {0}) × Env
  pub db_close : ℕ → Env → Reply (Unit {0}) × Env
  -- The destructor of a `Db` closes it and throws nothing.
  pub db_destroy : ℕ → Env → Env
  pub db_remove : String → Env → Reply (Unit {0}) × Env
  pub db_put : ℕ → Option ℕ → Dbt → Dbt → Env → Reply Code × Env
  pub db_cursor : ℕ → Option ℕ → Env → Reply ℕ × Env
  pub cursor_get : ℕ → GetFlag → Dbt → Dbt → Env → Reply (Code × Row) × Env
  pub cursor_put_current : ℕ → Dbt → Dbt → Env → Reply Code × Env
  pub cursor_del : ℕ → Env → Reply Code × Env
  pub cursor_close : ℕ → Env → Reply (Unit {0}) × Env
