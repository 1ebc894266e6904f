-- ===== src/Consistency/Records.antt =====
-- Insertions of records, and the checks of keys, against the invariant of the heap (example/Index.cc).
use oxford_sigmod.Base.{ℕ, Bool, true, false, Option, none, some, if◌then◌else◌}
use oxford_sigmod.Types.{ErrorCode, k_ok, k_error_unknown_index, k_error_generic_failure, Record}
use oxford_sigmod.Bdb.{Bdb, Dbt}
use oxford_sigmod.Manager.{start_transaction_at, end_transaction_at}
use oxford_sigmod.Index.{insert_begin, insert_put, insert, index_bdb_key, is_success}
use oxford_sigmod.Consistency.Invariant.{Keeps}
use oxford_sigmod.Consistency.Transactions.{start_transaction_at-Keeps, end_transaction_at-Keeps}
use oxford_sigmod.Consistency.Keeping.{
  Kept, ◌>>=◌, pure, or_fail, bdb, structure_at, object_at, on_test,
}

module _ {B : Bdb} where
  abbrev pub start_kept : ℕ → ℕ → Kept B Bool
  start_kept p tx = (start_transaction_at p tx, start_transaction_at-Keeps p tx)

  abbrev pub end_kept : ℕ → ℕ → Kept B (Unit {0})
  end_kept p tx = (end_transaction_at p tx, end_transaction_at-Keeps p tx)

  insert_begin-Keeps : (p : ℕ) (tx : Option ℕ) → Keeps {B = B} (insert_begin p tx)
  unfolding insert_begin
  insert_begin-Keeps p none = (pure true).1
  insert_begin-Keeps p (some tx) = start_transaction_at-Keeps p tx

  insert_put-Keeps : (db : ℕ) (tx : Option ℕ) (k v : Dbt) → Keeps {B = B} (insert_put db tx k v)
  unfolding insert_put
  insert_put-Keeps db tx k v =
      (do
        code ← bdb (B.db_put db tx k v)
        pure (if is_success code then k_ok else k_error_generic_failure)).1

  abbrev insert_kept : Option ℕ → ℕ → Record → Kept B ErrorCode
  insert_kept tx h r = do
    i ← object_at h
    p ← or_fail i.structure
    started ← (insert_begin p tx, insert_begin-Keeps p tx)
    s ← structure_at p
    db ← or_fail i.db
    on_test started
        (
          insert_put db tx (index_bdb_key s.type r.key false) r.payload,
          insert_put-Keeps db tx (index_bdb_key s.type r.key false) r.payload,
        )
        (pure k_error_unknown_index)

  pub insert-Keeps : (tx : Option ℕ) (h : ℕ) (r : Record) → Keeps {B = B} (insert tx h r)
  unfolding insert
  insert-Keeps tx h r = (insert_kept tx h r).1
