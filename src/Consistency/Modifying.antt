-- ===== src/Consistency/Modifying.antt =====
-- Updates and deletions of one record are not stuck, whatever Berkeley DB answers (example/Index.cc).
use oxford_sigmod.Base.{
  ℕ, Bool, false, Option, none, some, ◌≡◌, sym, arith, if◌then◌else◌, List, [], is_eq,
}
use mathlib.Core.Path.{subst}
use oxford_sigmod.Types.{ErrorCode, k_ok, k_error_unknown_index, AttributeType, Key, Block}
use oxford_sigmod.Util.{keycmp}
use oxford_sigmod.Util.Lexicographic.{HasTypes, keycmp-lex, lex}
use oxford_sigmod.Bdb.{Bdb, Reply, Dbt, Row, Code, not_found, db_set_range, db_get_both}
use oxford_sigmod.Structure.{get_key}
use oxford_sigmod.World
use oxford_sigmod.World.{World, Outcome, returned, M, update}
use oxford_sigmod.Manager.Laws.{IsThere}
use oxford_sigmod.Index.{index_bdb_key, is_success}
use oxford_sigmod.Index.Modify.{
  find_first, duplicates_loop, register_parent, modify_matching, in_transaction, match_duplicates,
  ignore_payload, code_result,
}
use oxford_sigmod.Iterator.Range.{get_key-HasTypes}
use oxford_sigmod.Consistency.Endings.{Ends}
use oxford_sigmod.Consistency.Surviving.{
  Survives, ◌>>=◌, ◌>>◌, pure, bdb, given, on_test, start_transaction_at, end_transaction_at,
}

-- The change at the cursor is a call of Berkeley DB.
abbrev pub act_of : {B : Bdb} → (ℕ → Dbt → B.Env → Reply Code × B.Env) → ℕ → Dbt → M B Code
act_of call cursor key = World.bdb (call cursor key)

module _ {B : Bdb} {p : ℕ} where
  register_parent-Survives : (tx : Option ℕ) → Survives {B = B} p (register_parent p tx)
  unfolding register_parent
  register_parent-Survives none = (pure tt).1
  register_parent-Survives (some tx) = (do started ← start_transaction_at tx; pure tt).1

  module _ (types : List AttributeType) (key : Key) (typed : HasTypes types key) where
    find_first-Survives :
        (by_key : Bool) (cursor : ℕ) (dbt value : Dbt)
        → Survives {B = B} p (find_first types key by_key cursor dbt value)
    unfolding find_first
    find_first-Survives by_key cursor dbt value =
        (on_test by_key
          (do
            (err, row) ← bdb (B.cursor_get cursor db_set_range dbt value)
            same ← (do
              o ←
                  given (keycmp (get_key types row.key) key) (lex (get_key types row.key) key)
                    (keycmp-lex types _ _ (get_key-HasTypes types row.key) typed)
              pure (is_eq o))
            pure (if same then err else not_found, row))
          (bdb (B.cursor_get cursor db_get_both dbt value))).1

    module _ (fuel : ℕ) (tx : Option ℕ) (call : ℕ → Dbt → B.Env → Reply Code × B.Env)
        (error : ErrorCode) (payload : Block) (flags : ℕ)
        (single : match_duplicates flags ≡ false) where
      duplicates_loop-Survives :
          (cursor : ℕ) (row : Row)
          → Survives {B = B} p
              (duplicates_loop fuel types (act_of call cursor) error key flags cursor row)
      unfolding duplicates_loop
      duplicates_loop-Survives cursor row w h =
          let ends : duplicates_loop fuel types (act_of call cursor) error key flags cursor row w
              ≡ (returned k_ok, w) =
            ground (arith, single) in
          subst (Ends (λ a w'. IsThere {B = B} w' p)) (sym ends) h

      modify_matching-Survives :
          (cursor : ℕ)
          → Survives {B = B} p (
              modify_matching fuel tx p types
                (act_of call)
                error
                (record { key = key; payload = payload })
                flags
                cursor)
      unfolding modify_matching
      modify_matching-Survives cursor =
          (do
            (err, row) ← (
              find_first types key (ignore_payload flags) cursor (index_bdb_key types key false)
                  (if ignore_payload flags then [] else payload),
              find_first-Survives (ignore_payload flags) cursor (index_bdb_key types key false)
                  (if ignore_payload flags then [] else payload),
            )
            on_test (is_success err)
                (do
                  done ← bdb (call cursor row.key)
                  on_test (is_success done)
                      (do
                        (register_parent p tx, register_parent-Survives tx)
                        (
                          duplicates_loop fuel types (act_of call cursor) error key flags cursor
                              row,
                          duplicates_loop-Survives cursor row,
                        ))
                      (pure (code_result done)))
                (pure (code_result err))).1

      pub in_transaction-Survives :
          (db : ℕ)
          → Survives {B = B} p (
              in_transaction tx p db (
                modify_matching fuel tx p types
                  (act_of call)
                  error
                  (record { key = key; payload = payload })
                  flags))
      unfolding in_transaction
      in_transaction-Survives db =
          (do
            tid ← bdb (B.txn_begin tx)
            started ← start_transaction_at tid
            on_test started
                (do
                  cursor ← bdb (B.db_cursor db (some tid))
                  result ← (
                    modify_matching fuel tx p types (act_of call) error
                        (record { key = key; payload = payload }) flags cursor,
                    modify_matching-Survives cursor,
                  )
                  bdb (B.txn_commit tid)
                  end_transaction_at tid
                  pure result)
                (do bdb (B.txn_abort tid); pure k_error_unknown_index)).1
