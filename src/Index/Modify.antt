-- ===== src/Index/Modify.antt =====
-- Updating and deleting records of an index through a Berkeley DB cursor (class Index of
-- example/Index.cc). The loops over duplicates take fuel.
use oxford_sigmod.Base.{
  ℕ, suc, zero, ◌/◌, ◌%◌, Bool, true, false, Option, none, some, List, [], if◌then◌else◌, ◌==◌,
  is_eq,
}
use oxford_sigmod.Types.{
  ErrorCode, k_ok, k_error_unknown_index, k_error_not_found, k_error_generic_failure, AttributeType,
  Key, Record, Block,
}
use oxford_sigmod.Util.{keycmp}
use oxford_sigmod.Bdb.{
  Bdb, Dbt, Row, Code, success, not_found, failure, db_set_range, db_get_both, db_next, db_next_dup,
}
use oxford_sigmod.Structure.{get_key}
use oxford_sigmod.World.{M, ◌>>=◌, ◌>>◌, pure, fail, or_fail, bdb, structure_at, object_at}
use oxford_sigmod.Manager.{start_transaction_at, end_transaction_at}
use oxford_sigmod.Index.{index_bdb_key, is_success}

-- kMatchDuplicates is bit 0 of the flags, kIgnorePayload bit 1.
abbrev pub match_duplicates : ℕ → Bool
match_duplicates flags = flags % 2 == 1

abbrev pub ignore_payload : ℕ → Bool
ignore_payload flags = flags / 2 % 2 == 1

abbrev pub code_result : Code → ErrorCode
code_result success = k_ok
code_result not_found = k_error_not_found
code_result (failure _) = k_error_generic_failure

-- The result of the loop over duplicates: any end but DB_NOTFOUND is reported as `error`.
abbrev pub loop_result : ErrorCode → Code → ErrorCode
loop_result error success = error
loop_result error not_found = k_ok
loop_result error (failure _) = error

module _ {B : Bdb} where
  abbrev compare_keys : Key → Key → M B Bool
  compare_keys a b = do o ← or_fail (keycmp a b); pure (is_eq o)

  -- The first record that matches. By key alone, a record with another key counts as not found.
  unfoldable pub find_first : List AttributeType → Key → Bool → ℕ → Dbt → Dbt → M B (Code × Row)
  find_first types key by_key cursor dbt value = elim by_key [
    | false ↦ bdb (B.cursor_get cursor db_get_both dbt value)
    | true ↦ do
      (err, row) ← bdb (B.cursor_get cursor db_set_range dbt value)
      same ← compare_keys (get_key types row.key) key
      pure (if same then err else not_found, row)
  ]

  -- `while ((err = cursor->get(&key, &value, DB_NEXT_DUP)) == 0) if ((err = act) != 0) break;`
  unfoldable pub next_dup_loop : ℕ → (Dbt → M B Code) → ℕ → Row → M B Code
  next_dup_loop zero act cursor at_row = fail
  next_dup_loop (suc fuel) act cursor at_row = do
    (err, row) ← bdb (B.cursor_get cursor db_next_dup at_row.key at_row.value)
    elim (is_success err) [
      | false ↦ pure err
      | true ↦ do
        done ← act row.key
        elim (is_success done) [ false ↦ pure done | true ↦ next_dup_loop fuel act cursor row ]
    ]

  -- The same with DB_NEXT, as long as `keycmp(cmpkey, record->key)` is 0: `cmpkey` is the key that
  -- was decoded before the loop.
  unfoldable pub next_loop : ℕ → (Dbt → M B Code) → ℕ → Key → Key → Row → M B Code
  next_loop zero act cursor cmpkey key at_row = fail
  next_loop (suc fuel) act cursor cmpkey key at_row = do
    (err, row) ← bdb (B.cursor_get cursor db_next at_row.key at_row.value)
    elim (is_success err) [
      | false ↦ pure err
      | true ↦ do
        same ← compare_keys cmpkey key
        elim same [
          | false ↦ pure err
          | true ↦ do
            done ← act row.key
            elim (is_success done) [
              | false ↦ pure done
              | true ↦ next_loop fuel act cursor cmpkey key row
            ]
        ]
    ]

  -- `if(flags & kMatchDuplicates) ...`
  unfoldable pub duplicates_loop :
      ℕ → List AttributeType → (Dbt → M B Code) → ErrorCode → Key → ℕ → ℕ → Row → M B ErrorCode
  unfolding next_dup_loop next_loop
  duplicates_loop fuel types act error key flags cursor row = elim (match_duplicates flags) [
    | false ↦ pure k_ok
    | true ↦ elim (ignore_payload flags) [
      | false ↦ do code ← next_dup_loop fuel act cursor row; pure (loop_result error code)
      | true ↦ do
        code ← next_loop fuel act cursor (get_key types row.key) key row
        pure (loop_result error code)
    ]
  ]

  -- If the change occurred in a larger transaction, that is registered too.
  unfoldable pub register_parent : ℕ → Option ℕ → M B (Unit {0})
  unfolding start_transaction_at
  register_parent p none = pure tt
  register_parent p (some tx) = do started ← start_transaction_at p tx; pure tt

  -- What `Update` and `Delete` do at their cursor.
  unfoldable pub modify_matching :
      ℕ
      → Option ℕ
      → ℕ
      → List AttributeType
      → (ℕ → Dbt → M B Code)
      → ErrorCode
      → Record
      → ℕ
      → ℕ
      → M B ErrorCode
  unfolding find_first duplicates_loop register_parent index_bdb_key
  modify_matching fuel tx p types act error r flags cursor = do
    (err, row) ←
        find_first types r.key (ignore_payload flags) cursor (index_bdb_key types r.key false)
          (if ignore_payload flags then [] else r.payload)
    elim (is_success err) [
      | false ↦ pure (code_result err)
      | true ↦ do
        done ← act cursor row.key
        elim (is_success done) [
          | false ↦ pure (code_result done)
          | true ↦ do
            register_parent p tx
            duplicates_loop fuel types (act cursor) error r.key flags cursor row
        ]
    ]

  -- The nested transaction around the change.
  unfoldable pub in_transaction : Option ℕ → ℕ → ℕ → (ℕ → M B ErrorCode) → M B ErrorCode
  unfolding start_transaction_at end_transaction_at
  in_transaction tx p db body = do
    tid ← bdb (B.txn_begin tx)
    started ← start_transaction_at p tid
    elim started [
      | false ↦ do bdb (B.txn_abort tid); pure k_error_unknown_index
      | true ↦ do
        cursor ← bdb (B.db_cursor db (some tid))
        result ← body cursor
        bdb (B.txn_commit tid)
        end_transaction_at p tid
        pure result
    ]

  unfoldable pub modify :
      ℕ → Option ℕ → ℕ → Record → ℕ → (ℕ → Dbt → M B Code) → ErrorCode → M B ErrorCode
  unfolding in_transaction modify_matching
  modify fuel tx h r flags act error = do
    i ← object_at h
    p ← or_fail i.structure
    db ← or_fail i.db
    s ← structure_at p
    in_transaction tx p db (modify_matching fuel tx p s.type act error r flags)

  -- `Index::Update`
  unfoldable pub update_record : ℕ → Option ℕ → ℕ → Record → Block → ℕ → M B ErrorCode
  unfolding modify
  update_record fuel tx h r payload flags =
      modify fuel tx h r flags (λ cursor key. bdb (B.cursor_put_current cursor key payload))
        k_error_not_found

  -- `Index::Delete`
  unfoldable pub delete_record : ℕ → Option ℕ → ℕ → Record → ℕ → M B ErrorCode
  unfolding modify
  delete_record fuel tx h r flags =
      modify fuel tx h r flags (λ cursor key. bdb (B.cursor_del cursor)) k_error_generic_failure
