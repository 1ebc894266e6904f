-- ===== src/Consistency/Changes.antt =====
-- Updates and deletions of records, against the invariant of the heap (example/Index.cc).
use oxford_sigmod.Base.{
  ℕ, zero, suc, Bool, false, Option, none, some, List, [], is_eq, ◌==◌, if◌then◌else◌,
}
use oxford_sigmod.Types.{
  ErrorCode, k_ok, k_error_unknown_index, k_error_generic_failure, k_error_not_found, Key, Record,
  Block, AttributeType, attribute_count,
}
use oxford_sigmod.Util.{keycmp}
use oxford_sigmod.Bdb.{
  Bdb, Reply, Dbt, Row, Code, not_found, db_next, db_next_dup, db_set_range, db_get_both,
}
use oxford_sigmod.Structure
use oxford_sigmod.Structure.{IndexStructure, get_key}
use oxford_sigmod.Index.{index_bdb_key, is_success, compatible, compatible_record}
use oxford_sigmod.Index.Modify.{
  find_first, next_dup_loop, next_loop, duplicates_loop, register_parent, modify_matching,
  in_transaction, modify, update_record, delete_record, match_duplicates, ignore_payload,
  loop_result, code_result,
}
use oxford_sigmod.Consistency.Invariant.{Keeps}
use oxford_sigmod.Consistency.Keeping.{
  Kept, ◌>>=◌, ◌>>◌, pure, or_fail, bdb, structure_at, object_at, on_test,
}
use oxford_sigmod.Consistency.Records.{end_kept, start_kept}

module _ {B : Bdb} where
  -- The change at the cursor is a call of Berkeley DB.
  module _ (act : ℕ → Dbt → B.Env → Reply Code × B.Env) where
    abbrev act_kept : ℕ → Dbt → Kept B Code
    act_kept cursor key = bdb (act cursor key)

    find_first-Keeps :
        (types : List AttributeType) (key : Key) (by_key : Bool) (cursor : ℕ) (dbt value : Dbt)
        → Keeps {B = B} (find_first types key by_key cursor dbt value)
    unfolding find_first
    find_first-Keeps types key by_key cursor dbt value =
        (on_test by_key
          (do
            (err, row) ← bdb (B.cursor_get cursor db_set_range dbt value)
            same ← (do o ← or_fail (keycmp (get_key types row.key) key); pure (is_eq o))
            pure (if same then err else not_found, row))
          (bdb (B.cursor_get cursor db_get_both dbt value))).1

    next_dup_loop-Keeps :
        (fuel cursor : ℕ) (row : Row)
        → Keeps {B = B} (next_dup_loop fuel (λ key. (act_kept cursor key).0) cursor row)
    unfolding next_dup_loop
    next_dup_loop-Keeps zero cursor row w c = c
    next_dup_loop-Keeps (suc fuel) cursor row w c =
        (do
          (err, r) ← bdb (B.cursor_get cursor db_next_dup row.key row.value)
          on_test (is_success err)
              (do
                done ← act_kept cursor r.key
                on_test (is_success done)
                    (
                      next_dup_loop fuel (λ key. (act_kept cursor key).0) cursor r,
                      next_dup_loop-Keeps fuel cursor r,
                    )
                    (pure done))
              (pure err)).1
          w c

    next_loop-Keeps :
        (fuel cursor : ℕ) (cmpkey key : Key) (row : Row)
        → Keeps {B = B} (next_loop fuel (λ k. (act_kept cursor k).0) cursor cmpkey key row)
    unfolding next_loop
    next_loop-Keeps zero cursor cmpkey key row w c = c
    next_loop-Keeps (suc fuel) cursor cmpkey key row w c =
        (do
          (err, r) ← bdb (B.cursor_get cursor db_next row.key row.value)
          on_test (is_success err)
              (do
                same ← (do o ← or_fail (keycmp cmpkey key); pure (is_eq o))
                on_test same
                    (do
                      done ← act_kept cursor r.key
                      on_test (is_success done)
                          (
                            next_loop fuel (λ k. (act_kept cursor k).0) cursor cmpkey key r,
                            next_loop-Keeps fuel cursor cmpkey key r,
                          )
                          (pure done))
                    (pure err))
              (pure err)).1
          w c

    duplicates_loop-Keeps :
        (fuel : ℕ) (types : List AttributeType) (error : ErrorCode) (key : Key) (flags cursor : ℕ)
        (row : Row)
        → Keeps {B = B}
            (duplicates_loop fuel types (λ k. (act_kept cursor k).0) error key flags cursor row)
    unfolding duplicates_loop
    duplicates_loop-Keeps fuel types error key flags cursor row =
        (on_test (match_duplicates flags)
          (on_test (ignore_payload flags)
            (do
              code ← (
                next_loop fuel (λ k. (act_kept cursor k).0) cursor (get_key types row.key) key row,
                next_loop-Keeps fuel cursor (get_key types row.key) key row,
              )
              pure (loop_result error code))
            (do
              code ← (
                next_dup_loop fuel (λ k. (act_kept cursor k).0) cursor row,
                next_dup_loop-Keeps fuel cursor row,
              )
              pure (loop_result error code)))
          (pure k_ok)).1

    register_parent-Keeps : (p : ℕ) (tx : Option ℕ) → Keeps {B = B} (register_parent p tx)
    unfolding register_parent
    register_parent-Keeps p none = (pure tt).1
    register_parent-Keeps p (some tx) = (do started ← start_kept p tx; pure tt).1

    modify_matching-Keeps :
        (fuel : ℕ) (tx : Option ℕ) (p : ℕ) (types : List AttributeType) (error : ErrorCode)
        (r : Record) (flags cursor : ℕ)
        → Keeps {B = B}
            (modify_matching fuel tx p types (λ n k. (act_kept n k).0) error r flags cursor)
    unfolding modify_matching
    modify_matching-Keeps fuel tx p types error r flags cursor =
        let dbt = index_bdb_key types r.key false in
        let value = if ignore_payload flags then [] else r.payload in
        (do
          (err, row) ← (
            find_first types r.key (ignore_payload flags) cursor dbt value,
            find_first-Keeps types r.key (ignore_payload flags) cursor dbt value,
          )
          on_test (is_success err)
              (do
                done ← act_kept cursor row.key
                on_test (is_success done)
                    (do
                      (register_parent p tx, register_parent-Keeps p tx)
                      (
                        duplicates_loop fuel types (λ k. (act_kept cursor k).0) error r.key flags
                            cursor row,
                        duplicates_loop-Keeps fuel types error r.key flags cursor row,
                      ))
                    (pure (code_result done)))
              (pure (code_result err))).1

    modify-Keeps :
        (fuel : ℕ) (tx : Option ℕ) (h : ℕ) (r : Record) (flags : ℕ) (error : ErrorCode)
        → Keeps {B = B} (modify fuel tx h r flags (λ n k. (act_kept n k).0) error)
    unfolding modify in_transaction
    modify-Keeps fuel tx h r flags error =
        (do
          i ← object_at h
          p ← or_fail i.structure
          db ← or_fail i.db
          s ← structure_at p
          tid ← bdb (B.txn_begin tx)
          started ← start_kept p tid
          on_test started
              (do
                cursor ← bdb (B.db_cursor db (some tid))
                result ← (
                  modify_matching fuel tx p s.type (λ n k. (act_kept n k).0) error r flags cursor,
                  modify_matching-Keeps fuel tx p s.type error r flags cursor,
                )
                bdb (B.txn_commit tid)
                end_kept p tid
                pure result)
              (do bdb (B.txn_abort tid); pure k_error_unknown_index)).1

  pub update_record-Keeps :
      (fuel : ℕ) (tx : Option ℕ) (h : ℕ) (r : Record) (payload : Block) (flags : ℕ)
      → Keeps {B = B} (update_record fuel tx h r payload flags)
  unfolding update_record
  update_record-Keeps fuel tx h r payload flags =
      modify-Keeps (λ cursor key. B.cursor_put_current cursor key payload) fuel tx h r flags
        k_error_not_found

  pub delete_record-Keeps :
      (fuel : ℕ) (tx : Option ℕ) (h : ℕ) (r : Record) (flags : ℕ)
      → Keeps {B = B} (delete_record fuel tx h r flags)
  unfolding delete_record
  delete_record-Keeps fuel tx h r flags =
      modify-Keeps (λ cursor key. B.cursor_del cursor) fuel tx h r flags k_error_generic_failure

  pub compatible-Keeps : (h : ℕ) (key : Key) → Keeps {B = B} (compatible h key)
  unfolding compatible
  compatible-Keeps h key =
      (do
        i ← object_at h
        on_test i.closed (pure false) (do
          p ← or_fail i.structure
          s ← structure_at p
          pure (attribute_count key == Structure.attribute_count s))).1

  pub compatible_record-Keeps : (h : ℕ) (r : Option Record) → Keeps {B = B} (compatible_record h r)
  unfolding compatible_record
  compatible_record-Keeps h none = (pure false).1
  compatible_record-Keeps h (some r) = compatible-Keeps h r.key
