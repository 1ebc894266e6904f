-- ===== src/Api/Deletion.antt =====
-- DeleteIndex and the transactions that are registered with an index (example/BDBImpl.cc and
-- example/Index.cc).
use oxford_sigmod.Base.{ℕ, true, false, Option, none, some, String, ◌≡◌, arith, length, All, ap}
use oxford_sigmod.Base.Sets.{member, insert, member-insert}
use oxford_sigmod.Types.{
  ErrorCode, k_ok, k_error_open_transactions, k_error_generic_failure, Record,
}
use oxford_sigmod.Bdb.{Bdb, Exception, done, raise}
use oxford_sigmod.Structure.{IndexStructure}
use oxford_sigmod.Structure.Transactions.{make_read_only-held}
use oxford_sigmod.World.{World, Index, M, returned, threw, update, bdb}
use oxford_sigmod.Manager.{lookup, remove}
use oxford_sigmod.Manager.Laws.{close_transaction-clears, IsThere, IsCleared}
use oxford_sigmod.Index.Modify
use oxford_sigmod.Index.{compatible_record, compatible}
use oxford_sigmod.Index.Modify.{modify, modify_matching, in_transaction}
use oxford_sigmod.Index.Lookup.{start_transaction_at-runs}
use oxford_sigmod.Api.{given_name, delete_index, delete_record, commit_transaction, access_error}

module _ {B : Bdb} where
  remove-held :
      (w : World B) (n : String) (p tx : ℕ) (s : IndexStructure)
      → lookup n w.indices ≡ some p
      → w.structures p ≡ some s
      → member tx s.transactions ≡ true
      → remove n w ≡ (
        returned k_error_open_transactions,
        record w { structures = update w.structures p (some s) },
      )
  unfolding remove
  remove-held w n p tx s known found held =
      ground (arith, known, found, make_read_only-held tx s held)

  -- DeleteIndex on the name of an index in whose set some transaction is registered returns
  -- kErrorOpenTransactions and leaves the index as it is. The name is not empty.
  pub delete_index-held :
      (w : World B) (n : String) (p tx : ℕ) (s : IndexStructure)
      → given_name (some n) ≡ some n
      → lookup n w.indices ≡ some p
      → w.structures p ≡ some s
      → member tx s.transactions ≡ true
      → delete_index (some n) w ≡ (
        returned k_error_open_transactions,
        record w { structures = update w.structures p (some s) },
      )
  unfolding delete_index
  delete_index-held w n p tx s given known found held =
      ground (arith, given, remove-held w n p tx s known found held)

  -- A transaction that commits is taken out of the set of every index in the map, and its cell is
  -- emptied. Berkeley DB has to accept the commit, and the map's pointers have to be valid.
  pub commit_transaction-clears :
      (w : World B) (tx : ℕ) (e' : B.Env)
      → B.txn_commit tx w.env ≡ (done tt, e')
      → All (λ e. IsThere w e.1) w.indices
      → (F : ℕ → Option IndexStructure) × (commit_transaction (some (some tx)) w
          ≡ (returned (k_ok, some none), record w { env = e'; structures = F }))
        × All (λ e. IsCleared tx (record w { env = e'; structures = F }) e.1) w.indices
  unfolding commit_transaction
  commit_transaction-clears w tx e' committed there =
      let (F, ran, cleared) = close_transaction-clears tx (record w { env = e' }) there in
      (F, ground (arith, committed, ran), cleared)

  in_transaction-throws :
      (tx : Option ℕ) (p db t : ℕ) (body : ℕ → M B ErrorCode) (w : World B) (s : IndexStructure)
      (e1 e2 : B.Env) (e : Exception)
      → w.structures p ≡ some s
      → s.read_only ≡ false
      → B.txn_begin tx w.env ≡ (done t, e1)
      → B.db_cursor db (some t) e1 ≡ (raise e, e2)
      → in_transaction tx p db body w ≡ (
        threw e,
        record w {
          env = e2;
          structures =
              update w.structures p (some (record s { transactions = insert t s.transactions }));
        },
      )
  unfolding in_transaction
  in_transaction-throws tx p db t body w s e1 e2 e at writable begun failed =
      let started = start_transaction_at-runs p t (record w { env = e1 }) s at writable in
      ground (arith, begun, started, failed)

  abbrev left_behind : World B → ℕ → ℕ → IndexStructure → B.Env → World B
  left_behind w p t s e2 = record w {
    env = e2;
    structures = update w.structures p (some (record s { transactions = insert t s.transactions }));
  }

  compatible-record :
      (w : World B) (h p : ℕ) (i : Index) (s : IndexStructure) (r : Record)
      → w.objects h ≡ some i
      → i.closed ≡ false
      → i.structure ≡ some p
      → w.structures p ≡ some s
      → length r.key ≡ length s.type
      → compatible_record h (some r) w ≡ (returned true, w)
  unfolding compatible_record compatible
  compatible-record w h p i s r at open_handle at_structure found fits =
      ground (arith, at, open_handle, at_structure, found)

  index_delete-throws :
      (w : World B) (h p db : ℕ) (i : Index) (s : IndexStructure) (r : Record) (fuel flags : ℕ)
      (tx : Option ℕ) (w' : World B) (e : Exception)
      → w.objects h ≡ some i
      → i.structure ≡ some p
      → i.db ≡ some db
      → w.structures p ≡ some s
      → ((body : ℕ → M B ErrorCode) → in_transaction tx p db body w ≡ (threw e, w'))
      → Modify.delete_record fuel tx h r flags w ≡ (threw e, w')
  unfolding Modify.delete_record modify
  index_delete-throws w h p db i s r fuel flags tx w' e at at_structure at_db found throws =
      ground (
        arith,
        at,
        at_structure,
        at_db,
        found,
        throws (
            modify_matching fuel tx p s.type (λ cursor key. bdb (B.cursor_del cursor))
              k_error_generic_failure r flags),
      )

  delete_record-throws :
      (w : World B) (h p db : ℕ) (i : Index) (s : IndexStructure) (r : Record) (fuel flags : ℕ)
      (tx : Option ℕ) (w' : World B) (e : Exception)
      → w.objects h ≡ some i
      → i.closed ≡ false
      → i.structure ≡ some p
      → i.db ≡ some db
      → w.structures p ≡ some s
      → length r.key ≡ length s.type
      → Modify.delete_record fuel tx h r flags w ≡ (threw e, w')
      → delete_record fuel tx (some h) (some r) flags w ≡ (returned (access_error e), w')
  unfolding delete_record
  delete_record-throws w h p db i s r fuel flags tx w' e at open_handle at_structure at_db found
        fits thrown =
      let fit = compatible-record w h p i s r at open_handle at_structure found fits in
      ground (arith, at, open_handle, fit, thrown)

  -- If Berkeley DB raises an exception when `Delete` opens its cursor, DeleteRecord returns the
  -- translated code, and a DeleteIndex on the index that follows returns kErrorOpenTransactions:
  -- the nested transaction that `Delete` began stays registered. The handle is open on an index
  -- that is not read-only and is in the map under that name, and the key has the index's
  -- attribute count.
  pub delete_record-leaves_transaction :
      (w : World B) (n : String) (h p db t : ℕ) (i : Index) (s : IndexStructure) (r : Record)
      (fuel flags : ℕ) (tx : Option ℕ) (e1 e2 : B.Env) (e : Exception)
      → w.objects h ≡ some i
      → i.closed ≡ false
      → i.structure ≡ some p
      → i.db ≡ some db
      → w.structures p ≡ some s
      → s.read_only ≡ false
      → length r.key ≡ length s.type
      → given_name (some n) ≡ some n
      → lookup n w.indices ≡ some p
      → B.txn_begin tx w.env ≡ (done t, e1)
      → B.db_cursor db (some t) e1 ≡ (raise e, e2)
      → (w' : World B) × (delete_record fuel tx (some h) (some r) flags w
          ≡ (returned (access_error e), w'))
        × ((delete_index (some n) w').0 ≡ returned k_error_open_transactions)
  delete_record-leaves_transaction w n h p db t i s r fuel flags tx e1 e2 e at open_handle
        at_structure at_db found writable fits given known begun failed =
      let s' : IndexStructure = record s { transactions = insert t s.transactions } in
      (
        left_behind w p t s e2,
        delete_record-throws w h p db i s r fuel flags tx (left_behind w p t s e2) e at open_handle
            at_structure at_db found fits
            (index_delete-throws w h p db i s r fuel flags tx (left_behind w p t s e2) e at
              at_structure at_db found
              (λ body.
                in_transaction-throws tx p db t body w s e1 e2 e found writable begun failed)),
        ap (λ x. x.0)
            (delete_index-held (left_behind w p t s e2) n p t s' given known (ground arith)
              (ground (arith, member-insert t t s.transactions))),
      )
