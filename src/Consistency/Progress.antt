-- ===== src/Consistency/Progress.antt =====
-- AbortTransaction and CommitTransaction in a reachable world (example/BDBImpl.cc and example/Index.cc).
use oxford_sigmod.Base.{
  ◌≢◌, if◌then◌else◌, Bool-cases, inl, inr, ℕ, Option, none, some, List, [], ◌∷◌, String, ◌≡◌, refl,
  arith, All,
}
use oxford_sigmod.Types.{ErrorCode, k_ok, k_transaction_aborted, k_error_generic_failure}
use oxford_sigmod.Bdb.{
  Bdb, Exception, deadlock_exception, memory_exception, db_exception, Reply, done, raise,
}
use oxford_sigmod.World.{World, Outcome, returned, pure, ◌>>=◌}
use oxford_sigmod.Manager.Laws.{close_transaction-clears, IsThere, IsCleared}
use oxford_sigmod.Api.{Cell, abort_transaction, commit_transaction, commit_failed, is_ok}
use oxford_sigmod.Api.Deletion.{commit_transaction-clears}
use oxford_sigmod.Consistency.Invariant.{Consistent, IsLive}
use oxford_sigmod.Consistency.Runs.{Reachable, Reachable-Consistent}

abbrev failed_code : ErrorCode → ErrorCode
failed_code code = if is_ok code then k_transaction_aborted else k_error_generic_failure

failed_code-not_ok : (code : ErrorCode) → failed_code code ≢ k_ok
failed_code-not_ok code e = elim (Bool-cases (is_ok code)) [
  | inl ok ↦ ground (arith, ok, e)
  | inr failed ↦ ground (arith, failed, e)
]

module _ {B : Bdb} where
  All-IsThere :
      (w : World B) (m : List (String × ℕ))
      → All (λ e. IsLive w.structures w.next_structure e.1) m
      → All (λ e. IsThere w e.1) m
  All-IsThere w [] h = tt
  All-IsThere w (e ∷ m) ((s, at, below), h) = ((s, at), All-IsThere w m h)

  -- The transaction is registered with no index of the map.
  abbrev pub Ended : ℕ → World B → Type 0
  Ended tx w = All (λ e. IsCleared tx w e.1) w.indices

  -- A call that ends a transaction returned a code with the cell. If the code is kOk the cell is
  -- empty, and if the cell is empty the transaction is ended.
  abbrev pub Answers : ℕ → Outcome (ErrorCode × Cell ℕ) × World B → Type 0
  Answers tx outcome =
      (code : ErrorCode) × (cell : Option ℕ) × (w' : World B) × (outcome
        ≡ (returned (code, some cell), w'))
      × (code ≡ k_ok → cell ≡ none)
      × (cell ≡ none → Ended tx w')

  abort_lem :
      (tx : ℕ) (w : World B) (reply : Reply (Unit {0}) × B.Env)
      → B.txn_abort tx w.env ≡ reply
      → Consistent w
      → Answers tx (abort_transaction (some (some tx)) w)
  unfolding abort_transaction
  abort_lem tx w (done u, e') answered c =
      let (F, ran, cleared) =
        close_transaction-clears tx (record w { env = e' }) (All-IsThere w w.indices c.named) in
      (
        k_ok,
        none,
        record w { env = e'; structures = F },
        ground (arith, answered, ran),
        λ _. refl,
        λ _. cleared,
      )
  abort_lem tx w (raise e, e') answered c = (
    k_error_generic_failure,
    some tx,
    record w { env = e' },
    ground (arith, answered),
    λ h. cc h,
    λ h. cc h,
  )

  aborted_lem :
      (tx : ℕ) (w : World B)
      → Consistent w
      → Answers tx (
          (do
            (result, cell) ← abort_transaction (some (some tx))
            pure (if is_ok result then k_transaction_aborted else k_error_generic_failure, cell))
            w)
  aborted_lem tx w c =
      let (code, cell, w', ran, empties, ends) = abort_lem tx w (B.txn_abort tx w.env) refl c in
      (
        failed_code code,
        cell,
        w',
        ground (arith, ran),
        λ e. absurd (failed_code-not_ok code e),
        ends,
      )

  commit_failed_lem :
      (tx : ℕ) (w : World B) (e : Exception) → Consistent w → Answers tx (commit_failed tx e w)
  unfolding commit_failed
  commit_failed_lem tx w deadlock_exception c =
      (k_transaction_aborted, some tx, w, refl, λ h. cc h, λ h. cc h)
  commit_failed_lem tx w memory_exception c = aborted_lem tx w c
  commit_failed_lem tx w (db_exception n) c = aborted_lem tx w c

  commit_lem :
      (tx : ℕ) (w : World B) (reply : Reply (Unit {0}) × B.Env)
      → B.txn_commit tx w.env ≡ reply
      → Consistent w
      → Answers tx (commit_transaction (some (some tx)) w)
  unfolding commit_transaction
  commit_lem tx w (done u, e') answered c =
      let (F, ran, cleared) =
        commit_transaction-clears w tx e' answered (All-IsThere w w.indices c.named) in
      (k_ok, none, record w { env = e'; structures = F }, ran, λ _. refl, λ _. cleared)
  commit_lem tx w (raise e, e') answered c =
      let (code, cell, w', ran, empties, ends) = commit_failed_lem tx (record w { env = e' }) e c in
      (code, cell, w', ground (arith, answered, ran), empties, ends)

  -- In every reachable world, whatever Berkeley DB answers, CommitTransaction on a transaction
  -- returns a code (no exception leaves it, and it follows no dangling pointer). After kOk the
  -- cell is empty, and if the cell is empty no index of the map has the transaction in its set.
  pub commit_transaction-Answers :
      {w : World B} → Reachable w → (tx : ℕ) → Answers tx (commit_transaction (some (some tx)) w)
  commit_transaction-Answers {w} reached tx =
      commit_lem tx w (B.txn_commit tx w.env) refl (Reachable-Consistent reached)

  -- In every reachable world, whatever Berkeley DB answers, AbortTransaction on a transaction
  -- returns a code (no exception leaves it, and it follows no dangling pointer). After kOk the
  -- cell is empty, and if the cell is empty no index of the map has the transaction in its set.
  pub abort_transaction-Answers :
      {w : World B} → Reachable w → (tx : ℕ) → Answers tx (abort_transaction (some (some tx)) w)
  abort_transaction-Answers {w} reached tx =
      abort_lem tx w (B.txn_abort tx w.env) refl (Reachable-Consistent reached)
