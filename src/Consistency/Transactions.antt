-- ===== src/Consistency/Transactions.antt =====
-- Registering and ending transactions, against the invariant of the heap (example/Index.cc).
use oxford_sigmod.Base.{ℕ, some, List, [], ◌∷◌, String, ◌≡◌, arith, ap, ◌∙◌}
use oxford_sigmod.Base.Sets.{member, erase}
use oxford_sigmod.Bdb.{Bdb}
use oxford_sigmod.Structure.{IndexStructure, start_transaction, end_transaction}
use oxford_sigmod.Structure.Transactions.{start_transaction-IsSafe}
use oxford_sigmod.World.{◌>>◌, pure, set_structure}
use oxford_sigmod.Manager.{
  start_transaction_at, end_transaction_at, end_transaction_in, close_transaction,
}
use oxford_sigmod.Consistency.Invariant.{Keeps}
use oxford_sigmod.Consistency.Rules.{Ensures-structure_at, Keeps-bind, Keeps-pure}
use oxford_sigmod.Consistency.Heap.{IsConsistent-replace}

start_transaction-handles :
    (tx : ℕ) (s : IndexStructure) → (start_transaction tx s).1.handles ≡ s.handles
unfolding start_transaction
start_transaction-handles tx s = ground arith

module _ {B : Bdb} where
  pub start_transaction_at-Keeps : (p tx : ℕ) → Keeps {B = B} (start_transaction_at p tx)
  unfolding start_transaction_at
  start_transaction_at-Keeps p tx w c =
      Ensures-structure_at (λ _ w'. Unit {0}) p
        (λ s. set_structure p (some (start_transaction tx s).1) >> pure (start_transaction tx s).0)
        w c
        λ s found. (
          IsConsistent-replace c p s (start_transaction tx s).1 found (record {
            still_safe = start_transaction-IsSafe tx s (c.safe p s found);
            still_listed =
                λ h i at open_handle uses m. ap (member h) (start_transaction-handles tx s) ∙ m;
          }),
          tt,
        )

  pub end_transaction_at-Keeps : (p tx : ℕ) → Keeps {B = B} (end_transaction_at p tx)
  unfolding end_transaction_at end_transaction
  end_transaction_at-Keeps p tx w c =
      Ensures-structure_at (λ _ w'. Unit {0}) p (λ s. set_structure p (some (end_transaction tx s)))
        w c
        λ s found. (
          IsConsistent-replace c p s (end_transaction tx s) found (record {
            still_safe = λ frozen. ap (erase tx) (c.safe p s found frozen);
            still_listed = λ h i at open_handle uses m. m;
          }),
          tt,
        )

  end_transaction_in-Keeps :
      (tx : ℕ) (m : List (String × ℕ)) → Keeps {B = B} (end_transaction_in tx m)
  unfolding end_transaction_in
  end_transaction_in-Keeps tx [] = Keeps-pure tt
  end_transaction_in-Keeps tx ((n, p) ∷ m) =
      Keeps-bind (end_transaction_at p tx) (λ _. end_transaction_in tx m)
        (end_transaction_at-Keeps p tx) (λ _. end_transaction_in-Keeps tx m)

  pub close_transaction-Keeps : (tx : ℕ) → Keeps {B = B} (close_transaction tx)
  unfolding close_transaction
  close_transaction-Keeps tx w c = end_transaction_in-Keeps tx w.indices w c
