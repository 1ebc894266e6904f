-- ===== src/Index/Lookup.antt =====
-- Where the cursor of `Update` and `Delete` finds its first record, and what the bookkeeping of
-- transactions does to the heap (example/Index.cc).
use oxford_sigmod.Base.{
  ℕ, true, false, not, Option, none, some, List, [], ◌∷◌, ◌++◌, ◌≡◌, refl, arith, Ordering, All,
  Bool-cases, inl, inr,
}
use oxford_sigmod.Types.{Key, AttributeType}
use oxford_sigmod.Util.{keycmp}
use oxford_sigmod.Bdb.{Bdb, Dbt, Row, success, db_set_range}
use oxford_sigmod.Bdb.Laws.{Cursors, start}
use oxford_sigmod.Structure.{
  get_bdb_key, get_key, below, compare_dbts, IndexStructure, start_transaction,
}
use oxford_sigmod.Base.Sets.{insert}
use oxford_sigmod.Structure.Transactions.{start_transaction-writable}
use oxford_sigmod.Manager.{start_transaction_at}
use oxford_sigmod.Structure.Encoding.{IsExact, get_key-get_bdb_key}
use oxford_sigmod.World.{World, returned, update}
use oxford_sigmod.Index.Modify.{find_first, register_parent}
use oxford_sigmod.Index.Scan.{push, seek-first}

-- How the key of a row compares with the given key.
abbrev pub order_to : List AttributeType → Key → Row → Option Ordering
order_to types key row = keycmp (get_key types row.key) key

module _ {B : Bdb} (types : List AttributeType) (L : Cursors B (below types)) (db c : ℕ) (key : Key)
    (exact : IsExact types key) where
  open L use {On, gets}

  abbrev dbt : Dbt
  dbt = get_bdb_key types key false

  below_dbt :
      (row : Row) (o : Ordering)
      → order_to types key row ≡ some o
      → compare_dbts types row.key dbt ≡ some o
  unfolding compare_dbts
  below_dbt row o e = rw (get_key-get_bdb_key types key false exact) e

  below-dbt-lt :
      (row : Row)
      → order_to types key row ≡ some Ordering.lt
      → not (below types row.key dbt) ≡ false
  below-dbt-lt row e = ground (arith, below_dbt row Ordering.lt e)

  below-dbt-eq :
      (row : Row) → order_to types key row ≡ some Ordering.eq → not (below types row.key dbt) ≡ true
  below-dbt-eq row e = ground (arith, below_dbt row Ordering.eq e)

  All-below :
      (before : List Row)
      → All (λ s. order_to types key s ≡ some Ordering.lt) before
      → All (λ s. not (below types s.key dbt) ≡ false) before
  All-below [] h = tt
  All-below (s ∷ before) h = (below-dbt-lt s h.0, All-below before h.1)

  pub find_first-by_key :
      (before : List Row) (r : Row) (after : List Row) (w : World B)
      → All (λ s. order_to types key s ≡ some Ordering.lt) before
      → order_to types key r ≡ some Ordering.eq
      → On db c (start (before ++ r ∷ after)) w.env
      → (e' : B.Env) × (find_first types key true c dbt [] w
          ≡ (returned (success, r), record w { env = e' }))
        × On db c (record { passed = r ∷ push before []; at_key = r.key; ahead = after }) e'
  unfolding find_first
  find_first-by_key before r after w lower equal on =
      let hit =
        seek-first (λ s. not (below types s.key dbt)) before r after [] (All-below before lower)
          (below-dbt-eq r equal) in
      let (e', got, on') = gets db_set_range dbt [] on in
      (e', ground (arith, got, hit, equal), rw hit at on')

-- The structure at `p` is `s`, but for its set of transactions.
abbrev pub IsTouched : ℕ → IndexStructure → (ℕ → Option IndexStructure) → Type 0
IsTouched p s F = (T : List ℕ) × (F p ≡ some (record s { transactions = T }))

start_transaction-touches :
    (tx : ℕ) (s : IndexStructure)
    → (T : List ℕ) × ((start_transaction tx s).1 ≡ record s { transactions = T })
unfolding start_transaction
start_transaction-touches tx s = elim (Bool-cases s.read_only) [
  | inl frozen ↦ (s.transactions, ground (arith, frozen))
  | inr writable ↦ (insert tx s.transactions, ground (arith, writable))
]

module _ {B : Bdb} where
  pub start_transaction_at-runs :
      (p tx : ℕ) (w : World B) (s : IndexStructure)
      → w.structures p ≡ some s
      → s.read_only ≡ false
      → start_transaction_at p tx w ≡ (
        returned true,
        record w {
          structures =
              update w.structures p (some (record s { transactions = insert tx s.transactions }));
        },
      )
  unfolding start_transaction_at
  start_transaction_at-runs p tx w s at writable =
      ground (arith, at, start_transaction-writable tx s writable)

  pub register_parent-runs :
      (p : ℕ) (tx : Option ℕ) (w : World B) (s : IndexStructure)
      → w.structures p ≡ some s
      → (F : ℕ → Option IndexStructure) × (register_parent p tx w
          ≡ (returned tt, record w { structures = F }))
        × IsTouched p s F
  unfolding register_parent start_transaction_at
  register_parent-runs p none w s at = (w.structures, refl, (s.transactions, at))
  register_parent-runs p (some t) w s at =
      let (T, same) = start_transaction-touches t s in
      (
        update w.structures p (some (start_transaction t s).1),
        ground (arith, at),
        (T, ground (arith, same)),
      )
