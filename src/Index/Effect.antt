-- ===== src/Index/Effect.antt =====
-- `Update` and `Delete` as a whole (example/Index.cc), against the rows of the index.
use oxford_sigmod.Base.{
  ℕ, ◌<◌, Bool, true, false, Option, some, List, [], ◌∷◌, ◌++◌, ◌≡◌, refl, ◌∙◌, arith, length,
  Ordering, All,
}
use oxford_sigmod.Types.{Key, AttributeType, ErrorCode, k_ok, Block}
use oxford_sigmod.Bdb.{Bdb, Dbt, Row, Code}
use oxford_sigmod.Bdb.Laws.{Cursors, start, unwind}
use oxford_sigmod.Structure.{get_key, below, IndexStructure, end_transaction}
use oxford_sigmod.Base.Sets.{insert, erase}
use oxford_sigmod.Structure.Encoding.{IsExact}
use oxford_sigmod.World.{World, Index, M, returned, update}
use oxford_sigmod.Index.Modify.{modify_matching, in_transaction, match_duplicates, ignore_payload}
use oxford_sigmod.Index.Scan.{push, Changes, change_all, next_loop-changes_all}
use oxford_sigmod.Index.Lookup.{
  order_to, find_first-by_key, start_transaction_at-runs, register_parent-runs, IsTouched,
}

-- A handle on an index that can be written: what `modify` reads through the pointers.
pub record Opened {B : Bdb} (w : World B) (h p db : ℕ) (s : IndexStructure) : Type 0 where
  pub object : Index
  pub at_object : w.objects h ≡ some object
  pub at_db : object.db ≡ some db
  pub at_structure : object.structure ≡ some p
  pub found : w.structures p ≡ some s
  pub writable : s.read_only ≡ false

-- A call at a fresh cursor returns `code` and leaves the rows `final`.
abbrev pub Leaves :
    {B : Bdb} {less : Dbt → Dbt → Bool}
    → Cursors B less
    → ℕ
    → ℕ
    → List Row
    → List Row
    → ErrorCode
    → (ℕ → M B ErrorCode)
    → Type 0
Leaves {B} L db p initial final code body =
    (c : ℕ) (w : World B) (s : IndexStructure)
    → w.structures p ≡ some s
    → Cursors.On L db c (start initial) w.env
    → (F : ℕ → Option IndexStructure) × (e' : B.Env) × (body c w
        ≡ (returned code, record w { structures = F; env = e' }))
      × IsTouched p s F
      × (Cursors.rows L db e' ≡ final)

module _ {B : Bdb} (types : List AttributeType) (L : Cursors B (below types)) (db : ℕ) (key : Key)
    (exact : IsExact types key) (act : ℕ → Dbt → M B Code) (f : Row → List Row)
    (changes : (c : ℕ) → Changes L db c act f) (before : List Row) (r : Row) (after : List Row)
    (lower : All (λ s. order_to types key s ≡ some Ordering.lt) before)
    (equal : order_to types key r ≡ some Ordering.eq) where
  open L use {On, begins, commits, opens, rows, on_rows}

  -- The rows up to the first match once it is changed, nearest first.
  abbrev changed : List Row
  changed = f r ++ push before []

  pub modify_matching-duplicates :
      (fuel : ℕ) (tx : Option ℕ) (p : ℕ) (error : ErrorCode) (payload : Block) (flags : ℕ)
      → match_duplicates flags ≡ true
      → ignore_payload flags ≡ true
      → length after < fuel
      → Leaves L db p (before ++ r ∷ after) (unwind (change_all f changed after) []) k_ok (
          modify_matching fuel tx p types act error (record { key = key; payload = payload }) flags)
  unfolding modify_matching
  modify_matching-duplicates fuel tx p error payload flags many by_key enough c w s at on =
      let (e1, found, on1) =
        find_first-by_key types L db c key exact before r after w lower equal on in
      let (e2, acted, on2) =
        changes c (record w { env = e1 }) _ r.key r (push before []) refl on1 in
      let (F, registered, at') = register_parent-runs p tx (record w { env = e2 }) s at in
      let (e3, k3, looped, on3) =
        next_loop-changes_all L db c act f (changes c) (get_key types r.key) key equal fuel changed
          r.key after r (record w { structures = F; env = e2 }) enough on2 in
      (F, e3, ground (arith, found, acted, registered, many, by_key, looped), at', on_rows on3)

module _ {B : Bdb} {less : Dbt → Dbt → Bool} (L : Cursors B less) (db : ℕ) where
  open L use {On, begins, commits, opens, rows}

  pub in_transaction-Leaves :
      (tx : Option ℕ) (p : ℕ) (initial final : List Row) (code : ErrorCode)
      (body : ℕ → M B ErrorCode) (w : World B) (s : IndexStructure)
      → Leaves L db p initial final code body
      → w.structures p ≡ some s
      → s.read_only ≡ false
      → rows db w.env ≡ initial
      → (F : ℕ → Option IndexStructure) × (e' : B.Env) × (in_transaction tx p db body w
          ≡ (returned code, record w { structures = F; env = e' }))
        × IsTouched p s F
        × (rows db e' ≡ final)
  unfolding in_transaction end_transaction
  in_transaction-Leaves tx p initial final code body w s leaves at writable same =
      let (t, e1, begun, kept) = begins db tx w.env in
      let started = start_transaction_at-runs p t (record w { env = e1 }) s at writable in
      let (c, e2, opened, on) = opens db (some t) e1 in
      let s1 : IndexStructure = record s { transactions = insert t s.transactions } in
      let w2 : World B = record w { env = e2; structures = update w.structures p (some s1) } in
      let (F, e3, ran, (T, at'), final_rows) =
        leaves c w2 s1 (ground arith) (rw (kept ∙ same) at on) in
      let (e4, committed, kept') = commits db t e3 in
      (
        update F p (some (end_transaction t (record s1 { transactions = T }))),
        e4,
        ground (arith, begun, started, opened, ran, committed, at'),
        (erase t T, ground arith),
        kept' ∙ final_rows,
      )
