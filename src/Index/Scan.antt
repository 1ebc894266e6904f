-- ===== src/Index/Scan.antt =====
-- The loops over duplicates of `Update` and `Delete`, over the rows behind the cursor
-- (example/Index.cc).
use oxford_sigmod.Base.{
  ℕ, zero, suc, ◌<◌, Bool, true, false, none, some, List, [], ◌∷◌, ◌++◌, ◌≡◌, refl, arith, length,
  Ordering, All, if◌then◌else◌, Bool-cases, inl, inr,
}
use oxford_sigmod.Types.{Key}
use oxford_sigmod.Util.{keycmp}
use oxford_sigmod.Bdb.{Bdb, Dbt, Row, Code, success, not_found, db_next, db_next_dup}
use oxford_sigmod.Bdb.Laws.{Scan, Cursors, same_key, unwind, seek}
use oxford_sigmod.World.{World, M, returned}
use oxford_sigmod.Index.Modify.{next_loop, next_dup_loop}

-- The rows behind the cursor once each of them has been changed.
abbrev pub change_all : (Row → List Row) → List Row → List Row → List Row
change_all f passed [] = passed
change_all f passed (r ∷ rows) = change_all f (f r ++ passed) rows

-- The rows behind the cursor with the same key as at the cursor, and those after them.
abbrev pub change_dups : (Dbt → Dbt → Bool) → (Row → List Row) → Dbt → List Row → List Row → Scan
change_dups less f k passed [] = record { passed = passed; at_key = k; ahead = [] }
change_dups less f k passed (r ∷ rows) =
    let rest = change_dups less f r.key (f r ++ passed) rows in
    if same_key less r.key k then rest else record { passed = passed; at_key = k; ahead = r ∷ rows }

-- `before` back to front on top of `passed`.
abbrev pub push : List Row → List Row → List Row
push [] passed = passed
push (r ∷ before) passed = push before (r ∷ passed)

pub unwind-push :
    (before passed rows : List Row)
    → unwind (push before passed) rows ≡ unwind passed (before ++ rows)
unwind-push [] passed rows = refl
unwind-push (r ∷ before) passed rows = unwind-push before (r ∷ passed) rows

-- `seek` stops at the first row that passes the test.
pub seek-first :
    (test : Row → Bool) (before : List Row) (r : Row) (after passed : List Row)
    → All (λ s. test s ≡ false) before
    → test r ≡ true
    → seek test passed (before ++ r ∷ after)
      ≡ some (record { passed = r ∷ push before passed; at_key = r.key; ahead = after })
unfolding seek
seek-first test [] r after passed none_before hit = ground (arith, hit)
seek-first test (s ∷ before) r after passed none_before hit =
    ground (arith, none_before.0, seek-first test before r after (s ∷ passed) none_before.1 hit)

pub seek-none :
    (test : Row → Bool) (rows passed : List Row)
    → All (λ s. test s ≡ false) rows
    → seek test passed rows ≡ none
unfolding seek
seek-none test [] passed h = refl
seek-none test (s ∷ rows) passed h = ground (arith, h.0, seek-none test rows (s ∷ passed) h.1)

module _ {B : Bdb} {less : Dbt → Dbt → Bool} (L : Cursors B less) where
  open L use {On, gets}

  -- What the program does at its cursor succeeds and puts the rows `f r` for the row `r` there.
  abbrev pub Changes : ℕ → ℕ → (ℕ → Dbt → M B Code) → (Row → List Row) → Type 0
  Changes db c act f =
      (w : World B) (z : Scan) (k : Dbt) (r : Row) (p : List Row)
      → z.passed ≡ r ∷ p
      → On db c z w.env
      → (e' : B.Env) × (act c k w ≡ (returned success, record w { env = e' }))
        × On db c (record z { passed = f r ++ p }) e'

  module _ (db c : ℕ) (act : ℕ → Dbt → M B Code) (f : Row → List Row)
      (changes : Changes db c act f) where
    -- With DB_NEXT_DUP the loop changes the rows behind the cursor that have the key at the cursor,
    -- whatever their values, and stops with DB_NOTFOUND before the first with another key. The change
    -- has to succeed at each row, and the fuel has to exceed the number of rows behind the cursor.
    pub next_dup_loop-changes_dups :
        (fuel : ℕ) (passed : List Row) (k : Dbt) (rows : List Row) (row : Row) (w : World B)
        → length rows < fuel
        → On db c (record { passed = passed; at_key = k; ahead = rows }) w.env
        → (e' : B.Env) × (next_dup_loop fuel (act c) c row w
            ≡ (returned not_found, record w { env = e' }))
          × On db c (change_dups less f k passed rows) e'
    unfolding next_dup_loop
    next_dup_loop-changes_dups zero passed k rows row w h on = absurd (omega arith)
    next_dup_loop-changes_dups (suc fuel) passed k [] row w h on =
        let (e', got, on') = gets db_next_dup row.key row.value on in (e', ground (arith, got), on')
    next_dup_loop-changes_dups (suc fuel) passed k (r ∷ rows) row w h on =
        elim (Bool-cases (same_key less r.key k)) [
          | inl dup ↦
              let (e', got, on') = rw dup at (gets db_next_dup row.key row.value on) in
              let (e'', acted, on'') = changes (record w { env = e' }) _ r.key r passed refl on' in
              let (e3, looped, on3) =
                next_dup_loop-changes_dups fuel (f r ++ passed) r.key rows r
                  (record w { env = e'' }) (omega arith) on'' in
              rw dup (e3, ground (arith, got, acted, looped), on3)
          | inr other ↦
              let (e', got, on') = rw other at (gets db_next_dup row.key row.value on) in
              rw other (e', ground (arith, got), on')
        ]

    module _ (cmpkey key : Key) (same : keycmp cmpkey key ≡ some Ordering.eq) where
      -- With DB_NEXT and two equal keys the loop changes every row behind the cursor.
      pub next_loop-changes_all :
          (fuel : ℕ) (passed : List Row) (k : Dbt) (rows : List Row) (row : Row) (w : World B)
          → length rows < fuel
          → On db c (record { passed = passed; at_key = k; ahead = rows }) w.env
          → (e' : B.Env) × (k' : Dbt) × (next_loop fuel (act c) c cmpkey key row w
              ≡ (returned not_found, record w { env = e' }))
            × On db c (record { passed = change_all f passed rows; at_key = k'; ahead = [] }) e'
      unfolding next_loop
      next_loop-changes_all zero passed k rows row w h on = absurd (omega arith)
      next_loop-changes_all (suc fuel) passed k [] row w h on =
          let (e', got, on') = gets db_next row.key row.value on in
          (e', k, ground (arith, got), on')
      next_loop-changes_all (suc fuel) passed k (r ∷ rows) row w h on =
          let (e', got, on') = gets db_next row.key row.value on in
          let (e'', acted, on'') = changes (record w { env = e' }) _ r.key r passed refl on' in
          let (e3, k3, looped, on3) =
            next_loop-changes_all fuel (f r ++ passed) r.key rows r (record w { env = e'' })
              (omega arith) on'' in
          (e3, k3, ground (arith, got, same, acted, looped), on3)
