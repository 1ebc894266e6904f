-- ===== src/Iterator/Loop.antt =====
-- The loop of `Iterator::Next` over the rows behind the cursor (example/Iterator.cc).
use oxford_sigmod.Base.{
  ℕ, zero, suc, ◌<◌, Bool, true, Option, none, some, List, [], ◌∷◌, ◌++◌, ◌≡◌, refl, arith, length,
  All, ◌∙◌,
}
use oxford_sigmod.Types.{Key, AttributeType}
use oxford_sigmod.Util.{check_bounds, Bounds, inside, exceeds}
use oxford_sigmod.Bdb.{Bdb, Dbt, Row, success, not_found, db_next}
use oxford_sigmod.Bdb.Laws.{Scan, Cursors, contents, unwind}
use oxford_sigmod.Structure.{get_key}
use oxford_sigmod.World.{World, Iterator, Outcome, returned, update}
use oxford_sigmod.Iterator.{next_record, set_ended, next_failed, fetch}

-- What `CheckBounds` answers for a row.
abbrev pub bounds_of : List AttributeType → Key → Row → Option Bounds
bounds_of types max row = check_bounds (get_key types row.key) max

-- Rows that the loop passes over: an attribute other than the first is too large.
abbrev pub IsSkipped : List AttributeType → Key → Row → Type 0
IsSkipped types max row = (n : ℕ) × (bounds_of types max row ≡ some (exceeds (suc n)))

-- Rows that `CheckBounds` refuses.
abbrev pub IsOutside : List AttributeType → Key → Row → Type 0
IsOutside types max row = (n : ℕ) × (bounds_of types max row ≡ some (exceeds n))

abbrev pub at_row : Iterator → Row → Iterator
at_row i row = record i { key = row.key; value = row.value; initialized = true }

-- The row at the cursor and the rows after it, when the loop has `skipped`, `row` and `rest` to go.
abbrev pub first_of_rows : List Row → Row → Row
first_of_rows [] row = row
first_of_rows (s ∷ skipped) row = s

abbrev pub rows_after : List Row → Row → List Row → List Row
rows_after [] row rest = rest
rows_after (s ∷ skipped) row rest = skipped ++ row ∷ rest

-- An iterator that is at its end: the cursor is closed.
abbrev pub ended : Iterator → Iterator
ended i = record i { end = true; cursor = none }

module _ {B : Bdb} {less : Dbt → Dbt → Bool} (L : Cursors B less) (db c : ℕ)
    (types : List AttributeType) (it : ℕ) where
  open L use {On, gets, closes, rows, on_rows}

  pub fetch-next :
      (i : Iterator) (s t : Row) (passed ahead : List Row) (k : Dbt) (w : World B)
      → i.cursor ≡ some c
      → On db c (record { passed = passed; at_key = k; ahead = t ∷ ahead }) w.env
      → (e' : B.Env) × (fetch it (at_row i s) db_next w ≡ (
        returned (success, at_row i t),
        record w { env = e'; iterators = update w.iterators it (some (at_row i t)) },
      ))
        × On db c (record { passed = t ∷ passed; at_key = t.key; ahead = ahead }) e'
  unfolding fetch
  fetch-next i s t passed ahead k w at on =
      let (e', got, on') = gets db_next s.key s.value on in (e', ground (arith, got, at), on')

  pub next_record-found :
      (fuel : ℕ) (passed : List Row) (k : Dbt) (skipped : List Row) (row : Row) (rest : List Row)
      (i : Iterator) (w : World B)
      → length skipped < fuel
      → i.cursor ≡ some c
      → w.iterators it ≡ some (at_row i (first_of_rows skipped row))
      → On db c (record { passed = passed; at_key = k; ahead = rows_after skipped row rest }) w.env
      → All (IsSkipped types i.max_key) skipped
      → bounds_of types i.max_key row ≡ some inside
      → (F : ℕ → Option Iterator) × (e' : B.Env) × (z : Scan) × (next_record fuel types it success
            (at_row i (first_of_rows skipped row))
            w
          ≡ (returned true, record w { iterators = F; env = e' }))
        × (F it ≡ some (at_row i row))
        × On db c z e'
        × (z.ahead ≡ rest)
        × (contents z ≡ unwind passed (rows_after skipped row rest))
  unfolding next_record
  next_record-found zero passed k skipped row rest i w h at kept on all hit = absurd (omega arith)
  next_record-found (suc fuel) passed k [] row rest i w h at kept on all hit = (
    w.iterators,
    w.env,
    record { passed = passed; at_key = k; ahead = rest },
    ground (arith, hit),
    kept,
    on,
    refl,
    refl,
  )
  next_record-found (suc fuel) passed k (s ∷ []) row rest i w h at kept on all hit =
      let (e1, fetched, on1) = fetch-next i s row passed rest k w at on in
      let w1 : World B = record w {
        env = e1;
        iterators = update w.iterators it (some (at_row i row));
      } in
      let (F, e2, z, ran, kept', on2, behind, same) =
        next_record-found fuel (row ∷ passed) row.key [] row rest i w1 (omega arith) at
          (ground arith) on1 tt hit in
      (F, e2, z, ground (arith, all.0.1, fetched, ran), kept', on2, behind, same)
  next_record-found (suc fuel) passed k (s ∷ t ∷ skipped) row rest i w h at kept on all hit =
      let (e1, fetched, on1) = fetch-next i s t passed (skipped ++ row ∷ rest) k w at on in
      let w1 : World B = record w {
        env = e1;
        iterators = update w.iterators it (some (at_row i t));
      } in
      let (F, e2, z, ran, kept', on2, behind, same) =
        next_record-found fuel (t ∷ passed) t.key (t ∷ skipped) row rest i w1 (omega arith) at
          (ground arith) on1 all.1 hit in
      (F, e2, z, ground (arith, all.0.1, fetched, ran), kept', on2, behind, same)

  set_ended-runs :
      (i : Iterator) (z : Scan) (w : World B)
      → i.cursor ≡ some c
      → On db c z w.env
      → (F : ℕ → Option Iterator) × (e' : B.Env) × (set_ended it i w
          ≡ (returned (ended i), record w { iterators = F; env = e' }))
        × (F it ≡ some (ended i))
        × (rows db e' ≡ contents z)
  unfolding set_ended
  set_ended-runs i z w at on =
      let (e', closed, kept) = closes on in
      (
        update (update w.iterators it (some (record i { end = true }))) it (some (ended i)),
        e',
        ground (arith, closed, at),
        ground arith,
        kept ∙ on_rows on,
      )

  -- What the loop does when no row that is left is inside the bound.
  abbrev pub EndsAt : Iterator → World B → List Row → (World B → Outcome Bool × World B) → Type 0
  EndsAt i w all_rows call =
      (F : ℕ → Option Iterator) × (e' : B.Env) × (j : Iterator) × (call w
        ≡ (returned true, record w { iterators = F; env = e' }))
      × (F it ≡ some (ended j))
      × (rows db e' ≡ all_rows)

  pub no_row_left :
      (fuel : ℕ) (i : Iterator) (z : Scan) (w : World B)
      → i.cursor ≡ some c
      → On db c z w.env
      → EndsAt i w (contents z) (next_record (suc fuel) types it not_found i)
  unfolding next_record next_failed
  no_row_left fuel i z w at on =
      let (F, e', ran, kept, final) = set_ended-runs i z w at on in
      (F, e', i, ground (arith, ran), kept, final)

  fetch-end :
      (i : Iterator) (s : Row) (passed : List Row) (k : Dbt) (w : World B)
      → i.cursor ≡ some c
      → On db c (record { passed = passed; at_key = k; ahead = [] }) w.env
      → (e' : B.Env) × (fetch it (at_row i s) db_next w ≡ (
        returned (not_found, at_row i s),
        record w { env = e'; iterators = update w.iterators it (some (at_row i s)) },
      ))
        × On db c (record { passed = passed; at_key = k; ahead = [] }) e'
  unfolding fetch
  fetch-end i s passed k w at on =
      let (e', got, on') = gets db_next s.key s.value on in (e', ground (arith, got, at), on')

  pub next_record-ends :
      (fuel : ℕ) (passed : List Row) (k : Dbt) (cur : Row) (ahead : List Row) (i : Iterator)
      (w : World B)
      → suc (length ahead) < fuel
      → i.cursor ≡ some c
      → On db c (record { passed = passed; at_key = k; ahead = ahead }) w.env
      → IsOutside types i.max_key cur
      → All (IsOutside types i.max_key) ahead
      → EndsAt i w (unwind passed ahead) (next_record fuel types it success (at_row i cur))
  unfolding next_record
  next_record-ends zero passed k cur ahead i w h at on out all = absurd (omega arith)
  next_record-ends (suc fuel) passed k cur ahead i w h at on (zero, out) all =
      let (F, e', ran, kept, final) = set_ended-runs (at_row i cur) _ w at on in
      (F, e', at_row i cur, ground (arith, out, ran), kept, final)
  next_record-ends (suc zero) passed k cur ahead i w h at on (suc n, out) all = absurd (omega arith)
  next_record-ends (suc (suc fuel)) passed k cur [] i w h at on (suc n, out) all =
      let (e1, fetched, on1) = fetch-end i cur passed k w at on in
      let w1 : World B = record w {
        env = e1;
        iterators = update w.iterators it (some (at_row i cur));
      } in
      let (F, e2, j, ran, kept, final) = no_row_left fuel (at_row i cur) _ w1 at on1 in
      (F, e2, j, ground (arith, out, fetched, ran), kept, final)
  next_record-ends (suc (suc fuel)) passed k cur (t ∷ ahead) i w h at on (suc n, out) all =
      let (e1, fetched, on1) = fetch-next i cur t passed ahead k w at on in
      let w1 : World B = record w {
        env = e1;
        iterators = update w.iterators it (some (at_row i t));
      } in
      let (F, e2, j, ran, kept, final) =
        next_record-ends (suc fuel) (t ∷ passed) t.key t ahead i w1 (omega arith) at on1 all.0
          all.1 in
      (F, e2, j, ground (arith, out, fetched, ran), kept, final)
